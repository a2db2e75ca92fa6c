-- ===== src/Toolbars/Locking.antt =====
-- Toolbars: which actions call the script while the mutex is held.
use minide.Base.{
  ℕ, suc, ◌≤◌, ◌≡◌, ap, Bool, true, false, Option, none, some, List, [], ◌∷◌, Bytes, codes, ℤ,
  bytes_eq, arith,
}
use minide.Toolbars.{Lua, Argument, success, Engine, call, called}
use minide.Toolbars.Actions.{
  find_item, check_loaded, get_item, call_or_fail, cancel_action, on_log_double_click, click_action,
  Gesture, clicks, cancels, picks, loads, selects, double_clicks, perform, call_action, run_entry,
  find_entry, menu_action, load_combobox, combobox_select,
}
use minide.Toolbars.Guards.{
  Guards, bind-Guards, seq-Guards, give-Guards, fail-Guards, or_throw-Guards, demand-Guards,
  read-Guards, branch-Guards, catching-Guards, call-Guards, guarded-Guards, timed-Guards,
}

ruleset parts = (
  bind-Guards, seq-Guards, give-Guards, fail-Guards, or_throw-Guards, demand-Guards, read-Guards,
  branch-Guards, catching-Guards,
)

module _ {L T : Type 0} (lib : Lua L T) where
  module _ {enters least : ℕ} (le : least ≤ enters) where
    check_loaded-Guards : Guards enters least (check_loaded lib)
    unfolding check_loaded
    check_loaded-Guards = record { run = λ s e. (demand-Guards s.loaded _).run s e }

    call_in-Guards :
        {A : Type 0} (name : Bytes) (f : L → Option A × L) → Guards enters least (call name f)
    call_in-Guards name f = call-Guards le name f

    ruleset steps = (parts, check_loaded-Guards, call_in-Guards)

    find_item-Guards :
        (item_id : Bytes) (items : List (Option T))
        → Guards enters least (find_item lib item_id items)
    unfolding find_item
    find_item-Guards item_id [] = fail-Guards _
    find_item-Guards item_id (none ∷ items) = or_throw-Guards none
    find_item-Guards item_id (some item ∷ items) =
        bind-Guards {A = Bytes} (read-Guards (lib.get_text_or item (codes "id") [])) (λ id.
          branch-Guards (bytes_eq id item_id) (give-Guards item) (find_item-Guards item_id items))

    call_or_fail-Guards :
        (item : T) (key : Bytes) (args : List Argument) (message : Bytes)
        → Guards enters least (call_or_fail lib item key args message)
    unfolding call_or_fail
    call_or_fail-Guards item key args message = search steps depth 40 fits 3000

    call_action-Guards :
        (entry : T) (callable : Bool) → Guards enters least (call_action lib entry callable)
    call_action-Guards entry false = give-Guards tt
    call_action-Guards entry true = search steps depth 40 fits 3000

    run_entry-Guards : (entry : T) → Guards enters least (run_entry lib entry)
    unfolding run_entry
    run_entry-Guards entry = search (steps, call_action-Guards) depth 40 fits 3000

    find_entry-Guards :
        (label : Bytes) (entries : List (Option T))
        → Guards enters least (find_entry lib label entries)
    unfolding find_entry
    find_entry-Guards label [] = fail-Guards _
    find_entry-Guards label (none ∷ entries) = or_throw-Guards none
    find_entry-Guards label (some entry ∷ entries) =
        bind-Guards {A = Bytes} (read-Guards (lib.get_text_or entry (codes "label") [])) (λ found.
          branch-Guards (bytes_eq found label) (run_entry-Guards entry)
            (find_entry-Guards label entries))

  -- The parts of an action that stands behind a guard.
  check_held-Guards : {enters : ℕ} → Guards (suc enters) 1 (check_loaded lib)
  check_held-Guards = check_loaded-Guards (omega arith)

  call_held-Guards :
      {enters : ℕ} {A : Type 0} (name : Bytes) (f : L → Option A × L)
      → Guards (suc enters) 1 (call name f)
  call_held-Guards name f = call_in-Guards (omega arith) name f

  find_item_held-Guards :
      {enters : ℕ} (item_id : Bytes) (items : List (Option T))
      → Guards (suc enters) 1 (find_item lib item_id items)
  find_item_held-Guards item_id items = find_item-Guards (omega arith) item_id items

  call_or_fail_held-Guards :
      {enters : ℕ} (item : T) (key : Bytes) (args : List Argument) (message : Bytes)
      → Guards (suc enters) 1 (call_or_fail lib item key args message)
  call_or_fail_held-Guards item key args message =
      call_or_fail-Guards (omega arith) item key args message

  find_entry_held-Guards :
      {enters : ℕ} (label : Bytes) (entries : List (Option T))
      → Guards (suc enters) 1 (find_entry lib label entries)
  find_entry_held-Guards label entries = find_entry-Guards (omega arith) label entries

  get_item-Guards : {enters : ℕ} (item_id : Bytes) → Guards enters 1 (get_item lib item_id)
  unfolding get_item
  get_item-Guards item_id = guarded-Guards _ (
      search (parts, check_held-Guards, call_held-Guards, find_item_held-Guards) depth 40 fits 3000)

  ruleset held = (
    parts, check_held-Guards, call_held-Guards, call_or_fail_held-Guards, find_entry_held-Guards,
    get_item-Guards,
  )

  module _ (free : Bool) where
    click_action-Guards : (id : Bytes) → Guards 0 1 (click_action lib free id)
    unfolding click_action
    click_action-Guards id = timed-Guards free _ (search held depth 40 fits 3000)

    load_combobox-Guards : (item_id : Bytes) → Guards 0 1 (load_combobox lib free item_id)
    unfolding load_combobox
    load_combobox-Guards item_id = timed-Guards free _ (search held depth 40 fits 3000)

    menu_action-Guards : (item_id label : Bytes) → Guards 0 1 (menu_action lib free item_id label)
    unfolding menu_action
    menu_action-Guards item_id label = timed-Guards free _ (search held depth 40 fits 3000)

    combobox_select-Guards :
        (item_id selected : Bytes) → Guards 0 1 (combobox_select lib free item_id selected)
    unfolding combobox_select
    combobox_select-Guards item_id selected = timed-Guards free _ (search held depth 40 fits 3000)

    on_log_double_click-Guards :
        (log_name : Bytes) (line_number : ℤ) (line_string : Bytes)
        → Guards 0 1 (on_log_double_click lib free log_name line_number line_string)
    unfolding on_log_double_click
    on_log_double_click-Guards log_name line_number line_string =
        timed-Guards free _ (search held depth 40 fits 3000)

  abbrev pub is_cancel : Gesture → Bool
  is_cancel (cancels id force) = true
  is_cancel _ = false

  -- A request about a toolbar other than a cancel leaves the mutex as it was, whatever it ends
  -- with and whether it has got the mutex or not, and calls the script only while the mutex is
  -- held.
  pub perform-Guards :
      (free : Bool) (g : Gesture) → is_cancel g ≡ false → Guards 0 1 (perform lib free g)
  unfolding perform
  perform-Guards free (clicks id) e = bind-Guards (click_action-Guards free id) (λ b. give-Guards _)
  perform-Guards free (cancels id force) e = cc e
  perform-Guards free (picks id label) e =
      seq-Guards (menu_action-Guards free id label) (give-Guards _)
  perform-Guards free (loads id) e = seq-Guards (load_combobox-Guards free id) (give-Guards _)
  perform-Guards free (selects id selected) e =
      seq-Guards (combobox_select-Guards free id selected) (give-Guards _)
  perform-Guards free (double_clicks name line text) e =
      seq-Guards (on_log_double_click-Guards free name line text) (give-Guards _)

  -- Where the item of a cancel is found and has a function for it, the function is called while the mutex
  -- is held only as often as it was before the request: not at all, for a client.
  pub cancel_action-calls :
      (item_id : Bytes) (force : Bool) (s e : Engine L) (item : T)
      → get_item lib item_id s ≡ (success item, e)
      → lib.callable item (codes "cancel") e.lua ≡ true
      → (cancel_action lib item_id force s).1.calls ≡ (codes "cancel", s.held) ∷ e.calls
  unfolding cancel_action call_or_fail call
  cancel_action-calls item_id force s e item got callable = rw (got, callable) (by_result _)
    where
      same : e.held ≡ s.held
      same = rw got at ((get_item-Guards {enters = 0} item_id).run s (omega arith)).same_held

      by_result :
          (r : Option Bool × L)
          → (called (codes "cancel") r e).1.calls ≡ (codes "cancel", s.held) ∷ e.calls
      by_result (none, lua) = ap (λ n. (codes "cancel", n) ∷ e.calls) same
      by_result (some b, lua) = ap (λ n. (codes "cancel", n) ∷ e.calls) same
