-- ===== src/Toolbars/Actions.antt =====
-- worker/toolbars/scripted_toolbar.cpp: what a client can do with a toolbar.
use minide.Base.{
  Bool, true, false, Option, none, some, List, [], ◌∷◌, Bytes, codes, ℤ, bytes_eq, if◌then◌else◌,
}
use minide.Toolbars.{
  Lua, Argument, text_argument, int_argument, bool_argument, various, Action, ◌>>=◌, ◌>>◌, give,
  fail, or_throw, demand, read, guarded, timed, catching, call,
}

module _ {L T : Type 0} (lib : Lua L T) where
  -- The loop over the items: the first with the id.
  unfoldable pub find_item : Bytes → List (Option T) → Action L T
  find_item item_id [] = fail (various (codes "item id not found"))
  find_item item_id (none ∷ items) = or_throw none
  find_item item_id (some item ∷ items) = do
    id ← read (lib.get_text_or item (codes "id") [])
    let rest = find_item item_id items
    if bytes_eq id item_id then give item else rest

  -- The place in the source, which the message gives too, is left out.
  unfoldable pub check_loaded : Action L (Unit {0})
  check_loaded s = demand s.loaded (codes "not loaded (how did this happen?)") s

  unfoldable pub get_item : Bytes → Action L T
  get_item item_id = guarded do
    check_loaded
    valid ← read (lib.global_valid (codes "get_toolbar"))
    demand valid (codes "missing get_toolbar function")
    interface ← call (codes "get_toolbar") (lib.call_for_table (codes "get_toolbar"))
    has_items ← read (lib.valid interface (codes "items"))
    demand has_items (codes "toolbar is missing items")
    items ← read (lib.table_at interface (codes "items"))
    table ← or_throw items
    rows ← read (lib.entries table)
    catching (find_item item_id rows)

  -- The function at a key of the item, or the error where there is none.
  unfoldable pub call_or_fail : T → Bytes → List Argument → Bytes → Action L Bool
  call_or_fail item key args message = do
    callable ← read (lib.callable item key)
    if callable then call key (lib.call_field item key args) else fail (various message)

  -- The guard with a time is commented out here.
  unfoldable pub cancel_action : Bytes → Bool → Action L Bool
  cancel_action item_id force = do
    item ← get_item item_id
    call_or_fail item (codes "cancel") (bool_argument force ∷ [])
        (codes "item does not have a cancel, or cancel is not a function")

  -- The function gets the table itself in front.
  unfoldable pub on_log_double_click : Bool → Bytes → ℤ → Bytes → Action L (Unit {0})
  on_log_double_click free log_name line_number line_string = timed free do
    check_loaded
    valid ← read (lib.global_valid (codes "get_toolbar"))
    demand valid (codes "missing get_toolbar function")
    interface ← call (codes "get_toolbar") (lib.call_for_table (codes "get_toolbar"))
    result ← call (codes "on_log_double_click") (
        lib.call_field interface (codes "on_log_double_click")
          (text_argument log_name ∷ int_argument line_number ∷ text_argument line_string ∷ []))
    give tt

  unfoldable pub click_action : Bool → Bytes → Action L Bool
  click_action free id = timed free do
    item ← get_item id
    call_or_fail item (codes "action") []
        (codes "item does not have an action, or action is not a function")

  abbrev pub call_action : T → Bool → Action L (Unit {0})
  call_action entry false = give tt
  call_action entry true = do
    result ← call (codes "action") (lib.call_field entry (codes "action") [])
    give tt

  -- An action that is there and is no function is not called, and that is no error.
  unfoldable pub run_entry : T → Action L (Unit {0})
  run_entry entry = do
    valid ← read (lib.valid entry (codes "action"))
    demand valid (codes "item.entry does not have an action")
    callable ← read (lib.callable entry (codes "action"))
    call_action entry callable

  -- The loop over the entries of a menu: the first with the label.
  unfoldable pub find_entry : Bytes → List (Option T) → Action L (Unit {0})
  find_entry label [] = fail (various (codes "menu was found, but not the label of the menu entry"))
  find_entry label (none ∷ entries) = or_throw none
  find_entry label (some entry ∷ entries) = do
    found ← read (lib.get_text_or entry (codes "label") [])
    let rest = find_entry label entries
    if bytes_eq found label then run_entry entry else rest

  unfoldable pub menu_action : Bool → Bytes → Bytes → Action L (Unit {0})
  menu_action free item_id label = timed free do
    item ← get_item item_id
    has_entries ← read (lib.valid item (codes "entries"))
    demand has_entries (codes "no entries in menu")
    found ← read (lib.table_at item (codes "entries"))
    table ← or_throw found
    rows ← read (lib.entries table)
    find_entry label rows

  unfoldable pub load_combobox : Bool → Bytes → Action L (Unit {0})
  load_combobox free item_id = timed free do
    item ← get_item item_id
    result ←
        call_or_fail item (codes "load") []
          (codes "item does not have a load function, or member is not a function")
    give tt

  unfoldable pub combobox_select : Bool → Bytes → Bytes → Action L (Unit {0})
  combobox_select free item_id selected = timed free do
    check_loaded
    valid ← read (lib.global_valid (codes "combox_select"))
    demand valid (codes "missing combox_select function")
    callable ← read (lib.global_callable (codes "combox_select"))
    demand callable (codes "script interface misses the combox_select function")
    result ← call (codes "combox_select") (
        lib.call_global (codes "combox_select")
          (text_argument item_id ∷ text_argument selected ∷ []))
    give tt

-- A request about a toolbar.
pub data Gesture : Type 0 where
  clicks : Bytes → Gesture
  cancels : Bytes → Bool → Gesture
  picks : Bytes → Bytes → Gesture
  loads : Bytes → Gesture
  selects : Bytes → Bytes → Gesture
  double_clicks : Bytes → ℤ → Bytes → Gesture

module _ {L T : Type 0} (lib : Lua L T) where
  abbrev pub with_result : Action L Bool → Action L (Option Bool)
  with_result m = m >>= (λ b. give (some b))

  abbrev pub no_result : Action L (Unit {0}) → Action L (Option Bool)
  no_result m = m >> give none

  -- The member function for the request, with its result where it has one.
  unfoldable pub perform : Bool → Gesture → Action L (Option Bool)
  perform free (clicks id) = with_result (click_action lib free id)
  perform free (cancels id force) = with_result (cancel_action lib id force)
  perform free (picks id label) = no_result (menu_action lib free id label)
  perform free (loads id) = no_result (load_combobox lib free id)
  perform free (selects id selected) = no_result (combobox_select lib free id selected)
  perform free (double_clicks log_name line_number line_string) =
      no_result (on_log_double_click lib free log_name line_number line_string)
