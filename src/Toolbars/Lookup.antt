-- ===== src/Toolbars/Lookup.antt =====
-- Toolbars: the parts of a request reach only the toolbars that the session has.
use minide.Base.{
  ◌≡◌, refl, ap, sym, subst, ◌∙◌, Bool, true, false, ◌||◌, Option, none, some, List, [], ◌∷◌, Bytes,
  bytes_eq, bytes_eq_iff, inl, inr, Bool-cases, arith,
}
use minide.Base.Dict.{find, put, find-put}
use minide.Json.{JsonOps}
use minide.Toolbars.{Lua, Fallible, success, error, thrown}
use minide.Toolbars.Actions.{Gesture, perform}
use minide.Toolbars.Initialize.{Toolbar}
use minide.Toolbars.Requests.{
  ToolbarSession, ToolbarServer, id_of, has_id, toolbar_by_id, R, toolbar_session, need_all,
  found_or_refuse, find_toolbar, answer_result, act_on, act,
}
use minide.Router.Handler.{Answer, or_raise, require, ◌>>=◌}
use minide.Router.Triples.{Triple, Ends, bind-Triple, seq-Triple, require-Triple, weaken-Triple}

-- Whether an address is one of the list.
unfoldable pub is_in : Bytes → List Bytes → Bool
is_in address [] = false
is_in address (a ∷ addresses) = bytes_eq a address || is_in address addresses

abbrev pub toolbars_of : Option ToolbarSession → List Bytes
toolbars_of none = []
toolbars_of (some session) = session.scripted_toolbars

toolbar_by_id-is_in :
    {J L : Type 0} (toolbars : List (Bytes × Toolbar J L)) (id : Bytes) (addresses : List Bytes)
    (address : Bytes)
    → toolbar_by_id toolbars id addresses ≡ some address
    → is_in address addresses ≡ true
unfolding toolbar_by_id is_in
toolbar_by_id-is_in toolbars id [] address e = cc e
toolbar_by_id-is_in toolbars id (a ∷ addresses) address e =
    elim (Bool-cases (has_id (id_of (find a toolbars)) id)) [
      | inl h ↦
          let same : a ≡ address = cc (rw h at e) in ground (arith, bytes_eq_iff a address, same)
      | inr h ↦
          let rest = toolbar_by_id-is_in toolbars id addresses address (rw h at e) in
          ground (arith, rest)
    ]

module _ {J L T : Type 0} (ops : JsonOps J) (array : List J → J) (lib : Lua L T) (id : Bytes)
    (start : ToolbarServer J L) (address : Bytes)
    (apart : is_in address (toolbars_of (find id start.sessions)) ≡ false) where
  -- The sessions, and the toolbar at the address, are as at the start.
  abbrev pub Kept : ToolbarServer J L → Type 0
  Kept s = (s.sessions ≡ start.sessions) × (find address s.toolbars ≡ find address start.toolbars)

  abbrev pub Same : ToolbarServer J L → Type 0
  Same s = s ≡ start

  pub kept : (s : ToolbarServer J L) → Same s → Kept s
  kept s e = (ap (λ u. u.sessions) e, ap (λ u. find address u.toolbars) e)

  answer_result-Triple :
      (r : Fallible (Option Bool)) → Triple Kept (answer_result ops array lib id r) (λ _. Kept) Kept
  answer_result-Triple (success none) = record { run = λ s k. k }
  answer_result-Triple (success (some b)) = record { run = λ s k. k }
  answer_result-Triple (error e) = record { run = λ s k. k }
  answer_result-Triple thrown = record { run = λ s k. k }

  pub act-Triple :
      (free : Bool) (gesture : Gesture) (at : Bytes)
      → Triple
          (λ s. Same s × (bytes_eq at address ≡ false))
          (act ops array lib id free gesture at)
          (λ _. Kept)
          Kept
  unfolding act
  act-Triple free gesture at = record { run = λ s h. by_found s h (find at s.toolbars) }
    where
      by_found :
          (s : ToolbarServer J L)
          → Same s × (bytes_eq at address ≡ false)
          → (o : Option (Toolbar J L))
          → Ends (λ _. Kept) Kept (act_on ops array lib id free gesture at o s)
      by_found s h none = kept s h.0
      by_found s h (some toolbar) =
          let r = perform lib free gesture toolbar.engine in
          (answer_result-Triple r.0).run
            (record s { toolbars = put at (record toolbar { engine = r.1 }) s.toolbars })
            (
              (kept s h.0).0,
              find-put address at (record toolbar { engine = r.1 }) s.toolbars
                  ∙ rw h.1 (kept s h.0).1,
            )

  toolbar_session-Triple :
      Triple Same
        (toolbar_session ops array lib id)
        (λ sess s. Same s × (find id start.sessions ≡ some sess))
        Kept
  unfolding toolbar_session
  toolbar_session-Triple = record { run = λ s e. by_found s e (find id s.sessions) refl }
    where
      by_found :
          (s : ToolbarServer J L)
          → Same s
          → (o : Option ToolbarSession) → find id s.sessions ≡ o
          → Ends
              (λ sess s. Same s × (find id start.sessions ≡ some sess))
              Kept
              (or_raise {FilePath = Unit {0}} o s)
      by_found s e none f = kept s e
      by_found s e (some sess) f = (e, sym (ap (λ u. find id u.sessions) e) ∙ f)

  find_toolbar-Triple :
      (sess : ToolbarSession) (toolbar_id : Bytes)
      → find id start.sessions ≡ some sess
      → Triple Same
          (find_toolbar ops array lib id sess toolbar_id)
          (λ at s. Same s × (bytes_eq at address ≡ false))
          Kept
  unfolding find_toolbar
  find_toolbar-Triple sess toolbar_id there = record {
    run = λ s e. by_found s e (toolbar_by_id s.toolbars toolbar_id sess.scripted_toolbars) refl;
  }
    where
      other :
          (toolbars : List (Bytes × Toolbar J L)) (at : Bytes)
          → toolbar_by_id toolbars toolbar_id sess.scripted_toolbars ≡ some at
          → bytes_eq at address ≡ false
      other toolbars at f = elim (Bool-cases (bytes_eq at address)) [
        | inr e ↦ e
        | inl e ↦
            let held : is_in at sess.scripted_toolbars ≡ true =
              toolbar_by_id-is_in toolbars toolbar_id sess.scripted_toolbars at f in
            let own : is_in address sess.scripted_toolbars ≡ true =
              subst (λ a. is_in a sess.scripted_toolbars ≡ true) ((bytes_eq_iff at address).0 e)
                held in
            cc (sym own ∙ rw there at apart)
      ]

      by_found :
          (s : ToolbarServer J L)
          → Same s
          → (o : Option Bytes) → toolbar_by_id s.toolbars toolbar_id sess.scripted_toolbars ≡ o
          → Ends
              (λ at s. Same s × (bytes_eq at address ≡ false))
              Kept
              (found_or_refuse ops array lib id o s)
      by_found s e none f = kept s e
      by_found s e (some at) f = (e, other s.toolbars at f)

  pub need_all-Triple :
      (checks : List Bytes) (body : J)
      → Triple Same (need_all ops array lib id checks body) (λ _. Same) Kept
  unfolding need_all
  need_all-Triple [] body = record { run = λ s e. e }
  need_all-Triple (check ∷ checks) body =
      seq-Triple (require-Triple kept (ops.contains body check) _)
        (weaken-Triple (λ s h. h.0) (need_all-Triple checks body))

  pub require-Same :
      (b : Bool) (msg : Bytes) → Triple {FilePath = Unit {0}} Same (require b msg) (λ _. Same) Kept
  require-Same true msg = record { run = λ s e. e }
  require-Same false msg = record { run = kept }

  pub or_raise-Same :
      {A : Type 0} (o : Option A) → Triple {FilePath = Unit {0}} Same (or_raise o) (λ _. Same) Kept
  or_raise-Same none = record { run = kept }
  or_raise-Same (some a) = record { run = λ s e. e }

  -- The text of the id, the lookup of the toolbar, and what is done with it.
  lookup-Triple :
      (sess : ToolbarSession) (toolbar_id : Option Bytes)
      (rest : Bytes → R ops array lib id (Answer (Unit {0})))
      → find id start.sessions ≡ some sess
      → ((at : Bytes)
          → Triple (λ s. Same s × (bytes_eq at address ≡ false)) (rest at) (λ _. Kept) Kept)
      → Triple Same
          (or_raise toolbar_id >>= (λ t. find_toolbar ops array lib id sess t >>= rest))
          (λ _. Kept)
          Kept
  lookup-Triple sess toolbar_id rest there h =
      bind-Triple (or_raise-Same toolbar_id) λ t. bind-Triple (find_toolbar-Triple sess t there) h

  pub from_session-Triple :
      (toolbar_id : Option Bytes) (rest : Bytes → R ops array lib id (Answer (Unit {0})))
      → ((at : Bytes)
          → Triple (λ s. Same s × (bytes_eq at address ≡ false)) (rest at) (λ _. Kept) Kept)
      → Triple Same
          (toolbar_session ops array lib id >>= (λ sess.
            or_raise toolbar_id >>= (λ t. find_toolbar ops array lib id sess t >>= rest)))
          (λ _. Kept)
          Kept
  from_session-Triple toolbar_id rest h =
      bind-Triple toolbar_session-Triple
        λ sess. record { run = λ s k. (lookup-Triple sess toolbar_id rest k.1 h).run s k.0 }
