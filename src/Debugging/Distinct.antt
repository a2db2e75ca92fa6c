-- ===== src/Debugging/Distinct.antt =====
-- Debugging: no session has two debuggers for run configurations of one name.
use minide.Base.{
  ◌≡◌, refl, sym, subst, ◌∙◌, Bool, true, ◌&&◌, Option, none, some, List, [], ◌∷◌, Bytes, bytes_eq,
  bytes_eq_iff, bytes_eq_self, inl, inr, Bool-cases, Option-cases, arith,
}
use minide.Base.Dict.{find, erase}
use minide.SessionStorage.{partially_save_session}
use minide.SessionStorage.Laws.{partially_save_session-find}
use minide.Settings.{Environments}
use minide.Debugging.Requests.{DebugSession, DebugServer, Tools, with_instances}
use minide.Debugging.Create.{create_instance, Event, creates, debug_handler, debug_handle}
use minide.Debugging.Names.{NamesDistinct, erase-NamesDistinct, instances_at}
use minide.Router.Handler.{Answer, Flow, value, returned, raised, inner, read_json_body}
use minide.Debugging.Isolation.{debug_handle-others, debug_handler-Keeps}
use minide.Router.Keeps.{StateRelation, Keeps, outer-keeps}
use minide.Router.Triples.{Ends}
use minide.Debugging.Ready.{Own, asks_for_one, create_instance-Triple, saved-instances}

module _ {J FilePath World : Type 0} (t : Tools J FilePath World) (settings : Environments)
    (id : Bytes) where
  -- The names stay distinct.
  abbrev stays : StateRelation (DebugServer FilePath World)
  stays = record {
    related = λ s u. (Own t settings id) s → (Own t settings id) u;
    related-refl = λ s own. own;
    related-trans = λ s u v h k own. k (h own);
  }

  erased :
      (s : DebugServer FilePath World) (k : Bytes) (from : DebugSession FilePath)
      → (Own t settings id) s
      → NamesDistinct (
          instances_at
            (find id (partially_save_session (with_instances (erase k)) id from s.sessions).1))
  erased s k from own = elim (Option-cases (find id s.sessions)) [
    | inl gone ↦
        let found : find id (partially_save_session (with_instances (erase k)) id from s.sessions).1
            ≡ none =
          (partially_save_session-find (with_instances (erase k)) id id from s.sessions).0
          ∙ rw (bytes_eq_self id) (rw gone refl) in
        subst (λ o. NamesDistinct (instances_at o)) (sym found) tt
    | inr (sess, there) ↦
        subst NamesDistinct (sym (saved-instances t settings id (erase k) from s sess there)) (
          erase-NamesDistinct k sess.debugger_instances
            (subst (λ o. NamesDistinct (instances_at o)) there own))
  ]

  create-Keeps :
      (new_id : Bytes) (body : Option J)
      → asks_for_one t settings id (creates new_id body) ≡ true
      → Keeps stays (read_json_body body (create_instance t id settings new_id))
  unfolding read_json_body
  create-Keeps new_id none one = record { at = λ s own. own }
  create-Keeps new_id (some body) one = record {
    at = λ s own. by_flow _ ((create_instance-Triple t settings id new_id body one).run s own);
  }
    where
      by_flow :
          (r : Flow FilePath (Answer FilePath) × DebugServer FilePath World)
          → Ends (λ _. (Own t settings id)) (Own t settings id) r
          → (Own t settings id) (inner r).1
      by_flow (value a, s) e = e
      by_flow (returned a, s) e = e
      by_flow (raised, s) e = e

  debug_handle-Own :
      (event : Event J) (s : DebugServer FilePath World)
      → asks_for_one t settings id event ≡ true
      → (Own t settings id) s
      → (Own t settings id) (debug_handle t settings id event s).1
  unfolding debug_handle
  debug_handle-Own event s one = outer-keeps stays s (debug_handler t settings id event s) (
      (debug_handler-Keeps t id stays erased (λ s world own. own) settings event
          (λ new_id body e.
            create-Keeps new_id body (subst (λ x. asks_for_one t settings id x ≡ true) e one))).at
        s)

module _ {J FilePath World : Type 0} (t : Tools J FilePath World) (settings : Environments) where
  -- What comes for several sessions, one after the other.
  unfoldable pub run_events :
      List (Bytes × Event J) → DebugServer FilePath World → DebugServer FilePath World
  run_events [] s = s
  run_events ((id, event) ∷ events) s = run_events events (debug_handle t settings id event s).1

  unfoldable pub all_ask_for_one : List (Bytes × Event J) → Bool
  all_ask_for_one [] = true
  all_ask_for_one ((id, event) ∷ events) =
      asks_for_one t settings id event && all_ask_for_one events

  -- Where requests about debuggers and ends of debuggers come one after the other, each when the
  -- last is done, no request to create a debugger allows a duplicate, and no session has two
  -- debuggers for run configurations of one name at first: no session ever has two.
  pub run_events-NamesDistinct :
      (events : List (Bytes × Event J)) (s : DebugServer FilePath World)
      → all_ask_for_one events ≡ true
      → ((id : Bytes) → NamesDistinct (instances_at (find id s.sessions)))
      → (id : Bytes) → NamesDistinct (instances_at (find id (run_events events s).sessions))
  unfolding run_events all_ask_for_one
  run_events-NamesDistinct [] s one distinct = distinct
  run_events-NamesDistinct ((k, event) ∷ events) s one distinct =
      let parts : (asks_for_one t settings k event ≡ true) × (all_ask_for_one events ≡ true) =
        (ground arith, ground arith) in
      run_events-NamesDistinct events (debug_handle t settings k event s).1 parts.1 (λ id.
        elim (Bool-cases (bytes_eq k id)) [
          | inl e ↦
              subst
                (λ x.
                  NamesDistinct
                    (instances_at (find x (debug_handle t settings k event s).1.sessions)))
                ((bytes_eq_iff k id).0 e)
                (debug_handle-Own t settings k event s parts.0 (distinct k))
          | inr e ↦
              subst (λ o. NamesDistinct (instances_at o))
                (sym (debug_handle-others t settings k id event s e)) (distinct id)
        ])
