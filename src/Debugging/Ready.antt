-- ===== src/Debugging/Ready.antt =====
-- Debugging: the creation of a debugger keeps the names of the run configurations distinct.
use minide.Base.{
  ℕ, ◌≡◌, refl, ap, sym, subst, ◌∙◌, Bool, true, false, not, ◌||◌, Option, none, some, List, [],
  ◌∷◌, Bytes, codes, bytes_eq_self,
}
use minide.Base.Dict.{find, put}
use minide.SessionStorage.{partially_save_session}
use minide.SessionStorage.Laws.{partially_save_session-find}
use minide.RunConfig.{RunConfig, config_from_json}
use minide.Settings.{Environments}
use minide.Debugging.{Debugger, start, started_as, new_debugger, run_config_name}
use minide.Debugging.Requests.{DebugSession, DebugServer, Tools, with_instances, debug_session}
use minide.Debugging.Create.{
  has_name, allow_duplicate, create_instance, save_creation, check_creation, save_new, save_where,
  replaced, extract_environment, Event, creates,
}
use minide.Debugging.Names.{NamesDistinct, put-NamesDistinct, instances_at}
use minide.Router.Handler.{text, or_raise, give}
use minide.Router.Triples.{
  Triple, Ends, bind-Triple, seq-Triple, require-Triple, or_raise-Triple, give-Triple, end-Triple,
}

abbrev pub is_not_allowed : Option Bool → Bool
is_not_allowed none = true
is_not_allowed (some allowed) = not allowed

-- Whether what comes is no request to create a debugger, or one that does not allow a duplicate.
abbrev pub asks_for_one :
    {J FilePath World : Type 0} → Tools J FilePath World → Environments → Bytes → Event J → Bool
asks_for_one t settings id (creates new_id (some body)) =
    is_not_allowed (allow_duplicate t id settings body)
asks_for_one t settings id _ = true

module _ {J FilePath World : Type 0} (t : Tools J FilePath World) (settings : Environments)
    (id : Bytes) where
  -- The names of the session with the id are distinct.
  abbrev pub Own : DebugServer FilePath World → Type 0
  Own s = NamesDistinct (instances_at (find id s.sessions))

  started-run_config_name :
      (debugger d : Debugger) (w : World) (r : Option (ℕ × World))
      → started_as t.gdb debugger r ≡ some (d, w)
      → run_config_name d ≡ run_config_name debugger
  unfolding run_config_name
  started-run_config_name debugger d w none e = cc e
  started-run_config_name debugger d w (some (handle, v)) e =
      let same : ◌≡◌ {A = Debugger × World} (record debugger { debug_interface = some handle }, v)
          (d, w) =
        cc e in
      ap (λ r. r.0.run_config.name) (sym same)

  pub start-run_config_name :
      (env : Option (List (Bytes × Bytes))) (sess : DebugSession FilePath) (config : RunConfig)
      (new_id : Bytes) (world : World) (d : Debugger) (w : World)
      → start t.gdb env (new_debugger sess.remote_address sess.control_id config new_id) world
        ≡ some (d, w)
      → run_config_name d ≡ config.name
  unfolding start run_config_name
  start-run_config_name env sess config new_id world d w e =
      started-run_config_name (new_debugger sess.remote_address sess.control_id config new_id) d w _
        e

  -- What a save does to the instances of the session.
  pub saved-instances :
      (change : List (Bytes × Debugger) → List (Bytes × Debugger)) (from : DebugSession FilePath)
      (s : DebugServer FilePath World) (sess : DebugSession FilePath)
      → find id s.sessions ≡ some sess
      → instances_at (find id (partially_save_session (with_instances change) id from s.sessions).1)
        ≡ change sess.debugger_instances
  saved-instances change from s sess there =
      let found : find id (partially_save_session (with_instances change) id from s.sessions).1
          ≡ some (with_instances change sess from) =
        (partially_save_session-find (with_instances change) id id from s.sessions).0
        ∙ rw (bytes_eq_self id) (rw there refl) in
      ap instances_at found

  -- The state that `create_instance` comes to before it saves.
  abbrev Ready : DebugSession FilePath → RunConfig → DebugServer FilePath World → Type 0
  Ready sess config s =
      Own s
      × (find id s.sessions ≡ some sess)
      × (has_name config.name sess.debugger_instances ≡ false)

  save_new-Triple :
      (sess : DebugSession FilePath) (new_id : Bytes) (config : RunConfig)
      (env : Option (List (Bytes × Bytes)))
      → Triple (Ready sess config) (save_new t id settings sess new_id config env) (λ _. Own) Own
  unfolding save_new
  save_new-Triple sess new_id config env = record { run = saves }
    where
      by_start :
          (s : DebugServer FilePath World)
          → Ready sess config s
          → (started : Option (Debugger × World))
          → ((d : Debugger) (w : World) → started ≡ some (d, w) → run_config_name d ≡ config.name)
          → Ends (λ _. Own) Own (save_where t id settings sess new_id (some sess) started s)
      by_start s ready none named = ready.0
      by_start s ready (some (d, w)) named =
          subst NamesDistinct (sym (saved-instances (put new_id d) sess s sess ready.1)) (
            put-NamesDistinct new_id d sess.debugger_instances
              (subst (λ o. NamesDistinct (instances_at o)) ready.1 ready.0)
              (rw (named d w refl) ready.2))

      saves :
          (s : DebugServer FilePath World)
          → Ready sess config s
          → Ends (λ _. Own) Own (save_new t id settings sess new_id config env s)
      saves s ready =
          rw ready.1 (by_start s ready _ (start-run_config_name env sess config new_id s.world))

  ready_early : {A : Type 0} (s : DebugServer FilePath World) → Own s × A → Own s
  ready_early s h = h.0

  debug_session-Triple :
      Triple Own (debug_session t id) (λ sess s. Own s × (find id s.sessions ≡ some sess)) Own
  unfolding debug_session
  debug_session-Triple = record { run = λ s own. by_found s own (find id s.sessions) refl }
    where
      by_found :
          (s : DebugServer FilePath World)
          → Own s
          → (o : Option (DebugSession FilePath)) → find id s.sessions ≡ o
          → Ends
              (λ sess s. Own s × (find id s.sessions ≡ some sess))
              Own
              (or_raise {FilePath = FilePath} o s)
      by_found s own none e = own
      by_found s own (some sess) e = (own, e)

  is_new :
      (allowed named : Bool) (found : Option Bool)
      → found ≡ some allowed
      → is_not_allowed found ≡ true
      → (allowed || not named) ≡ true
      → named ≡ false
  is_new true named found e forbidden h = cc (rw e at forbidden)
  is_new false true found e forbidden h = sym h
  is_new false false found e forbidden h = refl

  check_creation-Triple :
      (body : J)
      → is_not_allowed (allow_duplicate t id settings body) ≡ true
      → Triple Own (check_creation t id settings body) (λ c. Ready c.0 c.1) Own
  unfolding check_creation
  check_creation-Triple body forbidden = bind-Triple debug_session-Triple λ sess.
      seq-Triple
        (require-Triple (λ s h. h.0) (not (t.is_empty sess.root)) (codes "open a workspace first"))
        (seq-Triple
          (require-Triple (λ s h. h.0.0) (not (t.is_empty sess.active_project))
            (codes "no active project"))
          (bind-Triple {A = RunConfig}
            (seq-Triple
              (require-Triple (λ s h. h.0.0.0) (t.ops.contains body (codes "runProfile"))
                (codes "need runProfile"))
              (or_raise-Triple (λ s h. h.0.0.0.0)
                (config_from_json t.ops t.is_null (t.ops.at body (codes "runProfile")))))
            λ profile.
              bind-Triple {A = Bool}
                (or_raise-Triple (λ s h. h.0.0.0.0.0) (allow_duplicate t id settings body))
                λ allowed.
                  bind-Triple
                    (give-Triple (λ s h. h.0.0.0.0.0.0) (replaced t id settings sess profile))
                    λ config.
                      bind-Triple
                        (or_raise-Triple (λ s h. h.0.0.0.0.0.0.0)
                          (extract_environment t id settings config))
                        λ env.
                          seq-Triple {k = give (sess, config, env)}
                            (require-Triple (λ s h. h.0.0.0.0.0.0.0.0)
                              (allowed || not (has_name config.name sess.debugger_instances))
                              (codes
                                "duplicate debugger session was prevented. pass allowDuplicate to allow it."))
                            (record {
                              run = λ s h. (
                                h.0.0.0.0.0.0.0.0.0,
                                h.0.0.0.0.0.0.0.0.1,
                                is_new allowed (has_name config.name sess.debugger_instances)
                                    (allow_duplicate t id settings body) h.0.0.0.1 forbidden h.1,
                              );
                            })))

  save_creation-Triple :
      (new_id : Bytes) (sess : DebugSession FilePath) (config : RunConfig)
      (env : Option (List (Bytes × Bytes)))
      → Triple
          (Ready sess config)
          (save_creation t id settings new_id (sess, config, env))
          (λ _. Own)
          Own
  unfolding save_creation
  save_creation-Triple new_id sess config env =
      seq-Triple (save_new-Triple sess new_id config env) (
        end-Triple (λ s h. h)
          (text 200
            (t.ops.dump (t.ops.object ((codes "instanceId", t.ops.of_string new_id) ∷ [])))))

  pub create_instance-Triple :
      (new_id : Bytes) (body : J)
      → is_not_allowed (allow_duplicate t id settings body) ≡ true
      → Triple Own (create_instance t id settings new_id body) (λ _. Own) Own
  unfolding create_instance
  create_instance-Triple new_id body forbidden =
      bind-Triple (check_creation-Triple body forbidden)
        λ c. save_creation-Triple new_id c.0 c.1 c.2
