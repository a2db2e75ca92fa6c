-- ===== src/Debugging/Races.antt =====
-- Debugging: two requests of one client that create debuggers at the same time.
use minide.Base.{
  ◌≡◌, refl, sym, subst, ◌∙◌, true, false, Option, some, List, [], ◌∷◌, Bytes, codes, bytes_eq,
  bytes_eq_self,
}
use minide.Base.Dict.{find, put, find-put}
use minide.SessionStorage.{partially_save_session}
use minide.RunConfig.{RunConfig, config_from_json}
use minide.Settings.{Environments}
use minide.Debugging.{Debugger, start, new_debugger, run_config_name}
use minide.Debugging.Requests.{DebugSession, DebugServer, Tools, with_instances, debug_session}
use minide.Debugging.Create.{
  has_name, allow_duplicate, check_creation, save_creation, save_new, Creation, replaced,
  extract_environment,
}
use minide.Debugging.Names.{NamesDistinct, bytes_eq_swap, same_names, instances_at}
use minide.Debugging.Creation.{saved_session}
use minide.Debugging.Ready.{saved-instances, start-run_config_name}
use minide.Router.Handler.{Answer, Flow, value, returned, raised, text}

module _ {J FilePath World : Type 0} (t : Tools J FilePath World) (settings : Environments)
    (id : Bytes) where
  -- A request to create a debugger, before it takes its copy of the session, after its checks on the
  -- copy, and when it has ended.
  pub data Creating : Type 0 where
    asked : Bytes → J → Creating
    allowed_as : Bytes → Creation t id settings → Creating
    ended : Flow FilePath (Answer FilePath) → Creating

  abbrev pub checked_as :
      Bytes
      → Flow FilePath (Creation t id settings) × DebugServer FilePath World
      → Creating × DebugServer FilePath World
  checked_as new_id (value c, s) = (allowed_as new_id c, s)
  checked_as new_id (returned r, s) = (ended (returned r), s)
  checked_as new_id (raised, s) = (ended raised, s)

  abbrev pub saved_as :
      Flow FilePath (Answer FilePath) × DebugServer FilePath World
      → Creating × DebugServer FilePath World
  saved_as (flow, s) = (ended flow, s)

  unfoldable pub go_on :
      Creating → DebugServer FilePath World → Creating × DebugServer FilePath World
  go_on (asked new_id body) s = checked_as new_id (check_creation t id settings body s)
  go_on (allowed_as new_id c) s = saved_as (save_creation t id settings new_id c s)
  go_on (ended flow) s = (ended flow, s)

  -- Two requests that come together: both make their checks before one of them saves.
  unfoldable pub together :
      Creating
      → Creating
      → DebugServer FilePath World
      → Creating × Creating × DebugServer FilePath World
  together a b s =
      let (checked_a, s1) = go_on a s in
      let (checked_b, s2) = go_on b s1 in
      let (saved_a, s3) = go_on checked_a s2 in
      let (saved_b, s4) = go_on checked_b s3 in (saved_a, saved_b, s4)

  check_creation-value :
      (s : DebugServer FilePath World) (sess : DebugSession FilePath) (body : J)
      (profile : RunConfig) (env : Option (List (Bytes × Bytes)))
      → find id s.sessions ≡ some sess
      → t.is_empty sess.root ≡ false
      → t.is_empty sess.active_project ≡ false
      → t.ops.contains body (codes "runProfile") ≡ true
      → config_from_json t.ops t.is_null (t.ops.at body (codes "runProfile")) ≡ some profile
      → allow_duplicate t id settings body ≡ some false
      → extract_environment t id settings (replaced t id settings sess profile) ≡ some env
      → has_name (replaced t id settings sess profile).name sess.debugger_instances ≡ false
      → check_creation t id settings body s
        ≡ (value (sess, replaced t id settings sess profile, env), s)
  unfolding check_creation debug_session
  check_creation-value s sess body profile env there root active has_profile read allow compiled_env
        new =
      rw (there, root, active, has_profile, read, allow, compiled_env, new) refl

  abbrev given_id : Bytes → Answer FilePath
  given_id new_id =
      text 200 (t.ops.dump (t.ops.object ((codes "instanceId", t.ops.of_string new_id) ∷ [])))

  save_creation-value :
      (s : DebugServer FilePath World) (from sess : DebugSession FilePath) (new_id : Bytes)
      (config : RunConfig) (env : Option (List (Bytes × Bytes))) (debugger : Debugger) (w : World)
      → find id s.sessions ≡ some sess
      → start t.gdb env (new_debugger from.remote_address from.control_id config new_id) s.world
        ≡ some (debugger, w)
      → save_creation t id settings new_id (from, config, env) s ≡ (
        value (given_id new_id),
        record s {
          sessions =
              (partially_save_session (with_instances (put new_id debugger)) id from s.sessions).1;
          world = w;
        },
      )
  unfolding save_creation save_new
  save_creation-value s from sess new_id config env debugger w there started =
      rw (there, started) refl

  -- Two requests with the same body that come together, whose profile is read, whose environment
  -- compiles and that allow no duplicate, where the client has an open workspace and an active
  -- project and no debugger with the name of the configuration: where both make their checks
  -- before one saves, the new ids differ and both processes start, both are answered with their
  -- ids, and the session has two debuggers of one name.
  pub together-duplicates :
      (s : DebugServer FilePath World) (sess : DebugSession FilePath) (a b : Bytes) (body : J)
      (profile : RunConfig) (env : Option (List (Bytes × Bytes))) (d e : Debugger) (v w : World)
      → find id s.sessions ≡ some sess
      → t.is_empty sess.root ≡ false
      → t.is_empty sess.active_project ≡ false
      → t.ops.contains body (codes "runProfile") ≡ true
      → config_from_json t.ops t.is_null (t.ops.at body (codes "runProfile")) ≡ some profile
      → allow_duplicate t id settings body ≡ some false
      → extract_environment t id settings (replaced t id settings sess profile) ≡ some env
      → has_name (replaced t id settings sess profile).name sess.debugger_instances ≡ false
      → bytes_eq a b ≡ false
      → start t.gdb env
          (new_debugger sess.remote_address sess.control_id (replaced t id settings sess profile) a)
          s.world
        ≡ some (d, v)
      → start t.gdb env
          (new_debugger sess.remote_address sess.control_id (replaced t id settings sess profile) b)
          v
        ≡ some (e, w)
      → let r = together (asked a body) (asked b body) s in
        (r.0 ≡ ended (value (given_id a)))
        × (r.1 ≡ ended (value (given_id b)))
        × ¬ NamesDistinct (instances_at (find id r.2.sessions))
  unfolding together go_on
  together-duplicates s sess a b body profile env d e v w there root active has_profile read allow
        compiled_env new apart started_a started_b =
      let config : RunConfig = replaced t id settings sess profile in
      let sessions_a = (partially_save_session (with_instances (put a d)) id sess s.sessions).1 in
      let sessions_b = (partially_save_session (with_instances (put b e)) id sess sessions_a).1 in
      let s_a : DebugServer FilePath World = record s { sessions = sessions_a; world = v } in
      let there_a : find id sessions_a ≡ some (with_instances (put a d) sess sess) =
        saved_session t settings id (put a d) s sess there in
      let both : instances_at (find id sessions_b) ≡ put b e (put a d sess.debugger_instances) =
        saved-instances t settings id (put b e) sess s_a (with_instances (put a d) sess sess)
          there_a in
      let named : run_config_name d ≡ run_config_name e =
        start-run_config_name t settings id env sess config a s.world d v started_a
        ∙ sym (start-run_config_name t settings id env sess config b v e w started_b) in
      let at_a : find a (put b e (put a d sess.debugger_instances)) ≡ some d =
        find-put a b e (put a d sess.debugger_instances)
        ∙ rw (bytes_eq_swap a b apart)
            (find-put a a d sess.debugger_instances ∙ rw (bytes_eq_self a) refl) in
      let at_b : find b (put b e (put a d sess.debugger_instances)) ≡ some e =
        find-put b b e (put a d sess.debugger_instances) ∙ rw (bytes_eq_self b) refl in
      let checked =
        check_creation-value s sess body profile env there root active has_profile read allow
          compiled_env new in
      rw checked (
        rw checked (
          rw (save_creation-value s sess sess a config env d v there started_a) (
            rw
              (save_creation-value s_a sess (with_instances (put a d) sess sess) b config env e w
                there_a started_b)
              (
                refl,
                refl,
                λ distinct.
                    same_names a b d e (put b e (put a d sess.debugger_instances)) apart named at_a
                      at_b (subst NamesDistinct both distinct),
              ))))
