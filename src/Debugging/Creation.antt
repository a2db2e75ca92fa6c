-- ===== src/Debugging/Creation.antt =====
-- Debugging: a debugger that was created gets the commands that are sent to it.
use minide.Base.{
  ℕ, ◌≡◌, refl, ap, ◌∙◌, Bool, true, false, not, ◌||◌, Option, some, List, [], ◌∷◌, ◌++◌, Bytes,
  codes, bytes_eq_self,
}
use minide.Base.Dict.{find, put, find-put}
use minide.SessionStorage.{partially_save_session}
use minide.SessionStorage.Laws.{partially_save_session-find}
use minide.RunConfig.{RunConfig, config_from_json}
use minide.Settings.{Environments}
use minide.Debugging.{
  Debugger, start, started_as, launch_with, arguments_for, new_debugger, raw_command,
}
use minide.Debugging.Requests.{
  DebugSession, DebugServer, Tools, with_instances, debug_session, in_world, need_text,
  find_instance, raw_command_request,
}
use minide.Debugging.Create.{
  has_name, allow_duplicate, create_instance, save_creation, check_creation, save_new, replaced,
  extract_environment, creates, sends_raw, debug_handler, debug_handle,
}
use minide.Router.Handler.{Answer, text, empty, value, outer, inner, read_json_body}

module _ {J FilePath World : Type 0} (t : Tools J FilePath World) (settings : Environments)
    (id : Bytes) where
  abbrev given_id : Bytes → Answer FilePath
  given_id new_id =
      text 200 (t.ops.dump (t.ops.object ((codes "instanceId", t.ops.of_string new_id) ∷ [])))

  -- The server with the debugger in the session.
  abbrev pub with_debugger :
      DebugSession FilePath
      → Bytes
      → Debugger
      → World
      → DebugServer FilePath World
      → DebugServer FilePath World
  with_debugger sess new_id debugger w s = record s {
    sessions = (partially_save_session (with_instances (put new_id debugger)) id sess s.sessions).1;
    world = w;
  }

  create_instance-value :
      (s : DebugServer FilePath World) (sess : DebugSession FilePath) (new_id : Bytes) (body : J)
      (profile : RunConfig) (allowed : Bool) (env : Option (List (Bytes × Bytes)))
      (debugger : Debugger) (w : World)
      → find id s.sessions ≡ some sess
      → t.is_empty sess.root ≡ false
      → t.is_empty sess.active_project ≡ false
      → t.ops.contains body (codes "runProfile") ≡ true
      → config_from_json t.ops t.is_null (t.ops.at body (codes "runProfile")) ≡ some profile
      → allow_duplicate t id settings body ≡ some allowed
      → extract_environment t id settings (replaced t id settings sess profile) ≡ some env
      → (allowed
          || not (has_name (replaced t id settings sess profile).name sess.debugger_instances))
        ≡ true
      → start t.gdb env
          (new_debugger sess.remote_address sess.control_id
            (replaced t id settings sess profile)
            new_id)
          s.world
        ≡ some (debugger, w)
      → create_instance t id settings new_id body s
        ≡ (value (given_id new_id), with_debugger sess new_id debugger w s)
  unfolding create_instance check_creation save_creation debug_session save_new
  create_instance-value s sess new_id body profile allowed env debugger w there root active
        has_profile read allow compiled_env new started =
      rw (there, root, active, has_profile, read, allow, compiled_env, new, there, started) refl

  pub saved_session :
      (change : List (Bytes × Debugger) → List (Bytes × Debugger)) (s : DebugServer FilePath World)
      (sess : DebugSession FilePath)
      → find id s.sessions ≡ some sess
      → find id (partially_save_session (with_instances change) id sess s.sessions).1
        ≡ some (with_instances change sess sess)
  saved_session change s sess there =
      (partially_save_session-find (with_instances change) id id sess s.sessions).0
      ∙ rw (bytes_eq_self id) (rw there refl)

  raw_command_request-value :
      (s : DebugServer FilePath World) (sess : DebugSession FilePath) (debugger : Debugger)
      (instance_id line : Bytes) (body : J)
      → t.ops.contains body (codes "instanceId") ≡ true
      → t.ops.get_string (t.ops.at body (codes "instanceId")) ≡ some instance_id
      → t.ops.contains body (codes "command") ≡ true
      → t.ops.get_string (t.ops.at body (codes "command")) ≡ some line
      → find id s.sessions ≡ some sess
      → find instance_id sess.debugger_instances ≡ some debugger
      → raw_command_request t id body s
        ≡ (value (empty 204), record s { world = raw_command t.gdb line debugger s.world })
  unfolding raw_command_request need_text debug_session find_instance in_world
  raw_command_request-value s sess debugger instance_id line body has_id id_read has_line line_read
        there listed =
      rw (has_id, id_read, has_line, line_read, there, listed) refl

  -- Where the client has an open workspace and an active project, the profile is read, the
  -- environment compiles, no duplicate is in the way and the debugger starts, a request to create
  -- an instance that nothing else comes between answers with its id; a raw command for that id,
  -- the next thing that comes for the session, is sent with a line feed to the process that was
  -- started then.
  pub create_instance-commands :
      (s : DebugServer FilePath World) (sess : DebugSession FilePath) (new_id line : Bytes)
      (body command_body : J) (profile : RunConfig) (allowed : Bool)
      (env : Option (List (Bytes × Bytes))) (handle : ℕ) (w : World)
      → find id s.sessions ≡ some sess
      → t.is_empty sess.root ≡ false
      → t.is_empty sess.active_project ≡ false
      → t.ops.contains body (codes "runProfile") ≡ true
      → config_from_json t.ops t.is_null (t.ops.at body (codes "runProfile")) ≡ some profile
      → allow_duplicate t id settings body ≡ some allowed
      → extract_environment t id settings (replaced t id settings sess profile) ≡ some env
      → (allowed
          || not (has_name (replaced t id settings sess profile).name sess.debugger_instances))
        ≡ true
      → launch_with t.gdb
          (arguments_for t.gdb
            (new_debugger sess.remote_address sess.control_id
              (replaced t id settings sess profile)
              new_id)
            env)
          env
          s.world
        ≡ some (handle, w)
      → t.ops.contains command_body (codes "instanceId") ≡ true
      → t.ops.get_string (t.ops.at command_body (codes "instanceId")) ≡ some new_id
      → t.ops.contains command_body (codes "command") ≡ true
      → t.ops.get_string (t.ops.at command_body (codes "command")) ≡ some line
      → let created = debug_handle t settings id (creates new_id (some body)) s in
        (created.0 ≡ some (given_id new_id))
        × (debug_handle t settings id (sends_raw (some command_body)) created.1 ≡ (
          some (empty 204),
          record created.1 { world = t.gdb.send_text handle (line ++ (b'\n' ∷ [])) w },
        ))
  unfolding debug_handle debug_handler read_json_body start raw_command
  create_instance-commands s sess new_id line body command_body profile allowed env handle w there
        root active has_profile read allow compiled_env new launched has_id id_read has_line
        line_read =
      let config : RunConfig = replaced t id settings sess profile in
      let made : Debugger = new_debugger sess.remote_address sess.control_id config new_id in
      let debugger : Debugger = record made { debug_interface = some handle } in
      let created =
        create_instance-value s sess new_id body profile allowed env debugger w there root active
          has_profile read allow compiled_env new (ap (started_as t.gdb made) launched) in
      let after : DebugServer FilePath World = with_debugger sess new_id debugger w s in
      let listed : find new_id (put new_id debugger sess.debugger_instances) ≡ some debugger =
        find-put new_id new_id debugger sess.debugger_instances ∙ rw (bytes_eq_self new_id) refl in
      let sent =
        raw_command_request-value after (with_instances (put new_id debugger) sess sess) debugger
          new_id line command_body has_id id_read has_line line_read
          (saved_session (put new_id debugger) s sess there) listed in
      rw created (refl, ap (λ r. outer (inner r)) sent)
