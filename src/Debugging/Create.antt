-- ===== src/Debugging/Create.antt =====
-- worker/routers/debugger.cpp, addCreateInstanceRoute, and the routes together.
use minide.Base.{
  Bool, false, not, ◌||◌, Option, none, some, List, [], ◌∷◌, Bytes, codes, bytes_eq, if◌then◌else◌,
}
use minide.Base.Dict.{find, put, erase}
use minide.SessionStorage.{partially_save_session}
use minide.RunConfig.{RunConfig, config_from_json}
use minide.Settings.{
  Environments, Compiled, absent, thrown, undefined, compiled, compile_environment,
}
use minide.Debugging.{Debugger, new_debugger, run_config_name, start, stop}
use minide.Debugging.Requests.{
  DebugSession, DebugServer, Tools, with_instances, D, debug_session, save_instances, in_world,
  delete_instance, raw_command_request, command_request,
}
use minide.Router.Handler.{
  Answer, text, value, raised, ◌>>=◌, ◌>>◌, give, or_raise, unanswered, require, outer,
  read_json_body,
}

-- `std::find_if` over the instances, by the name of the run configuration.
unfoldable pub has_name : Bytes → List (Bytes × Debugger) → Bool
has_name name [] = false
has_name name ((k, debugger) ∷ instances) =
    bytes_eq (run_config_name debugger) name || has_name name instances

module _ {J FilePath World : Type 0} (t : Tools J FilePath World) (id : Bytes)
    (settings : Environments) where
  abbrev pub replace_variables : DebugSession FilePath → Bytes → Bytes
  replace_variables sess str =
      t.replace_all
        (t.replace_all str (codes "${ProjectRoot}") (t.generic_string sess.active_project))
        (codes "${WorkspaceRoot}") (t.generic_string sess.root)

  abbrev pub replace_variables_opt : DebugSession FilePath → Option Bytes → Option Bytes
  replace_variables_opt sess none = none
  replace_variables_opt sess (some str) = some (replace_variables sess str)

  -- All texts of the configuration in which variables are replaced.
  unfoldable pub replaced : DebugSession FilePath → RunConfig → RunConfig
  replaced sess config = record config {
    executeable = replace_variables sess config.executeable;
    arguments = replace_variables sess config.arguments;
    directory = replace_variables_opt sess config.directory;
    debugger = record config.debugger {
      debugger_path = replace_variables sess config.debugger.debugger_path;
      command_file = replace_variables_opt sess config.debugger.command_file;
      init_command_file = replace_variables_opt sess config.debugger.init_command_file;
    };
  }

  unfoldable pub compiles : Bytes → Bool
  compiles environment =
      bytes_eq environment []
      || bytes_eq environment (codes "inherit")
      || bytes_eq environment (codes "default")

  -- Undefined behaviour of `compileEnvironment` is taken as an exception.
  abbrev pub from_compiled : Compiled → Option (Option (List (Bytes × Bytes)))
  from_compiled absent = some none
  from_compiled thrown = none
  from_compiled undefined = none
  from_compiled (compiled variables) = some (some variables)

  unfoldable pub extract_environment : RunConfig → Option (Option (List (Bytes × Bytes)))
  extract_environment config =
      if compiles config.environment
      then from_compiled (compile_environment settings config.environment)
      else some none

  abbrev pub get_run_profile : J → D t id RunConfig
  get_run_profile body =
      require (t.ops.contains body (codes "runProfile")) (codes "need runProfile")
      >> or_raise (config_from_json t.ops t.is_null (t.ops.at body (codes "runProfile")))

  unfoldable pub allow_duplicate : J → Option Bool
  allow_duplicate body =
      if t.ops.contains body (codes "allowDuplicate")
      then t.ops.get_bool (t.ops.at body (codes "allowDuplicate"))
      else some false

  -- `save_partial` that makes the debugger and starts it; where there is no session any more, nothing
  -- is started. An exception of the start leaves the session as it was, and the debugger ends, which
  -- stops it.
  abbrev pub save_started :
      DebugSession FilePath → Bytes → Option (Debugger × World) → D t id (Unit {0})
  save_started from new_id none s = (raised, record s { world = t.gdb.stop_unstarted s.world })
  save_started from new_id (some (debugger, world)) s = (
    value tt,
    record s {
      sessions =
          (partially_save_session (with_instances (put new_id debugger)) id from s.sessions).1;
      world = world;
    },
  )

  abbrev pub save_where :
      DebugSession FilePath
      → Bytes
      → Option (DebugSession FilePath)
      → Option (Debugger × World)
      → D t id (Unit {0})
  save_where from new_id none started = give tt
  save_where from new_id (some old) started = save_started from new_id started

  unfoldable pub save_new :
      DebugSession FilePath → Bytes → RunConfig → Option (List (Bytes × Bytes)) → D t id (Unit {0})
  save_new from new_id config env s =
      save_where from new_id (find id s.sessions)
        (start t.gdb env (new_debugger from.remote_address from.control_id config new_id) s.world) s

  -- What a request has found in its own copy of the session: the copy, the configuration and the
  -- environment.
  abbrev pub Creation : Type 0
  Creation = DebugSession FilePath × RunConfig × Option (List (Bytes × Bytes))

  unfoldable pub check_creation : J → D t id Creation
  check_creation body = do
    sess ← debug_session t id
    require (not (t.is_empty sess.root)) (codes "open a workspace first")
    require (not (t.is_empty sess.active_project)) (codes "no active project")
    profile ← get_run_profile body
    allowed ← or_raise (allow_duplicate body)
    config ← give (replaced sess profile)
    env ← or_raise (extract_environment config)
    require (allowed || not (has_name config.name sess.debugger_instances))
        (codes "duplicate debugger session was prevented. pass allowDuplicate to allow it.")
    give (sess, config, env)

  unfoldable pub save_creation : Bytes → Creation → D t id (Answer FilePath)
  save_creation new_id (sess, config, env) = do
    save_new sess new_id config env
    give (text 200 (t.ops.dump (t.ops.object ((codes "instanceId", t.ops.of_string new_id) ∷ []))))

  -- A request that nothing else comes between. The session is locked only for `save_partial`.
  unfoldable pub create_instance : Bytes → J → D t id (Answer FilePath)
  create_instance new_id body = check_creation body >>= save_creation new_id

  abbrev pub stop_found : Option Debugger → World → World
  stop_found none world = world
  stop_found (some debugger) world = stop t.gdb debugger world

  -- The watchdog sees that a debugger has ended: the instance is taken out of the session, and its
  -- object ends, if there still is a session.
  unfoldable pub on_exit : Bytes → D t id (Unit {0})
  on_exit instance_id = do
    sess ← debug_session t id
    save_instances t id (erase instance_id) sess
    in_world t id (stop_found (find instance_id sess.debugger_instances))

-- What comes for a session: a request with its body, where it is JSON, or the end of a debugger.
pub data Event (J : Type 0) : Type 0 where
  creates : Bytes → Option J → Event J
  deletes : Option J → Event J
  sends_raw : Option J → Event J
  sends : Option J → Event J
  exits : Bytes → Event J

module _ {J FilePath World : Type 0} (t : Tools J FilePath World) (settings : Environments)
    (id : Bytes) where
  unfoldable pub debug_handler : Event J → D t id (Answer FilePath)
  debug_handler (creates new_id body) = read_json_body body (create_instance t id settings new_id)
  debug_handler (deletes body) = read_json_body body (delete_instance t id)
  debug_handler (sends_raw body) = read_json_body body (raw_command_request t id)
  debug_handler (sends body) = read_json_body body (command_request t id)
  debug_handler (exits instance_id) = on_exit t id settings instance_id >> give unanswered

  unfoldable pub debug_handle :
      Event J → DebugServer FilePath World → Option (Answer FilePath) × DebugServer FilePath World
  debug_handle event s = outer (debug_handler event s)
