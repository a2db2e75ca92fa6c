-- ===== src/Debugging.antt =====
-- worker/debugger/debugger.cpp: a debugger that runs for a client, and what it tells the client. The
-- debugger interface, a library, is a parameter: `World` is the state of the processes, and a handle
-- stands for the object that `debugInterface_` points to.
pub mod Relay
pub mod Requests
pub mod Create
pub mod Isolation
pub mod Names
pub mod Ready
pub mod Distinct
pub mod Races
pub mod Creation
pub mod Endings
pub mod Messages
pub mod Tests
use minide.Base.{
  ℕ, Bool, true, false, Option, none, some, List, [], ◌∷◌, ◌++◌, map, Bytes, codes, ℤ,
  if◌then◌else◌,
}
use minide.Base.Dict.{find, put}
use minide.Json.{JsonOps}
use minide.RunConfig.{RunConfig}
use minide.HttpStreamer.{StreamChannel, control_channel}

pub record UserDefinedArguments : Type 0 where
  pub debugger_executeable : Bytes
  pub commandline : Bytes
  pub environment : Option (List (Bytes × Bytes))
  pub program : Bytes
  pub directory : Option Bytes

-- `MiCommand` as it is filled.
pub record MiCommand : Type 0 where
  pub token : Option ℤ
  pub operation : Bytes
  pub params : List Bytes
  pub options : List (Bytes × Bytes)

-- What a debugger is made for, and the interface that it has after a start.
pub record Debugger : Type 0 where
  pub remote_address : Bytes
  pub control_id : ℤ
  pub run_config : RunConfig
  pub instance_id : Bytes
  pub debug_interface : Option ℕ

-- `launch` makes the object, registers the listener and starts, with PATH as given or as it is; `none`
-- is an exception.
pub record DebuggerInterface (World : Type 0) : Type 0 where
  pub launch : Option Bytes → UserDefinedArguments → World → Option (ℕ × World)
  pub send_command : ℕ → MiCommand → World → World
  pub send_text : ℕ → Bytes → World → World
  pub stop : ℕ → World → World
  pub try_get_exit_status : ℕ → World → Option ℤ
  -- What `stop` does for a debugger whose start threw: its interface is not started, or null, where the
  -- behaviour is undefined.
  pub stop_unstarted : World → World

abbrev pub new_debugger : Bytes → ℤ → RunConfig → Bytes → Debugger
new_debugger remote_address control_id config instance_id = record {
  remote_address = remote_address;
  control_id = control_id;
  run_config = config;
  instance_id = instance_id;
  debug_interface = none;
}

unfoldable pub run_config_name : Debugger → Bytes
run_config_name debugger = debugger.run_config.name

module _ {World : Type 0} (gdb : DebuggerInterface World) where
  abbrev pub arguments_for : Debugger → Option (List (Bytes × Bytes)) → UserDefinedArguments
  arguments_for debugger env = record {
    debugger_executeable = debugger.run_config.debugger.debugger_path;
    commandline = debugger.run_config.arguments;
    environment = env;
    program = debugger.run_config.executeable;
    directory = debugger.run_config.directory;
  }

  -- `env.value().at("PATH")` throws where there is no PATH.
  abbrev pub launch_at : UserDefinedArguments → Option Bytes → World → Option (ℕ × World)
  launch_at args none world = none
  launch_at args (some path) world = gdb.launch (some path) args world

  abbrev pub launch_with :
      UserDefinedArguments → Option (List (Bytes × Bytes)) → World → Option (ℕ × World)
  launch_with args none world = gdb.launch none args world
  launch_with args (some env) world = launch_at args (find (codes "PATH") env) world

  abbrev pub started_as : Debugger → Option (ℕ × World) → Option (Debugger × World)
  started_as debugger none = none
  started_as debugger (some (handle, world)) =
      some (record debugger { debug_interface = some handle }, world)

  unfoldable pub start :
      Option (List (Bytes × Bytes)) → Debugger → World → Option (Debugger × World)
  start env debugger world =
      started_as debugger (launch_with (arguments_for debugger env) env world)

  abbrev pub with_interface : Option ℕ → (ℕ → World → World) → World → World
  with_interface none act world = world
  with_interface (some handle) act world = act handle world

  unfoldable pub raw_command : Bytes → Debugger → World → World
  raw_command command debugger =
      with_interface debugger.debug_interface
        (λ handle. gdb.send_text handle (command ++ (b'\n' ∷ [])))

  unfoldable pub command : MiCommand → Debugger → World → World
  command mi_command debugger =
      with_interface debugger.debug_interface (λ handle. gdb.send_command handle mi_command)

  -- `stop`, which the destructor calls. Where there is no interface its behaviour is undefined.
  unfoldable pub stop : Debugger → World → World
  stop debugger = with_interface debugger.debug_interface gdb.stop
