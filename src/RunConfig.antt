-- ===== src/RunConfig.antt =====
-- worker/workspace/run_config.cpp: run configurations as JSON. A `get` that throws is `none`, and so is
-- the reading of a key that is not there, whose behaviour is undefined.
pub mod RoundTrip
pub mod Tests
use minide.Base.{
  Bool, true, false, not, ◌&&◌, Option, none, some, List, [], ◌∷◌, ◌++◌, Bytes, codes,
  if◌then◌else◌,
}
use minide.Json.{JsonOps}

pub record Debugger : Type 0 where
  pub command_file : Option Bytes
  pub init_command_file : Option Bytes
  pub debugger_type : Bytes
  pub fully_read_symbols : Bool
  pub return_child_result : Bool
  pub debugger_path : Bytes
  pub debugger_name : Bytes
  pub ignore_gdb_init : Bool
  pub ignore_all_gdb_init : Bool
  pub additional_arguments : Bytes

pub record RunConfig : Type 0 where
  pub name : Bytes
  pub type_name : Bytes
  pub debugger : Debugger
  pub arguments : Bytes
  pub executeable : Bytes
  pub directory : Option Bytes
  pub environment : Bytes
  pub autostart : Bool

-- A function of results, each of which may be an exception.
infixl 5 ◌<*>◌
abbrev pub ◌<*>◌ : {A B : Type 0} → Option (A → B) → Option A → Option B
◌<*>◌ none o = none
◌<*>◌ (some f) none = none
◌<*>◌ (some f) (some a) = some (f a)

module _ {J : Type 0} (ops : JsonOps J) (is_null : J → Bool) where
  abbrev pub text_field : Bytes → Bytes → Bytes × J
  text_field key v = (key, ops.of_string v)

  abbrev pub bool_field : Bytes → Bool → Bytes × J
  bool_field key b = (key, ops.of_bool b)

  abbrev pub optional_field : Bytes → Option Bytes → List (Bytes × J)
  optional_field key none = []
  optional_field key (some v) = text_field key v ∷ []

  abbrev pub plain_fields : Debugger → List (Bytes × J)
  plain_fields d =
      text_field (codes "debugger") d.debugger_type
      ∷ bool_field (codes "fullyReadSymbols") d.fully_read_symbols
      ∷ bool_field (codes "returnChildResult") d.return_child_result
      ∷ text_field (codes "path") d.debugger_path
      ∷ text_field (codes "name") d.debugger_name
      ∷ bool_field (codes "ignoreGdbInit") d.ignore_gdb_init
      ∷ bool_field (codes "ignoreAllGdbInit") d.ignore_all_gdb_init
      ∷ text_field (codes "additionCommandlineArguments") d.additional_arguments
      ∷ []

  abbrev pub debugger_fields : Debugger → List (Bytes × J)
  debugger_fields d =
      optional_field (codes "commandFile") d.command_file
      ++ (optional_field (codes "initCommandFile") d.init_command_file ++ plain_fields d)

  unfoldable pub debugger_to_json : Debugger → J
  debugger_to_json d = ops.object (debugger_fields d)

  abbrev pub config_fields : RunConfig → List (Bytes × J)
  config_fields c =
      text_field (codes "name") c.name
      ∷ text_field (codes "type") c.type_name
      ∷ (codes "debugger", debugger_to_json c.debugger)
      ∷ text_field (codes "arguments") c.arguments
      ∷ text_field (codes "executeable") c.executeable
      ∷ (optional_field (codes "directory") c.directory
          ++ (text_field (codes "environment") c.environment
              ∷ bool_field (codes "autostart") c.autostart
              ∷ []))

  unfoldable pub config_to_json : RunConfig → J
  unfolding debugger_to_json
  config_to_json c = ops.object (config_fields c)

  -- `j[key].get<…>()`.
  unfoldable pub text_at : J → Bytes → Option Bytes
  text_at j key = if ops.contains j key then ops.get_string (ops.at j key) else none

  unfoldable pub bool_at : J → Bytes → Option Bool
  bool_at j key = if ops.contains j key then ops.get_bool (ops.at j key) else none

  -- The same with a value for a key that is not there.
  unfoldable pub bool_at_or : J → Bytes → Bool → Option Bool
  bool_at_or j key b = if ops.contains j key then ops.get_bool (ops.at j key) else some b

  unfoldable pub text_at_or : J → Bytes → Bytes → Option Bytes
  text_at_or j key s = if ops.contains j key then ops.get_string (ops.at j key) else some s

  abbrev pub found_text : Option Bytes → Option (Option Bytes)
  found_text none = none
  found_text (some s) = some (some s)

  -- Where the key is not there, or null, what was there before stays.
  unfoldable pub optional_at : J → Bytes → Option Bytes → Option (Option Bytes)
  optional_at j key old =
      if ops.contains j key && not (is_null (ops.at j key))
      then found_text (ops.get_string (ops.at j key))
      else some old

  abbrev pub make_debugger :
      Option Bytes
      → Option Bytes
      → Bytes
      → Bool
      → Bool
      → Bytes
      → Bytes
      → Bool
      → Bool
      → Bytes
      → Debugger
  make_debugger command init kind symbols child path name gdb all arguments = record {
    command_file = command;
    init_command_file = init;
    debugger_type = kind;
    fully_read_symbols = symbols;
    return_child_result = child;
    debugger_path = path;
    debugger_name = name;
    ignore_gdb_init = gdb;
    ignore_all_gdb_init = all;
    additional_arguments = arguments;
  }

  -- `from_json` into an object that has `old_command` and `old_init`.
  unfoldable pub debugger_from_json : J → Option Bytes → Option Bytes → Option Debugger
  unfolding text_at bool_at_or text_at_or optional_at
  debugger_from_json j old_command old_init =
      some make_debugger
      <*> optional_at j (codes "commandFile") old_command
      <*> optional_at j (codes "initCommandFile") old_init
      <*> text_at j (codes "debugger")
      <*> bool_at_or j (codes "fullyReadSymbols") true
      <*> bool_at_or j (codes "returnChildResult") true
      <*> text_at j (codes "path")
      <*> text_at j (codes "name")
      <*> bool_at_or j (codes "ignoreGdbInit") false
      <*> bool_at_or j (codes "ignoreAllGdbInit") false
      <*> text_at_or j (codes "additionCommandlineArguments") []

  -- `j["debugger"].get<RunConfig::Debugger>()` reads into a new object.
  unfoldable pub debugger_at : J → Option Debugger
  unfolding debugger_from_json
  debugger_at j =
      if ops.contains j (codes "debugger")
      then debugger_from_json (ops.at j (codes "debugger")) none none
      else none

  unfoldable pub directory_at : J → Option (Option Bytes)
  directory_at j =
      if ops.contains j (codes "directory")
      then found_text (ops.get_string (ops.at j (codes "directory")))
      else some none

  abbrev pub make_config :
      Bytes → Bytes → Debugger → Bytes → Bytes → Option Bytes → Bytes → Bool → RunConfig
  make_config name kind debugger arguments executeable directory environment autostart = record {
    name = name;
    type_name = kind;
    debugger = debugger;
    arguments = arguments;
    executeable = executeable;
    directory = directory;
    environment = environment;
    autostart = autostart;
  }

  unfoldable pub config_from_json : J → Option RunConfig
  unfolding text_at bool_at debugger_at directory_at
  config_from_json j =
      some make_config
      <*> text_at j (codes "name")
      <*> text_at j (codes "type")
      <*> debugger_at j
      <*> text_at j (codes "arguments")
      <*> text_at j (codes "executeable")
      <*> directory_at j
      <*> text_at j (codes "environment")
      <*> bool_at j (codes "autostart")
