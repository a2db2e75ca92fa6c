-- ===== src/RunConfig/RoundTrip.antt =====
-- RunConfig: what is printed is read again.
use minide.Base.{
  ◌≡◌, refl, ap, ◌∙◌, Bool, true, false, Option, none, some, List, [], ◌∷◌, ◌++◌, Bytes, codes,
  bytes_eq,
}
use minide.Base.Dict.{find}
use minide.Json.{JsonOps, IsLawful, is_some}
use minide.RunConfig.{
  Debugger, RunConfig, plain_fields, debugger_fields, config_fields, debugger_to_json,
  config_to_json, text_at, bool_at, bool_at_or, text_at_or, optional_at, debugger_from_json,
  debugger_at, directory_at, config_from_json, optional_field,
}

module _ {J : Type 0} (ops : JsonOps J) (is_null : J → Bool) (laws : IsLawful ops)
    (null-of_string : (s : Bytes) → is_null (ops.of_string s) ≡ false) where
  module _ (fields : List (Bytes × J)) (key : Bytes) where
    there : {j : J} → find key fields ≡ some j → ops.contains (ops.object fields) key ≡ true
    there h = laws.contains-object fields key ∙ ap is_some h

    not_there : find key fields ≡ none → ops.contains (ops.object fields) key ≡ false
    not_there h = laws.contains-object fields key ∙ ap is_some h

    text_at-object :
        (s : Bytes)
        → find key fields ≡ some (ops.of_string s)
        → text_at ops is_null (ops.object fields) key ≡ some s
    unfolding text_at
    text_at-object s h = rw (there h, laws.at-object fields key _ h) (laws.get-of_string s)

    text_at_or-object :
        (s old : Bytes)
        → find key fields ≡ some (ops.of_string s)
        → text_at_or ops is_null (ops.object fields) key old ≡ some s
    unfolding text_at_or
    text_at_or-object s old h = rw (there h, laws.at-object fields key _ h) (laws.get-of_string s)

    bool_at-object :
        (b : Bool)
        → find key fields ≡ some (ops.of_bool b)
        → bool_at ops is_null (ops.object fields) key ≡ some b
    unfolding bool_at
    bool_at-object b h = rw (there h, laws.at-object fields key _ h) (laws.get-of_bool b)

    bool_at_or-object :
        (b old : Bool)
        → find key fields ≡ some (ops.of_bool b)
        → bool_at_or ops is_null (ops.object fields) key old ≡ some b
    unfolding bool_at_or
    bool_at_or-object b old h = rw (there h, laws.at-object fields key _ h) (laws.get-of_bool b)

    -- What an optional text is printed to.
    abbrev printed : Option Bytes → Option J
    printed none = none
    printed (some s) = some (ops.of_string s)

    optional_at-object :
        (o : Option Bytes)
        → find key fields ≡ printed o
        → optional_at ops is_null (ops.object fields) key none ≡ some o
    unfolding optional_at
    optional_at-object none h = rw (not_there h) refl
    optional_at-object (some s) h =
        rw (there h, laws.at-object fields key _ h, null-of_string s, laws.get-of_string s) refl

  find-here :
      (key : Bytes) (o : Option Bytes) (rest : List (Bytes × J))
      → bytes_eq key key ≡ true
      → find key rest ≡ none
      → find key (optional_field ops is_null key o ++ rest) ≡ printed rest key o
  unfolding find
  find-here key none rest same missing = missing
  find-here key (some s) rest same missing = rw same refl

  find-behind :
      (key k : Bytes) (o : Option Bytes) (rest : List (Bytes × J))
      → bytes_eq k key ≡ false
      → find key (optional_field ops is_null k o ++ rest) ≡ find key rest
  unfolding find
  find-behind key k none rest other = refl
  find-behind key k (some s) rest other = rw other refl

  module _ (d : Debugger) where
    abbrev all_fields : List (Bytes × J)
    all_fields = debugger_fields ops is_null d

    find-debugger :
        (key : Bytes)
        → bytes_eq (codes "commandFile") key ≡ false
        → bytes_eq (codes "initCommandFile") key ≡ false
        → find key all_fields ≡ find key (plain_fields ops is_null d)
    find-debugger key c i =
        find-behind key (codes "commandFile") d.command_file _ c
        ∙ find-behind key (codes "initCommandFile") d.init_command_file _ i

    debugger_from_json-to_json :
        debugger_from_json ops is_null (debugger_to_json ops is_null d) none none ≡ some d
    unfolding debugger_from_json debugger_to_json find bytes_eq
    debugger_from_json-to_json =
        rw
          (
            optional_at-object all_fields (codes "commandFile") d.command_file (
                find-here (codes "commandFile") d.command_file _ refl (
                  find-behind (codes "commandFile") (codes "initCommandFile") d.init_command_file _
                    refl)),
            optional_at-object all_fields (codes "initCommandFile") d.init_command_file (
                find-behind (codes "initCommandFile") (codes "commandFile") d.command_file _ refl
                ∙ find-here (codes "initCommandFile") d.init_command_file _ refl refl),
            text_at-object all_fields (codes "debugger") d.debugger_type
                (find-debugger _ refl refl),
            bool_at_or-object all_fields (codes "fullyReadSymbols") d.fully_read_symbols true
                (find-debugger _ refl refl),
            bool_at_or-object all_fields (codes "returnChildResult") d.return_child_result true
                (find-debugger _ refl refl),
            text_at-object all_fields (codes "path") d.debugger_path (find-debugger _ refl refl),
            text_at-object all_fields (codes "name") d.debugger_name (find-debugger _ refl refl),
            bool_at_or-object all_fields (codes "ignoreGdbInit") d.ignore_gdb_init false
                (find-debugger _ refl refl),
            bool_at_or-object all_fields (codes "ignoreAllGdbInit") d.ignore_all_gdb_init false
                (find-debugger _ refl refl),
            text_at_or-object all_fields (codes "additionCommandlineArguments")
                d.additional_arguments [] (find-debugger _ refl refl),
          )
          refl

  directory_at-object :
      (fields : List (Bytes × J)) (o : Option Bytes)
      → find (codes "directory") fields ≡ printed fields (codes "directory") o
      → directory_at ops is_null (ops.object fields) ≡ some o
  unfolding directory_at
  directory_at-object fields none h = rw (not_there fields (codes "directory") h) refl
  directory_at-object fields (some s) h =
      rw
        (
          there fields (codes "directory") h,
          laws.at-object fields (codes "directory") _ h,
          laws.get-of_string s,
        )
        refl

  debugger_at-object :
      (fields : List (Bytes × J)) (d : Debugger)
      → find (codes "debugger") fields ≡ some (debugger_to_json ops is_null d)
      → debugger_at ops is_null (ops.object fields) ≡ some d
  unfolding debugger_at
  debugger_at-object fields d h =
      rw (there fields (codes "debugger") h, laws.at-object fields (codes "debugger") _ h)
        (debugger_from_json-to_json d)

  -- A run configuration that is printed as JSON is read as it was, with its debugger, its optional
  -- texts and its flags.
  pub config_from_json-to_json :
      (c : RunConfig) → config_from_json ops is_null (config_to_json ops is_null c) ≡ some c
  unfolding config_from_json config_to_json find bytes_eq
  config_from_json-to_json c =
      let fields : List (Bytes × J) = config_fields ops is_null c in
      let last : List (Bytes × J) =
        (codes "environment", ops.of_string c.environment)
        ∷ (codes "autostart", ops.of_bool c.autostart)
        ∷ [] in
      rw
        (
          text_at-object fields (codes "name") c.name refl,
          text_at-object fields (codes "type") c.type_name refl,
          debugger_at-object fields c.debugger refl,
          text_at-object fields (codes "arguments") c.arguments refl,
          text_at-object fields (codes "executeable") c.executeable refl,
          directory_at-object fields c.directory
              (find-here (codes "directory") c.directory last refl refl),
          text_at-object fields (codes "environment") c.environment
              (find-behind (codes "environment") (codes "directory") c.directory last refl),
          bool_at-object fields (codes "autostart") c.autostart
              (find-behind (codes "autostart") (codes "directory") c.directory last refl),
        )
        refl
