-- ===== src/Debugging/Tests.antt =====
-- worker/routers/debugger.cpp: a debugger that is made, used and deleted.
use minide.Base.{
  ◌≡◌, refl, true, false, none, some, List, [], ◌∷◌, ◌++◌, Bytes, codes, bytes_eq, pos, inl, inr,
  Bool-cases,
}
use minide.Base.Dict.{find}
use minide.Json.{JsonLists}
use minide.RunConfig.{RunConfig, config_from_json, config_to_json}
use minide.RunConfig.RoundTrip.{config_from_json-to_json}
use minide.Samples.{sample_json, sample_json-IsLawful, encode, decode, fields_of}
use minide.Debugging.{Debugger, DebuggerInterface, new_debugger, start}
use minide.Debugging.Requests.{DebugSession, DebugServer, Tools}
use minide.Debugging.Create.{
  has_name, allow_duplicate, replaced, extract_environment, compiles, Event, creates, sends_raw,
  exits, debug_handle,
}
use minide.Debugging.Names.{NamesDistinct, instances_at}
use minide.Debugging.Distinct.{run_events, all_ask_for_one, run_events-NamesDistinct}
use minide.Debugging.Races.{asked, ended, together, together-duplicates}
use minide.Debugging.Creation.{create_instance-commands}
use minide.Debugging.Endings.{create_instance-ignores}
use minide.Router.Handler.{Answer, text, empty, value}

abbrev no_lists : JsonLists Bytes
no_lists = record {
  is_array = λ j. false;
  is_object = λ j. false;
  get_strings = λ j. none;
  items = λ j. [];
}

-- The processes are what was sent to them, the last first.
abbrev sample_gdb : DebuggerInterface (List Bytes)
sample_gdb = record {
  launch = λ path args world. some (7, args.program ∷ world);
  send_command = λ handle c world. c.operation ∷ world;
  send_text = λ handle line world. line ∷ world;
  stop = λ handle world. codes "stop" ∷ world;
  stop_unstarted = λ world. codes "stop" ∷ world;
  try_get_exit_status = λ handle world. none;
}

abbrev tools : Tools Bytes Bytes (List Bytes)
tools = record {
  ops = sample_json;
  lists = no_lists;
  is_null = λ j. false;
  is_empty = λ p. bytes_eq p [];
  generic_string = λ p. p;
  replace_all = λ s pattern format. s;
  gdb = sample_gdb;
}

abbrev profile : RunConfig
profile = record {
  name = codes "debug";
  type_name = codes "c++";
  debugger = record {
    command_file = none;
    init_command_file = none;
    debugger_type = codes "gdb";
    fully_read_symbols = false;
    return_child_result = true;
    debugger_path = codes "gdb";
    debugger_name = codes "gdb";
    ignore_gdb_init = true;
    ignore_all_gdb_init = false;
    additional_arguments = [];
  };
  arguments = [];
  executeable = codes "a.out";
  directory = none;
  environment = codes "mine";
  autostart = true;
}

abbrev session : DebugSession Bytes
session = record {
  root = codes "/w";
  active_project = codes "/w/p";
  remote_address = codes "::1";
  control_id = pos 3;
  debugger_instances = [];
}

abbrev server : DebugServer Bytes (List Bytes)
server = record { sessions = (codes "s", session) ∷ (codes "o", session) ∷ []; world = [] }

abbrev body : Bytes
body =
    sample_json.object ((codes "runProfile", config_to_json sample_json (λ j. false) profile) ∷ [])

abbrev command_body : Bytes
command_body =
    sample_json.object ((codes "instanceId", codes "i") ∷ (codes "command", codes "run") ∷ [])

profile_read :
    config_from_json sample_json (λ j. false) (sample_json.at body (codes "runProfile"))
    ≡ some profile
profile_read =
    rw
      (sample_json-IsLawful.at-object
        ((codes "runProfile", config_to_json sample_json (λ j. false) profile) ∷ [])
        (codes "runProfile") (config_to_json sample_json (λ j. false) profile)
        (unfold find bytes_eq in refl))
      (config_from_json-to_json sample_json (λ j. false) sample_json-IsLawful (λ s. refl) profile)

-- The body has a profile, and says nothing of duplicates.
has_profile : sample_json.contains body (codes "runProfile") ≡ true
unfolding find bytes_eq
has_profile =
    sample_json-IsLawful.contains-object
      ((codes "runProfile", config_to_json sample_json (λ j. false) profile) ∷ [])
      (codes "runProfile")

no_duplicates : sample_json.contains body (codes "allowDuplicate") ≡ false
unfolding find bytes_eq
no_duplicates =
    sample_json-IsLawful.contains-object
      ((codes "runProfile", config_to_json sample_json (λ j. false) profile) ∷ [])
      (codes "allowDuplicate")

forbids : allow_duplicate tools (codes "s") [] body ≡ some false
unfolding allow_duplicate
forbids = rw no_duplicates refl

create_instance-commands_example :
    let created = debug_handle tools [] (codes "s") (creates (codes "i") (some body)) server in
    (created.0
      ≡ some
          (text 200 (sample_json.dump (sample_json.object ((codes "instanceId", codes "i") ∷ [])))))
    × (debug_handle tools [] (codes "s") (sends_raw (some command_body)) created.1 ≡ (
      some (empty 204),
      record created.1 {
        world = sample_gdb.send_text 7 (codes "run" ++ (b'\n' ∷ [])) (codes "a.out" ∷ []);
      },
    ))
create_instance-commands_example =
    create_instance-commands tools [] (codes "s") server session (codes "i") (codes "run") body
      command_body profile false none 7 (codes "a.out" ∷ []) (unfold find bytes_eq in refl)
      (unfold bytes_eq in refl) (unfold bytes_eq in refl) has_profile profile_read forbids
      (unfold extract_environment compiles replaced bytes_eq in refl) (unfold has_name in refl)
      (unfold replaced in refl) (unfold decode fields_of encode find bytes_eq in refl)
      (unfold decode fields_of encode find bytes_eq in refl)
      (unfold decode fields_of encode find bytes_eq in refl)
      (unfold decode fields_of encode find bytes_eq in refl)

create_instance-ignores_example :
    debug_handle tools [] (codes "s") (creates (codes "i") (some body)) server
    ≡ debug_handle tools
        ((codes "mine", record { path = []; variables = []; inherits = [] }) ∷ [])
        (codes "s")
        (creates (codes "i") (some body))
        server
create_instance-ignores_example =
    create_instance-ignores tools (codes "s") []
      ((codes "mine", record { path = []; variables = []; inherits = [] }) ∷ []) server (codes "i")
      body profile profile_read (unfold compiles bytes_eq in refl)

abbrev running : Debugger
running = record (new_debugger (codes "::1") (pos 3) profile (codes "i")) {
  debug_interface = some 7;
}

abbrev running_session : DebugSession Bytes
running_session = record session { debugger_instances = (codes "i", running) ∷ [] }

abbrev running_server : DebugServer Bytes (List Bytes)
running_server = record { sessions = (codes "s", running_session) ∷ []; world = [] }

abbrev twice : List (Bytes × Event Bytes)
twice =
    (codes "s", creates (codes "i") (some body))
    ∷ (codes "s", creates (codes "j") (some body))
    ∷ (codes "s", exits (codes "i"))
    ∷ []

all_names : (id : Bytes) → NamesDistinct (instances_at (find id server.sessions))
unfolding find
all_names id = elim (Bool-cases (bytes_eq (codes "s") id)) [
  | inl e ↦ rw e tt
  | inr e ↦ elim (Bool-cases (bytes_eq (codes "o") id)) [
    | inl f ↦ rw (e, f) tt
    | inr f ↦ rw (e, f) tt
  ]
]

run_events-NamesDistinct_example :
    NamesDistinct (instances_at (find (codes "s") (run_events tools [] twice server).sessions))
run_events-NamesDistinct_example =
    run_events-NamesDistinct tools [] twice server (unfold all_ask_for_one in rw forbids refl)
      all_names (codes "s")

abbrev sample_answer : Bytes → Answer Bytes
sample_answer new_id =
    text 200 (sample_json.dump (sample_json.object ((codes "instanceId", new_id) ∷ [])))

together-duplicates_example :
    let r =
      together tools [] (codes "s") (asked (codes "i") body) (asked (codes "j") body) server in
    (r.0 ≡ ended (value (sample_answer (codes "i"))))
    × (r.1 ≡ ended (value (sample_answer (codes "j"))))
    × ¬ NamesDistinct (instances_at (find (codes "s") r.2.sessions))
together-duplicates_example =
    together-duplicates tools [] (codes "s") server session (codes "i") (codes "j") body profile
      none running (record running { instance_id = codes "j" }) (codes "a.out" ∷ [])
      (codes "a.out" ∷ (codes "a.out" ∷ [])) (unfold find bytes_eq in refl)
      (unfold bytes_eq in refl) (unfold bytes_eq in refl) has_profile profile_read forbids
      (unfold extract_environment compiles replaced bytes_eq in refl) (unfold has_name in refl)
      (unfold bytes_eq in refl) (unfold replaced start in refl) (unfold replaced start in refl)
