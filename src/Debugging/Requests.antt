-- ===== src/Debugging/Requests.antt =====
-- worker/routers/debugger.cpp: the requests about debuggers, and the exit of one. Requests and
-- exits come one at a time here; Races has two requests that come together. The object of a
-- debugger ends, and stops, with the last session that holds it.
use minide.Base.{Bool, ◌&&◌, Option, none, some, List, [], ◌∷◌, Bytes, codes, ℤ, if◌then◌else◌}
use minide.Base.Dict.{find, erase}
use minide.Json.{JsonOps, JsonLists}
use minide.SessionStorage.{partially_save_session}
use minide.Debugging.{Debugger, DebuggerInterface, MiCommand, stop, raw_command, command}
use minide.Router.Handler.{
  Answer, refusal, empty, unanswered, value, Step, ◌>>=◌, ◌>>◌, give, or_raise, answer, require,
}

-- The fields of `Session` that these requests use.
pub record DebugSession (FilePath : Type 0) : Type 0 where
  pub root : FilePath
  pub active_project : FilePath
  pub remote_address : Bytes
  pub control_id : ℤ
  pub debugger_instances : List (Bytes × Debugger)

pub record DebugServer (FilePath World : Type 0) : Type 0 where
  pub sessions : List (Bytes × DebugSession FilePath)
  pub world : World

-- What the requests use that is not in the repository, or is made elsewhere: `is_empty` and
-- `generic_string` of a path, and `replace_all` of a text, a pattern and what stands for it.
pub record Tools (J FilePath World : Type 0) : Type 0 where
  pub ops : JsonOps J
  pub lists : JsonLists J
  pub is_null : J → Bool
  pub is_empty : FilePath → Bool
  pub generic_string : FilePath → Bytes
  pub replace_all : Bytes → Bytes → Bytes → Bytes
  pub gdb : DebuggerInterface World

-- The session of a copy with other instances.
abbrev pub with_instances :
    {FilePath : Type 0}
    → (List (Bytes × Debugger) → List (Bytes × Debugger))
    → DebugSession FilePath
    → DebugSession FilePath
    → DebugSession FilePath
with_instances change to_save from = record to_save {
  debugger_instances = change to_save.debugger_instances;
}

module _ {J FilePath World : Type 0} (t : Tools J FilePath World) (id : Bytes) where
  abbrev pub D : Type 0 → Type 0
  D A = Step FilePath (DebugServer FilePath World) A

  unfoldable pub debug_session : D (DebugSession FilePath)
  debug_session s = or_raise (find id s.sessions) s

  unfoldable pub save_instances :
      (List (Bytes × Debugger) → List (Bytes × Debugger)) → DebugSession FilePath → D (Unit {0})
  save_instances change from s = (
    value tt,
    record s { sessions = (partially_save_session (with_instances change) id from s.sessions).1 },
  )

  unfoldable pub in_world : (World → World) → D (Unit {0})
  in_world act s = (value tt, record s { world = act s.world })

  -- A text that the body has to have.
  unfoldable pub need_text : J → Bytes → Bytes → D Bytes
  need_text body key message =
      require (t.ops.contains body key) message >> or_raise (t.ops.get_string (t.ops.at body key))

  abbrev pub or_refuse : Option Debugger → D Debugger
  or_refuse none =
      answer (refusal 400 (codes "no debugger instance with that id found for current session"))
  or_refuse (some debugger) = give debugger

  unfoldable pub find_instance : Bytes → DebugSession FilePath → D Debugger
  find_instance instance_id sess = or_refuse (find instance_id sess.debugger_instances)

  unfoldable pub delete_instance : J → D (Answer FilePath)
  delete_instance body = do
    instance_id ← need_text body (codes "instanceId") (codes "need instance id")
    sess ← debug_session
    debugger ← find_instance instance_id sess
    save_instances (erase instance_id) sess
    in_world (stop t.gdb debugger)
    give unanswered

  unfoldable pub raw_command_request : J → D (Answer FilePath)
  raw_command_request body = do
    instance_id ← need_text body (codes "instanceId") (codes "need instance id")
    line ← need_text body (codes "command") (codes "need command string")
    sess ← debug_session
    debugger ← find_instance instance_id sess
    in_world (raw_command t.gdb line debugger)
    give (empty 204)

  abbrev pub token_of : Option ℤ → Option (Option ℤ)
  token_of none = none
  token_of (some n) = some (some n)

  abbrev pub get_token : J → D (Option ℤ)
  get_token j =
      if t.ops.contains j (codes "token")
      then or_raise (token_of (t.ops.get_int (t.ops.at j (codes "token"))))
      else give none

  -- Parameters that are no array are left out.
  abbrev pub get_params : J → D (List Bytes)
  get_params j =
      if t.ops.contains j (codes "params") && t.lists.is_array (t.ops.at j (codes "params"))
      then or_raise (t.lists.get_strings (t.ops.at j (codes "params")))
      else give []

  abbrev pub add_option :
      Bytes → Option Bytes → Option (List (Bytes × Bytes)) → Option (List (Bytes × Bytes))
  add_option key none rest = none
  add_option key (some v) none = none
  add_option key (some v) (some rest) = some ((key, v) ∷ rest)

  abbrev pub all_options : List (Bytes × J) → Option (List (Bytes × Bytes))
  all_options [] = some []
  all_options ((key, v) ∷ items) = add_option key (t.ops.get_string v) (all_options items)

  abbrev pub get_options : J → D (List (Bytes × Bytes))
  get_options j =
      if t.ops.contains j (codes "options")
      then or_raise (all_options (t.lists.items (t.ops.at j (codes "options"))))
      else give []

  abbrev pub make_command : Option ℤ → Bytes → List Bytes → List (Bytes × Bytes) → MiCommand
  make_command token operation params options = record {
    token = token;
    operation = operation;
    params = params;
    options = options;
  }

  unfoldable pub command_request : J → D (Answer FilePath)
  command_request body = do
    instance_id ← need_text body (codes "instanceId") (codes "need instance id")
    require (t.ops.contains body (codes "command")) (codes "need command object")
    j ← give (t.ops.at body (codes "command"))
    token ← get_token j
    operation ← need_text j (codes "operation") (codes "command needs operation")
    params ← get_params j
    options ← get_options j
    sess ← debug_session
    debugger ← find_instance instance_id sess
    in_world (command t.gdb (make_command token operation params options) debugger)
    give (empty 204)
