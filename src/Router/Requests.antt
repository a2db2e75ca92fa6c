-- ===== src/Router/Requests.antt =====
-- worker/routers/workspace.cpp, registerRoutes: one handler for each route but saveFile. The body is
-- what the parser makes of the bytes that came, the id that of the session, and `ip` the address.
use minide.Base.{
  ℕ, Bool, true, false, not, Option, none, some, [], ◌∷◌, ◌++◌, Bytes, codes, if◌then◌else◌, ℤ, pos,
  negsuc, ◌==◌,
}
use minide.Json.{JsonOps}
use minide.FileSystem.{FileAccess}
use minide.HttpStreamer.{data_channel}
use minide.Persistence.{
  new_project, load_project, raw_project, transfer_existing_items, save_project, new_meta,
  load_meta, Project, WorkspaceMeta,
}
use minide.Router.Paths.{verify_path}
use minide.Router.Handler.{
  Client, directory, Streamer, Answer, text, what, empty, Handler, ◌>>=◌, ◌>>◌, give, or_raise,
  require, get_server, this_session, save_partial, set_disk, checked, send_message, read_json_body,
}

-- The limits of the configuration.
pub record Limits : Type 0 where
  pub max_file_read_size : ℕ
  pub max_file_read_size_unforceable : ℕ
  pub file_chunk_size : ℕ

abbrev pub is_zero : ℤ → Bool
is_zero (pos n) = n == 0
is_zero (negsuc n) = false

abbrev pub is_minus_one : ℤ → Bool
is_minus_one (pos n) = false
is_minus_one (negsuc n) = n == 0

module _ {J FilePath Disk Streams : Type 0} (ops : JsonOps J) (fa : FileAccess FilePath Disk)
    (streamer : Streamer FilePath Streams) (limits : Limits) (id ip : Bytes) where
  abbrev pub H : Type 0 → Type 0
  H A = Handler FilePath Disk Streams A

  abbrev pub need_path : J → H (Unit {0})
  need_path body = require (ops.contains body (codes "path")) (codes "need path in json body")

  abbrev pub get_path : J → H Bytes
  get_path body = or_raise (ops.get_string (ops.at body (codes "path")))

  abbrev pub need_workspace : Client FilePath → Bytes → H (Unit {0})
  need_workspace client msg = require (not (fa.files.is_empty client.root)) msg

  abbrev pub need_data_stream : Client FilePath → H (Unit {0})
  need_data_stream client =
      require (not (is_minus_one client.data_id))
        (codes "please listen to the data stream before this request")

  abbrev pub need_sent : ℤ → H (Unit {0})
  need_sent result =
      require (is_zero result)
        (codes "please first listen to the data stream or provide correct listener id")

  -- The scan of a path that is no directory throws.
  abbrev pub need_directory : Disk → FilePath → H (Unit {0})
  need_directory disk path = or_raise (if fa.is_directory disk path then some tt else none)

  abbrev pub set_root : Client FilePath → Client FilePath → Client FilePath
  set_root to_save from = record to_save { root = from.root }

  abbrev pub set_project : Client FilePath → Client FilePath → Client FilePath
  set_project to_save from = record to_save { active_project = from.active_project }

  unfoldable pub open_workspace : Option J → H (Answer FilePath)
  open_workspace data_ = read_json_body data_ λ body. do
    client ← this_session id
    need_path body
    path ← get_path body
    server ← get_server
    require (fa.files.exists server.disk (fa.files.of_string path))
        (codes "directory does not exist")
    need_data_stream client
    need_directory server.disk (fa.files.of_string path)
    result ← send_message streamer data_channel ip client.data_id (
        directory (fa.files.of_string path) false
          (codes "/" ++ fa.files.filename (fa.files.of_string path)))
    need_sent result
    save_partial id set_root (record client { root = fa.files.of_string path })
    again ← this_session id
    give (empty 204)

  -- "observe" and "unobserve".
  unfoldable pub observe : Option J → H (Answer FilePath)
  observe data_ = read_json_body data_ λ body. give (text 500 (codes "observer feature pending"))

  abbrev pub recursive_of : J → Option Bool
  recursive_of body =
      if ops.contains body (codes "recursive")
      then ops.get_bool (ops.at body (codes "recursive"))
      else some false

  unfoldable pub enlist : Option J → H (Answer FilePath)
  enlist data_ = read_json_body data_ λ body. do
    client ← this_session id
    need_path body
    recursive ← or_raise (recursive_of body)
    need_workspace client (codes "first open a workspace")
    need_data_stream client
    path ← get_path body
    server ← get_server
    verified ← checked (verify_path fa server.disk path client.root true false)
    need_directory server.disk (fa.files.of_string verified)
    result ←
        send_message streamer data_channel ip client.data_id
          (directory (fa.files.of_string verified) recursive path)
    need_sent result
    give (empty 200)

  unfoldable pub info : H (Answer FilePath)
  info = do client ← this_session id; give (text 200 (codes "ok dokey"))

  abbrev pub meta_answer : Option (Bool × WorkspaceMeta FilePath) → H (Answer FilePath)
  meta_answer none = give (what 500)
  meta_answer (some (b, meta)) = give (text 200 meta.meta_raw)

  unfoldable pub load_workspace_meta : H (Answer FilePath)
  load_workspace_meta = do
    client ← this_session id
    need_workspace client (codes "open a workspace first")
    server ← get_server
    meta_answer (load_meta ops fa (new_meta client.root) server.disk)

  abbrev pub need_project : Client FilePath → Bytes → H (Unit {0})
  need_project client msg = require (not (fa.files.is_empty client.active_project)) msg

  abbrev pub or_braces : Bytes → Bytes
  or_braces [] = codes "{}"
  or_braces (c ∷ cs) = c ∷ cs

  -- `project.raw()`, which may save.
  abbrev pub raw_answer : Option (Project FilePath × Disk) → H (Answer FilePath)
  raw_answer none = give (what 500)
  raw_answer (some (project, disk)) = do set_disk disk; give (text 200 (or_braces project.raw))

  abbrev pub project_answer : Option (Bool × Project FilePath) → Disk → H (Answer FilePath)
  project_answer none disk = give (what 500)
  project_answer (some (b, project)) disk = raw_answer (raw_project ops fa project disk)

  unfoldable pub load_project_meta : H (Answer FilePath)
  load_project_meta = do
    client ← this_session id
    need_workspace client (codes "open a workspace first")
    need_project client (codes "no active project")
    server ← get_server
    project_answer (load_project ops fa (new_project client.active_project) server.disk) server.disk

  abbrev pub need_open_project : H (Client FilePath)
  need_open_project = do
    client ← this_session id
    need_workspace client (codes "open a workspace first")
    need_project client (codes "no active project")
    give client

  unfoldable pub change_project_meta : Option J → H (Answer FilePath)
  change_project_meta data_ = do
    before ← need_open_project
    read_json_body data_ λ body. do
      client ← need_open_project
      server ← get_server
      (b, project) ← or_raise (load_project ops fa (new_project client.active_project) server.disk)
      injected ← or_raise (transfer_existing_items ops fa body project)
      (c, disk) ← or_raise (save_project ops fa injected server.disk)
      set_disk disk
      give (empty 200)
