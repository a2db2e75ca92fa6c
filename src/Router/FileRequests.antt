-- ===== src/Router/FileRequests.antt =====
-- worker/routers/workspace.cpp, registerRoutes: deleteFile, loadFile, setActiveProject,
-- toggleSourceHeader and getRunConfigs; and all routes together.
use minide.Base.{Bool, true, false, not, Option, none, some, [], Bytes, codes, if◌then◌else◌}
use minide.Json.{JsonOps}
use minide.FileSystem.{FileAccess}
use minide.Jail.{Jail, make}
use minide.HttpStreamer.{control_channel, data_channel}
use minide.FileContent.{load}
use minide.Persistence.{new_meta, load_meta, save_meta}
use minide.Router.Paths.{verify_path, relative_to_root}
use minide.Router.Extensions.{wanted, target_extension}
use minide.Router.Toggle.{toggle_source_header, Found}
use minide.Router.Handler.{
  StreamMessage, file_content, toggled, Streamer, Server, Answer, refusal, text, empty, file,
  Handler, ◌>>=◌, ◌>>◌, give, or_raise, answer, require, get_server, this_session, save_partial,
  set_disk, checked, send_message, outer, read_json_body,
}
use minide.Router.Requests.{
  Limits, is_minus_one, need_path, get_path, need_workspace, need_data_stream, need_sent,
  need_project, set_project, open_workspace, observe, enlist, info, load_workspace_meta,
  load_project_meta, change_project_meta, H,
}

module _ {J FilePath Disk Streams : Type 0} (ops : JsonOps J) (fa : FileAccess FilePath Disk)
    (streamer : Streamer FilePath Streams) (limits : Limits) (id ip : Bytes) where
  abbrev R : Type 0
  R = Handler FilePath Disk Streams (Answer FilePath)

  -- The check that stands before the body is read.
  abbrev pub before_body : R → R
  before_body rest = do
    client ← this_session id
    need_workspace ops fa streamer limits id ip client (codes "open a workspace first")
    rest

  -- The file is named in the log, and stays.
  unfoldable pub delete_file : Option J → R
  delete_file data_ = before_body (
      read_json_body data_ λ body. do
        need_path ops fa streamer limits id ip body
        client ← this_session id
        need_workspace ops fa streamer limits id ip client (codes "open a workspace first")
        path ← get_path ops fa streamer limits id ip body
        server ← get_server
        verified ← checked (verify_path fa server.disk path client.root true true)
        give (empty 200))

  abbrev pub force_of : J → Option Bool
  force_of body =
      if ops.contains body (codes "force")
      then ops.get_bool (ops.at body (codes "force"))
      else some false

  abbrev pub flag_of : J → Option Bytes
  flag_of body =
      if ops.contains body (codes "flag")
      then ops.get_string (ops.at body (codes "flag"))
      else some []

  -- The result of `load` is not looked at: where it is an error, a message without chunks is sent.
  unfoldable pub load_file : Option J → R
  load_file data_ = before_body (
      read_json_body data_ λ body. do
        need_path ops fa streamer limits id ip body
        client ← this_session id
        need_data_stream ops fa streamer limits id ip client
        path ← get_path ops fa streamer limits id ip body
        force ← or_raise (force_of body)
        server ← get_server
        verified ← checked (verify_path fa server.disk path client.root true false)
        require (fa.is_regular_file server.disk (fa.files.of_string verified))
            (codes "is not a regular file")
        flag ← or_raise (flag_of body)
        result ← send_message streamer data_channel ip client.data_id (
            file_content path flag (
              load (fa.read_file server.disk (fa.files.of_string verified)) force
                limits.max_file_read_size limits.max_file_read_size_unforceable
                limits.file_chunk_size))
        need_sent ops fa streamer limits id ip result
        give (empty 200))

  unfoldable pub set_active_project : Option J → R
  set_active_project data_ = before_body (
      read_json_body data_ λ body. do
        need_path ops fa streamer limits id ip body
        path ← get_path ops fa streamer limits id ip body
        client ← this_session id
        server ← get_server
        verified ← checked (verify_path fa server.disk path client.root true false)
        require (fa.is_directory server.disk (fa.files.of_string verified))
            (codes "is not a directory")
        save_partial id (set_project ops fa streamer limits id ip)
            (record client { active_project = fa.files.of_string verified })
        (b, meta) ← or_raise (load_meta ops fa (new_meta client.root) server.disk)
        (c, disk) ← or_raise (
            save_meta ops fa
              (record meta {
                last_active_project = fa.files.generic_string (fa.files.of_string verified);
              })
              server.disk)
        set_disk disk
        give (empty 200))

  abbrev pub wish : J → Bytes → Option (Option Bytes)
  wish body key =
      if ops.contains body key
      then (elim (ops.get_string (ops.at body key)) [ none ↦ none | some e ↦ some (some e) ])
      else some none

  abbrev pub or_same : FilePath → Option FilePath → FilePath
  or_same path none = path
  or_same path (some relative) = relative

  -- `makeRelative`.
  abbrev pub make_relative : Disk → Jail FilePath → FilePath → FilePath
  make_relative disk jail path =
      if fa.files.is_empty path
      then path
      else or_same path (relative_to_root fa disk jail path true)

  abbrev pub recognised : Option (Bool × Bytes) → H ops fa streamer limits id ip (Bool × Bytes)
  recognised none = answer (
      refusal 400
        (codes "File is not recognized as a C/C++/Objective-C source or header file by extension"))
  recognised (some r) = give r

  abbrev pub toggle_message : Disk → Jail FilePath → Found FilePath → StreamMessage FilePath
  toggle_message disk jail found =
      toggled found.special_exists
        (fa.files.generic_string (make_relative disk jail found.special_dir_partner))
        (fa.files.generic_string (make_relative disk jail found.same_place_partner)) found.any_found

  unfoldable pub toggle : Option J → R
  toggle data_ = before_body (
      read_json_body data_ λ body. do
        need_path ops fa streamer limits id ip body
        client ← this_session id
        require (not (is_minus_one client.control_id))
            (codes "please listen to the control stream before this request")
        source ← or_raise (wish body (codes "sourceExtension"))
        header ← or_raise (wish body (codes "headerExtension"))
        path ← get_path ops fa streamer limits id ip body
        (is_source, target) ←
            recognised
              (target_extension (wanted source header) (fa.extension (fa.files.of_string path)))
        server ← get_server
        found ←
            or_raise
              (toggle_source_header fa server.disk (fa.files.of_string path) is_source target)
        jail ← or_raise (make fa.files server.disk client.root)
        result ←
            send_message streamer control_channel ip client.control_id
              (toggle_message server.disk jail found)
        need_sent ops fa streamer limits id ip result
        give (empty 200))

  abbrev pub run_file : FilePath → FilePath
  run_file project =
      fa.files.join (fa.files.join project (fa.files.of_string (codes ".minIDE")))
        (fa.files.of_string (codes "run.json"))

  abbrev pub file_or_not : FilePath → Option Bytes → R
  file_or_not path none = give (refusal 404 (codes "cannot open file or read file"))
  file_or_not path (some content) = give (file path)

  -- `send_file` is refused where the file cannot be opened.
  unfoldable pub get_run_configs : R
  get_run_configs = do
    client ← this_session id
    need_workspace ops fa streamer limits id ip client (codes "open a workspace first")
    need_project ops fa streamer limits id ip client (codes "set an active project")
    server ← get_server
    (if fa.files.exists server.disk (run_file client.active_project)
        then file_or_not (run_file client.active_project)
            (fa.read_file server.disk (run_file client.active_project))
        else give (text 200 (codes "{}")))

-- The routes, with what the parser makes of the body that came.
pub data Route (J : Type 0) : Type 0 where
  opens observes enlists changes_project deletes loads activates toggles : Option J → Route J
  asks_info loads_workspace_meta loads_project_meta gets_run_configs : Route J

module _ {J FilePath Disk Streams : Type 0} (ops : JsonOps J) (fa : FileAccess FilePath Disk)
    (streamer : Streamer FilePath Streams) (limits : Limits) (id ip : Bytes) where
  abbrev pub handler : Route J → Handler FilePath Disk Streams (Answer FilePath)
  handler (opens b) = open_workspace ops fa streamer limits id ip b
  handler (observes b) = observe ops fa streamer limits id ip b
  handler (enlists b) = enlist ops fa streamer limits id ip b
  handler (changes_project b) = change_project_meta ops fa streamer limits id ip b
  handler (deletes b) = delete_file ops fa streamer limits id ip b
  handler (loads b) = load_file ops fa streamer limits id ip b
  handler (activates b) = set_active_project ops fa streamer limits id ip b
  handler (toggles b) = toggle ops fa streamer limits id ip b
  handler asks_info = info ops fa streamer limits id ip
  handler loads_workspace_meta = load_workspace_meta ops fa streamer limits id ip
  handler loads_project_meta = load_project_meta ops fa streamer limits id ip
  handler gets_run_configs = get_run_configs ops fa streamer limits id ip

  unfoldable pub handle :
      Route J
      → Server FilePath Disk Streams
      → Option (Answer FilePath) × Server FilePath Disk Streams
  unfolding open_workspace observe enlist change_project_meta delete_file load_file
      set_active_project toggle info load_workspace_meta load_project_meta get_run_configs
  handle route s = outer (handler route s)
