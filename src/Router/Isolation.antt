-- ===== src/Router/Isolation.antt =====
-- Router: what each handler keeps of the server.
use minide.Base.{◌≡◌, refl, Bool, true, false, Option, none, some, Bytes}
use minide.Json.{JsonOps}
use minide.FileSystem.{FileAccess}
use minide.Persistence.{Project, WorkspaceMeta}
use minide.Router.Handler.{Client, Streamer, Server, save_partial}
use minide.Router.Requests.{
  Limits, set_project, set_root, open_workspace, observe, enlist, info, load_workspace_meta,
  load_project_meta, change_project_meta, meta_answer, raw_answer, project_answer,
}
use minide.Router.FileRequests.{
  Route, handler, opens, observes, enlists, changes_project, deletes, loads, activates, toggles,
  asks_info, loads_workspace_meta, loads_project_meta, gets_run_configs, delete_file, file_or_not,
  get_run_configs, recognised, load_file, toggle, set_active_project,
}
use minide.Router.Keeps.{
  Relation, Keeps, branch-Keeps, bind-Keeps, seq-Keeps, give-Keeps, answer-Keeps, or_raise-Keeps,
  require-Keeps, checked-Keeps, get_server-Keeps, this_session-Keeps, set_disk-Keeps,
  save_partial-Keeps, send_message-Keeps, read_json_body-Keeps,
}

-- The routes that change the workspace, or the project, of the client.
abbrev pub changes_root : {J : Type 0} → Route J → Bool
changes_root (opens b) = true
changes_root _ = false

abbrev pub changes_project_of : {J : Type 0} → Route J → Bool
changes_project_of (activates b) = true
changes_project_of _ = false

ruleset keeps = (
  bind-Keeps, seq-Keeps, give-Keeps, answer-Keeps, or_raise-Keeps, require-Keeps, checked-Keeps,
  get_server-Keeps, this_session-Keeps, read_json_body-Keeps,
)

module _ {J FilePath Disk Streams : Type 0} (ops : JsonOps J) (fa : FileAccess FilePath Disk)
    (streamer : Streamer FilePath Streams) (limits : Limits) (id ip : Bytes)
    (re : Relation FilePath Disk Streams) where
  save_with-Keeps :
      (extractor : Client FilePath → Client FilePath → Client FilePath) (client : Client FilePath)
      → ((s : Server FilePath Disk Streams) (c : Client FilePath)
          → re.related s (save_partial id extractor c s).1)
      → Keeps re (save_partial id extractor client)
  save_with-Keeps extractor client h = save_partial-Keeps id extractor client (λ s. h s client)

  observe-Keeps : (data_ : Option J) → Keeps re (observe ops fa streamer limits id ip data_)
  unfolding observe
  observe-Keeps data_ = search keeps depth 40 fits 3000

  pub delete_file-Keeps :
      (data_ : Option J) → Keeps re (delete_file ops fa streamer limits id ip data_)
  unfolding delete_file
  delete_file-Keeps data_ = search keeps depth 40 fits 3000

  info-Keeps : Keeps re (info ops fa streamer limits id ip)
  unfolding info
  info-Keeps = search keeps depth 40 fits 3000

  file_or_not-Keeps :
      (path : FilePath) (o : Option Bytes)
      → Keeps re (file_or_not ops fa streamer limits id ip path o)
  file_or_not-Keeps path none = give-Keeps _
  file_or_not-Keeps path (some content) = give-Keeps _

  get_run_configs-Keeps : Keeps re (get_run_configs ops fa streamer limits id ip)
  unfolding get_run_configs
  get_run_configs-Keeps = search (branch-Keeps, file_or_not-Keeps, keeps) depth 40 fits 3000

  meta_answer-Keeps :
      (o : Option (Bool × WorkspaceMeta FilePath))
      → Keeps re (meta_answer ops fa streamer limits id ip o)
  meta_answer-Keeps none = give-Keeps _
  meta_answer-Keeps (some (b, meta)) = give-Keeps _

  load_workspace_meta-Keeps : Keeps re (load_workspace_meta ops fa streamer limits id ip)
  unfolding load_workspace_meta
  load_workspace_meta-Keeps = search (meta_answer-Keeps, keeps) depth 40 fits 3000

  recognised-Keeps :
      (o : Option (Bool × Bytes)) → Keeps re (recognised ops fa streamer limits id ip o)
  recognised-Keeps none = answer-Keeps _
  recognised-Keeps (some r) = give-Keeps _

  module _
      (disk-kept : (s : Server FilePath Disk Streams) (d : Disk)
        → re.related s (record s { disk = d }))
      (streams-kept : (s : Server FilePath Disk Streams) (x : Streams)
        → re.related s (record s { streams = x })) where
    raw_answer-Keeps :
        (o : Option (Project FilePath × Disk))
        → Keeps re (raw_answer ops fa streamer limits id ip o)
    raw_answer-Keeps none = give-Keeps _
    raw_answer-Keeps (some (project, disk)) =
        seq-Keeps (set_disk-Keeps disk-kept disk) (give-Keeps _)

    project_answer-Keeps :
        (o : Option (Bool × Project FilePath)) (disk : Disk)
        → Keeps re (project_answer ops fa streamer limits id ip o disk)
    project_answer-Keeps none disk = give-Keeps _
    project_answer-Keeps (some (b, project)) disk = raw_answer-Keeps _

    load_project_meta-Keeps : Keeps re (load_project_meta ops fa streamer limits id ip)
    unfolding load_project_meta
    load_project_meta-Keeps = search (project_answer-Keeps, keeps) depth 40 fits 3000

    enlist-Keeps : (data_ : Option J) → Keeps re (enlist ops fa streamer limits id ip data_)
    unfolding enlist
    enlist-Keeps data_ = search (send_message-Keeps, streams-kept, keeps) depth 40 fits 3000

    load_file-Keeps : (data_ : Option J) → Keeps re (load_file ops fa streamer limits id ip data_)
    unfolding load_file
    load_file-Keeps data_ = search (send_message-Keeps, streams-kept, keeps) depth 40 fits 3000

    toggle-Keeps : (data_ : Option J) → Keeps re (toggle ops fa streamer limits id ip data_)
    unfolding toggle
    toggle-Keeps data_ =
        search (send_message-Keeps, streams-kept, recognised-Keeps, keeps) depth 40 fits 3000

    change_project_meta-Keeps :
        (data_ : Option J) → Keeps re (change_project_meta ops fa streamer limits id ip data_)
    unfolding change_project_meta
    change_project_meta-Keeps data_ = search (set_disk-Keeps, disk-kept, keeps) depth 40 fits 3000

    abbrev Saves : (Client FilePath → Client FilePath → Client FilePath) → Type 0
    Saves extractor =
        (s : Server FilePath Disk Streams) (client : Client FilePath)
        → re.related s (save_partial id extractor client s).1

    open_workspace-Keeps :
        (data_ : Option J)
        → Saves (set_root ops fa streamer limits id ip)
        → Keeps re (open_workspace ops fa streamer limits id ip data_)
    unfolding open_workspace
    open_workspace-Keeps data_ h =
        search (save_with-Keeps, h, send_message-Keeps, streams-kept, keeps) depth 40 fits 3000

    set_active_project-Keeps :
        (data_ : Option J)
        → Saves (set_project ops fa streamer limits id ip)
        → Keeps re (set_active_project ops fa streamer limits id ip data_)
    unfolding set_active_project
    set_active_project-Keeps data_ h =
        search (save_with-Keeps, h, set_disk-Keeps, disk-kept, keeps) depth 40 fits 3000

    -- A handler keeps a relation that the disk and the streams do not enter, if what it saves of its
    -- client keeps it.
    pub handler-Keeps :
        (route : Route J)
        → (changes_root route ≡ true → Saves (set_root ops fa streamer limits id ip))
        → (changes_project_of route ≡ true → Saves (set_project ops fa streamer limits id ip))
        → Keeps re (handler ops fa streamer limits id ip route)
    handler-Keeps (opens b) h g = open_workspace-Keeps b (h refl)
    handler-Keeps (observes b) h g = observe-Keeps b
    handler-Keeps (enlists b) h g = enlist-Keeps b
    handler-Keeps (changes_project b) h g = change_project_meta-Keeps b
    handler-Keeps (deletes b) h g = delete_file-Keeps b
    handler-Keeps (loads b) h g = load_file-Keeps b
    handler-Keeps (activates b) h g = set_active_project-Keeps b (g refl)
    handler-Keeps (toggles b) h g = toggle-Keeps b
    handler-Keeps asks_info h g = info-Keeps
    handler-Keeps loads_workspace_meta h g = load_workspace_meta-Keeps
    handler-Keeps loads_project_meta h g = load_project_meta-Keeps
    handler-Keeps gets_run_configs h g = get_run_configs-Keeps
