-- ===== src/Persistence.antt =====
-- worker/workspace/project_persistence.cpp and workspace_persistence.cpp: what is kept of a project
-- and of a workspace in files below ".minIDE". An operation that throws is `none`.
pub mod RoundTrip
pub mod Tests
use minide.Base.{Bool, true, false, Option, none, some, List, [], ◌∷◌, Bytes, codes, if◌then◌else◌}
use minide.Json.{JsonOps}
use minide.FileSystem.{FileSystem, FileAccess}

pub record Project (FilePath : Type 0) : Type 0 where
  pub split_source_and_include : Bool
  pub ignore_seeming_split : Bool
  pub root : FilePath
  pub raw : Bytes

pub record WorkspaceMeta (FilePath : Type 0) : Type 0 where
  pub last_active_project : Bytes
  pub meta_root : FilePath
  pub meta_raw : Bytes

abbrev pub new_project : {FilePath : Type 0} → FilePath → Project FilePath
new_project root = record {
  split_source_and_include = false;
  ignore_seeming_split = false;
  root = root;
  raw = [];
}

abbrev pub new_meta : {FilePath : Type 0} → FilePath → WorkspaceMeta FilePath
new_meta root = record { last_active_project = []; meta_root = root; meta_raw = [] }

module _ {J FilePath Disk : Type 0} (ops : JsonOps J) (fa : FileAccess FilePath Disk) where
  -- The value of a Boolean field, where it is there, and what stands there else.
  abbrev pub bool_or : J → Bytes → Bool → Option Bool
  bool_or j key old = if ops.contains j key then ops.get_bool (ops.at j key) else some old

  abbrev pub set_flags : Project FilePath → Option Bool → Option Bool → Option (Project FilePath)
  set_flags p (some split) (some ignore) =
      some (record p { split_source_and_include = split; ignore_seeming_split = ignore })
  set_flags p none ignore = none
  set_flags p (some split) none = none

  unfoldable pub transfer_existing_items : J → Project FilePath → Option (Project FilePath)
  transfer_existing_items j p =
      set_flags p (bool_or j (codes "splitSourceAndInclude") p.split_source_and_include)
        (bool_or j (codes "ignoreSeemingSplit") p.ignore_seeming_split)

  abbrev pub meta_dir : FilePath → FilePath
  meta_dir root = fa.files.join root (fa.files.of_string (codes ".minIDE"))

  abbrev pub meta_file : FilePath → Bytes → FilePath
  meta_file root name = fa.files.join (meta_dir root) (fa.files.of_string name)

  -- Whether a file was written, and the disk.
  abbrev pub write_or_not : Disk → Option Disk → Bool × Disk
  write_or_not disk none = (false, disk)
  write_or_not disk (some written) = (true, written)

  abbrev pub write_in : FilePath → Bytes → Option Disk → Option (Bool × Disk)
  write_in file content none = none
  write_in file content (some disk) = some (write_or_not disk (fa.write_file disk file content))

  -- `create_directory` where there is none, and the file.
  unfoldable pub save_text : FilePath → Bytes → Bytes → Disk → Option (Bool × Disk)
  save_text root name content disk = write_in (meta_file root name) content (
      if fa.files.exists disk (meta_dir root)
      then some disk
      else fa.create_directory disk (meta_dir root))

  abbrev pub project_json : Project FilePath → J
  project_json p = ops.object (
      (codes "splitSourceAndInclude", ops.of_bool p.split_source_and_include)
      ∷ (codes "ignoreSeemingSplit", ops.of_bool p.ignore_seeming_split)
      ∷ [])

  unfoldable pub save_project : Project FilePath → Disk → Option (Bool × Disk)
  unfolding save_text
  save_project p disk = save_text p.root (codes "project.json") (ops.dump (project_json p)) disk

  -- The text of a file that exists and opens.
  abbrev pub text_of : Disk → FilePath → Option Bytes
  text_of disk file = if fa.files.exists disk file then fa.read_file disk file else none

  abbrev pub with_result : Bool → Option (Project FilePath) → Option (Bool × Project FilePath)
  with_result b none = none
  with_result b (some p) = some (b, p)

  abbrev pub transfer : Project FilePath → Option J → Option (Bool × Project FilePath)
  transfer p none = none
  transfer p (some j) = with_result true (transfer_existing_items j p)

  abbrev pub load_text : Project FilePath → Option Bytes → Option (Bool × Project FilePath)
  load_text p none = some (false, p)
  load_text p (some text) = transfer (record p { raw = text }) (ops.parse text)

  unfoldable pub load_project : Project FilePath → Disk → Option (Bool × Project FilePath)
  unfolding transfer_existing_items
  load_project p disk = load_text p (text_of disk (meta_file p.root (codes "project.json")))

  -- `raw()` loads where there is no text, and saves and loads where there is still none.
  abbrev pub is_empty : Bytes → Bool
  is_empty [] = true
  is_empty (c ∷ cs) = false

  abbrev pub on_disk : Disk → Option (Bool × Project FilePath) → Option (Project FilePath × Disk)
  on_disk disk none = none
  on_disk disk (some (b, p)) = some (p, disk)

  abbrev pub load_saved : Project FilePath → Option (Bool × Disk) → Option (Project FilePath × Disk)
  load_saved p none = none
  load_saved p (some (true, disk)) = on_disk disk (load_project p disk)
  load_saved p (some (false, disk)) = some (p, disk)

  abbrev pub save_missing :
      Disk → Option (Bool × Project FilePath) → Option (Project FilePath × Disk)
  save_missing disk none = none
  save_missing disk (some (b, p)) =
      if is_empty p.raw then load_saved p (save_project p disk) else some (p, disk)

  unfoldable pub raw_project : Project FilePath → Disk → Option (Project FilePath × Disk)
  unfolding load_project save_project
  raw_project p disk =
      if is_empty p.raw then save_missing disk (load_project p disk) else some (p, disk)

  unfoldable pub save_meta : WorkspaceMeta FilePath → Disk → Option (Bool × Disk)
  unfolding save_text
  save_meta m disk =
      save_text m.meta_root (codes "workspace.json")
        (ops.dump
          (ops.object ((codes "lastActiveProject", ops.of_string m.last_active_project) ∷ [])))
        disk

  abbrev pub set_last :
      WorkspaceMeta FilePath → Option Bytes → Option (Bool × WorkspaceMeta FilePath)
  set_last m none = none
  set_last m (some last) = some (true, record m { last_active_project = last })

  abbrev pub transfer_meta :
      WorkspaceMeta FilePath → Option J → Option (Bool × WorkspaceMeta FilePath)
  transfer_meta m none = none
  transfer_meta m (some j) =
      if ops.contains j (codes "lastActiveProject")
      then set_last m (ops.get_string (ops.at j (codes "lastActiveProject")))
      else some (true, m)

  abbrev pub load_meta_text :
      WorkspaceMeta FilePath → Option Bytes → Option (Bool × WorkspaceMeta FilePath)
  load_meta_text m none = some (false, m)
  load_meta_text m (some []) = some (false, record m { meta_raw = [] })
  load_meta_text m (some (c ∷ cs)) =
      transfer_meta (record m { meta_raw = c ∷ cs }) (ops.parse (c ∷ cs))

  unfoldable pub load_meta : WorkspaceMeta FilePath → Disk → Option (Bool × WorkspaceMeta FilePath)
  load_meta m disk =
      load_meta_text m (text_of disk (meta_file m.meta_root (codes "workspace.json")))
