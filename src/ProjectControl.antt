-- ===== src/ProjectControl.antt =====
-- worker/scripting_engine/project_control.cpp: what a script can do with the project of its client, whose
-- session, where there is one, is a parameter. `none` is an exception. Paths are those of POSIX, where
-- `string` is `generic_string`.
pub mod Files
pub mod Opening
pub mod Tests
use minide.Base.{
  ℕ, zero, suc, Bool, true, false, not, Option, none, some, List, [], ◌∷◌, Bytes, codes, ℤ, pos,
  negsuc, bytes_eq, if◌then◌else◌,
}
use minide.Json.{JsonOps}
use minide.FileSystem.{FileAccess}
use minide.FileContent.{FileLoad, load}
use minide.HttpStreamer.{StreamChannel, data_channel}
use minide.Jail.{Jail, make}
use minide.Router.Handler.{Client}
use minide.Router.Paths.{relative_to_root}

module _ {J FilePath Disk : Type 0} (ops : JsonOps J) (fa : FileAccess FilePath Disk)
    (session : Option (Client FilePath)) where
  abbrev pub project_of : Option (Client FilePath) → Bytes
  project_of none = []
  project_of (some s) = fa.files.generic_string s.active_project

  unfoldable pub get_project_directory : Bytes
  get_project_directory = project_of session

  unfoldable pub has_active_project : Bool
  unfolding get_project_directory
  has_active_project = not (bytes_eq get_project_directory [])

  abbrev pub workspace_of : Option (Client FilePath) → Bytes
  workspace_of none = []
  workspace_of (some s) = fa.files.generic_string s.root

  unfoldable pub get_workspace_directory : Bytes
  get_workspace_directory = workspace_of session

  abbrev pub meta_of : Client FilePath → FilePath
  meta_of s = fa.files.join s.active_project (fa.files.of_string (codes ".minIDE"))

  abbrev pub meta_in : Disk → Option (Client FilePath) → Bytes
  meta_in disk none = []
  meta_in disk (some s) =
      if fa.files.exists disk (meta_of s) then fa.files.generic_string (meta_of s) else []

  unfoldable pub get_min_ide_directory : Disk → Bytes
  get_min_ide_directory disk = meta_in disk session

  abbrev pub has_meta : Disk → Option (Client FilePath) → Bool
  has_meta disk none = false
  has_meta disk (some s) = fa.files.exists disk (meta_of s)

  unfoldable pub has_min_ide_directory : Disk → Bool
  has_min_ide_directory disk = has_meta disk session

  abbrev pub made_in : Client FilePath → Option Disk → Option (Bool × Disk)
  made_in s none = none
  made_in s (some disk) = some (fa.files.exists disk (meta_of s), disk)

  abbrev pub create_for : Option (Client FilePath) → Disk → Option (Bool × Disk)
  create_for none disk = some (false, disk)
  create_for (some s) disk =
      if fa.files.exists disk s.active_project
      then made_in s (
          if fa.files.exists disk (meta_of s)
          then some disk
          else fa.create_directory disk (meta_of s))
      else some (false, disk)

  unfoldable pub create_min_ide_directory : Disk → Option (Bool × Disk)
  create_min_ide_directory disk = create_for session disk

  abbrev pub settings_file : Bytes → Bytes → FilePath
  settings_file project file_name =
      fa.files.join (fa.files.of_string project) (fa.files.of_string file_name)

  abbrev pub or_empty : Option Bytes → Bytes
  or_empty none = []
  or_empty (some text) = text

  unfoldable pub read_project_file : Bytes → Disk → Bytes
  unfolding get_min_ide_directory
  read_project_file file_name disk =
      let project = get_min_ide_directory disk in
      let file = settings_file project file_name in
      if bytes_eq project []
      then []
      else if fa.files.exists disk file
      then or_empty (fa.read_file disk file)
      else []

  -- `write_file` ends with nothing where the file cannot be opened. What `writer.write` does is not
  -- asked for: where it fails the answer is 0 too, with the files as the failed write leaves them, so
  -- `some` stands for both.
  abbrev pub written_or : Disk → Option Disk → ℤ × Disk
  written_or disk none = (negsuc 1, disk)
  written_or disk (some written) = (pos 0, written)

  abbrev pub save_json : FilePath → Option J → Disk → ℤ × Disk
  save_json file none disk = (negsuc 2, disk)
  save_json file (some j) disk = written_or disk (fa.write_file disk file (ops.dump j))

  unfoldable pub save_project_file : Bytes → Bytes → Disk → ℤ × Disk
  unfolding get_min_ide_directory
  save_project_file file_name json_string disk =
      let project = get_min_ide_directory disk in
      if bytes_eq project []
      then (negsuc 0, disk)
      else save_json (settings_file project file_name) (ops.parse json_string) disk
