-- ===== src/Workspace/Requests.antt =====
-- Workspace: the requests, each with the session that is to be answered, which may be gone.
use minide.Base.{
  Bool, true, false, not, Option, none, some, List, [], ◌∷◌, ◌++◌, Bytes, codes, if◌then◌else◌, ℤ,
}
use minide.FileSystem.{FileSystem}
use minide.Workspace.Verify.{Verified, refused, accepted, thrown, verify_path}

pub record Workspace (FilePath : Type 0) : Type 0 where
  pub root : FilePath
  pub active_project : FilePath

-- What a request sends through the session, with its reference: an error, a directory (what is
-- scanned, whether recursively, and the origin), the file whose writer is set, or a notice.
pub data Reply (FilePath : Type 0) : Type 0 where
  error : ℤ → Bytes → Reply FilePath
  directory : ℤ → FilePath → Bool → Bytes → Reply FilePath
  file : ℤ → Bytes → Reply FilePath
  active_project : ℤ → FilePath → Reply FilePath
  deleted : ℤ → FilePath → Reply FilePath

-- A request leaves the workspace, the files, what was sent, and whether it ends by an exception.
pub record Done (FilePath Disk : Type 0) : Type 0 where
  pub workspace : Workspace FilePath
  pub disk : Disk
  pub replies : List (Reply FilePath)
  pub threw : Bool

module _ {FilePath Disk : Type 0} (fs : FileSystem FilePath Disk) where
  abbrev answer : Workspace FilePath → Disk → Reply FilePath → Done FilePath Disk
  answer ws disk reply = record { workspace = ws; disk = disk; replies = reply ∷ []; threw = false }

  abbrev silent : Workspace FilePath → Disk → Done FilePath Disk
  silent ws disk = record { workspace = ws; disk = disk; replies = []; threw = false }

  abbrev throwing : Workspace FilePath → Disk → Done FilePath Disk
  throwing ws disk = record { workspace = ws; disk = disk; replies = []; threw = true }

  unfoldable pub open_root : Bool → Workspace FilePath → Disk → ℤ → FilePath → Done FilePath Disk
  open_root alive ws disk ref root =
      if not alive
      then silent ws disk
      else if not (fs.exists disk root)
      then answer ws disk
          (error ref (codes "Directory does not exist '" ++ (fs.generic_string root ++ codes "'.")))
      else if not (fs.can_scan disk root false)
      then throwing ws disk
      else answer (record ws { root = root }) disk
          (directory ref root false (codes "/" ++ fs.filename root))

  -- What the other requests begin with; `act` goes on with the verified path.
  abbrev pub act_on :
      Workspace FilePath → Disk → ℤ → Verified → (Bytes → Done FilePath Disk) → Done FilePath Disk
  act_on ws disk ref (refused message path) act = answer ws disk (error ref message)
  act_on ws disk ref (accepted path) act = act path
  act_on ws disk ref thrown act = throwing ws disk

  unfoldable pub with_path :
      Bool
      → Workspace FilePath
      → Disk
      → ℤ
      → FilePath
      → (Bytes → Done FilePath Disk)
      → Done FilePath Disk
  with_path alive ws disk ref path act =
      if not alive
      then silent ws disk
      else if fs.is_empty ws.root
      then answer ws disk (error ref (codes "First open a workspace."))
      else act_on ws disk ref (verify_path fs disk (fs.generic_string path) ws.root true false) act

  unfoldable pub enlist :
      Bool → Workspace FilePath → Disk → ℤ → FilePath → Bool → Done FilePath Disk
  unfolding with_path
  enlist alive ws disk ref path recursive = with_path alive ws disk ref path λ verified.
      if fs.can_scan disk (fs.of_string verified) recursive
      then answer ws disk (directory ref (fs.of_string verified) recursive (fs.generic_string path))
      else throwing ws disk

  unfoldable pub load_file : Bool → Workspace FilePath → Disk → ℤ → FilePath → Done FilePath Disk
  unfolding with_path
  load_file alive ws disk ref path = with_path alive ws disk ref path λ verified. answer ws disk (
      if fs.readable disk (fs.of_string verified)
      then file ref verified
      else error ref (codes "Cannot open file for reading."))

  unfoldable pub set_active_project :
      Bool → Workspace FilePath → Disk → ℤ → FilePath → Done FilePath Disk
  unfolding with_path
  set_active_project alive ws disk ref path =
      with_path alive ws disk ref path
        λ verified. answer (record ws { active_project = path }) disk (active_project ref path)

  abbrev pub removed : Workspace FilePath → Disk → Reply FilePath → Option Disk → Done FilePath Disk
  removed ws disk reply none = throwing ws disk
  removed ws disk reply (some left) = answer ws left reply

  unfoldable pub delete_file : Bool → Workspace FilePath → Disk → ℤ → FilePath → Done FilePath Disk
  unfolding with_path
  delete_file alive ws disk ref path =
      with_path alive ws disk ref path
        λ verified. removed ws disk (deleted ref path) (fs.remove (fs.of_string verified) disk)

-- The five types that `doSubscribe` subscribes to, with what each callback reads of the message.
pub data Request (FilePath : Type 0) : Type 0 where
  opens : FilePath → Request FilePath
  enlists : FilePath → Bool → Request FilePath
  loads : FilePath → Request FilePath
  activates : FilePath → Request FilePath
  deletes : FilePath → Request FilePath

module _ {FilePath Disk : Type 0} (fs : FileSystem FilePath Disk) where
  unfoldable pub handle :
      Bool → Workspace FilePath → Disk → ℤ → Request FilePath → Done FilePath Disk
  unfolding open_root enlist load_file set_active_project delete_file
  handle alive ws disk ref (opens root) = open_root fs alive ws disk ref root
  handle alive ws disk ref (enlists path recursive) = enlist fs alive ws disk ref path recursive
  handle alive ws disk ref (loads path) = load_file fs alive ws disk ref path
  handle alive ws disk ref (activates path) = set_active_project fs alive ws disk ref path
  handle alive ws disk ref (deletes path) = delete_file fs alive ws disk ref path
