-- ===== src/FileSystem.antt =====
-- What the code uses of std::filesystem and of the files themselves. A value of this record stands
-- for them; `Disk` is the state of the files. `relative` gives `none` for an error code. That
-- `exists` can throw too, when the status of a file cannot be read, is left out.
use minide.Base.{◌≡◌, Bool, true, Option, some, List, Bytes}

pub record FileSystem (FilePath Disk : Type 0) : Type 0 where
  pub of_string : Bytes → FilePath
  pub generic_string : FilePath → Bytes
  pub is_empty : FilePath → Bool
  pub filename : FilePath → Bytes
  pub parent_path : FilePath → FilePath
  -- `operator/`.
  pub join : FilePath → FilePath → FilePath
  -- The elements that an iteration over the path gives.
  pub parts : FilePath → List Bytes
  -- `none` is an exception, here and in `remove`.
  pub canonical : Disk → FilePath → Option FilePath
  pub relative : Disk → FilePath → FilePath → Option FilePath
  pub exists : Disk → FilePath → Bool
  -- Whether an `ifstream` for the file is good.
  pub readable : Disk → FilePath → Bool
  pub remove : FilePath → Disk → Option Disk
  -- Whether a `directory_iterator`, or a recursive one, runs through the path without an exception.
  pub can_scan : Disk → FilePath → Bool → Bool

-- What worker/ uses besides. `none` is a file that cannot be opened, an error code or, where a comment
-- says so, an exception.
pub record FileAccess (FilePath Disk : Type 0) : Type 0 where
  pub files : FileSystem FilePath Disk
  pub proximate : Disk → FilePath → FilePath → Option FilePath
  pub stem : FilePath → Bytes
  pub extension : FilePath → Bytes
  pub is_regular_file : Disk → FilePath → Bool
  pub is_directory : Disk → FilePath → Bool
  -- All bytes of a file that an `ifstream` opens.
  pub read_file : Disk → FilePath → Option Bytes
  -- An `ofstream` that empties the file, and one write of all bytes.
  pub write_file : Disk → FilePath → Bytes → Option Disk
  -- `none` is an exception.
  pub create_directory : Disk → FilePath → Option Disk

-- What is relied on of a file that was written: it is there, and is read as it was written.
pub record KeepsFiles {FilePath Disk : Type 0} (fa : FileAccess FilePath Disk) : Type 0 where
  pub exists-write :
      (disk written : Disk) (file : FilePath) (content : Bytes)
      → fa.write_file disk file content ≡ some written
      → fa.files.exists written file ≡ true
  pub read-write :
      (disk written : Disk) (file : FilePath) (content : Bytes)
      → fa.write_file disk file content ≡ some written
      → fa.read_file written file ≡ some content
