-- ===== src/Workspace/Verify.antt =====
-- Workspace::verifyPath.
use minide.Base.{
  Bool, false, not, ◌&&◌, Option, none, some, [], ◌∷◌, Bytes, codes, bytes_eq, if◌then◌else◌,
  length, take, ltb, ◌==◌,
}
use minide.FileSystem.{FileSystem}
use minide.Jail.{Jail, make, relative_to_root}

-- The error text, with the path that is reported; the path to work on; or an exception.
pub data Verified : Type 0 where
  refused : Bytes → Bytes → Verified
  accepted : Bytes → Verified
  thrown : Verified

-- `if (path[0] == '/') path = path.substr(1, path.size() - 1);`
unfoldable pub strip_slash : Bytes → Bytes
strip_slash [] = []
strip_slash (c ∷ path) = if c == b'/' then path else c ∷ path

-- `path.length() > rootFilename.length()` and the comparison of the front.
unfoldable pub starts_below : Bytes → Bytes → Bool
starts_below name path = ltb (length name) (length path) && bytes_eq (take (length name) path) name

module _ {FilePath Disk : Type 0} (fs : FileSystem FilePath Disk) (disk : Disk) where
  abbrev pub existing : Bytes → Bool → FilePath → Verified
  existing path must_exist result =
      if must_exist && not (fs.exists disk result)
      then refused (codes "Path does not exist.") path
      else accepted (fs.generic_string result)

  -- What becomes of a path whose front is the root's name, after the jail has seen it. The refusal
  -- of a path outside throws: `json::object` takes a list of pairs, and gets a text and a Boolean.
  abbrev pub from_jail : Bytes → FilePath → Bool → Bool → Option FilePath → Verified
  from_jail path root must_exist enforce (some relative) =
      existing path must_exist (fs.join (fs.parent_path root) relative)
  from_jail path root must_exist enforce none =
      if enforce then thrown else existing path must_exist (fs.of_string path)

  abbrev pub in_parent : Bytes → FilePath → Bool → Bool → Option (Jail FilePath) → Verified
  in_parent path root must_exist enforce none = thrown
  in_parent path root must_exist enforce (some jail) =
      from_jail path root must_exist enforce
        (relative_to_root fs disk jail (fs.of_string path) false)

  unfoldable pub verify_stripped : Bytes → FilePath → Bool → Bool → Verified
  verify_stripped path root must_exist enforce =
      if bytes_eq path (fs.filename root)
      then existing path must_exist root
      else if starts_below (fs.filename root) path
      then in_parent path root must_exist enforce (make fs disk (fs.parent_path root))
      else if enforce
      then thrown
      else existing path must_exist (fs.of_string [])

  unfoldable pub verify_path : Bytes → FilePath → Bool → Bool → Verified
  unfolding verify_stripped strip_slash starts_below
  verify_path [] root must_exist enforce = refused (codes "Path cannot be empty.") []
  verify_path (c ∷ path) root must_exist enforce =
      verify_stripped (strip_slash (c ∷ path)) root must_exist enforce
