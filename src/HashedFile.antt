-- ===== src/HashedFile.antt =====
-- worker/workspace/hashed_file.cpp and its header: a file that is written beside its place, and moved
-- there when its hash is the announced one.
pub mod Laws
pub mod Tests
use minide.Base.{
  ℕ, ◌+◌, Bool, true, false, not, ◌&&◌, Option, none, some, List, [], ◌∷◌, ◌++◌, Bytes, codes,
  bytes_eq, leb, if◌then◌else◌,
}
use minide.Base.Dict.{find, put, erase}

abbrev pub Files : Type 0
Files = List (Bytes × Bytes)

-- What the file system grants, and the SHA-256 of a text in lower-case digits.
pub record FileOps : Type 0 where
  pub opens : Files → Bytes → Bool
  pub removes : Files → Bytes → Bool
  pub renames : Files → Bytes → Bytes → Bool
  pub sha256 : Bytes → Bytes

-- `writer_` is an `ofstream`: whether it has a file, and `good()`.
pub record HashedFile : Type 0 where
  pub hash : Bytes
  pub original_name : Bytes
  pub is_open : Bool
  pub is_good : Bool

-- An `ofstream` that has not been opened is good.
abbrev pub no_file : HashedFile
no_file = record { hash = []; original_name = []; is_open = false; is_good = true }

abbrev pub temp_name : Bytes → Bytes
temp_name name = name ++ codes "_minide2_temp"

abbrev to_lower : ℕ → ℕ
to_lower c = if leb b'A' c && leb c b'Z' then c + 32 else c

unfoldable pub lower : Bytes → Bytes
lower [] = []
lower (c ∷ cs) = to_lower c ∷ lower cs

abbrev pub is_there : Option Bytes → Bool
is_there none = false
is_there (some content) = true

abbrev pub exists : Bytes → Files → Bool
exists name files = is_there (find name files)

module _ (ops : FileOps) where
  unfoldable pub open_file : Bytes → Bytes → Files → HashedFile × Files
  unfolding lower
  open_file name hash files =
      if ops.opens files (temp_name name)
      then (
        record { hash = lower hash; original_name = name; is_open = true; is_good = true },
        put (temp_name name) [] files,
      )
      else (
        record { hash = lower hash; original_name = name; is_open = false; is_good = false },
        files,
      )

  -- Bytes for a file that is gone are lost.
  abbrev pub append_to : Bytes → Bytes → Files → Option Bytes → Files
  append_to name chunk files none = files
  append_to name chunk files (some old) = put name (old ++ chunk) files

  unfoldable pub write : Bytes → HashedFile → Files → HashedFile × Files
  write chunk f files =
      if f.is_open && f.is_good
      then (
        f,
        append_to (temp_name f.original_name) chunk files (find (temp_name f.original_name) files),
      )
      else (record f { is_good = false }, files)

  -- The bytes that a reader of the file gets, which are none where it is not there.
  abbrev pub content_of : Option Bytes → Bytes
  content_of none = []
  content_of (some content) = content

  abbrev pub remove_file : Bytes → Files → Files
  remove_file name files = if ops.removes files name then erase name files else files

  abbrev pub rename_from : Bytes → Bytes → Files → Option Bytes → Bool × Files
  rename_from source target files none = (false, files)
  rename_from source target files (some content) =
      if ops.renames files source target
      then (true, put target content (erase source files))
      else (false, files)

  abbrev pub rename_file : Bytes → Bytes → Files → Bool × Files
  rename_file source target files = rename_from source target files (find source files)

  abbrev pub make_room : Bytes → Files → Files
  make_room name files = if exists name files then remove_file name files else files

  unfoldable pub test_and_move : HashedFile → Files → Bool × Files
  test_and_move f files =
      if bytes_eq f.hash (ops.sha256 (content_of (find (temp_name f.original_name) files)))
      then rename_file (temp_name f.original_name) f.original_name (make_room f.original_name files)
      else (false, files)

  -- The destructor.
  unfoldable pub destroy : HashedFile → Files → Files
  destroy f files =
      if exists f.original_name files && exists (temp_name f.original_name) files
      then remove_file (temp_name f.original_name) files
      else files
