-- ===== src/Workspace/Escapes.antt =====
-- Workspace: a path outside that the requests accept.
use minide.Base.{ℕ, ◌≡◌, refl, true, false, Option, none, some, ◌∷◌, Bytes, bytes_eq, ℤ}
use minide.FileSystem.{FileSystem}
use minide.Jail.{Jail, make, relative_to_root}
use minide.Workspace.Verify.{accepted, verify_path, verify_stripped, strip_slash, starts_below}
use minide.Workspace.Requests.{Workspace, deletes, handle}

module _ {FilePath Disk : Type 0} (fs : FileSystem FilePath Disk) (disk : Disk)
    (root : FilePath) where
  abbrev pub parent_jail : Option (Jail FilePath)
  parent_jail = make fs disk (fs.parent_path root)

  -- Where workspace-relative paths are not enforced, a path that the jail refuses is accepted as it
  -- stands, if it exists.
  pub verify_path-escapes :
      (c : ℕ) (path : Bytes) (jail : Jail FilePath)
      → parent_jail ≡ some jail
      → let p = strip_slash (c ∷ path) in
        bytes_eq p (fs.filename root) ≡ false
        → starts_below (fs.filename root) p ≡ true
        → relative_to_root fs disk jail (fs.of_string p) false ≡ none
        → fs.exists disk (fs.of_string p) ≡ true
        → verify_path fs disk (c ∷ path) root true false
          ≡ accepted (fs.generic_string (fs.of_string p))
  unfolding verify_path verify_stripped
  verify_path-escapes c path jail home other below out there = rw (other, below, home, out, there)

module _ {FilePath Disk : Type 0} (fs : FileSystem FilePath Disk) where
  -- deleteFile, while the session is there, in an open workspace, on a path that is longer than
  -- the name of the root's directory and begins with it, that the jail of the root's parent
  -- refuses and that exists, leaves the files that a removal of the path as it stands leaves,
  -- where that does not throw.
  pub delete_file-escapes :
      (ws : Workspace FilePath) (disk : Disk) (ref : ℤ) (path : FilePath) (c : ℕ) (text : Bytes)
      (jail : Jail FilePath) (left : Disk)
      → fs.is_empty ws.root ≡ false
      → fs.generic_string path ≡ c ∷ text
      → parent_jail fs disk ws.root ≡ some jail
      → let p = strip_slash (c ∷ text) in
        bytes_eq p (fs.filename ws.root) ≡ false
        → starts_below (fs.filename ws.root) p ≡ true
        → relative_to_root fs disk jail (fs.of_string p) false ≡ none
        → fs.exists disk (fs.of_string p) ≡ true
        → fs.remove (fs.of_string (fs.generic_string (fs.of_string p))) disk ≡ some left
        → (handle fs true ws disk ref (deletes path)).disk ≡ left
  unfolding handle
  delete_file-escapes ws disk ref path c text jail left set same home other below out there gone =
      rw
        (
          set,
          same,
          verify_path-escapes fs disk ws.root c text jail home other below out there,
          gone,
        )
        refl
