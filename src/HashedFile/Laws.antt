-- ===== src/HashedFile/Laws.antt =====
-- HashedFile: what is in the files after a transfer.
use minide.Base.{
  ◌≡◌, refl, ap, ◌∙◌, inl, inr, true, false, none, some, ◌++◌, Bytes, codes, bytes_eq, bytes_eq_iff,
  bytes_eq_self, if◌then◌else◌, arith, Bool-cases, length, length-append,
}
use minide.Base.Dict.{find, put, erase, find-put, find-erase, put_twice}
use minide.HashedFile.{
  Files, FileOps, HashedFile, temp_name, is_there, append_to, write, remove_file, rename_from,
  rename_file, make_room, test_and_move, destroy,
}

pub temp_name-ne : (name : Bytes) → bytes_eq (temp_name name) name ≡ false
temp_name-ne name = elim (Bool-cases (bytes_eq (temp_name name) name)) [
  | inl same ↦ absurd (
      omega (
        arith,
        ap length ((bytes_eq_iff (temp_name name) name).0 same),
        length-append name (codes "_minide2_temp"),
      ))
  | inr other ↦ other
]

pub name-ne : (name : Bytes) → bytes_eq name (temp_name name) ≡ false
name-ne name = ground (
  arith,
  temp_name-ne name,
  bytes_eq_iff name (temp_name name),
  bytes_eq_iff (temp_name name) name,
)

-- The object while it has a good file.
abbrev pub writing : Bytes → Bytes → HashedFile
writing name hash = record { hash = hash; original_name = name; is_open = true; is_good = true }

-- The files with a temporary file of the given content.
abbrev pub with_temp : Bytes → Bytes → Files → Files
with_temp name content before = put (temp_name name) content before

find-with_temp :
    (name content : Bytes) (before : Files)
    → find (temp_name name) (with_temp name content before) ≡ some content
find-with_temp name content before =
    find-put (temp_name name) (temp_name name) content before
    ∙ rw (bytes_eq_self (temp_name name)) refl

module _ (ops : FileOps) (name hash : Bytes) where
  pub write-writing :
      (content chunk : Bytes) (before : Files)
      → write ops chunk (writing name hash) (with_temp name content before)
        ≡ (writing name hash, with_temp name (content ++ chunk) before)
  unfolding write
  write-writing content chunk before =
      ap
        (λ found. (
          writing name hash,
          append_to ops (temp_name name) chunk (with_temp name content before) found,
        ))
        (find-with_temp name content before)
      ∙ ap (λ files. (writing name hash, files))
          (put_twice (temp_name name) content (content ++ chunk) before)

  -- A text with another hash stays where it is.
  pub test_and_move-rejects :
      (content : Bytes) (before : Files)
      → bytes_eq hash (ops.sha256 content) ≡ false
      → test_and_move ops (writing name hash) (with_temp name content before)
        ≡ (false, with_temp name content before)
  unfolding test_and_move
  test_and_move-rejects content before differs =
      rw (find-with_temp name content before, differs) refl

  -- The file has the content, the temporary one is gone, and all others are as they were.
  abbrev pub IsMoved : Bytes → Files → Files → Type 0
  IsMoved content before files =
      (k : Bytes)
      → find k files ≡ (
          if bytes_eq name k
          then some content
          else if bytes_eq (temp_name name) k
          then none
          else find k before)

  find-make_room :
      (k : Bytes) (files : Files)
      → bytes_eq name k ≡ false
      → find k (make_room ops name files) ≡ find k files
  find-make_room k files h = ground (arith, find-erase k name files)

  moved :
      (content : Bytes) (before files : Files)
      → ((k : Bytes)
          → bytes_eq name k ≡ false
          → find k files ≡ find k (with_temp name content before))
      → IsMoved content before (put name content (erase (temp_name name) files))
  moved content before files h k = elim (Bool-cases (bytes_eq name k)) [
    | inl same ↦ find-put k name content (erase (temp_name name) files) ∙ rw same refl
    | inr other ↦
        find-put k name content (erase (temp_name name) files)
        ∙ rw other (
            find-erase k (temp_name name) files
            ∙ ground (arith, h k other, find-put k (temp_name name) content before))
  ]

  rename_file-moves :
      (content : Bytes) (files : Files)
      → ops.renames files (temp_name name) name ≡ true
      → find (temp_name name) files ≡ some content
      → rename_file ops (temp_name name) name files
        ≡ (true, put name content (erase (temp_name name) files))
  rename_file-moves content files granted there =
      ap (rename_from ops (temp_name name) name files) there ∙ rw granted refl

  -- A text with the announced hash takes the place of the file.
  pub test_and_move-accepts :
      (content : Bytes) (before : Files)
      → bytes_eq hash (ops.sha256 content) ≡ true
      → ((files : Files) → ops.renames files (temp_name name) name ≡ true)
      → let r = test_and_move ops (writing name hash) (with_temp name content before) in
        (r.0 ≡ true) × IsMoved content before r.1
  unfolding test_and_move
  test_and_move-accepts content before matches granted =
      let room = make_room ops name (with_temp name content before) in
      let there : find (temp_name name) room ≡ some content =
        find-make_room (temp_name name) _ (name-ne name) ∙ find-with_temp name content before in
      rw
        (
          find-with_temp name content before,
          matches,
          rename_file-moves content room (granted room) there,
        )
        (
          refl,
          moved content before room (λ k h. find-make_room k (with_temp name content before) h),
        )

  -- The old file is removed before the new one is moved: where that is refused, both are not there
  -- under the name.
  pub test_and_move-loses :
      (content old : Bytes) (before : Files)
      → bytes_eq hash (ops.sha256 content) ≡ true
      → find name before ≡ some old
      → ((files : Files) → ops.removes files name ≡ true)
      → ((files : Files) → ops.renames files (temp_name name) name ≡ false)
      → let r = test_and_move ops (writing name hash) (with_temp name content before) in
        (r.0 ≡ false) × (find name r.1 ≡ none)
  unfolding test_and_move
  test_and_move-loses content old before matches there removes renames =
      let files = with_temp name content before in
      let still : find name files ≡ some old =
        find-put name (temp_name name) content before ∙ rw (temp_name-ne name) there in
      let room : make_room ops name files ≡ erase name files =
        ap (λ b. if b then remove_file ops name files else files) (ap is_there still)
        ∙ rw (removes files) refl in
      rw
        (
          find-with_temp name content before,
          matches,
          room,
          find-erase (temp_name name) name files,
          name-ne name,
          find-with_temp name content before,
          renames (erase name files),
        )
        (refl, find-erase name name files ∙ rw (bytes_eq_self name) refl)

  -- The end of the object leaves all but the temporary file.
  pub find-destroy :
      (f : HashedFile) (k : Bytes) (files : Files)
      → bytes_eq (temp_name f.original_name) k ≡ false
      → find k (destroy ops f files) ≡ find k files
  unfolding destroy
  find-destroy f k files h = ground (arith, find-erase k (temp_name f.original_name) files)
