-- ===== src/ProjectControl/Files.antt =====
-- ProjectControl: what a script saves for its project, it reads again.
use minide.Base.{
  ℕ, ◌≡◌, refl, ap, Bool, true, false, Option, none, some, [], Bytes, ℤ, pos, negsuc, bytes_eq, inl,
  inr, Bool-cases, Option-cases,
}
use minide.Json.{JsonOps}
use minide.FileSystem.{FileAccess, KeepsFiles}
use minide.Router.Handler.{Client}
use minide.ProjectControl.{
  get_min_ide_directory, has_min_ide_directory, create_min_ide_directory, create_for, made_in,
  has_meta, meta_in, meta_of, settings_file, read_project_file, save_project_file,
}

module _ {J FilePath Disk : Type 0} (ops : JsonOps J) (fa : FileAccess FilePath Disk)
    (session : Option (Client FilePath)) where
  -- A directory that was made is there, and is the one that is given.
  create_min_ide_directory-has :
      (disk d : Disk)
      → create_min_ide_directory ops fa session disk ≡ some (true, d)
      → (s : Client FilePath) × (session ≡ some s)
        × (has_min_ide_directory ops fa session d ≡ true)
        × (get_min_ide_directory ops fa session d
            ≡ fa.files.generic_string (meta_of ops fa session s))
  unfolding create_min_ide_directory has_min_ide_directory get_min_ide_directory
  create_min_ide_directory-has disk d e = of_session session e
    where
      Given : Option (Client FilePath) → Type 0
      Given o =
          (s : Client FilePath) × (o ≡ some s)
          × (has_meta ops fa session d o ≡ true)
          × (meta_in ops fa session d o ≡ fa.files.generic_string (meta_of ops fa session s))

      of_made :
          (s : Client FilePath) (made : Option Disk)
          → made_in ops fa session s made ≡ some (true, d)
          → Given (some s)
      of_made s none h = cc h
      of_made s (some made) h =
          let same : made ≡ d = cc h in
          let there : fa.files.exists made (meta_of ops fa session s) ≡ true = cc h in
          rw (← same) (s, refl, there, rw there refl)

      of_session :
          (o : Option (Client FilePath))
          → create_for ops fa session o disk ≡ some (true, d)
          → Given o
      of_session none h = cc h
      of_session (some s) h = elim (Bool-cases (fa.files.exists disk s.active_project)) [
        | inl there ↦ of_made s _ (rw there at h)
        | inr gone ↦ cc (rw gone at h)
      ]

  -- A text that a script has saved for its project, with the result 0, is JSON, and is read again
  -- as it is printed, if the directory for it has stayed where it was.
  pub read_project_file-save :
      KeepsFiles fa
      → (file_name text : Bytes) (disk d : Disk)
      → save_project_file ops fa session file_name text disk ≡ (pos 0, d)
      → get_min_ide_directory ops fa session d ≡ get_min_ide_directory ops fa session disk
      → (j : J) × (ops.parse text ≡ some j)
        × (read_project_file ops fa session file_name d ≡ ops.dump j)
  unfolding save_project_file read_project_file
  read_project_file-save keeps file_name text disk d e stays =
      elim (Bool-cases (bytes_eq (get_min_ide_directory ops fa session disk) [])) [
        | inl away ↦ absurd (wrong 0 disk d (rw away at e))
        | inr there ↦ elim (Option-cases (ops.parse text)) [
          | inl broken ↦ absurd (wrong 2 disk d (rw (there, broken) at e))
          | inr (j, parsed) ↦
              let file =
                settings_file ops fa session (get_min_ide_directory ops fa session disk)
                  file_name in
              elim (Option-cases (fa.write_file disk file (ops.dump j))) [
                | inl refused ↦ absurd (wrong 1 disk d (rw (there, parsed, refused) at e))
                | inr (written, went) ↦
                    let same : written ≡ d = ap (λ r. r.1) (rw (there, parsed, went) at e) in
                    (
                      j,
                      parsed,
                      rw
                          (
                            stays,
                            there,
                            ← same,
                            keeps.exists-write disk written file (ops.dump j) went,
                            keeps.read-write disk written file (ops.dump j) went,
                          )
                          refl,
                    )
              ]
        ]
      ]
    where
      is_zero : ℤ → Bool
      is_zero (pos n) = true
      is_zero (negsuc n) = false

      wrong : (n : ℕ) (a b : Disk) → ◌≡◌ {A = ℤ × Disk} (negsuc n, a) (pos 0, b) → ⊥
      wrong n a b e = let f : false ≡ true = ap (λ r. is_zero r.0) e in cc f
