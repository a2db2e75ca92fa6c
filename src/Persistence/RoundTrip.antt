-- ===== src/Persistence/RoundTrip.antt =====
-- Persistence: what is saved is loaded again.
use minide.Base.{
  ◌≡◌, refl, ap, ◌∙◌, inl, inr, Bool, true, Option, none, some, List, [], ◌∷◌, Bytes, codes,
  bytes_eq, Option-cases,
}
use minide.Json.{JsonOps, IsLawful, is_some}
use minide.Base.Dict.{find}
use minide.FileSystem.{FileAccess, KeepsFiles}
use minide.Persistence.{
  Project, new_project, save_project, load_project, save_text, meta_file, write_in, project_json,
  transfer_existing_items, transfer, load_text, text_of, set_flags, bool_or, with_result,
}

module _ {J FilePath Disk : Type 0} (ops : JsonOps J) (fa : FileAccess FilePath Disk) where
  -- A file that was written holds the text, in any case in which the writing is reported.
  write_in-text :
      (keeps : KeepsFiles fa) (file : FilePath) (content : Bytes) (made : Option Disk) (d : Disk)
      → write_in ops fa file content made ≡ some (true, d)
      → text_of ops fa d file ≡ some content
  write_in-text keeps file content none d e = cc e
  write_in-text keeps file content (some disk) d e =
      elim (Option-cases (fa.write_file disk file content)) [
        | inl refused ↦ cc (rw refused at e)
        | inr (written, went) ↦
            let same : written ≡ d = cc (rw went at e) in
            rw (← same) (
              rw
                (
                  keeps.exists-write disk written file content went,
                  keeps.read-write disk written file content went,
                )
                refl)
      ]

  save_text-text :
      (keeps : KeepsFiles fa) (root : FilePath) (name content : Bytes) (disk d : Disk)
      → save_text ops fa root name content disk ≡ some (true, d)
      → text_of ops fa d (meta_file ops fa root name) ≡ some content
  unfolding save_text
  save_text-text keeps root name content disk d e =
      write_in-text keeps (meta_file ops fa root name) content _ d e

  module _ (laws : IsLawful ops) where
    bool_or-object :
        (fields : List (Bytes × J)) (key : Bytes) (b old : Bool)
        → find key fields ≡ some (ops.of_bool b)
        → bool_or ops fa (ops.object fields) key old ≡ some b
    bool_or-object fields key b old h =
        let there : ops.contains (ops.object fields) key ≡ true =
          laws.contains-object fields key ∙ ap is_some h in
        rw (there, laws.at-object fields key (ops.of_bool b) h) (laws.get-of_bool b)

    transfer_existing_items-project :
        (p q : Project FilePath)
        → transfer_existing_items ops fa (project_json ops fa p) q
          ≡ some (record q {
            split_source_and_include = p.split_source_and_include;
            ignore_seeming_split = p.ignore_seeming_split;
          })
    unfolding transfer_existing_items find bytes_eq
    transfer_existing_items-project p q =
        let fields : List (Bytes × J) =
          (codes "splitSourceAndInclude", ops.of_bool p.split_source_and_include)
          ∷ (codes "ignoreSeemingSplit", ops.of_bool p.ignore_seeming_split)
          ∷ [] in
        λ i.
          set_flags ops fa q
            (bool_or-object fields (codes "splitSourceAndInclude") p.split_source_and_include
              q.split_source_and_include refl i)
            (bool_or-object fields (codes "ignoreSeemingSplit") p.ignore_seeming_split
              q.ignore_seeming_split refl i)

    -- When a project is saved and the writing succeeds, a new project with the same root loads
    -- both flags and the text that was written.
    pub load_project-save :
        KeepsFiles fa
        → (p : Project FilePath) (disk d : Disk) → save_project ops fa p disk ≡ some (true, d)
        → load_project ops fa (new_project p.root) d
          ≡ some (true, record p { raw = ops.dump (project_json ops fa p) })
    unfolding load_project save_project
    load_project-save keeps p disk d e =
        let text = save_text-text keeps p.root (codes "project.json") _ disk d e in
        ap (load_text ops fa (new_project p.root)) text
        ∙ ap
            (transfer ops fa
              (record (new_project p.root) { raw = ops.dump (project_json ops fa p) }))
            (laws.parse-dump (project_json ops fa p))
        ∙ ap (with_result ops fa true) (
            transfer_existing_items-project p
              (record (new_project p.root) { raw = ops.dump (project_json ops fa p) }))
