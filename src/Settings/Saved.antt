-- ===== src/Settings/Saved.antt =====
-- Settings: what is saved is loaded again, and compiles to the same.
use minide.Base.{
  arith, Bool, Bool-cases, ◌&&◌, bytes_eq, ◌≡◌, refl, sym, ap, ◌∙◌, true, Option, none, some, [],
  ◌∷◌, Bytes, codes, bytes_eq, inl, inr, Option-cases,
}
use minide.Base.Dict.{find}
use minide.Json.{JsonOps, JsonLists, IsLawful}
use minide.FileSystem.{FileAccess, KeepsFiles}
use minide.Settings.{Environment, Environments, compile_environment}
use minide.Settings.Maps.{Same, Alike, SameSettings, outcome, compile_environment-outcome}
use minide.Settings.Keyed.{by_key, ascends, by_key-ascends, find-by_key, mapped, find-values_with}
use minide.Settings.Store.{
  PublicSettings, Store, settings_to_json, settings_from_json, settings_file, made_in, memo_or,
  save_in, written_as, taken, public_part, load_in, get_file_name, save, load,
}
use minide.Settings.RoundTrip.{
  ListsAreLawful, loaded_environment, loaded_settings, value_at-object, settings_from_json-to_json,
}

module _ {J : Type 0} (ops : JsonOps J) (lists : JsonLists J) (laws : IsLawful ops)
    (more : ListsAreLawful ops lists) where
  module _ {FilePath Disk : Type 0} (fa : FileAccess FilePath Disk) (home : FilePath) where
    abbrev text_for : Environments → Bytes
    text_for envs = ops.dump (ops.object ((codes "public", settings_to_json ops lists envs) ∷ []))

    -- What a file holds after it was saved to, and that it is the file that was asked for.
    abbrev Holds : Environments → Store ops lists fa home → Type 0
    Holds envs (s, disk) =
        (file : FilePath) × (s.home_memo ≡ some file)
        × (s.environments ≡ envs)
        × (fa.files.exists disk file ≡ true)
        × (fa.read_file disk file ≡ some (text_for envs))

    written_as-Holds :
        (keeps : KeepsFiles fa) (s : PublicSettings FilePath) (file : FilePath) (disk : Disk)
        (after : Store ops lists fa home)
        → s.home_memo ≡ some file
        → written_as ops lists fa home s disk (fa.write_file disk file (text_for s.environments))
          ≡ (true, after)
        → Holds s.environments after
    written_as-Holds keeps s file disk after memo e =
        elim (Option-cases (fa.write_file disk file (text_for s.environments))) [
          | inl refused ↦ cc (rw refused at e)
          | inr (written, went) ↦
              let same : (s, written) ≡ after = cc (rw went at e) in
              rw (← same) (
                file,
                memo,
                refl,
                keeps.exists-write disk written file _ went,
                keeps.read-write disk written file _ went,
              )
        ]

    save-Holds :
        (keeps : KeepsFiles fa) (s : PublicSettings FilePath) (disk : Disk)
        (after : Store ops lists fa home)
        → save ops lists fa home (s, disk) ≡ (true, after)
        → Holds s.environments after
    unfolding save get_file_name
    save-Holds keeps s disk after e = elim (Option-cases s.home_memo) [
      | inr (file, memo) ↦ written_as-Holds keeps s file disk after memo (by_memo memo)
      | inl gone ↦ made-Holds _ (by_memo gone)
    ]
      where
        by_memo :
            {m : Option FilePath}
            → s.home_memo ≡ m
            → save_in ops lists fa home (s, disk) (memo_or ops lists fa home m s disk)
              ≡ (true, after)
        by_memo memo =
            ap (λ m. save_in ops lists fa home (s, disk) (memo_or ops lists fa home m s disk))
              (sym memo)
            ∙ e

        made-Holds :
            (made : Option Disk)
            → save_in ops lists fa home (s, disk) (made_in ops lists fa home s made) ≡ (true, after)
            → Holds s.environments after
        made-Holds none h = cc h
        made-Holds (some d) h =
            let file : FilePath = settings_file ops lists fa home in
            written_as-Holds keeps (record s { home_memo = some file }) file d after refl h

    -- What was saved is loaded again, whatever the settings are in between: the environments, by key.
    pub load-save :
        KeepsFiles fa
        → (s s' : PublicSettings FilePath) (disk d : Disk) (between : Environments)
        → save ops lists fa home (s, disk) ≡ (true, (s', d))
        → load ops lists fa home (record s' { environments = between }, d)
          ≡ (true, (record s' { environments = loaded_settings s.environments }, d))
    unfolding load get_file_name find bytes_eq
    load-save keeps s s' disk d between e =
        let saved = save-Holds keeps s disk (s', d) e in
        let other : PublicSettings FilePath = record s' { environments = between } in
        let parsed =
          laws.parse-dump
            (ops.object ((codes "public", settings_to_json ops lists s.environments) ∷ [])) in
        let held =
          value_at-object ops lists laws more (settings_from_json ops lists) _ (codes "public")
            (settings_to_json ops lists s.environments) refl
          ∙ settings_from_json-to_json ops lists laws more s.environments in
        ap (λ memo. load_in ops lists fa home (other, d) (memo_or ops lists fa home memo other d))
          saved.1
        ∙ rw (saved.3, saved.4)
            (ap (taken ops lists fa home other d)
              (ap (public_part ops lists fa home) parsed ∙ held))

loaded_environment-Same :
    (env : Environment) → ascends env.inherits ≡ true → Same env (loaded_environment env)
unfolding loaded_environment
loaded_environment-Same env sorted =
    (refl, λ key. sym (find-by_key key env.variables), sym (by_key-ascends env.inherits sorted))

-- Whether the parents of each environment are by key, as a `std::map` has them.
unfoldable pub ordered : Environments → Bool
ordered [] = true
ordered ((name, env) ∷ envs) = ascends env.inherits && ordered envs

ordered-ascends :
    (envs : Environments) (name : Bytes) (env : Environment)
    → ordered envs ≡ true
    → find name envs ≡ some env
    → ascends env.inherits ≡ true
unfolding ordered find
ordered-ascends [] name env all there = cc there
ordered-ascends ((k, first) ∷ envs) name env all there = elim (Bool-cases (bytes_eq k name)) [
  | inl e ↦ let same : first ≡ env = cc (rw e at there) in rw (← same) (ground (arith, all))
  | inr e ↦ ordered-ascends envs name env (ground (arith, all)) (rw e at there)
]

loaded_settings-SameSettings :
    (envs : Environments) → ordered envs ≡ true → SameSettings envs (loaded_settings envs)
unfolding loaded_settings
loaded_settings-SameSettings envs all name =
    rw (find-values_with loaded_environment name (by_key envs), find-by_key name envs)
      (alike (find name envs) refl)
  where
    alike : (o : Option Environment) → find name envs ≡ o → Alike o (mapped loaded_environment o)
    alike none e = tt
    alike (some env) e = loaded_environment-Same env (ordered-ascends envs name env all e)

-- Where settings were saved without an exception, and the parents of each environment are by key: the
-- file is loaded without one, whatever the settings are in between, and then each name compiles to the
-- outcome that it had before the saving.
pub load-outcome :
    {J FilePath Disk : Type 0} (ops : JsonOps J) (lists : JsonLists J)
    (fa : FileAccess FilePath Disk) (home : FilePath)
    → IsLawful ops
    → ListsAreLawful ops lists
    → KeepsFiles fa
    → (s s' : PublicSettings FilePath) (disk d : Disk) (between : Environments) (name : Bytes)
    → ordered s.environments ≡ true
    → save ops lists fa home (s, disk) ≡ (true, (s', d))
    → let loaded = load ops lists fa home (record s' { environments = between }, d) in
      (loaded.0 ≡ true)
      × (outcome (compile_environment loaded.1.0.environments name)
          ≡ outcome (compile_environment s.environments name))
load-outcome ops lists fa home laws more keeps s s' disk d between name all e =
    rw (load-save ops lists laws more fa home keeps s s' disk d between e) (
      refl,
      sym (
          compile_environment-outcome s.environments (loaded_settings s.environments) name
            (loaded_settings-SameSettings s.environments all)),
    )
