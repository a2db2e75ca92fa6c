-- ===== src/Settings/Tests.antt =====
-- worker/public_settings.cpp: environments that inherit.
use minide.Base.{
  ap, Bool, true, false, none, inl, inr, Bool-cases, bytes_eq_iff, ◌≡◌, refl, List, [], ◌∷◌, Bytes,
  codes, bytes_eq,
}
use minide.Base.Dict.{find, put}
use minide.Settings.{
  Environment, Environments, compiled, compile_environment, folded, merge_path, inherit_all,
  compile, merge, merged_path, put_all, insert_all, all_paths, set_insert_all, set_insert,
  range_iless, upper_char, lexicographic,
}
use minide.Settings.Paths.{has, Ascending}
use minide.Settings.Inherit.{parents_of, first_with, one_has}
use minide.Settings.Compile.{
  any_path, variable_of, compile_environment-first_with, compile_environment-Ascending,
}
use minide.Settings.Maps.{SameMap, SameSettings, outcome}
use minide.Settings.Keyed.{ascends}
use minide.Settings.Store.{PublicSettings, save, load, get_file_name}
use minide.Settings.Saved.{ordered, load-outcome}
use minide.HashedFile.{Files}
use minide.Samples.{
  sample_json, sample_json-IsLawful, sample_lists, sample_lists-ListsAreLawful, sample_access,
  sample_access-KeepsFiles,
}

abbrev user : Environment
user = record {
  path = codes "/opt/Tools" ∷ codes "/bin" ∷ [];
  variables = (codes "LANG", codes "C") ∷ [];
  inherits = (codes "0", codes "base") ∷ [];
}

abbrev base : Environment
base = record {
  path = codes "/opt/tools" ∷ [];
  variables = (codes "LANG", codes "de") ∷ (codes "CC", codes "gcc") ∷ [];
  inherits = [];
}

abbrev environments : Environments
environments =
    (codes "user", user)
    ∷ (codes "base", base)
    ∷ (
      codes "lost",
      record { path = []; variables = []; inherits = (codes "0", codes "nobody") ∷ [] },
    )
    ∷ []

compiles_user :
    compile_environment environments (codes "user")
    ≡ compiled (
        (codes "PATH", codes "/bin:/opt/tools")
        ∷ (codes "LANG", codes "C")
        ∷ (codes "CC", codes "gcc")
        ∷ [])
unfolding compile_environment inherit_all compile merge merged_path put_all insert_all merge_path
    all_paths set_insert_all set_insert range_iless folded upper_char lexicographic find put
    bytes_eq
compiles_user = refl

compile_environment-first_with_example :
    variable_of (codes "LANG") (compile_environment environments (codes "user"))
    ≡ first_with (codes "LANG") (user ∷ (base ∷ []))
compile_environment-first_with_example =
    compile_environment-first_with environments (codes "user") user (base ∷ []) (codes "LANG")
      (unfold find bytes_eq in refl) (unfold parents_of find bytes_eq in refl)
      (unfold any_path in refl) (unfold bytes_eq in refl)

compile_environment-Ascending_example :
    (path : List Bytes) × (variable_of
        (codes "PATH")
        (compile_environment environments (codes "user"))
      ≡ merge_path b':' path)
    × Ascending folded path
    × ((p : Bytes) → has folded (folded p) path ≡ one_has p (user ∷ (base ∷ [])))
compile_environment-Ascending_example =
    compile_environment-Ascending environments (codes "user") user base []
      (unfold find bytes_eq in refl) (unfold parents_of find bytes_eq in refl)

-- The settings, and the settings with another map of variables: the same map in another order.
abbrev base_reordered : Environment
base_reordered = record base {
  variables = (codes "CC", codes "gcc") ∷ (codes "LANG", codes "de") ∷ [];
}

reordered-SameMap : SameMap base.variables base_reordered.variables
unfolding find
reordered-SameMap key = elim (Bool-cases (bytes_eq (codes "LANG") key)) [
  | inl e ↦ rw e (rw (other key e) refl)
  | inr e ↦ rw e refl
]
  where
    other : (key : Bytes) → bytes_eq (codes "LANG") key ≡ true → bytes_eq (codes "CC") key ≡ false
    other key e = rw (← ((bytes_eq_iff (codes "LANG") key).0 e)) (unfold bytes_eq in refl)

reordered-SameSettings :
    SameSettings ((codes "base", base) ∷ []) ((codes "base", base_reordered) ∷ [])
unfolding find
reordered-SameSettings name = elim (Bool-cases (bytes_eq (codes "base") name)) [
  | inl e ↦ rw e (refl, reordered-SameMap, refl)
  | inr e ↦ rw e tt
]

abbrev settings : PublicSettings Bytes
settings = record { environments = environments; home_memo = none }

abbrev saved : Bool × (PublicSettings Bytes × Files)
saved = save sample_json sample_lists sample_access (codes "/home") (settings, [])

saved_true : saved.0 ≡ true
unfolding save get_file_name find
saved_true = refl

load-outcome_example :
    let loaded =
      load sample_json sample_lists sample_access
        (codes "/home")
        (record saved.1.0 { environments = [] }, saved.1.1) in
    (loaded.0 ≡ true)
    × (outcome (compile_environment loaded.1.0.environments (codes "user"))
        ≡ outcome (compile_environment environments (codes "user")))
load-outcome_example =
    load-outcome sample_json sample_lists sample_access (codes "/home") sample_json-IsLawful
      sample_lists-ListsAreLawful sample_access-KeepsFiles settings saved.1.0 [] saved.1.1 []
      (codes "user") (unfold ordered ascends in refl) (ap (λ b. (b, saved.1)) saved_true)
