-- ===== src/Settings/RoundTrip.antt =====
-- Settings: what is made of settings and environments as JSON is read back.
use minide.Base.{◌≡◌, refl, ap, ◌∙◌, true, Option, some, List, [], ◌∷◌, Bytes, codes, bytes_eq}
use minide.Base.Dict.{find}
use minide.Json.{JsonOps, JsonLists, IsLawful, is_some}
use minide.Settings.{Environment, Environments}
use minide.Settings.Keyed.{by_key, values_with, by_key-values_with, values_with_same}
use minide.Settings.Store.{
  texts_json, environment_to_json, settings_to_json, all_entries, get_map, value_at,
  make_environment, environment_from_json, settings_from_json,
}

-- What is relied on of lists and objects: an object is run through by key, and a list of texts is read
-- as it was made.
pub record ListsAreLawful {J : Type 0} (ops : JsonOps J) (lists : JsonLists J) : Type 0 where
  pub is_object-object : (fields : List (Bytes × J)) → lists.is_object (ops.object fields) ≡ true
  pub items-object : (fields : List (Bytes × J)) → lists.items (ops.object fields) ≡ by_key fields
  pub get-of_strings : (ss : List Bytes) → lists.get_strings (ops.of_strings ss) ≡ some ss

-- An environment as it is loaded: `unordered_map`s and maps by key.
unfoldable pub loaded_environment : Environment → Environment
loaded_environment env = record env {
  variables = by_key env.variables;
  inherits = by_key env.inherits;
}

unfoldable pub loaded_settings : Environments → Environments
unfolding loaded_environment
loaded_settings envs = values_with loaded_environment (by_key envs)

module _ {J : Type 0} (ops : JsonOps J) (lists : JsonLists J) (laws : IsLawful ops)
    (more : ListsAreLawful ops lists) where
  all_entries-values_with :
      {A B : Type 0}
      → (get : J → Option B) (to : A → J) (read : A → B) → ((a : A) → get (to a) ≡ some (read a))
      → (kvs : List (Bytes × A))
      → all_entries ops lists get (values_with to kvs) ≡ some (values_with read kvs)
  unfolding all_entries values_with
  all_entries-values_with get to read back [] = refl
  all_entries-values_with get to read back ((k, a) ∷ kvs) =
      rw (back a, all_entries-values_with get to read back kvs) refl

  get_map-object :
      {A B : Type 0}
      → (get : J → Option B) (to : A → J) (read : A → B) → ((a : A) → get (to a) ≡ some (read a))
      → (kvs : List (Bytes × A))
      → get_map ops lists get (ops.object (values_with to kvs))
        ≡ some (values_with read (by_key kvs))
  unfolding get_map
  get_map-object get to read back kvs =
      rw
        (
          more.is_object-object (values_with to kvs),
          more.items-object (values_with to kvs),
          by_key-values_with to kvs,
        )
        (all_entries-values_with get to read back (by_key kvs))

  pub value_at-object :
      {A : Type 0}
      → (get : J → Option A) (fields : List (Bytes × J)) (key : Bytes) (j : J)
      → find key fields ≡ some j
      → value_at ops lists get (ops.object fields) key ≡ get j
  value_at-object get fields key j there =
      let held : ops.contains (ops.object fields) key ≡ true =
        laws.contains-object fields key ∙ ap is_some there in
      rw (held, laws.at-object fields key j there) refl

  get_map-texts :
      (kvs : List (Bytes × Bytes))
      → get_map ops lists ops.get_string (texts_json ops lists kvs) ≡ some (by_key kvs)
  get_map-texts kvs =
      get_map-object ops.get_string ops.of_string (λ s. s) laws.get-of_string kvs
      ∙ ap some (values_with_same (by_key kvs))

  environment_from_json-to_json :
      (env : Environment)
      → environment_from_json ops lists (environment_to_json ops lists env)
        ≡ some (loaded_environment env)
  unfolding environment_from_json environment_to_json loaded_environment find bytes_eq
  environment_from_json-to_json env =
      let fields : List (Bytes × J) =
        (codes "path", ops.of_strings env.path)
        ∷ (codes "variables", texts_json ops lists env.variables)
        ∷ (codes "inherits", texts_json ops lists env.inherits)
        ∷ [] in
      let path = value_at-object lists.get_strings fields (codes "path") _ refl in
      let variables =
        value_at-object (get_map ops lists ops.get_string) fields (codes "variables") _ refl in
      let inherits =
        value_at-object (get_map ops lists ops.get_string) fields (codes "inherits") _ refl in
      λ i.
        make_environment ops lists ((path ∙ more.get-of_strings env.path) i)
          ((variables ∙ get_map-texts env.variables) i) ((inherits ∙ get_map-texts env.inherits) i)

  pub settings_from_json-to_json :
      (envs : Environments)
      → settings_from_json ops lists (settings_to_json ops lists envs) ≡ some (loaded_settings envs)
  unfolding settings_from_json settings_to_json loaded_settings find bytes_eq
  settings_from_json-to_json envs =
      value_at-object (get_map ops lists (environment_from_json ops lists)) _ (codes "environments")
        _ refl
      ∙ get_map-object (environment_from_json ops lists) (environment_to_json ops lists)
          loaded_environment environment_from_json-to_json envs
