-- ===== src/Json.antt =====
-- What the code uses of nlohmann::json, which is not part of the repository: a value of this record
-- stands for the library. An access that throws is `none`.
use minide.Base.{◌≡◌, Bool, true, false, Option, none, some, List, Bytes, ℤ}
use minide.Base.Dict.{find}

pub record JsonOps (J : Type 0) : Type 0 where
  pub parse : Bytes → Option J
  pub dump : J → Bytes
  pub contains : J → Bytes → Bool
  -- The value at a key that is there.
  pub at : J → Bytes → J
  pub get_int : J → Option ℤ
  pub get_string : J → Option Bytes
  pub get_bool : J → Option Bool
  pub of_int : ℤ → J
  pub of_string : Bytes → J
  pub of_strings : List Bytes → J
  pub of_bool : Bool → J
  pub object : List (Bytes × J) → J

-- `is_array`, `is_object`, a list of texts, and what a run through `items()` gives.
pub record JsonLists (J : Type 0) : Type 0 where
  pub is_array : J → Bool
  pub is_object : J → Bool
  pub get_strings : J → Option (List Bytes)
  pub items : J → List (Bytes × J)

abbrev pub is_some {ℓ} : {A : Type ℓ} → Option A → Bool
is_some none = false
is_some (some a) = true

-- What is relied on of it: an object holds its fields, and a value is read as it was made.
pub record IsLawful {J : Type 0} (ops : JsonOps J) : Type 0 where
  pub contains-object :
      (fields : List (Bytes × J)) (key : Bytes)
      → ops.contains (ops.object fields) key ≡ is_some (find key fields)
  pub at-object :
      (fields : List (Bytes × J)) (key : Bytes) (j : J)
      → find key fields ≡ some j
      → ops.at (ops.object fields) key ≡ j
  pub parse-dump : (j : J) → ops.parse (ops.dump j) ≡ some j
  pub get-of_bool : (b : Bool) → ops.get_bool (ops.of_bool b) ≡ some b
  pub get-of_string : (s : Bytes) → ops.get_string (ops.of_string s) ≡ some s
