-- ===== src/Samples.antt =====
-- A small JSON library and a small file system, for tests. A value is the text of itself; a field of
-- an object is the length of its key, the key, the length of its value, and the value.
use minide.Base.{
  ℕ, zero, suc, ◌≤◌, ◌≡◌, refl, sym, ap, ◌∙◌, ◌==◌, Bool, true, false, Option, none, some, List, [],
  ◌∷◌, ◌++◌, Bytes, codes, bytes_eq, bytes_eq_self, if◌then◌else◌, length, take, drop, arith,
  take_prefix, drop_prefix, length-append,
}
use minide.Base.Dict.{find, put, find-put}
use minide.Json.{JsonOps, JsonLists, IsLawful, is_some}
use minide.Settings.Keyed.{by_key}
use minide.Settings.RoundTrip.{ListsAreLawful}
use minide.FileSystem.{FileSystem, FileAccess, KeepsFiles}
use minide.HashedFile.{Files}

unfoldable pub encode : List (Bytes × Bytes) → Bytes
encode [] = []
encode ((k, v) ∷ fields) = length k ∷ (k ++ (length v ∷ (v ++ encode fields)))

-- The value with the number of its bytes in front, and what follows it.
abbrev value_and_rest : Bytes → Bytes × Bytes
value_and_rest [] = ([], [])
value_and_rest (m ∷ cs) = (take m cs, drop m cs)

unfoldable pub decode : ℕ → Bytes → List (Bytes × Bytes)
decode zero bs = []
decode (suc fuel) [] = []
decode (suc fuel) (n ∷ bs) =
    let r = value_and_rest (drop n bs) in (take n bs, r.0) ∷ decode fuel r.1

decode-encode :
    (fields : List (Bytes × Bytes)) (fuel : ℕ)
    → length fields ≤ fuel
    → decode fuel (encode fields) ≡ fields
unfolding decode encode
decode-encode [] zero h = refl
decode-encode [] (suc fuel) h = refl
decode-encode ((k, v) ∷ fields) zero h = absurd (omega arith)
decode-encode ((k, v) ∷ fields) (suc fuel) h =
    rw
      (
        take_prefix k (length v ∷ (v ++ encode fields)) (length k) refl,
        drop_prefix k (length v ∷ (v ++ encode fields)) (length k) refl,
        take_prefix v (encode fields) (length v) refl,
        drop_prefix v (encode fields) (length v) refl,
        decode-encode fields fuel (omega arith),
      )
      refl

length-encode : (fields : List (Bytes × Bytes)) → length fields ≤ length (encode fields)
unfolding encode
length-encode [] = omega arith
length-encode ((k, v) ∷ fields) = omega (
  arith,
  length-encode fields,
  length-append k (length v ∷ (v ++ encode fields)),
  length-append v (encode fields),
)

unfoldable pub fields_of : Bytes → List (Bytes × Bytes)
unfolding decode
fields_of j = decode (length j) j

abbrev pub or_nothing : Option Bytes → Bytes
or_nothing none = []
or_nothing (some v) = v

abbrev bool_of : Bytes → Option Bool
bool_of [] = none
bool_of (n ∷ ns) = some (n == 1)

-- A list of texts is an object with empty keys.
abbrev keyless : List Bytes → List (Bytes × Bytes)
keyless [] = []
keyless (s ∷ ss) = ([], s) ∷ keyless ss

abbrev without_keys : List (Bytes × Bytes) → List Bytes
without_keys [] = []
without_keys ((k, v) ∷ fields) = v ∷ without_keys fields

abbrev pub sample_json : JsonOps Bytes
sample_json = record {
  parse = some;
  dump = λ j. j;
  contains = λ j key. is_some (find key (fields_of j));
  at = λ j key. or_nothing (find key (fields_of j));
  get_int = λ j. none;
  get_string = some;
  get_bool = bool_of;
  of_int = λ n. [];
  of_string = λ s. s;
  of_strings = λ ss. encode (keyless ss);
  of_bool = λ b. (if b then 1 else 0) ∷ [];
  object = encode;
}

fields_of-encode : (fields : List (Bytes × Bytes)) → fields_of (encode fields) ≡ fields
unfolding fields_of
fields_of-encode fields = decode-encode fields (length (encode fields)) (length-encode fields)

pub sample_json-IsLawful : IsLawful sample_json
sample_json-IsLawful = record {
  contains-object = λ fields key. ap (λ fs. is_some (find key fs)) (fields_of-encode fields);
  at-object = λ fields key j h.
      ap (λ fs. or_nothing (find key fs)) (fields_of-encode fields) ∙ ap or_nothing h;
  parse-dump = λ j. refl;
  get-of_bool = bool_back;
  get-of_string = λ s. refl;
}
  where
    bool_back : (b : Bool) → bool_of ((if b then 1 else 0) ∷ []) ≡ some b
    bool_back true = refl
    bool_back false = refl

abbrev pub sample_lists : JsonLists Bytes
sample_lists = record {
  is_array = λ j. true;
  is_object = λ j. true;
  get_strings = λ j. some (without_keys (fields_of j));
  items = λ j. by_key (fields_of j);
}

pub sample_lists-ListsAreLawful : ListsAreLawful sample_json sample_lists
sample_lists-ListsAreLawful = record {
  is_object-object = λ fields. refl;
  items-object = λ fields. ap by_key (fields_of-encode fields);
  get-of_strings = λ ss.
      ap (λ fields. some (without_keys fields)) (fields_of-encode (keyless ss)) ∙ ap some (same ss);
}
  where
    same : (ss : List Bytes) → without_keys (keyless ss) ≡ ss
    same [] = refl
    same (s ∷ ss) = ap (λ rest. s ∷ rest) (same ss)

-- Paths are their texts, and no path climbs.
abbrev pub sample_files : FileSystem Bytes Files
sample_files = record {
  of_string = λ s. s;
  generic_string = λ p. p;
  is_empty = λ p. bytes_eq p [];
  filename = λ p. codes "ws";
  parent_path = λ p. codes "/home";
  join = λ a b. a ++ (b'/' ∷ b);
  parts = λ p. p ∷ [];
  canonical = λ d p. some p;
  relative = λ d p base. some p;
  exists = λ d p. is_some (find p d);
  readable = λ d p. is_some (find p d);
  remove = λ p d. some d;
  can_scan = λ d p recursive. true;
}

abbrev pub sample_access : FileAccess Bytes Files
sample_access = record {
  files = sample_files;
  proximate = λ d p base. some p;
  stem = λ p. p;
  extension = λ p. codes ".cpp";
  is_regular_file = λ d p. is_some (find p d);
  is_directory = λ d p. bytes_eq p (codes "/home/ws");
  read_file = λ d p. find p d;
  write_file = λ d p content. some (put p content d);
  create_directory = λ d p. some d;
}

pub sample_access-KeepsFiles : KeepsFiles sample_access
sample_access-KeepsFiles = record {
  exists-write = λ disk written file content e.
      ap (λ d. is_some (find file d)) (sym (some-injective e))
      ∙ ap is_some (found disk file content);
  read-write = λ disk written file content e.
      ap (find file) (sym (some-injective e)) ∙ found disk file content;
}
  where
    some-injective : {a b : Files} → some a ≡ some b → a ≡ b
    some-injective e = cc e

    found : (disk : Files) (file content : Bytes) → find file (put file content disk) ≡ some content
    found disk file content = find-put file file content disk ∙ rw (bytes_eq_self file) refl
