-- ===== src/Settings.antt =====
-- worker/settings/environment.cpp and the part of worker/public_settings.cpp that compiles an
-- environment, as it is built for Linux. `variables` and the maps of names are association lists; the
-- order in which an `unordered_map` is run through is not specified, and is taken as that of the list
-- (Maps).
-- `inherits`, a `std::map`, is the list of its entries by key.
pub mod Order
pub mod Paths
pub mod Variables
pub mod Inherit
pub mod Compile
pub mod Maps
pub mod Keyed
pub mod Store
pub mod RoundTrip
pub mod Saved
pub mod Tests
use minide.Base.{
  ℕ, ◌+◌, ◌-◌, ◌%◌, Bool, true, false, ◌&&◌, Option, none, some, List, [], ◌∷◌, ◌++◌, map, Bytes,
  codes, bytes_eq, ltb, leb, if◌then◌else◌,
}
use minide.Base.Dict.{find, put}

pub record Environment : Type 0 where
  pub path : List Bytes
  pub variables : List (Bytes × Bytes)
  pub inherits : List (Bytes × Bytes)

abbrev pub Environments : Type 0
Environments = List (Bytes × Environment)

-- The comparison of texts element by element, by `<` of numbers.
unfoldable pub lexicographic : Bytes → Bytes → Bool
lexicographic xs [] = false
lexicographic [] (y ∷ ys) = true
lexicographic (x ∷ xs) (y ∷ ys) =
    let rest = lexicographic xs ys in if ltb x y then true else if ltb y x then false else rest

-- `std::toupper` of the classic locale, as a signed `char` is ordered.
unfoldable pub upper_char : ℕ → ℕ
upper_char c = ((if leb b'a' c && leb c b'z' then c - 32 else c) + 128) % 256

-- What `range_iless` compares.
unfoldable pub folded : Bytes → Bytes
folded text = map upper_char text

unfoldable pub range_iless : Bytes → Bytes → Bool
range_iless a b = lexicographic (folded a) (folded b)

-- `insert` of a `std::set` in its order: nothing where an equivalent element is there.
unfoldable pub set_insert : (Bytes → Bytes → Bool) → Bytes → List Bytes → List Bytes
set_insert less x [] = x ∷ []
set_insert less x (y ∷ ys) =
    let rest = set_insert less x ys in
    if less x y then x ∷ (y ∷ ys) else if less y x then y ∷ rest else y ∷ ys

unfoldable pub set_insert_all : (Bytes → Bytes → Bool) → List Bytes → List Bytes → List Bytes
set_insert_all less [] set = set
set_insert_all less (x ∷ xs) set = set_insert_all less xs (set_insert less x set)

-- The `mergePath` of `merge`: both paths, in a set.
unfoldable pub merged_path : Bool → List Bytes → List Bytes → List Bytes
merged_path paths_are_case_insensitive l r =
    let less = if paths_are_case_insensitive then range_iless else lexicographic in
    set_insert_all less r (set_insert_all less l [])

-- `merged.variables[key] = value` for all.
unfoldable pub put_all : List (Bytes × Bytes) → List (Bytes × Bytes) → List (Bytes × Bytes)
put_all [] kvs = kvs
put_all ((k, v) ∷ other) kvs = put k v (put_all other kvs)

unfoldable pub merge : Environment → Environment → Bool → Environment
merge env other paths_are_case_insensitive = record {
  path = merged_path paths_are_case_insensitive env.path other.path;
  variables = put_all other.variables env.variables;
  inherits = [];
}

abbrev all_but_last : ℕ → Bytes → Bytes
all_but_last c [] = []
all_but_last c (d ∷ ds) = c ∷ all_but_last d ds

-- `pop_back`, whose behaviour is undefined for an empty text.
abbrev pub pop_back : Bytes → Option Bytes
pop_back [] = none
pop_back (c ∷ cs) = some (all_but_last c cs)

unfoldable pub all_paths : ℕ → List Bytes → Bytes
all_paths path_split [] = []
all_paths path_split (elem ∷ elems) = elem ++ (path_split ∷ all_paths path_split elems)

unfoldable pub merge_path : ℕ → List Bytes → Option Bytes
merge_path path_split path = pop_back (all_paths path_split path)

-- `insert` of an `unordered_map` for all: nothing for a key that is there.
abbrev pub insert_with : Bytes → Bytes → List (Bytes × Bytes) → Option Bytes → List (Bytes × Bytes)
insert_with k v kvs none = put k v kvs
insert_with k v kvs (some old) = kvs

unfoldable pub insert_all : List (Bytes × Bytes) → List (Bytes × Bytes) → List (Bytes × Bytes)
insert_all [] env = env
insert_all ((k, v) ∷ kvs) env = insert_all kvs (insert_with k v env (find k env))

abbrev pub with_path : List (Bytes × Bytes) → Option Bytes → Option (List (Bytes × Bytes))
with_path variables none = none
with_path variables (some path) = some (insert_all variables ((codes "PATH", path) ∷ []))

unfoldable pub compile : ℕ → Environment → Option (List (Bytes × Bytes))
compile path_split env = with_path env.variables (merge_path path_split env.path)

-- `nullopt`, the exception for an environment that is inherited and not there, undefined behaviour, or
-- the variables.
pub data Compiled : Type 0 where
  absent : Compiled
  thrown : Compiled
  undefined : Compiled
  compiled : List (Bytes × Bytes) → Compiled

abbrev pub merged_with :
    Option Environment → (Environment → Option Environment) → Option Environment
merged_with none rest = none
merged_with (some parent) rest = rest parent

-- The loop over what the environment inherits; `none` is the exception. `sensitive`, which is true but
-- on Windows, is passed on as `pathsAreCaseInsensitive`.
unfoldable pub inherit_all : Environments → List (Bytes × Bytes) → Environment → Option Environment
inherit_all envs [] env = some env
inherit_all envs ((order_key, inherited) ∷ inherits) env =
    merged_with (find inherited envs) (λ parent. inherit_all envs inherits (merge parent env true))

abbrev pub defined : Option (List (Bytes × Bytes)) → Compiled
defined none = undefined
defined (some variables) = compiled variables

abbrev pub or_thrown : Option Environment → Compiled
or_thrown none = thrown
or_thrown (some env) = defined (compile b':' env)

abbrev pub compile_found : Environments → Option Environment → Compiled
compile_found envs none = absent
compile_found envs (some env) = or_thrown (inherit_all envs env.inherits env)

unfoldable pub compile_environment : Environments → Bytes → Compiled
compile_environment envs name = compile_found envs (find name envs)
