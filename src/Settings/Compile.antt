-- ===== src/Settings/Compile.antt =====
-- Settings: what compileEnvironment gives for an environment, by what it inherits.
use minide.Base.{
  ◌≡◌, refl, ap, sym, ◌∙◌, Bool, true, false, not, ◌||◌, Option, none, some, List, [], ◌∷◌, Bytes,
  codes, bytes_eq, if◌then◌else◌, inl, inr, Option-cases, arith,
}
use minide.Base.Dict.{find}
use minide.Settings.{
  Environment, Environments, merge, compile, merge_path, all_paths, with_path, Compiled, absent,
  thrown, undefined, compiled, compile_environment, compile_found, or_thrown, defined, folded,
}
use minide.Settings.Paths.{has, Ascending, is_nil, merged_path-is_nil}
use minide.Settings.Variables.{or_else, find-insert_all}
use minide.Settings.Inherit.{
  parents_of, first_with, one_has, merge_parents, inherit_all-some, inherit_all-none,
  merge_parents-first_with, merge_parents-one_has, merge_parents-Ascending,
}

-- Whether one of the environments has a path at all.
unfoldable pub any_path : List Environment → Bool
any_path [] = false
any_path (env ∷ envs) = not (is_nil env.path) || any_path envs

merge_parents-any_path :
    (env : Environment) (parents : List Environment)
    → any_path (merge_parents env parents ∷ []) ≡ any_path (env ∷ parents)
unfolding merge_parents any_path merge
merge_parents-any_path env [] = refl
merge_parents-any_path env (parent ∷ parents) = ground (
  arith,
  merge_parents-any_path (merge parent env true) parents,
  merged_path-is_nil parent.path env.path,
)

-- What is there of the result but for the variables.
abbrev pub forget : Compiled → Compiled
forget absent = absent
forget thrown = thrown
forget undefined = undefined
forget (compiled variables) = compiled []

abbrev pub expected_with : Environment → Option (List Environment) → Compiled
expected_with env none = thrown
expected_with env (some parents) = if any_path (env ∷ parents) then compiled [] else undefined

abbrev pub expected : Environments → Option Environment → Compiled
expected envs none = absent
expected envs (some env) = expected_with env (parents_of envs env.inherits)

defined-any_path :
    (env : Environment)
    → forget (defined (compile b':' env)) ≡ (if any_path (env ∷ []) then compiled [] else undefined)
unfolding compile merge_path all_paths any_path
defined-any_path env = by_path env.path
  where
    by_path :
        (path : List Bytes)
        → forget (defined (with_path env.variables (merge_path b':' path)))
          ≡ (if not (is_nil path) || false then compiled [] else undefined)
    by_path [] = refl
    by_path ([] ∷ path) = refl
    by_path ((c ∷ cs) ∷ path) = refl

found-expected :
    (envs : Environments) (env : Environment)
    → forget (compile_found envs (some env)) ≡ expected_with env (parents_of envs env.inherits)
found-expected envs env = elim (Option-cases (parents_of envs env.inherits)) [
  | inl missing ↦ rw (missing, inherit_all-none envs env.inherits env missing) refl
  | inr (parents, found) ↦
      rw (found, inherit_all-some envs env.inherits env parents found)
        (defined-any_path (merge_parents env parents)
          ∙ ap (λ b. if b then compiled [] else undefined) (merge_parents-any_path env parents))
]

-- The outcome for any name: there is none where no environment has the name, the exception where one
-- of the environments that it inherits is not there, undefined behaviour where neither the environment
-- nor one that it inherits has a path, and variables in all other cases.
pub compile_environment-forget :
    (envs : Environments) (name : Bytes)
    → forget (compile_environment envs name) ≡ expected envs (find name envs)
unfolding compile_environment
compile_environment-forget envs name = elim (Option-cases (find name envs)) [
  | inl gone ↦ rw gone refl
  | inr (env, there) ↦ rw there (found-expected envs env)
]

merge_path-some :
    (path : List Bytes) → is_nil path ≡ false → (text : Bytes) × (merge_path b':' path ≡ some text)
unfolding merge_path all_paths
merge_path-some [] h = cc h
merge_path-some ([] ∷ path) h = (_, refl)
merge_path-some ((c ∷ cs) ∷ path) h = (_, refl)

abbrev pub variable_of : Bytes → Compiled → Option Bytes
variable_of key (compiled variables) = find key variables
variable_of key _ = none

or_thrown-variable :
    (env : Environment) (text key : Bytes)
    → merge_path b':' env.path ≡ some text
    → variable_of key (or_thrown (some env))
      ≡ or_else (find key ((codes "PATH", text) ∷ [])) (find key env.variables)
unfolding compile
or_thrown-variable env text key e =
    rw e (find-insert_all key env.variables ((codes "PATH", text) ∷ []))

or_thrown-path :
    (env : Environment)
    → variable_of (codes "PATH") (or_thrown (some env)) ≡ merge_path b':' env.path
unfolding find bytes_eq
or_thrown-path env = elim (Option-cases (merge_path b':' env.path)) [
  | inl e ↦ unfold compile in rw e refl
  | inr (text, e) ↦ or_thrown-variable env text (codes "PATH") e ∙ sym e
]

compile_environment-parents :
    (envs : Environments) (name : Bytes) (env : Environment) (parents : List Environment)
    → find name envs ≡ some env
    → parents_of envs env.inherits ≡ some parents
    → compile_environment envs name ≡ or_thrown (some (merge_parents env parents))
unfolding compile_environment
compile_environment-parents envs name env parents there found =
    rw (there, inherit_all-some envs env.inherits env parents found) refl

-- A variable other than PATH has in the result the value of the first environment that has it: the
-- environment of the name itself, or else those that it inherits, in their order, where these are
-- there and one of them all has a path.
pub compile_environment-first_with :
    (envs : Environments) (name : Bytes) (env : Environment) (parents : List Environment)
    (key : Bytes)
    → find name envs ≡ some env
    → parents_of envs env.inherits ≡ some parents
    → any_path (env ∷ parents) ≡ true
    → bytes_eq (codes "PATH") key ≡ false
    → variable_of key (compile_environment envs name) ≡ first_with key (env ∷ parents)
unfolding any_path
compile_environment-first_with envs name env parents key there found has_path other =
    let merged : Environment = merge_parents env parents in
    let full : is_nil merged.path ≡ false = ground (arith, merge_parents-any_path env parents) in
    let text = merge_path-some merged.path full in
    ap (variable_of key) (compile_environment-parents envs name env parents there found)
    ∙ or_thrown-variable merged text.0 key text.1
    ∙ only_path key text.0 other (find key merged.variables)
    ∙ merge_parents-first_with key env parents
  where
    only_path :
        (key text : Bytes)
        → bytes_eq (codes "PATH") key ≡ false
        → (rest : Option Bytes) → or_else (find key ((codes "PATH", text) ∷ [])) rest ≡ rest
    only_path key text other rest = unfold find in rw other refl

-- Where an environment inherits from others that are there, PATH is sorted, up to case, and has
-- one path for each path that one of the environments has, so that of two that are the same up to
-- case only one is there.
pub compile_environment-Ascending :
    (envs : Environments) (name : Bytes) (env parent : Environment) (parents : List Environment)
    → find name envs ≡ some env
    → parents_of envs env.inherits ≡ some (parent ∷ parents)
    → (path : List Bytes) × (variable_of (codes "PATH") (compile_environment envs name)
        ≡ merge_path b':' path)
      × Ascending folded path
      × ((p : Bytes) → has folded (folded p) path ≡ one_has p (env ∷ (parent ∷ parents)))
compile_environment-Ascending envs name env parent parents there found = (
  (merge_parents env (parent ∷ parents)).path,
  ap (variable_of (codes "PATH"))
        (compile_environment-parents envs name env (parent ∷ parents) there found)
      ∙ or_thrown-path (merge_parents env (parent ∷ parents)),
  merge_parents-Ascending env parent parents,
  λ p. merge_parents-one_has p env (parent ∷ parents),
)
