-- ===== src/Settings/Maps.antt =====
-- Settings: an `unordered_map` is what is found for each key, in whatever order it is run through.
use mathlib.Core.Path.{ap₂}
use mathlib.Core.Quot
use mathlib.Core.Quot.{Quot}
use minide.Base.{◌≡◌, refl, sym, ap, ◌∙◌, true, Option, none, some, List, [], ◌∷◌, Bytes, codes}
use minide.Base.Dict.{find}
use minide.Settings.{
  Environment, Environments, merge, merged_path, merge_path, with_path, compile, inherit_all,
  merged_with, Compiled, absent, thrown, undefined, compiled, defined, or_thrown, compile_found,
  compile_environment,
}
use minide.Settings.Variables.{or_else, find-put_all, find-insert_all}

abbrev pub SameMap : List (Bytes × Bytes) → List (Bytes × Bytes) → Type 0
SameMap kvs kvs' = (key : Bytes) → find key kvs ≡ find key kvs'

abbrev pub VariableMap : Type 0
VariableMap = Quot SameMap

-- The same path and parents, and the same variables.
abbrev pub Same : Environment → Environment → Type 0
Same env env' =
    (env.path ≡ env'.path) × SameMap env.variables env'.variables × (env.inherits ≡ env'.inherits)

abbrev pub Alike : Option Environment → Option Environment → Type 0
Alike none none = Unit {0}
Alike (some env) (some env') = Same env env'
Alike _ _ = ⊥

-- Whatever the order, the same environments have the same names.
abbrev pub SameSettings : Environments → Environments → Type 0
SameSettings envs envs' = (name : Bytes) → Alike (find name envs) (find name envs')

-- What `compileEnvironment` gives, with the variables as a map.
pub data Outcome : Type 0 where
  not_there : Outcome
  raised : Outcome
  unspecified : Outcome
  variable_map : VariableMap → Outcome

abbrev pub outcome : Compiled → Outcome
outcome absent = not_there
outcome thrown = raised
outcome undefined = unspecified
outcome (compiled variables) = variable_map (Quot.mk variables)

merge-Same :
    (a a' b b' : Environment) → Same a a' → Same b b' → Same (merge a b true) (merge a' b' true)
unfolding merge
merge-Same a a' b b' (path, variables, inherits) (path', variables', inherits') = (
  ap₂ (merged_path true) path path',
  λ key.
      find-put_all key b.variables a.variables
      ∙ ap₂ or_else (variables' key) (variables key)
      ∙ sym (find-put_all key b'.variables a'.variables),
  refl,
)

merged_with-Alike :
    (o o' : Option Environment) (f g : Environment → Option Environment)
    → Alike o o'
    → ((parent parent' : Environment) → Same parent parent' → Alike (f parent) (g parent'))
    → Alike (merged_with o f) (merged_with o' g)
merged_with-Alike none none f g same each = tt
merged_with-Alike none (some parent) f g same each = absurd same
merged_with-Alike (some parent) none f g same each = absurd same
merged_with-Alike (some parent) (some parent') f g same each = each parent parent' same

inherit_all-Alike :
    (envs envs' : Environments)
    → SameSettings envs envs'
    → (inherits : List (Bytes × Bytes)) (env env' : Environment) → Same env env'
    → Alike (inherit_all envs inherits env) (inherit_all envs' inherits env')
unfolding inherit_all
inherit_all-Alike envs envs' settings [] env env' same = same
inherit_all-Alike envs envs' settings ((order_key, name) ∷ inherits) env env' same =
    merged_with-Alike (find name envs) (find name envs') _ _ (settings name)
      (λ parent parent' alike.
        inherit_all-Alike envs envs' settings inherits (merge parent env true)
          (merge parent' env' true) (merge-Same parent parent' env env' alike same))

with_path-outcome :
    (o : Option Bytes) (variables variables' : List (Bytes × Bytes))
    → SameMap variables variables'
    → outcome (defined (with_path variables o)) ≡ outcome (defined (with_path variables' o))
with_path-outcome none variables variables' same = refl
with_path-outcome (some path) variables variables' same =
    let start : List (Bytes × Bytes) = (codes "PATH", path) ∷ [] in
    ap variable_map (
      Quot.sound (λ key.
        find-insert_all key variables start
        ∙ ap (or_else (find key start)) (same key)
        ∙ sym (find-insert_all key variables' start)))

or_thrown-outcome :
    (o o' : Option Environment) → Alike o o' → outcome (or_thrown o) ≡ outcome (or_thrown o')
unfolding compile
or_thrown-outcome none none same = refl
or_thrown-outcome none (some env) same = absurd same
or_thrown-outcome (some env) none same = absurd same
or_thrown-outcome (some env) (some env') (path, variables, inherits) =
    ap (λ p. outcome (defined (with_path env.variables (merge_path b':' p)))) path
    ∙ with_path-outcome (merge_path b':' env'.path) env.variables env'.variables variables

compile_found-outcome :
    (envs envs' : Environments) (o o' : Option Environment)
    → SameSettings envs envs'
    → Alike o o'
    → outcome (compile_found envs o) ≡ outcome (compile_found envs' o')
compile_found-outcome envs envs' none none settings same = refl
compile_found-outcome envs envs' none (some env) settings same = absurd same
compile_found-outcome envs envs' (some env) none settings same = absurd same
compile_found-outcome envs envs' (some env) (some env') settings same =
    or_thrown-outcome (inherit_all envs env.inherits env) (inherit_all envs' env.inherits env')
      (inherit_all-Alike envs envs' settings env.inherits env env' same)
    ∙ ap (λ inherits. outcome (or_thrown (inherit_all envs' inherits env'))) same.2

-- Settings in which each name has the same path, the same parents and, as a map, the same variables
-- compile to the same outcome for each name, the same map of variables where there is one: it does not
-- matter in which order the unordered maps of names and of variables are run through.
pub compile_environment-outcome :
    (envs envs' : Environments) (name : Bytes)
    → SameSettings envs envs'
    → outcome (compile_environment envs name) ≡ outcome (compile_environment envs' name)
unfolding compile_environment
compile_environment-outcome envs envs' name settings =
    compile_found-outcome envs envs' (find name envs) (find name envs') settings (settings name)
