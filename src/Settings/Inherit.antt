-- ===== src/Settings/Inherit.antt =====
-- Settings: an environment with what it inherits.
use minide.Base.{
  ◌≡◌, refl, ap, ◌∙◌, Bool, true, false, ◌||◌, Option, none, some, List, [], ◌∷◌, Bytes, inl, inr,
  Option-cases, arith,
}
use minide.Base.Dict.{find}
use minide.Settings.{Environment, Environments, merge, inherit_all, folded}
use minide.Settings.Paths.{has, Ascending, merged_path-Ascending, has-merged_path}
use minide.Settings.Variables.{or_else, or_else-none, or_else_assoc, find-put_all}

abbrev pub cons_some : {A : Type 0} → Option A → Option (List A) → Option (List A)
cons_some none o = none
cons_some (some a) none = none
cons_some (some a) (some rest) = some (a ∷ rest)

-- The environments of these names, if all are there.
unfoldable pub parents_of : Environments → List (Bytes × Bytes) → Option (List Environment)
parents_of envs [] = some []
parents_of envs ((order_key, name) ∷ inherits) =
    cons_some (find name envs) (parents_of envs inherits)

-- The variable in the first environment that has it.
unfoldable pub first_with : Bytes → List Environment → Option Bytes
first_with key [] = none
first_with key (env ∷ envs) = or_else (find key env.variables) (first_with key envs)

-- Whether one of the environments has the path, up to case.
unfoldable pub one_has : Bytes → List Environment → Bool
one_has path [] = false
one_has path (env ∷ envs) = has folded (folded path) env.path || one_has path envs

-- The parents merged in their order.
unfoldable pub merge_parents : Environment → List Environment → Environment
merge_parents env [] = env
merge_parents env (parent ∷ parents) = merge_parents (merge parent env true) parents

pub inherit_all-some :
    (envs : Environments) (inherits : List (Bytes × Bytes)) (env : Environment)
    (parents : List Environment)
    → parents_of envs inherits ≡ some parents
    → inherit_all envs inherits env ≡ some (merge_parents env parents)
unfolding inherit_all parents_of merge_parents
inherit_all-some envs [] env [] e = refl
inherit_all-some envs [] env (p ∷ ps) e = cc e
inherit_all-some envs ((order_key, name) ∷ inherits) env parents e =
    elim (Option-cases (find name envs)) [
      | inl gone ↦ cc (rw gone at e)
      | inr (parent, there) ↦ elim (Option-cases (parents_of envs inherits)) [
        | inl missing ↦ cc (rw (there, missing) at e)
        | inr (rest, found) ↦
            let listed : some (parent ∷ rest) ≡ some parents = rw (there, found) at e in
            let same : parent ∷ rest ≡ parents = cc listed in
            rw (← same)
              (rw there (inherit_all-some envs inherits (merge parent env true) rest found))
      ]
    ]

pub inherit_all-none :
    (envs : Environments) (inherits : List (Bytes × Bytes)) (env : Environment)
    → parents_of envs inherits ≡ none
    → inherit_all envs inherits env ≡ none
unfolding inherit_all parents_of
inherit_all-none envs [] env e = cc e
inherit_all-none envs ((order_key, name) ∷ inherits) env e = elim (Option-cases (find name envs)) [
  | inl gone ↦ rw gone refl
  | inr (parent, there) ↦ elim (Option-cases (parents_of envs inherits)) [
    | inl missing ↦ rw there (inherit_all-none envs inherits (merge parent env true) missing)
    | inr (rest, found) ↦ cc (rw (there, found) at e)
  ]
]

pub merge_parents-first_with :
    (key : Bytes) (env : Environment) (parents : List Environment)
    → find key (merge_parents env parents).variables ≡ first_with key (env ∷ parents)
unfolding merge_parents first_with merge
merge_parents-first_with key env [] = or_else-none (find key env.variables)
merge_parents-first_with key env (parent ∷ parents) =
    merge_parents-first_with key (merge parent env true) parents
    ∙ ap (λ o. or_else o (first_with key parents)) (find-put_all key env.variables parent.variables)
    ∙ or_else_assoc (find key env.variables) (find key parent.variables) (first_with key parents)

pub merge_parents-one_has :
    (path : Bytes) (env : Environment) (parents : List Environment)
    → has folded (folded path) (merge_parents env parents).path ≡ one_has path (env ∷ parents)
unfolding merge_parents one_has merge
merge_parents-one_has path env [] = ground arith
merge_parents-one_has path env (parent ∷ parents) = ground (
  arith,
  merge_parents-one_has path (merge parent env true) parents,
  has-merged_path (folded path) parent.path env.path,
)

pub merge_parents-Ascending :
    (env parent : Environment) (parents : List Environment)
    → Ascending folded (merge_parents env (parent ∷ parents)).path
unfolding merge_parents merge
merge_parents-Ascending env parent [] = merged_path-Ascending parent.path env.path
merge_parents-Ascending env parent (next ∷ parents) =
    merge_parents-Ascending (merge parent env true) next parents
