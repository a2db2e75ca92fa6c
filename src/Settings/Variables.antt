-- ===== src/Settings/Variables.antt =====
-- Settings: which variables are there after two environments are merged, and after one is compiled.
use minide.Base.{
  ◌≡◌, refl, ap, subst, ◌∙◌, Bool, true, false, Option, none, some, List, [], ◌∷◌, Bytes, bytes_eq,
  bytes_eq_iff, if◌then◌else◌, inl, inr, Bool-cases, Option-cases,
}
use minide.Base.Dict.{find, find-put}
use minide.Settings.{put_all, insert_all, insert_with}

-- What the first has, or else the second.
abbrev pub or_else : {A : Type 0} → Option A → Option A → Option A
or_else none o = o
or_else (some a) o = some a

pub or_else-none : (o : Option Bytes) → o ≡ or_else o none
or_else-none none = refl
or_else-none (some a) = refl

pub or_else_assoc : (a b c : Option Bytes) → or_else (or_else a b) c ≡ or_else a (or_else b c)
or_else_assoc none b c = refl
or_else_assoc (some x) b c = refl

pub find-put_all :
    (k : Bytes) (other kvs : List (Bytes × Bytes))
    → find k (put_all other kvs) ≡ or_else (find k other) (find k kvs)
unfolding put_all find
find-put_all k [] kvs = refl
find-put_all k ((k', v) ∷ other) kvs = elim (Bool-cases (bytes_eq k' k)) [
  | inl e ↦ rw (find-put k k' v (put_all other kvs)) (rw e refl)
  | inr e ↦ rw (find-put k k' v (put_all other kvs)) (rw e (find-put_all k other kvs))
]

find-insert_with :
    (k k' v : Bytes) (env : List (Bytes × Bytes))
    → find k (insert_with k' v env (find k' env))
      ≡ or_else (find k env) (if bytes_eq k' k then some v else none)
find-insert_with k k' v env = elim (Option-cases (find k' env)) [
  | inl e ↦ elim (Bool-cases (bytes_eq k' k)) [
    | inl f ↦
        let same : k' ≡ k = (bytes_eq_iff k' k).0 f in
        let gone : find k env ≡ none = subst (λ x. find x env ≡ none) same e in
        rw e (rw (find-put k k' v env) (rw (f, gone) refl))
    | inr f ↦ rw e (rw (find-put k k' v env) (rw f (or_else-none (find k env))))
  ]
  | inr (old, e) ↦ elim (Bool-cases (bytes_eq k' k)) [
    | inl f ↦
        let same : k' ≡ k = (bytes_eq_iff k' k).0 f in
        let there : find k env ≡ some old = subst (λ x. find x env ≡ some old) same e in
        rw (e, there) refl
    | inr f ↦ rw (e, f) (or_else-none (find k env))
  ]
]

-- What is inserted is read where nothing was there before.
pub find-insert_all :
    (k : Bytes) (kvs env : List (Bytes × Bytes))
    → find k (insert_all kvs env) ≡ or_else (find k env) (find k kvs)
unfolding insert_all find
find-insert_all k [] env = or_else-none (find k env)
find-insert_all k ((k', v) ∷ kvs) env =
    find-insert_all k kvs (insert_with k' v env (find k' env))
    ∙ ap (λ o. or_else o (find k kvs)) (find-insert_with k k' v env)
    ∙ reassociate (find k env) (bytes_eq k' k)
  where
    reassociate :
        (o : Option Bytes) (b : Bool)
        → or_else (or_else o (if b then some v else none)) (find k kvs)
          ≡ or_else o (if b then some v else find k kvs)
    reassociate none true = refl
    reassociate none false = refl
    reassociate (some a) b = refl
