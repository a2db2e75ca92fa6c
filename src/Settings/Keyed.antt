-- ===== src/Settings/Keyed.antt =====
-- Settings: the order by key in which an object of nlohmann::json, a `std::map`, is run through.
use minide.Base.{
  ◌≡◌, refl, ap, ◌∙◌, Bool, true, false, ◌&&◌, Option, none, some, List, [], ◌∷◌, Bytes, bytes_eq,
  bytes_eq_iff, if◌then◌else◌, inl, inr, Bool-cases, arith,
}
use minide.Base.Dict.{find}
use minide.Settings.{lexicographic}
use minide.Settings.Order.{lexicographic_irrefl, lexicographic_connected}

bytes_eq-lexicographic : (k k' : Bytes) → lexicographic k k' ≡ true → bytes_eq k k' ≡ false
bytes_eq-lexicographic k k' h = elim (Bool-cases (bytes_eq k k')) [
  | inl e ↦
      let same : k ≡ k' = (bytes_eq_iff k k').0 e in cc (rw (same, lexicographic_irrefl k') at h)
  | inr e ↦ e
]

module _ {A : Type 0} where
  unfoldable pub put_by_key : Bytes → A → List (Bytes × A) → List (Bytes × A)
  put_by_key k a [] = (k, a) ∷ []
  put_by_key k a ((k', b) ∷ kvs) =
      let rest = put_by_key k a kvs in
      if lexicographic k k'
      then (k, a) ∷ ((k', b) ∷ kvs)
      else if lexicographic k' k
      then (k', b) ∷ rest
      else (k, a) ∷ kvs

  -- The entries by key; of two with the same key the first counts.
  unfoldable pub by_key : List (Bytes × A) → List (Bytes × A)
  by_key [] = []
  by_key ((k, a) ∷ kvs) = put_by_key k a (by_key kvs)

  abbrev before : Bytes → List (Bytes × A) → Bool
  before k [] = true
  before k ((k', a) ∷ kvs) = lexicographic k k'

  -- Whether the keys ascend, as those of a `std::map` do.
  unfoldable pub ascends : List (Bytes × A) → Bool
  ascends [] = true
  ascends ((k, a) ∷ kvs) = before k kvs && ascends kvs

  put_by_key-before :
      (k : Bytes) (a : A) (kvs : List (Bytes × A))
      → before k kvs ≡ true
      → put_by_key k a kvs ≡ (k, a) ∷ kvs
  unfolding put_by_key
  put_by_key-before k a [] h = refl
  put_by_key-before k a ((k', b) ∷ kvs) h = rw h refl

  pub by_key-ascends : (kvs : List (Bytes × A)) → ascends kvs ≡ true → by_key kvs ≡ kvs
  unfolding by_key ascends
  by_key-ascends [] h = refl
  by_key-ascends ((k, a) ∷ kvs) h =
      let first : before k kvs ≡ true = ground (arith, h) in
      let rest : ascends kvs ≡ true = ground (arith, h) in
      rw (by_key-ascends kvs rest) (put_by_key-before k a kvs first)

  tested_twice :
      (test : Bool) (a b : A) (o : Option A)
      → (if test then some a else o) ≡ (if test then some a else if test then some b else o)
  tested_twice true a b o = refl
  tested_twice false a b o = refl

  find-put_by_key :
      (key k : Bytes) (a : A) (kvs : List (Bytes × A))
      → find key (put_by_key k a kvs) ≡ (if bytes_eq k key then some a else find key kvs)
  unfolding find put_by_key
  find-put_by_key key k a [] = refl
  find-put_by_key key k a ((k', b) ∷ kvs) = elim (Bool-cases (lexicographic k k')) [
    | inl e ↦ rw e refl
    | inr e ↦ elim (Bool-cases (lexicographic k' k)) [
      | inl f ↦ ground (
        arith,
        e,
        f,
        find-put_by_key key k a kvs,
        bytes_eq_iff k' key,
        bytes_eq_iff k key,
        bytes_eq-lexicographic k' k f,
        bytes_eq_iff k' k,
      )
      | inr f ↦
          let same : k ≡ k' = lexicographic_connected k k' e f in
          rw (e, f) (rw same (tested_twice (bytes_eq k' key) a b (find key kvs)))
    ]
  ]

  pub find-by_key : (key : Bytes) (kvs : List (Bytes × A)) → find key (by_key kvs) ≡ find key kvs
  unfolding find by_key
  find-by_key key [] = refl
  find-by_key key ((k, a) ∷ kvs) =
      find-put_by_key key k a (by_key kvs)
      ∙ ap (λ o. if bytes_eq k key then some a else o) (find-by_key key kvs)

unfoldable pub values_with : {A B : Type 0} → (A → B) → List (Bytes × A) → List (Bytes × B)
values_with f [] = []
values_with f ((k, a) ∷ kvs) = (k, f a) ∷ values_with f kvs

module _ {A B : Type 0} (f : A → B) where
  values_with-put_by_key :
      (k : Bytes) (a : A) (kvs : List (Bytes × A))
      → put_by_key k (f a) (values_with f kvs) ≡ values_with f (put_by_key k a kvs)
  unfolding put_by_key values_with
  values_with-put_by_key k a [] = refl
  values_with-put_by_key k a ((k', b) ∷ kvs) = elim (Bool-cases (lexicographic k k')) [
    | inl e ↦ rw e refl
    | inr e ↦ elim (Bool-cases (lexicographic k' k)) [
      | inl h ↦ rw (e, h) (ap (λ rest. (k', f b) ∷ rest) (values_with-put_by_key k a kvs))
      | inr h ↦ rw (e, h) refl
    ]
  ]

  pub by_key-values_with :
      (kvs : List (Bytes × A)) → by_key (values_with f kvs) ≡ values_with f (by_key kvs)
  unfolding by_key values_with
  by_key-values_with [] = refl
  by_key-values_with ((k, a) ∷ kvs) =
      ap (put_by_key k (f a)) (by_key-values_with kvs) ∙ values_with-put_by_key k a (by_key kvs)

  abbrev pub mapped : Option A → Option B
  mapped none = none
  mapped (some a) = some (f a)

  pub find-values_with :
      (key : Bytes) (kvs : List (Bytes × A)) → find key (values_with f kvs) ≡ mapped (find key kvs)
  unfolding find values_with
  find-values_with key [] = refl
  find-values_with key ((k, a) ∷ kvs) = elim (Bool-cases (bytes_eq k key)) [
    | inl e ↦ rw e refl
    | inr e ↦ rw e (find-values_with key kvs)
  ]

pub values_with_same : {A : Type 0} → (kvs : List (Bytes × A)) → values_with (λ a. a) kvs ≡ kvs
unfolding values_with
values_with_same [] = refl
values_with_same ((k, a) ∷ kvs) = ap (λ rest. (k, a) ∷ rest) (values_with_same kvs)
