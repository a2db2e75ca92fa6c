-- ===== src/Settings/Paths.antt =====
-- Settings: a set of paths holds what was put into it, up to what its order compares, in that order.
use minide.Base.{
  ◌≡◌, refl, Bool, true, false, ◌||◌, ◌&&◌, List, [], ◌∷◌, Bytes, bytes_eq, inl, inr, Bool-cases,
  All, arith,
}
use minide.Settings.{lexicographic, range_iless, folded, set_insert, set_insert_all, merged_path}
use minide.Settings.Order.{lexicographic_trans, lexicographic_connected}

-- Whether a path of the list has the key.
unfoldable pub has : (Bytes → Bytes) → Bytes → List Bytes → Bool
has key k [] = false
has key k (y ∷ ys) = bytes_eq (key y) k || has key k ys

-- Every path stands before all that follow it.
abbrev pub Ascending : (Bytes → Bytes) → List Bytes → Type 0
Ascending key [] = Unit
Ascending key (x ∷ xs) = All (λ y. lexicographic (key x) (key y) ≡ true) xs × Ascending key xs

module _ (key : Bytes → Bytes) where
  abbrev pub by_key : Bytes → Bytes → Bool
  by_key a b = lexicographic (key a) (key b)

  has-set_insert :
      (k x : Bytes) (s : List Bytes)
      → has key k (set_insert by_key x s) ≡ (bytes_eq (key x) k || has key k s)
  unfolding has set_insert
  has-set_insert k x [] = refl
  has-set_insert k x (y ∷ ys) = elim (Bool-cases (by_key x y)) [
    | inl e ↦ rw e refl
    | inr e ↦ elim (Bool-cases (by_key y x)) [
      | inl f ↦ rw (e, f) (ground (arith, has-set_insert k x ys))
      | inr f ↦
          rw (e, f)
            (let same : key x ≡ key y = lexicographic_connected (key x) (key y) e f in
              rw same (ground arith))
    ]
  ]

  pub has-set_insert_all :
      (k : Bytes) (xs s : List Bytes)
      → has key k (set_insert_all by_key xs s) ≡ (has key k xs || has key k s)
  unfolding has set_insert_all
  has-set_insert_all k [] s = refl
  has-set_insert_all k (x ∷ xs) s =
      ground (arith, has-set_insert_all k xs (set_insert by_key x s), has-set_insert k x s)

  All-above :
      (x y : Bytes) (s : List Bytes)
      → by_key x y ≡ true
      → All (λ z. by_key y z ≡ true) s
      → All (λ z. by_key x z ≡ true) s
  All-above x y [] h a = tt
  All-above x y (z ∷ s) h a =
      (lexicographic_trans (key x) (key y) (key z) h a.0, All-above x y s h a.1)

  set_insert-above :
      (x y : Bytes) (s : List Bytes)
      → by_key y x ≡ true
      → All (λ z. by_key y z ≡ true) s
      → All (λ z. by_key y z ≡ true) (set_insert by_key x s)
  unfolding set_insert
  set_insert-above x y [] h a = (h, tt)
  set_insert-above x y (z ∷ s) h a = elim (Bool-cases (by_key x z)) [
    | inl e ↦ rw e (h, a)
    | inr e ↦ elim (Bool-cases (by_key z x)) [
      | inl f ↦ rw (e, f) (a.0, set_insert-above x y s h a.1)
      | inr f ↦ rw (e, f) a
    ]
  ]

  set_insert-Ascending :
      (x : Bytes) (s : List Bytes) → Ascending key s → Ascending key (set_insert by_key x s)
  unfolding set_insert
  set_insert-Ascending x [] a = (tt, tt)
  set_insert-Ascending x (y ∷ s) a = elim (Bool-cases (by_key x y)) [
    | inl e ↦ rw e ((e, All-above x y s e a.0), a)
    | inr e ↦ elim (Bool-cases (by_key y x)) [
      | inl f ↦ rw (e, f) (set_insert-above x y s f a.0, set_insert-Ascending x s a.1)
      | inr f ↦ rw (e, f) a
    ]
  ]

  pub set_insert_all-Ascending :
      (xs s : List Bytes) → Ascending key s → Ascending key (set_insert_all by_key xs s)
  unfolding set_insert_all
  set_insert_all-Ascending [] s a = a
  set_insert_all-Ascending (x ∷ xs) s a =
      set_insert_all-Ascending xs (set_insert by_key x s) (set_insert-Ascending x s a)

  -- Both paths in one set.
  pub both-Ascending :
      (l r : List Bytes) → Ascending key (set_insert_all by_key r (set_insert_all by_key l []))
  both-Ascending l r = set_insert_all-Ascending r _ (set_insert_all-Ascending l [] tt)

  pub has-both :
      (k : Bytes) (l r : List Bytes)
      → has key k (set_insert_all by_key r (set_insert_all by_key l []))
        ≡ (has key k r || has key k l)
  unfolding has
  has-both k l r =
      grind (arith, has-set_insert_all k r (set_insert_all by_key l []), has-set_insert_all k l [])

-- On this build paths are merged up to case.
pub merged_path-Ascending : (l r : List Bytes) → Ascending folded (merged_path true l r)
unfolding merged_path range_iless
merged_path-Ascending l r = both-Ascending folded l r

pub has-merged_path :
    (k : Bytes) (l r : List Bytes)
    → has folded k (merged_path true l r) ≡ (has folded k r || has folded k l)
unfolding merged_path range_iless
has-merged_path k l r = has-both folded k l r

abbrev pub is_nil : List Bytes → Bool
is_nil [] = true
is_nil (x ∷ xs) = false

set_insert-is_nil :
    (less : Bytes → Bytes → Bool) (x : Bytes) (s : List Bytes)
    → is_nil (set_insert less x s) ≡ false
unfolding set_insert
set_insert-is_nil less x [] = refl
set_insert-is_nil less x (y ∷ s) = ground arith

set_insert_all-is_nil :
    (less : Bytes → Bytes → Bool) (xs s : List Bytes)
    → is_nil (set_insert_all less xs s) ≡ (is_nil xs && is_nil s)
unfolding set_insert_all
set_insert_all-is_nil less [] s = refl
set_insert_all-is_nil less (x ∷ xs) s =
    ground (arith, set_insert_all-is_nil less xs (set_insert less x s), set_insert-is_nil less x s)

pub merged_path-is_nil : (l r : List Bytes) → is_nil (merged_path true l r) ≡ (is_nil r && is_nil l)
unfolding merged_path
merged_path-is_nil l r = ground (
  arith,
  set_insert_all-is_nil range_iless r (set_insert_all range_iless l []),
  set_insert_all-is_nil range_iless l [],
)
