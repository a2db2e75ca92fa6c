-- ===== src/IdProvider/Laws.antt =====
-- IdProvider: which numbers are in use, and how each operation changes that.
use minide.Base.{
  ℕ, ◌+◌, ◌≤◌, ◌<◌, ◌≡◌, refl, subst, zero, suc, inl, inr, Bool, true, false, not, ◌&&◌, ◌||◌, none,
  some, List, [], ◌∷◌, arith, ◌==◌, ==_iff, ltb, leb, if◌then◌else◌, length, Bool-cases,
}
use mathlib.Core.Option.{some-injective}
use minide.IdProvider.{
  IdProvider, id_max, insert, acquire_from, acquire_id, used_id_count, free_id, initial,
}

unfoldable pub member : ℕ → List ℕ → Bool
member b [] = false
member b (x ∷ xs) = b == x || member b xs

-- Handed out, and not free again.
unfoldable pub in_use : IdProvider → ℕ → Bool
unfolding member
in_use p b = ltb 0 b && leb b p.increment && not (member b p.free_ids)

-- Ascending, above `lo` and up to `hi`.
abbrev pub Ascends : ℕ → ℕ → List ℕ → Type 0
Ascends lo hi [] = Unit {0}
Ascends lo hi (x ∷ xs) = (lo < x) × (x ≤ hi) × Ascends x hi xs

pub record IsValid (p : IdProvider) : Type 0 where
  pub ascends : Ascends 0 p.increment p.free_ids
  pub bounded : p.increment ≤ id_max

pub initial-IsValid : IsValid initial
initial-IsValid = record { ascends = tt; bounded = omega arith }

member_below : (b lo hi : ℕ) (xs : List ℕ) → Ascends lo hi xs → b ≤ lo → member b xs ≡ false
unfolding member
member_below b lo hi [] h le = refl
member_below b lo hi (x ∷ xs) h le = ground (arith, member_below b x hi xs h.2)

Ascends-higher : (lo hi : ℕ) (xs : List ℕ) → Ascends lo hi xs → Ascends lo (hi + 1) xs
Ascends-higher lo hi [] h = tt
Ascends-higher lo hi (x ∷ xs) h = (h.0, omega arith, Ascends-higher x hi xs h.2)

Ascends-lower : (lo x hi : ℕ) (xs : List ℕ) → lo ≤ x → Ascends x hi xs → Ascends lo hi xs
Ascends-lower lo x hi [] le h = tt
Ascends-lower lo x hi (y ∷ ys) le h = (omega arith, h.1, h.2)

pub record Acquired (p : IdProvider) (a : ℕ) (q : IdProvider) : Type 0 where
  pub was_unused : in_use p a ≡ false
  pub only_change : (b : ℕ) → in_use q b ≡ (b == a || in_use p b)
  pub is_least : (b : ℕ) → 0 < b → b < a → in_use p b ≡ true
  pub valid : IsValid q

acquire_fresh :
    (n : ℕ)
    → n < id_max
    → Acquired
        (record { free_ids = []; increment = n })
        (n + 1)
        (record { free_ids = []; increment = n + 1 })
unfolding in_use
acquire_fresh n h = record {
  was_unused = ground arith;
  only_change = λ b. ground arith;
  is_least = λ b p l. ground arith;
  valid = record { ascends = tt; bounded = omega arith };
}

acquire_freed :
    (id : ℕ) (rest : List ℕ) (n : ℕ)
    → IsValid (record { free_ids = id ∷ rest; increment = n })
    → Acquired
        (record { free_ids = id ∷ rest; increment = n })
        id
        (record { free_ids = rest; increment = n })
unfolding in_use
acquire_freed id rest n v = record {
  was_unused = ground arith;
  only_change = λ b. ground (arith, member_below id id n rest v.ascends.2, ==_iff b id);
  is_least = λ b p l. ground (arith, member_below b id n rest v.ascends.2);
  valid = record {
    ascends = Ascends-lower 0 id n rest (omega arith) v.ascends.2;
    bounded = v.bounded;
  };
}

acquire_from-Acquired :
    (xs : List ℕ) (n a : ℕ) (q : IdProvider)
    → IsValid (record { free_ids = xs; increment = n })
    → acquire_from xs (record { free_ids = xs; increment = n }) ≡ some (a, q)
    → Acquired (record { free_ids = xs; increment = n }) a q
unfolding acquire_from
acquire_from-Acquired [] n a q v e = elim (Bool-cases (n == id_max)) [
  | inl full ↦ cc (rw (full, acquire_from) at e)
  | inr room ↦
      subst (λ (r : ℕ × IdProvider). Acquired (record { free_ids = []; increment = n }) r.0 r.1)
        (some-injective _ _ (rw (room, acquire_from) at e)) (acquire_fresh n (ground arith))
]
acquire_from-Acquired (id ∷ rest) n a q v e =
    subst
      (λ (r : ℕ × IdProvider). Acquired (record { free_ids = id ∷ rest; increment = n }) r.0 r.1)
      (some-injective _ _ e) (acquire_freed id rest n v)

-- From a well-formed provider acquireId returns the least positive number that is not in use;
-- afterwards exactly that number is in use besides the former ones, and the provider is well
-- formed.
pub acquire_id-Acquired :
    (p : IdProvider) {a : ℕ} {q : IdProvider}
    → IsValid p
    → acquire_id p ≡ some (a, q)
    → Acquired p a q
unfolding acquire_id
acquire_id-Acquired p v e = acquire_from-Acquired p.free_ids p.increment _ _ v e

acquire_from-none :
    (xs : List ℕ) (n b : ℕ)
    → acquire_from xs (record { free_ids = xs; increment = n }) ≡ none
    → 0 < b
    → b ≤ id_max
    → in_use (record { free_ids = xs; increment = n }) b ≡ true
unfolding acquire_from in_use
acquire_from-none [] n b e p l = ground arith
acquire_from-none (id ∷ rest) n b e p l = cc e

-- The exception is raised only when every number is in use.
pub acquire_id-none :
    (p : IdProvider) (b : ℕ) → acquire_id p ≡ none → 0 < b → b ≤ id_max → in_use p b ≡ true
unfolding acquire_id
acquire_id-none p b e l h = acquire_from-none p.free_ids p.increment b e l h

member-insert : (b a : ℕ) (xs : List ℕ) → member b (insert a xs) ≡ (b == a || member b xs)
unfolding member insert
member-insert b a [] = refl
member-insert b a (x ∷ xs) = ground (arith, member-insert b a xs)

insert-Ascends :
    (a lo hi : ℕ) (xs : List ℕ) → Ascends lo hi xs → lo < a → a ≤ hi → Ascends lo hi (insert a xs)
unfolding insert
insert-Ascends a lo hi [] h l u = (l, u, tt)
insert-Ascends a lo hi (x ∷ xs) h l u = ground (arith, insert-Ascends a x hi xs h.2)

-- A number that was in use is free afterwards, and nothing else changes.
pub free_id-in_use :
    (p : IdProvider) (a b : ℕ) → in_use (free_id p a) b ≡ (not (b == a) && in_use p b)
unfolding free_id in_use
free_id-in_use p a b = ground (arith, member-insert b a p.free_ids)

pub free_id-IsValid :
    (p : IdProvider) (a : ℕ) → IsValid p → in_use p a ≡ true → IsValid (free_id p a)
unfolding free_id in_use
free_id-IsValid p a v u = record {
  ascends = insert-Ascends a 0 p.increment p.free_ids v.ascends (ground arith) (ground arith);
  bounded = v.bounded;
}

-- How many numbers from 1 to `n` are in use.
unfoldable pub count_in_use : IdProvider → ℕ → ℕ
count_in_use p zero = 0
count_in_use p (suc n) = (if in_use p (suc n) then 1 else 0) + count_in_use p n

-- How many are free.
unfoldable pub count_member : List ℕ → ℕ → ℕ
count_member xs zero = 0
count_member xs (suc n) = (if member (suc n) xs then 1 else 0) + count_member xs n

count_split :
    (p : IdProvider) (n : ℕ) → n ≤ p.increment → count_in_use p n + count_member p.free_ids n ≡ n
unfolding count_in_use count_member in_use
count_split p zero h = refl
count_split p (suc n) h = ground (arith, count_split p n)

count_member-cons :
    (x lo hi : ℕ) (xs : List ℕ) (n : ℕ)
    → Ascends x hi xs
    → 0 < x
    → count_member (x ∷ xs) n ≡ (if leb x n then 1 else 0) + count_member xs n
unfolding count_member member
count_member-cons x lo hi xs zero h p = ground arith
count_member-cons x lo hi xs (suc n) h p =
    ground (arith, count_member-cons x lo hi xs n h p, member_below x x hi xs h)

count_member-nil : (n : ℕ) → count_member [] n ≡ 0
unfolding count_member member
count_member-nil zero = refl
count_member-nil (suc n) = omega (arith, count_member-nil n)

count_member-length : (lo hi : ℕ) (xs : List ℕ) → Ascends lo hi xs → count_member xs hi ≡ length xs
unfolding count_member
count_member-length lo hi [] h = count_member-nil hi
count_member-length lo hi (x ∷ xs) h =
    ground (arith, count_member-cons x lo hi xs hi h.2, count_member-length x hi xs h.2)

-- `usedIdCount` is the number of ids in use.
pub used_id_count-count :
    (p : IdProvider) → IsValid p → used_id_count p ≡ count_in_use p p.increment
unfolding used_id_count
used_id_count-count p v =
    ground
      (arith, count_split p p.increment, count_member-length 0 p.increment p.free_ids v.ascends)
