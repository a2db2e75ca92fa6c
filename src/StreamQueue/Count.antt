-- ===== src/StreamQueue/Count.antt =====
-- StreamQueue: how often a message is waited for, and how each operation changes that.
use minide.Base.{
  ℕ, ◌+◌, ◌≤◌, ◌<◌, ◌≡◌, refl, Bool, List, [], ◌∷◌, ◌++◌, arith, ◌==◌, if◌then◌else◌, length,
}
use minide.StreamQueue.{Entry, Assignments, list_of, put, erase, push_all, unref}

abbrev pub one_if : Bool → ℕ
one_if b = if b then 1 else 0

unfoldable pub count : ℕ → List ℕ → ℕ
count h [] = 0
count h (x ∷ xs) = one_if (x == h) + count h xs

-- The places of the iterator in all assignments.
unfoldable pub pending : ℕ → Assignments → ℕ
unfolding count
pending h [] = 0
pending h ((k, l) ∷ kvs) = count h l + pending h kvs

pub count-append : (h : ℕ) (xs ys : List ℕ) → count h (xs ++ ys) ≡ count h xs + count h ys
unfolding count
count-append h [] ys = omega arith
count-append h (x ∷ xs) ys = omega (arith, count-append h xs ys)

pub pending-put :
    (h id : ℕ) (l : List ℕ) (kvs : Assignments)
    → pending h (put id l kvs) + count h (list_of id kvs) ≡ pending h kvs + count h l
unfolding pending put list_of
pending-put h id l [] = omega arith
pending-put h id l ((k, l') ∷ kvs) = ground (arith, pending-put h id l kvs)

pub pending-erase :
    (h id : ℕ) (kvs : Assignments)
    → pending h (erase id kvs) + count h (list_of id kvs) ≤ pending h kvs
unfolding pending erase list_of
pending-erase h id [] = omega arith
pending-erase h id ((k, l) ∷ kvs) = ground (arith, pending-erase h id kvs)

pub pending-push_all :
    (h new : ℕ) (kvs : Assignments)
    → pending h (push_all new kvs) ≡ pending h kvs + (if new == h then length kvs else 0)
unfolding pending push_all
pending-push_all h new [] = ground arith
pending-push_all h new ((k, l) ∷ kvs) =
    ground (arith, pending-push_all h new kvs, count-append h l (new ∷ []))

-- `held` is read once less.
unfoldable pub remove : ℕ → List ℕ → List ℕ
remove h [] = []
remove h (x ∷ xs) = if x == h then xs else x ∷ remove h xs

pub count-remove :
    (k h : ℕ) (xs : List ℕ) → 0 < count h xs → count k (remove h xs) + one_if (h == k) ≡ count k xs
unfolding count remove
count-remove k h [] p = absurd (omega arith)
count-remove k h (x ∷ xs) p = ground (arith, count-remove k h xs)

module _ {Message : Type 0} where
  -- The counts of the cached entries of an iterator; there is one at most.
  unfoldable pub ref_sum : ℕ → List (Entry Message) → ℕ
  ref_sum h [] = 0
  ref_sum h (e ∷ es) = (if e.handle == h then e.ref_count else 0) + ref_sum h es

  -- Newest first, all below `n`.
  abbrev pub Descends : ℕ → List (Entry Message) → Type 0
  Descends n [] = Unit {0}
  Descends n (e ∷ es) = (e.handle < n) × Descends e.handle es

  pub Descends-mono : (m n : ℕ) (es : List (Entry Message)) → m ≤ n → Descends m es → Descends n es
  Descends-mono m n [] le d = tt
  Descends-mono m n (e ∷ es) le d = (omega arith, d.1)

  pub ref_sum_above :
      (h n : ℕ) (es : List (Entry Message)) → Descends n es → n ≤ h → ref_sum h es ≡ 0
  unfolding ref_sum
  ref_sum_above h n [] d le = refl
  ref_sum_above h n (e ∷ es) d le = ground (arith, ref_sum_above h e.handle es d.1)

  pub unref-Descends :
      (h n : ℕ) (es : List (Entry Message)) → Descends n es → Descends n (unref h es)
  unfolding unref
  unref-Descends h n [] d = tt
  unref-Descends h n (e ∷ es) d =
      ground (arith, unref-Descends h e.handle es d.1, Descends-mono e.handle n es)

  -- One reference less, and the entry is gone where it was the last one.
  pub ref_sum-unref :
      (k h n : ℕ) (es : List (Entry Message))
      → Descends n es
      → 0 < ref_sum h es
      → ref_sum k (unref h es) + one_if (h == k) ≡ ref_sum k es
  unfolding ref_sum unref
  ref_sum-unref k h n [] d p = absurd (omega arith)
  ref_sum-unref k h n (e ∷ es) d p =
      ground (arith, ref_sum-unref k h e.handle es d.1, ref_sum_above h e.handle es d.1)
