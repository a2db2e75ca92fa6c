-- ===== src/Base/Dict.antt =====
-- Maps with texts for keys, as association lists.
use mathlib.Core.List.{List, [], ◌∷◌}
use mathlib.Core.Logic.{inl, inr}
use mathlib.Core.Option.{Option, none, some}
use mathlib.Core.Path.{◌≡◌, refl, ap}
use native.Mathlib.Omega.{arith}
use minide.Base.Tests.{if◌then◌else◌, Bool-cases}
use minide.Base.Text.{Bytes, bytes_eq, bytes_eq_iff, bytes_eq_self}

module _ {S : Type 0} where
  unfoldable pub find : Bytes → List (Bytes × S) → Option S
  find id [] = none
  find id ((k, s) ∷ kvs) = if bytes_eq k id then some s else find id kvs

  unfoldable pub put : Bytes → S → List (Bytes × S) → List (Bytes × S)
  put id s [] = (id, s) ∷ []
  put id s ((k, t) ∷ kvs) = if bytes_eq k id then (k, s) ∷ kvs else (k, t) ∷ put id s kvs

  unfoldable pub erase : Bytes → List (Bytes × S) → List (Bytes × S)
  erase id [] = []
  erase id ((k, s) ∷ kvs) = if bytes_eq k id then erase id kvs else (k, s) ∷ erase id kvs

  pub find-put :
      (k id : Bytes) (s : S) (kvs : List (Bytes × S))
      → find k (put id s kvs) ≡ (if bytes_eq id k then some s else find k kvs)
  unfolding find put
  find-put k id s [] = refl
  find-put k id s ((k', t) ∷ kvs) = elim (Bool-cases (bytes_eq k' id)) [
    | inl e ↦ ground (arith, e, bytes_eq_iff k' id, find-put k id s kvs)
    | inr e ↦
        ground
          (arith, e, bytes_eq_iff k' k, bytes_eq_iff id k, bytes_eq_iff k' id, find-put k id s kvs)
  ]

  pub find-erase :
      (k id : Bytes) (kvs : List (Bytes × S))
      → find k (erase id kvs) ≡ (if bytes_eq id k then none else find k kvs)
  unfolding find erase
  find-erase k id [] = ground arith
  find-erase k id ((k', t) ∷ kvs) = elim (Bool-cases (bytes_eq k' id)) [
    | inl e ↦ ground (arith, e, bytes_eq_iff k' id, find-erase k id kvs)
    | inr e ↦
        ground
          (arith, e, bytes_eq_iff k' k, bytes_eq_iff id k, bytes_eq_iff k' id, find-erase k id kvs)
  ]

  -- To write what is there changes nothing.
  pub put_same :
      (k : Bytes) (v : S) (kvs : List (Bytes × S)) → find k kvs ≡ some v → put k v kvs ≡ kvs
  unfolding find put
  put_same k v [] h = ground arith
  put_same k v ((k', t) ∷ kvs) h = ground (arith, put_same k v kvs)

  pub put_twice :
      (k : Bytes) (v w : S) (kvs : List (Bytes × S)) → put k w (put k v kvs) ≡ put k w kvs
  unfolding put
  put_twice k v w [] = rw (bytes_eq_self k) refl
  put_twice k v w ((k', t) ∷ kvs) = elim (Bool-cases (bytes_eq k' k)) [
    | inl e ↦ rw e (rw e refl)
    | inr e ↦ rw e (rw e (ap (λ x. (k', t) ∷ x) (put_twice k v w kvs)))
  ]
