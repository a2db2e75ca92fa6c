-- ===== src/IdProvider.antt =====
-- worker/streaming/id.cpp: numbers for stream listeners, handed out again once they are free.
pub mod Laws
pub mod Tests
use minide.Base.{
  ℕ, ◌+◌, ◌-◌, ◌%◌, ◌^◌, ◌≡◌, Bool, true, false, not, Option, none, some, List, [], ◌∷◌, ◌==◌, ltb,
  if◌then◌else◌, length,
}

-- `std::numeric_limits<unsigned int>::max()`.
abbrev pub id_max : ℕ
id_max = 2 ^ 32 - 1

-- `freeIds_`, a `std::set`, as the ascending list of its elements.
pub record IdProvider : Type 0 where
  pub free_ids : List ℕ
  pub increment : ℕ

abbrev pub initial : IdProvider
initial = record { free_ids = []; increment = 0 }

-- `std::set::insert`.
unfoldable pub insert : ℕ → List ℕ → List ℕ
insert a [] = a ∷ []
insert a (x ∷ xs) = if ltb a x then a ∷ x ∷ xs else if a == x then x ∷ xs else x ∷ insert a xs

-- `none` is the `std::overflow_error`.
unfoldable pub acquire_from : List ℕ → IdProvider → Option (ℕ × IdProvider)
acquire_from [] p =
    if not (p.increment == id_max)
    then some (p.increment + 1, record p { increment = p.increment + 1 })
    else none
acquire_from (id ∷ rest) p = some (id, record p { free_ids = rest })

unfoldable pub acquire_id : IdProvider → Option (ℕ × IdProvider)
unfolding acquire_from
acquire_id p = acquire_from p.free_ids p

-- `std::size_t` arithmetic: the subtraction wraps at 2^64.
unfoldable pub used_id_count : IdProvider → ℕ
used_id_count p = (p.increment + 2 ^ 64 - length p.free_ids) % 2 ^ 64

unfoldable pub free_id : IdProvider → ℕ → IdProvider
unfolding insert
free_id p id = record p { free_ids = insert id p.free_ids }
