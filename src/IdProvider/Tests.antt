-- ===== src/IdProvider/Tests.antt =====
-- IdProvider: the theorems after 1, 2 and 3 were handed out and 2 came back.
use minide.Base.{refl, [], ◌∷◌, arith}
use minide.IdProvider.{IdProvider, acquire_id}
use minide.IdProvider.Laws.{IsValid, Acquired, acquire_id-Acquired}

abbrev gap : IdProvider
gap = record { free_ids = 2 ∷ []; increment = 3 }

gap-IsValid : IsValid gap
gap-IsValid = record { ascends = omega arith; bounded = omega arith }

acquire_id-Acquired_example : Acquired gap 2 (record { free_ids = []; increment = 3 })
acquire_id-Acquired_example = acquire_id-Acquired gap gap-IsValid (unfold acquire_id in refl)
