-- ===== src/Settings/Order.antt =====
-- Settings: the order of texts element by element is strict, and total.
use minide.Base.{◌≡◌, refl, true, false, [], ◌∷◌, Bytes, arith}
use minide.Settings.{lexicographic}

pub lexicographic_irrefl : (x : Bytes) → lexicographic x x ≡ false
unfolding lexicographic
lexicographic_irrefl [] = refl
lexicographic_irrefl (x ∷ xs) = ground (arith, lexicographic_irrefl xs)

pub lexicographic_trans :
    (x y z : Bytes) → lexicographic x y ≡ true → lexicographic y z ≡ true → lexicographic x z ≡ true
unfolding lexicographic
lexicographic_trans x [] z h k = cc h
lexicographic_trans x (b ∷ y) [] h k = cc k
lexicographic_trans [] (b ∷ y) (c ∷ z) h k = refl
lexicographic_trans (a ∷ x) (b ∷ y) (c ∷ z) h k = ground (arith, lexicographic_trans x y z)

pub lexicographic_connected :
    (x y : Bytes) → lexicographic x y ≡ false → lexicographic y x ≡ false → x ≡ y
unfolding lexicographic
lexicographic_connected [] [] h k = refl
lexicographic_connected [] (b ∷ y) h k = cc h
lexicographic_connected (a ∷ x) [] h k = cc k
lexicographic_connected (a ∷ x) (b ∷ y) h k = ground (arith, lexicographic_connected x y)
