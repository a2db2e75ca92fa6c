-- ===== src/Frame/Hex.antt =====
-- `std::hex << std::setw(8) << std::setfill('0')`: lower-case hexadecimal digits, padded to eight,
-- and an independent reading of them.
use minide.Base.{
  ℕ, zero, suc, ◌+◌, ◌-◌, ◌*◌, ◌/◌, ◌%◌, ◌≤◌, ◌<◌, ◌≡◌, refl, ◌∙◌, ap, inl, inr, [], ◌∷◌, ◌++◌,
  arith, length, Bytes, if◌then◌else◌, ltb, leb, ◌==◌, length-append, ==_iff, Bool-cases, replicate,
  length-replicate,
}

unfoldable pub hex_digit : ℕ → ℕ
hex_digit d = if ltb d 10 then b'0' + d else b'a' + (d - 10)

-- The digits of `n` in front of `acc`. A `std::size_t` has sixteen digits at most.
unfoldable pub hex_onto : ℕ → ℕ → Bytes → Bytes
hex_onto zero n acc = acc
hex_onto (suc fuel) n acc =
    let rest = hex_onto fuel (n / 16) (hex_digit (n % 16) ∷ acc) in
    if n / 16 == 0 then hex_digit (n % 16) ∷ acc else rest

unfoldable pub hex : ℕ → Bytes
unfolding hex_onto hex_digit
hex n = hex_onto 16 n []

unfoldable pub pad : ℕ → Bytes → Bytes
pad width s = replicate (width - length s) b'0' ++ s

-- `sstr << std::hex << std::setw(8) << std::setfill('0') << n`.
unfoldable pub hex8 : ℕ → Bytes
unfolding pad hex
hex8 n = pad 8 (hex n)

abbrev pub pow16 : ℕ → ℕ
pow16 zero = 1
pow16 (suc k) = 16 * pow16 k

-- Reading digits back, the first one first.
abbrev pub digit_value : ℕ → ℕ
digit_value c = if leb c b'9' then c - b'0' else c - b'a' + 10

unfoldable pub read_hex : ℕ → Bytes → ℕ
read_hex acc [] = acc
read_hex acc (c ∷ cs) = read_hex (acc * 16 + digit_value c) cs

digit_value-hex_digit : (d : ℕ) → d < 16 → digit_value (hex_digit d) ≡ d
unfolding hex_digit
digit_value-hex_digit d h = ground arith

read_hex-digit :
    (a n m : ℕ) (acc : Bytes)
    → a * 16 + n % 16 ≡ m
    → read_hex a (hex_digit (n % 16) ∷ acc) ≡ read_hex m acc
unfolding read_hex
read_hex-digit a n m acc e =
    ap (λ (k : ℕ). read_hex k acc) (omega (arith, digit_value-hex_digit (n % 16) (omega arith)))

read_hex-hex_onto :
    (fuel n : ℕ) (acc : Bytes)
    → 0 < fuel
    → n < pow16 fuel
    → read_hex 0 (hex_onto fuel n acc) ≡ read_hex n acc
unfolding hex_onto
read_hex-hex_onto zero n acc p h = absurd (omega arith)
read_hex-hex_onto (suc zero) n acc p h = elim (Bool-cases (n / 16 == 0)) [
  | inl z ↦ rw z (read_hex-digit 0 n n acc (omega arith))
  | inr z ↦ absurd (ground arith)
]
read_hex-hex_onto (suc (suc fuel)) n acc p h = elim (Bool-cases (n / 16 == 0)) [
  | inl z ↦ rw z (read_hex-digit 0 n n acc (omega (arith, (==_iff (n / 16) 0).0 z)))
  | inr z ↦ rw z (
      read_hex-hex_onto (suc fuel) (n / 16) _ (omega arith) (omega arith)
      ∙ read_hex-digit (n / 16) n n acc (omega arith))
]

length-hex_onto :
    (k fuel n : ℕ) (acc : Bytes)
    → n < pow16 (suc k)
    → length (hex_onto fuel n acc) ≤ suc k + length acc
unfolding hex_onto
length-hex_onto k zero n acc h = omega arith
length-hex_onto zero (suc fuel) n acc h = elim (Bool-cases (n / 16 == 0)) [
  | inl z ↦ rw z (omega arith)
  | inr z ↦ absurd (ground arith)
]
length-hex_onto (suc k) (suc fuel) n acc h = elim (Bool-cases (n / 16 == 0)) [
  | inl z ↦ rw z (omega arith)
  | inr z ↦ rw z (omega (arith, length-hex_onto k fuel (n / 16) (hex_digit (n % 16) ∷ acc)))
]

read_hex-zeros : (k : ℕ) (s : Bytes) → read_hex 0 (replicate k b'0' ++ s) ≡ read_hex 0 s
unfolding read_hex
read_hex-zeros zero s = refl
read_hex-zeros (suc k) s = read_hex-zeros k s

pub read_hex-hex8 : (n : ℕ) → n < pow16 16 → read_hex 0 (hex8 n) ≡ n
unfolding hex8
read_hex-hex8 n h =
    read_hex-zeros _ (hex n) ∙ read_hex-hex_onto 16 n [] (omega arith) h ∙ unfold read_hex in refl

pub length-hex8 : (n : ℕ) → n < pow16 8 → length (hex8 n) ≡ 8
unfolding hex8
length-hex8 n h = omega (
  arith,
  length-append (replicate (8 - length (hex n)) b'0') (hex n),
  length-replicate {A = ℕ} (8 - length (hex n)) b'0',
  length-hex_onto 7 16 n [] h,
)
