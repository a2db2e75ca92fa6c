-- ===== src/HybridSink/Size.antt =====
-- `std::stoll(…, nullptr, 16)` of at most ten bytes, as a `std::size_t`.
use minide.Base.{
  ℕ, zero, suc, ◌+◌, ◌-◌, ◌*◌, ◌/◌, ◌^◌, ◌%◌, ◌<◌, ◌≡◌, refl, ◌∙◌, ap, inl, inr, Bool, true, false,
  ◌&&◌, ◌||◌, Option, none, some, [], ◌∷◌, ◌++◌, Bytes, codes, leb, ◌==◌, if◌then◌else◌, arith, All,
  All-append, length, replicate, Bool-cases,
}
use minide.Frame.Hex.{
  length-hex8, hex8, hex, hex_onto, hex_digit, read_hex, read_hex-hex8, digit_value,
}

abbrev is_space : ℕ → Bool
is_space c = c == b' ' || (leb 9 c && leb c 13)

abbrev pub is_hex_digit : ℕ → Bool
is_hex_digit c =
    (leb b'0' c && leb c b'9') || ((leb b'a' c && leb c b'f') || (leb b'A' c && leb c b'F'))

-- The value of a digit, in either case.
abbrev value : ℕ → ℕ
value c = if leb c b'9' then c - b'0' else if leb c b'F' then c - b'A' + 10 else c - b'a' + 10

-- The digits that stand in front.
unfoldable pub digits_value : ℕ → Bytes → ℕ
digits_value acc [] = acc
digits_value acc (c ∷ cs) = elim (is_hex_digit c) [
  | true ↦ digits_value (acc * 16 + value c) cs
  | false ↦ acc
]

-- `std::invalid_argument` where no digit stands in front.
abbrev digits : Bytes → Option ℕ
digits [] = none
digits (c ∷ cs) = if is_hex_digit c then some (digits_value 0 (c ∷ cs)) else none

-- "0x" is skipped where a digit stands behind it.
abbrev is_prefix : ℕ → ℕ → ℕ → Bool
is_prefix a b c = a == b'0' && ((b == b'x' || b == b'X') && is_hex_digit c)

unfoldable pub unsigned : Bytes → Option ℕ
unfolding digits_value
unsigned (a ∷ b ∷ c ∷ cs) = if is_prefix a b c then digits (c ∷ cs) else digits (a ∷ b ∷ c ∷ cs)
unsigned cs = digits cs

-- A negative number wraps when it becomes a `std::size_t`.
abbrev negated : Option ℕ → Option ℕ
negated none = none
negated (some n) = some ((2 ^ 64 - n) % 2 ^ 64)

unfoldable pub signed : Bytes → Option ℕ
unfolding unsigned
signed [] = none
signed (c ∷ cs) =
    if c == b'-'
    then negated (unsigned cs)
    else if c == b'+'
    then unsigned cs
    else unsigned (c ∷ cs)

unfoldable pub stoll : Bytes → Option ℕ
unfolding signed
stoll [] = none
stoll (c ∷ cs) = elim (is_space c) [ true ↦ stoll cs | false ↦ signed (c ∷ cs) ]

-- A digit that both readings take for the same number.
abbrev IsPrinted : ℕ → Type 0
IsPrinted c = (is_hex_digit c ≡ true) × (value c ≡ digit_value c)

hex_digit-IsPrinted : (d : ℕ) → d < 16 → IsPrinted (hex_digit d)
unfolding hex_digit
hex_digit-IsPrinted d h = (ground arith, ground arith)

hex_onto-IsPrinted :
    (fuel n : ℕ) (acc : Bytes) → All IsPrinted acc → All IsPrinted (hex_onto fuel n acc)
unfolding hex_onto
hex_onto-IsPrinted zero n acc h = h
hex_onto-IsPrinted (suc fuel) n acc h =
    let digit = hex_digit-IsPrinted (n % 16) (omega arith) in
    elim (Bool-cases (n / 16 == 0)) [
      | inl z ↦ rw z (digit, h)
      | inr z ↦ rw z (hex_onto-IsPrinted fuel (n / 16) _ (digit, h))
    ]

replicate-IsPrinted : (k : ℕ) → All IsPrinted (replicate k b'0')
replicate-IsPrinted zero = tt
replicate-IsPrinted (suc k) = ((refl, refl), replicate-IsPrinted k)

hex8-IsPrinted : (n : ℕ) → All IsPrinted (hex8 n)
unfolding hex8
hex8-IsPrinted n =
    All-append IsPrinted (replicate (8 - length (hex n)) b'0') (hex n)
      (replicate-IsPrinted (8 - length (hex n))) (hex_onto-IsPrinted 16 n [] tt)

digits_value-read_hex :
    (acc : ℕ) (s : Bytes) → All IsPrinted s → digits_value acc s ≡ read_hex acc s
unfolding digits_value read_hex
digits_value-read_hex acc [] h = refl
digits_value-read_hex acc (c ∷ s) h =
    rw (h.0.0, h.0.1, digits_value) (digits_value-read_hex (acc * 16 + digit_value c) s h.1)

stoll-printed :
    (s : Bytes) → All IsPrinted s → 0 < length s → stoll (codes "0x" ++ s) ≡ some (read_hex 0 s)
unfolding stoll
stoll-printed [] h l = absurd (omega arith)
stoll-printed (c ∷ s) h l = rw h.0.0 (ap some (digits_value-read_hex 0 (c ∷ s) h))

-- The size that a frame prints is the size that is read.
pub stoll-hex8 : (n : ℕ) → n < 2 ^ 32 → stoll (codes "0x" ++ hex8 n) ≡ some n
stoll-hex8 n h =
    stoll-printed (hex8 n) (hex8-IsPrinted n) (omega (arith, length-hex8 n (omega arith)))
    ∙ ap some (read_hex-hex8 n (omega arith))
