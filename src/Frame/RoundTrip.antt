-- ===== src/Frame/RoundTrip.antt =====
-- What is written can be read: the frames and their sizes.
use minide.Base.{
  ℤ, pos, negsuc, ℕ, zero, suc, ◌+◌, ◌-◌, ◌^◌, ◌<◌, ◌≡◌, refl, sym, ap, ◌∙◌, [], ◌∷◌, ◌++◌, arith,
  length, Bytes, codes, bytes_eq, if◌then◌else◌, take, drop, replicate, append_assoc, some,
  length-append, length-take, length-drop, length-replicate, take_all, drop_all, ltb, append-nil,
  take_prefix, drop_prefix,
}
use Prim.Native.Nat.{min}
use minide.Frame.Hex.{hex8, read_hex, read_hex-hex8, length-hex8}
use minide.Frame.Encode.{
  write_text, copy_to, u32_of_int, write_binary, patch_size, write_message, split_at, read_frame,
}

split_at_prefix : (text rest : Bytes) → split_at (length text) (text ++ rest) ≡ some (text, rest)
split_at_prefix text rest = ground (
  arith,
  length-append text rest,
  take_prefix text rest (length text) refl,
  drop_prefix text rest (length text) refl,
)

-- With a size of eight digits, the parts of a frame stand where the reader looks for them.
read_frame-sized :
    (size text rest : Bytes)
    → length size ≡ 8
    → read_hex 0 size ≡ length text
    → read_frame (codes "0x" ++ (size ++ (b'|' ∷ (text ++ rest)))) ≡ some (text, rest)
unfolding read_frame bytes_eq
read_frame-sized (a ∷ b ∷ c ∷ d ∷ p ∷ q ∷ r ∷ s ∷ []) text rest h e =
    ap (λ (n : ℕ). split_at n (text ++ rest)) e ∙ split_at_prefix text rest
read_frame-sized _ text rest h e = absurd (omega arith)

-- A text shorter than 2^32 bytes, framed by writeText with anything behind it, is read back by a
-- reader of the size field, which stops at the first byte behind the frame.
pub read_frame-write_text :
    (txt rest : Bytes)
    → length txt < 2 ^ 32
    → read_frame (write_text txt ++ rest) ≡ some (txt, rest)
unfolding write_text
read_frame-write_text txt rest h =
    ap (λ x. read_frame (b'0' ∷ b'x' ∷ x)) (append_assoc (hex8 (length txt)) _ rest)
    ∙ read_frame-sized (hex8 (length txt)) txt rest (length-hex8 _ (omega arith))
        (read_hex-hex8 _ (omega arith))

patch_size_eight :
    (size json : Bytes)
    → length size ≡ 8
    → patch_size 8 0 size (codes "0x00000000|" ++ json) ≡ codes "0x" ++ (size ++ (b'|' ∷ json))
unfolding patch_size
patch_size_eight (a ∷ b ∷ c ∷ d ∷ p ∷ q ∷ r ∷ s ∷ []) json h = refl
patch_size_eight _ json h = absurd (omega arith)

-- For a head shorter than 2^32 bytes the worker's writeMessage, which patches the digits of the
-- size into a template, builds the frame that writeText builds, followed by the data and a
-- newline.
pub write_message-eq-write_text :
    (json payload : Bytes)
    → length json < 2 ^ 32
    → write_message json payload ≡ write_text json ++ (payload ++ (b'\n' ∷ []))
unfolding write_message write_text
write_message-eq-write_text json payload h =
    let size : length (codes "0x00000000|" ++ json) - 11 ≡ length json =
      omega (arith, length-append (codes "0x00000000|") json) in
    ap
      (λ (n : ℕ).
        patch_size 8 0 (hex8 n) (codes "0x00000000|" ++ json) ++ (payload ++ (b'\n' ∷ [])))
      size
    ∙ ap (λ x. x ++ (payload ++ (b'\n' ∷ [])))
        (patch_size_eight _ json (length-hex8 _ (omega arith)))

copy_behind :
    (ref zeros content : Bytes)
    → length ref ≡ 10
    → length zeros ≡ length content
    → copy_to (ref ++ zeros) 10 content ≡ ref ++ content
unfolding copy_to
copy_behind ref zeros content h e =
    let nothing_left : drop (10 + length content) (ref ++ zeros) ≡ [] =
      drop_all (10 + length content) (ref ++ zeros) (omega (arith, length-append ref zeros)) in
    rw (nothing_left, take_prefix ref zeros 10 h, append-nil content)

-- A buffer of zeros is filled from the front, then from there on: nothing of it is left.
copy_to_parts :
    (size : ℕ) (ref content : Bytes)
    → length ref ≡ 10
    → length content ≡ size
    → copy_to (copy_to (replicate (size + 10) 0) 0 ref) 10 content ≡ ref ++ content
copy_to_parts size ref content h e =
    unfold copy_to in
    copy_behind ref (drop (0 + length ref) (replicate {A = ℕ} (size + 10) 0)) content h (
      omega (
        arith,
        length-drop (0 + length ref) (replicate {A = ℕ} (size + 10) 0),
        length-replicate {A = ℕ} (size + 10) 0,
      ))

abbrev pub InInt : ℤ → Type 0
InInt (pos n) = n < 2 ^ 31
InInt (negsuc n) = n < 2 ^ 31

-- The reading of a binary frame: the reference as an `int`, and the content.
unfoldable pub int_of_u32 : ℕ → ℤ
int_of_u32 n = if ltb n (2 ^ 31) then pos n else negsuc (2 ^ 32 - 1 - n)

unfoldable pub read_binary : Bytes → ℤ × Bytes
unfolding int_of_u32
read_binary b = (int_of_u32 (read_hex 0 (take 8 (drop 2 b))), drop 10 b)

u32_of_int-lt : (ref : ℤ) → InInt ref → u32_of_int ref < 2 ^ 32
unfolding u32_of_int
u32_of_int-lt (pos n) h = omega arith
u32_of_int-lt (negsuc n) h = omega arith

int_of_u32-u32_of_int : (ref : ℤ) → InInt ref → int_of_u32 (u32_of_int ref) ≡ ref
unfolding u32_of_int int_of_u32
int_of_u32-u32_of_int (pos n) h = ground arith
int_of_u32-u32_of_int (negsuc n) h = ground arith

write_binary_parts :
    (ref : ℤ) (content : Bytes) (amount : ℕ)
    → InInt ref
    → write_binary ref content amount
      ≡ codes "0x" ++ (hex8 (u32_of_int ref) ++ take (min (length content) amount) content)
unfolding write_binary
write_binary_parts ref content amount h =
    copy_to_parts (min (length content) amount) (codes "0x" ++ hex8 (u32_of_int ref)) _
      (omega (arith, length-hex8 (u32_of_int ref) (omega (arith, u32_of_int-lt ref h))))
      (omega (arith, length-take (min (length content) amount) content))

read_binary-sized :
    (digits content : Bytes)
    → length digits ≡ 8
    → read_binary (codes "0x" ++ (digits ++ content)) ≡ (int_of_u32 (read_hex 0 digits), content)
unfolding read_binary
read_binary-sized (a ∷ b ∷ c ∷ d ∷ p ∷ q ∷ r ∷ s ∷ []) content h = refl
read_binary-sized _ content h = absurd (omega arith)

take-min : (xs : Bytes) (n : ℕ) → take (min (length xs) n) xs ≡ take n xs
take-min [] n = take_all (min 0 n) [] (omega arith) ∙ sym (take_all n [] (omega arith))
take-min (x ∷ xs) zero = ap (λ (k : ℕ). take k (x ∷ xs)) {y = 0} (omega arith)
take-min (x ∷ xs) (suc n) =
    ap (λ (k : ℕ). take k (x ∷ xs)) (min_suc (length xs) n) ∙ ap (◌∷◌ x) (take-min xs n)
  where
    min_suc : (a b : ℕ) → min (suc a) (suc b) ≡ suc (min a b)
    min_suc a b = omega arith

-- A binary frame gives back its reference, negative ones too, and the first `amount` bytes.
pub read_binary-write_binary :
    (ref : ℤ) (content : Bytes) (amount : ℕ)
    → InInt ref
    → read_binary (write_binary ref content amount) ≡ (ref, take amount content)
read_binary-write_binary ref content amount h =
    let size : u32_of_int ref < 2 ^ 32 = u32_of_int-lt ref h in
    ap read_binary (write_binary_parts ref content amount h)
    ∙ read_binary-sized (hex8 (u32_of_int ref)) _ (length-hex8 _ (omega arith))
    ∙ ap (λ (n : ℕ). (int_of_u32 n, take (min (length content) amount) content))
        (read_hex-hex8 _ (omega arith))
    ∙ ap (λ z. (z, take (min (length content) amount) content)) (int_of_u32-u32_of_int ref h)
    ∙ ap (λ x. (ref, x)) (take-min content amount)
