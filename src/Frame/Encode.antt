-- ===== src/Frame/Encode.antt =====
-- The frames as the code builds them, and the reading of a frame.
use minide.Base.{
  ℤ, pos, negsuc, ℕ, zero, suc, ◌+◌, ◌-◌, ◌^◌, ◌&&◌, [], ◌∷◌, ◌++◌, length, Bytes, codes, bytes_eq,
  if◌then◌else◌, leb, take, drop, replicate, Option, some, none,
}
use Prim.Native.Nat.{min}
use minide.Frame.Hex.{hex8, read_hex}

-- `FrontendUserSession::writeText`: what is handed to `write_text`.
unfoldable pub write_text : Bytes → Bytes
write_text txt = codes "0x" ++ (hex8 (length txt) ++ (b'|' ∷ txt))

-- `std::copy` of `src` to the place `offset` of a buffer.
unfoldable pub copy_to : Bytes → ℕ → Bytes → Bytes
copy_to buffer offset src = take offset buffer ++ (src ++ drop (offset + length src) buffer)

-- The bit pattern that `std::hex` prints of an `int`.
unfoldable pub u32_of_int : ℤ → ℕ
u32_of_int (pos n) = n
u32_of_int (negsuc n) = 2 ^ 32 - 1 - n

-- `FrontendUserSession::writeBinary`: what is handed to `write_binary`.
unfoldable pub write_binary : ℤ → Bytes → ℕ → Bytes
unfolding copy_to u32_of_int
write_binary ref content amount =
    let size = min (length content) amount in
    let decorated = replicate (size + 10) 0 in
    let ref_str = codes "0x" ++ hex8 (u32_of_int ref) in
    copy_to (copy_to decorated 0 ref_str) 10 (take size content)

-- `j[2 + i] = size[i]` for the eight `i`. Where `size` is longer its last digits are left off.
abbrev get_or : Bytes → ℕ → ℕ → ℕ
get_or [] i d = d
get_or (x ∷ xs) zero d = x
get_or (x ∷ xs) (suc i) d = get_or xs i d

abbrev set : Bytes → ℕ → ℕ → Bytes
set [] i v = []
set (x ∷ xs) zero v = v ∷ xs
set (x ∷ xs) (suc i) v = x ∷ set xs i v

-- The loop from round `i`, with `rounds` left.
unfoldable pub patch_size : ℕ → ℕ → Bytes → Bytes → Bytes
patch_size zero i size j = j
patch_size (suc rounds) i size j = patch_size rounds (i + 1) size (set j (2 + i) (get_or size i 0))

-- `StreamerBase::writeMessage`: all that goes into the producer for the head `json` and the data.
unfoldable pub write_message : Bytes → Bytes → Bytes
unfolding patch_size
write_message json payload =
    let j = codes "0x00000000|" ++ json in
    patch_size 8 0 (hex8 (length j - 11)) j ++ (payload ++ (b'\n' ∷ []))

-- The reading: the size, and the text and the bytes behind it where they are all there.
abbrev pub split_at : ℕ → Bytes → Option (Bytes × Bytes)
split_at n b = if leb n (length b) then some (take n b, drop n b) else none

unfoldable pub read_frame : Bytes → Option (Bytes × Bytes)
read_frame b =
    if bytes_eq (take 2 b) (codes "0x") && bytes_eq (take 1 (drop 10 b)) (b'|' ∷ [])
    then split_at (read_hex 0 (take 8 (drop 2 b))) (drop 11 b)
    else none
