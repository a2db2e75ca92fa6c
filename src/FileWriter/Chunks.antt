-- ===== src/FileWriter/Chunks.antt =====
-- FileWriter: what the frames carry, and how many bytes each of them.
use Prim.Native.Nat.{min}
use minide.Base.{
  ℕ, zero, suc, ◌+◌, ◌-◌, ◌*◌, ◌/◌, ◌%◌, ◌≤◌, ◌<◌, ◌≡◌, refl, sym, ap, ◌∙◌, inl, inr, Bool, true,
  false, List, [], ◌∷◌, ◌++◌, map, arith, length, take, replicate, Bytes, ◌==◌, ==_iff, Bool-cases,
  append-nil, append_assoc, length-take, length-drop, take-append-drop, take_prefix,
}
use minide.FileWriter.{FileWriter, Sent, read, write, close, delivered, buffer_size}

-- The frame of one read carries what was read.
delivered-read : (w : FileWriter) → take (read w).1 (read w).0.buffer ≡ take buffer_size w.rest
unfolding read
delivered-read w = take_prefix (take buffer_size w.rest) _ _ refl

read_count_lem : (w : FileWriter) → (read w).1 ≡ min buffer_size (length w.rest)
unfolding read
read_count_lem w = length-take buffer_size w.rest

length-rest-read : (w : FileWriter) → length (read w).0.rest ≡ length w.rest - buffer_size
unfolding read
length-rest-read w = length-drop buffer_size w.rest

write_full :
    (w : FileWriter) (alive : List Bool)
    → ((read w).1 == buffer_size) ≡ true
    → write w (true ∷ alive)
      ≡ record { content = (read w).0.buffer; amount = (read w).1 } ∷ write (read w).0 alive
unfolding write
write_full w alive e = rw (e, write)

write_short :
    (w : FileWriter) (alive : List Bool)
    → ((read w).1 == buffer_size) ≡ false
    → write w (true ∷ alive)
      ≡ record { content = (read w).0.buffer; amount = (read w).1 } ∷ close alive
unfolding write
write_short w alive e = rw (e, write)

delivered-close : (alive : List Bool) → delivered (close alive) ≡ []
unfolding delivered
delivered-close [] = refl
delivered-close (true ∷ alive) = refl
delivered-close (false ∷ alive) = refl

read-splits : (w : FileWriter) → take buffer_size w.rest ++ (read w).0.rest ≡ w.rest
unfolding read
read-splits w = take-append-drop buffer_size w.rest

delivered-frame :
    (w : FileWriter) (ss : List Sent) (left : Bytes)
    → delivered (record { content = (read w).0.buffer; amount = (read w).1 } ∷ ss) ++ left
      ≡ take buffer_size w.rest ++ (delivered ss ++ left)
unfolding delivered
delivered-frame w ss left =
    ap (λ x. (x ++ delivered ss) ++ left) (delivered-read w)
    ∙ append_assoc (take buffer_size w.rest) (delivered ss) left

-- Whenever the session ends, the frames carry a front part of the file.
pub write-prefix :
    (w : FileWriter) (alive : List Bool)
    → (left : Bytes) × (delivered (write w alive) ++ left ≡ w.rest)
write-prefix w [] = (w.rest, unfold write delivered in refl)
write-prefix w (false ∷ alive) = (w.rest, unfold write delivered in refl)
write-prefix w (true ∷ alive) = elim (Bool-cases ((read w).1 == buffer_size)) [
  | inl full ↦
      let (left, e) = write-prefix (read w).0 alive in
      (
        left,
        ap (λ ss. delivered ss ++ left) (write_full w alive full)
            ∙ delivered-frame w (write (read w).0 alive) left
            ∙ ap (◌++◌ (take buffer_size w.rest)) e
            ∙ read-splits w,
      )
  | inr short ↦ (
    (read w).0.rest,
    ap (λ ss. delivered ss ++ (read w).0.rest) (write_short w alive short)
        ∙ delivered-frame w (close alive) (read w).0.rest
        ∙ ap (λ x. take buffer_size w.rest ++ (x ++ (read w).0.rest)) (delivered-close alive)
        ∙ read-splits w,
  )
]

abbrev pub amounts : List Sent → List ℕ
amounts = map (λ s. s.amount)

amounts_of :
    (q r n : ℕ) (w : FileWriter)
    → length w.rest ≡ q * buffer_size + r
    → r < buffer_size
    → q + 2 ≤ n
    → amounts (write w (replicate n true)) ≡ replicate q buffer_size ++ (r ∷ 0 ∷ [])
amounts_of zero r (suc (suc n)) w e lt h =
    let count : (read w).1 ≡ r = omega (arith, read_count_lem w) in
    ap amounts (write_short w (replicate (suc n) true) (ground arith))
    ∙ ap (λ (k : ℕ). k ∷ 0 ∷ []) count
amounts_of (suc q) r (suc n) w e lt h =
    let count : (read w).1 ≡ buffer_size = omega (arith, read_count_lem w) in
    ap amounts (write_full w (replicate n true) (ground arith)) ∙ (λ i.
      count i ∷ amounts_of q r n (read w).0 (omega (arith, length-rest-read w)) lt (omega arith) i)
amounts_of zero r zero w e lt h = absurd (omega arith)
amounts_of zero r (suc zero) w e lt h = absurd (omega arith)
amounts_of (suc q) r zero w e lt h = absurd (omega arith)

-- A file is sent in floor(length/4096) frames of 4096 bytes, one of the remaining length mod 4096
-- bytes and an empty one, and then the writer stops, however much longer the session lives.
pub amounts-write :
    (n : ℕ) (w : FileWriter)
    → length w.rest / buffer_size + 2 ≤ n
    → amounts (write w (replicate n true))
      ≡ replicate (length w.rest / buffer_size) buffer_size
        ++ (length w.rest % buffer_size ∷ 0 ∷ [])
amounts-write n w h = amounts_of _ _ n w (omega arith) (omega arith) h

fewer_rounds :
    (n : ℕ) (w : FileWriter)
    → length w.rest / buffer_size + 1 ≤ suc n
    → ((read w).1 == buffer_size) ≡ true
    → length (read w).0.rest / buffer_size + 1 ≤ n
fewer_rounds n w h full =
    let count : (read w).1 ≡ buffer_size = (==_iff _ _).0 full in
    omega (arith, length-rest-read w, read_count_lem w)

nil_of_length : (xs : Bytes) → length xs ≡ 0 → xs ≡ []
nil_of_length [] e = refl
nil_of_length (x ∷ xs) e = absurd (omega arith)

none_left : (w : FileWriter) → ((read w).1 == buffer_size) ≡ false → (read w).0.rest ≡ []
none_left w short = nil_of_length _ (ground (arith, length-rest-read w, read_count_lem w))

-- A session that takes one frame more than the full ones has been sent the whole file.
pub delivered-write :
    (n : ℕ) (w : FileWriter)
    → length w.rest / buffer_size + 1 ≤ n
    → delivered (write w (replicate n true)) ≡ w.rest
delivered-write zero w h = absurd (omega arith)
delivered-write (suc n) w h = elim (Bool-cases ((read w).1 == buffer_size)) [
  | inl full ↦
      ap delivered (write_full w (replicate n true) full)
      ∙ sym (append-nil _)
      ∙ delivered-frame w _ []
      ∙ ap (◌++◌ (take buffer_size w.rest))
          (append-nil _ ∙ delivered-write n (read w).0 (fewer_rounds n w h full))
      ∙ read-splits w
  | inr short ↦
      ap delivered (write_short w (replicate n true) short)
      ∙ sym (append-nil _)
      ∙ delivered-frame w _ []
      ∙ ap (◌++◌ (take buffer_size w.rest))
          (append-nil _ ∙ delivered-close (replicate n true) ∙ sym (none_left w short))
      ∙ read-splits w
]
