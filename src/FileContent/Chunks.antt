-- ===== src/FileContent/Chunks.antt =====
-- FileContent: the chunks of a file, and when there are none.
use minide.Base.{
  ℕ, zero, suc, ◌≤◌, ◌<◌, ◌≡◌, refl, ap, ◌∙◌, Bool, false, not, ◌&&◌, none, some, List, [], ◌∷◌,
  ◌++◌, Bytes, ltb, length, take, drop, arith, All, length-take, length-drop, take-append-drop,
}
use minide.FileContent.{read_chunks, load, loaded, add_chunk}
use minide.HybridSink.Cuts.{concat}

abbrev IsChunk : ℕ → Bytes → Type 0
IsChunk size chunk = (0 < length chunk) × (length chunk ≤ size)

-- The chunks of a content: they make it up, and each has a byte and no more than the size.
pub record IsCut (size : ℕ) (content : Bytes) (chunks : List Bytes) : Type 0 where
  pub together : concat chunks ≡ content
  pub within : All (IsChunk size) chunks

read_chunks-IsCut :
    (rounds size : ℕ) (content : Bytes)
    → 0 < size
    → length content ≤ rounds
    → (chunks : List Bytes) × (read_chunks rounds size content ≡ some chunks)
      × IsCut size content chunks
unfolding read_chunks concat
read_chunks-IsCut rounds size [] p h = ([], refl, record { together = refl; within = tt })
read_chunks-IsCut zero size (c ∷ cs) p h = absurd (omega arith)
read_chunks-IsCut (suc rounds) size (c ∷ cs) p h =
    let (chunks, read, cut) =
      read_chunks-IsCut rounds size (drop size (c ∷ cs)) p
        (omega (arith, length-drop size (c ∷ cs))) in
    (
      take size (c ∷ cs) ∷ chunks,
      ap (add_chunk (take size (c ∷ cs))) read,
      record {
        together = ap (λ r. take size (c ∷ cs) ++ r) cut.together ∙ take-append-drop size (c ∷ cs);
        within = (
          (omega (arith, length-take size (c ∷ cs)), omega (arith, length-take size (c ∷ cs))),
          cut.within,
        );
      },
    )

-- A file within the limits is read to its end when the chunk size is positive, into chunks that
-- together are its content, each with at least one byte and not above the chunk size.
pub load-IsCut :
    (content : Bytes) (force : Bool) (max force_max size : ℕ)
    → 0 < size
    → (not force && ltb max (length content)) ≡ false
    → length content ≤ force_max
    → (chunks : List Bytes) × (load (some content) force max force_max size ≡ loaded (some chunks))
      × IsCut size content chunks
unfolding load
load-IsCut content force max force_max size p h l =
    let (chunks, read, cut) = read_chunks-IsCut (length content) size content p (omega arith) in
    let fits : ltb force_max (length content) ≡ false = ground arith in
    (chunks, rw (h, fits, read) refl, cut)

-- With chunks of no bytes the loop has no end, whatever the number of rounds.
pub read_chunks-endless : (rounds c : ℕ) (cs : Bytes) → read_chunks rounds 0 (c ∷ cs) ≡ none
unfolding read_chunks
read_chunks-endless zero c cs = refl
read_chunks-endless (suc rounds) c cs = ap (add_chunk []) (read_chunks-endless rounds c cs)
