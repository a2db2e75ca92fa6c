-- ===== src/FileContent.antt =====
-- worker/workspace/stream_messages/file_content.cpp: a file is read into chunks.
pub mod Chunks
pub mod Tests
use minide.Base.{
  ℕ, zero, suc, Bool, true, false, not, ◌&&◌, Option, none, some, List, [], ◌∷◌, Bytes, codes, ltb,
  if◌then◌else◌, length, take, drop,
}

-- The loop over the bytes that are left; each round reads as many as asked for, since that many are
-- there. `none` where the rounds run out.
abbrev add_chunk : Bytes → Option (List Bytes) → Option (List Bytes)
add_chunk chunk none = none
add_chunk chunk (some chunks) = some (chunk ∷ chunks)

unfoldable pub read_chunks : ℕ → ℕ → Bytes → Option (List Bytes)
read_chunks rounds chunk_size [] = some []
read_chunks zero chunk_size (c ∷ cs) = none
read_chunks (suc rounds) chunk_size (c ∷ cs) =
    add_chunk (take chunk_size (c ∷ cs)) (read_chunks rounds chunk_size (drop chunk_size (c ∷ cs)))

-- The error text, or the chunks.
pub data FileLoad : Type 0 where
  load_error : Bytes → FileLoad
  loaded : Option (List Bytes) → FileLoad

-- `load`; the content is `none` where the file cannot be opened.
unfoldable pub load : Option Bytes → Bool → ℕ → ℕ → ℕ → FileLoad
unfolding read_chunks
load none force max force_max chunk_size = load_error (codes "cannot open file")
load (some content) force max force_max chunk_size =
    if not force && ltb max (length content)
    then load_error (codes "file exceeds maximum size for opening")
    else if ltb force_max (length content)
    then load_error (codes "file exceeds maximum size for opening (even when forced to)")
    else loaded (read_chunks (length content) chunk_size content)
