-- ===== src/FileWriter.antt =====
-- backend/src/backend/server/writer.cpp: a file is sent in binary frames of 4096 bytes, each when
-- the one before it is written, and an empty frame ends it.
pub mod Chunks
pub mod Tests
use minide.Base.{
  ℕ, zero, suc, ◌+◌, Bool, true, false, List, [], ◌∷◌, ◌++◌, Bytes, ℤ, length, take, drop, ◌==◌,
  if◌then◌else◌,
}
use minide.Frame.Encode.{write_binary}

abbrev pub buffer_size : ℕ
buffer_size = 4096

-- `rest` is what the reader has not read yet, `buffer` what stands in the buffer.
pub record FileWriter : Type 0 where
  pub ref : ℤ
  pub rest : Bytes
  pub buffer : Bytes

-- `reader_.read`: up to 4096 bytes go over the front of the buffer, and `gcount` is their number.
unfoldable pub read : FileWriter → FileWriter × ℕ
read w =
    let got = take buffer_size w.rest in
    (
      record w { rest = drop buffer_size w.rest; buffer = got ++ drop (length got) w.buffer },
      length got,
    )

-- What one call of `writeBinary` gets: the content, and the amount to send of it.
pub record Sent : Type 0 where
  pub content : Bytes
  pub amount : ℕ

abbrev pub frame : ℤ → Sent → Bytes
frame ref s = write_binary ref s.content s.amount

-- `write` and the callbacks that follow it. The list says, for each `session_.lock()` in turn,
-- whether the session is still there; behind its end it is gone.
abbrev close : List Bool → List Sent
close (true ∷ alive) = record { content = []; amount = 0 } ∷ []
close _ = []

unfoldable pub write : FileWriter → List Bool → List Sent
unfolding read
write w (true ∷ alive) =
    let (w', read_count) = read w in
    record { content = w'.buffer; amount = read_count }
    ∷ elim (read_count == buffer_size) [ true ↦ write w' alive | false ↦ close alive ]
write w _ = []

-- The bytes that the frames carry.
unfoldable pub delivered : List Sent → Bytes
delivered [] = []
delivered (s ∷ ss) = take s.amount s.content ++ delivered ss
