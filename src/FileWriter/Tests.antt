-- ===== src/FileWriter/Tests.antt =====
-- FileWriter: the theorems at a small file.
use minide.Base.{◌≡◌, true, [], ◌∷◌, arith, codes, pos}
use minide.FileWriter.{FileWriter, write}
use minide.FileWriter.Chunks.{amounts, amounts-write}

abbrev small : FileWriter
small = record { ref = pos 7; rest = codes "hello"; buffer = [] }

amounts-write_example : amounts (write small (true ∷ true ∷ true ∷ [])) ≡ 5 ∷ 0 ∷ []
amounts-write_example = amounts-write 3 small (omega arith)
