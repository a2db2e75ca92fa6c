-- ===== src/FileContent/Tests.antt =====
-- worker/workspace/stream_messages/file_content.cpp: five bytes in chunks of two.
use minide.Base.{◌≡◌, List, Bytes, false, refl, some, codes, arith}
use minide.FileContent.{load, loaded}
use minide.FileContent.Chunks.{IsCut, load-IsCut}

load-IsCut_example :
    (chunks : List Bytes) × (load (some (codes "hello")) false 100 200 2 ≡ loaded (some chunks))
    × IsCut 2 (codes "hello") chunks
load-IsCut_example = load-IsCut (codes "hello") false 100 200 2 (ground arith) refl (ground arith)
