-- ===== src/Frame/Tests.antt =====
-- Frames: the theorems at small texts.
use minide.Base.{◌≡◌, ◌++◌, some, arith, codes}
use minide.Frame.Encode.{write_text, write_message, read_frame}
use minide.Frame.RoundTrip.{read_frame-write_text, write_message-eq-write_text}

read_frame-write_text_example :
    read_frame (write_text (codes "{}") ++ codes "0x") ≡ some (codes "{}", codes "0x")
read_frame-write_text_example = read_frame-write_text (codes "{}") (codes "0x") (omega arith)

write_message-eq-write_text_example :
    write_message (codes "{}") (codes "data") ≡ write_text (codes "{}") ++ codes "data\n"
write_message-eq-write_text_example =
    write_message-eq-write_text (codes "{}") (codes "data") (omega arith)
