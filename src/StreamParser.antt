-- ===== src/StreamParser.antt =====
-- backend/src/backend/server/stream/stream_parser.cpp and its header.
pub mod Scan
pub mod Resume
pub mod Refine
pub mod Text
pub mod Framing
pub mod Tests
