-- ===== src/HybridSink.antt =====
-- worker/hybrid_read_sink.cpp and its header: a body of ten bytes of hexadecimal size, a separator,
-- that many bytes of JSON, and data, which arrives in pieces.
pub mod Size
pub mod Automaton
pub mod Settle
pub mod Cuts
pub mod Advance
pub mod Tests
