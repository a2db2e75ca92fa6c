-- ===== src/HybridSink/Tests.antt =====
-- worker/hybrid_read_sink.cpp: a body in three pieces, and callbacks that keep what they get.
use minide.Base.{◌≡◌, refl, List, [], ◌∷◌, ◌++◌, Bytes, codes, length, arith}
use minide.Frame.Hex.{hex8, hex, hex_onto, pad}
use minide.HybridSink.Automaton.{Callbacks, handled, done, write_all, new_sink, data_phase}
use minide.HybridSink.Advance.{advance_by_table, advance_by_table-Advances}
use minide.HybridSink.Cuts.{concat, write_all-framed}

-- What came of the JSON part, of the data, and of failures.
abbrev kept : Callbacks (Bytes × Bytes)
kept = record {
  on_json = λ part w. handled (part, w.1);
  on_data = λ piece w. (w.0, w.1 ++ piece);
  on_expectation_failure = λ message w. (message, w.1);
}

abbrev three_pieces : List Bytes
three_pieces = codes "0x0000" ∷ codes "0002|{" ∷ codes "}data" ∷ []

write_all-framed_example :
    write_all kept
      (advance_by_table kept)
      three_pieces
      (new_sink (length (concat three_pieces)))
      ([], [])
    ≡ done
        (record {
          aux_buffer = [];
          json_size = 2;
          content_length = length (concat three_pieces);
          phase = data_phase;
        })
        (codes "{}", codes "data")
unfolding concat hex8 hex hex_onto pad
write_all-framed_example =
    write_all-framed kept (advance_by_table kept) (advance_by_table-Advances kept) ([], [])
      (codes "{}", []) refl (λ a b. refl) three_pieces (codes "{}") (codes "data") (ground arith)
      refl refl (ground arith)
