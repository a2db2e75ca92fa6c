-- ===== src/HybridSink/Cuts.antt =====
-- HybridSink: a body that comes in pieces.
use minide.Base.{
  ℕ, ◌+◌, ◌^◌, ◌%◌, ◌≤◌, ◌<◌, ◌≡◌, refl, sym, ap, ◌∙◌, inl, inr, false, List, [], ◌∷◌, ◌++◌, some,
  Bytes, codes, ltb, length, drop, arith, Bool-cases, append_assoc, append-nil, drop-append_le,
  drop_prefix, length-append,
}
use minide.Frame.Hex.{hex8, length-hex8}
use minide.HybridSink.Size.{stoll, stoll-hex8}
use minide.HybridSink.Automaton.{
  data_phase, Sink, Callbacks, handled, Advanced, Advances, Written, done, thrown, out_of_fuel,
  write, write_all, and_then, new_sink,
}
use minide.HybridSink.Settle.{
  sink_at, behind, behind_size, behind_separator, run-initial, run-size, run-separator,
}

∷-tail : {x y : ℕ} {xs ys : Bytes} → x ∷ xs ≡ y ∷ ys → xs ≡ ys
∷-tail e = cc e

unfoldable pub concat : List Bytes → Bytes
concat [] = []
concat (p ∷ ps) = p ++ concat ps

module _ {World : Type 0} (cb : Callbacks World) (advance : Sink → World → Advanced World)
    (adv : Advances cb advance) (n limit : ℕ) (part : Bytes) (w v : World)
    (takes : cb.on_json part w ≡ handled v) (size : length part ≡ n)
    (fits : (n + 11) % 2 ^ 64 ≤ limit) (no_data : cb.on_data [] v ≡ v)
    (pieces_of_data : (a b : Bytes) → cb.on_data b (cb.on_data a v) ≡ cb.on_data (a ++ b) v)
    (head : Bytes) (ten : length head ≡ 10) (reads : stoll head ≡ some n) where
  abbrev at_separator : Bytes → Written World
  at_separator = behind_separator cb advance adv n limit part w v takes size fits no_data

  abbrev at_size : Bytes → Written World
  at_size = behind_size cb advance adv n limit part w v takes size fits no_data

  abbrev at_all : Bytes → Written World
  at_all = behind cb advance adv n limit part w v takes size fits no_data

  write-separator :
      (a p r d : Bytes)
      → (a ++ p) ++ r ≡ part ++ d
      → and_then cb advance (at_separator a) (λ s u. write cb advance s u p) ≡ at_separator (a ++ p)
  unfolding behind_separator write
  write-separator a p r d e = elim (Bool-cases (ltb (length a) n)) [
    | inl short ↦
        rw short
          (run-separator cb advance adv n limit part w v takes size fits no_data 3 (a ++ p) r d e)
    | inr enough ↦
        let still : ltb (length (a ++ p)) n ≡ false = ground (arith, length-append a p) in
        rw (enough, still)
          (ap (done (sink_at cb advance adv n limit data_phase n [])) (
            pieces_of_data (drop n a) p
            ∙ ap (λ x. cb.on_data x v) (sym (drop-append_le n a p (ground arith)))))
  ]

  write-size :
      (a p r d : Bytes)
      → (a ++ p) ++ r ≡ b'|' ∷ (part ++ d)
      → and_then cb advance (at_size a) (λ s u. write cb advance s u p) ≡ at_size (a ++ p)
  unfolding behind_size write
  write-size [] p r d e = run-size cb advance adv n limit part w v takes size fits no_data 2 p r d e
  write-size (c ∷ a) p r d e = write-separator a p r d (∷-tail e)

  -- One more piece of the body, wherever the pieces before it have led.
  write-behind :
      (c p r d : Bytes)
      → (c ++ p) ++ r ≡ head ++ (b'|' ∷ (part ++ d))
      → and_then cb advance (at_all c) (λ s u. write cb advance s u p) ≡ at_all (c ++ p)
  unfolding behind write
  write-behind c p r d e = elim (Bool-cases (ltb (length c) 10)) [
    | inl short ↦ rw short (
        run-initial cb advance adv n limit part w v takes size fits no_data head ten reads (c ++ p)
          r d e)
    | inr enough ↦
        let still : ltb (length (c ++ p)) 10 ≡ false = ground (arith, length-append c p) in
        let long : 10 ≤ length c = ground arith in
        rw (enough, still)
          (write-size (drop 10 c) p r d (
              ap (λ x. x ++ r) (sym (drop-append_le 10 c p long))
              ∙ sym (drop-append_le 10 (c ++ p) r (omega (arith, length-append c p)))
              ∙ ap (drop 10) e
              ∙ drop_prefix head _ 10 ten)
            ∙ ap at_size (sym (drop-append_le 10 c p long)))
  ]

  and_then_done : (m : Written World) → and_then cb advance m (write_all cb advance []) ≡ m
  unfolding write_all
  and_then_done (done s u) = refl
  and_then_done (thrown s u) = refl
  and_then_done out_of_fuel = refl

  and_then_assoc :
      (m : Written World) (p : Bytes) (ps : List Bytes)
      → and_then cb advance m (write_all cb advance (p ∷ ps))
        ≡ and_then cb advance
            (and_then cb advance m (λ s u. write cb advance s u p))
            (write_all cb advance ps)
  unfolding write_all
  and_then_assoc (done s u) p ps = refl
  and_then_assoc (thrown s u) p ps = refl
  and_then_assoc out_of_fuel p ps = refl

  write_all-from :
      (ps : List Bytes) (c d : Bytes)
      → c ++ concat ps ≡ head ++ (b'|' ∷ (part ++ d))
      → and_then cb advance (at_all c) (write_all cb advance ps) ≡ at_all (c ++ concat ps)
  unfolding write_all concat
  write_all-from [] c d e = and_then_done (at_all c) ∙ ap at_all (sym (append-nil c))
  write_all-from (p ∷ ps) c d e =
      let whole : (c ++ p) ++ concat ps ≡ head ++ (b'|' ∷ (part ++ d)) =
        append_assoc c p (concat ps) ∙ e in
      and_then_assoc (at_all c) p ps
      ∙ ap (λ m. and_then cb advance m (write_all cb advance ps))
          (write-behind c p (concat ps) d whole)
      ∙ write_all-from ps (c ++ p) d whole
      ∙ ap at_all (append_assoc c p (concat ps))

  at_all-body :
      (d : Bytes)
      → at_all (head ++ (b'|' ∷ (part ++ d)))
        ≡ done (sink_at cb advance adv n limit data_phase n []) (cb.on_data d v)
  unfolding behind behind_size behind_separator
  at_all-body d =
      let long : ltb (length (head ++ (b'|' ∷ (part ++ d)))) 10 ≡ false =
        ground (arith, length-append head (b'|' ∷ (part ++ d))) in
      let enough : ltb (length (part ++ d)) n ≡ false = ground (arith, length-append part d) in
      rw (long, drop_prefix head (b'|' ∷ (part ++ d)) 10 ten, enough, drop_prefix part d n size)
        refl

  -- A body that is cut into pieces at any places comes to the JSON part's callback once and whole,
  -- and to the callback of the data as data that are together those behind it.
  pub write_all-done :
      (ps : List Bytes) (d : Bytes)
      → concat ps ≡ head ++ (b'|' ∷ (part ++ d))
      → write_all cb advance ps (new_sink limit) w
        ≡ done
            (record { aux_buffer = []; json_size = n; content_length = limit; phase = data_phase })
            (cb.on_data d v)
  unfolding behind
  write_all-done ps d e = write_all-from ps [] d e ∙ ap at_all e ∙ at_all-body d

module _ {World : Type 0} (cb : Callbacks World) (advance : Sink → World → Advanced World)
    (adv : Advances cb advance) (w v : World) (no_data : cb.on_data [] v ≡ v)
    (pieces_of_data : (a b : Bytes) → cb.on_data b (cb.on_data a v) ≡ cb.on_data (a ++ b) v) where
  -- A body of "0x", the size of its JSON part in eight digits, "|", that part and data, which is
  -- cut into pieces at any places and is as long as announced: the part, whose callback takes it,
  -- gets there whole, and then the callback of the data gets all of the data, if it takes data in
  -- pieces like at once.
  pub write_all-framed :
      (ps : List Bytes) (part content : Bytes)
      → length part < 2 ^ 32
      → cb.on_json part w ≡ handled v
      → concat ps ≡ codes "0x" ++ (hex8 (length part) ++ (b'|' ∷ (part ++ content)))
      → length (concat ps) < 2 ^ 63
      → write_all cb advance ps (new_sink (length (concat ps))) w
        ≡ done
            (record {
              aux_buffer = [];
              json_size = length part;
              content_length = length (concat ps);
              phase = data_phase;
            })
            (cb.on_data content v)
  write_all-framed ps part content small takes e short =
      write_all-done cb advance adv (length part) (length (concat ps)) part w v takes refl
        (fits e short) no_data pieces_of_data (codes "0x" ++ hex8 (length part)) (ten small)
        (stoll-hex8 (length part) small) ps content e
    where
      ten : length part < 2 ^ 32 → length (codes "0x" ++ hex8 (length part)) ≡ 10
      ten small = omega (arith, length-hex8 (length part) (omega arith))

      fits :
          concat ps ≡ codes "0x" ++ (hex8 (length part) ++ (b'|' ∷ (part ++ content)))
          → length (concat ps) < 2 ^ 63
          → (length part + 11) % 2 ^ 64 ≤ length (concat ps)
      fits e short = omega (
        arith,
        ap length e,
        length-hex8 (length part) (omega arith),
        length-append (hex8 (length part)) (b'|' ∷ (part ++ content)),
        length-append part content,
      )
