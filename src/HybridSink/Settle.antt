-- ===== src/HybridSink/Settle.antt =====
-- HybridSink: where the automaton comes to rest from each state.
use minide.Base.{
  ℕ, suc, ◌+◌, ◌^◌, ◌%◌, ◌≤◌, ◌≡◌, refl, sym, ap, ◌∙◌, inl, inr, false, none, some, [], ◌∷◌, ◌++◌,
  Bytes, codes, ltb, if◌then◌else◌, length, take, drop, arith, Bool-cases, take-append_le,
  take_prefix, drop_all, drop-append_le, drop_prefix,
}
use minide.HybridSink.Size.{stoll}
use minide.HybridSink.Automaton.{
  Phase, initial, size_complete, separator_complete, json_complete, data_phase, Sink, Callbacks,
  size_action, json_action, handled, next, Advanced, Advances, Written, done, run_automaton, enter,
  acted,
}

∷-injective_head : {x y : ℕ} {xs ys : Bytes} → x ∷ xs ≡ y ∷ ys → x ≡ y
∷-injective_head e = cc e

∷-injective_tail : {x y : ℕ} {xs ys : Bytes} → x ∷ xs ≡ y ∷ ys → xs ≡ ys
∷-injective_tail e = cc e

module _ {World : Type 0} (cb : Callbacks World) (advance : Sink → World → Advanced World)
    (adv : Advances cb advance) (n limit : ℕ) where
  abbrev pub sink_at : Phase → ℕ → Bytes → Sink
  sink_at phase size aux = record {
    aux_buffer = aux;
    json_size = size;
    content_length = limit;
    phase = phase;
  }

  -- One move, and then the rest of the run.
  run-moves :
      (fuel : ℕ) (s s' : Sink) (w w' : World) (t : Phase)
      → next s ≡ some t
      → enter cb t (record s { phase = t }) w ≡ acted s' w'
      → run_automaton cb advance (suc fuel) s w ≡ run_automaton cb advance fuel s' w'
  unfolding run_automaton
  run-moves fuel s s' w w' t e f = rw (adv.moves s s' w w' t e f) refl

  run-stays :
      (fuel : ℕ) (s : Sink) (w : World)
      → next s ≡ none
      → run_automaton cb advance (suc fuel) s w ≡ done s w
  unfolding run_automaton
  run-stays fuel s w e = rw (adv.stays s w e) refl

  -- The JSON part, which the callback takes, and data, which may be taken in pieces.
  module _ (part : Bytes) (w v : World) (takes : cb.on_json part w ≡ handled v)
      (size : length part ≡ n) (fits : (n + 11) % 2 ^ 64 ≤ limit)
      (no_data : cb.on_data [] v ≡ v) where
    -- Where the sink is when the separator and `a` have come.
    unfoldable pub behind_separator : Bytes → Written World
    behind_separator a =
        if ltb (length a) n
        then done (sink_at separator_complete n a) w
        else done (sink_at data_phase n []) (cb.on_data (drop n a) v)

    take-part : (a r d : Bytes) → a ++ r ≡ part ++ d → n ≤ length a → take n a ≡ part
    take-part a r d e l = sym (take-append_le n a r l) ∙ ap (take n) e ∙ take_prefix part d n size

    passed_on :
        (a : Bytes)
        → n ≤ length a
        → (if ltb n (length a) then cb.on_data (drop n a) v else v) ≡ cb.on_data (drop n a) v
    passed_on a l = elim (Bool-cases (ltb n (length a))) [
      | inl more ↦ rw more refl
      | inr all ↦ rw (all, drop_all n a (ground arith)) (sym no_data)
    ]

    json-acted :
        (a r d : Bytes)
        → a ++ r ≡ part ++ d
        → n ≤ length a
        → enter cb json_complete (sink_at json_complete n a) w
          ≡ acted (sink_at json_complete n []) (cb.on_data (drop n a) v)
    unfolding enter
    json-acted a r d e l =
        ap (λ x. json_action cb (sink_at json_complete n a) (cb.on_json x w)) (take-part a r d e l)
        ∙ ap (json_action cb (sink_at json_complete n a)) takes
        ∙ ap (λ x. acted (sink_at json_complete n []) x) (passed_on a l)

    pub run-separator :
        (fuel : ℕ) (a r d : Bytes)
        → a ++ r ≡ part ++ d
        → run_automaton cb advance (suc (suc (suc fuel))) (sink_at separator_complete n a) w
          ≡ behind_separator a
    unfolding behind_separator enter
    run-separator fuel a r d e = elim (Bool-cases (ltb (length a) n)) [
      | inl short ↦ rw short (run-stays (suc (suc fuel)) _ w (ground arith))
      | inr enough ↦ rw enough (
          run-moves (suc (suc fuel)) _ _ w _ json_complete (ground arith)
            (json-acted a r d e (ground arith))
          ∙ run-moves (suc fuel) _ _ _ _ data_phase refl refl
          ∙ run-stays fuel _ _ refl)
    ]

    -- Where it is when the ten bytes of the size and `a` have come.
    unfoldable pub behind_size : Bytes → Written World
    unfolding behind_separator
    behind_size [] = done (sink_at size_complete n []) w
    behind_size (c ∷ a) = behind_separator a

    pub run-size :
        (fuel : ℕ) (a r d : Bytes)
        → a ++ r ≡ b'|' ∷ (part ++ d)
        → run_automaton cb advance (suc (suc (suc (suc fuel)))) (sink_at size_complete n a) w
          ≡ behind_size a
    unfolding behind_size enter
    run-size fuel [] r d e = run-stays (suc (suc (suc fuel))) _ w refl
    run-size fuel (c ∷ a) r d e =
        run-moves (suc (suc (suc fuel))) _ _ w w separator_complete (rw (∷-injective_head e) refl)
          refl
        ∙ run-separator fuel a r d (∷-injective_tail e)

    -- Where it is when `c` has come.
    unfoldable pub behind : Bytes → Written World
    unfolding behind_size
    behind c = if ltb (length c) 10 then done (sink_at initial 0 c) w else behind_size (drop 10 c)

    module _ (head : Bytes) (ten : length head ≡ 10) (reads : stoll head ≡ some n) where
      size-acted :
          (c r rest : Bytes)
          → c ++ r ≡ head ++ rest
          → 10 ≤ length c
          → enter cb size_complete (sink_at size_complete 0 c) w
            ≡ acted (sink_at size_complete n (drop 10 c)) w
      unfolding enter
      size-acted c r rest e l =
          let fine : ltb limit ((n + 11) % 2 ^ 64) ≡ false = ground arith in
          let front =
            sym (take-append_le 10 c r l) ∙ ap (take 10) e ∙ take_prefix head rest 10 ten in
          ap (size_action cb (sink_at size_complete 0 c) w) (ap stoll front ∙ reads)
          ∙ ap
              (λ b. acted (sink_at size_complete n (drop 10 c)) (
                if b
                then cb.on_expectation_failure
                    (codes "Content-Length not large enough to fit supposed json data") w
                else w))
              fine

      pub run-initial :
          (c r d : Bytes)
          → c ++ r ≡ head ++ (b'|' ∷ (part ++ d))
          → run_automaton cb advance 6 (sink_at initial 0 c) w ≡ behind c
      unfolding behind
      run-initial c r d e = elim (Bool-cases (ltb (length c) 10)) [
        | inl short ↦ rw short (run-stays 5 _ w (ground arith))
        | inr enough ↦ rw enough (
            run-moves 5 _ _ w w size_complete (ground arith)
              (size-acted c r (b'|' ∷ (part ++ d)) e (ground arith))
            ∙ run-size 1 (drop 10 c) r d (cut c r d e (ground arith)))
      ]
        where
          cut :
              (c r d : Bytes)
              → c ++ r ≡ head ++ (b'|' ∷ (part ++ d))
              → 10 ≤ length c
              → drop 10 c ++ r ≡ b'|' ∷ (part ++ d)
          cut c r d e l = sym (drop-append_le 10 c r l) ∙ ap (drop 10) e ∙ drop_prefix head _ 10 ten
