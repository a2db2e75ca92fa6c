-- ===== src/StreamParser/Refine.antt =====
-- StreamParser: refinement of the parser with no memo, call by call and over a whole session.
use minide.Base.{
  take_all, ℕ, ◌≡◌, refl, ap, ◌∙◌, subst, Bool, true, false, Option, none, some, List, [], ◌∷◌,
  ◌++◌, arith, length, drop, Bytes, if◌then◌else◌,
}
use native.Mathlib.Nat.{zero-add}
use minide.StreamParser.Scan.{
  FindState, StreamParser, fresh, initial, scan, consume_object, feed, pop_message, Popped, pop_at,
}
use minide.StreamParser.Resume.{
  Resumable, initial-Resumable, feed-Resumable, scan-Resumable, scan_offset, find_end, pop_plain,
  plain_at,
}

abbrev position_of : FindState × Bool → Option ℕ
position_of r = if r.1 then some r.0.offset else none

module _ {ℓ} {J : Type ℓ} (parse : Bytes → Option J) where
  pop_message-scan :
      (p : StreamParser) {r : FindState × Bool}
      → scan p.find_state (drop p.find_state.offset p.buffer) ≡ r
      → pop_message parse p ≡ pop_at parse (record p { find_state = r.0 }) (position_of r)
  unfolding pop_message
  pop_message-scan p e =
      ap (λ (r : FindState × Bool). pop_at parse (record p { find_state = r.0 }) (position_of r)) e

  pop_plain-scan :
      (b : Bytes) {r : FindState × Bool}
      → scan fresh b ≡ r
      → pop_plain parse b ≡ plain_at parse b (position_of r)
  unfolding pop_plain find_end
  pop_plain-scan b e = ap (λ (r : FindState × Bool). plain_at parse b (position_of r)) e

  -- One call: the same bytes are left and the same result comes back, and the memo stays right.
  pub record Agrees (r : StreamParser × Popped J) (t : Bytes × Popped J) : Type ℓ where
    pub same_buffer : r.0.buffer ≡ t.0
    pub same_result : r.1 ≡ t.1
    pub resumable : Resumable r.0

  position-Agrees :
      (p : StreamParser) (s : FindState) (found : Bool)
      → scan fresh p.buffer ≡ (s, found)
      → Agrees
          (pop_at parse (record p { find_state = s }) (position_of (s, found)))
          (plain_at parse p.buffer (position_of (s, found)))
  unfolding consume_object scan
  position-Agrees p s true e = record {
    same_buffer = refl;
    same_result = refl;
    resumable = record { within = omega arith; scanned = refl };
  }
  position-Agrees p s false e =
      let read : s.offset ≡ length p.buffer = scan_offset fresh p.buffer e ∙ zero-add _ in
      record {
        same_buffer = refl;
        same_result = refl;
        resumable = record {
          within = omega arith;
          scanned = rw (take_all s.offset p.buffer (omega arith)) e;
        };
      }

  pop_message-Agrees :
      (p : StreamParser) → Resumable p → Agrees (pop_message parse p) (pop_plain parse p.buffer)
  pop_message-Agrees p v =
      let r = scan fresh p.buffer in
      rw (pop_message-scan p (scan-Resumable p v), pop_plain-scan p.buffer refl)
        (position-Agrees p r.0 r.1 refl)

-- What a session does with its parser.
pub data Call : Type 0 where
  feeds : Bytes → Call
  pops : Call

module _ {ℓ} {J : Type ℓ} (parse : Bytes → Option J) where
  -- The results of the pops, in order, and what is left.
  unfoldable pub run : StreamParser → List Call → Bytes × List (Popped J)
  run p [] = (p.buffer, [])
  run p (feeds text ∷ cs) = run (feed p text) cs
  run p (pops ∷ cs) = let (p', m) = pop_message parse p in let (b, ms) = run p' cs in (b, m ∷ ms)

  unfoldable pub run_plain : Bytes → List Call → Bytes × List (Popped J)
  run_plain b [] = (b, [])
  run_plain b (feeds text ∷ cs) = run_plain (b ++ text) cs
  run_plain b (pops ∷ cs) =
      let (b', m) = pop_plain parse b in let (b'', ms) = run_plain b' cs in (b'', m ∷ ms)

  run-eq-run_plain :
      (cs : List Call) (p : StreamParser) (b : Bytes)
      → Resumable p
      → p.buffer ≡ b
      → run p cs ≡ run_plain b cs
  unfolding run run_plain
  run-eq-run_plain [] p b v e = ap (λ (x : Bytes). (x, [])) e
  run-eq-run_plain (feeds text ∷ cs) p b v e =
      run-eq-run_plain cs (feed p text) (b ++ text) (feed-Resumable p text v)
        (unfold feed in ap (λ (x : Bytes). x ++ text) e)
  run-eq-run_plain (pops ∷ cs) p b v e =
      let a : Agrees parse (pop_message parse p) (pop_plain parse b) =
        subst (λ x. Agrees parse (pop_message parse p) (pop_plain parse x)) e
          (pop_message-Agrees parse p v) in
      let rest : run (pop_message parse p).0 cs ≡ run_plain (pop_plain parse b).0 cs =
        run-eq-run_plain cs _ _ a.resumable a.same_buffer in
      λ i. ((rest i).0, a.same_result i ∷ (rest i).1)

  -- Every sequence of feeds and pops on a fresh parser, with the memorised scan state, gives the
  -- results and leaves the bytes of a parser that scans its whole buffer anew at each pop.
  pub run-refines-run_plain : (cs : List Call) → run initial cs ≡ run_plain [] cs
  run-refines-run_plain cs = run-eq-run_plain cs initial [] initial-Resumable refl
