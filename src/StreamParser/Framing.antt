-- ===== src/StreamParser/Framing.antt =====
-- StreamParser: a stream of objects, however it is cut into pieces, comes out object by object.
use minide.Base.{
  ℕ, ◌+◌, ◌≡◌, refl, sym, ap, ◌∙◌, Bool, true, Option, none, some, List, [], ◌∷◌, ◌++◌, arith,
  length, Bytes, if◌then◌else◌, All, append_assoc, append-nil, map, length-append, take_prefix,
  drop_prefix,
}
use minide.StreamParser.Scan.{FindState, initial, scan, is_space, skip_space, parsed}
use minide.StreamParser.Resume.{find_end, pop_plain, plain_at}
use minide.StreamParser.Refine.{Call, feeds, pops, run, run_plain, run-refines-run_plain}
use minide.StreamParser.Text.{
  Inside, IsText, object_bytes, inside_bytes, at_depth, scan_plain, scan_open, scan_inside,
  scan_last,
}

abbrev pub AreSpaces : Bytes → Type 0
AreSpaces = All (λ c. is_space c ≡ true)

scan_spaces :
    (ws : Bytes) (n m : ℕ) (rest : Bytes)
    → AreSpaces ws
    → m ≡ n + length ws
    → scan (at_depth 0 n) (ws ++ rest) ≡ scan (at_depth 0 m) rest
scan_spaces [] n m rest h e = ap (λ (k : ℕ). scan (at_depth 0 k) rest) (omega arith)
scan_spaces (c ∷ ws) n m rest h e =
    scan_plain 0 n (n + 1) c _ (ground arith) refl ∙ scan_spaces ws (n + 1) m rest h.1 (omega arith)

find_end_object :
    (ws : Bytes) (t : Inside) (rest : Bytes)
    → AreSpaces ws
    → IsText t
    → find_end (ws ++ (object_bytes t ++ rest)) ≡ some (length ws + 1 + length (inside_bytes t))
unfolding find_end object_bytes
find_end_object ws t rest hw ht =
    ap (λ (r : FindState × Bool). if r.1 then some r.0.offset else none)
      (scan_spaces ws 0 (length ws) _ hw (omega arith)
        ∙ ap (λ x. scan (at_depth 0 (length ws)) (b'{' ∷ x)) (append_assoc (inside_bytes t) _ rest)
        ∙ scan_open 0 (length ws) _
        ∙ scan_inside t 0 (length ws + 1) _ _ ht refl
        ∙ scan_last _ rest)

skip_space-object :
    (ws : Bytes) (t : Inside) → AreSpaces ws → skip_space (ws ++ object_bytes t) ≡ object_bytes t
unfolding skip_space object_bytes
skip_space-object [] t h = refl
skip_space-object (c ∷ ws) t h = rw (h.0, skip_space) (skip_space-object ws t h.1)

length-object :
    (ws : Bytes) (t : Inside)
    → length (ws ++ object_bytes t) ≡ length ws + 1 + length (inside_bytes t) + 1
unfolding object_bytes
length-object ws t =
    omega (arith, length-append ws (object_bytes t), length-append (inside_bytes t) (b'}' ∷ []))

module _ {ℓ} {J : Type ℓ} (parse : Bytes → Option J) where
  -- The first object is cut out of the buffer exactly, blanks in front of it are dropped, and what
  -- follows it stays.
  pop_plain-object :
      (ws : Bytes) (t : Inside) (rest : Bytes)
      → AreSpaces ws
      → IsText t
      → pop_plain parse (ws ++ (object_bytes t ++ rest))
        ≡ (rest, parsed parse (parse (object_bytes t)))
  unfolding pop_plain
  pop_plain-object ws t rest hw ht =
      let size : length (ws ++ object_bytes t) ≡ length ws + 1 + length (inside_bytes t) + 1 =
        length-object ws t in
      ap (plain_at parse (ws ++ (object_bytes t ++ rest))) (find_end_object ws t rest hw ht)
      ∙ rw (
        ← append_assoc ws (object_bytes t) rest,
        take_prefix _ rest _ size,
        drop_prefix _ rest _ size,
        skip_space-object ws t hw,
      )

-- Objects with the blanks in front of them.
abbrev pub stream : List (Bytes × Inside) → Bytes
stream [] = []
stream ((ws, t) ∷ ms) = ws ++ (object_bytes t ++ stream ms)

abbrev pub AreMessages : List (Bytes × Inside) → Type 0
AreMessages [] = Unit {0}
AreMessages ((ws, t) ∷ ms) = AreSpaces ws × IsText t × AreMessages ms

-- The pieces in which a stream arrives, put together.
abbrev pub joined : List Bytes → Bytes
joined [] = []
joined (c ∷ cs) = c ++ joined cs

abbrev pub pop_for_each : List (Bytes × Inside) → List Call
pop_for_each = map (λ m. pops)

module _ {ℓ} {J : Type ℓ} (parse : Bytes → Option J) where
  run_plain-feeds :
      (chunks : List Bytes) (b : Bytes) (cs : List Call)
      → run_plain parse b (map feeds chunks ++ cs) ≡ run_plain parse (b ++ joined chunks) cs
  unfolding run_plain
  run_plain-feeds [] b cs = ap (λ x. run_plain parse x cs) (sym (append-nil b))
  run_plain-feeds (c ∷ chunks) b cs =
      run_plain-feeds chunks (b ++ c) cs
      ∙ ap (λ x. run_plain parse x cs) (append_assoc b c (joined chunks))

  run_plain-stream :
      (ms : List (Bytes × Inside)) (rest : Bytes)
      → AreMessages ms
      → run_plain parse (stream ms ++ rest) (pop_for_each ms)
        ≡ (rest, map (λ m. parsed parse (parse (object_bytes m.1))) ms)
  unfolding run_plain
  run_plain-stream [] rest h = refl
  run_plain-stream ((ws, t) ∷ ms) rest h =
      let regroup =
        append_assoc ws (object_bytes t ++ stream ms) rest
        ∙ ap (◌++◌ ws) (append_assoc (object_bytes t) (stream ms) rest) in
      rw (
        regroup,
        pop_plain-object parse ws t (stream ms ++ rest) h.0 h.1,
        run_plain-stream ms rest h.2,
      )

  -- Whenever objects with balanced braces, each behind blanks, arrive cut into pieces at any
  -- places, with an unfinished rest behind them, as many pops as there are objects hand each
  -- object's bytes to json::parse, in order, and leave the rest in the buffer.
  pub run-stream :
      (chunks : List Bytes) (ms : List (Bytes × Inside)) (rest : Bytes)
      → AreMessages ms
      → joined chunks ≡ stream ms ++ rest
      → run parse initial (map feeds chunks ++ pop_for_each ms)
        ≡ (rest, map (λ m. parsed parse (parse (object_bytes m.1))) ms)
  run-stream chunks ms rest h e =
      run-refines-run_plain parse (map feeds chunks ++ pop_for_each ms)
      ∙ run_plain-feeds chunks [] (pop_for_each ms)
      ∙ ap (λ b. run_plain parse b (pop_for_each ms)) e
      ∙ run_plain-stream ms rest h
