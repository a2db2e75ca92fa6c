-- ===== src/StreamParser/Tests.antt =====
-- StreamParser: runs on concrete input, and the theorems at such input.
use minide.Base.{◌≡◌, refl, Option, some, List, [], ◌∷◌, ◌++◌, map, arith, Bytes, codes}
use minide.StreamParser.Scan.{initial, scan, round, feed, pop_message, message, nothing}
use minide.StreamParser.Refine.{Call, feeds, pops, run, run_plain, run-refines-run_plain}
use minide.StreamParser.Text.{Inside, end, plain, quoted, braced, raw, escaped, object_bytes}
use minide.StreamParser.Framing.{pop_for_each, run-stream}

-- A parser of JSON that takes every text as it is.
abbrev keep : Bytes → Option Bytes
keep b = some b

abbrev history : List Call
history = feeds (codes " {\"a\":\"}") ∷ pops ∷ feeds (codes "\"}{}") ∷ pops ∷ pops ∷ pops ∷ []

run-history :
    run keep initial history
    ≡ ([], nothing ∷ message (codes "{\"a\":\"}\"}") ∷ message (codes "{}") ∷ nothing ∷ [])
unfolding run feed pop_message scan round
run-history = refl

run-refines-run_plain_example : run keep initial history ≡ run_plain keep [] history
run-refines-run_plain_example = run-refines-run_plain keep history

-- A closing brace too many, and the parser waits for ever.
stray_close :
    run keep initial (feeds (codes "}{\"ref\":1}") ∷ pops ∷ feeds (codes "{\"ref\":2}") ∷ pops ∷ [])
    ≡ (codes "}{\"ref\":1}{\"ref\":2}", nothing ∷ nothing ∷ [])
unfolding run feed pop_message scan round
stray_close = refl

abbrev two_messages : List (Bytes × Inside)
two_messages =
    (b' ' ∷ [], quoted (raw b'{' ∷ escaped b'"' ∷ []) (plain b':' (braced end end)))
    ∷ ([], end)
    ∷ []

abbrev pieces : List Bytes
pieces = codes " {\"{\\" ∷ codes "\"\":{" ∷ codes "}}{}{" ∷ []

run-stream_example :
    run keep initial (map feeds pieces ++ pop_for_each two_messages)
    ≡ (b'{' ∷ [], message (codes "{\"{\\\"\":{}}") ∷ message (codes "{}") ∷ [])
unfolding object_bytes
run-stream_example =
    run-stream keep pieces two_messages (b'{' ∷ []) ((refl, tt), omega arith, (tt, tt, tt)) refl
