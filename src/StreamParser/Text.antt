-- ===== src/StreamParser/Text.antt =====
-- The texts that a client sends: objects, written independently of the scan, as bytes between
-- balanced braces in which braces and quotes of strings do not count.
use minide.Base.{
  pos, ℕ, suc, ◌+◌, ◌≡◌, ◌≢◌, refl, ap, ◌∙◌, true, false, List, [], ◌∷◌, ◌++◌, arith, length, Bytes,
  All, append_assoc, length-append,
}
use minide.StreamParser.Scan.{FindState, round, scan}
use minide.StreamParser.Resume.{scan-next, scan_complete}

-- A character of a JSON string: a plain one, or a backslash with the byte behind it.
pub data StringChar : Type 0 where
  raw : ℕ → StringChar
  escaped : ℕ → StringChar

-- What stands between two braces.
pub data Inside : Type 0 where
  end : Inside
  plain : ℕ → Inside → Inside
  quoted : List StringChar → Inside → Inside
  braced : Inside → Inside → Inside

pub string_bytes : List StringChar → Bytes
string_bytes [] = []
string_bytes (raw c ∷ s) = c ∷ string_bytes s
string_bytes (escaped c ∷ s) = b'\\' ∷ c ∷ string_bytes s

unfoldable pub inside_bytes : Inside → Bytes
unfolding string_bytes
inside_bytes end = []
inside_bytes (plain c t) = c ∷ inside_bytes t
inside_bytes (quoted s t) = b'"' ∷ (string_bytes s ++ (b'"' ∷ inside_bytes t))
inside_bytes (braced b t) = b'{' ∷ (inside_bytes b ++ (b'}' ∷ inside_bytes t))

unfoldable pub object_bytes : Inside → Bytes
unfolding inside_bytes
object_bytes t = b'{' ∷ (inside_bytes t ++ (b'}' ∷ []))

abbrev pub IsRaw : StringChar → Type 0
IsRaw (raw c) = (c ≢ b'"') × (c ≢ b'\\')
IsRaw (escaped c) = Unit {0}

abbrev pub IsPlain : ℕ → Type 0
IsPlain c = (c ≢ b'{') × (c ≢ b'}') × (c ≢ b'"') × (c ≢ b'\\')

abbrev pub IsText : Inside → Type 0
IsText end = Unit {0}
IsText (plain c t) = IsPlain c × IsText t
IsText (quoted s t) = All IsRaw s × IsText t
IsText (braced b t) = IsText b × IsText t

-- The state at depth `d`, outside a string, at offset `n`; and inside one.
abbrev pub at_depth : ℕ → ℕ → FindState
at_depth d n = record { curly_count = pos d; escape = false; inside_string = false; offset = n }

abbrev in_string : ℕ → ℕ → FindState
in_string d n = record { curly_count = pos d; escape = false; inside_string = true; offset = n }

-- In each lemma `m` is the offset behind the bytes read.
pub scan_plain :
    (d n m c : ℕ) (rest : Bytes)
    → IsPlain c
    → m ≡ n + 1
    → scan (at_depth d n) (c ∷ rest) ≡ scan (at_depth d m) rest
unfolding round
scan_plain d n m c rest h e = scan-next _ c rest (ground arith)

scan_raw :
    (d n c : ℕ) (rest : Bytes)
    → IsRaw (raw c)
    → scan (in_string d n) (c ∷ rest) ≡ scan (in_string d (n + 1)) rest
unfolding round
scan_raw d n c rest h = scan-next _ c rest (ground arith)

scan_escaped :
    (d n c : ℕ) (rest : Bytes)
    → scan (in_string d n) (b'\\' ∷ c ∷ rest) ≡ scan (in_string d (n + 1 + 1)) rest
unfolding round
scan_escaped d n c rest = scan-next _ b'\\' (c ∷ rest) refl ∙ scan-next _ c rest (ground arith)

scan_string :
    (s : List StringChar) (d n m : ℕ) (rest : Bytes)
    → All IsRaw s
    → m ≡ n + length (string_bytes s) + 1
    → scan (in_string d n) (string_bytes s ++ (b'"' ∷ rest)) ≡ scan (at_depth d m) rest
unfolding string_bytes
scan_string [] d n m rest h e = unfold round in scan-next _ b'"' rest (ground arith)
scan_string (raw c ∷ s) d n m rest h e =
    scan_raw d n c _ h.0 ∙ scan_string s d (n + 1) m rest h.1 (omega arith)
scan_string (escaped c ∷ s) d n m rest h e =
    scan_escaped d n c _ ∙ scan_string s d (n + 1 + 1) m rest h.1 (omega arith)

scan_quote :
    (d n : ℕ) (rest : Bytes) → scan (at_depth d n) (b'"' ∷ rest) ≡ scan (in_string d (n + 1)) rest
unfolding round
scan_quote d n rest = scan-next _ b'"' rest refl

pub scan_open :
    (d n : ℕ) (rest : Bytes)
    → scan (at_depth d n) (b'{' ∷ rest) ≡ scan (at_depth (suc d) (n + 1)) rest
unfolding round
scan_open d n rest = scan-next _ b'{' rest refl

scan_close :
    (d n m : ℕ) (rest : Bytes)
    → m ≡ n + 1
    → scan (at_depth (suc (suc d)) n) (b'}' ∷ rest) ≡ scan (at_depth (suc d) m) rest
unfolding round
scan_close d n m rest e = scan-next _ b'}' rest (ground arith)

pub scan_last : (n : ℕ) (rest : Bytes) → scan (at_depth 1 n) (b'}' ∷ rest) ≡ (at_depth 0 n, true)
unfolding round
scan_last n rest = scan_complete _ b'}' rest refl

-- A text inside an object is read to its end, and leaves the depth as it was.
pub scan_inside :
    (t : Inside) (d n m : ℕ) (rest : Bytes)
    → IsText t
    → m ≡ n + length (inside_bytes t)
    → scan (at_depth (suc d) n) (inside_bytes t ++ rest) ≡ scan (at_depth (suc d) m) rest
unfolding inside_bytes
scan_inside end d n m rest h e = ap (λ (k : ℕ). scan (at_depth (suc d) k) rest) (omega arith)
scan_inside (plain c t) d n m rest h e =
    scan_plain (suc d) n (n + 1) c _ h.0 refl ∙ scan_inside t d (n + 1) m rest h.1 (omega arith)
scan_inside (quoted s t) d n m rest h e =
    ap (λ x. scan (at_depth (suc d) n) (b'"' ∷ x)) (append_assoc (string_bytes s) _ rest)
    ∙ scan_quote (suc d) n _
    ∙ scan_string s (suc d) (n + 1) (n + length (string_bytes s) + 2) _ h.0 (omega arith)
    ∙ scan_inside t d _ m rest h.1
        (omega (arith, e, length-append (string_bytes s) (b'"' ∷ inside_bytes t)))
scan_inside (braced b t) d n m rest h e =
    ap (λ x. scan (at_depth (suc d) n) (b'{' ∷ x)) (append_assoc (inside_bytes b) _ rest)
    ∙ scan_open (suc d) n _
    ∙ scan_inside b (suc d) (n + 1) (n + length (inside_bytes b) + 1) _ h.0 (omega arith)
    ∙ scan_close d _ (n + length (inside_bytes b) + 2) _ (omega arith)
    ∙ scan_inside t d _ m rest h.1
        (omega (arith, e, length-append (inside_bytes b) (b'}' ∷ inside_bytes t)))
