-- ===== src/StreamParser/Resume.antt =====
-- StreamParser: the scan goes on where the last one stopped, and that is never seen outside.
use minide.Base.{
  ℕ, ◌+◌, ◌≤◌, ◌≡◌, refl, sym, ap, ◌∙◌, ◌⊎◌, inl, inr, Bool, true, false, Option, none, some, [],
  ◌∷◌, ◌++◌, arith, length, take, drop, Bytes, take-append-drop, length-append, take-append_le,
  if◌then◌else◌,
}
use minide.StreamParser.Scan.{
  FindState, StreamParser, Round, next, complete, fresh, initial, round, scan, feed, Popped,
  skip_space, nothing, parsed,
}

-- A round that goes on has read one byte.
round_offset :
    (s : FindState) (c : ℕ) {s' : FindState} → round s c ≡ next s' → s'.offset ≡ s.offset + 1
unfolding round
round_offset s c e = ground arith

round_offset_complete :
    (s : FindState) (c : ℕ) {s' : FindState} → round s c ≡ complete s' → s'.offset ≡ s.offset
unfolding round
round_offset_complete s c e = ground arith

Round-cases : (r : Round) → ((s : FindState) × (r ≡ next s)) ⊎ ((s : FindState) × (r ≡ complete s))
Round-cases (next s) = inl (s, refl)
Round-cases (complete s) = inr (s, refl)

pub scan-next :
    (s : FindState) (c : ℕ) (cs : Bytes) {t : FindState}
    → round s c ≡ next t
    → scan s (c ∷ cs) ≡ scan t cs
unfolding scan
scan-next s c cs r = rw (r, scan)

pub scan_complete :
    (s : FindState) (c : ℕ) (cs : Bytes) {t : FindState}
    → round s c ≡ complete t
    → scan s (c ∷ cs) ≡ (t, true)
unfolding scan
scan_complete s c cs r = rw (r, scan)

-- A scan that ran to the end is carried on from its last state.
pub scan-append :
    (s : FindState) (xs ys : Bytes) {s' : FindState}
    → scan s xs ≡ (s', false)
    → scan s (xs ++ ys) ≡ scan s' ys
scan-append s [] ys e = unfold scan in ap (λ (r : FindState × Bool). scan r.0 ys) e
scan-append s (x ∷ xs) ys {s'} e = elim (Round-cases (round s x)) [
  | inl (t, r) ↦
      scan-next s x (xs ++ ys) r ∙ scan-append t xs ys {s' = s'} (sym (scan-next s x xs r) ∙ e)
  | inr (t, r) ↦ cc (scan_complete s x xs r)
]

-- The offset counts the bytes read, all of them where the scan ran to the end.
pub scan_offset :
    (s : FindState) (xs : Bytes) {s' : FindState}
    → scan s xs ≡ (s', false)
    → s'.offset ≡ s.offset + length xs
scan_offset s [] {s'} e = unfold scan in omega (arith, ap (λ (r : FindState × Bool). r.0.offset) e)
scan_offset s (x ∷ xs) {s'} e = elim (Round-cases (round s x)) [
  | inl (t, r) ↦
      omega (arith, round_offset s x r, scan_offset t xs {s' = s'} (sym (scan-next s x xs r) ∙ e))
  | inr (t, r) ↦ cc (scan_complete s x xs r)
]

-- What a parser remembers of its buffer is what a scan of the read part finds.
pub record Resumable (p : StreamParser) : Type 0 where
  pub within : p.find_state.offset ≤ length p.buffer
  pub scanned : scan fresh (take p.find_state.offset p.buffer) ≡ (p.find_state, false)

pub initial-Resumable : Resumable initial
unfolding scan
initial-Resumable = record { within = omega arith; scanned = refl }

pub feed-Resumable : (p : StreamParser) (text : Bytes) → Resumable p → Resumable (feed p text)
unfolding feed
feed-Resumable p text v = record {
  within = omega (arith, v.within, length-append p.buffer text);
  scanned = rw (take-append_le p.find_state.offset p.buffer text v.within) v.scanned;
}

-- The scan from the memo is the scan of the whole buffer.
pub scan-Resumable :
    (p : StreamParser)
    → Resumable p
    → scan p.find_state (drop p.find_state.offset p.buffer) ≡ scan fresh p.buffer
scan-Resumable p v =
    sym (scan-append fresh (take p.find_state.offset p.buffer) _ v.scanned)
    ∙ ap (scan fresh) (take-append-drop p.find_state.offset p.buffer)

-- The search with no memory: each call reads the buffer from its first byte.
unfoldable pub find_end : Bytes → Option ℕ
find_end b = let (s, found) = scan fresh b in if found then some s.offset else none

-- The same parser with no memo: what it keeps is the unread bytes.
abbrev pub plain_at {ℓ} : {J : Type ℓ} → (Bytes → Option J) → Bytes → Option ℕ → Bytes × Popped J
plain_at parse b none = (b, nothing)
plain_at parse b (some n) = (drop (n + 1) b, parsed parse (parse (skip_space (take (n + 1) b))))

unfoldable pub pop_plain {ℓ} : {J : Type ℓ} → (Bytes → Option J) → Bytes → Bytes × Popped J
pop_plain parse b = plain_at parse b (find_end b)
