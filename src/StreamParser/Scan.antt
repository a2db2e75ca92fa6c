-- ===== src/StreamParser/Scan.antt =====
-- StreamParser: the scan for the end of a complete object, and the operations over it.
-- `m_curlyCount` is an `int` here without its wrap-around at 2^31, which needs a buffer of 2 GiB.
use minide.Base.{
  ℤ, pos, negsuc, ℕ, zero, suc, ◌+◌, Bool, true, false, not, ◌&&◌, ◌||◌, Option, none, some, [],
  ◌∷◌, ◌++◌, leb, ◌==◌, if◌then◌else◌, take, drop, Bytes,
}

abbrev pub increment : ℤ → ℤ
increment (pos n) = pos (suc n)
increment (negsuc zero) = pos zero
increment (negsuc (suc n)) = negsuc n

abbrev pub decrement : ℤ → ℤ
decrement (pos zero) = negsuc zero
decrement (pos (suc n)) = pos n
decrement (negsuc n) = negsuc (suc n)

abbrev pub is_zero : ℤ → Bool
is_zero (pos zero) = true
is_zero _ = false

-- `FindMemoizer`.
pub record FindState : Type 0 where
  pub curly_count : ℤ
  pub escape : Bool
  pub inside_string : Bool
  pub offset : ℕ

abbrev pub fresh : FindState
fresh = record { curly_count = pos zero; escape = false; inside_string = false; offset = 0 }

pub record StreamParser : Type 0 where
  pub buffer : Bytes
  pub find_state : FindState

abbrev pub initial : StreamParser
initial = record { buffer = []; find_state = fresh }

-- One round of the loop: it goes on with the next byte, or it returns at this one.
pub data Round : Type 0 where
  next : FindState → Round
  complete : FindState → Round

-- The last statement of the body, then `++m_offset`.
abbrev end_round : ℕ → FindState → Round
end_round c s = next (record s { escape = s.escape && c == b'\\'; offset = s.offset + 1 })

unfoldable pub round : FindState → ℕ → Round
round s c =
    if c == b'{' && not s.inside_string
    then end_round c (record s { curly_count = increment s.curly_count })
    else if c == b'}' && not s.inside_string
    then (if is_zero (decrement s.curly_count)
        then complete (record s { curly_count = decrement s.curly_count })
        else end_round c (record s { curly_count = decrement s.curly_count }))
    else if c == b'"' && not s.escape
    then end_round c (record s { inside_string = not s.inside_string })
    else if c == b'\\'
    then end_round c (record s { escape = not s.escape })
    else end_round c s

-- The loop, over the bytes from `m_offset` on; the flag says whether it returned inside.
unfoldable pub scan : FindState → Bytes → FindState × Bool
scan s [] = (s, false)
scan s (c ∷ cs) = elim (round s c) [ next s' ↦ scan s' cs | complete s' ↦ (s', true) ]

-- `findCompleteObjectEnd`: the memo is written, and the end is `m_offset` where one is found.
unfoldable pub find_complete_object_end : StreamParser → StreamParser × Option ℕ
find_complete_object_end p =
    let (s, found) = scan p.find_state (drop p.find_state.offset p.buffer) in
    (record p { find_state = s }, if found then some s.offset else none)

-- `std::isspace` in the "C" locale.
abbrev pub is_space : ℕ → Bool
is_space c = c == b' ' || (leb 9 c && leb c 13)

unfoldable pub skip_space : Bytes → Bytes
skip_space [] = []
skip_space (c ∷ cs) = elim (is_space c) [ true ↦ skip_space cs | false ↦ c ∷ cs ]

unfoldable pub consume_object : StreamParser → ℕ → StreamParser × Bytes
unfolding skip_space
consume_object p end =
    (record { buffer = drop end p.buffer; find_state = fresh }, skip_space (take end p.buffer))

unfoldable pub feed : StreamParser → Bytes → StreamParser
feed p text = record p { buffer = p.buffer ++ text }

-- What `popMessage` comes back with: nothing yet, the parsed object, or the exception of
-- `json::parse`, after which the bytes are gone from the buffer.
pub data Popped {ℓ} (J : Type ℓ) : Type ℓ where
  nothing : Popped J
  message : J → Popped J
  parse_error : Popped J

-- `json::parse` is the argument: `none` is its exception.
module _ {ℓ} {J : Type ℓ} (parse : Bytes → Option J) where
  abbrev pub parsed : Option J → Popped J
  parsed none = parse_error
  parsed (some j) = message j

  abbrev pub pop_at : StreamParser → Option ℕ → StreamParser × Popped J
  pop_at p none = (p, nothing)
  pop_at p (some position) =
      let (p', object) = consume_object p (position + 1) in (p', parsed (parse object))

  unfoldable pub pop_message : StreamParser → StreamParser × Popped J
  unfolding find_complete_object_end consume_object
  pop_message p = let (p', position) = find_complete_object_end p in pop_at p' position
