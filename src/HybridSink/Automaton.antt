-- ===== src/HybridSink/Automaton.antt =====
-- `setupAutomaton`: the states, transitions and actions, and `write`. The automaton that runs them is
-- not part of the repository: `advance` is a parameter.
use minide.Base.{
  ℕ, zero, suc, ◌+◌, ◌^◌, ◌%◌, ◌≡◌, Bool, true, false, not, ◌&&◌, Option, none, some, List, [], ◌∷◌,
  ◌++◌, Bytes, codes, ltb, leb, ◌==◌, if◌then◌else◌, length, take, drop,
}
use minide.HybridSink.Size.{stoll}

pub data Phase : Type 0 where
  initial size_complete separator_complete json_complete data_phase expectation_failure : Phase

-- The sink, with the current state of `automat_`.
pub record Sink : Type 0 where
  pub aux_buffer : Bytes
  pub json_size : ℕ
  pub content_length : ℕ
  pub phase : Phase

-- The callbacks over all that they change. That of the JSON part gets its bytes, and parses them
-- first; it may end by an exception with its `what()`.
pub data Handled (World : Type 0) : Type 0 where
  handled : World → Handled World
  exception : Bytes → World → Handled World

pub record Callbacks (World : Type 0) : Type 0 where
  pub on_json : Bytes → World → Handled World
  pub on_data : Bytes → World → World
  pub on_expectation_failure : Bytes → World → World

abbrev pub new_sink : ℕ → Sink
new_sink content_length = record {
  aux_buffer = [];
  json_size = 0;
  content_length = content_length;
  phase = initial;
}

-- The transitions in the order in which they are declared: from, when, to.
pub record Transition : Type 0 where
  pub source : Phase
  pub condition : Sink → Bool
  pub target : Phase

abbrev starts_with_separator : Bytes → Bool
starts_with_separator [] = false
starts_with_separator (c ∷ cs) = c == b'|'

abbrev starts_otherwise : Bytes → Bool
starts_otherwise [] = false
starts_otherwise (c ∷ cs) = not (c == b'|')

abbrev pub transitions : List Transition
transitions =
    record {
      source = initial;
      condition = λ s. leb 10 (length s.aux_buffer);
      target = size_complete;
    }
    ∷ record {
      source = size_complete;
      condition = λ s. starts_with_separator s.aux_buffer;
      target = separator_complete;
    }
    ∷ record {
      source = size_complete;
      condition = λ s. starts_otherwise s.aux_buffer;
      target = expectation_failure;
    }
    ∷ record {
      source = separator_complete;
      condition = λ s. leb s.json_size (length s.aux_buffer);
      target = json_complete;
    }
    ∷ record { source = json_complete; condition = λ s. true; target = data_phase }
    ∷ []

abbrev number : Phase → ℕ
number initial = 0
number size_complete = 1
number separator_complete = 2
number json_complete = 3
number data_phase = 4
number expectation_failure = 5

abbrev first_of_transitions : Sink → List Transition → Option Phase
first_of_transitions s [] = none
first_of_transitions s (t ∷ ts) =
    if number t.source == number s.phase && t.condition s
    then some t.target
    else first_of_transitions s ts

-- The state that the automaton goes on to.
abbrev pub next : Sink → Option Phase
next s = first_of_transitions s transitions

-- What entering a state does: the exception of `stoll` leaves the action.
pub data Acted (World : Type 0) : Type 0 where
  acted : Sink → World → Acted World
  threw : Sink → World → Acted World

module _ {World : Type 0} (cb : Callbacks World) where
  abbrev pub size_action : Sink → World → Option ℕ → Acted World
  size_action s w none = threw s w
  size_action s w (some n) =
      acted (record s { aux_buffer = drop 10 s.aux_buffer; json_size = n })
        (if ltb s.content_length ((n + 11) % 2 ^ 64)
          then cb.on_expectation_failure
              (codes "Content-Length not large enough to fit supposed json data") w
          else w)

  abbrev pub json_action : Sink → Handled World → Acted World
  json_action s (exception what w) = acted s (cb.on_expectation_failure what w)
  json_action s (handled w) =
      acted (record s { aux_buffer = [] })
        (if ltb s.json_size (length s.aux_buffer)
          then cb.on_data (drop s.json_size s.aux_buffer) w
          else w)

  unfoldable pub enter : Phase → Sink → World → Acted World
  enter size_complete s w = size_action s w (stoll (take 10 s.aux_buffer))
  enter separator_complete s w = acted (record s { aux_buffer = drop 1 s.aux_buffer }) w
  enter json_complete s w = json_action s (cb.on_json (take s.json_size s.aux_buffer) w)
  enter expectation_failure s w =
      acted s (cb.on_expectation_failure (codes "data stream expectation failure") w)
  enter initial s w = acted s w
  enter data_phase s w = acted s w

-- `Automaton::advance` tells whether it has moved.
pub data Advanced (World : Type 0) : Type 0 where
  moved : Sink → World → Advanced World
  stayed : Sink → World → Advanced World
  failed : Sink → World → Advanced World

-- What is relied on of `advance`: it takes the first transition from the current state whose condition
-- holds, runs the action of the state that it enters, and tells whether there was one.
module _ {World : Type 0} (cb : Callbacks World) where
  pub record Advances (advance : Sink → World → Advanced World) : Type 0 where
    pub moves :
        (s s' : Sink) (w w' : World) (t : Phase)
        → next s ≡ some t
        → enter cb t (record s { phase = t }) w ≡ acted s' w'
        → advance s w ≡ moved s' w'
    pub stays : (s : Sink) (w : World) → next s ≡ none → advance s w ≡ stayed s w

-- What `write` comes to: the sink and the world, or an exception.
pub data Written (World : Type 0) : Type 0 where
  done : Sink → World → Written World
  thrown : Sink → World → Written World
  out_of_fuel : Written World

module _ {World : Type 0} (cb : Callbacks World) (advance : Sink → World → Advanced World) where
  abbrev pub after_advance : Advanced World → (Sink → World → Written World) → Written World
  after_advance (moved s w) go = go s w
  after_advance (stayed s w) go = done s w
  after_advance (failed s w) go = thrown s w

  -- `do { didWork = automat_.advance(); } while (didWork);`
  unfoldable pub run_automaton : ℕ → Sink → World → Written World
  run_automaton zero s w = out_of_fuel
  run_automaton (suc fuel) s w = after_advance (advance s w) (run_automaton fuel)

  abbrev pub is_data_phase : Phase → Bool
  is_data_phase data_phase = true
  is_data_phase _ = false

  -- No way through the states is longer than four moves.
  unfoldable pub write : Sink → World → Bytes → Written World
  unfolding run_automaton
  write s w piece =
      if is_data_phase s.phase
      then done s (cb.on_data piece w)
      else run_automaton 6 (record s { aux_buffer = s.aux_buffer ++ piece }) w

  abbrev pub and_then : Written World → (Sink → World → Written World) → Written World
  and_then (done s w) go = go s w
  and_then (thrown s w) go = thrown s w
  and_then out_of_fuel go = out_of_fuel

  -- The pieces of a body, one after the other.
  unfoldable pub write_all : List Bytes → Sink → World → Written World
  unfolding write
  write_all [] s w = done s w
  write_all (p ∷ ps) s w = and_then (write s w p) (write_all ps)
