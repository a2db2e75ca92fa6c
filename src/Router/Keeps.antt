-- ===== src/Router/Keeps.antt =====
-- Router: what a handler keeps, by the parts that it is made of.
use minide.Base.{Bool, true, false, Option, none, some, Bytes, ℤ, if◌then◌else◌}
use minide.HttpStreamer.{StreamChannel}
use minide.Base.Dict.{find}
use minide.Workspace.Verify.{Verified, refused, accepted, thrown}
use minide.Router.Handler.{
  Client, StreamMessage, Streamer, Server, Answer, Flow, value, returned, raised, Step, ◌>>=◌, ◌>>◌,
  and_then, give, or_raise, answer, require, get_server, this_session, save_partial, set_disk,
  checked, send_message, sent_with, outer, inner, read_json_body,
}

-- A relation of the state before a handler with the state after it.
pub record StateRelation (State : Type 0) : Type 1 where
  pub related : State → State → Type 0
  pub related-refl : (s : State) → related s s
  pub related-trans : (s t u : State) → related s t → related t u → related s u

abbrev pub Relation : Type 0 → Type 0 → Type 0 → Type 1
Relation FilePath Disk Streams = StateRelation (Server FilePath Disk Streams)

module _ {FilePath State : Type 0} where
  -- Every run of the handler ends in a server that is related to the one that it began with.
  pub record Keeps (re : StateRelation State) {A : Type 0} (m : Step FilePath State A)
      : Type 0 where
    pub at : (s : State) → re.related s (m s).1

  inner-keeps :
      (re : StateRelation State) (s : State) (r : Flow FilePath (Answer FilePath) × State)
      → re.related s r.1
      → re.related s (inner r).1
  inner-keeps re s (value a, t) h = h
  inner-keeps re s (returned a, t) h = h
  inner-keeps re s (raised, t) h = h

  pub outer-keeps :
      (re : StateRelation State) (s : State) (r : Flow FilePath (Answer FilePath) × State)
      → re.related s r.1
      → re.related s (outer r).1
  outer-keeps re s (value a, t) h = h
  outer-keeps re s (returned a, t) h = h
  outer-keeps re s (raised, t) h = h

  module _ {re : StateRelation State} where
    and_then-keeps :
        {A B : Type 0} (s : State) (r : Flow FilePath A × State) (f : A → Step FilePath State B)
        → re.related s r.1
        → ((a : A) → Keeps re (f a))
        → re.related s (and_then r f).1
    and_then-keeps s (value a, t) f h k = re.related-trans s t _ h ((k a).at t)
    and_then-keeps s (returned r, t) f h k = h
    and_then-keeps s (raised, t) f h k = h

    pub bind-Keeps :
        {A B : Type 0} {m : Step FilePath State A} {f : A → Step FilePath State B}
        → Keeps re m
        → ((a : A) → Keeps re (f a))
        → Keeps re (m >>= f)
    bind-Keeps {m} {f} h k = record { at = λ s. and_then-keeps s (m s) f (h.at s) k }

    pub seq-Keeps :
        {B : Type 0} {m : Step FilePath State (Unit {0})} {k : Step FilePath State B}
        → Keeps re m
        → Keeps re k
        → Keeps re (m >> k)
    seq-Keeps {m} {k} h g = record { at = λ s. and_then-keeps s (m s) (λ _. k) (h.at s) (λ _. g) }

    pub give-Keeps : {A : Type 0} (a : A) → Keeps re (give a)
    give-Keeps a = record { at = re.related-refl }

    pub answer-Keeps : {A : Type 0} (r : Answer FilePath) → Keeps re {A = A} (answer r)
    answer-Keeps r = record { at = re.related-refl }

    pub or_raise-Keeps : {A : Type 0} (o : Option A) → Keeps re (or_raise o)
    or_raise-Keeps none = record { at = re.related-refl }
    or_raise-Keeps (some a) = record { at = re.related-refl }

    pub branch-Keeps :
        {A : Type 0} {m n : Step FilePath State A} (b : Bool)
        → Keeps re m
        → Keeps re n
        → Keeps re (if b then m else n)
    branch-Keeps true h k = h
    branch-Keeps false h k = k

    pub require-Keeps : (b : Bool) (msg : Bytes) → Keeps re (require b msg)
    require-Keeps true msg = record { at = re.related-refl }
    require-Keeps false msg = record { at = re.related-refl }

    pub checked-Keeps : (v : Verified) → Keeps re (checked v)
    checked-Keeps (refused m p) = record { at = re.related-refl }
    checked-Keeps (accepted p) = record { at = re.related-refl }
    checked-Keeps thrown = record { at = re.related-refl }

    pub get_server-Keeps : Keeps re get_server
    get_server-Keeps = record { at = re.related-refl }

    pub read_json_body-Keeps :
        {J : Type 0} (body : Option J) (action : J → Step FilePath State (Answer FilePath))
        → ((j : J) → Keeps re (action j))
        → Keeps re (read_json_body body action)
    unfolding read_json_body
    read_json_body-Keeps none action h = record { at = re.related-refl }
    read_json_body-Keeps (some j) action h = record {
      at = λ s. inner-keeps re s (action j s) ((h j).at s);
    }

module _ {FilePath Disk Streams : Type 0} where
  module _ {re : Relation FilePath Disk Streams} where
    pub this_session-Keeps : (id : Bytes) → Keeps re (this_session id)
    unfolding this_session
    this_session-Keeps id = record {
      at = λ s. (or_raise-Keeps {FilePath = FilePath} {re = re} (find id s.sessions)).at s;
    }

    pub set_disk-Keeps :
        ((s : Server FilePath Disk Streams) (d : Disk) → re.related s (record s { disk = d }))
        → (d : Disk) → Keeps re (set_disk d)
    set_disk-Keeps h d = record { at = λ s. h s d }

    pub save_partial-Keeps :
        (id : Bytes) (extractor : Client FilePath → Client FilePath → Client FilePath)
        (client : Client FilePath)
        → ((s : Server FilePath Disk Streams) → re.related s (save_partial id extractor client s).1)
        → Keeps re (save_partial id extractor client)
    save_partial-Keeps id extractor client h = record { at = h }

    pub send_message-Keeps :
        ((s : Server FilePath Disk Streams) (x : Streams) → re.related s (record s { streams = x }))
        → (streamer : Streamer FilePath Streams) (channel : StreamChannel) (ip : Bytes) (id : ℤ)
          (msg : StreamMessage FilePath)
        → Keeps re (send_message streamer channel ip id msg)
    unfolding send_message
    send_message-Keeps h streamer channel ip id msg = record {
      at = λ s. sent s (streamer.send channel ip id msg s.streams);
    }
      where
        sent :
            (s : Server FilePath Disk Streams) (r : Option ℤ × Streams)
            → re.related s (sent_with r s).1
        sent s (none, x) = h s x
        sent s (some n, x) = h s x
