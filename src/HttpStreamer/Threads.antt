-- ===== src/HttpStreamer/Threads.antt =====
-- HttpStreamer: any number of threads on one channel, whose critical sections come in any order.
use minide.Base.{ℕ, zero, suc, ◌+◌, ◌==◌, Bool, List, [], ◌∷◌, Bytes, if◌then◌else◌}
use minide.StreamQueue.{StreamQueue, empty}
use minide.HttpStreamer.{
  Queues, Stage, arriving, admitted, holding, registered, listening, erased, freed, gone, too_many,
  overflow, checking, ready, answered, advance, StreamChannel, send,
}

pub record Threads (Message : Type 0) : Type 0 where
  pub stages : List (Stage Message)
  pub queues : Queues Message

-- A request for a stream or a send begins, the thread with the number goes on, or the queue changes, in
-- whatever way: by a broadcast, or by what the consume loops do.
pub data Event (Message : Type 0) : Type 0 where
  requests : Bytes → Event Message
  sends : Bool → StreamChannel → Bytes → ℕ → Message → Event Message
  goes_on : ℕ → Event Message
  serves : StreamQueue Message → Event Message

module _ {Message : Type 0} (limit : ℕ) where
  unfoldable pub advance_at :
      ℕ → List (Stage Message) → Queues Message → List (Stage Message) × Queues Message
  advance_at n [] s = ([], s)
  advance_at zero (stage ∷ stages) s =
      let (next, changed) = advance limit stage s in (next ∷ stages, changed)
  advance_at (suc n) (stage ∷ stages) s =
      let (rest, changed) = advance_at n stages s in (stage ∷ rest, changed)

  abbrev pub of_pair : List (Stage Message) × Queues Message → Threads Message
  of_pair (stages, queues) = record { stages = stages; queues = queues }

  unfoldable pub happen : Event Message → Threads Message → Threads Message
  unfolding advance_at send
  happen (requests addr) t = record t { stages = arriving addr ∷ t.stages }
  happen (sends safe channel addr id msg) t = record t {
    stages = send safe channel addr id msg ∷ t.stages;
  }
  happen (goes_on n) t = of_pair (advance_at n t.stages t.queues)
  happen (serves queue) t = record t { queues = record t.queues { queue = queue } }

  unfoldable pub run : List (Event Message) → Threads Message → Threads Message
  unfolding happen
  run [] t = t
  run (event ∷ events) t = run events (happen event t)

abbrev pub no_threads : {Message : Type 0} → Threads Message
no_threads = record {
  stages = [];
  queues = record { id_provider = minide.IdProvider.initial; queue = empty; remote_addresses = [] };
}

module _ {Message : Type 0} where
  -- How often a thread holds the id: from `acquireId` to `freeId`.
  unfoldable pub holds : ℕ → Stage Message → ℕ
  holds k (holding id addr) = if k == id then 1 else 0
  holds k (registered id) = if k == id then 1 else 0
  holds k (listening id) = if k == id then 1 else 0
  holds k (erased id) = if k == id then 1 else 0
  holds k (arriving addr) = 0
  holds k (admitted addr) = 0
  holds k (freed id) = 0
  holds k gone = 0
  holds k too_many = 0
  holds k overflow = 0
  holds k (checking addr id msg) = 0
  holds k (ready id msg) = 0
  holds k (answered result) = 0

  unfoldable pub holders : ℕ → List (Stage Message) → ℕ
  unfolding holds
  holders k [] = 0
  holders k (stage ∷ stages) = holds k stage + holders k stages
