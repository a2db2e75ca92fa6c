-- ===== src/HttpStreamer.antt =====
-- worker/routers/http_streamer.cpp, its header, worker/streaming/channel.hpp and streamer_base.hpp:
-- listeners that stay connected, each with an id, an address and a queue of messages.
pub mod Threads
pub mod Ownership
pub mod Races
pub mod KeepAlive
pub mod Tests
use minide.Base.{
  ℕ, ◌+◌, ◌≡◌, Bool, true, false, not, Option, none, some, List, [], ◌∷◌, ◌==◌, leb, ltb,
  if◌then◌else◌, Bytes, bytes_eq, ℤ, pos, negsuc,
}
use minide.IdProvider.{IdProvider, acquire_id, used_id_count, free_id}
use minide.StreamQueue.{
  StreamQueue, send_message, broadcast_message, insert_retriever, erase_retriever,
  consumeable_count, pop_message,
}

-- `remoteAddresses`: `find`, `insert`, which leaves a key that is there, and `erase`.
abbrev pub Addresses : Type 0
Addresses = List (ℕ × Bytes)

unfoldable pub address_of : ℕ → Addresses → Option Bytes
address_of id [] = none
address_of id ((k, a) ∷ kvs) = if k == id then some a else address_of id kvs

abbrev insert_missing : ℕ → Bytes → Addresses → Option Bytes → Addresses
insert_missing id addr kvs none = (id, addr) ∷ kvs
insert_missing id addr kvs (some a) = kvs

unfoldable pub insert_address : ℕ → Bytes → Addresses → Addresses
insert_address id addr kvs = insert_missing id addr kvs (address_of id kvs)

unfoldable pub erase_address : ℕ → Addresses → Addresses
erase_address id [] = []
erase_address id ((k, a) ∷ kvs) =
    if k == id then erase_address id kvs else (k, a) ∷ erase_address id kvs

-- `Queues`: what one channel keeps.
pub record Queues (Message : Type 0) : Type 0 where
  pub id_provider : IdProvider
  pub queue : StreamQueue Message
  pub remote_addresses : Addresses

-- What `send` returns, or the exception of `sendMessage`.
pub data Sending : Type 0 where
  code : ℤ → Sending
  invalid_id : Sending

abbrev pub sending_result : Bool → Sending
sending_result false = code (pos 0)
sending_result true = invalid_id

-- Where a thread stands: before the test of the limit, `acquireId`, the insertion of the
-- address and `insertRetriever` of commonStreamSetup; with a connection, whose end begins
-- commonCleanup with `eraseRetriever`; before its `freeId` and the erasure of the address. A
-- send stands before the test of the address, or before `sendMessage`. Each of these takes a
-- mutex of its own, or none: `usedIdCount` reads without one.
pub data Stage (Message : Type 0) : Type 0 where
  arriving : Bytes → Stage Message
  admitted : Bytes → Stage Message
  holding : ℕ → Bytes → Stage Message
  registered : ℕ → Stage Message
  listening : ℕ → Stage Message
  erased : ℕ → Stage Message
  freed : ℕ → Stage Message
  gone : Stage Message
  too_many : Stage Message
  overflow : Stage Message
  checking : Bytes → ℕ → Message → Stage Message
  ready : ℕ → Message → Stage Message
  answered : Sending → Stage Message

module _ {Message : Type 0} where
  abbrev pub admit : Bool → Bytes → Stage Message
  admit true addr = too_many
  admit false addr = admitted addr

  abbrev pub with_id :
      Bytes → Queues Message → Option (ℕ × IdProvider) → Stage Message × Queues Message
  with_id addr s none = (overflow, s)
  with_id addr s (some (id, provider)) = (holding id addr, record s { id_provider = provider })

  abbrev pub checked : Bytes → ℕ → Message → Option Bytes → Stage Message
  checked addr id msg none = answered (code (negsuc 1))
  checked addr id msg (some registered_as) =
      if bytes_eq registered_as addr then ready id msg else answered (code (negsuc 0))

  abbrev pub enqueued : Queues Message → StreamQueue Message × Bool → Stage Message × Queues Message
  enqueued s (queue, threw) = (answered (sending_result threw), record s { queue = queue })

  -- The next critical section of a thread. `limit` is `maxStreamListeners_` as a `std::size_t`.
  unfoldable pub advance : ℕ → Stage Message → Queues Message → Stage Message × Queues Message
  advance limit (arriving addr) s = (admit (leb limit (used_id_count s.id_provider)) addr, s)
  advance limit (admitted addr) s = with_id addr s (acquire_id s.id_provider)
  advance limit (holding id addr) s =
      (registered id, record s { remote_addresses = insert_address id addr s.remote_addresses })
  advance limit (registered id) s = (listening id, record s { queue = insert_retriever s.queue id })
  advance limit (listening id) s = (erased id, record s { queue = erase_retriever s.queue id })
  advance limit (erased id) s = (freed id, record s { id_provider = free_id s.id_provider id })
  advance limit (freed id) s =
      (gone, record s { remote_addresses = erase_address id s.remote_addresses })
  advance limit (checking addr id msg) s =
      (checked addr id msg (address_of id s.remote_addresses), s)
  advance limit (ready id msg) s = enqueued s (send_message s.queue id msg)
  advance limit gone s = (gone, s)
  advance limit too_many s = (too_many, s)
  advance limit overflow s = (overflow, s)
  advance limit (answered result) s = (answered result, s)

-- One round of the consume loop, `++idleCounter` at its end included: the stream ends; nothing
-- waits, and a keep-alive message is written or not; or a message is taken out, whose iterator is
-- given back after it is written; `undefined` is the `front` of an empty list.
pub data Round (Message : Type 0) : Type 0 where
  finished : Round Message
  idle : Bool → ℕ → StreamQueue Message → Round Message
  consumed : ℕ → ℕ → StreamQueue Message → Round Message
  undefined : Round Message

-- `keepAlive` where nothing waits: whether it writes, and the counter.
unfoldable pub keep_alive : ℕ → Bool × ℕ
keep_alive idle_counter = if ltb 20 (idle_counter + 1) then (true, 0) else (false, idle_counter + 1)

module _ {Message : Type 0} where
  abbrev pub take_out : Option (ℕ × StreamQueue Message) → Round Message
  take_out none = undefined
  take_out (some (handle, q)) = consumed handle 1 q

  abbrev pub round_at : ℕ → ℕ → ℕ × StreamQueue Message → Round Message
  round_at id idle_counter (count, q) =
      if count == 0
      then (let (writes, counter) = keep_alive idle_counter in idle writes (counter + 1) q)
      else take_out (pop_message q id)

  unfoldable pub consume_round : Bool → ℕ → ℕ → StreamQueue Message → Round Message
  unfolding keep_alive
  consume_round end_all_streams id idle_counter q =
      if end_all_streams then finished else round_at id idle_counter (consumeable_count q id)

-- `StreamChannel`, with the values that are no channel.
pub data StreamChannel : Type 0 where
  control_channel data_channel no_channel : StreamChannel

pub record HttpDataStreamer (Message : Type 0) : Type 0 where
  pub control_stream : Queues Message
  pub data_stream : Queues Message
  pub safe_id_checks : Bool

module _ {Message : Type 0} where
  abbrev pub broadcast_on : Queues Message → Message → Queues Message
  broadcast_on s msg = record s { queue = broadcast_message s.queue msg }

  unfoldable pub broadcast :
      HttpDataStreamer Message → StreamChannel → Message → HttpDataStreamer Message
  broadcast h control_channel msg = record h { control_stream = broadcast_on h.control_stream msg }
  broadcast h data_channel msg = record h { data_stream = broadcast_on h.data_stream msg }
  broadcast h no_channel msg = h

  -- How `send` begins: where the channel is one, with or without the test of the address. The id is the
  -- `int` as an `unsigned int`.
  unfoldable pub send : Bool → StreamChannel → Bytes → ℕ → Message → Stage Message
  send safe_id_checks no_channel addr id msg = answered (code (negsuc 2))
  send safe_id_checks control_channel addr id msg =
      if safe_id_checks then checking addr id msg else ready id msg
  send safe_id_checks data_channel addr id msg =
      if safe_id_checks then checking addr id msg else ready id msg
