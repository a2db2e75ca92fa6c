-- ===== src/HttpStreamer/Races.antt =====
-- HttpStreamer: what comes of sections with a mutex each, where a method needs them together.
use minide.Base.{ℕ, ◌≡◌, refl, true, false, List, [], ◌∷◌, Bytes, bytes_eq_self, leb, negsuc}
use minide.IdProvider.{acquire_id, free_id, used_id_count}
use minide.StreamQueue.{insert_retriever, erase_retriever, send_message, contains}
use minide.HttpStreamer.{
  listening, erased, gone, answered, code, invalid_id, advance, address_of, insert_address,
  erase_address, control_channel, send,
}
use minide.HttpStreamer.Threads.{
  Event, requests, sends, goes_on, advance_at, happen, run, no_threads,
}

module _ {Message : Type 0} where
  -- The first request gets its connection.
  abbrev pub connects : Bytes → List (Event Message)
  connects addr = requests addr ∷ goes_on 0 ∷ goes_on 0 ∷ goes_on 0 ∷ goes_on 0 ∷ []

  -- The first connection ends up to the erasure of its address, a second request gets its connection,
  -- and then the first one goes on.
  abbrev pub reuses : Bytes → Bytes → List (Event Message)
  reuses first second =
      requests first
      ∷ goes_on 0
      ∷ goes_on 0
      ∷ goes_on 0
      ∷ goes_on 0
      ∷ goes_on 0
      ∷ goes_on 0
      ∷ requests second
      ∷ goes_on 0
      ∷ goes_on 0
      ∷ goes_on 0
      ∷ goes_on 0
      ∷ goes_on 1
      ∷ []

  -- Where the limit is not 0: when a connection ends while another request for a stream comes, the
  -- new listener can be left with the id of the old one and without an address, so that a send to
  -- it, from whatever address and with the id checks, ends with -2.
  pub run-loses_address :
      (limit : ℕ) (first second addr : Bytes) (msg : Message)
      → leb limit 0 ≡ false
      → let t = run limit (reuses first second) no_threads in
        (t.stages ≡ listening 1 ∷ (gone ∷ []))
        × (contains 1 t.queues.queue.assignments ≡ true)
        × ((advance limit (send true control_channel addr 1 msg) t.queues).0
            ≡ answered (code (negsuc 1)))
  unfolding run happen advance_at advance used_id_count acquire_id insert_address address_of
      insert_retriever erase_retriever free_id erase_address send contains minide.StreamQueue.put
      minide.StreamQueue.erase
  run-loses_address limit first second addr msg room = rw room (rw room (refl, refl, refl))

  -- A listener connects, a send of the address finds it, and the connection ends up to the erasure of its
  -- queue before the send goes on.
  abbrev pub outruns : Bytes → Message → List (Event Message)
  outruns addr msg =
      requests addr
      ∷ goes_on 0
      ∷ goes_on 0
      ∷ goes_on 0
      ∷ goes_on 0
      ∷ sends true control_channel addr 1 msg
      ∷ goes_on 0
      ∷ goes_on 1
      ∷ goes_on 0
      ∷ []

  -- Where the limit is not 0: a send with the id checks, to a listener with the address that it is
  -- registered with, can throw, since the listener can go between the test of its address and
  -- sendMessage.
  pub run-outruns :
      (limit : ℕ) (addr : Bytes) (msg : Message)
      → leb limit 0 ≡ false
      → (run limit (outruns addr msg) no_threads).stages ≡ answered invalid_id ∷ (erased 1 ∷ [])
  unfolding run happen advance_at advance used_id_count acquire_id insert_address address_of
      insert_retriever erase_retriever send send_message contains minide.StreamQueue.put
      minide.StreamQueue.erase
  run-outruns limit addr msg room = rw room (rw (bytes_eq_self addr) refl)

  -- Two requests that arrive together pass a limit of one.
  run-passes_limit :
      (a b : Bytes)
      → (run 1
          (requests a
            ∷ requests b
            ∷ goes_on 0
            ∷ goes_on 1
            ∷ goes_on 0
            ∷ goes_on 1
            ∷ goes_on 0
            ∷ goes_on 1
            ∷ goes_on 0
            ∷ goes_on 1
            ∷ [])
          (no_threads {Message = Message})).stages
        ≡ listening 1 ∷ (listening 2 ∷ [])
  unfolding run happen advance_at advance used_id_count acquire_id insert_address address_of
      insert_retriever
  run-passes_limit a b = refl
