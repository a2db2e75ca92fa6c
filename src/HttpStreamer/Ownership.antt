-- ===== src/HttpStreamer/Ownership.antt =====
-- HttpStreamer: an id belongs to one thread, however the threads come together.
use minide.Base.{
  ℕ, zero, suc, ◌+◌, ◌≡◌, refl, Bool, true, false, Option, none, some, List, [], ◌∷◌, ◌==◌, Bytes,
  bytes_eq, leb, if◌then◌else◌, arith, Bool-cases, inl, inr,
}
use minide.IdProvider.{IdProvider, acquire_id, free_id, used_id_count}
use minide.IdProvider.Laws.{
  in_use, IsValid, initial-IsValid, acquire_id-Acquired, free_id-in_use, free_id-IsValid,
}
use minide.HttpStreamer.{
  Queues, Stage, arriving, admitted, holding, registered, listening, erased, freed, gone, too_many,
  overflow, checking, ready, answered, advance, admit, with_id, checked, send, control_channel,
  data_channel, no_channel, StreamChannel, address_of,
}
use minide.HttpStreamer.Threads.{
  Threads, Event, requests, sends, goes_on, serves, advance_at, happen, run, no_threads, holds,
  holders,
}

abbrev used : IdProvider → ℕ → ℕ
used p k = if in_use p k then 1 else 0

-- With `others k` holders of each id `k` beside the thread, or the threads, that count `counts k`.
abbrev Owned : (ℕ → ℕ) → (ℕ → ℕ) → IdProvider → Type 0
Owned others counts p = IsValid p × ((k : ℕ) → others k + counts k ≡ used p k)

erased-Owned :
    (others : ℕ → ℕ) (id : ℕ) (p : IdProvider)
    → Owned others (λ k. if k == id then 1 else 0) p
    → Owned others (λ k. 0) (free_id p id)
erased-Owned others id p g =
    let here : in_use p id ≡ true = ground (arith, g.1 id) in
    (free_id-IsValid p id g.0 here, λ k. ground (arith, g.1 k, free_id-in_use p id k))

module _ {Message : Type 0} where
  admit-holds :
      (stage : Stage Message) (b : Bool) (addr : Bytes) (k : ℕ)
      → stage ≡ admit b addr
      → holds k stage ≡ 0
  unfolding holds
  admit-holds stage true addr k e = rw e refl
  admit-holds stage false addr k e = rw e refl

  checked-holds :
      (addr : Bytes) (id : ℕ) (msg : Message) (found : Option Bytes) (k : ℕ)
      → holds k (checked addr id msg found) ≡ 0
  unfolding holds
  checked-holds addr id msg none k = refl
  checked-holds addr id msg (some a) k = elim (Bool-cases (bytes_eq a addr)) [
    | inl e ↦ rw e refl
    | inr e ↦ rw e refl
  ]

  with_id-Owned :
      (others : ℕ → ℕ) (addr : Bytes) (s : Queues Message) (found : Option (ℕ × IdProvider))
      → acquire_id s.id_provider ≡ found
      → Owned others (λ k. 0) s.id_provider
      → let r = with_id addr s found in Owned others (λ k. holds k r.0) r.1.id_provider
  unfolding holds
  with_id-Owned others addr s none e g = g
  with_id-Owned others addr s (some (a, p)) e g =
      let acquired = acquire_id-Acquired s.id_provider g.0 e in
      (
        acquired.valid,
        λ k. ground (arith, g.1 k, g.1 a, acquired.was_unused, acquired.only_change k),
      )

  advance-Owned :
      (limit : ℕ) (others : ℕ → ℕ) (stage : Stage Message) (s : Queues Message)
      → Owned others (λ k. holds k stage) s.id_provider
      → let r = advance limit stage s in Owned others (λ k. holds k r.0) r.1.id_provider
  unfolding advance holds
  advance-Owned limit others (arriving addr) s g =
      (g.0, λ k. rw (admit-holds _ (leb limit (used_id_count s.id_provider)) addr k refl) (g.1 k))
  advance-Owned limit others (admitted addr) s g = with_id-Owned others addr s _ refl g
  advance-Owned limit others (holding id addr) s g = g
  advance-Owned limit others (registered id) s g = g
  advance-Owned limit others (listening id) s g = g
  advance-Owned limit others (erased id) s g = erased-Owned others id s.id_provider g
  advance-Owned limit others (freed id) s g = g
  advance-Owned limit others (checking addr id msg) s g =
      (g.0, λ k. rw (checked-holds addr id msg (address_of id s.remote_addresses) k) (g.1 k))
  advance-Owned limit others (ready id msg) s g = g
  advance-Owned limit others gone s g = g
  advance-Owned limit others too_many s g = g
  advance-Owned limit others overflow s g = g
  advance-Owned limit others (answered result) s g = g

  advance_at-Owned :
      (limit n : ℕ) (others : ℕ → ℕ) (stages : List (Stage Message)) (s : Queues Message)
      → Owned others (λ k. holders k stages) s.id_provider
      → let r = advance_at limit n stages s in Owned others (λ k. holders k r.0) r.1.id_provider
  unfolding advance_at holders
  advance_at-Owned limit n others [] s g = g
  advance_at-Owned limit zero others (stage ∷ stages) s g =
      let stepped =
        advance-Owned limit (λ k. others k + holders k stages) stage s
          (g.0, λ k. omega (arith, g.1 k)) in
      (stepped.0, λ k. omega (arith, stepped.1 k))
  advance_at-Owned limit (suc n) others (stage ∷ stages) s g =
      let stepped =
        advance_at-Owned limit n (λ k. others k + holds k stage) stages s
          (g.0, λ k. omega (arith, g.1 k)) in
      (stepped.0, λ k. omega (arith, stepped.1 k))

  -- An id in use is held by one thread, and another id by none.
  pub record IsOwned (t : Threads Message) : Type 0 where
    pub valid : IsValid t.queues.id_provider
    pub one_holder : (k : ℕ) → holders k t.stages ≡ (if in_use t.queues.id_provider k then 1 else 0)

  send-holds :
      (safe : Bool) (channel : StreamChannel) (addr : Bytes) (id : ℕ) (msg : Message) (k : ℕ)
      → holds k (send safe channel addr id msg) ≡ 0
  unfolding send holds
  send-holds safe no_channel addr id msg k = refl
  send-holds true control_channel addr id msg k = refl
  send-holds false control_channel addr id msg k = refl
  send-holds true data_channel addr id msg k = refl
  send-holds false data_channel addr id msg k = refl

  happen-IsOwned :
      (limit : ℕ) (event : Event Message) (t : Threads Message)
      → IsOwned t
      → IsOwned (happen limit event t)
  unfolding happen holders holds
  happen-IsOwned limit (requests addr) t g = record {
    valid = g.valid;
    one_holder = λ k. omega (arith, g.one_holder k);
  }
  happen-IsOwned limit (sends safe channel addr id msg) t g = record {
    valid = g.valid;
    one_holder = λ k. rw (send-holds safe channel addr id msg k) (omega (arith, g.one_holder k));
  }
  happen-IsOwned limit (goes_on n) t g =
      let stepped =
        advance_at-Owned limit n (λ k. 0) t.stages t.queues
          (g.valid, λ k. omega (arith, g.one_holder k)) in
      record { valid = stepped.0; one_holder = λ k. omega (arith, stepped.1 k) }
  happen-IsOwned limit (serves queue) t g = record { valid = g.valid; one_holder = g.one_holder }

  -- However the critical sections of any number of requests for a stream, their ends and sends
  -- come together on a channel that began without listeners, and whatever becomes of its queue
  -- meanwhile: each id in use is held by exactly one thread, and no thread holds an id that is not
  -- in use.
  pub run-IsOwned :
      (limit : ℕ) (events : List (Event Message)) → IsOwned (run limit events no_threads)
  unfolding run
  run-IsOwned limit events =
      keeps events no_threads (record {
        valid = initial-IsValid;
        one_holder = λ k. unfold in_use holders in ground arith;
      })
    where
      keeps :
          (events : List (Event Message)) (t : Threads Message)
          → IsOwned t
          → IsOwned (run limit events t)
      keeps [] t g = g
      keeps (event ∷ events) t g =
          keeps events (happen limit event t) (happen-IsOwned limit event t g)
