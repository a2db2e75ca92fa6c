-- ===== src/HttpStreamer/KeepAlive.antt =====
-- HttpStreamer: a listener for whom nothing comes still gets a message now and then.
use minide.Base.{zero, suc, ℕ, ◌+◌, ◌≤◌, ◌≡◌, Bool, true, false, ◌||◌, arith}
use minide.HttpStreamer.{keep_alive}

-- The rounds of a listener for whom nothing comes, by number: whether a keep-alive message has been
-- written in one of them, and the counter behind the last.
unfoldable pub idle_rounds : ℕ → ℕ → Bool × ℕ
idle_rounds zero counter = (false, counter)
idle_rounds (suc n) counter =
    let (writes, next) = keep_alive counter in
    let (later, last) = idle_rounds n (next + 1) in (writes || later, last)

-- From a counter up to 21, eleven rounds in a row in which nothing waits write a keep-alive message,
-- and the counter is up to 21 again.
pub idle_rounds_keep_alive :
    (counter : ℕ)
    → counter ≤ 21
    → ((idle_rounds 11 counter).0 ≡ true) × ((idle_rounds 11 counter).1 ≤ 21)
unfolding idle_rounds keep_alive
idle_rounds_keep_alive counter h = (ground arith, ground arith)
