-- ===== src/HttpStreamer/Tests.antt =====
-- HttpStreamer: a channel with room for two listeners.
use minide.Base.{ℕ, ◌≡◌, refl, true, List, [], ◌∷◌, ◌++◌, Bytes, codes, negsuc}
use minide.StreamQueue.{contains}
use minide.HttpStreamer.{listening, gone, answered, code, advance, control_channel, send}
use minide.HttpStreamer.Threads.{Event, sends, goes_on, run, no_threads}
use minide.HttpStreamer.Ownership.{IsOwned, run-IsOwned}
use minide.HttpStreamer.Races.{reuses, run-loses_address}

abbrev home : Bytes
home = codes "::1"

abbrev other : Bytes
other = codes "::2"

-- A listener comes, and is sent something, while its id is given to another one.
abbrev history : List (Event ℕ)
history = reuses home other ++ (sends true control_channel home 1 7 ∷ goes_on 0 ∷ [])

run-IsOwned_example : IsOwned (run 2 history no_threads)
run-IsOwned_example = run-IsOwned 2 history

run-loses_address_example :
    let t = run 2 (reuses home other) (no_threads {Message = ℕ}) in
    (t.stages ≡ listening 1 ∷ (gone ∷ []))
    × (contains 1 t.queues.queue.assignments ≡ true)
    × ((advance 2 (send true control_channel other 1 7) t.queues).0 ≡ answered (code (negsuc 1)))
run-loses_address_example = run-loses_address 2 home other other 7 refl
