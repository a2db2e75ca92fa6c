-- ===== src/StreamQueue/Tests.antt =====
-- StreamQueue: a history with two listeners, and the theorems along it.
use minide.Base.{ℕ, ◌≡◌, ◌≤◌, refl, some, [], ◌∷◌, arith}
use minide.StreamQueue.{
  Entry, insert_retriever, broadcast_message, pop_message, erase_retriever, send_message, list_of,
  put, push_all,
}
use minide.StreamQueue.Count.{count, pending}
use minide.StreamQueue.Safety.{
  World, Reach, here, after, inserts, broadcasts, pops, initial, entry_at, entry_at-needed, needed,
}

-- Listeners 1 and 2 are there, message 70 goes to both, and 1 has popped it.
abbrev popped : World ℕ
popped = record {
  queue = record {
    assignments = (1, []) ∷ (2, 0 ∷ []) ∷ [];
    message_cache = record { handle = 0; msg = 70; ref_count = 2 } ∷ [];
    next_handle = 1;
  };
  held = 0 ∷ [];
}

popped-Reach : Reach initial popped
unfolding insert_retriever broadcast_message pop_message list_of put push_all
popped-Reach =
    after (after (after (after here (inserts initial 1)) (inserts _ 2)) (broadcasts _ 70))
      (pops _ 1 0 popped.queue refl)

entry_at-needed_example :
    (e : Entry ℕ) × (entry_at 0 popped.queue.message_cache ≡ some e)
    × (needed 0 popped ≤ e.ref_count)
unfolding count pending
entry_at-needed_example = entry_at-needed popped 0 popped-Reach (omega arith)

abbrev left : World ℕ
left = record popped { queue = erase_retriever popped.queue 2 }

refused : World ℕ
refused = record popped { queue = (send_message popped.queue 9 71).0 }

-- Only listener 1 is there, and it has popped message 70.
abbrev last : World ℕ
last = record {
  queue = record {
    assignments = (1, []) ∷ [];
    message_cache = record { handle = 0; msg = 70; ref_count = 1 } ∷ [];
    next_handle = 1;
  };
  held = 0 ∷ [];
}

last-Reach : Reach initial last
unfolding insert_retriever broadcast_message pop_message list_of put push_all
last-Reach =
    after (after (after here (inserts initial 1)) (broadcasts _ 70)) (pops _ 1 0 last.queue refl)
