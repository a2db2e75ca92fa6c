-- ===== src/StreamQueue/Leaks.antt =====
-- StreamQueue: messages that stay in the cache for ever.
use minide.Base.{ℕ, ◌≤◌, ◌<◌, ◌≡◌, refl, ap, false, some, none, List, [], ◌∷◌, arith}
use minide.StreamQueue.{
  Entry, list_of, consumeable_count, send_message, insert_retriever, unref_message, erase_retriever,
  contains, unref,
}
use minide.StreamQueue.Count.{
  count, count-remove, pending-put, pending-erase, ref_sum, ref_sum_above, Descends, ref_sum-unref,
}
use minide.StreamQueue.Safety.{
  World, Step, inserts, erases, counts, broadcasts, sends, pops, unrefs, Reach, here, after,
  initial, initial-IsSafe, IsSafe, Step-IsSafe, Reach-IsSafe, needed, references,
  pop_message-Popped, broadcast_needed, send_needed, entry_at, entry_at-references,
}

module _ {Message : Type 0} where
  -- The count is higher than the number of places from which it can still be lowered.
  abbrev pub IsLeaked : ℕ → World Message → Type 0
  IsLeaked h w = needed h w < references h w

  Step-IsLeaked : (h : ℕ) {v w : World Message} → Step v w → IsSafe v → IsLeaked h v → IsLeaked h w
  Step-IsLeaked h (inserts w id) s l =
      unfold insert_retriever count in omega (arith, pending-put h id [] w.queue.assignments)
  Step-IsLeaked h (erases w id) s l =
      unfold erase_retriever in omega (arith, pending-erase h id w.queue.assignments)
  Step-IsLeaked h (counts w id) s l =
      unfold consumeable_count in
      omega (arith, pending-put h id (list_of id w.queue.assignments) w.queue.assignments)
  Step-IsLeaked h (broadcasts w m) s l = omega (arith, broadcast_needed w.queue m h)
  Step-IsLeaked h (sends w id m) s l = omega (arith, send_needed w.queue id m h)
  Step-IsLeaked h (pops w id k q e) s l =
      let p = pop_message-Popped w.queue id k q e in
      unfold count in omega (arith, p.one_less h, ap (ref_sum h) p.same_cache)
  Step-IsLeaked h (unrefs w k e) s l =
      unfold unref_message in
      omega (
        arith,
        count-remove h k w.held e,
        ref_sum-unref h k w.queue.next_handle w.queue.message_cache s.descends
            (omega (arith, s.covered k)),
      )

  Reach-IsLeaked :
      (h : ℕ) {v w : World Message} → Reach v w → IsSafe v → IsLeaked h v → IsLeaked h w
  Reach-IsLeaked h here s l = l
  Reach-IsLeaked h (after r st) s l = Step-IsLeaked h st (Reach-IsSafe r s) (Reach-IsLeaked h r s l)

  -- It is in the cache.
  abbrev pub IsCached : ℕ → World Message → Type 0
  IsCached h w = (e : Entry Message) × (entry_at h w.queue.message_cache ≡ some e)

  leaked-IsCached : (h : ℕ) (w : World Message) → IsSafe w → IsLeaked h w → IsCached h w
  leaked-IsCached h w s l =
      let (e, found, sum) =
        entry_at-references h w.queue.next_handle w.queue.message_cache s.descends (omega arith) in
      (e, found)

  -- The iterator of a refused message is nowhere to be read, and counted once.
  refused_leaks :
      (w : World Message) (id : ℕ) (m : Message)
      → IsSafe w
      → contains id w.queue.assignments ≡ false
      → IsLeaked w.queue.next_handle (record w { queue = (send_message w.queue id m).0 })
  unfolding send_message ref_sum
  refused_leaks w id m s unknown =
      let new = w.queue.next_handle in
      let none_before = ref_sum_above new new w.queue.message_cache s.descends (omega arith) in
      ground (arith, s.covered new, none_before)

  entry_at_above :
      (h n : ℕ) (es : List (Entry Message)) → Descends n es → n ≤ h → entry_at h es ≡ none
  unfolding entry_at
  entry_at_above h n [] d le = refl
  entry_at_above h n (e ∷ es) d le = ground (arith, entry_at_above h e.handle es d.1)

  entry_at-unref :
      (h n : ℕ) (es : List (Entry Message))
      → Descends n es
      → ref_sum h es ≡ 1
      → entry_at h (unref h es) ≡ none
  unfolding entry_at unref ref_sum
  entry_at-unref h n [] d one = refl
  entry_at-unref h n (e ∷ es) d one = ground (
    arith,
    entry_at-unref h e.handle es d.1,
    entry_at_above h e.handle es d.1,
    ref_sum_above h e.handle es d.1,
  )

  -- The listener that gives back the last reference removes the message.
  pub unref_message_last :
      (w : World Message) (h : ℕ)
      → Reach initial w
      → references h w ≡ 1
      → entry_at h (unref_message w.queue h).message_cache ≡ none
  unfolding unref_message
  unref_message_last w h r one =
      entry_at-unref h _ w.queue.message_cache (Reach-IsSafe r initial-IsSafe).descends one

  -- A message that still waits for a listener when `eraseRetriever` takes that listener away is in
  -- the cache after every further history of calls: nothing ever lowers its count to zero.
  pub erase_retriever_leaks :
      (w v : World Message) (id h : ℕ)
      → Reach initial w
      → 0 < count h (list_of id w.queue.assignments)
      → Reach (record w { queue = erase_retriever w.queue id }) v
      → IsCached h v
  erase_retriever_leaks w v id h r waits later =
      let s = Reach-IsSafe r initial-IsSafe in
      let s' = Step-IsSafe (erases w id) s in
      leaked-IsCached h v (Reach-IsSafe later s') (Reach-IsLeaked h later s' erased)
    where
      erased : IsLeaked h (record w { queue = erase_retriever w.queue id })
      erased =
          unfold erase_retriever in
          omega (
            arith,
            (Reach-IsSafe r initial-IsSafe).covered h,
            pending-erase h id w.queue.assignments,
          )

  -- So is a message that `sendMessage` refused with "invalid id".
  pub send_message_leaks :
      (w v : World Message) (id : ℕ) (m : Message)
      → Reach initial w
      → contains id w.queue.assignments ≡ false
      → Reach (record w { queue = (send_message w.queue id m).0 }) v
      → IsCached w.queue.next_handle v
  send_message_leaks w v id m r unknown later =
      let s = Reach-IsSafe r initial-IsSafe in
      let s' = Step-IsSafe (sends w id m) s in
      leaked-IsCached _ v (Reach-IsSafe later s')
        (Reach-IsLeaked _ later s' (refused_leaks w id m s unknown))
