-- ===== src/StreamQueue/Safety.antt =====
-- StreamQueue: histories of calls, and no iterator that is still to be read ever dangles.
use minide.Base.{
  ℕ, ◌+◌, ◌≤◌, ◌<◌, ◌≡◌, refl, sym, ap, subst, Option, some, none, List, [], ◌∷◌, ◌++◌, arith, ◌==◌,
  if◌then◌else◌, length, Bool-cases, inl, inr,
}
use mathlib.Core.Option.{some-injective}
use minide.StreamQueue.{
  pop_from, StreamQueue, Entry, empty, list_of, pop_message, consumeable_count, broadcast_message,
  send_message, insert_retriever, unref_message, erase_retriever,
}
use minide.StreamQueue.Count.{
  count, pending, remove, count-remove, count-append, pending-put, pending-erase, pending-push_all,
  ref_sum, ref_sum_above, Descends, unref-Descends, ref_sum-unref, one_if,
}

module _ (Message : Type 0) where
  -- The queue, with the iterators that listeners have popped and not given back.
  pub record World : Type 0 where
    pub queue : StreamQueue Message
    pub held : List ℕ

module _ {Message : Type 0} where
  -- One call, by any thread. A listener gives back only what it holds.
  pub data Step : World Message → World Message → Type 0 where
    inserts :
        (w : World Message) (id : ℕ) → Step w (record w { queue = insert_retriever w.queue id })
    erases : (w : World Message) (id : ℕ) → Step w (record w { queue = erase_retriever w.queue id })
    counts :
        (w : World Message) (id : ℕ)
        → Step w (record w { queue = (consumeable_count w.queue id).1 })
    broadcasts :
        (w : World Message) (m : Message)
        → Step w (record w { queue = broadcast_message w.queue m })
    sends :
        (w : World Message) (id : ℕ) (m : Message)
        → Step w (record w { queue = (send_message w.queue id m).0 })
    pops :
        (w : World Message) (id h : ℕ) (q : StreamQueue Message)
        → pop_message w.queue id ≡ some (h, q)
        → Step w (record { queue = q; held = h ∷ w.held })
    unrefs :
        (w : World Message) (h : ℕ)
        → 0 < count h w.held
        → Step w (record { queue = unref_message w.queue h; held = remove h w.held })

  pub data Reach (u : World Message) : World Message → Type 0 where
    here : Reach u u
    after : {v w : World Message} → Reach u v → Step v w → Reach u w

  -- How often an iterator is still to be read: in an assignment, or by a listener that holds it.
  abbrev pub needed : ℕ → World Message → ℕ
  needed h w = pending h w.queue.assignments + count h w.held

  abbrev pub references : ℕ → World Message → ℕ
  references h w = ref_sum h w.queue.message_cache

  pub record IsSafe (w : World Message) : Type 0 where
    pub covered : (h : ℕ) → needed h w ≤ references h w
    pub descends : Descends w.queue.next_handle w.queue.message_cache

  abbrev pub initial : World Message
  initial = record { queue = empty; held = [] }

  pub initial-IsSafe : IsSafe initial
  unfolding pending count ref_sum
  initial-IsSafe = record { covered = λ h. omega arith; descends = tt }

  pub record Popped (q : StreamQueue Message) (h : ℕ) (q' : StreamQueue Message) : Type 0 where
    pub one_less : (k : ℕ) → pending k q'.assignments + one_if (h == k) ≡ pending k q.assignments
    pub same_cache : q'.message_cache ≡ q.message_cache
    pub same_next : q'.next_handle ≡ q.next_handle

  pop_from-Popped :
      (q : StreamQueue Message) (id : ℕ) (xs : List ℕ) (h : ℕ) (q' : StreamQueue Message)
      → list_of id q.assignments ≡ xs
      → pop_from q id xs ≡ some (h, q')
      → Popped q h q'
  unfolding count
  pop_from-Popped q id [] h q' l e = cc e
  pop_from-Popped q id (x ∷ rest) h q' l e =
      subst (λ (r : ℕ × StreamQueue Message). Popped q r.0 r.1) (some-injective _ _ e)
        (record {
          one_less = λ k. omega (arith, pending-put k id rest q.assignments, ap (count k) l);
          same_cache = refl;
          same_next = refl;
        })

  pub pop_message-Popped :
      (q : StreamQueue Message) (id h : ℕ) (q' : StreamQueue Message)
      → pop_message q id ≡ some (h, q')
      → Popped q h q'
  unfolding pop_message
  pop_message-Popped q id h q' e = pop_from-Popped q id _ h q' refl e

  pub broadcast_needed :
      (q : StreamQueue Message) (m : Message) (h : ℕ)
      → (pending h (broadcast_message q m).assignments
          ≡ pending h q.assignments + (if q.next_handle == h then length q.assignments else 0))
        × (ref_sum h (broadcast_message q m).message_cache
            ≡ (if q.next_handle == h then length q.assignments else 0) + ref_sum h q.message_cache)
  unfolding broadcast_message ref_sum
  broadcast_needed q m h = (pending-push_all h q.next_handle q.assignments, refl)

  -- What a call to `sendMessage` adds to an iterator's places is at most what it adds to its count.
  pub send_needed :
      (q : StreamQueue Message) (id : ℕ) (m : Message) (h : ℕ)
      → (pending h (send_message q id m).0.assignments
          ≤ pending h q.assignments + one_if (q.next_handle == h))
        × (ref_sum h (send_message q id m).0.message_cache
            ≡ one_if (q.next_handle == h) + ref_sum h q.message_cache)
  unfolding send_message ref_sum count
  send_needed q id m h = ground (
    arith,
    pending-put h id (list_of id q.assignments ++ (q.next_handle ∷ [])) q.assignments,
    count-append h (list_of id q.assignments) (q.next_handle ∷ []),
  )

  send_message-Descends :
      (q : StreamQueue Message) (id : ℕ) (m : Message)
      → Descends q.next_handle q.message_cache
      → Descends (send_message q id m).0.next_handle (send_message q id m).0.message_cache
  unfolding send_message
  send_message-Descends q id m d = ground arith

  -- Every call keeps each iterator that is still to be read counted.
  pub Step-IsSafe : {v w : World Message} → Step v w → IsSafe v → IsSafe w
  Step-IsSafe (inserts w id) s =
      unfold insert_retriever count in
      record {
        covered = λ h. omega (arith, s.covered h, pending-put h id [] w.queue.assignments);
        descends = s.descends;
      }
  Step-IsSafe (erases w id) s =
      unfold erase_retriever in
      record {
        covered = λ h. omega (arith, s.covered h, pending-erase h id w.queue.assignments);
        descends = s.descends;
      }
  Step-IsSafe (counts w id) s =
      unfold consumeable_count in
      record {
        covered = λ h. omega (
          arith,
          s.covered h,
          pending-put h id (list_of id w.queue.assignments) w.queue.assignments,
        );
        descends = s.descends;
      }
  Step-IsSafe (broadcasts w m) s = record {
    covered = λ h. omega (arith, s.covered h, broadcast_needed w.queue m h);
    descends = unfold broadcast_message in (omega arith, s.descends);
  }
  Step-IsSafe (sends w id m) s = record {
    covered = λ h. omega (arith, s.covered h, send_needed w.queue id m h);
    descends = send_message-Descends w.queue id m s.descends;
  }
  Step-IsSafe (pops w id h q e) s =
      let p = pop_message-Popped w.queue id h q e in
      record {
        covered = λ k.
            unfold count in omega (arith, s.covered k, p.one_less k, ap (ref_sum k) p.same_cache);
        descends =
            subst (λ x. Descends q.next_handle x) (sym p.same_cache)
              (subst (λ n. Descends n w.queue.message_cache) (sym p.same_next) s.descends);
      }
  Step-IsSafe (unrefs w h e) s =
      unfold unref_message in
      record {
        covered = λ k. omega (
          arith,
          s.covered k,
          s.covered h,
          count-remove k h w.held e,
          ref_sum-unref k h w.queue.next_handle w.queue.message_cache s.descends
              (omega (arith, s.covered h)),
        );
        descends = unref-Descends h w.queue.next_handle w.queue.message_cache s.descends;
      }

  pub Reach-IsSafe : {u w : World Message} → Reach u w → IsSafe u → IsSafe w
  Reach-IsSafe here s = s
  Reach-IsSafe (after r st) s = Step-IsSafe st (Reach-IsSafe r s)

  -- Reading through an iterator: the entry that it points at.
  unfoldable pub entry_at : ℕ → List (Entry Message) → Option (Entry Message)
  entry_at h [] = none
  entry_at h (e ∷ es) = if e.handle == h then some e else entry_at h es

  pub entry_at-references :
      (h n : ℕ) (es : List (Entry Message))
      → Descends n es
      → 0 < ref_sum h es
      → (e : Entry Message) × (entry_at h es ≡ some e) × (ref_sum h es ≡ e.ref_count)
  unfolding entry_at ref_sum
  entry_at-references h n [] d p = absurd (omega arith)
  entry_at-references h n (e ∷ es) d p = elim (Bool-cases (e.handle == h)) [
    | inl same ↦ (e, rw same, ground (arith, ref_sum_above h e.handle es d.1))
    | inr other ↦
        let (e', found, sum) = entry_at-references h e.handle es d.1 (ground arith) in
        (e', rw other found, ground arith)
  ]

  -- After any history of calls in which listeners give back only what they hold, an iterator that
  -- waits in an assignment or that a listener holds points at a cached message whose count is at
  -- least the number of those places.
  pub entry_at-needed :
      (w : World Message) (h : ℕ)
      → Reach initial w
      → 0 < needed h w
      → (e : Entry Message) × (entry_at h w.queue.message_cache ≡ some e)
        × (needed h w ≤ e.ref_count)
  entry_at-needed w h r p =
      let s = Reach-IsSafe r initial-IsSafe in
      let (e, found, sum) =
        entry_at-references h w.queue.next_handle w.queue.message_cache s.descends
          (omega (arith, s.covered h)) in
      (e, found, omega (arith, s.covered h))
