-- ===== src/StreamQueue.antt =====
-- worker/streaming/stream_queue.cpp and its header: messages for stream listeners, each stored
-- once and counted. An iterator into `messageCache_` is a number that is given out once.
pub mod Count
pub mod Safety
pub mod Leaks
pub mod Tests
use minide.Base.{
  ℕ, ◌+◌, ◌-◌, ◌^◌, ◌≡◌, Bool, true, false, Option, none, some, List, [], ◌∷◌, ◌++◌, ◌==◌,
  if◌then◌else◌, length, map,
}

module _ (Message : Type 0) where
  -- `ReferenceCountedMessage`, with the iterator that points at it.
  pub record Entry : Type 0 where
    pub handle : ℕ
    pub msg : Message
    pub ref_count : ℕ

  -- `next_handle` is no field of the class: it makes new iterators differ from all before.
  pub record StreamQueue : Type 0 where
    pub assignments : List (ℕ × List ℕ)
    pub message_cache : List Entry
    pub next_handle : ℕ

abbrev pub Assignments : Type 0
Assignments = List (ℕ × List ℕ)

-- The value that `assignments_[id]` reads, an empty list where there is none, and the write to it,
-- which makes the key where it is missing.
unfoldable pub list_of : ℕ → Assignments → List ℕ
list_of id [] = []
list_of id ((k, l) ∷ kvs) = if k == id then l else list_of id kvs

unfoldable pub put : ℕ → List ℕ → Assignments → Assignments
put id l [] = (id, l) ∷ []
put id l ((k, l') ∷ kvs) = if k == id then (k, l) ∷ kvs else (k, l') ∷ put id l kvs

unfoldable pub contains : ℕ → Assignments → Bool
contains id [] = false
contains id ((k, l) ∷ kvs) = if k == id then true else contains id kvs

unfoldable pub erase : ℕ → Assignments → Assignments
erase id [] = []
erase id ((k, l) ∷ kvs) = if k == id then erase id kvs else (k, l) ∷ erase id kvs

-- `for (auto& [key, value] : assignments_) value.push_back(msgIter);`
unfoldable pub push_all : ℕ → Assignments → Assignments
push_all h [] = []
push_all h ((k, l) ∷ kvs) = (k, l ++ (h ∷ [])) ∷ push_all h kvs

-- `--refCount`, on a `std::size_t`.
abbrev pub decremented : ℕ → ℕ
decremented n = if n == 0 then 2 ^ 64 - 1 else n - 1

module _ {Message : Type 0} where
  unfoldable pub unref : ℕ → List (Entry Message) → List (Entry Message)
  unref h [] = []
  unref h (e ∷ es) =
      if e.handle == h
      then (if decremented e.ref_count == 0
          then es
          else record e { ref_count = decremented e.ref_count } ∷ es)
      else e ∷ unref h es

  abbrev pub empty : StreamQueue Message
  empty = record { assignments = []; message_cache = []; next_handle = 0 }

  -- `front` of an empty list is undefined: `none`.
  abbrev pub pop_from : StreamQueue Message → ℕ → List ℕ → Option (ℕ × StreamQueue Message)
  pop_from q retriever [] = none
  pop_from q retriever (accessor ∷ rest) =
      some (accessor, record q { assignments = put retriever rest q.assignments })

  unfoldable pub pop_message : StreamQueue Message → ℕ → Option (ℕ × StreamQueue Message)
  pop_message q retriever = pop_from q retriever (list_of retriever q.assignments)

  -- The look through `operator[]` makes the key.
  unfoldable pub consumeable_count : StreamQueue Message → ℕ → ℕ × StreamQueue Message
  consumeable_count q id =
      let l = list_of id q.assignments in
      (length l, record q { assignments = put id l q.assignments })

  abbrev emplace : StreamQueue Message → Message → ℕ → StreamQueue Message
  emplace q m count = record q {
    message_cache = record { handle = q.next_handle; msg = m; ref_count = count } ∷ q.message_cache;
    next_handle = q.next_handle + 1;
  }

  unfoldable pub broadcast_message : StreamQueue Message → Message → StreamQueue Message
  broadcast_message q m = record (emplace q m (length q.assignments)) {
    assignments = push_all q.next_handle q.assignments;
  }

  -- The flag says that "invalid id" was thrown; the message is in the cache all the same.
  unfoldable pub send_message : StreamQueue Message → ℕ → Message → StreamQueue Message × Bool
  send_message q id m =
      if contains id q.assignments
      then (
        record (emplace q m 1) {
          assignments = put id (list_of id q.assignments ++ (q.next_handle ∷ [])) q.assignments;
        },
        false,
      )
      else (emplace q m 1, true)

  unfoldable pub insert_retriever : StreamQueue Message → ℕ → StreamQueue Message
  insert_retriever q id = record q { assignments = put id [] q.assignments }

  unfoldable pub unref_message : StreamQueue Message → ℕ → StreamQueue Message
  unfolding unref
  unref_message q h = record q { message_cache = unref h q.message_cache }

  unfoldable pub erase_retriever : StreamQueue Message → ℕ → StreamQueue Message
  erase_retriever q id = record q { assignments = erase id q.assignments }
