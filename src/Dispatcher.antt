-- ===== src/Dispatcher.antt =====
-- backend/src/backend/server/stream/dispatcher.cpp, its header and subscription.hpp: messages go to
-- the callbacks that subscribed to their type.
pub mod Delivery
pub mod Tests
use minide.Base.{ℕ, Bool, true, false, List, [], ◌∷◌, ◌++◌, Bytes, bytes_eq, if◌then◌else◌}

-- `m_subscribers`. A `weak_ptr<Subscription>` is a number; the pairs of one type stand in the order
-- in which the multimap visits them.
abbrev pub Subscribers : Type 0
Subscribers = List (Bytes × ℕ)

-- `subscribe`: the new subscription comes behind those of its type, as it does in the usual libraries;
-- the order of equal keys in an unordered_multimap is not specified.
unfoldable pub subscribe : Subscribers → Bytes → ℕ → Subscribers
subscribe subs type id = subs ++ ((type, id) ∷ [])

-- What surrounds the dispatcher: `alive` says whether `lock()` gives the subscription, and `invoke`
-- runs its callback, which may change the surroundings.
pub record Surroundings (Msg World : Type 0) : Type 0 where
  pub alive : World → ℕ → Bool
  pub invoke : ℕ → Msg → World → Bool × World

module _ {Msg World : Type 0} (env : Surroundings Msg World) where
  abbrev pub keep_entry : Bytes × ℕ → Subscribers × World → Subscribers × World
  keep_entry e r = (e ∷ r.0, r.1)

  -- The callback of a subscription that is alive has answered `go_on`.
  abbrev pub after_answer :
      Bytes × ℕ → Subscribers → Bool × World → (World → Subscribers × World) → Subscribers × World
  after_answer e rest (true, w) go = keep_entry e (go w)
  after_answer e rest (false, w) go = (e ∷ rest, w)

  -- One pair: of another type, which the range does not hold; dead, and erased; or called.
  abbrev pub visit_entry :
      Bool
      → Bool
      → Bytes × ℕ
      → Subscribers
      → Bool × World
      → (World → Subscribers × World)
      → World
      → Subscribers × World
  visit_entry false is_alive e rest answer go w = keep_entry e (go w)
  visit_entry true false e rest answer go w = go w
  visit_entry true true e rest answer go w = after_answer e rest answer go

  -- The loop over the range of the message's type.
  unfoldable pub visit : Bytes → Msg → Subscribers → World → Subscribers × World
  visit type msg [] w = ([], w)
  visit type msg ((k, id) ∷ rest) w =
      visit_entry (bytes_eq k type) (env.alive w id) (k, id) rest (env.invoke id msg w)
        (visit type msg rest) w

  -- `dispatch`, for a message whose "type" is the first argument.
  unfoldable pub dispatch : Bytes → Msg → Subscribers → World → Subscribers × World
  unfolding visit
  dispatch type msg subs w = visit type msg subs w
