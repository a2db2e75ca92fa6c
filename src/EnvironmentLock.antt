-- ===== src/EnvironmentLock.antt =====
-- worker/environment_lock.cpp: calls of doWithModifiedPath on two threads, as steps on the variable
-- PATH and the mutex.
pub mod Races
pub mod Histories
pub mod Progress
pub mod Tests
use minide.Base.{◌≡◌, Bool, true, false, Option, none, some, List, [], ◌∷◌, Bytes}

-- Where a call is. `guarding` is the life of the lock guard: it has no name, so it ends at the end of
-- its line. `prevPath` is kept from there on.
pub data Stage : Type 0 where
  acquiring guarding reading : Stage
  setting working restoring : Bytes → Stage
  finished : Stage

-- A call: the path that it wants, where it is, and the path that its work has seen.
pub record Call : Type 0 where
  pub wanted : Bytes
  pub stage : Stage
  pub seen : Option Bytes

pub record Shared : Type 0 where
  pub path : Bytes
  pub locked : Bool

abbrev pub new_call : Bytes → Call
new_call wanted = record { wanted = wanted; stage = acquiring; seen = none }

abbrev pub acquire : Call → Shared → Bool → Option (Call × Shared)
acquire c s true = none
acquire c s false = some (record c { stage = guarding }, record s { locked = true })

abbrev pub step_at : Call → Shared → Stage → Option (Call × Shared)
step_at c s acquiring = acquire c s s.locked
step_at c s guarding = some (record c { stage = reading }, record s { locked = false })
step_at c s reading = some (record c { stage = setting s.path }, s)
step_at c s (setting prev) = some (record c { stage = working prev }, record s { path = c.wanted })
step_at c s (working prev) = some (record c { stage = restoring prev; seen = some s.path }, s)
step_at c s (restoring prev) = some (record c { stage = finished }, record s { path = prev })
step_at c s finished = none

-- One step of a call; `none` where it waits for the mutex or has ended.
unfoldable pub step : Call → Shared → Option (Call × Shared)
step c s = step_at c s c.stage

-- Two threads, and what they share.
pub record Threads : Type 0 where
  pub left : Call
  pub right : Call
  pub shared : Shared

pub data Step (before after : Threads) : Type 0 where
  left_step :
      step before.left before.shared ≡ some (after.left, after.shared)
      → before.right ≡ after.right
      → Step before after
  right_step :
      step before.right before.shared ≡ some (after.right, after.shared)
      → before.left ≡ after.left
      → Step before after

-- The histories of steps.
pub data Reach (before : Threads) : Threads → Type 0 where
  stay : Reach before before
  go_on : (now after : Threads) → Reach before now → Step now after → Reach before after

abbrev pub start : Bytes → Bytes → Bytes → Threads
start path a b = record {
  left = new_call a;
  right = new_call b;
  shared = record { path = path; locked = false };
}
