-- ===== src/EnvironmentLock/Progress.antt =====
-- EnvironmentLock: two calls never wait for each other for ever.
use minide.Base.{
  ℕ, zero, suc, ◌+◌, ◌≤◌, ◌≡◌, refl, ap, inl, inr, ◌⊎◌, Bool, true, not, ◌||◌, some, Bytes, subst,
  arith, Bool-cases,
}
use minide.EnvironmentLock.{
  Stage, acquiring, guarding, reading, setting, working, restoring, finished, Call, Shared, step,
  step_at, Threads, Step, left_step, right_step, Reach, stay, go_on, start,
}
use minide.EnvironmentLock.Histories.{is_guarding, left_at, step_at-left, step_at-Held}

-- A call has ended, waits for the mutex, or can take a step.
abbrev CanStep : Call → Shared → Stage → Type 0
CanStep c s stage = (r : Call × Shared) × (step_at c s stage ≡ some r)

step_at-cases :
    (c : Call) (s : Shared) (stage : Stage)
    → (stage ≡ finished) ⊎ (((stage ≡ acquiring) × (s.locked ≡ true)) ⊎ CanStep c s stage)
step_at-cases c s acquiring = elim (Bool-cases s.locked) [
  | inl l ↦ inr (inl (refl, l))
  | inr u ↦ inr (inr ((record c { stage = guarding }, record s { locked = true }), rw u refl))
]
step_at-cases c s guarding = inr (inr (_, refl))
step_at-cases c s reading = inr (inr (_, refl))
step_at-cases c s (setting prev) = inr (inr (_, refl))
step_at-cases c s (working prev) = inr (inr (_, refl))
step_at-cases c s (restoring prev) = inr (inr (_, refl))
step_at-cases c s finished = inl refl

abbrev IsHeld : Threads → Type 0
IsHeld t = (not t.shared.locked || (is_guarding t.left.stage || is_guarding t.right.stage)) ≡ true

Step-IsHeld : {t u : Threads} → Step t u → IsHeld t → IsHeld u
unfolding step
Step-IsHeld {t} {u} (left_step e f) h =
    subst (λ c. (not u.shared.locked || (is_guarding u.left.stage || is_guarding c.stage)) ≡ true) f
      (step_at-Held (is_guarding t.right.stage) t.left t.shared t.left.stage h e)
Step-IsHeld {t} {u} (right_step e f) h =
    let swapped : (not t.shared.locked || (is_guarding t.right.stage || is_guarding t.left.stage))
        ≡ true =
      ground arith in
    let after = step_at-Held (is_guarding t.left.stage) t.right t.shared t.right.stage swapped e in
    subst (λ c. (not u.shared.locked || (is_guarding c.stage || is_guarding u.right.stage)) ≡ true)
      f (swap (not u.shared.locked) (is_guarding u.right.stage) (is_guarding t.left.stage) after)
  where
    swap : (x y z : Bool) → (x || (y || z)) ≡ true → (x || (z || y)) ≡ true
    swap x y z h = ground arith

Reach-IsHeld : {t u : Threads} → Reach t u → IsHeld t → IsHeld u
Reach-IsHeld stay h = h
Reach-IsHeld (go_on now after r st) h = Step-IsHeld st (Reach-IsHeld r h)

-- Both calls have ended.
abbrev pub HasEnded : Threads → Type 0
HasEnded t = (t.left.stage ≡ finished) × (t.right.stage ≡ finished)

from_left : (t : Threads) → CanStep t.left t.shared t.left.stage → (u : Threads) × Step t u
unfolding step
from_left t (r, e) = (record t { left = r.0; shared = r.1 }, left_step e refl)

from_right : (t : Threads) → CanStep t.right t.shared t.right.stage → (u : Threads) × Step t u
unfolding step
from_right t (r, e) = (record t { right = r.0; shared = r.1 }, right_step e refl)

progress : (t : Threads) → IsHeld t → HasEnded t ⊎ ((u : Threads) × Step t u)
progress t h = elim (step_at-cases t.left t.shared t.left.stage) [
  | inl ended ↦ elim (step_at-cases t.right t.shared t.right.stage) [
    | inl also ↦ inl (ended, also)
    | inr (inl (waits, locked)) ↦ cc (rw (locked, ended, waits) at h)
    | inr (inr can) ↦ inr (from_right t can)
  ]
  | inr (inl (waits, locked)) ↦ elim (step_at-cases t.right t.shared t.right.stage) [
    | inl also ↦ cc (rw (locked, waits, also) at h)
    | inr (inl (too, l)) ↦ cc (rw (locked, waits, too) at h)
    | inr (inr can) ↦ inr (from_right t can)
  ]
  | inr (inr can) ↦ inr (from_left t can)
]

abbrev steps_left : Threads → ℕ
steps_left t = left_at t.left.stage + left_at t.right.stage

Step-steps_left : {t u : Threads} → Step t u → suc (steps_left u) ≡ steps_left t
unfolding step
Step-steps_left {t} {u} (left_step e f) =
    let one_less = step_at-left t.left u.left t.shared u.shared t.left.stage e in
    let same = ap (λ c. left_at c.stage) f in omega arith
Step-steps_left {t} {u} (right_step e f) =
    let one_less = step_at-left t.right u.right t.shared u.shared t.right.stage e in
    let same = ap (λ c. left_at c.stage) f in omega arith

Reach_then : {t u v : Threads} → Step t u → Reach u v → Reach t v
Reach_then {t} st stay = go_on t _ stay st
Reach_then {t} st (go_on now after r last) = go_on now _ (Reach_then st r) last

ends_within :
    (fuel : ℕ) (t : Threads)
    → IsHeld t
    → steps_left t ≤ fuel
    → (u : Threads) × Reach t u × HasEnded u
ends_within zero t h l = elim (progress t h) [
  | inl ended ↦ (t, stay, ended)
  | inr (u, st) ↦ absurd (omega (arith, Step-steps_left st))
]
ends_within (suc fuel) t h l = elim (progress t h) [
  | inl ended ↦ (t, stay, ended)
  | inr (u, st) ↦
      let (v, r, ended) =
        ends_within fuel u (Step-IsHeld st h) (omega (arith, Step-steps_left st)) in
      (v, Reach_then st r, ended)
]

-- However two calls have gone on so far, they can go on until both have ended.
pub start-Reach_ends :
    {path a b : Bytes} {t : Threads}
    → Reach (start path a b) t
    → (u : Threads) × Reach t u × HasEnded u
start-Reach_ends {t} r = ends_within (steps_left t) t (Reach-IsHeld r refl) (omega arith)
