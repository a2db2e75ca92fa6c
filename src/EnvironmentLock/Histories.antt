-- ===== src/EnvironmentLock/Histories.antt =====
-- EnvironmentLock: what holds in every history of two calls.
use minide.Base.{
  ℕ, suc, ◌≡◌, refl, inl, inr, ◌⊎◌, Bool, true, false, not, ◌||◌, some, Bytes, subst, Bool-cases,
}
use minide.EnvironmentLock.{
  Stage, acquiring, guarding, reading, setting, working, restoring, finished, Call, Shared, step,
  step_at, Threads, Step, left_step, right_step, Reach, stay, go_on, start,
}

-- The steps that a call has left.
abbrev pub left_at : Stage → ℕ
left_at acquiring = 6
left_at guarding = 5
left_at reading = 4
left_at (setting prev) = 3
left_at (working prev) = 2
left_at (restoring prev) = 1
left_at finished = 0

abbrev pub is_guarding : Stage → Bool
is_guarding guarding = true
is_guarding _ = false

-- A step of a call takes one of its steps away. Whoever holds the mutex is about to let it go.
pub step_at-left :
    (c c' : Call) (s s' : Shared) (stage : Stage)
    → step_at c s stage ≡ some (c', s')
    → suc (left_at c'.stage) ≡ left_at stage
step_at-left c c' s s' acquiring e = elim (Bool-cases s.locked) [
  | inl l ↦ cc (rw l at e)
  | inr u ↦ cc (rw u at e)
]
step_at-left c c' s s' guarding e = cc e
step_at-left c c' s s' reading e = cc e
step_at-left c c' s s' (setting prev) e = cc e
step_at-left c c' s s' (working prev) e = cc e
step_at-left c c' s s' (restoring prev) e = cc e
step_at-left c c' s s' finished e = cc e

-- The mutex is held only by a call that is about to let it go.
abbrev held_by : Bool → Call → Bool
held_by other c = is_guarding c.stage || other

-- What holds of the result of a step holds of the pair that it is.
from_some : (P : Call × Shared → Type 0) {x y : Call × Shared} → some x ≡ some y → P x → P y
from_some P {x} {y} e h = let same : x ≡ y = cc e in subst P same h

abbrev pub Held : Bool → Call × Shared → Type 0
Held other (c, s) = (not s.locked || held_by other c) ≡ true

pub step_at-Held :
    (other : Bool) (c : Call) (s : Shared) (stage : Stage) {r : Call × Shared}
    → (not s.locked || (is_guarding stage || other)) ≡ true
    → step_at c s stage ≡ some r
    → Held other r
step_at-Held other c s acquiring h e = elim (Bool-cases s.locked) [
  | inl l ↦ cc (rw l at e)
  | inr u ↦ from_some (Held other) (rw u at e) refl
]
step_at-Held other c s guarding h e = from_some (Held other) e refl
step_at-Held other c s reading h e = from_some (Held other) e h
step_at-Held other c s (setting prev) h e = from_some (Held other) e h
step_at-Held other c s (working prev) h e = from_some (Held other) e h
step_at-Held other c s (restoring prev) h e = from_some (Held other) e h
step_at-Held other c s finished h e = cc e

-- What a call does with paths that are known: it keeps and sets no others.
module _ (IsKnown : Bytes → Type 0) where
  abbrev Keeping : Stage → Type 0
  Keeping (setting prev) = IsKnown prev
  Keeping (working prev) = IsKnown prev
  Keeping (restoring prev) = IsKnown prev
  Keeping _ = Unit {0}

  abbrev KnownTo : Call × Shared → Type 0
  KnownTo (c, s) = IsKnown s.path × IsKnown c.wanted × Keeping c.stage

  step_at-KnownTo :
      (c : Call) (s : Shared) (stage : Stage) {r : Call × Shared}
      → IsKnown s.path
      → IsKnown c.wanted
      → Keeping stage
      → step_at c s stage ≡ some r
      → KnownTo r
  step_at-KnownTo c s acquiring p w k e = elim (Bool-cases s.locked) [
    | inl l ↦ cc (rw l at e)
    | inr u ↦ from_some KnownTo (rw u at e) (p, w, tt)
  ]
  step_at-KnownTo c s guarding p w k e = from_some KnownTo e (p, w, tt)
  step_at-KnownTo c s reading p w k e = from_some KnownTo e (p, w, p)
  step_at-KnownTo c s (setting prev) p w k e = from_some KnownTo e (w, w, k)
  step_at-KnownTo c s (working prev) p w k e = from_some KnownTo e (p, w, k)
  step_at-KnownTo c s (restoring prev) p w k e = from_some KnownTo e (k, w, tt)
  step_at-KnownTo c s finished p w k e = cc e

  abbrev AllKnown : Threads → Type 0
  AllKnown t = KnownTo (t.left, t.shared) × KnownTo (t.right, t.shared)

  Step-AllKnown : (t u : Threads) → Step t u → AllKnown t → AllKnown u
  unfolding step
  Step-AllKnown t u (left_step e f) (k, o) =
      let after : KnownTo (u.left, u.shared) =
        step_at-KnownTo t.left t.shared t.left.stage k.0 k.1 k.2 e in
      (after, subst (λ c. KnownTo (c, u.shared)) f (after.0, o.1, o.2))
  Step-AllKnown t u (right_step e f) (o, k) =
      let after : KnownTo (u.right, u.shared) =
        step_at-KnownTo t.right t.shared t.right.stage k.0 k.1 k.2 e in
      (subst (λ c. KnownTo (c, u.shared)) f (after.0, o.1, o.2), after)

  Reach-AllKnown : {t u : Threads} → Reach t u → AllKnown t → AllKnown u
  Reach-AllKnown stay k = k
  Reach-AllKnown (go_on now after r st) k = Step-AllKnown now _ st (Reach-AllKnown r k)

-- Whatever is said of two calls at the same time, PATH is at any moment the one from before, or the one
-- that a call wants.
pub start-Reach_known :
    {path a b : Bytes} {t : Threads}
    → Reach (start path a b) t
    → (t.shared.path ≡ path) ⊎ ((t.shared.path ≡ a) ⊎ (t.shared.path ≡ b))
start-Reach_known {path} {a} {b} r =
    (Reach-AllKnown IsOne r ((inl refl, inr (inl refl), tt), (inl refl, inr (inr refl), tt))).0.0
  where
    IsOne : Bytes → Type 0
    IsOne x = (x ≡ path) ⊎ ((x ≡ a) ⊎ (x ≡ b))
