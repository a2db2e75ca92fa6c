-- ===== src/Subprocess/Quiet.antt =====
-- Subprocess: what a thread still has to tell its script, and which steps owe it no more.
use minide.Base.{
  ℕ, ◌+◌, ◌≤◌, ◌≡◌, refl, ◌∙◌, Bool, true, false, ◌&&◌, Option, none, some, List, [], ◌∷◌, Bytes, ℤ,
  if◌then◌else◌, arith,
}
use minide.Subprocess.{
  joinable, step_of, end_of, look_at, Child, no_child, running, exited, Watch, no_thread, starting,
  watching, over, Called, printed, finished, LuaProcess, called_with, when_exit, watch_step,
  child_exits, join, run_check_and_join,
}

-- The calls that say that a process has ended.
unfoldable pub exits_in : {F : Type 0} → List (Called F) → ℕ
exits_in [] = 0
exits_in (printed f text ∷ calls) = exits_in calls
exits_in (finished f status ∷ calls) = exits_in calls + 1

-- Whether a thread still has to say so.
unfoldable pub pending : Watch → ℕ
pending no_thread = 0
pending starting = 1
pending watching = 1
pending over = 0

joinable-pending : (w : Watch) → joinable w ≡ false → pending w ≡ 0
unfolding pending
joinable-pending no_thread e = refl
joinable-pending starting e = cc e
joinable-pending watching e = cc e
joinable-pending over e = refl

-- What was told, and what is still to be told.
abbrev pub owed : {F : Type 0} → LuaProcess F → ℕ
owed p = exits_in p.calls + pending p.watch

-- Nothing was started, and nothing more is owed.
abbrev pub Quiet : {F : Type 0} → LuaProcess F → LuaProcess F → Type 0
Quiet p q = (owed q ≤ owed p) × (q.starts ≡ p.starts)

module _ {F : Type 0} (killed : ℤ) where
  pub Quiet-trans : (p q r : LuaProcess F) → Quiet p q → Quiet q r → Quiet p r
  Quiet-trans p q r (a, e) (b, f) = (omega (arith, a, b), f ∙ e)

  exits_in-called_with :
      (alive : Bool) (h : Option F) (status : ℤ) (calls : List (Called F))
      → exits_in (called_with alive h (λ f. finished f status) calls) ≤ exits_in calls + 1
  unfolding called_with exits_in
  exits_in-called_with alive none status calls = omega arith
  exits_in-called_with true (some f) status calls = omega arith
  exits_in-called_with false (some f) status calls = omega arith

  pub exits_in-printed :
      (alive : Bool) (h : Option F) (text : Bytes) (calls : List (Called F))
      → exits_in (called_with alive h (λ f. printed f text) calls) ≡ exits_in calls
  unfolding called_with exits_in
  exits_in-printed alive none text calls = refl
  exits_in-printed true (some f) text calls = refl
  exits_in-printed false (some f) text calls = refl

  -- A thread that is there and tells the status does no more than it has to.
  when_exit-Quiet :
      (status : ℤ) (p q : LuaProcess F)
      → pending p.watch ≡ 1
      → q.calls ≡ p.calls
      → q.starts ≡ p.starts
      → Quiet p (when_exit status q)
  unfolding when_exit pending
  when_exit-Quiet status p q due told same =
      let once = exits_in-called_with q.state_is_there q.callbacks.on_exit status q.calls in
      (rw (due, ← told) (omega (arith, once)), same)

  end_of-Quiet : (c : Child) (p : LuaProcess F) → pending p.watch ≡ 1 → Quiet p (end_of killed c p)
  end_of-Quiet no_child p due = (omega arith, refl)
  end_of-Quiet running p due =
      when_exit-Quiet killed p (record p { child = exited killed }) due refl refl
  end_of-Quiet (exited n) p due = when_exit-Quiet n p p due refl refl

  look_at-Quiet : (c : Child) (p : LuaProcess F) → pending p.watch ≡ 1 → Quiet p (look_at c p)
  look_at-Quiet no_child p due = (omega arith, refl)
  look_at-Quiet running p due = (omega arith, refl)
  look_at-Quiet (exited n) p due = when_exit-Quiet n p (record p { exit_status = n }) due refl refl

  pub branch-Quiet :
      (b : Bool) (p q r : LuaProcess F) → Quiet p q → Quiet p r → Quiet p (if b then q else r)
  branch-Quiet true p q r h k = h
  branch-Quiet false p q r h k = k

  step_of-Quiet : (w : Watch) (p : LuaProcess F) → p.watch ≡ w → Quiet p (step_of killed w p)
  unfolding pending
  step_of-Quiet no_thread p e = (omega arith, refl)
  step_of-Quiet over p e = (omega arith, refl)
  step_of-Quiet starting p e = (rw e (omega arith), refl)
  step_of-Quiet watching p e =
      branch-Quiet p.kill_flag p _ _ (end_of-Quiet p.child p (rw e refl))
        (look_at-Quiet p.child p (rw e refl))

  pub watch_step-Quiet : (p : LuaProcess F) → Quiet p (watch_step killed p)
  unfolding watch_step
  watch_step-Quiet p = step_of-Quiet p.watch p refl

  pub join-Quiet : (status : ℤ) (p : LuaProcess F) → Quiet p (join killed status p)
  unfolding join child_exits pending
  join-Quiet status p =
      let begun : LuaProcess F = watch_step killed p in
      let waited : LuaProcess F = if begun.kill_flag then begun else child_exits status begun in
      let first : Quiet p waited = Quiet-trans p begun waited (watch_step-Quiet p) (
        branch-Quiet begun.kill_flag begun begun (child_exits status begun) (omega arith, refl)
          (omega arith, refl)) in
      let last = Quiet-trans p waited (watch_step killed waited) first (watch_step-Quiet waited) in
      (omega (arith, last.0), last.1)

  -- Where a process can be run, no thread is left that has something to say.
  abbrev pub Joined : LuaProcess F → Bool × LuaProcess F → Type 0
  Joined p r = Quiet p r.1 × (r.0 ≡ true → pending r.1.watch ≡ 0)

  pub run_check_and_join-Joined :
      (status : ℤ) (p : LuaProcess F) → Joined p (run_check_and_join killed status p)
  unfolding run_check_and_join
  run_check_and_join-Joined status p = by_cases (joinable p.watch) p.ended refl
    where
      by_cases :
          (b ended : Bool)
          → joinable p.watch ≡ b
          → Joined p (
              if b && ended
              then (true, join killed status p)
              else if b
              then (false, p)
              else (true, p))
      by_cases true true e = (join-Quiet status p, λ _. unfold join pending in refl)
      by_cases true false e = ((omega arith, refl), λ wrong. cc wrong)
      by_cases false ended e = ((omega arith, refl), λ _. joinable-pending p.watch e)
