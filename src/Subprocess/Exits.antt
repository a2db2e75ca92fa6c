-- ===== src/Subprocess/Exits.antt =====
-- Subprocess: how often a script is told that a process has ended.
use minide.Base.{
  ◌≤◌, refl, Bool, true, false, List, [], ◌∷◌, Bytes, ℤ, pos, negsuc, zero, suc, length,
  if◌then◌else◌, arith,
}
use minide.Subprocess.{
  joinable, no_child, Command, Callbacks, LuaProcess, prints_out, prints_err, watch_step,
  child_exits, join, run_check_and_join, execute_short, execute, execute_with, execute_after,
  run_process, try_get_exit_status, status_after, kill, destroy, new_process,
}
use minide.Subprocess.Quiet.{
  exits_in, pending, owed, Quiet, Joined, branch-Quiet, watch_step-Quiet, join-Quiet,
  run_check_and_join-Joined, exits_in-printed,
}

-- What a script does with a process, with the error of a start and the status of a process that is waited
-- for, a step of the thread, and what the process does.
pub data Event (F : Type 0) : Type 0 where
  executes : Callbacks F → Command → ℤ → ℤ → Event F
  executes_short : Command → ℤ → ℤ → Event F
  asks : ℤ → Event F
  kills : ℤ → Event F
  destroys : ℤ → Event F
  looks : Event F
  exits : ℤ → Event F
  prints : Bytes → Event F
  warns : Bytes → Event F

abbrev pub Balanced : {F : Type 0} → LuaProcess F → Type 0
Balanced p = owed p ≤ length p.starts

module _ {F : Type 0} (killed : ℤ) where
  unfoldable pub happen : Event F → LuaProcess F → LuaProcess F
  happen (executes callbacks command error status) p =
      (execute killed status callbacks command error p).1
  happen (executes_short command error status) p = (execute_short killed status command error p).1
  happen (asks status) p = (try_get_exit_status killed status p).1
  happen (kills status) p = kill killed status p
  happen (destroys status) p = destroy killed status p
  happen looks p = watch_step killed p
  happen (exits status) p = child_exits status p
  happen (prints text) p = prints_out text p
  happen (warns text) p = prints_err text p

  unfoldable pub run : List (Event F) → LuaProcess F → LuaProcess F
  unfolding happen
  run [] p = p
  run (event ∷ events) p = run events (happen event p)

  Quiet-Balanced : (p q : LuaProcess F) → Quiet p q → Balanced p → Balanced q
  Quiet-Balanced p q (less, same) h = rw same (omega (arith, less, h))

  execute_after-Balanced :
      (command : Command) (error : ℤ) (p : LuaProcess F) (r : Bool × LuaProcess F)
      → Joined killed p r
      → Balanced p
      → Balanced (execute_after command error r).1
  unfolding pending
  execute_after-Balanced command error p (false, q) (quiet, idle) h = Quiet-Balanced p q quiet h
  execute_after-Balanced command error p (true, q) (quiet, idle) h = run_process-Balanced error
    where
      before : Balanced q
      before = Quiet-Balanced p q quiet h

      run_process-Balanced : (error : ℤ) → Balanced (run_process command error q).1
      run_process-Balanced (pos zero) = omega (arith, before)
      run_process-Balanced (pos (suc n)) = omega (arith, before)
      run_process-Balanced (negsuc n) = omega (arith, before)

  execute_short-Balanced :
      (status : ℤ) (command : Command) (error : ℤ) (p : LuaProcess F)
      → Balanced p
      → Balanced (execute_short killed status command error p).1
  unfolding execute_short
  execute_short-Balanced status command error p h =
      execute_after-Balanced command error p (run_check_and_join killed status p)
        (run_check_and_join-Joined killed status p) h

  execute-Balanced :
      (status : ℤ) (callbacks : Callbacks F) (command : Command) (error : ℤ) (p : LuaProcess F)
      → Balanced p
      → Balanced (execute killed status callbacks command error p).1
  unfolding execute
  execute-Balanced status callbacks command error p h =
      by_join (run_check_and_join killed status p) (run_check_and_join-Joined killed status p)
    where
      by_join :
          (r : Bool × LuaProcess F)
          → Joined killed p r
          → Balanced (execute_with killed status callbacks command error r).1
      by_join (false, q) (quiet, idle) = Quiet-Balanced p q quiet h
      by_join (true, q) (quiet, idle) =
          execute_short-Balanced status command error (record q { callbacks = callbacks })
            (Quiet-Balanced p q quiet h)

  try_get_exit_status-Balanced :
      (status : ℤ) (p : LuaProcess F)
      → Balanced p
      → Balanced (try_get_exit_status killed status p).1
  unfolding try_get_exit_status
  try_get_exit_status-Balanced status p h =
      by_join (run_check_and_join killed status p) (run_check_and_join-Joined killed status p)
    where
      by_join : (r : Bool × LuaProcess F) → Joined killed p r → Balanced (status_after r).1
      by_join (false, q) (quiet, idle) = Quiet-Balanced p q quiet h
      by_join (true, q) (quiet, idle) = Quiet-Balanced p q quiet h

  kill-Balanced : (status : ℤ) (p : LuaProcess F) → Balanced p → Balanced (kill killed status p)
  unfolding kill
  kill-Balanced status p h =
      let flagged : LuaProcess F = record p { kill_flag = true } in
      let joined : LuaProcess F = join killed status flagged in
      Quiet-Balanced p (if joinable p.watch then record joined { child = no_child } else p)
        (branch-Quiet killed (joinable p.watch) p (record joined { child = no_child }) p
          (join-Quiet killed status flagged) (omega arith, refl))
        h

  destroy-Balanced :
      (status : ℤ) (p : LuaProcess F) → Balanced p → Balanced (destroy killed status p)
  unfolding destroy
  destroy-Balanced status p h =
      let flagged : LuaProcess F = record p { kill_flag = true } in
      let joined : LuaProcess F = join killed status flagged in
      Quiet-Balanced p (if joinable p.watch then joined else flagged)
        (branch-Quiet killed (joinable p.watch) p joined flagged (join-Quiet killed status flagged)
          (omega arith, refl))
        h

  happen-Balanced : (event : Event F) (p : LuaProcess F) → Balanced p → Balanced (happen event p)
  unfolding happen
  happen-Balanced (executes callbacks command error status) p h =
      execute-Balanced status callbacks command error p h
  happen-Balanced (executes_short command error status) p h =
      execute_short-Balanced status command error p h
  happen-Balanced (asks status) p h = try_get_exit_status-Balanced status p h
  happen-Balanced (kills status) p h = kill-Balanced status p h
  happen-Balanced (destroys status) p h = destroy-Balanced status p h
  happen-Balanced looks p h = Quiet-Balanced p (watch_step killed p) (watch_step-Quiet killed p) h
  happen-Balanced (exits status) p h = unfold child_exits in h
  happen-Balanced (prints text) p h =
      unfold prints_out in
      rw (exits_in-printed killed p.state_is_there p.callbacks.on_std_out text p.calls) h
  happen-Balanced (warns text) p h =
      unfold prints_err in
      rw (exits_in-printed killed p.state_is_there p.callbacks.on_std_err text p.calls) h

  -- Whatever a script does with a process object, however its thread and the processes go on meanwhile,
  -- and whatever statuses and errors come: it is told that a process has ended at most once for each
  -- start of a process, and the thread that is left, if it still has to tell, is counted.
  pub run-Balanced : (events : List (Event F)) → Balanced (run events new_process)
  unfolding run
  run-Balanced events =
      keeps events new_process (unfold new_process exits_in pending in omega arith)
    where
      keeps : (events : List (Event F)) (p : LuaProcess F) → Balanced p → Balanced (run events p)
      keeps [] p h = h
      keeps (event ∷ events) p h = keeps events (happen event p) (happen-Balanced event p h)
