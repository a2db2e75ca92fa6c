-- ===== src/Subprocess.antt =====
-- worker/scripting_engine/process.cpp: a process that a script runs, and the thread that watches it. The
-- process library is a parameter only by what it answers: the error after a start, what the process
-- prints, and statuses. `F` stands for the functions of the script.
pub mod Lifetime
pub mod Kills
pub mod Quiet
pub mod Exits
pub mod Tests
use minide.Base.{
  ℕ, zero, suc, Bool, true, false, not, ◌&&◌, Option, none, some, List, [], ◌∷◌, Bytes, codes, ℤ,
  pos, negsuc, if◌then◌else◌,
}
use minide.Base.Dict.{find}
use minide.Settings.{insert_all}

-- `process`: none, one that runs, or one that has ended with a status.
pub data Child : Type 0 where
  no_child : Child
  running : Child
  exited : ℤ → Child

-- `lifetimeControl`: no thread, one at its first line, one in its loop, or one that is over and is not
-- joined.
pub data Watch : Type 0 where
  no_thread : Watch
  starting : Watch
  watching : Watch
  over : Watch

-- A call into the script, with what it is called for.
pub data Called (F : Type 0) : Type 0 where
  printed : F → Bytes → Called F
  finished : F → ℤ → Called F

-- What a process is to be run with.
pub record Command : Type 0 where
  pub command_line : Bytes
  pub exec_dir : Bytes
  pub environment : List (Bytes × Bytes)

-- What is handed to the process library; `path` is the PATH that is set while it starts the process.
pub record Start : Type 0 where
  pub command : Command
  pub path : Option Bytes

-- The functions that a script may give to `execute`.
pub record Callbacks (F : Type 0) : Type 0 where
  pub on_std_out : Option F
  pub on_std_err : Option F
  pub on_exit : Option F

-- `state_is_there` is what `lock` of the state of the script answers. The starts and the calls are
-- kept, the last first.
pub record LuaProcess (F : Type 0) : Type 0 where
  pub child : Child
  pub watch : Watch
  pub kill_flag : Bool
  pub exit_status : ℤ
  pub ended : Bool
  pub callbacks : Callbacks F
  pub state_is_there : Bool
  pub starts : List Start
  pub calls : List (Called F)

abbrev pub joinable : Watch → Bool
joinable no_thread = false
joinable starting = true
joinable watching = true
joinable over = true

unfoldable pub called_with :
    {F : Type 0} → Bool → Option F → (F → Called F) → List (Called F) → List (Called F)
called_with state_is_there none call calls = calls
called_with true (some f) call calls = call f ∷ calls
called_with false (some f) call calls = calls

-- The process ends by itself.
abbrev pub exit_with : ℤ → Child → Child
exit_with status running = exited status
exit_with status no_child = no_child
exit_with status (exited old) = exited old

-- `doWithModifiedPath` where there is a PATH, and `environmentLockedDo` else, with a copy of the
-- environment.
unfoldable pub start_of : Command → Start
start_of command =
    let env = insert_all command.environment [] in
    record { command = record command { environment = env }; path = find (codes "PATH") env }

module _ {F : Type 0} where
  unfoldable pub when_exit : ℤ → LuaProcess F → LuaProcess F
  unfolding called_with
  when_exit status p = record p {
    ended = true;
    calls = called_with p.state_is_there p.callbacks.on_exit (λ f. finished f status) p.calls;
    watch = over;
  }

  -- The process prints.
  unfoldable pub prints_out : Bytes → LuaProcess F → LuaProcess F
  unfolding called_with
  prints_out text p = record p {
    calls = called_with p.state_is_there p.callbacks.on_std_out (λ f. printed f text) p.calls;
  }

  unfoldable pub prints_err : Bytes → LuaProcess F → LuaProcess F
  unfolding called_with
  prints_err text p = record p {
    calls = called_with p.state_is_there p.callbacks.on_std_err (λ f. printed f text) p.calls;
  }

  -- A round of the loop where `kill` is not set.
  abbrev pub look_at : Child → LuaProcess F → LuaProcess F
  look_at (exited status) p = when_exit status (record p { exit_status = status })
  look_at running p = p
  look_at no_child p = p

  -- What stands behind the loop; `killed` is the status of a process that was killed.
  abbrev pub end_of : ℤ → Child → LuaProcess F → LuaProcess F
  end_of killed (exited status) p = when_exit status p
  end_of killed running p = when_exit killed (record p { child = exited killed })
  end_of killed no_child p = p

  abbrev pub step_of : ℤ → Watch → LuaProcess F → LuaProcess F
  step_of killed no_thread p = p
  step_of killed over p = p
  step_of killed starting p = record p { ended = false; watch = watching }
  step_of killed watching p = if p.kill_flag then end_of killed p.child p else look_at p.child p

  -- One step of the thread.
  unfoldable pub watch_step : ℤ → LuaProcess F → LuaProcess F
  watch_step killed p = step_of killed p.watch p

  unfoldable pub child_exits : ℤ → LuaProcess F → LuaProcess F
  child_exits status p = record p { child = exit_with status p.child }

  -- `join`: the thread goes on to its end. Where it waits for the process, that ends with the status.
  -- The thread is taken to get the mutex of the state for `onExit`; where the script that joins holds
  -- that mutex the two wait for each other for ever, which is left out.
  unfoldable pub join : ℤ → ℤ → LuaProcess F → LuaProcess F
  unfolding watch_step child_exits
  join killed status p =
      let begun = watch_step killed p in
      let waited = if begun.kill_flag then begun else child_exits status begun in
      record (watch_step killed waited) { watch = no_thread }

  unfoldable pub run_check_and_join : ℤ → ℤ → LuaProcess F → Bool × LuaProcess F
  run_check_and_join killed status p =
      if joinable p.watch && p.ended
      then (true, join killed status p)
      else if joinable p.watch
      then (false, p)
      else (true, p)

  -- A new process, and a thread for it where there was no error. Where there was one, the object is there
  -- all the same, and counts as running.
  abbrev pub run_process : Command → ℤ → LuaProcess F → ℤ × LuaProcess F
  run_process command (pos zero) p =
      (pos 0, record p { child = running; watch = starting; starts = start_of command ∷ p.starts })
  run_process command (pos (suc n)) p =
      (pos (suc n), record p { child = running; starts = start_of command ∷ p.starts })
  run_process command (negsuc n) p =
      (negsuc n, record p { child = running; starts = start_of command ∷ p.starts })

  abbrev pub execute_after : Command → ℤ → Bool × LuaProcess F → ℤ × LuaProcess F
  execute_after command error (false, p) = (negsuc 0, p)
  execute_after command error (true, p) = run_process command error p

  -- `error` is what `errno` holds after the start.
  unfoldable pub execute_short : ℤ → ℤ → Command → ℤ → LuaProcess F → ℤ × LuaProcess F
  execute_short killed status command error p =
      execute_after command error (run_check_and_join killed status p)

  abbrev pub execute_with :
      ℤ → ℤ → Callbacks F → Command → ℤ → Bool × LuaProcess F → ℤ × LuaProcess F
  execute_with killed status callbacks command error (false, p) = (negsuc 0, p)
  execute_with killed status callbacks command error (true, p) =
      execute_short killed status command error (record p { callbacks = callbacks })

  unfoldable pub execute : ℤ → ℤ → Callbacks F → Command → ℤ → LuaProcess F → ℤ × LuaProcess F
  execute killed status callbacks command error p =
      execute_with killed status callbacks command error (run_check_and_join killed status p)

  abbrev pub status_after : Bool × LuaProcess F → Option ℤ × LuaProcess F
  status_after (false, p) = (none, p)
  status_after (true, p) = (some p.exit_status, p)

  unfoldable pub try_get_exit_status : ℤ → ℤ → LuaProcess F → Option ℤ × LuaProcess F
  try_get_exit_status killed status p = status_after (run_check_and_join killed status p)

  -- `kill`, whose argument is not used, and which never sets the flag back.
  unfoldable pub kill : ℤ → ℤ → LuaProcess F → LuaProcess F
  kill killed status p =
      if joinable p.watch
      then record (join killed status (record p { kill_flag = true })) { child = no_child }
      else p

  -- The destructor.
  unfoldable pub destroy : ℤ → ℤ → LuaProcess F → LuaProcess F
  destroy killed status p =
      let flagged = record p { kill_flag = true } in
      if joinable p.watch then join killed status flagged else flagged

  unfoldable pub new_process : LuaProcess F
  new_process = record {
    child = no_child;
    watch = no_thread;
    kill_flag = false;
    exit_status = pos 0;
    ended = false;
    callbacks = record { on_std_out = none; on_std_err = none; on_exit = none };
    state_is_there = true;
    starts = [];
    calls = [];
  }
