-- ===== src/Subprocess/Lifetime.antt =====
-- Subprocess: what a script learns of a process.
use minide.Base.{
  ◌≡◌, refl, ap, ◌∙◌, Bool, true, false, none, some, ◌∷◌, Bytes, ℤ, pos, if◌then◌else◌,
}
use minide.Subprocess.{
  running, exited, no_thread, starting, watching, over, printed, finished, Command, start_of,
  Callbacks, LuaProcess, called_with, when_exit, prints_out, watch_step, child_exits, join,
  run_check_and_join, execute_short, execute, try_get_exit_status,
}

module _ {F : Type 0} (killed status : ℤ) where
  -- The process when it was started, when its thread has begun, and when it has ended.
  abbrev started : Command → LuaProcess F → LuaProcess F
  started command p = record p {
    child = running;
    watch = starting;
    starts = start_of command ∷ p.starts;
  }

  abbrev begun : Command → LuaProcess F → LuaProcess F
  begun command p = record p {
    child = running;
    watch = watching;
    ended = false;
    starts = start_of command ∷ p.starts;
  }

  abbrev ended_with : ℤ → Command → LuaProcess F → LuaProcess F
  ended_with n command p = record p {
    child = exited n;
    watch = over;
    exit_status = n;
    ended = true;
    starts = start_of command ∷ p.starts;
    calls = called_with p.state_is_there p.callbacks.on_exit (λ f. finished f n) p.calls;
  }

  abbrev with_callbacks : Callbacks F → LuaProcess F → LuaProcess F
  with_callbacks callbacks p = record p { callbacks = callbacks }

  execute-started :
      (callbacks : Callbacks F) (command : Command) (p : LuaProcess F)
      → p.watch ≡ no_thread
      → execute killed status callbacks command (pos 0) p
        ≡ (pos 0, started command (with_callbacks callbacks p))
  unfolding execute execute_short run_check_and_join
  execute-started callbacks command p idle = simp idle refl

  watch_step-begun :
      (command : Command) (p : LuaProcess F)
      → watch_step killed (started command p) ≡ begun command p
  unfolding watch_step
  watch_step-begun command p = refl

  watch_step-waits :
      (command : Command) (p : LuaProcess F)
      → p.kill_flag ≡ false
      → watch_step killed (begun command p) ≡ begun command p
  unfolding watch_step
  watch_step-waits command p alive = simp alive refl

  watch_step-ended :
      (n : ℤ) (command : Command) (p : LuaProcess F)
      → p.kill_flag ≡ false
      → watch_step killed (child_exits n (begun command p)) ≡ ended_with n command p
  unfolding watch_step child_exits when_exit
  watch_step-ended n command p alive = simp alive refl

  begun-none :
      (command : Command) (p : LuaProcess F)
      → try_get_exit_status killed status (begun command p) ≡ (none, begun command p)
  unfolding try_get_exit_status run_check_and_join
  begun-none command p = refl

  join-ended :
      (n : ℤ) (command : Command) (p : LuaProcess F)
      → (join killed status (ended_with n command p)).exit_status ≡ n
  unfolding join watch_step child_exits
  join-ended n command p = by_flag p.kill_flag
    where
      by_flag :
          (b : Bool)
          → (watch_step killed (
              if b
              then ended_with n command p
              else child_exits status (ended_with n command p))).exit_status
            ≡ n
      by_flag true = refl
      by_flag false = refl

  ended-some :
      (n : ℤ) (command : Command) (p : LuaProcess F)
      → (try_get_exit_status killed status (ended_with n command p)).0 ≡ some n
  unfolding try_get_exit_status run_check_and_join
  ended-some n command p = ap some (join-ended n command p)

  prints_out-begun :
      (text : Bytes) (f : F) (command : Command) (p : LuaProcess F)
      → p.state_is_there ≡ true
      → p.callbacks.on_std_out ≡ some f
      → prints_out text (begun command p)
        ≡ begun command (record p { calls = printed f text ∷ p.calls })
  unfolding prints_out called_with
  prints_out-begun text f command p there set = simp (there, set) refl

  ended_with-calls :
      (n : ℤ) (h : F) (command : Command) (p : LuaProcess F)
      → p.state_is_there ≡ true
      → p.callbacks.on_exit ≡ some h
      → (ended_with n command p).calls ≡ finished h n ∷ p.calls
  unfolding called_with
  ended_with-calls n h command p there set = rw (there, set) refl

  -- A process that is run with three functions, where the start leaves errno 0, no thread is left
  -- and none was killed, while the state of the script is there: once its thread has begun and has
  -- looked for the first time, its status is not there while it runs; when it has printed a text
  -- and ended, and its thread has looked again, the script gets its status, and the first function
  -- has been called with the text and then the last with the status, each once.
  pub execute-exits :
      (f g h : F) (command : Command) (text : Bytes) (n : ℤ) (p : LuaProcess F)
      → p.watch ≡ no_thread
      → p.kill_flag ≡ false
      → p.state_is_there ≡ true
      → let callbacks : Callbacks F = record {
        on_std_out = some f;
        on_std_err = some g;
        on_exit = some h;
      } in
        let ran = execute killed status callbacks command (pos 0) p in
        let looked = watch_step killed (watch_step killed ran.1) in
        let after = watch_step killed (child_exits n (prints_out text looked)) in
        (ran.0 ≡ pos 0)
        × (try_get_exit_status killed status looked ≡ (none, looked))
        × ((try_get_exit_status killed status after).0 ≡ some n)
        × (after.calls ≡ finished h n ∷ (printed f text ∷ p.calls))
  execute-exits f g h command text n p idle alive there =
      let callbacks : Callbacks F = record {
        on_std_out = some f;
        on_std_err = some g;
        on_exit = some h;
      } in
      let given : LuaProcess F = with_callbacks callbacks p in
      let printing : LuaProcess F = record given { calls = printed f text ∷ p.calls } in
      rw
        (
          execute-started callbacks command p idle,
          watch_step-begun command given,
          watch_step-waits command given alive,
          prints_out-begun text f command given there refl,
          watch_step-ended n command printing alive,
        )
        (
          refl,
          begun-none command given,
          ended-some n command printing,
          ended_with-calls n h command printing there refl,
        )

  join-starting :
      (p : LuaProcess F)
      → p.kill_flag ≡ false
      → (join killed status (record p { child = running; watch = starting })).exit_status ≡ status
  unfolding join watch_step child_exits when_exit
  join-starting p alive = simp alive refl

  try_get_exit_status-starting :
      (p : LuaProcess F)
      → p.kill_flag ≡ false
      → (try_get_exit_status killed status
          (record p { child = running; watch = starting; ended = true })).0
        ≡ some status
  unfolding try_get_exit_status run_check_and_join
  try_get_exit_status-starting p alive = ap some (join-starting (record p { ended = true }) alive)

  execute_short-started :
      (command : Command) (p : LuaProcess F)
      → p.watch ≡ no_thread
      → (execute_short killed status command (pos 0) p).1 ≡ started command p
  unfolding execute_short run_check_and_join
  execute_short-started command p idle = simp idle refl

  -- Asked before the thread of a second process has come to its first line, `try_get_exit_status` waits
  -- for the process to end: whatever its status will be, that is the answer.
  pub try_get_exit_status-waits :
      (command : Command) (p : LuaProcess F)
      → p.watch ≡ no_thread
      → p.kill_flag ≡ false
      → p.ended ≡ true
      → (try_get_exit_status killed status (execute_short killed status command (pos 0) p).1).0
        ≡ some status
  try_get_exit_status-waits command p idle alive old =
      let run : LuaProcess F = started command p in
      let same : run ≡ record run { ended = true } = ap (λ b. record run { ended = b }) old in
      ap (λ q. (try_get_exit_status killed status q).0)
        (execute_short-started command p idle ∙ same)
      ∙ try_get_exit_status-starting run alive
