-- ===== src/Subprocess/Tests.antt =====
-- worker/scripting_engine/process.cpp: a process that ends, one after a kill, and two processes.
use minide.Base.{
  ◌≡◌, refl, true, false, none, some, List, [], ◌∷◌, Bytes, codes, bytes_eq, pos, negsuc,
}
use minide.Base.Dict.{find, put}
use minide.Settings.{insert_all}
use minide.Subprocess.{
  LuaProcess, Callbacks, Command, printed, finished, running, exited, watching, start_of,
  watch_step, child_exits, prints_out, execute_short, execute, try_get_exit_status, kill,
  new_process, run_check_and_join, when_exit, called_with, join,
}
use minide.Subprocess.Lifetime.{execute-exits}
use minide.Subprocess.Kills.{kill-kills_next}
use minide.Subprocess.Exits.{
  Event, executes, executes_short, asks, kills, looks, exits, prints, run, happen, Balanced,
  run-Balanced,
}

abbrev sample_environment : List (Bytes × Bytes)
sample_environment = (codes "PATH", codes "/bin") ∷ (codes "LANG", codes "C") ∷ []

abbrev build : Command
build = record {
  command_line = codes "make";
  exec_dir = codes "/home";
  environment = sample_environment;
}

start_of-build : (start_of build).path ≡ some (codes "/bin")
unfolding start_of insert_all find put bytes_eq
start_of-build = refl

-- The functions of the script are texts here.
abbrev sample_callbacks : Callbacks Bytes
sample_callbacks = record {
  on_std_out = some (codes "out");
  on_std_err = some (codes "err");
  on_exit = some (codes "exit");
}

execute-exits_example :
    let ran = execute (negsuc 8) (pos 0) sample_callbacks build (pos 0) new_process in
    let looked = watch_step (negsuc 8) (watch_step (negsuc 8) ran.1) in
    let after = watch_step (negsuc 8) (child_exits (pos 3) (prints_out (codes "done") looked)) in
    (ran.0 ≡ pos 0)
    × (try_get_exit_status (negsuc 8) (pos 0) looked ≡ (none, looked))
    × ((try_get_exit_status (negsuc 8) (pos 0) after).0 ≡ some (pos 3))
    × (after.calls
        ≡ finished (codes "exit") (pos 3)
          ∷ (printed (codes "out") (codes "done") ∷ new_process.calls))
execute-exits_example =
    execute-exits (negsuc 8) (pos 0) (codes "out") (codes "err") (codes "exit") build (codes "done")
      (pos 3) new_process (unfold new_process in refl) (unfold new_process in refl)
      (unfold new_process in refl)

abbrev busy : LuaProcess Bytes
busy = record {
  child = running;
  watch = watching;
  kill_flag = false;
  exit_status = pos 0;
  ended = false;
  callbacks = sample_callbacks;
  state_is_there = true;
  starts = start_of build ∷ [];
  calls = [];
}

kill-kills_next_example :
    let next = execute_short (negsuc 8) (pos 0) build (pos 0) (kill (negsuc 8) (pos 0) busy) in
    (next.0 ≡ pos 0)
    × (next.1.child ≡ running)
    × ((watch_step (negsuc 8) (watch_step (negsuc 8) next.1)).child ≡ exited (negsuc 8))
kill-kills_next_example = kill-kills_next (negsuc 8) (pos 0) build busy refl

-- One process runs to its end, and a second one is waited for, after a question that comes early.
abbrev two_runs : List (Event Bytes)
two_runs =
    executes sample_callbacks build (pos 0) (pos 0)
    ∷ looks
    ∷ prints (codes "done")
    ∷ exits (pos 3)
    ∷ looks
    ∷ executes_short build (pos 0) (pos 0)
    ∷ asks (pos 5)
    ∷ kills (pos 0)
    ∷ []

two_runs_calls :
    (run (negsuc 8) two_runs new_process).calls
    ≡ finished (codes "exit") (pos 5)
      ∷ (finished (codes "exit") (pos 3) ∷ (printed (codes "out") (codes "done") ∷ []))
unfolding run happen execute execute_short run_check_and_join watch_step when_exit child_exits
    prints_out called_with try_get_exit_status join kill new_process
two_runs_calls = refl

run-Balanced_example : Balanced (run (negsuc 8) two_runs new_process)
run-Balanced_example = run-Balanced (negsuc 8) two_runs
