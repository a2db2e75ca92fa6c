-- ===== src/Subprocess/Kills.antt =====
-- Subprocess: a kill, and what it leaves behind.
use minide.Base.{◌≡◌, refl, ◌∙◌, Bool, true, false, ℤ, pos, if◌then◌else◌}
use minide.Subprocess.{
  joinable, step_of, end_of, look_at, Child, no_child, running, exited, Watch, no_thread, starting,
  watching, over, Command, LuaProcess, when_exit, watch_step, child_exits, join, run_check_and_join,
  execute_short, kill,
}

module _ {F : Type 0} (killed status : ℤ) where
  end_of-kill_flag : (c : Child) (p : LuaProcess F) → (end_of killed c p).kill_flag ≡ p.kill_flag
  unfolding when_exit
  end_of-kill_flag no_child p = refl
  end_of-kill_flag running p = refl
  end_of-kill_flag (exited n) p = refl

  look_at-kill_flag : (c : Child) (p : LuaProcess F) → (look_at c p).kill_flag ≡ p.kill_flag
  unfolding when_exit
  look_at-kill_flag no_child p = refl
  look_at-kill_flag running p = refl
  look_at-kill_flag (exited n) p = refl

  branch-kill_flag :
      (b flag : Bool) (q r : LuaProcess F)
      → q.kill_flag ≡ flag
      → r.kill_flag ≡ flag
      → (if b then q else r).kill_flag ≡ flag
  branch-kill_flag true flag q r h k = h
  branch-kill_flag false flag q r h k = k

  step_of-kill_flag : (w : Watch) (p : LuaProcess F) → (step_of killed w p).kill_flag ≡ p.kill_flag
  step_of-kill_flag no_thread p = refl
  step_of-kill_flag over p = refl
  step_of-kill_flag starting p = refl
  step_of-kill_flag watching p =
      branch-kill_flag p.kill_flag p.kill_flag _ _ (end_of-kill_flag p.child p)
        (look_at-kill_flag p.child p)

  watch_step-kill_flag : (p : LuaProcess F) → (watch_step killed p).kill_flag ≡ p.kill_flag
  unfolding watch_step
  watch_step-kill_flag p = step_of-kill_flag p.watch p

  join-kill_flag : (p : LuaProcess F) → (join killed status p).kill_flag ≡ p.kill_flag
  unfolding join child_exits
  join-kill_flag p =
      let begun : LuaProcess F = watch_step killed p in
      watch_step-kill_flag _
      ∙ branch-kill_flag begun.kill_flag begun.kill_flag begun (child_exits status begun) refl refl
      ∙ watch_step-kill_flag p

  -- A script that has killed a process, by a kill that came back, and runs another one, whose
  -- start leaves errno 0, gets no error, and the new process is killed by the first look of its
  -- thread, although it runs.
  pub kill-kills_next :
      (command : Command) (p : LuaProcess F)
      → joinable p.watch ≡ true
      → let next = execute_short killed status command (pos 0) (kill killed status p) in
        (next.0 ≡ pos 0)
        × (next.1.child ≡ running)
        × ((watch_step killed (watch_step killed next.1)).child ≡ exited killed)
  unfolding kill execute_short run_check_and_join watch_step when_exit join
  kill-kills_next command p there =
      let flag = join-kill_flag (record p { kill_flag = true }) in
      rw there (refl, refl, rw flag refl)
