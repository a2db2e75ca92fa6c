-- ===== src/EnvironmentLock/Tests.antt =====
-- worker/environment_lock.cpp: two calls that want "a" and "b", with PATH "p".
use minide.Base.{refl, codes, true, false}
use minide.EnvironmentLock.{step, Threads, Reach, stay, go_on, left_step, start, new_call, guarding}
use minide.EnvironmentLock.Races.{start-Reach_race, done}

abbrev two_calls : Threads
two_calls = start (codes "p") (codes "a") (codes "b")

abbrev held : Threads
held = record two_calls {
  left = record (new_call (codes "a")) { stage = guarding };
  shared = record { path = codes "p"; locked = true };
}

one_step : Reach two_calls held
unfolding step
one_step = go_on two_calls held stay (left_step refl refl)

start-Reach_race_example : Reach two_calls (record {
  left = done (codes "a") (codes "b");
  right = done (codes "b") (codes "p");
  shared = record { path = codes "a"; locked = false };
})
start-Reach_race_example = start-Reach_race (codes "p") (codes "a") (codes "b")
