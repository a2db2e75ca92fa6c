-- ===== src/EnvironmentLock/Races.antt =====
-- EnvironmentLock: what two calls of doWithModifiedPath at the same time can come to.
use minide.Base.{◌≡◌, refl, sym, Bool, true, false, Option, none, some, List, [], ◌∷◌, Bytes}
use minide.EnvironmentLock.{
  finished, Call, Shared, step, Threads, Step, left_step, right_step, Reach, stay, go_on, start,
}

abbrev with_left : Threads → Option (Call × Shared) → Option Threads
with_left t none = none
with_left t (some (c, s)) = some (record t { left = c; shared = s })

abbrev with_right : Threads → Option (Call × Shared) → Option Threads
with_right t none = none
with_right t (some (c, s)) = some (record t { right = c; shared = s })

-- The steps of a schedule: `true` is one of the left thread.
abbrev one : Bool → Threads → Option Threads
one true t = with_left t (step t.left t.shared)
one false t = with_right t (step t.right t.shared)

abbrev then_run : (Threads → Option Threads) → Option Threads → Option Threads
then_run go none = none
then_run go (some t) = go t

unfoldable run : List Bool → Threads → Option Threads
run [] t = some t
run (b ∷ bs) t = then_run (run bs) (one b t)

with_left-Step :
    (t u : Threads) (o : Option (Call × Shared))
    → step t.left t.shared ≡ o
    → with_left t o ≡ some u
    → Step t u
with_left-Step t u none e f = cc f
with_left-Step t u (some (c, s)) e f =
    let same : record t { left = c; shared = s } ≡ u = cc f in subst_step same (left_step e refl)
  where
    subst_step : {v : Threads} → v ≡ u → Step t v → Step t u
    subst_step q h = rw (sym q) h

with_right-Step :
    (t u : Threads) (o : Option (Call × Shared))
    → step t.right t.shared ≡ o
    → with_right t o ≡ some u
    → Step t u
with_right-Step t u none e f = cc f
with_right-Step t u (some (c, s)) e f =
    let same : record t { right = c; shared = s } ≡ u = cc f in subst_step same (right_step e refl)
  where
    subst_step : {v : Threads} → v ≡ u → Step t v → Step t u
    subst_step q h = rw (sym q) h

one-Step : (b : Bool) (t u : Threads) → one b t ≡ some u → Step t u
one-Step true t u e = with_left-Step t u _ refl e
one-Step false t u e = with_right-Step t u _ refl e

run_from :
    (bs : List Bool) (r t u : Threads)
    → Reach r t
    → (o : Option Threads) (b : Bool) → one b t ≡ o
    → ((v : Threads) → Reach r v → run bs v ≡ some u → Reach r u)
    → then_run (run bs) o ≡ some u
    → Reach r u
run_from bs r t u h none b e k f = cc f
run_from bs r t u h (some v) b e k f = k v (go_on t v h (one-Step b t v e)) f

run-Reach : (bs : List Bool) (r t u : Threads) → Reach r t → run bs t ≡ some u → Reach r u
unfolding run
run-Reach [] r t u h e = let same : t ≡ u = cc e in rw (sym same) h
run-Reach (b ∷ bs) r t u h e = run_from bs r t u h _ b refl (λ v g f. run-Reach bs r v u g f) e

abbrev lefts_and_rights : List Bool
lefts_and_rights =
    true ∷ true ∷ true ∷ true ∷ false ∷ false ∷ false ∷ false ∷ true ∷ true ∷ false ∷ false ∷ []

abbrev pub done : Bytes → Bytes → Call
done wanted seen = record { wanted = wanted; stage = finished; seen = some seen }

-- Whatever paths two calls of doWithModifiedPath want, they can run so that the work of the first
-- sees the path of the second, the work of the second sees the path from before both, and the path
-- of the first is what stays when both have ended.
pub start-Reach_race :
    (path a b : Bytes)
    → Reach (start path a b) (record {
      left = done a b;
      right = done b path;
      shared = record { path = a; locked = false };
    })
unfolding run step
start-Reach_race path a b = run-Reach lefts_and_rights _ _ _ stay refl
