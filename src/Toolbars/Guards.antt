-- ===== src/Toolbars/Guards.antt =====
-- Toolbars: the mutex is given back however an action ends, and which calls of the script it guards.
use minide.Base.{
  ℕ, suc, ◌≤◌, ◌≡◌, refl, ap, sym, ◌∙◌, Bool, true, false, Option, none, some, List, [], ◌∷◌, ◌++◌,
  Bytes, if◌then◌else◌, append_assoc, All, All-append, arith,
}
use minide.Toolbars.{
  ToolbarApiError, Fallible, success, error, thrown, Engine, Action, ◌>>=◌, ◌>>◌, then_do, give,
  fail, or_throw, demand, read, guarded, timed, catching, caught, call, called,
}

module _ {L : Type 0} where
  -- The engine ends with the mutex as it was; what was called since stands before what was called
  -- before, and each of these calls was made while the mutex was held at least as often as the number.
  pub record Since (least : ℕ) (s u : Engine L) : Type 0 where
    pub same_held : u.held ≡ s.held
    pub same_loaded : u.loaded ≡ s.loaded
    pub since : List (Bytes × ℕ)
    pub all_calls : u.calls ≡ since ++ s.calls
    pub all_guarded : All (λ c. least ≤ c.1) since

  Since-refl : (least : ℕ) (s : Engine L) → Since least s s
  Since-refl least s = record {
    same_held = refl;
    same_loaded = refl;
    since = [];
    all_calls = refl;
    all_guarded = tt;
  }

  Since-trans : (least : ℕ) (s u v : Engine L) → Since least s u → Since least u v → Since least s v
  Since-trans least s u v h k = record {
    same_held = k.same_held ∙ h.same_held;
    same_loaded = k.same_loaded ∙ h.same_loaded;
    since = k.since ++ h.since;
    all_calls =
        k.all_calls
        ∙ ap (λ cs. k.since ++ cs) h.all_calls
        ∙ sym (append_assoc k.since h.since s.calls);
    all_guarded = All-append (λ c. least ≤ c.1) k.since h.since k.all_guarded h.all_guarded;
  }

  -- Begun while the mutex is held as often as the first number at least, an action makes its calls while
  -- it is held as often as the second.
  pub record Guards (enters least : ℕ) {A : Type 0} (m : Action L A) : Type 0 where
    pub run : (s : Engine L) → enters ≤ s.held → Since least s (m s).1

  module _ {enters least : ℕ} where
    then_do-Since :
        {A B : Type 0} (s : Engine L) (r : Fallible A × Engine L) (f : A → Action L B)
        → enters ≤ s.held
        → Since least s r.1
        → ((a : A) → Guards enters least (f a))
        → Since least s (then_do r f).1
    then_do-Since s (success a, u) f e h k =
        Since-trans least s u _ h ((k a).run u (rw h.same_held e))
    then_do-Since s (error x, u) f e h k = h
    then_do-Since s (thrown, u) f e h k = h

    pub bind-Guards :
        {A B : Type 0} {m : Action L A} {f : A → Action L B}
        → Guards enters least m
        → ((a : A) → Guards enters least (f a))
        → Guards enters least (m >>= f)
    bind-Guards {m} {f} h k = record { run = λ s e. then_do-Since s (m s) f e (h.run s e) k }

    pub seq-Guards :
        {B : Type 0} {m : Action L (Unit {0})} {k : Action L B}
        → Guards enters least m
        → Guards enters least k
        → Guards enters least (m >> k)
    seq-Guards {m} {k} h g = record {
      run = λ s e. then_do-Since s (m s) (λ _. k) e (h.run s e) (λ _. g);
    }

    pub give-Guards : {A : Type 0} (a : A) → Guards enters least (give a)
    give-Guards a = record { run = λ s e. Since-refl least s }

    pub fail-Guards : {A : Type 0} (x : ToolbarApiError) → Guards enters least {A = A} (fail x)
    fail-Guards x = record { run = λ s e. Since-refl least s }

    pub or_throw-Guards : {A : Type 0} (o : Option A) → Guards enters least (or_throw o)
    or_throw-Guards none = record { run = λ s e. Since-refl least s }
    or_throw-Guards (some a) = record { run = λ s e. Since-refl least s }

    pub demand-Guards : (b : Bool) (message : Bytes) → Guards enters least (demand b message)
    demand-Guards true message = record { run = λ s e. Since-refl least s }
    demand-Guards false message = record { run = λ s e. Since-refl least s }

    pub read-Guards : {A : Type 0} (look : L → A) → Guards enters least (read look)
    read-Guards look = record { run = λ s e. Since-refl least s }

    pub branch-Guards :
        {A : Type 0} {m n : Action L A} (b : Bool)
        → Guards enters least m
        → Guards enters least n
        → Guards enters least (if b then m else n)
    branch-Guards true h k = h
    branch-Guards false h k = k

    pub catching-Guards :
        {A : Type 0} {m : Action L A} → Guards enters least m → Guards enters least (catching m)
    catching-Guards {A} {m} h = record { run = λ s e. by_result s (m s) (h.run s e) }
      where
        by_result :
            (s : Engine L) (r : Fallible A × Engine L)
            → Since least s r.1
            → Since least s (caught r).1
        by_result s (success a, u) k = k
        by_result s (error x, u) k = k
        by_result s (thrown, u) k = k

    pub call-Guards :
        least ≤ enters
        → {A : Type 0} (name : Bytes) (f : L → Option A × L) → Guards enters least (call name f)
    unfolding call
    call-Guards le {A} name f = record { run = λ s e. by_result s (f s.lua) (omega arith) }
      where
        by_result :
            (s : Engine L) (r : Option A × L) → least ≤ s.held → Since least s (called name r s).1
        by_result s (none, lua) e = record {
          same_held = refl;
          same_loaded = refl;
          since = (name, s.held) ∷ [];
          all_calls = refl;
          all_guarded = (e, tt);
        }
        by_result s (some a, lua) e = record {
          same_held = refl;
          same_loaded = refl;
          since = (name, s.held) ∷ [];
          all_calls = refl;
          all_guarded = (e, tt);
        }

    pub guarded-Guards :
        {A : Type 0} (m : Action L A)
        → Guards (suc enters) least m
        → Guards enters least (guarded m)
    unfolding guarded
    guarded-Guards m h = record {
      run = λ s e.
          let inside = h.run (record s { held = suc s.held }) (omega arith) in
          record {
            same_held = refl;
            same_loaded = inside.same_loaded;
            since = inside.since;
            all_calls = inside.all_calls;
            all_guarded = inside.all_guarded;
          };
    }

    pub timed-Guards :
        {A : Type 0} (free : Bool) (m : Action L A)
        → Guards (suc enters) least m
        → Guards enters least (timed free m)
    unfolding timed
    timed-Guards true m h = guarded-Guards m h
    timed-Guards false m h = fail-Guards _
