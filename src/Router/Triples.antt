-- ===== src/Router/Triples.antt =====
-- Router: what holds before a step of a handler, of its value after it, and wherever it ends early.
use minide.Base.{◌≡◌, refl, Bool, true, false, Option, none, some, Bytes}
use minide.Router.Handler.{
  Answer, Flow, value, returned, raised, Step, ◌>>=◌, ◌>>◌, and_then, give, or_raise, answer,
  require, outer, inner, read_json_body,
}

module _ {FilePath State : Type 0} where
  -- After a value the first holds of it and the state; after an early end the second, of the state.
  abbrev pub Ends :
      {A : Type 0} → (A → State → Type 0) → (State → Type 0) → Flow FilePath A × State → Type 0
  Ends After Early (value a, s) = After a s
  Ends After Early (returned r, s) = Early s
  Ends After Early (raised, s) = Early s

  pub record Triple {A : Type 0} (Before : State → Type 0) (m : Step FilePath State A)
      (After : A → State → Type 0) (Early : State → Type 0) : Type 0 where
    pub run : (s : State) → Before s → Ends After Early (m s)

  module _ {Early : State → Type 0} where
    and_then-Ends :
        {A B : Type 0} (After : A → State → Type 0) (Last : B → State → Type 0)
        (r : Flow FilePath A × State) (f : A → Step FilePath State B)
        → Ends After Early r
        → ((a : A) → Triple (After a) (f a) Last Early)
        → Ends Last Early (and_then r f)
    and_then-Ends After Last (value a, s) f h k = (k a).run s h
    and_then-Ends After Last (returned r, s) f h k = h
    and_then-Ends After Last (raised, s) f h k = h

    pub bind-Triple :
        {A B : Type 0} {Before : State → Type 0} {After : A → State → Type 0}
        {Last : B → State → Type 0} {m : Step FilePath State A} {f : A → Step FilePath State B}
        → Triple Before m After Early
        → ((a : A) → Triple (After a) (f a) Last Early)
        → Triple Before (m >>= f) Last Early
    bind-Triple {After} {Last} {m} {f} h k = record {
      run = λ s b. and_then-Ends After Last (m s) f (h.run s b) k;
    }

    pub seq-Triple :
        {B : Type 0} {Before After : State → Type 0} {Last : B → State → Type 0}
        {m : Step FilePath State (Unit {0})} {k : Step FilePath State B}
        → Triple Before m (λ _. After) Early
        → Triple After k Last Early
        → Triple Before (m >> k) Last Early
    seq-Triple {After} {Last} {m} {k} h g = record {
      run = λ s b. and_then-Ends (λ _. After) Last (m s) (λ _. k) (h.run s b) (λ _. g);
    }

    module _ {Before : State → Type 0} (early : (s : State) → Before s → Early s) where
      pub require-Triple :
          (b : Bool) (msg : Bytes)
          → Triple Before (require b msg) (λ _ s. Before s × (b ≡ true)) Early
      require-Triple true msg = record { run = λ s h. (h, refl) }
      require-Triple false msg = record { run = early }

      pub or_raise-Triple :
          {A : Type 0} (o : Option A)
          → Triple Before (or_raise o) (λ a s. Before s × (o ≡ some a)) Early
      or_raise-Triple none = record { run = early }
      or_raise-Triple (some a) = record { run = λ s h. (h, refl) }

      pub give-Triple :
          {A : Type 0} (a : A) → Triple Before (give a) (λ b s. Before s × (b ≡ a)) Early
      give-Triple a = record { run = λ s h. (h, refl) }

      -- A value that ends the handler.
      pub end-Triple : {A : Type 0} (a : A) → Triple Before (give a) (λ _. Early) Early
      end-Triple a = record { run = early }

      pub answer-Triple :
          {A : Type 0} (r : Answer FilePath) (After : A → State → Type 0)
          → Triple Before (answer r) After Early
      answer-Triple r After = record { run = early }

  pub weaken-Triple :
      {A : Type 0} {Before Weaker Early : State → Type 0} {After : A → State → Type 0}
      {m : Step FilePath State A}
      → ((s : State) → Before s → Weaker s)
      → Triple Weaker m After Early
      → Triple Before m After Early
  weaken-Triple h k = record { run = λ s b. k.run s (h s b) }

  -- An answer, or none, leaves the state that the handler ends in.
  pub outer-Triple :
      {Before Early : State → Type 0} (m : Step FilePath State (Answer FilePath))
      → Triple Before m (λ _. Early) Early
      → (s : State) → Before s
      → Early (outer (m s)).1
  outer-Triple {Early} m h s b = by_flow (m s) (h.run s b)
    where
      by_flow :
          (r : Flow FilePath (Answer FilePath) × State)
          → Ends (λ _. Early) Early r
          → Early (outer r).1
      by_flow (value a, s) e = e
      by_flow (returned a, s) e = e
      by_flow (raised, s) e = e

  pub read_json_body-Triple :
      {J : Type 0} {Before Early : State → Type 0} (body : Option J)
      (action : J → Step FilePath State (Answer FilePath))
      → ((s : State) → Before s → Early s)
      → ((j : J) → body ≡ some j → Triple Before (action j) (λ _. Early) Early)
      → Triple Before (read_json_body body action) (λ _. Early) Early
  unfolding read_json_body
  read_json_body-Triple none action early h = record { run = early }
  read_json_body-Triple {Before} {Early} (some j) action early h = record {
    run = λ s b. by_flow (action j s) ((h j refl).run s b);
  }
    where
      by_flow :
          (r : Flow FilePath (Answer FilePath) × State)
          → Ends (λ _. Early) Early r
          → Ends (λ _. Early) Early (inner r)
      by_flow (value a, s) e = e
      by_flow (returned a, s) e = e
      by_flow (raised, s) e = e
