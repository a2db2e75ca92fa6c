-- ===== src/Dispatcher/Delivery.antt =====
-- Dispatcher: who hears a message, and which subscriptions are left.
use minide.Base.{
  ℕ, ◌≡◌, refl, sym, ap, ◌∙◌, Bool, true, false, not, ◌&&◌, List, [], ◌∷◌, ◌++◌, Bytes, bytes_eq,
  if◌then◌else◌, append_assoc, append-nil,
}
use minide.Dispatcher.{Subscribers, Surroundings, dispatch, after_answer, visit_entry}

-- The pairs of the other types.
unfoldable pub others : Bytes → Subscribers → Subscribers
others type [] = []
others type ((k, id) ∷ rest) =
    if bytes_eq k type then others type rest else (k, id) ∷ others type rest

module _ {Msg World : Type 0} (env : Surroundings Msg World) where
  others-after_answer :
      (type k : Bytes) (id : ℕ) (rest : Subscribers) (answer : Bool × World)
      (go : World → Subscribers × World)
      → bytes_eq k type ≡ true
      → ((w : World) → others type (go w).0 ≡ others type rest)
      → others type (after_answer env (k, id) rest answer go).0 ≡ others type rest
  unfolding others
  others-after_answer type k id rest (true, w) go e h = rw e (h w)
  others-after_answer type k id rest (false, w) go e h = rw e

  dispatch-cons :
      (type k : Bytes) (id : ℕ) (rest : Subscribers) (msg : Msg) (w : World) {t a : Bool}
      → bytes_eq k type ≡ t
      → env.alive w id ≡ a
      → dispatch env type msg ((k, id) ∷ rest) w
        ≡ visit_entry env t a (k, id) rest (env.invoke id msg w) (dispatch env type msg rest) w
  unfolding dispatch
  dispatch-cons type k id rest msg w e f = λ i.
      visit_entry env (e i) (f i) (k, id) rest (env.invoke id msg w) (dispatch env type msg rest) w

  others-entry :
      (type k : Bytes) (id : ℕ) (rest : Subscribers) (msg : Msg) (w : World) (t a : Bool)
      → bytes_eq k type ≡ t
      → env.alive w id ≡ a
      → ((w' : World) → others type (dispatch env type msg rest w').0 ≡ others type rest)
      → others type (dispatch env type msg ((k, id) ∷ rest) w).0 ≡ others type ((k, id) ∷ rest)
  unfolding others
  others-entry type k id rest msg w true true e f h =
      ap (λ (r : Subscribers × World). others type r.0) (dispatch-cons type k id rest msg w e f)
      ∙ others-after_answer type k id rest (env.invoke id msg w) _ e h
      ∙ rw e
  others-entry type k id rest msg w true false e f h =
      ap (λ (r : Subscribers × World). others type r.0) (dispatch-cons type k id rest msg w e f)
      ∙ h w
      ∙ rw e
  others-entry type k id rest msg w false a e f h =
      ap (λ (r : Subscribers × World). others type r.0) (dispatch-cons type k id rest msg w e f)
      ∙ rw (e, h w)

  -- Whatever the callbacks do, subscriptions to other types are left as they are.
  pub others-dispatch :
      (type : Bytes) (msg : Msg) (subs : Subscribers) (w : World)
      → others type (dispatch env type msg subs w).0 ≡ others type subs
  others-dispatch type msg [] w = unfold dispatch others in refl
  others-dispatch type msg ((k, id) ∷ rest) w =
      others-entry type k id rest msg w (bytes_eq k type) (env.alive w id) refl refl
        (λ w'. others-dispatch type msg rest w')

-- Surroundings in which callbacks leave only their names, and liveness does not change meanwhile.
module _ (alive : ℕ → Bool) (answer : ℕ → Bool) where
  abbrev pub recording : {Msg : Type 0} → Surroundings Msg (List ℕ)
  recording = record { alive = λ w id. alive id; invoke = λ id msg w. (answer id, w ++ (id ∷ [])) }

  -- The live subscriptions of a type, in order.
  unfoldable pub listeners : Bytes → Subscribers → List ℕ
  listeners type [] = []
  listeners type ((k, id) ∷ rest) =
      if bytes_eq k type && alive id then id ∷ listeners type rest else listeners type rest

  -- Up to the first that answers `false`, this one included.
  unfoldable pub up_to_refusal : List ℕ → List ℕ
  up_to_refusal [] = []
  up_to_refusal (id ∷ ids) = id ∷ (if answer id then up_to_refusal ids else [])

  heard-entry :
      {Msg : Type 0} (type k : Bytes) (id : ℕ) (rest : Subscribers) (msg : Msg) (w : List ℕ)
      (t a go_on : Bool)
      → bytes_eq k type ≡ t
      → alive id ≡ a
      → answer id ≡ go_on
      → ((w' : List ℕ)
          → (dispatch recording type msg rest w').1 ≡ w' ++ up_to_refusal (listeners type rest))
      → (dispatch recording type msg ((k, id) ∷ rest) w).1
        ≡ w ++ up_to_refusal (listeners type ((k, id) ∷ rest))
  unfolding listeners up_to_refusal
  heard-entry type k id rest msg w false a go_on e f g h =
      ap (λ r. r.1) (dispatch-cons recording type k id rest msg w e f) ∙ rw (e, h w)
  heard-entry type k id rest msg w true false go_on e f g h =
      ap (λ r. r.1) (dispatch-cons recording type k id rest msg w e f) ∙ rw (e, f, h w)
  heard-entry type k id rest msg w true true true e f g h =
      ap (λ r. r.1) (dispatch-cons recording type k id rest msg w e f)
      ∙ rw (
        e,
        f,
        g,
        h (w ++ (id ∷ [])),
        append_assoc w (id ∷ []) (up_to_refusal (listeners type rest)),
      )
  heard-entry type k id rest msg w true true false e f g h =
      ap (λ r. r.1) (dispatch-cons recording type k id rest msg w e f) ∙ rw (e, f, g)

  -- Where callbacks only leave their names and end no subscription, a round runs the callbacks of
  -- the live subscriptions of the type in order, each once, and stops behind the first that
  -- answers false.
  pub dispatch-recording :
      {Msg : Type 0} (type : Bytes) (msg : Msg) (subs : Subscribers) (w : List ℕ)
      → (dispatch recording type msg subs w).1 ≡ w ++ up_to_refusal (listeners type subs)
  dispatch-recording type msg [] w = unfold dispatch listeners up_to_refusal in sym (append-nil w)
  dispatch-recording type msg ((k, id) ∷ rest) w =
      heard-entry type k id rest msg w _ _ _ refl refl refl (dispatch-recording type msg rest)

  -- The pairs but for the dead ones of the type.
  unfoldable pub without_dead : Bytes → Subscribers → Subscribers
  without_dead type [] = []
  without_dead type ((k, id) ∷ rest) =
      if bytes_eq k type && not (alive id)
      then without_dead type rest
      else (k, id) ∷ without_dead type rest

  kept-entry :
      {Msg : Type 0} (type k : Bytes) (id : ℕ) (rest : Subscribers) (msg : Msg) (w : List ℕ)
      (t a : Bool)
      → bytes_eq k type ≡ t
      → alive id ≡ a
      → answer id ≡ true
      → ((w' : List ℕ) → (dispatch recording type msg rest w').0 ≡ without_dead type rest)
      → (dispatch recording type msg ((k, id) ∷ rest) w).0 ≡ without_dead type ((k, id) ∷ rest)
  unfolding without_dead
  kept-entry type k id rest msg w false a e f g h =
      ap (λ r. r.0) (dispatch-cons recording type k id rest msg w e f) ∙ rw (e, h w)
  kept-entry type k id rest msg w true false e f g h =
      ap (λ r. r.0) (dispatch-cons recording type k id rest msg w e f) ∙ rw (e, f, h w)
  kept-entry type k id rest msg w true true e f g h =
      ap (λ r. r.0) (dispatch-cons recording type k id rest msg w e f)
      ∙ rw (e, f, g, h (w ++ (id ∷ [])))

  -- A round that no callback stops erases the dead subscriptions of the type, and them alone.
  pub dispatch-without_dead :
      {Msg : Type 0} (type : Bytes) (msg : Msg) (subs : Subscribers) (w : List ℕ)
      → ((id : ℕ) → answer id ≡ true)
      → (dispatch recording type msg subs w).0 ≡ without_dead type subs
  dispatch-without_dead type msg [] w h = unfold dispatch without_dead in refl
  dispatch-without_dead type msg ((k, id) ∷ rest) w h =
      kept-entry type k id rest msg w _ _ refl refl (h id)
        (λ w'. dispatch-without_dead type msg rest w' h)
