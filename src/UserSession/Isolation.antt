-- ===== src/UserSession/Isolation.antt =====
-- FrontendUserSession: what a client gets before it is known, and what makes it known.
use minide.Base.{◌≡◌, refl, true, false, some, [], ◌∷◌, ◌++◌, Bytes, codes, arith}
use minide.Json.{JsonOps}
use minide.StreamParser.Scan.{Popped, nothing, message, parse_error, feed, pop_message}
use minide.Frame.Encode.{write_text}
use minide.Dispatcher.{Surroundings}
use minide.UserSession.Handlers.{
  Session, Outcome, returned, threw, undefined, authenticate, accepted_reply, on_message, on_text,
  on_popped,
}

module _ {World : Type 0} where
  abbrev pub Keeps : Session World → Session World → Type 0
  Keeps s s' = (s'.world ≡ s.world) × (s'.subscribers ≡ s.subscribers) × (s'.plugins ≡ s.plugins)

  -- The state that the handler leaves, whether it returns or throws.
  abbrev pub AtEnd : (Session World → Type 0) → Outcome World → Type 0
  AtEnd P (returned s) = P s
  AtEnd P (threw s) = P s
  AtEnd P undefined = Unit {0}

module _ {J World : Type 0} (ops : JsonOps J) (env : Surroundings J World) where
  on_message-Keeps :
      (s : Session World) (j : J)
      → s.authenticated ≡ false
      → AtEnd (Keeps s) (on_message ops env s j)
  unfolding on_message
  on_message-Keeps s j l = ground arith

  on_popped-Keeps :
      (s : Session World) (popped : Popped J)
      → s.authenticated ≡ false
      → AtEnd (Keeps s) (on_popped ops env s popped)
  on_popped-Keeps s nothing l = (refl, refl, refl)
  on_popped-Keeps s parse_error l = (refl, refl, refl)
  on_popped-Keeps s (message j) l = on_message-Keeps s j l

  -- A text from a client that is not known runs no callback, and changes neither the subscriptions
  -- nor the plugins, whether the handler returns or throws.
  pub on_text-Keeps :
      (s : Session World) (txt : Bytes)
      → s.authenticated ≡ false
      → AtEnd (Keeps s) (on_text ops env s txt)
  unfolding on_text
  on_text-Keeps s txt l =
      on_popped-Keeps
        (record s { text_parser = (pop_message ops.parse (feed s.text_parser txt)).0 })
        (pop_message ops.parse (feed s.text_parser txt)).1 l

  -- What the reply to a login is, and what the message was.
  pub record LoggedIn (s : Session World) (popped : Popped J) (s' : Session World) : Type 0 where
    pub request : J
    pub popped_request : popped ≡ message request
    pub has_payload : ops.contains request (codes "payload") ≡ true
    pub accepted : authenticate ops (ops.at request (codes "payload")) ≡ some true
    pub replied : s'.sent ≡ s.sent ++ (write_text (ops.dump (accepted_reply ops request)) ∷ [])

  on_message-LoggedIn :
      (s : Session World) (j : J) (s' : Session World)
      → s.authenticated ≡ false
      → s'.authenticated ≡ true
      → on_message ops env s j ≡ returned s'
      → LoggedIn s (message j) s'
  unfolding on_message
  on_message-LoggedIn s j s' l u e = record {
    request = j;
    popped_request = refl;
    has_payload = ground arith;
    accepted = ground arith;
    replied = ground arith;
  }

  on_popped-LoggedIn :
      (s : Session World) (popped : Popped J) (s' : Session World)
      → s.authenticated ≡ false
      → s'.authenticated ≡ true
      → on_popped ops env s popped ≡ returned s'
      → LoggedIn s popped s'
  on_popped-LoggedIn s nothing s' l u e = absurd (ground arith)
  on_popped-LoggedIn s parse_error s' l u e = absurd (ground arith)
  on_popped-LoggedIn s (message j) s' l u e = on_message-LoggedIn s j s' l u e

  -- A client becomes known by a message with a payload that `authenticate` accepts, and by nothing
  -- else, and gets one frame, the reply.
  pub on_text-LoggedIn :
      (s s' : Session World) (txt : Bytes)
      → s.authenticated ≡ false
      → s'.authenticated ≡ true
      → on_text ops env s txt ≡ returned s'
      → LoggedIn s (pop_message ops.parse (feed s.text_parser txt)).1 s'
  unfolding on_text
  on_text-LoggedIn s s' txt l u e =
      let r = pop_message ops.parse (feed s.text_parser txt) in
      let v = on_popped-LoggedIn (record s { text_parser = r.0 }) r.1 s' l u e in
      record {
        request = v.request;
        popped_request = v.popped_request;
        has_payload = v.has_payload;
        accepted = v.accepted;
        replied = v.replied;
      }
