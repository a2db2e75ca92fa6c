-- ===== src/UserSession/Handlers.antt =====
-- FrontendUserSession: the handlers of a text, of a finished write and of the end of a connection.
use minide.Base.{
  Bool, true, false, not, ◌&&◌, Option, none, some, List, [], ◌∷◌, ◌++◌, Bytes, ℤ, negsuc, codes,
  bytes_eq, if◌then◌else◌,
}
use minide.Json.{JsonOps}
use minide.StreamParser.Scan.{
  StreamParser, Popped, nothing, message, parse_error, feed, pop_message, initial,
}
use minide.Frame.Encode.{write_text}
use minide.Dispatcher.{Subscribers, Surroundings, dispatch}
use minide.UserSession.Plugins.{
  exception, non_standard, Start, Loaded, all_loaded, failed, load_plugins,
}

-- What is called when a frame is written.
pub data Completion : Type 0 where
  nothing_more after_authentication ending : Completion

pub record Session (World : Type 0) : Type 0 where
  pub text_parser : StreamParser
  pub subscribers : Subscribers
  pub authenticated : Bool
  pub plugins : List Bytes
  -- The frames handed to the connection, the last one last, and those not yet written.
  pub sent : List Bytes
  pub writing : List Completion
  pub closed : Bool
  -- All that the callbacks of the dispatcher change.
  pub world : World

abbrev pub fresh : {World : Type 0} → Subscribers → World → Session World
fresh subs w = record {
  text_parser = initial;
  subscribers = subs;
  authenticated = false;
  plugins = [];
  sent = [];
  writing = [];
  closed = false;
  world = w;
}

-- How a handler ends. `undefined` is the read of a key that a constant object does not have.
pub data Outcome (World : Type 0) : Type 0 where
  returned : Session World → Outcome World
  threw : Session World → Outcome World
  undefined : Outcome World

module _ {J : Type 0} (ops : JsonOps J) where
  abbrev pub error_reply : ℤ → Bytes → J
  error_reply ref msg =
      ops.object ((codes "ref", ops.of_int ref) ∷ (codes "error", ops.of_string msg) ∷ [])

  -- `Api::User::authenticate`; `none` where the user is no string.
  unfoldable pub authenticate : J → Option Bool
  authenticate payload =
      if ops.contains payload (codes "user") && ops.contains payload (codes "password")
      then (elim (ops.get_string (ops.at payload (codes "user"))) [
        | none ↦ none
        | some user ↦ some (bytes_eq user (codes "dummy"))
      ])
      else some false

  abbrev pub accepted_reply : J → J
  accepted_reply j =
      ops.object
        ((codes "ref", ops.at j (codes "ref")) ∷ (codes "authenticated", ops.of_bool true) ∷ [])

  abbrev pub notice : Bytes → J → J
  notice key value = ops.object ((codes "ref", ops.of_int (negsuc 0)) ∷ (key, value) ∷ [])

module _ {J World : Type 0} (ops : JsonOps J) where
  unfoldable pub write_json : Session World → J → Completion → Session World
  write_json s j completion = record s {
    sent = s.sent ++ (write_text (ops.dump j) ∷ []);
    writing = s.writing ++ (completion ∷ []);
  }

  unfoldable pub respond_with_error : Session World → ℤ → Bytes → Session World
  unfolding write_json
  respond_with_error s ref msg = write_json s (error_reply ops ref msg) nothing_more

  -- The half of `onJson` for a client that is not known yet.
  abbrev pub answer_login : Session World → J → Option Bool → Outcome World
  answer_login s j none = threw s
  answer_login s j (some false) = returned s
  answer_login s j (some true) =
      returned
        (write_json (record s { authenticated = true }) (accepted_reply ops j) after_authentication)

  unfoldable pub login : Session World → J → Outcome World
  unfolding write_json
  login s j =
      if ops.contains j (codes "payload")
      then answer_login s j (authenticate ops (ops.at j (codes "payload")))
      else undefined

  module _ (env : Surroundings J World) where
    -- The other half: the dispatcher reads the type again. A callback that throws is one that
    -- answers `false`: it ends the round, and the pairs stay.
    abbrev pub dispatch_typed : Session World → J → Option Bytes → Outcome World
    dispatch_typed s j none = threw s
    dispatch_typed s j (some type) =
        let (subs, w) = dispatch env type j s.subscribers s.world in
        returned (record s { subscribers = subs; world = w })

    unfoldable pub on_json : Session World → J → Outcome World
    unfolding login
    on_json s j =
        if s.authenticated
        then dispatch_typed s j (ops.get_string (ops.at j (codes "type")))
        else login s j

    abbrev pub caught : Outcome World → Outcome World
    caught (returned s) = returned s
    caught (threw s) = returned s
    caught undefined = undefined

    unfoldable pub on_message : Session World → J → Outcome World
    unfolding on_json respond_with_error
    on_message s j =
        if not (ops.contains j (codes "ref"))
        then returned s
        else if not (ops.contains j (codes "type"))
        then (elim (ops.get_int (ops.at j (codes "ref"))) [
          | none ↦ threw s
          | some ref ↦ returned (respond_with_error s ref (codes "Type missing in message."))
        ])
        else (elim (ops.get_string (ops.at j (codes "type"))) [
          | none ↦ threw s
          | some type ↦ caught (on_json s j)
        ])

    abbrev pub on_popped : Session World → Popped J → Outcome World
    on_popped s nothing = returned s
    on_popped s parse_error = threw s
    on_popped s (message j) = on_message s j

    unfoldable pub on_text : Session World → Bytes → Outcome World
    unfolding on_message
    on_text s txt =
        let (parser, popped) = pop_message ops.parse (feed s.text_parser txt) in
        on_popped (record s { text_parser = parser }) popped

  abbrev pub report_loading : Session World → Loaded → Session World
  report_loading s (all_loaded names) =
      write_json (record s { plugins = names })
        (notice ops (codes "pluginsLoaded") (ops.of_strings names)) nothing_more
  report_loading s (failed names (exception what)) =
      write_json (record s { plugins = names }) (notice ops (codes "error") (ops.of_string what))
        ending
  report_loading s (failed names non_standard) =
      write_json (record s { plugins = names })
        (notice ops (codes "error") (ops.of_string (codes "Non standard exception caught."))) ending

  module _ (start : Bytes → Start) (entries : List (Bytes × Bool)) where
    unfoldable pub on_after_authentication : Session World → Session World
    unfolding write_json load_plugins
    on_after_authentication s = report_loading s (load_plugins start entries s.plugins)

    abbrev pub run_completion : Completion → Session World → Session World
    run_completion nothing_more s = s
    run_completion after_authentication s = on_after_authentication s
    run_completion ending s = record s { closed = true }

    -- The oldest frame is written, and its callback is called.
    abbrev pub complete_next : Session World → List Completion → Session World
    complete_next s [] = s
    complete_next s (c ∷ cs) = run_completion c (record s { writing = cs })

    unfoldable pub write_complete : Session World → Session World
    unfolding on_after_authentication
    write_complete s = complete_next s s.writing
