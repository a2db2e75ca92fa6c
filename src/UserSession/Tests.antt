-- ===== src/UserSession/Tests.antt =====
-- FrontendUserSession: a login, a refused one and a message that the code does not survive.
use minide.Base.{ℕ, ◌≡◌, refl, true, not, none, some, [], ◌∷◌, Bytes, codes, pos, bytes_eq}
use minide.Json.{JsonOps}
use minide.StreamParser.Scan.{feed, pop_message, scan, round}
use minide.Frame.Encode.{write_text}
use minide.Dispatcher.{Surroundings}
use minide.UserSession.Plugins.{Start, started}
use minide.UserSession.Handlers.{
  Session, fresh, after_authentication, on_text, authenticate, returned, undefined, write_complete,
  login, write_json,
}
use minide.UserSession.History.{text, written, run, run-Untouched, Untouched}

-- Documents that have every key, each with the one text that the document is.
abbrev every_key : JsonOps Bytes
every_key = record {
  parse = λ b. some b;
  dump = λ j. j;
  contains = λ j k. true;
  at = λ j k. j;
  get_int = λ j. some (pos 1);
  get_string = λ j. some (codes "dummy");
  get_bool = λ j. none;
  of_int = λ n. codes "1";
  of_string = λ s. s;
  of_strings = λ ss. [];
  of_bool = λ b. codes "true";
  object = λ fields. codes "{}";
}

-- The same with another user, and with no payload.
abbrev other_user : JsonOps Bytes
other_user = record every_key { get_string = λ j. some (codes "mallory") }

abbrev no_payload : JsonOps Bytes
no_payload = record every_key { contains = λ j k. not (bytes_eq k (codes "payload")) }

abbrev counting : Surroundings Bytes ℕ
counting = record { alive = λ w id. true; invoke = λ id msg w. (true, 6) }

abbrev new_session : Session ℕ
new_session = fresh ((codes "dummy", 1) ∷ []) 5

abbrev known : Session ℕ
known = record new_session {
  authenticated = true;
  sent = write_text (codes "{}") ∷ [];
  writing = after_authentication ∷ [];
}

login_works : on_text every_key counting new_session (codes "{}") ≡ returned known
unfolding on_text feed pop_message scan round authenticate bytes_eq login write_json
login_works = refl

-- Before any login, a message with no payload reads a key that is not there.
missing_payload : on_text no_payload counting new_session (codes "{}") ≡ undefined
unfolding on_text feed pop_message scan round bytes_eq
missing_payload = refl

abbrev always : Bytes → Start
always name = started

refused :
    run other_user counting always [] (text (codes "{}") ∷ written ∷ []) new_session
    ≡ some new_session
unfolding run on_text feed pop_message scan round authenticate bytes_eq login write_complete
refused = refl

run-Untouched_example : Untouched ((codes "dummy", 1) ∷ []) 5 new_session
run-Untouched_example =
    run-Untouched other_user counting ((codes "dummy", 1) ∷ []) 5 always []
      (text (codes "{}") ∷ written ∷ []) new_session refused refl
