-- ===== src/SessionStorage.antt =====
-- worker/session/session_storage.hpp: the sessions of the clients, by id.
pub mod Laws
use minide.Base.Dict.{find, put, erase}
use minide.Base.{
  ℕ, ◌+◌, Bool, true, false, not, Option, none, some, List, [], ◌∷◌, Bytes, bytes_eq, ltb,
  if◌then◌else◌, length,
}

-- `sessions_`.
abbrev pub Sessions : Type 0 → Type 0
Sessions S = List (Bytes × S)

module _ {S : Type 0} where
  -- `id` is what the generator gives, and the function makes the session with that id.
  unfoldable pub create_session : (Bytes → S) → Bytes → Sessions S → Sessions S
  create_session make id sessions = put id (make id) sessions

  unfoldable pub delete_session : Bytes → Sessions S → Sessions S
  delete_session id sessions = erase id sessions

  -- The result `false` is `none`; else the session that is written to the argument.
  unfoldable pub get_session : Bytes → Sessions S → Option S
  get_session id sessions = find id sessions

  abbrev pub set_at : Bytes → S → Sessions S → Option S → Bool × Sessions S
  set_at id s sessions none = (false, sessions)
  set_at id s sessions (some old) = (true, put id s sessions)

  unfoldable pub set_session : Bytes → S → Sessions S → Bool × Sessions S
  set_session id s sessions = set_at id s sessions (find id sessions)

  abbrev pub save_into : (S → S → S) → Bytes → S → Sessions S → Option S → Bool × Sessions S
  save_into extractor id s sessions none = (false, sessions)
  save_into extractor id s sessions (some to_save) = set_session id (extractor to_save s) sessions

  -- `extractor to_save to_read_from` is what the extractor leaves in its first argument.
  unfoldable pub partially_save_session : (S → S → S) → Bytes → S → Sessions S → Bool × Sessions S
  unfolding get_session set_session
  partially_save_session extractor id s sessions =
      save_into extractor id s sessions (get_session id sessions)

  -- Times and the timeout count the same units; `now` is not before the last access.
  unfoldable pub remove_timed_out : (S → ℕ) → ℕ → ℕ → Sessions S → Sessions S
  remove_timed_out last_access now timeout [] = []
  remove_timed_out last_access now timeout ((k, s) ∷ kvs) =
      if ltb (last_access s + timeout) now
      then remove_timed_out last_access now timeout kvs
      else (k, s) ∷ remove_timed_out last_access now timeout kvs
