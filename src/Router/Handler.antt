-- ===== src/Router/Handler.antt =====
-- worker/routers/router_base.hpp, router_base.cpp and worker/session/temporary_session.cpp: the server
-- as the handlers see it, and what they are made of. A handler may answer early, and may throw.
use minide.Base.{ℕ, Bool, true, false, Option, none, some, List, Bytes, ℤ}
use minide.SessionStorage.{partially_save_session}
use minide.Base.Dict.{find}
use minide.HttpStreamer.{StreamChannel}
use minide.Workspace.Verify.{Verified, refused, accepted, thrown}
use minide.FileContent.{FileLoad}

-- The fields of `Session` that the requests use.
pub record Client (FilePath : Type 0) : Type 0 where
  pub root : FilePath
  pub active_project : FilePath
  pub data_id : ℤ
  pub control_id : ℤ

-- What is sent over a stream: a directory with its origin, a file with its path and flag, or what was
-- found for a source or a header.
pub data StreamMessage (FilePath : Type 0) : Type 0 where
  directory : FilePath → Bool → Bytes → StreamMessage FilePath
  file_content : Bytes → Bytes → FileLoad → StreamMessage FilePath
  toggled : Bool → Bytes → Bytes → Bool → StreamMessage FilePath

-- `streamer().send`: the address of the client, its id, the message. `none` is an exception.
pub record Streamer (FilePath Streams : Type 0) : Type 0 where
  pub send : StreamChannel → Bytes → ℤ → StreamMessage FilePath → Streams → Option ℤ × Streams

pub record Server (FilePath Disk Streams : Type 0) : Type 0 where
  pub sessions : List (Bytes × Client FilePath)
  pub disk : Disk
  pub streams : Streams

-- An answer: `respondWithError` with its message, a text, the text of an exception, no text, a
-- file, or none at all: the handler ends and nothing is sent. What `respondWithError` adds beside
-- the message is left out.
pub data Answer (FilePath : Type 0) : Type 0 where
  refusal : ℕ → Bytes → Answer FilePath
  text : ℕ → Bytes → Answer FilePath
  what : ℕ → Answer FilePath
  empty : ℕ → Answer FilePath
  file : FilePath → Answer FilePath
  unanswered : Answer FilePath

pub data Flow (FilePath A : Type 0) : Type 0 where
  value : A → Flow FilePath A
  returned : Answer FilePath → Flow FilePath A
  raised : Flow FilePath A

-- A step of a handler over a state.
abbrev pub Step : Type 0 → Type 0 → Type 0 → Type 0
Step FilePath State A = State → Flow FilePath A × State

module _ {FilePath State : Type 0} where
  abbrev pub and_then :
      {A B : Type 0}
      → Flow FilePath A × State
      → (A → Step FilePath State B)
      → Flow FilePath B × State
  and_then (value a, s) f = f a s
  and_then (returned r, s) f = (returned r, s)
  and_then (raised, s) f = (raised, s)

  infixl 5 ◌>>=◌ ◌>>◌
  abbrev pub ◌>>=◌ :
      {A B : Type 0} → Step FilePath State A → (A → Step FilePath State B) → Step FilePath State B
  ◌>>=◌ m f s = and_then (m s) f

  abbrev pub ◌>>◌ :
      {B : Type 0} → Step FilePath State (Unit {0}) → Step FilePath State B → Step FilePath State B
  ◌>>◌ m k s = and_then (m s) (λ _. k)

  abbrev pub give : {A : Type 0} → A → Step FilePath State A
  give a s = (value a, s)

  abbrev pub or_raise : {A : Type 0} → Option A → Step FilePath State A
  or_raise none s = (raised, s)
  or_raise (some a) s = (value a, s)

  abbrev pub answer : {A : Type 0} → Answer FilePath → Step FilePath State A
  answer r s = (returned r, s)

  -- `if (!ok) return respondWithError(res, msg);`
  abbrev pub require : Bool → Bytes → Step FilePath State (Unit {0})
  require true msg = give tt
  require false msg = answer (refusal 400 msg)

  abbrev pub get_server : Step FilePath State State
  get_server s = (value s, s)

  -- `if (!std::get<0>(veri).empty()) return respondWithError(…);`
  abbrev pub checked : Verified → Step FilePath State Bytes
  checked (refused message path) = answer (refusal 400 message)
  checked (accepted path) = give path
  checked thrown = or_raise none

  -- What the client gets: an answer, or none where an exception leaves the handler.
  abbrev pub outer : Flow FilePath (Answer FilePath) × State → Option (Answer FilePath) × State
  outer (value r, s) = (some r, s)
  outer (returned r, s) = (some r, s)
  outer (raised, s) = (none, s)

  -- `readJsonBody` answers with the text of an exception of the parser or of the action.
  abbrev pub inner :
      Flow FilePath (Answer FilePath) × State → Flow FilePath (Answer FilePath) × State
  inner (value r, s) = (value r, s)
  inner (returned r, s) = (value r, s)
  inner (raised, s) = (value (what 400), s)

  unfoldable pub read_json_body :
      {J : Type 0}
      → Option J
      → (J → Step FilePath State (Answer FilePath))
      → Step FilePath State (Answer FilePath)
  read_json_body none action s = (value (what 400), s)
  read_json_body (some body) action s = inner (action body s)

abbrev pub Handler : Type 0 → Type 0 → Type 0 → Type 0 → Type 0
Handler FilePath Disk Streams A = Step FilePath (Server FilePath Disk Streams) A

module _ {FilePath Disk Streams : Type 0} where
  -- `this_session`, whose `value()` throws where there is no session.
  unfoldable pub this_session : Bytes → Handler FilePath Disk Streams (Client FilePath)
  this_session id s = or_raise (find id s.sessions) s

  -- `save_partial` with an extractor; its result is not looked at.
  unfoldable pub save_partial :
      Bytes
      → (Client FilePath → Client FilePath → Client FilePath)
      → Client FilePath
      → Handler FilePath Disk Streams (Unit {0})
  save_partial id extractor client s =
      (value tt, record s { sessions = (partially_save_session extractor id client s.sessions).1 })

  abbrev pub set_disk : Disk → Handler FilePath Disk Streams (Unit {0})
  set_disk disk s = (value tt, record s { disk = disk })

  abbrev pub sent_with :
      Option ℤ × Streams
      → Server FilePath Disk Streams
      → Flow FilePath ℤ × Server FilePath Disk Streams
  sent_with (none, streams) s = (raised, record s { streams = streams })
  sent_with (some result, streams) s = (value result, record s { streams = streams })

  unfoldable pub send_message :
      Streamer FilePath Streams
      → StreamChannel
      → Bytes
      → ℤ
      → StreamMessage FilePath
      → Handler FilePath Disk Streams ℤ
  send_message streamer channel ip id msg s =
      sent_with (streamer.send channel ip id msg s.streams) s
