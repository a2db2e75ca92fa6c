-- ===== src/WsStreamer.antt =====
-- worker/streaming/ws_streamer.cpp and stream_session.cpp: streams over websockets. The first text of a
-- connection names the session of a client, which gets the id of the stream.
pub mod Leaks
pub mod Access
pub mod Tests
use minide.Base.{
  ℕ, ◌+◌, ◌-◌, ◌^◌, ◌≡◌, Bool, true, false, not, ◌&&◌, Option, none, some, List, [], ◌∷◌, ◌++◌,
  Bytes, codes, bytes_eq, ltb, ◌==◌, if◌then◌else◌, ℤ, pos, negsuc,
}
use minide.Base.Dict.{find}
use minide.Json.{JsonOps}
use minide.IdProvider.{IdProvider, initial, acquire_id}
use minide.SessionStorage.{partially_save_session}
use minide.HttpStreamer.{StreamChannel, control_channel, data_channel, no_channel}
use minide.Router.Handler.{Client}

-- The states of `communaton_`; its automaton goes on to the next one and then runs its action.
pub data Stage : Type 0 where
  unknown authentication listening : Stage

-- What a session writes: the two answers to its first text, and messages.
pub data Written (Message : Type 0) : Type 0 where
  rejected : Bytes → Written Message
  authentication_accepted : Written Message
  message : Message → Written Message

pub record StreamSession (Message : Type 0) : Type 0 where
  pub request_path : Bytes
  pub channel : StreamChannel
  pub stream_id : ℕ
  pub stage : Stage
  pub session_id : Bytes
  pub is_closing : Bool
  pub written : List (Written Message)

-- `connections_` with their sessions, and `idGenerator_`.
abbrev pub Connections : Type 0 → Type 0
Connections Message = List (ℕ × StreamSession Message)

pub record WebsocketStreamer (Message : Type 0) : Type 0 where
  pub connections : Connections Message
  pub id_generator : IdProvider

abbrev pub no_connections : {Message : Type 0} → WebsocketStreamer Message
no_connections = record { connections = []; id_generator = initial }

abbrev pub same_channel : StreamChannel → StreamChannel → Bool
same_channel control_channel control_channel = true
same_channel data_channel data_channel = true
same_channel no_channel no_channel = true
same_channel _ _ = false

module _ {Message : Type 0} where
  unfoldable pub connection : ℕ → Connections Message → Option (StreamSession Message)
  connection id [] = none
  connection id ((k, s) ∷ kvs) = if k == id then some s else connection id kvs

  unfoldable pub set_connection :
      ℕ → StreamSession Message → Connections Message → Connections Message
  set_connection id s [] = (id, s) ∷ []
  set_connection id s ((k, t) ∷ kvs) =
      if k == id then (k, s) ∷ kvs else (k, t) ∷ set_connection id s kvs

  unfoldable pub remove_connection : ℕ → Connections Message → Connections Message
  remove_connection id [] = []
  remove_connection id ((k, s) ∷ kvs) = if k == id then kvs else (k, s) ∷ remove_connection id kvs

  -- `channel_` is not initialised: what stands there is an argument.
  abbrev pub new_session : StreamChannel → Bytes → ℕ → StreamSession Message
  new_session garbage path id = record {
    request_path = path;
    channel = garbage;
    stream_id = id;
    stage = unknown;
    session_id = [];
    is_closing = false;
    written = [];
  }

  abbrev pub add_connection :
      StreamChannel
      → Bytes
      → WebsocketStreamer Message
      → Option (ℕ × IdProvider)
      → WebsocketStreamer Message
  add_connection garbage path w none = w
  add_connection garbage path w (some (id, ids)) = record {
    connections = set_connection id (new_session garbage path id) w.connections;
    id_generator = ids;
  }

  -- The handler of `start`; the exception of `acquireId` leaves it.
  unfoldable pub connect :
      StreamChannel → Bytes → WebsocketStreamer Message → WebsocketStreamer Message
  connect garbage path w = add_connection garbage path w (acquire_id w.id_generator)

  abbrev pub write_message : Written Message → StreamSession Message → StreamSession Message
  write_message m s = record s { written = s.written ++ (m ∷ []) }

  unfoldable pub broadcast : StreamChannel → Message → Connections Message → Connections Message
  broadcast chan msg [] = []
  broadcast chan msg ((k, s) ∷ kvs) =
      (k, if same_channel s.channel chan then write_message (message msg) s else s)
      ∷ broadcast chan msg kvs

  abbrev pub send_to :
      StreamChannel
      → ℕ
      → Message
      → Connections Message
      → Option (StreamSession Message)
      → ℤ × Connections Message
  send_to chan id msg kvs none = (negsuc 1, kvs)
  send_to chan id msg kvs (some s) =
      if same_channel s.channel chan
      then (pos 0, set_connection id (write_message (message msg) s) kvs)
      else (negsuc 2, kvs)

  -- The id is the `int` as an `unsigned int`.
  unfoldable pub send : StreamChannel → ℕ → Message → Connections Message → ℤ × Connections Message
  send chan id msg kvs = send_to chan id msg kvs (connection id kvs)

-- A 32-bit id as an `int`.
abbrev pub int_of_u32 : ℕ → ℤ
int_of_u32 n = if ltb n (2 ^ 31) then pos n else negsuc (2 ^ 32 - 1 - n)

abbrev pub Clients : Type 0 → Type 0
Clients FilePath = List (Bytes × Client FilePath)

module _ {FilePath : Type 0} where
  abbrev pub set_data_id : ℕ → Client FilePath → Client FilePath → Client FilePath
  set_data_id id to from = record to { data_id = int_of_u32 id }

  abbrev pub set_control_id : ℕ → Client FilePath → Client FilePath → Client FilePath
  set_control_id id to from = record to { control_id = int_of_u32 id }

module _ {FilePath Message : Type 0} where
  abbrev pub reject :
      Bytes → StreamSession Message → Clients FilePath → StreamSession Message × Clients FilePath
  reject why s clients = (record (write_message (rejected why) s) { is_closing = true }, clients)

  abbrev pub accept :
      StreamChannel
      → (Client FilePath → Client FilePath → Client FilePath)
      → Client FilePath
      → StreamSession Message
      → Clients FilePath
      → StreamSession Message × Clients FilePath
  accept chan extractor client s clients = (
    write_message authentication_accepted (record s { channel = chan; stage = listening }),
    (partially_save_session extractor s.session_id client clients).1,
  )

  abbrev pub with_client :
      StreamSession Message
      → Clients FilePath
      → Option (Client FilePath)
      → StreamSession Message × Clients FilePath
  with_client s clients none = reject (codes "there is no session for the given id") s clients
  with_client s clients (some client) =
      if bytes_eq s.request_path (codes "/api/wsstreamer/data")
      then accept data_channel (set_data_id s.stream_id) client s clients
      else if bytes_eq s.request_path (codes "/api/wsstreamer/control")
      then accept control_channel (set_control_id s.stream_id) client s clients
      else reject
          (codes "given websocket path is neither expected data line nor expected control line") s
          clients

module _ {J FilePath Message : Type 0} (ops : JsonOps J) where
  abbrev pub with_session_id :
      StreamSession Message
      → Clients FilePath
      → Option Bytes
      → StreamSession Message × Clients FilePath
  with_session_id s clients none = (s, clients)
  with_session_id s clients (some id) =
      with_client (record s { session_id = id }) clients (find id clients)

  -- The action of "Authentication". An exception of the parser or of `get` leaves it.
  abbrev pub authenticate :
      StreamSession Message → Clients FilePath → Option J → StreamSession Message × Clients FilePath
  authenticate s clients none = (s, clients)
  authenticate s clients (some j) =
      if ops.contains j (codes "sessionId")
      then with_session_id s clients (ops.get_string (ops.at j (codes "sessionId")))
      else reject (codes "sessionId not supplied") s clients

  abbrev pub advance :
      StreamSession Message
      → Clients FilePath
      → Option J
      → Stage
      → StreamSession Message × Clients FilePath
  advance s clients j unknown = authenticate (record s { stage = authentication }) clients j
  advance s clients j authentication = (record s { stage = listening }, clients)
  advance s clients j listening = (s, clients)

  unfoldable pub on_text :
      Bytes → StreamSession Message → Clients FilePath → StreamSession Message × Clients FilePath
  on_text text s clients = advance s clients (ops.parse text) s.stage
