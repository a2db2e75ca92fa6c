-- ===== src/WsStreamer/Access.antt =====
-- WsStreamer: who is accepted, and who gets messages.
use minide.Base.{
  ℕ, ◌≡◌, refl, ap, ◌∙◌, inl, inr, true, false, Option, none, some, [], ◌∷◌, Bytes, codes, bytes_eq,
  bytes_eq_self, ◌==◌, if◌then◌else◌, arith, Bool-cases,
}
use minide.Base.Dict.{find}
use minide.Json.{JsonOps}
use minide.IdProvider.{acquire_id}
use minide.SessionStorage.Laws.{partially_save_session-find}
use minide.HttpStreamer.{StreamChannel, control_channel, data_channel, no_channel}
use minide.Router.Handler.{Client}
use minide.WsStreamer.{
  Stage, unknown, authentication, listening, WebsocketStreamer, Connections, StreamSession, Clients,
  connection, set_connection, connect, broadcast, on_text, message, same_channel, int_of_u32,
  new_session, authenticate, with_session_id, with_client, accept, advance, write_message,
}

module _ {FilePath Message : Type 0} where
  abbrev OthersKept : Clients FilePath → StreamSession Message × Clients FilePath → Type 0
  OthersKept clients r =
      (k : Bytes) → bytes_eq r.0.session_id k ≡ false → find k r.1 ≡ find k clients

  accept-others :
      (chan : StreamChannel) (extractor : Client FilePath → Client FilePath → Client FilePath)
      (client : Client FilePath) (s : StreamSession Message) (clients : Clients FilePath)
      → OthersKept clients (accept chan extractor client s clients)
  accept-others chan extractor client s clients k ne =
      (partially_save_session-find extractor k s.session_id client clients).0 ∙ rw ne refl

  with_client-others :
      (s : StreamSession Message) (clients : Clients FilePath) (o : Option (Client FilePath))
      → OthersKept clients (with_client s clients o)
  with_client-others s clients none = λ k ne. refl
  with_client-others s clients (some client) =
      elim (Bool-cases (bytes_eq s.request_path (codes "/api/wsstreamer/data"))) [
        | inl data_path ↦ rw data_path (accept-others data_channel _ client s clients)
        | inr other ↦
            elim (Bool-cases (bytes_eq s.request_path (codes "/api/wsstreamer/control"))) [
              | inl control_path ↦
                  rw (other, control_path) (accept-others control_channel _ client s clients)
              | inr neither ↦ rw (other, neither) (λ k ne. refl)
            ]
      ]

module _ {J FilePath Message : Type 0} (ops : JsonOps J) where
  with_session_id-others :
      (s : StreamSession Message) (clients : Clients FilePath) (o : Option Bytes)
      → OthersKept clients (with_session_id ops s clients o)
  with_session_id-others s clients none = λ k ne. refl
  with_session_id-others s clients (some id) = with_client-others _ clients (find id clients)

  authenticate-others :
      (s : StreamSession Message) (clients : Clients FilePath) (o : Option J)
      → OthersKept clients (authenticate ops s clients o)
  authenticate-others s clients none = λ k ne. refl
  authenticate-others s clients (some j) = elim (Bool-cases (ops.contains j (codes "sessionId"))) [
    | inl there ↦ rw there (with_session_id-others s clients _)
    | inr missing ↦ rw missing (λ k ne. refl)
  ]

  advance-others :
      (s : StreamSession Message) (clients : Clients FilePath) (j : Option J) (stage : Stage)
      → OthersKept clients (advance ops s clients j stage)
  advance-others s clients j unknown = authenticate-others _ clients j
  advance-others s clients j authentication = λ k ne. refl
  advance-others s clients j listening = λ k ne. refl

  -- A text that comes over a connection changes no client but the one whose session id the connection
  -- has named.
  pub on_text-others :
      (text : Bytes) (s : StreamSession Message) (clients : Clients FilePath) (k : Bytes)
      → bytes_eq (on_text ops text s clients).0.session_id k ≡ false
      → find k (on_text ops text s clients).1 ≡ find k clients
  unfolding on_text
  on_text-others text s clients k ne = advance-others s clients (ops.parse text) s.stage k ne

module _ {FilePath Message : Type 0} where
  -- The client that the connection has named is there, and has got the id of the stream as that of its
  -- data or of its control.
  pub data IsRegistered (id : ℕ) (before : Clients FilePath)
      (r : StreamSession Message × Clients FilePath) : Type 0 where
    for_data :
        (client : Client FilePath)
        → r.0.channel ≡ data_channel
        → find r.0.session_id before ≡ some client
        → find r.0.session_id r.1 ≡ some (record client { data_id = int_of_u32 id })
        → IsRegistered id before r
    for_control :
        (client : Client FilePath)
        → r.0.channel ≡ control_channel
        → find r.0.session_id before ≡ some client
        → find r.0.session_id r.1 ≡ some (record client { control_id = int_of_u32 id })
        → IsRegistered id before r

  find-accept :
      (chan : StreamChannel) (extractor : Client FilePath → Client FilePath → Client FilePath)
      (client : Client FilePath) (s : StreamSession Message) (clients : Clients FilePath)
      → find s.session_id clients ≡ some client
      → find s.session_id (accept chan extractor client s clients).1
        ≡ some (extractor client client)
  find-accept chan extractor client s clients e =
      (partially_save_session-find extractor s.session_id s.session_id client clients).0
      ∙ rw (bytes_eq_self s.session_id, e) refl

  with_client-IsRegistered :
      (s : StreamSession Message) (clients : Clients FilePath) (o : Option (Client FilePath))
      → s.stage ≡ authentication
      → find s.session_id clients ≡ o
      → (with_client s clients o).0.stage ≡ listening
      → IsRegistered s.stream_id clients (with_client s clients o)
  with_client-IsRegistered s clients none st e l = cc l
  with_client-IsRegistered s clients (some client) st e l =
      elim (Bool-cases (bytes_eq s.request_path (codes "/api/wsstreamer/data"))) [
        | inl data_path ↦
            rw data_path (for_data client refl e (find-accept data_channel _ client s clients e))
        | inr other ↦
            elim (Bool-cases (bytes_eq s.request_path (codes "/api/wsstreamer/control"))) [
              | inl control_path ↦
                  rw (other, control_path)
                    (for_control client refl e (find-accept control_channel _ client s clients e))
              | inr neither ↦ cc (rw (other, neither) at l)
            ]
      ]

module _ {J FilePath Message : Type 0} (ops : JsonOps J) where
  with_session_id-IsRegistered :
      (s : StreamSession Message) (clients : Clients FilePath) (o : Option Bytes)
      → s.stage ≡ authentication
      → (with_session_id ops s clients o).0.stage ≡ listening
      → IsRegistered s.stream_id clients (with_session_id ops s clients o)
  with_session_id-IsRegistered s clients none st l = cc l
  with_session_id-IsRegistered s clients (some id) st l =
      with_client-IsRegistered (record s { session_id = id }) clients (find id clients) st refl l

  authenticate-IsRegistered :
      (s : StreamSession Message) (clients : Clients FilePath) (o : Option J)
      → s.stage ≡ authentication
      → (authenticate ops s clients o).0.stage ≡ listening
      → IsRegistered s.stream_id clients (authenticate ops s clients o)
  authenticate-IsRegistered s clients none st l = cc l
  authenticate-IsRegistered s clients (some j) st l =
      elim (Bool-cases (ops.contains j (codes "sessionId"))) [
        | inl there ↦ rw there (with_session_id-IsRegistered s clients _ st (rw there at l))
        | inr missing ↦ cc (l, st, missing)
      ]

  -- If the first text of a websocket connection brings it to listen, then the client whose session
  -- id it has named is there, and has got the id of the stream, and nothing else, as the id of its
  -- data or of its control, as the channel of the connection is.
  pub on_text-IsRegistered :
      (text : Bytes) (s : StreamSession Message) (clients : Clients FilePath)
      → s.stage ≡ unknown
      → (on_text ops text s clients).0.stage ≡ listening
      → IsRegistered s.stream_id clients (on_text ops text s clients)
  unfolding on_text
  on_text-IsRegistered text s clients first = rw first (
      authenticate-IsRegistered (record s { stage = authentication }) clients (ops.parse text) refl)

pub same_channel_self : (c : StreamChannel) → same_channel c c ≡ true
same_channel_self control_channel = refl
same_channel_self data_channel = refl
same_channel_self no_channel = refl

module _ {Message : Type 0} where
  pub connection-set :
      (id : ℕ) (s : StreamSession Message) (kvs : Connections Message)
      → connection id (set_connection id s kvs) ≡ some s
  unfolding connection set_connection
  connection-set id s [] = ground arith
  connection-set id s ((k, t) ∷ kvs) = elim (Bool-cases (k == id)) [
    | inl e ↦ rw e (rw e refl)
    | inr e ↦ rw e (rw e (connection-set id s kvs))
  ]

  abbrev heard : StreamChannel → Message → StreamSession Message → StreamSession Message
  heard chan msg s = if same_channel s.channel chan then write_message (message msg) s else s

  connection-broadcast :
      (id : ℕ) (chan : StreamChannel) (msg : Message) (kvs : Connections Message)
      {s : StreamSession Message}
      → connection id kvs ≡ some s
      → connection id (broadcast chan msg kvs) ≡ some (heard chan msg s)
  unfolding connection broadcast
  connection-broadcast id chan msg [] e = cc e
  connection-broadcast id chan msg ((k, t) ∷ kvs) {s} e = elim (Bool-cases (k == id)) [
    | inl h ↦ let same : t ≡ s = cc (rw h at e) in rw h (ap (λ x. some (heard chan msg x)) same)
    | inr h ↦ rw h (connection-broadcast id chan msg kvs (rw h at e))
  ]

  -- A connection that has not said who it is gets what is broadcast on the channel that happens to stand
  -- in its session.
  pub broadcast-connect :
      (garbage : StreamChannel) (path : Bytes) (msg : Message) (w : WebsocketStreamer Message)
      (id : ℕ)
      → (ids : _) → acquire_id w.id_generator ≡ some (id, ids)
      → (s : StreamSession Message) × (connection id
            (broadcast garbage msg (connect garbage path w).connections)
          ≡ some s)
        × (s.stage ≡ unknown)
        × (s.written ≡ message msg ∷ [])
  unfolding connect
  broadcast-connect garbage path msg w id ids e =
      let there =
        connection-broadcast id garbage msg _
          (connection-set id (new_session garbage path id) w.connections) in
      (
        heard garbage msg (new_session garbage path id),
        rw e there,
        rw (same_channel_self garbage) refl,
        rw (same_channel_self garbage) refl,
      )
