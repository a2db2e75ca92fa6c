-- ===== src/WsStreamer/Leaks.antt =====
-- WsStreamer: the ids of connections over whole histories.
use minide.Base.{
  ℕ, suc, ◌+◌, ◌≡◌, ◌≤◌, ◌<◌, refl, ap, ◌∙◌, false, Option, none, some, List, [], ◌∷◌, Bytes, ◌==◌,
  arith,
}
use minide.Json.{JsonOps}
use minide.IdProvider.{IdProvider, acquire_id, acquire_from, id_max}
use minide.HttpStreamer.{StreamChannel}
use minide.WsStreamer.{
  WebsocketStreamer, Connections, StreamSession, Clients, no_connections, connection,
  set_connection, remove_connection, connect, broadcast, send, on_text, add_connection,
}

-- What happens to the streamer, in the order in which it is done: connections come, send a text or
-- close, messages are broadcast or sent, and all streams are shut down.
pub data Event (Message : Type 0) : Type 0 where
  connects : StreamChannel → Bytes → Event Message
  texts : ℕ → Bytes → Event Message
  closes : ℕ → Event Message
  broadcasts : StreamChannel → Message → Event Message
  sends : StreamChannel → ℕ → Message → Event Message
  shuts_down : Event Message

abbrev pub count_connects : {Message : Type 0} → List (Event Message) → ℕ
count_connects [] = 0
count_connects (connects g p ∷ es) = suc (count_connects es)
count_connects (texts id t ∷ es) = count_connects es
count_connects (closes id ∷ es) = count_connects es
count_connects (broadcasts c m ∷ es) = count_connects es
count_connects (sends c id m ∷ es) = count_connects es
count_connects (shuts_down ∷ es) = count_connects es

abbrev pub World : Type 0 → Type 0 → Type 0
World FilePath Message = WebsocketStreamer Message × Clients FilePath

-- The generator after `n` ids, of which none has come back.
abbrev pub handed_out : ℕ → IdProvider
handed_out n = record { free_ids = []; increment = n }

module _ {Message : Type 0} where
  connect-id_generator :
      (garbage : StreamChannel) (path : Bytes) (w : WebsocketStreamer Message) (n : ℕ)
      → w.id_generator ≡ handed_out n
      → n < id_max
      → (connect garbage path w).id_generator ≡ handed_out (n + 1)
  unfolding connect acquire_id acquire_from
  connect-id_generator garbage path w n e l =
      let more : (n == id_max) ≡ false = ground arith in rw (e, more) refl

module _ {FilePath Message : Type 0} where
  abbrev with_connections : World FilePath Message → Connections Message → World FilePath Message
  with_connections (w, clients) kvs = (record w { connections = kvs }, clients)

  abbrev said :
      World FilePath Message → ℕ → StreamSession Message × Clients FilePath → World FilePath Message
  said (w, clients) id (s, after) =
      (record w { connections = set_connection id s w.connections }, after)

module _ {J FilePath Message : Type 0} (ops : JsonOps J) where
  abbrev text_to :
      World FilePath Message → ℕ → Bytes → Option (StreamSession Message) → World FilePath Message
  text_to world id text none = world
  text_to world id text (some s) = said world id (on_text ops text s world.1)

  unfoldable pub apply : World FilePath Message → Event Message → World FilePath Message
  unfolding connect broadcast send
  apply world (connects garbage path) = (connect garbage path world.0, world.1)
  apply world (texts id text) = text_to world id text (connection id world.0.connections)
  apply world (closes id) = with_connections world (remove_connection id world.0.connections)
  apply world (broadcasts chan msg) =
      with_connections world (broadcast chan msg world.0.connections)
  apply world (sends chan id msg) = with_connections world (send chan id msg world.0.connections).1
  apply world shuts_down = with_connections world []

  unfoldable pub run : World FilePath Message → List (Event Message) → World FilePath Message
  unfolding apply
  run world [] = world
  run world (e ∷ es) = run (apply world e) es

  text_to-id_generator :
      (world : World FilePath Message) (id : ℕ) (text : Bytes) (o : Option (StreamSession Message))
      → (text_to world id text o).0.id_generator ≡ world.0.id_generator
  text_to-id_generator world id text none = refl
  text_to-id_generator world id text (some s) = refl

  run-handed_out :
      (es : List (Event Message)) (world : World FilePath Message) (n : ℕ)
      → world.0.id_generator ≡ handed_out n
      → n + count_connects es ≤ id_max
      → (run world es).0.id_generator ≡ handed_out (n + count_connects es)
  unfolding run apply
  run-handed_out [] world n e l = e ∙ ap handed_out (omega arith)
  run-handed_out (connects g p ∷ es) world n e l =
      run-handed_out es _ (n + 1) (connect-id_generator g p world.0 n e (omega arith)) (omega arith)
      ∙ ap handed_out (omega arith)
  run-handed_out (texts id t ∷ es) world n e l =
      run-handed_out es _ n (text_to-id_generator world id t _ ∙ e) l
  run-handed_out (closes id ∷ es) world n e l = run-handed_out es _ n e l
  run-handed_out (broadcasts c m ∷ es) world n e l = run-handed_out es _ n e l
  run-handed_out (sends c id m ∷ es) world n e l = run-handed_out es _ n e l
  run-handed_out (shuts_down ∷ es) world n e l = run-handed_out es _ n e l

  -- However many connections have been closed: after a history in which 2^32 - 1 have come, every
  -- further connection is refused, and leaves the streamer as it is.
  pub connect-run_exhausted :
      (es : List (Event Message)) (clients : Clients FilePath) (garbage : StreamChannel)
      (path : Bytes)
      → count_connects es ≡ id_max
      → let w = (run (no_connections, clients) es).0 in connect garbage path w ≡ w
  unfolding connect acquire_id acquire_from
  connect-run_exhausted es clients garbage path all =
      let w = (run (no_connections, clients) es).0 in
      let used : w.id_generator ≡ handed_out id_max =
        run-handed_out es (no_connections, clients) 0 refl (omega arith)
        ∙ ap handed_out (omega arith) in
      ap (λ ids. add_connection garbage path w (acquire_id ids)) used
