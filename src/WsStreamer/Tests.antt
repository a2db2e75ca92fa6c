-- ===== src/WsStreamer/Tests.antt =====
-- worker/streaming/ws_streamer.cpp and stream_session.cpp: a client with the session "s1".
use minide.Base.{◌≡◌, refl, ℕ, List, [], ◌∷◌, Bytes, codes, bytes_eq, negsuc, arith, zero, suc}
use minide.Base.Dict.{find}
use minide.HttpStreamer.{data_channel, control_channel}
use minide.IdProvider.{id_max}
use minide.Router.Handler.{Client}
use minide.WsStreamer.{Clients, StreamSession, new_session, connect, no_connections, on_text}
use minide.WsStreamer.Access.{on_text-IsRegistered, IsRegistered}
use minide.WsStreamer.Leaks.{Event, connects, closes, count_connects, run, connect-run_exhausted}
use minide.Samples.{sample_json, encode, decode, fields_of}

abbrev client : Client Bytes
client = record { root = []; active_project = []; data_id = negsuc 0; control_id = negsuc 0 }

abbrev clients : Clients Bytes
clients = (codes "s1", client) ∷ (codes "s2", client) ∷ []

abbrev hello : Bytes
hello = encode ((codes "sessionId", codes "s1") ∷ [])

abbrev fresh : StreamSession Bytes
fresh = new_session control_channel (codes "/api/wsstreamer/data") 7

on_text-IsRegistered_example : IsRegistered 7 clients (on_text sample_json hello fresh clients)
unfolding on_text encode decode fields_of find bytes_eq
on_text-IsRegistered_example = on_text-IsRegistered sample_json hello fresh clients refl refl

-- Connections that come and close, one after the other.
come_and_go : ℕ → List (Event Bytes)
come_and_go zero = []
come_and_go (suc n) = connects data_channel [] ∷ closes 1 ∷ come_and_go n

come_and_go-count : (n : ℕ) → count_connects (come_and_go n) ≡ n
unfolding come_and_go
come_and_go-count zero = refl
come_and_go-count (suc n) = omega (arith, come_and_go-count n)

connect-run_exhausted_example :
    let w = (run sample_json (no_connections, clients) (come_and_go id_max)).0 in
    connect data_channel [] w ≡ w
connect-run_exhausted_example =
    connect-run_exhausted sample_json (come_and_go id_max) clients data_channel []
      (come_and_go-count id_max)
