-- ===== src/Router/DeliveryTests.antt =====
-- Router and WsStreamer: a client with the stream 7 opens its directory.
use minide.Base.{[], ◌∷◌, Bytes, codes, pos, negsuc}
use minide.HashedFile.{Files}
use minide.HttpStreamer.{data_channel}
use minide.WsStreamer.{WebsocketStreamer, StreamSession, new_session, no_connections}
use minide.Router.Handler.{Client, StreamMessage, Server}
use minide.Router.Requests.{Limits}
use minide.Samples.{encode}

abbrev limits : Limits
limits = record {
  max_file_read_size = 100;
  max_file_read_size_unforceable = 200;
  file_chunk_size = 10;
}

abbrev client : Client Bytes
client = record { root = []; active_project = []; data_id = pos 7; control_id = negsuc 0 }

abbrev stream : StreamSession (StreamMessage Bytes)
stream = new_session data_channel (codes "/api/wsstreamer/data") 7

abbrev server : Server Bytes Files (WebsocketStreamer (StreamMessage Bytes))
server = record {
  sessions = (codes "s1", client) ∷ [];
  disk = (codes "/home/ws", []) ∷ [];
  streams = record no_connections { connections = (7, stream) ∷ [] };
}

abbrev open_body : Bytes
open_body = encode ((codes "path", codes "/home/ws") ∷ [])
