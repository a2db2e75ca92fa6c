-- ===== src/Router/Delivery.antt =====
-- Router and WsStreamer: a workspace that is opened while the streams are those of the websockets.
use minide.Base.{ℕ, false, Option, some, List, ◌++◌, Bytes, codes, ℤ}
use minide.Json.{JsonOps}
use minide.FileSystem.{FileAccess}
use minide.Frame.Encode.{u32_of_int}
use minide.WsStreamer.{WebsocketStreamer, StreamSession, send}
use minide.Router.Handler.{StreamMessage, directory, Streamer, Server}
use minide.Router.Requests.{Limits}

module _ {FilePath : Type 0} where
  abbrev pub streams_of :
      WebsocketStreamer (StreamMessage FilePath)
      → ℤ × List (ℕ × StreamSession (StreamMessage FilePath))
      → Option ℤ × WebsocketStreamer (StreamMessage FilePath)
  streams_of w (code, connections) = (some code, record w { connections = connections })

  -- `streamer().send` over websockets: the address is not looked at.
  abbrev pub websockets : Streamer FilePath (WebsocketStreamer (StreamMessage FilePath))
  websockets = record {
    send = λ chan ip id msg w. streams_of w (send chan (u32_of_int id) msg w.connections);
  }

module _ {J FilePath Disk : Type 0} (ops : JsonOps J) (fa : FileAccess FilePath Disk)
    (limits : Limits) (id ip : Bytes) where
  abbrev World : Type 0
  World = Server FilePath Disk (WebsocketStreamer (StreamMessage FilePath))

  -- The message that an opened workspace is announced with.
  abbrev pub opened_message : Bytes → StreamMessage FilePath
  opened_message path =
      directory (fa.files.of_string path) false
        (codes "/" ++ fa.files.filename (fa.files.of_string path))
