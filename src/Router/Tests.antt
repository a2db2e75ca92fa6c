-- ===== src/Router/Tests.antt =====
-- worker/routers/workspace.cpp: two clients, and a small disk.
use minide.Base.{
  ◌≡◌, refl, ap, true, false, none, some, List, [], ◌∷◌, ◌++◌, Bytes, codes, bytes_eq, pos, negsuc,
  arith,
}
use mathlib.Core.Option
use minide.Base.Dict.{find}
use minide.FileSystem.{FileSystem, FileAccess}
use minide.Jail.{make, climbs}
use minide.Workspace.Verify.{strip_slash, starts_below}
use minide.HashedFile.{Files, FileOps, lower, temp_name}
use minide.HashedFile.Laws.{IsMoved}
use minide.Frame.Hex.{hex8, hex, hex_onto, pad}
use minide.HybridSink.Cuts.{concat}
use minide.HybridSink.Advance.{advance_by_table, advance_by_table-Advances}
use minide.Router.Paths.{verify_path, verify_stripped, relative_to_root}
use minide.Router.Handler.{Client, Streamer, StreamMessage, Server, empty, text}
use minide.Router.Requests.{Limits}
use minide.Router.FileRequests.{opens, loads, handle}
use minide.Router.Clients.{handle-others, handle-root, root_and_ids}
use minide.Router.SaveFile.{Saving, save_file, callbacks, stoll_decimal, decimal_value}
use minide.Router.Saved.{save_file-stores, save_file-rejects, SameBeside, mismatch}
use minide.Samples.{encode, decode, fields_of, sample_json, sample_access}

-- Paths that are their parts.
abbrev but_last : List Bytes → List Bytes
but_last [] = []
but_last (x ∷ []) = []
but_last (x ∷ y ∷ ys) = x ∷ but_last (y ∷ ys)

abbrev part_files : FileSystem (List Bytes) Files
part_files = record {
  of_string = λ s. s ∷ [];
  generic_string = concat_parts;
  is_empty = λ p. false;
  filename = λ p. [];
  parent_path = but_last;
  join = λ a b. a ++ b;
  parts = λ p. p;
  canonical = λ d p. some p;
  relative = λ d p base. some p;
  exists = λ d p. false;
  readable = λ d p. false;
  remove = λ p d. some d;
  can_scan = λ d p recursive. true;
}
  where
    concat_parts : List Bytes → Bytes
    concat_parts [] = []
    concat_parts (p ∷ ps) = p ++ concat_parts ps

abbrev part_access : FileAccess (List Bytes) Files
part_access = record {
  files = part_files;
  proximate = λ d p base. some p;
  stem = λ p. [];
  extension = λ p. [];
  is_regular_file = λ d p. false;
  is_directory = λ d p. false;
  read_file = λ d p. none;
  write_file = λ d p content. none;
  create_directory = λ d p. none;
}

but_last-append : (pre : List Bytes) (part : Bytes) → but_last (pre ++ (part ∷ [])) ≡ pre
but_last-append [] part = refl
but_last-append (x ∷ []) part = refl
but_last-append (x ∷ y ∷ ys) part = ap (λ l. x ∷ l) (but_last-append (y ∷ ys) part)

abbrev nested : List Bytes
nested = codes "src" ∷ codes "a" ∷ codes "source" ∷ codes "b" ∷ []

abbrev silent : Streamer Bytes (List (StreamMessage Bytes))
silent = record { send = λ channel ip id msg sent. (some (pos 0), msg ∷ sent) }

abbrev limits : Limits
limits = record {
  max_file_read_size = 100;
  max_file_read_size_unforceable = 200;
  file_chunk_size = 10;
}

abbrev client : Client Bytes
client = record {
  root = codes "/home/ws";
  active_project = [];
  data_id = pos 1;
  control_id = negsuc 0;
}

abbrev server : Server Bytes Files (List (StreamMessage Bytes))
server = record {
  sessions = (codes "s1", client) ∷ (codes "s2", client) ∷ [];
  disk = (codes "/home/ws", []) ∷ (codes "/home/ws/a", codes "text") ∷ [];
  streams = [];
}

abbrev open_body : Bytes
open_body = encode ((codes "path", codes "/home/ws") ∷ [])

handle-others_example :
    find
      (codes "s2")
      (handle sample_json sample_access silent limits
        (codes "s1")
        []
        (opens (some open_body))
        server).1.sessions
    ≡ find (codes "s2") server.sessions
unfolding bytes_eq
handle-others_example =
    handle-others sample_json sample_access silent limits (codes "s1") [] (opens (some open_body))
      server (codes "s2") refl

abbrev load_body : Bytes
load_body = encode ((codes "path", codes "ws/a") ∷ [])

handle-root_example :
    Option.map root_and_ids (
      find
        (codes "s1")
        (handle sample_json sample_access silent limits
          (codes "s1")
          []
          (loads (some load_body))
          server).1.sessions)
    ≡ Option.map root_and_ids (find (codes "s1") server.sessions)
handle-root_example =
    handle-root sample_json sample_access silent limits (codes "s1") [] (loads (some load_body))
      server (codes "s1") refl

-- Files whose hash is their content.
abbrev granting : FileOps
granting = record {
  opens = λ files name. true;
  removes = λ files name. true;
  renames = λ files source target. true;
  sha256 = λ content. content;
}

abbrev save_part : Bytes
save_part = encode ((codes "path", codes "ws/a") ∷ (codes "sha256", codes "NEW") ∷ [])

-- The part is 21 bytes long.
abbrev save_pieces : Bytes → List Bytes
save_pieces content = codes "0x0000" ∷ (codes "0015|" ++ save_part) ∷ content ∷ []

save_file-stores_example :
    (w : Saving Bytes) × (save_file sample_json sample_access granting
        (some client)
        (advance_by_table (callbacks sample_json sample_access granting (some client) []))
        []
        100
        (some (codes "35"))
        (save_pieces (codes "new"))
        server.disk
      ≡ some w)
    × (w.answers ≡ empty 204 ∷ [])
    × IsMoved granting (codes "/home/ws/a") (codes "new") (codes "new") server.disk w.files
unfolding bytes_eq verify_path verify_stripped strip_slash starts_below relative_to_root climbs make
    concat encode decode fields_of find stoll_decimal decimal_value lower hex8 hex hex_onto pad
save_file-stores_example =
    save_file-stores sample_json sample_access granting client [] server.disk (codes "ws/a")
      (codes "/home/ws/a") (codes "NEW") refl refl refl save_part refl refl refl refl
      (advance_by_table (callbacks sample_json sample_access granting (some client) []))
      (advance_by_table-Advances (callbacks sample_json sample_access granting (some client) []))
      100 (codes "35") (save_pieces (codes "new")) save_part (codes "new") refl (ground arith)
      (ground arith) refl (ground arith) (ground arith) refl refl (λ now. refl)

save_file-rejects_example :
    (w : Saving Bytes) × (save_file sample_json sample_access granting
        (some client)
        (advance_by_table (callbacks sample_json sample_access granting (some client) []))
        []
        100
        (some (codes "35"))
        (save_pieces (codes "odd"))
        server.disk
      ≡ some w)
    × (w.answers ≡ text 500 mismatch ∷ [])
    × SameBeside (temp_name (codes "/home/ws/a")) server.disk w.files
unfolding bytes_eq verify_path verify_stripped strip_slash starts_below relative_to_root climbs make
    concat encode decode fields_of find stoll_decimal decimal_value lower hex8 hex hex_onto pad
save_file-rejects_example =
    save_file-rejects sample_json sample_access granting client [] server.disk (codes "ws/a")
      (codes "/home/ws/a") (codes "NEW") refl refl refl save_part refl refl refl refl
      (advance_by_table (callbacks sample_json sample_access granting (some client) []))
      (advance_by_table-Advances (callbacks sample_json sample_access granting (some client) []))
      100 (codes "35") (save_pieces (codes "odd")) save_part (codes "odd") refl (ground arith)
      (ground arith) refl (ground arith) (ground arith) refl refl
