-- ===== src/Router/SaveFile.antt =====
-- worker/routers/workspace.cpp, saveFile: a body of a JSON part and data comes in pieces, and its data
-- go to a file beside the one that is named.
use minide.Base.{
  ℕ, zero, suc, ◌+◌, ◌-◌, ◌*◌, ◌^◌, Bool, true, false, not, ◌&&◌, ◌||◌, Option, none, some, List,
  [], ◌∷◌, ◌++◌, Bytes, codes, ltb, leb, ◌==◌, if◌then◌else◌, ℤ, pos, negsuc,
}
use minide.Json.{JsonOps}
use minide.FileSystem.{FileAccess}
use minide.Workspace.Verify.{Verified, refused, accepted, thrown}
use minide.HashedFile.{
  Files, FileOps, HashedFile, no_file, open_file, write, test_and_move, destroy,
}
use minide.HybridSink.Automaton.{
  Sink, Callbacks, Handled, handled, exception, Advanced, Written, done, out_of_fuel, new_sink,
  write_all,
}
use minide.Router.Paths.{verify_path}
use minide.Router.Handler.{Client, Answer, refusal, text, what, empty}

-- `std::stoll` of the header: spaces, a sign and the digits in front; `none` is an exception.
abbrev is_digit : ℕ → Bool
is_digit c = leb b'0' c && leb c b'9'

unfoldable pub decimal_value : ℕ → Bytes → ℕ
decimal_value acc [] = acc
decimal_value acc (c ∷ cs) = elim (is_digit c) [
  | true ↦ decimal_value (acc * 10 + (c - b'0')) cs
  | false ↦ acc
]

abbrev decimal : Bytes → Option ℕ
decimal [] = none
decimal (c ∷ cs) = if is_digit c then some (decimal_value 0 (c ∷ cs)) else none

abbrev at_most : ℕ → (ℕ → ℤ) → Option ℕ → Option ℤ
at_most limit signed none = none
at_most limit signed (some n) = if leb n limit then some (signed n) else none

abbrev minus : ℕ → ℤ
minus zero = pos zero
minus (suc n) = negsuc n

abbrev signed_decimal : Bytes → Option ℤ
signed_decimal [] = none
signed_decimal (c ∷ cs) =
    if c == b'-'
    then at_most (2 ^ 63) minus (decimal cs)
    else at_most (2 ^ 63 - 1) pos (decimal (if c == b'+' then cs else c ∷ cs))

unfoldable pub stoll_decimal : Bytes → Option ℤ
unfolding decimal_value
stoll_decimal [] = none
stoll_decimal (c ∷ cs) = elim (c == b' ' || (leb 9 c && leb c 13)) [
  | true ↦ stoll_decimal cs
  | false ↦ signed_decimal (c ∷ cs)
]

-- What the request changes: the file that is written, the files, and what was answered, in order. The
-- first answer concludes the request; that the client is gone is left out.
pub record Saving (FilePath : Type 0) : Type 0 where
  pub file : HashedFile
  pub files : Files
  pub answers : List (Answer FilePath)

abbrev pub new_saving : {FilePath : Type 0} → Files → Saving FilePath
new_saving files = record { file = no_file; files = files; answers = [] }

abbrev pub respond : {FilePath : Type 0} → Answer FilePath → Saving FilePath → Saving FilePath
respond answer w = record w { answers = w.answers ++ (answer ∷ []) }

abbrev pub too_small : Bytes
too_small =
    codes "Content-Length is too small to be correct (10 bytes hex json len + | + json + data)"

module _ {J FilePath : Type 0} (ops : JsonOps J) (fa : FileAccess FilePath Files) (store : FileOps)
    (session : Option (Client FilePath)) where
  abbrev pub opened : Saving FilePath → HashedFile × Files → Saving FilePath
  opened w (file, files) =
      if file.is_good
      then record w { file = file; files = files }
      else respond (refusal 400 (codes "cannot open file"))
          (record w { file = file; files = files })

  abbrev pub open_verified : Bytes → Saving FilePath → Verified → Saving FilePath
  open_verified hash w (refused message path) = respond (refusal 400 message) w
  open_verified hash w (accepted path) = opened w (open_file store path hash w.files)
  open_verified hash w thrown = respond (what 500) w

  abbrev pub with_path : Bytes → Client FilePath → Saving FilePath → Option Bytes → Saving FilePath
  with_path hash client w none = respond (what 500) w
  with_path hash client w (some path) =
      open_verified hash w (verify_path fa w.files path client.root false false)

  abbrev pub with_session : Bytes → J → Saving FilePath → Option (Client FilePath) → Saving FilePath
  with_session hash j w none = respond (what 500) w
  with_session hash j w (some client) =
      with_path hash client w (ops.get_string (ops.at j (codes "path")))

  abbrev pub with_hash : J → Saving FilePath → Option Bytes → Saving FilePath
  with_hash j w none = respond (what 500) w
  with_hash j w (some hash) = with_session hash j w session

  unfoldable pub json_complete : J → Saving FilePath → Saving FilePath
  json_complete j w =
      if not (ops.contains j (codes "path"))
      then respond (refusal 400 (codes "need path in json body part")) w
      else if not (ops.contains j (codes "sha256"))
      then respond (refusal 400 (codes "requires a sha256 in the json body for verification")) w
      else with_hash j w (ops.get_string (ops.at j (codes "sha256")))

  -- The sink parses the part; the text of the parser's exception is `parse_error`.
  abbrev pub parsed : Bytes → Saving FilePath → Option J → Handled (Saving FilePath)
  parsed parse_error w none = exception parse_error w
  parsed parse_error w (some j) = handled (json_complete j w)

  abbrev pub with_file : Saving FilePath → HashedFile × Files → Saving FilePath
  with_file w (file, files) = record w { file = file; files = files }

  unfoldable pub on_data : Bytes → Saving FilePath → Saving FilePath
  on_data piece w = if w.file.is_good then with_file w (write store piece w.file w.files) else w

  abbrev pub callbacks : Bytes → Callbacks (Saving FilePath)
  callbacks parse_error = record {
    on_json = λ part w. parsed parse_error w (ops.parse part);
    on_data = on_data;
    on_expectation_failure = λ message w. respond (refusal 400 message) w;
  }

  abbrev pub conclude : Bool → List (Answer FilePath) → List (Answer FilePath)
  conclude success (a ∷ answers) = a ∷ answers
  conclude true [] = empty 204 ∷ []
  conclude false [] = text 500 (codes "transfered file does not match sent hash.") ∷ []

  -- `testAndMove` when the body has been read, the answer, and the destructor of the file.
  unfoldable pub finish : Saving FilePath → Saving FilePath
  finish w =
      let (success, files) = test_and_move store w.file w.files in
      record w { files = destroy store w.file files; answers = conclude success w.answers }

  -- An exception of the sink ends in `except`, where nothing is answered.
  abbrev pub read_to_end : Written (Saving FilePath) → Option (Saving FilePath)
  read_to_end (done sink w) = some (finish w)
  read_to_end (Written.thrown sink w) = some (record w { files = destroy store w.file w.files })
  read_to_end out_of_fuel = none

  -- The body is read into a sink; `advance` runs its automaton.
  abbrev pub receive :
      (Sink → Saving FilePath → Advanced (Saving FilePath))
      → Bytes
      → List Bytes
      → Files
      → ℕ
      → Option (Saving FilePath)
  receive advance parse_error pieces files len =
      read_to_end
        (write_all (callbacks parse_error) advance pieces (new_sink len) (new_saving files))

  abbrev pub checked_length :
      (ℕ → Option (Saving FilePath)) → Files → ℕ → Option ℤ → Option (Saving FilePath)
  checked_length go files max none = some (respond (what 400) (new_saving files))
  checked_length go files max (some (pos n)) =
      if ltb max n
      then some (respond (empty 413) (new_saving files))
      else if ltb n 13
      then some (respond (refusal 400 too_small) (new_saving files))
      else go n
  checked_length go files max (some (negsuc n)) =
      some (respond (refusal 400 too_small) (new_saving files))

  abbrev pub with_length :
      (ℕ → Option (Saving FilePath)) → Files → ℕ → Option Bytes → Option (Saving FilePath)
  with_length go files max none = some (respond (empty 411) (new_saving files))
  with_length go files max (some header) = checked_length go files max (stoll_decimal header)

  abbrev pub with_client :
      (ℕ → Option (Saving FilePath))
      → Files
      → ℕ
      → Option Bytes
      → Option (Client FilePath)
      → Option (Saving FilePath)
  with_client go files max header none = none
  with_client go files max header (some client) =
      if fa.files.is_empty client.root
      then some (respond (refusal 400 (codes "open a workspace first")) (new_saving files))
      else with_length go files max header

  -- `none` is an exception that leaves the handler. `max` is the `maxFileWriteSize` of the
  -- configuration, `header` that of the length.
  unfoldable pub save_file :
      (Sink → Saving FilePath → Advanced (Saving FilePath))
      → Bytes
      → ℕ
      → Option Bytes
      → List Bytes
      → Files
      → Option (Saving FilePath)
  save_file advance parse_error max header pieces files =
      with_client (receive advance parse_error pieces files) files max header session
