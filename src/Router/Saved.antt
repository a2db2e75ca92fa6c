-- ===== src/Router/Saved.antt =====
-- Router: what saveFile leaves for the body that a client sends, from the first piece of the body to the
-- end of the file's object.
use minide.Base.{
  ℕ, ◌^◌, ◌≡◌, ◌≤◌, ◌<◌, refl, sym, ap, ◌∙◌, inl, inr, true, false, none, some, List, [], ◌∷◌, ◌++◌,
  Bytes, codes, bytes_eq, bytes_eq_self, ltb, if◌then◌else◌, length, arith, Bool-cases, pos,
  length-append,
}
use minide.Base.Dict.{find, find-put}
use minide.Json.{JsonOps}
use minide.FileSystem.{FileAccess}
use minide.Frame.Hex.{hex8, length-hex8}
use minide.Workspace.Verify.{accepted}
use minide.HashedFile.{Files, FileOps, temp_name, lower, open_file, destroy}
use minide.HashedFile.Laws.{
  writing, with_temp, write-writing, test_and_move-rejects, test_and_move-accepts, IsMoved,
  find-destroy, name-ne,
}
use minide.HybridSink.Automaton.{Sink, Advanced, Advances, handled}
use minide.HybridSink.Cuts.{concat, write_all-framed}
use minide.Router.Paths.{verify_path}
use minide.Router.Handler.{Client, empty, text}
use minide.Router.SaveFile.{
  Saving, new_saving, save_file, stoll_decimal, json_complete, on_data, callbacks, finish,
  read_to_end,
}

abbrev pub mismatch : Bytes
mismatch = codes "transfered file does not match sent hash."

-- The files are the same but for one name.
abbrev pub SameBeside : Bytes → Files → Files → Type 0
SameBeside name before after =
    (k : Bytes)
    → (if bytes_eq name k then none else find k after)
      ≡ (if bytes_eq name k then none else find k before)

module _ {J FilePath : Type 0} (ops : JsonOps J) (fa : FileAccess FilePath Files) (store : FileOps)
    (client : Client FilePath) (parse_error : Bytes) (files : Files) (target hash : Bytes) where
  -- The request with the file open and some of its data in it.
  with_data : Bytes → Saving FilePath
  with_data content = record {
    file = writing target (lower hash);
    files = with_temp target content files;
    answers = [];
  }

  on_data-with_data :
      (a b : Bytes) → on_data ops fa store (some client) b (with_data a) ≡ with_data (a ++ b)
  unfolding on_data with_data
  on_data-with_data a b = rw (write-writing store target (lower hash) a b files) refl

  -- Where no temporary file is left, the end of the object leaves the files as they are.
  destroy_nothing :
      (after : Files)
      → find (temp_name target) after ≡ none
      → destroy store (writing target (lower hash)) after ≡ after
  unfolding destroy
  destroy_nothing after gone = rw gone (ground arith)

  finish-accepts :
      (content : Bytes)
      → bytes_eq (lower hash) (store.sha256 content) ≡ true
      → ((now : Files) → store.renames now (temp_name target) target ≡ true)
      → let w = finish ops fa store (some client) (with_data content) in
        (w.answers ≡ empty 204 ∷ []) × IsMoved store target (lower hash) content files w.files
  unfolding finish with_data
  finish-accepts content matches renames =
      let (success, moved) =
        test_and_move-accepts store target (lower hash) content files matches renames in
      let gone =
        moved (temp_name target) ∙ rw (name-ne target, bytes_eq_self (temp_name target)) refl in
      (rw success refl, λ k. ap (find k) (destroy_nothing _ gone) ∙ moved k)

  finish-rejects :
      (content : Bytes)
      → bytes_eq (lower hash) (store.sha256 content) ≡ false
      → let w = finish ops fa store (some client) (with_data content) in
        (w.answers ≡ text 500 mismatch ∷ []) × SameBeside (temp_name target) files w.files
  unfolding finish with_data
  finish-rejects content differs =
      let kept = test_and_move-rejects store target (lower hash) content files differs in
      rw kept (
        refl,
        λ k. elim (Bool-cases (bytes_eq (temp_name target) k)) [
          | inl same ↦ rw same refl
          | inr other ↦ rw other (
              find-destroy store target (lower hash) (writing target (lower hash)) k
                (with_temp target content files) other
              ∙ find-put k (temp_name target) content files
              ∙ rw other refl)
        ],
      )

  json_complete-with_data :
      (j : J) (path : Bytes)
      → ops.contains j (codes "path") ≡ true
      → ops.contains j (codes "sha256") ≡ true
      → ops.get_string (ops.at j (codes "path")) ≡ some path
      → ops.get_string (ops.at j (codes "sha256")) ≡ some hash
      → verify_path fa files path client.root false false ≡ accepted target
      → store.opens files (temp_name target) ≡ true
      → json_complete ops fa store (some client) j (new_saving files) ≡ with_data []
  unfolding json_complete with_data open_file
  json_complete-with_data j path has_path has_hash the_path the_hash verified opens =
      rw (has_path, has_hash, the_hash, the_path, verified, opens) refl

  module _ (advance : Sink → Saving FilePath → Advanced (Saving FilePath))
      (adv : Advances (callbacks ops fa store (some client) parse_error) advance) where
    -- The request reads a framed body to its end, with all data in the file.
    save_file-reads :
        (max : ℕ) (header : Bytes) (pieces : List Bytes) (part content : Bytes) (j : J)
        → fa.files.is_empty client.root ≡ false
        → stoll_decimal header ≡ some (pos (length (concat pieces)))
        → length (concat pieces) ≤ max
        → max < 2 ^ 63
        → concat pieces ≡ codes "0x" ++ (hex8 (length part) ++ (b'|' ∷ (part ++ content)))
        → 2 ≤ length part
        → length part < 2 ^ 32
        → ops.parse part ≡ some j
        → json_complete ops fa store (some client) j (new_saving files) ≡ with_data []
        → save_file ops fa store (some client) advance parse_error max (some header) pieces files
          ≡ some (finish ops fa store (some client) (with_data content))
    unfolding save_file
    save_file-reads max header pieces part content j has_root the_length fits short e some_json
          small parses takes =
        let long : 13 ≤ length (concat pieces) = omega (
          arith,
          ap length e,
          length-hex8 (length part) (omega arith),
          length-append (hex8 (length part)) (b'|' ∷ (part ++ content)),
          length-append part content,
        ) in
        let under : ltb max (length (concat pieces)) ≡ false = ground arith in
        let over : ltb (length (concat pieces)) 13 ≡ false = ground arith in
        let read =
          write_all-framed (callbacks ops fa store (some client) parse_error) advance adv
            (new_saving files) (with_data []) (on_data-with_data [] []) pieces_of_data pieces part
            content small (rw parses (ap handled takes)) e (omega arith) in
        rw (has_root, the_length, under, over)
          (ap (read_to_end ops fa store (some client)) read
            ∙ ap (λ w. some (finish ops fa store (some client) w)) (on_data-with_data [] content))
      where
        pieces_of_data :
            (a b : Bytes)
            → on_data ops fa store
                (some client)
                b
                (on_data ops fa store (some client) a (with_data []))
              ≡ on_data ops fa store (some client) (a ++ b) (with_data [])
        pieces_of_data a b =
            ap (on_data ops fa store (some client) b) (on_data-with_data [] a)
            ∙ on_data-with_data a b
            ∙ sym (on_data-with_data [] (a ++ b))

-- A request to save: the body of a client with a workspace, of the announced length and within the
-- limit, with a JSON part that names a path and a hash; the path is accepted and the file opens.
module _ {J FilePath : Type 0} (ops : JsonOps J) (fa : FileAccess FilePath Files) (store : FileOps)
    (client : Client FilePath) (parse_error : Bytes) (files : Files) (path target hash : Bytes)
    (has_root : fa.files.is_empty client.root ≡ false)
    (verified : verify_path fa files path client.root false false ≡ accepted target)
    (opens : store.opens files (temp_name target) ≡ true) (j : J)
    (has_path : ops.contains j (codes "path") ≡ true)
    (has_hash : ops.contains j (codes "sha256") ≡ true)
    (the_path : ops.get_string (ops.at j (codes "path")) ≡ some path)
    (the_hash : ops.get_string (ops.at j (codes "sha256")) ≡ some hash)
    (advance : Sink → Saving FilePath → Advanced (Saving FilePath))
    (adv : Advances (callbacks ops fa store (some client) parse_error) advance) (max : ℕ)
    (header : Bytes) (pieces : List Bytes) (part content : Bytes)
    (announced : stoll_decimal header ≡ some (pos (length (concat pieces))))
    (fits : length (concat pieces) ≤ max) (limit : max < 2 ^ 63)
    (framed : concat pieces ≡ codes "0x" ++ (hex8 (length part) ++ (b'|' ∷ (part ++ content))))
    (some_json : 2 ≤ length part) (small : length part < 2 ^ 32)
    (parses : ops.parse part ≡ some j) where
  reads :
      save_file ops fa store (some client) advance parse_error max (some header) pieces files
      ≡ some (
          finish ops fa store
            (some client)
            (with_data ops fa store client parse_error files target hash content))
  reads =
      save_file-reads ops fa store client parse_error files target hash advance adv max header
        pieces part content j has_root announced fits limit framed some_json small parses
        (json_complete-with_data ops fa store client parse_error files target hash j path has_path
          has_hash the_path the_hash verified opens)

  -- However the body of a saveFile request is cut into pieces: the client has a workspace, the
  -- length is announced and within a limit below 2^63, and the body is "0x", the size of a JSON
  -- part of 2 bytes to less than 2^32 in eight digits, "|", that part, which names an accepted
  -- path and a hash, and data. If the data have the hash, in either case of letters, and the file
  -- may be opened and moved, then the answer is 204 alone, the path holds exactly the data, no
  -- temporary file is left, and all other files are as they were.
  pub save_file-stores :
      bytes_eq (lower hash) (store.sha256 content) ≡ true
      → ((now : Files) → store.renames now (temp_name target) target ≡ true)
      → (w : Saving FilePath) × (save_file ops fa store
            (some client)
            advance
            parse_error
            max
            (some header)
            pieces
            files
          ≡ some w)
        × (w.answers ≡ empty 204 ∷ [])
        × IsMoved store target (lower hash) content files w.files
  save_file-stores matches renames =
      let (answered, moved) =
        finish-accepts ops fa store client parse_error files target hash content matches renames in
      (_, reads, answered, moved)

  -- If the data of such a saveFile request, one with a workspace, an announced length within the
  -- limit, a framed body, an accepted path and a file that opens, do not have the hash that it
  -- names, the answer is 500 alone, and every file but the temporary one is as it was, the file at
  -- the path too.
  pub save_file-rejects :
      bytes_eq (lower hash) (store.sha256 content) ≡ false
      → (w : Saving FilePath) × (save_file ops fa store
            (some client)
            advance
            parse_error
            max
            (some header)
            pieces
            files
          ≡ some w)
        × (w.answers ≡ text 500 mismatch ∷ [])
        × SameBeside (temp_name target) files w.files
  save_file-rejects differs =
      let (answered, kept) =
        finish-rejects ops fa store client parse_error files target hash content differs in
      (_, reads, answered, kept)
