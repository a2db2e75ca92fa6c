-- ===== src/ProjectControl/Opening.antt =====
-- worker/scripting_engine/project_control.cpp, openFileAt: a script shows a file to its client.
use minide.Base.{
  ℕ, zero, suc, ◌≡◌, refl, Bool, true, false, Option, none, some, Bytes, ℤ, pos, negsuc,
  if◌then◌else◌,
}
use minide.FileSystem.{FileAccess}
use minide.FileContent.{FileLoad, load}
use minide.HttpStreamer.{StreamChannel, data_channel}
use minide.Jail.{Jail, make}
use minide.Router.Handler.{Client}
use minide.Router.Paths.{relative_to_root}

-- `FileContent` as it is sent; that it is not to be loaded again where it is open is always said.
pub record OpenedFile : Type 0 where
  pub content : FileLoad
  pub path : Bytes
  pub line : ℤ
  pub line_pos : ℤ
  pub message : Bytes
  pub is_absolute_path : Bool

-- What is sent needs the address of the client and the id of its stream; `none` is an exception.
pub record FileSender (Streams : Type 0) : Type 0 where
  pub send : StreamChannel → Bytes → ℤ → OpenedFile → Streams → Option ℤ × Streams

module _ {FilePath Disk Streams : Type 0} (fa : FileAccess FilePath Disk)
    (sender : FileSender Streams) (ip : Bytes) (max force_max chunk_size : ℕ) where
  -- An exception of the jail is swallowed.
  abbrev pub in_jail : Disk → FilePath → Option (Jail FilePath) → Option FilePath
  in_jail disk file none = none
  in_jail disk file (some jail) = relative_to_root fa disk jail file true

  abbrev pub shown_path : Bytes → Option FilePath → Bytes
  shown_path file_name none = file_name
  shown_path file_name (some relative) = fa.files.generic_string relative

  abbrev pub is_none : Option FilePath → Bool
  is_none none = true
  is_none (some relative) = false

  abbrev pub file_for : FileLoad → Bytes → Option FilePath → ℤ → ℤ → Bytes → OpenedFile
  file_for content file_name relative line line_pos message = record {
    content = content;
    path = shown_path file_name relative;
    line = line;
    line_pos = line_pos;
    message = message;
    is_absolute_path = is_none relative;
  }

  -- The conversion of `int` to `bool`.
  abbrev pub to_bool : ℤ → Bool
  to_bool (pos zero) = false
  to_bool (pos (suc n)) = true
  to_bool (negsuc n) = true

  abbrev pub sent_as : Option ℤ × Streams → Option Bool × Streams
  sent_as (none, streams) = (none, streams)
  sent_as (some result, streams) = (some (to_bool result), streams)

  unfoldable pub open_file_at :
      Option (Client FilePath) → Bytes → ℤ → ℤ → Bytes → Disk → Streams → Option Bool × Streams
  open_file_at none file_name line line_pos message disk streams = (some false, streams)
  open_file_at (some s) file_name line line_pos message disk streams =
      let file = fa.files.of_string file_name in
      let relative = in_jail disk file (make fa.files disk s.root) in
      if fa.files.exists disk file
      then sent_as (
          sender.send data_channel ip s.data_id
            (file_for (load (fa.read_file disk file) false max force_max chunk_size) file_name
              relative line line_pos message)
            streams)
      else (some false, streams)

  -- Where the file is there and the streamer reports success, the script is told that the file was not
  -- opened.
  open_file_at-denies :
      (s : Client FilePath) (file_name : Bytes) (line line_pos : ℤ) (message : Bytes) (disk : Disk)
      (streams : Streams)
      → fa.files.exists disk (fa.files.of_string file_name) ≡ true
      → ((file : OpenedFile)
          → (sender.send data_channel ip s.data_id file streams).0 ≡ some (pos 0))
      → (open_file_at (some s) file_name line line_pos message disk streams).0 ≡ some false
  unfolding open_file_at
  open_file_at-denies s file_name line line_pos message disk streams there sends =
      rw there (by_result _ (sends _))
    where
      by_result : (r : Option ℤ × Streams) → r.0 ≡ some (pos 0) → (sent_as r).0 ≡ some false
      by_result (none, u) e = cc e
      by_result (some n, u) e = let same : n ≡ pos 0 = cc e in rw same refl
