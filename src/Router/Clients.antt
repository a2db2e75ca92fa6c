-- ===== src/Router/Clients.antt =====
-- Router: what the requests of one client do to the sessions of all.
use minide.Base.{
  ◌≡◌, refl, ap, ◌∙◌, inl, inr, true, false, Option, none, some, Bytes, bytes_eq, bytes_eq_iff,
  Bool-cases, ℤ,
}
use mathlib.Core.Option
use minide.Json.{JsonOps}
use minide.FileSystem.{FileAccess}
use minide.Base.Dict.{find}
use minide.SessionStorage.Laws.{partially_save_session-find, saved}
use minide.Router.Handler.{Client, Streamer, Server, save_partial}
use minide.Router.Requests.{Limits, set_root, set_project}
use minide.Router.FileRequests.{Route, deletes, delete_file, handler, handle}
use minide.Router.Keeps.{Relation, outer-keeps}
use minide.Router.Isolation.{handler-Keeps, delete_file-Keeps, changes_root, changes_project_of}

view-saved :
    {FilePath V : Type 0} (view : Client FilePath → V)
    (extractor : Client FilePath → Client FilePath → Client FilePath)
    → ((old from : Client FilePath) → view (extractor old from) ≡ view old)
    → (from : Client FilePath) (o : Option (Client FilePath))
    → Option.map view (saved extractor from o) ≡ Option.map view o
view-saved view extractor h from none = refl
view-saved view extractor h from (some old) = ap some (h old from)

module _ {FilePath Disk Streams : Type 0} where
  -- The same is found under every key but one.
  same_others : Bytes → Relation FilePath Disk Streams
  same_others id = record {
    related = λ s t. (k : Bytes) → bytes_eq id k ≡ false → find k t.sessions ≡ find k s.sessions;
    related-refl = λ s k ne. refl;
    related-trans = λ s t u h g k ne. g k ne ∙ h k ne;
  }

  -- The server after it is the server before it.
  unchanged : Relation FilePath Disk Streams
  unchanged = record {
    related = λ s t. t ≡ s;
    related-refl = λ s. refl;
    related-trans = λ s t u h g. g ∙ h;
  }

  save_partial-others :
      (id : Bytes) (extractor : Client FilePath → Client FilePath → Client FilePath)
      (s : Server FilePath Disk Streams) (client : Client FilePath)
      → (same_others id).related s (save_partial id extractor client s).1
  unfolding save_partial same_others
  save_partial-others id extractor s client k ne =
      (partially_save_session-find extractor k id client s.sessions).0 ∙ rw ne refl

  module _ {V : Type 0} where
    -- The same is seen of every client.
    same_view : (Client FilePath → V) → Relation FilePath Disk Streams
    same_view view = record {
      related = λ s t.
          (k : Bytes) → Option.map view (find k t.sessions) ≡ Option.map view (find k s.sessions);
      related-refl = λ s k. refl;
      related-trans = λ s t u h g k. g k ∙ h k;
    }

    save_partial-same_view :
        (view : Client FilePath → V) (id : Bytes)
        (extractor : Client FilePath → Client FilePath → Client FilePath)
        → ((old from : Client FilePath) → view (extractor old from) ≡ view old)
        → (s : Server FilePath Disk Streams) (client : Client FilePath)
        → (same_view view).related s (save_partial id extractor client s).1
    unfolding save_partial same_view
    save_partial-same_view view id extractor h s client k =
        ap (Option.map view) (partially_save_session-find extractor k id client s.sessions).0
        ∙ elim (Bool-cases (bytes_eq id k)) [
          | inl e ↦ rw e (
              view-saved view extractor h client (find id s.sessions)
              ∙ ap (λ x. Option.map view (find x s.sessions)) ((bytes_eq_iff id k).0 e))
          | inr e ↦ rw e refl
        ]

abbrev pub root_and_ids : {FilePath : Type 0} → Client FilePath → FilePath × ℤ × ℤ
root_and_ids c = (c.root, c.data_id, c.control_id)

module _ {J FilePath Disk Streams : Type 0} (ops : JsonOps J) (fa : FileAccess FilePath Disk)
    (streamer : Streamer FilePath Streams) (limits : Limits) (id ip : Bytes) where
  -- Whatever a client of the worker asks for by a route other than saveFile, and whatever comes of
  -- it, the sessions of all other clients are as they were.
  pub handle-others :
      (route : Route J) (s : Server FilePath Disk Streams) (k : Bytes)
      → bytes_eq id k ≡ false
      → find k (handle ops fa streamer limits id ip route s).1.sessions ≡ find k s.sessions
  unfolding handle same_others
  handle-others route s k ne =
      outer-keeps (same_others id) s (handler ops fa streamer limits id ip route s)
        ((handler-Keeps ops fa streamer limits id ip (same_others id) (λ s d k ne. refl)
            (λ s x k ne. refl) route (λ e. save_partial-others id _)
            (λ e. save_partial-others id _)).at
          s)
        k ne

  handle-view :
      {V : Type 0} (view : Client FilePath → V) (route : Route J) (s : Server FilePath Disk Streams)
      (k : Bytes)
      → (changes_root route ≡ true
          → (old from : Client FilePath)
          → view (set_root ops fa streamer limits id ip old from) ≡ view old)
      → (changes_project_of route ≡ true
          → (old from : Client FilePath)
          → view (set_project ops fa streamer limits id ip old from) ≡ view old)
      → Option.map view (find k (handle ops fa streamer limits id ip route s).1.sessions)
        ≡ Option.map view (find k s.sessions)
  unfolding handle same_view
  handle-view view route s k h g =
      outer-keeps (same_view view) s (handler ops fa streamer limits id ip route s)
        ((handler-Keeps ops fa streamer limits id ip (same_view view) (λ s d k. refl)
            (λ s x k. refl) route (λ e. save_partial-same_view view id _ (h e))
            (λ e. save_partial-same_view view id _ (g e))).at
          s)
        k

  -- A request other than saveFile that does not open a workspace leaves every client, its own too,
  -- in the workspace that it had, and with the ids that its streams had.
  pub handle-root :
      (route : Route J) (s : Server FilePath Disk Streams) (k : Bytes)
      → changes_root route ≡ false
      → Option.map root_and_ids (find k (handle ops fa streamer limits id ip route s).1.sessions)
        ≡ Option.map root_and_ids (find k s.sessions)
  handle-root route s k e =
      handle-view root_and_ids route s k (λ t old from. cc) (λ t old from. refl)

  -- A request to delete a file leaves the disk, the sessions and the streams as they are.
  pub delete_file-stays :
      (data_ : Option J) (s : Server FilePath Disk Streams)
      → (handle ops fa streamer limits id ip (deletes data_) s).1 ≡ s
  unfolding handle unchanged
  delete_file-stays data_ s =
      outer-keeps unchanged s (delete_file ops fa streamer limits id ip data_ s)
        ((delete_file-Keeps ops fa streamer limits id ip unchanged data_).at s)
