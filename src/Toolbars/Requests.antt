-- ===== src/Toolbars/Requests.antt =====
-- worker/routers/toolbar.cpp and worker/session/toolbar_store.cpp: the requests about toolbars. Sessions
-- hold addresses of toolbars, and a copy of a session the same ones; a toolbar that no session holds any
-- more is left where it is.
use minide.Base.{
  Bool, false, Option, none, some, List, [], ◌∷◌, ◌++◌, Bytes, codes, bytes_eq, if◌then◌else◌,
}
use minide.Base.Dict.{find, put}
use minide.Json.{JsonOps}
use minide.SessionStorage.{partially_save_session}
use minide.Toolbars.{Lua, error_message, Fallible, success, error, thrown, Engine}
use minide.Toolbars.Actions.{
  Gesture, clicks, cancels, picks, loads, selects, double_clicks, perform,
}
use minide.Toolbars.Initialize.{Toolbar, initialize}
use minide.Router.Handler.{
  Answer, refusal, text, what, empty, value, Step, ◌>>=◌, ◌>>◌, give, or_raise, answer, require,
  outer, read_json_body,
}

pub record ToolbarSession : Type 0 where
  pub scripted_toolbars : List Bytes

pub record ToolbarServer (J L : Type 0) : Type 0 where
  pub sessions : List (Bytes × ToolbarSession)
  pub toolbars : List (Bytes × Toolbar J L)

-- What a run through the directory of the toolbars gives: whether it is a directory, whether main.lua is
-- in it, the interpreter with that script, an id for a toolbar that has none, and the address that the
-- toolbar gets.
pub record Folder (L : Type 0) : Type 0 where
  pub is_directory : Bool
  pub has_main : Bool
  pub script : Option L
  pub default_id : Bytes
  pub address : Bytes

abbrev pub has_id : Option Bytes → Bytes → Bool
has_id none id = false
has_id (some found) id = bytes_eq found id

module _ {J L : Type 0} where
  abbrev pub id_of : Option (Toolbar J L) → Option Bytes
  id_of none = none
  id_of (some toolbar) = some toolbar.toolbar_id

  unfoldable pub toolbar_by_id : List (Bytes × Toolbar J L) → Bytes → List Bytes → Option Bytes
  toolbar_by_id toolbars id [] = none
  toolbar_by_id toolbars id (address ∷ addresses) =
      if has_id (id_of (find address toolbars)) id
      then some address
      else toolbar_by_id toolbars id addresses

module _ {J L T : Type 0} (ops : JsonOps J) (array : List J → J) (lib : Lua L T) (id : Bytes) where
  abbrev pub R : Type 0 → Type 0
  R A = Step (Unit {0}) (ToolbarServer J L) A

  unfoldable pub toolbar_session : R ToolbarSession
  toolbar_session s = or_raise (find id s.sessions) s

  -- `for (auto const& check : checks)`.
  unfoldable pub need_all : List Bytes → J → R (Unit {0})
  need_all [] body = give tt
  need_all (check ∷ checks) body =
      require (ops.contains body check)
        (codes "json body requires " ++ (check ++ codes " to be present"))
      >> need_all checks body

  abbrev pub found_or_refuse : Option Bytes → R Bytes
  found_or_refuse none = answer (refusal 400 (codes "toolbar with given id not found"))
  found_or_refuse (some address) = give address

  unfoldable pub find_toolbar : ToolbarSession → Bytes → R Bytes
  find_toolbar session toolbar_id s =
      found_or_refuse (toolbar_by_id s.toolbars toolbar_id session.scripted_toolbars) s

  -- The text of an exception, in an error, is left out of the answer.
  abbrev pub answer_message : Option Bytes → Answer (Unit {0})
  answer_message none = what 400
  answer_message (some message) = refusal 400 message

  abbrev pub answer_result : Fallible (Option Bool) → R (Answer (Unit {0}))
  answer_result (success none) = give (empty 200)
  answer_result (success (some b)) =
      give (text 200 (ops.dump (ops.object ((codes "apiResult", ops.of_bool b) ∷ []))))
  answer_result (error e) = give (answer_message (error_message e))
  answer_result thrown = or_raise none

  abbrev pub done_by :
      Bytes → Toolbar J L → Fallible (Option Bool) × Engine L → R (Answer (Unit {0}))
  done_by address toolbar (r, engine) s =
      answer_result r
        (record s { toolbars = put address (record toolbar { engine = engine }) s.toolbars })

  abbrev pub act_on : Bool → Gesture → Bytes → Option (Toolbar J L) → R (Answer (Unit {0}))
  act_on free gesture address none = or_raise none
  act_on free gesture address (some toolbar) =
      done_by address toolbar (perform lib free gesture toolbar.engine)

  -- The call of the member function, with its answer.
  unfoldable pub act : Bool → Gesture → Bytes → R (Answer (Unit {0}))
  act free gesture address s = act_on free gesture address (find address s.toolbars) s

  unfoldable pub delegate_toolbar_member_call :
      Bool → List Bytes → (J → Option Gesture) → J → R (Answer (Unit {0}))
  delegate_toolbar_member_call free checks gesture_of body = do
    need_all checks body
    session ← toolbar_session
    toolbar_id ← or_raise (ops.get_string (ops.at body (codes "toolbarId")))
    address ← find_toolbar session toolbar_id
    gesture ← or_raise (gesture_of body)
    act free gesture address

  abbrev pub text_of : J → Bytes → Option Bytes
  text_of body key = ops.get_string (ops.at body key)

  abbrev pub with_two : {A B : Type 0} → (A → B → Gesture) → Option A → Option B → Option Gesture
  with_two make none b = none
  with_two make (some a) none = none
  with_two make (some a) (some b) = some (make a b)

  abbrev pub with_one : (Bytes → Gesture) → Option Bytes → Option Gesture
  with_one make none = none
  with_one make (some a) = some (make a)

  unfoldable pub log_double_click : Bool → J → R (Answer (Unit {0}))
  log_double_click free body = do
    require (ops.contains body (codes "toolbarId")) (codes "need toolbarId")
    require (ops.contains body (codes "logName")) (codes "need logName")
    log_name ← or_raise (text_of body (codes "logName"))
    require (ops.contains body (codes "lineNumber")) (codes "need lineNumber")
    line_number ← or_raise (ops.get_int (ops.at body (codes "lineNumber")))
    require (ops.contains body (codes "lineString")) (codes "need lineString")
    line_string ← or_raise (text_of body (codes "lineString"))
    session ← toolbar_session
    toolbar_id ← or_raise (text_of body (codes "toolbarId"))
    address ← find_toolbar session toolbar_id
    act free (double_clicks log_name line_number line_string) address

  abbrev pub cons_toolbar :
      Bytes
      → Option (Toolbar J L)
      → Option (List (Bytes × Toolbar J L))
      → Option (List (Bytes × Toolbar J L))
  cons_toolbar address none rest = none
  cons_toolbar address (some toolbar) none = none
  cons_toolbar address (some toolbar) (some rest) = some ((address, toolbar) ∷ rest)

  -- `none` where a toolbar cannot be made.
  unfoldable pub load_toolbars : List (Folder L) → Option (List (Bytes × Toolbar J L))
  load_toolbars [] = some []
  load_toolbars (folder ∷ folders) =
      let rest = load_toolbars folders in
      if folder.is_directory
      then (if folder.has_main
          then cons_toolbar folder.address
              (initialize ops array lib folder.default_id folder.script) rest
          else rest)
      else rest

  abbrev pub put_toolbars :
      List (Bytes × Toolbar J L) → List (Bytes × Toolbar J L) → List (Bytes × Toolbar J L)
  put_toolbars [] toolbars = toolbars
  put_toolbars ((address, toolbar) ∷ loaded) toolbars =
      put address toolbar (put_toolbars loaded toolbars)

  abbrev pub addresses : List (Bytes × Toolbar J L) → List Bytes
  addresses [] = []
  addresses ((address, toolbar) ∷ loaded) = address ∷ addresses loaded

  abbrev pub representations : List (Bytes × Toolbar J L) → List J
  representations [] = []
  representations ((address, toolbar) ∷ loaded) =
      toolbar.json_representation ∷ representations loaded

  abbrev pub loaded_into : Option (List (Bytes × Toolbar J L)) → R (Answer (Unit {0}))
  loaded_into none s = (value (what 400), s)
  loaded_into (some loaded) s = (
    value (
        text 200 (ops.dump (ops.object ((codes "toolbars", array (representations loaded)) ∷ [])))),
    record s {
      sessions =
          (partially_save_session
            (λ to_save from. record to_save { scripted_toolbars = from.scripted_toolbars }) id
            (record { scripted_toolbars = addresses loaded }) s.sessions).1;
      toolbars = put_toolbars loaded s.toolbars;
    },
  )

  -- `none` where the directory cannot be run through.
  abbrev pub load_listed : Option (List (Folder L)) → Option (List (Bytes × Toolbar J L))
  load_listed none = none
  load_listed (some folders) = load_toolbars folders

  unfoldable pub load_all : Option (List (Folder L)) → R (Answer (Unit {0}))
  load_all listing = toolbar_session >>= (λ sess. loaded_into (load_listed listing))

-- The routes, each with its body, where it is JSON, or with what is in the directory of the toolbars.
pub data ToolbarRoute (J L : Type 0) : Type 0 where
  calls_action : Option J → ToolbarRoute J L
  cancels_action : Option J → ToolbarRoute J L
  calls_menu : Option J → ToolbarRoute J L
  loads_combobox : Option J → ToolbarRoute J L
  selects_in_combobox : Option J → ToolbarRoute J L
  double_clicks_log : Option J → ToolbarRoute J L
  loads_all : Option (List (Folder L)) → ToolbarRoute J L

module _ {J L T : Type 0} (ops : JsonOps J) (array : List J → J) (lib : Lua L T) (id : Bytes) where
  abbrev pub delegated :
      Bool → List Bytes → (J → Option Gesture) → Option J → R ops array lib id (Answer (Unit {0}))
  delegated free checks gesture_of body =
      read_json_body body
        (delegate_toolbar_member_call ops array lib id free (codes "toolbarId" ∷ checks) gesture_of)

  abbrev pub bool_of : J → Bytes → Option Bool
  bool_of body key = ops.get_bool (ops.at body key)

  -- `free` says whether the mutex of the toolbar can be had within the time.
  unfoldable pub toolbar_handler : Bool → ToolbarRoute J L → R ops array lib id (Answer (Unit {0}))
  toolbar_handler free (calls_action body) =
      delegated free (codes "itemId" ∷ [])
        (λ b. with_one ops array lib id clicks (text_of ops array lib id b (codes "itemId"))) body
  toolbar_handler free (cancels_action body) =
      delegated free (codes "itemId" ∷ codes "force" ∷ [])
        (λ b.
          with_two ops array lib id cancels (text_of ops array lib id b (codes "itemId"))
            (bool_of b (codes "force")))
        body
  toolbar_handler free (calls_menu body) =
      delegated free (codes "itemId" ∷ codes "menuEntryLabel" ∷ [])
        (λ b.
          with_two ops array lib id picks (text_of ops array lib id b (codes "itemId"))
            (text_of ops array lib id b (codes "menuEntryLabel")))
        body
  toolbar_handler free (loads_combobox body) =
      delegated free (codes "itemId" ∷ [])
        (λ b. with_one ops array lib id loads (text_of ops array lib id b (codes "itemId"))) body
  toolbar_handler free (selects_in_combobox body) =
      delegated free (codes "itemId" ∷ codes "selected" ∷ [])
        (λ b.
          with_two ops array lib id selects (text_of ops array lib id b (codes "itemId"))
            (text_of ops array lib id b (codes "selected")))
        body
  toolbar_handler free (double_clicks_log body) =
      read_json_body body (log_double_click ops array lib id free)
  toolbar_handler free (loads_all listing) = load_all ops array lib id listing

  unfoldable pub toolbar_handle :
      Bool → ToolbarRoute J L → ToolbarServer J L → Option (Answer (Unit {0})) × ToolbarServer J L
  toolbar_handle free route s = outer (toolbar_handler free route s)
