-- ===== src/Toolbars/Tests.antt =====
-- worker/toolbars/scripted_toolbar.cpp: a toolbar with one button.
use minide.Base.{◌≡◌, refl, true, false, some, List, [], ◌∷◌, Bytes, codes, bytes_eq}
use minide.Base.Dict.{find}
use minide.Samples.{sample_json, encode, decode, fields_of}
use minide.Toolbars.{Lua, Engine, guarded, call}
use minide.Toolbars.Actions.{clicks, perform}
use minide.Toolbars.Guards.{Guards}
use minide.Toolbars.Locking.{perform-Guards}
use minide.Toolbars.Initialize.{
  Toolbar, initialize, interface_json, json_items, json_item, typed_fields, transfer_text,
  transfer_texts, transfer_bool,
}
use minide.Toolbars.Requests.{
  ToolbarServer, Folder, done_by, load_toolbars, calls_action, loads_all, toolbar_handle,
  representations,
}
use minide.Toolbars.Lookup.{is_in}
use minide.Toolbars.Reach.{toolbar_handle-apart}
use minide.Toolbars.Loading.{load_all-clicks}
use minide.Router.Handler.{text, outer, inner}

-- The state of the interpreter is the names of the functions that were called; a table is a text.
abbrev script : Lua (List Bytes) Bytes
script = record {
  global_valid = λ name l. true;
  global_callable = λ name l. true;
  call_for_table = λ name l. (some (codes "bar"), l);
  call_global = λ name args l. (some true, name ∷ l);
  valid = λ t key l. true;
  callable = λ t key l. true;
  table_at = λ t key l. some key;
  entries = λ t l. some (codes "go") ∷ [];
  get_text_or = λ t key alternate l. t;
  get_text = λ t key l. some (codes "IconButton");
  get_bool_or = λ t key alternate l. alternate;
  get_texts_or = λ t key l. [];
  numbered = λ t l. (codes "1", some (codes "go")) ∷ [];
  call_field = λ t key args l. (some true, key ∷ l);
}

abbrev ready : Engine (List Bytes)
ready = record { lua = []; held = 0; calls = []; loaded = true }

perform-Guards_example : Guards 0 1 (perform script true (clicks (codes "go")))
perform-Guards_example = perform-Guards script true (clicks (codes "go")) refl

abbrev looked_up : Engine (List Bytes)
looked_up = record ready { calls = (codes "get_toolbar", 1) ∷ [] }

abbrev folder : Folder (List Bytes)
folder = record {
  is_directory = true;
  has_main = true;
  script = some [];
  default_id = codes "d";
  address = codes "a";
}

abbrev first_array : List Bytes → Bytes
first_array [] = []
first_array (j ∷ js) = j

abbrev bar_json : Bytes
bar_json = encode (
    (
      codes "items",
      encode (
          (codes "type", codes "IconButton")
          ∷ (codes "id", codes "go")
          ∷ (codes "pngbase64", codes "go")
          ∷ (codes "cancelable", sample_json.of_bool false)
          ∷ []),
    )
    ∷ (codes "name", codes "bar")
    ∷ (codes "dictionary", codes "bar")
    ∷ (codes "id", codes "bar")
    ∷ [])

abbrev bar : Toolbar Bytes (List Bytes)
bar = record {
  toolbar_id = codes "bar";
  json_representation = bar_json;
  engine = record { lua = []; held = 0; calls = (codes "make_toolbar", 1) ∷ []; loaded = true };
}

abbrev server : ToolbarServer Bytes (List Bytes)
server = record {
  sessions = (codes "s", record { scripted_toolbars = [] }) ∷ [];
  toolbars = (codes "b", bar) ∷ [];
}

abbrev click_body : Bytes
click_body =
    sample_json.object ((codes "toolbarId", codes "bar") ∷ (codes "itemId", codes "go") ∷ [])

loads_bar :
    load_toolbars sample_json first_array script (codes "s") (folder ∷ [])
    ≡ some ((codes "a", bar) ∷ [])
unfolding load_toolbars initialize interface_json json_items json_item typed_fields transfer_text
    transfer_texts transfer_bool guarded call bytes_eq encode
loads_bar = refl

load_all-clicks_example :
    let first =
      toolbar_handle sample_json first_array script
        (codes "s")
        true
        (loads_all (some (folder ∷ [])))
        server in
    (first.0
      ≡ some (
          text 200 (
            sample_json.dump (
              sample_json.object (
                (
                  codes "toolbars",
                  first_array
                      (bar_json ∷ representations sample_json first_array script (codes "s") []),
                )
                ∷ [])))))
    × (toolbar_handle sample_json first_array script
          (codes "s")
          true
          (calls_action (some click_body))
          first.1
        ≡ outer (
            inner (
              done_by sample_json first_array script
                (codes "s")
                (codes "a")
                bar
                (perform script true (clicks (codes "go")) bar.engine)
                first.1)))
load_all-clicks_example =
    load_all-clicks sample_json first_array script (codes "s") true server
      (record { scripted_toolbars = [] }) (folder ∷ []) (codes "a") (codes "go") bar [] click_body
      (unfold find bytes_eq in refl) loads_bar
      (unfold decode fields_of encode find bytes_eq in refl)
      (unfold decode fields_of encode find bytes_eq in refl)
      (unfold decode fields_of encode find bytes_eq in refl)
      (unfold decode fields_of encode find bytes_eq in refl)

toolbar_handle-apart_example :
    let after =
      (toolbar_handle sample_json first_array script
        (codes "s")
        true
        (calls_action (some click_body))
        server).1 in
    (after.sessions ≡ server.sessions)
    × (find (codes "b") after.toolbars ≡ find (codes "b") server.toolbars)
toolbar_handle-apart_example =
    toolbar_handle-apart sample_json first_array script (codes "s") server (codes "b")
      (unfold is_in find bytes_eq in refl) true (calls_action (some click_body)) refl
