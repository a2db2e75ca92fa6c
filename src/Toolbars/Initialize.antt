-- ===== src/Toolbars/Initialize.antt =====
-- worker/toolbars/scripted_toolbar.cpp, initialize: a toolbar is made from a script.
use minide.Base.{
  true, false, Option, none, some, List, [], ◌∷◌, ◌++◌, Bytes, codes, bytes_eq, if◌then◌else◌,
}
use minide.Json.{JsonOps}
use minide.Toolbars.{
  Lua, Fallible, success, error, thrown, Engine, Action, ◌>>=◌, give, or_throw, read, guarded, call,
}

pub record Toolbar (J L : Type 0) : Type 0 where
  pub toolbar_id : Bytes
  pub json_representation : J
  pub engine : Engine L

-- `array` makes an array.
module _ {J L T : Type 0} (ops : JsonOps J) (array : List J → J) (lib : Lua L T) where
  -- `transfer`: a text or a list that is empty is left out.
  abbrev pub text_entry : Bytes → Bytes → List (Bytes × J)
  text_entry key [] = []
  text_entry key (c ∷ cs) = (key, ops.of_string (c ∷ cs)) ∷ []

  abbrev pub texts_entry : Bytes → List Bytes → List (Bytes × J)
  texts_entry key [] = []
  texts_entry key (t ∷ ts) = (key, ops.of_strings (t ∷ ts)) ∷ []

  unfoldable pub transfer_text : T → Bytes → Bytes → L → List (Bytes × J)
  transfer_text item key alternate lua = text_entry key (lib.get_text_or item key alternate lua)

  unfoldable pub transfer_texts : T → Bytes → L → List (Bytes × J)
  transfer_texts item key lua = texts_entry key (lib.get_texts_or item key lua)

  unfoldable pub transfer_bool : T → Bytes → L → List (Bytes × J)
  transfer_bool item key lua = (key, ops.of_bool (lib.get_bool_or item key false lua)) ∷ []

  unfoldable pub menu_entry : T → L → J
  menu_entry entry lua = ops.object (
      transfer_text entry (codes "label") [] lua
      ++ (transfer_bool entry (codes "is_splitter") lua
          ++ (transfer_text entry (codes "pngbase64") [] lua
              ++ transfer_texts entry (codes "special_actions") lua)))

  abbrev pub cons_entry : T → L → Option (List J) → Option (List J)
  cons_entry entry lua none = none
  cons_entry entry lua (some rest) = some (menu_entry entry lua ∷ rest)

  unfoldable pub menu_entries : List (Option T) → L → Option (List J)
  menu_entries [] lua = some []
  menu_entries (none ∷ entries) lua = none
  menu_entries (some entry ∷ entries) lua = cons_entry entry lua (menu_entries entries lua)

  abbrev pub entries_field : Option (List J) → Option (List (Bytes × J))
  entries_field none = none
  entries_field (some js) = some ((codes "entries", array js) ∷ [])

  abbrev pub entries_in : Option T → L → Option (List (Bytes × J))
  entries_in none lua = none
  entries_in (some table) lua = entries_field (menu_entries (lib.entries table lua) lua)

  -- What is transferred beside the type and the id, by the type.
  unfoldable pub typed_fields : Bytes → T → L → Option (List (Bytes × J))
  typed_fields kind item lua =
      if bytes_eq kind (codes "IconButton")
      then some (
          transfer_text item (codes "pngbase64") [] lua
          ++ (transfer_texts item (codes "special_actions") lua
              ++ (transfer_bool item (codes "cancelable") lua
                  ++ transfer_texts item (codes "disables") lua)))
      else if bytes_eq kind (codes "ComboBox")
      then some (transfer_text item (codes "managed") (codes "no") lua)
      else if bytes_eq kind (codes "Menu")
      then (if lib.valid item (codes "entries") lua
          then entries_in (lib.table_at item (codes "entries") lua) lua
          else some [])
      else some []

  abbrev pub item_fields : Bytes → Bytes → T → L → List (Bytes × J) → J
  item_fields key kind item lua fields = ops.object (
      (codes "type", ops.of_string kind)
      ∷ (transfer_text item (codes "id") (codes "missing_id_" ++ key) lua ++ fields))

  abbrev pub item_of : Bytes → Bytes → T → L → Option (List (Bytes × J)) → Option J
  item_of key kind item lua none = none
  item_of key kind item lua (some fields) = some (item_fields key kind item lua fields)

  abbrev pub item_with : Bytes → Option Bytes → T → L → Option J
  item_with key none item lua = none
  item_with key (some kind) item lua = item_of key kind item lua (typed_fields kind item lua)

  unfoldable pub json_item : Bytes → T → L → Option J
  json_item key item lua = item_with key (lib.get_text item (codes "type") lua) item lua

  abbrev pub cons_item : Option J → Option (List J) → Option (List J)
  cons_item none rest = none
  cons_item (some j) none = none
  cons_item (some j) (some rest) = some (j ∷ rest)

  -- An item without a type is left out.
  unfoldable pub json_items : List (Bytes × Option T) → L → Option (List J)
  json_items [] lua = some []
  json_items ((key, none) ∷ items) lua = none
  json_items ((key, some item) ∷ items) lua =
      let rest = json_items items lua in
      if lib.valid item (codes "type") lua then cons_item (json_item key item lua) rest else rest

  abbrev pub representation : Bytes → Bytes → Bytes → List J → J
  representation name dictionary id items = ops.object (
      (codes "items", array items)
      ∷ (codes "name", ops.of_string name)
      ∷ (codes "dictionary", ops.of_string dictionary)
      ∷ (codes "id", ops.of_string id)
      ∷ [])

  abbrev pub new_engine : L → Engine L
  new_engine lua = record { lua = lua; held = 0; calls = []; loaded = false }

  -- What is made of the table that `make_toolbar` gives, with an id for one that has none.
  unfoldable pub interface_json : Bytes → T → Action L (Bytes × J)
  interface_json default_id interface = do
    name ← read (lib.get_text_or interface (codes "name") (codes "missing_name"))
    dictionary ← read (lib.get_text_or interface (codes "dictionary") (codes "generic_toolbar"))
    id ← read (lib.get_text_or interface (codes "id") default_id)
    found ← read (lib.table_at interface (codes "items"))
    table ← or_throw found
    rows ← read (lib.numbered table)
    read_items ← read (json_items rows)
    items ← or_throw read_items
    give (id, representation name dictionary id items)

  abbrev pub toolbar_with : Fallible (Bytes × J) × Engine L → Option (Toolbar J L)
  toolbar_with (success (id, j), e) =
      some
        (record { toolbar_id = id; json_representation = j; engine = record e { loaded = true } })
  toolbar_with (error x, e) = none
  toolbar_with (thrown, e) = none

  abbrev pub toolbar_in : Bytes → Option L → Option (Toolbar J L)
  toolbar_in default_id none = none
  toolbar_in default_id (some lua) = toolbar_with (
      guarded
        (call (codes "make_toolbar") (lib.call_for_table (codes "make_toolbar"))
          >>= (λ interface. interface_json default_id interface))
        (new_engine lua))

  -- The constructor; `script` is the interpreter in which the main script has run, `none` where that, or
  -- reading the script, has thrown.
  unfoldable pub initialize : Bytes → Option L → Option (Toolbar J L)
  initialize default_id script = toolbar_in default_id script
