-- ===== src/Toolbars/Loading.antt =====
-- Toolbars: a toolbar that was loaded is the one that a click reaches.
use minide.Base.{◌≡◌, refl, ◌∙◌, Bool, true, some, List, [], ◌∷◌, Bytes, codes, bytes_eq_self}
use minide.Base.Dict.{find, find-put}
use minide.Json.{JsonOps}
use minide.SessionStorage.{partially_save_session}
use minide.SessionStorage.Laws.{partially_save_session-find}
use minide.Toolbars.{Lua}
use minide.Toolbars.Actions.{clicks, perform}
use minide.Toolbars.Initialize.{Toolbar}
use minide.Toolbars.Requests.{
  ToolbarSession, ToolbarServer, Folder, toolbar_by_id, toolbar_session, need_all, find_toolbar,
  act, done_by, delegate_toolbar_member_call, load_toolbars, put_toolbars, addresses, load_all,
  calls_action, loads_all, toolbar_handler, toolbar_handle, representations,
}
use minide.Router.Handler.{text, outer, inner, read_json_body}

module _ {J L T : Type 0} (ops : JsonOps J) (array : List J → J) (lib : Lua L T) (id : Bytes) where
  delegate-value :
      (free : Bool) (s : ToolbarServer J L) (session : ToolbarSession) (rest : List Bytes)
      (address item_id : Bytes) (toolbar : Toolbar J L) (body : J)
      → find id s.sessions ≡ some session
      → session.scripted_toolbars ≡ address ∷ rest
      → find address s.toolbars ≡ some toolbar
      → ops.contains body (codes "toolbarId") ≡ true
      → ops.contains body (codes "itemId") ≡ true
      → ops.get_string (ops.at body (codes "toolbarId")) ≡ some toolbar.toolbar_id
      → ops.get_string (ops.at body (codes "itemId")) ≡ some item_id
      → toolbar_handle ops array lib id free (calls_action (some body)) s
        ≡ outer (
            inner (
              done_by ops array lib id address toolbar
                (perform lib free (clicks item_id) toolbar.engine)
                s))
  unfolding toolbar_handle toolbar_handler read_json_body delegate_toolbar_member_call need_all
      toolbar_session find_toolbar toolbar_by_id act
  delegate-value free s session rest address item_id toolbar body there store held has_toolbar
        has_item toolbar_read item_read =
      rw
        (
          has_toolbar,
          has_item,
          there,
          toolbar_read,
          store,
          held,
          bytes_eq_self toolbar.toolbar_id,
          item_read,
          held,
        )
        refl

  -- The server with the toolbars, and the session that holds them.
  abbrev store_addresses : ToolbarSession → ToolbarSession → ToolbarSession
  store_addresses to_save from = record to_save { scripted_toolbars = from.scripted_toolbars }

  abbrev loaded_server : List (Bytes × Toolbar J L) → ToolbarServer J L → ToolbarServer J L
  loaded_server loaded s = record s {
    sessions =
        (partially_save_session store_addresses id
          (record { scripted_toolbars = addresses ops array lib id loaded }) s.sessions).1;
    toolbars = put_toolbars ops array lib id loaded s.toolbars;
  }

  loaded_session :
      (s : ToolbarServer J L) (session : ToolbarSession) (held : List Bytes)
      → find id s.sessions ≡ some session
      → find id
          (partially_save_session store_addresses id
            (record { scripted_toolbars = held })
            s.sessions).1
        ≡ some (record { scripted_toolbars = held })
  loaded_session s session held there =
      (partially_save_session-find store_addresses id id (record { scripted_toolbars = held })
        s.sessions).0
      ∙ rw (bytes_eq_self id) (rw there refl)

  load_all-value :
      (free : Bool) (s : ToolbarServer J L) (session : ToolbarSession) (folders : List (Folder L))
      (loaded : List (Bytes × Toolbar J L))
      → find id s.sessions ≡ some session
      → load_toolbars ops array lib id folders ≡ some loaded
      → toolbar_handle ops array lib id free (loads_all (some folders)) s ≡ (
        some (
            text 200 (
              ops.dump (
                ops.object
                  ((codes "toolbars", array (representations ops array lib id loaded)) ∷ [])))),
        loaded_server loaded s,
      )
  unfolding toolbar_handle toolbar_handler load_all toolbar_session
  load_all-value free s session folders loaded there made = rw (there, made) refl

  -- When the toolbars of a client can be loaded, the client gets what they are, and a click with the id of
  -- the first of them, the next thing that the client asks for, is what the engine of that toolbar, as it
  -- was loaded, makes of it.
  pub load_all-clicks :
      (free : Bool) (s : ToolbarServer J L) (session : ToolbarSession) (folders : List (Folder L))
      (address item_id : Bytes) (toolbar : Toolbar J L) (loaded : List (Bytes × Toolbar J L))
      (body : J)
      → find id s.sessions ≡ some session
      → load_toolbars ops array lib id folders ≡ some ((address, toolbar) ∷ loaded)
      → ops.contains body (codes "toolbarId") ≡ true
      → ops.contains body (codes "itemId") ≡ true
      → ops.get_string (ops.at body (codes "toolbarId")) ≡ some toolbar.toolbar_id
      → ops.get_string (ops.at body (codes "itemId")) ≡ some item_id
      → let first = toolbar_handle ops array lib id free (loads_all (some folders)) s in
        (first.0
          ≡ some (
              text 200 (
                ops.dump (
                  ops.object (
                    (
                      codes "toolbars",
                      array (toolbar.json_representation ∷ representations ops array lib id loaded),
                    )
                    ∷ [])))))
        × (toolbar_handle ops array lib id free (calls_action (some body)) first.1
            ≡ outer (
                inner (
                  done_by ops array lib id address toolbar
                    (perform lib free (clicks item_id) toolbar.engine)
                    first.1)))
  load_all-clicks free s session folders address item_id toolbar loaded body there made has_toolbar
        has_item toolbar_read item_read =
      let after : ToolbarServer J L = loaded_server ((address, toolbar) ∷ loaded) s in
      let held : find address after.toolbars ≡ some toolbar =
        find-put address address toolbar (put_toolbars ops array lib id loaded s.toolbars)
        ∙ rw (bytes_eq_self address) refl in
      let clicked =
        delegate-value free after
          (record { scripted_toolbars = addresses ops array lib id ((address, toolbar) ∷ loaded) })
          (addresses ops array lib id loaded) address item_id toolbar body
          (loaded_session s session (addresses ops array lib id ((address, toolbar) ∷ loaded))
            there)
          refl held has_toolbar has_item toolbar_read item_read in
      rw (load_all-value free s session folders ((address, toolbar) ∷ loaded) there made)
        (refl, clicked)
