-- ===== src/Toolbars/Reach.antt =====
-- Toolbars: a request reaches only the toolbars that its own session has.
use minide.Base.{◌≡◌, refl, Bool, true, false, Option, List, Bytes, codes}
use minide.Base.Dict.{find}
use minide.Json.{JsonOps}
use minide.Toolbars.{Lua}
use minide.Toolbars.Actions.{Gesture, double_clicks}
use minide.Toolbars.Requests.{
  ToolbarServer, act, delegate_toolbar_member_call, text_of, log_double_click, ToolbarRoute,
  calls_action, cancels_action, calls_menu, loads_combobox, selects_in_combobox, double_clicks_log,
  loads_all, toolbar_handler, toolbar_handle,
}
use minide.Router.Handler.{or_raise, ◌>>=◌}
use minide.Router.Triples.{
  Triple, bind-Triple, seq-Triple, or_raise-Triple, weaken-Triple, outer-Triple,
  read_json_body-Triple,
}
use minide.Toolbars.Lookup.{
  is_in, toolbars_of, Kept, Same, kept, act-Triple, need_all-Triple, require-Same, or_raise-Same,
  from_session-Triple,
}

module _ {J L T : Type 0} (ops : JsonOps J) (array : List J → J) (lib : Lua L T) (id : Bytes)
    (start : ToolbarServer J L) (address : Bytes)
    (apart : is_in address (toolbars_of (find id start.sessions)) ≡ false) where
  delegate-Triple :
      (free : Bool) (checks : List Bytes) (gesture_of : J → Option Gesture) (body : J)
      → Triple
          (Same ops array lib id start address apart)
          (delegate_toolbar_member_call ops array lib id free checks gesture_of body)
          (λ _. (Kept ops array lib id start address apart))
          (Kept ops array lib id start address apart)
  unfolding delegate_toolbar_member_call
  delegate-Triple free checks gesture_of body =
      seq-Triple (need_all-Triple ops array lib id start address apart checks body) (
        from_session-Triple ops array lib id start address apart
          (ops.get_string (ops.at body (codes "toolbarId")))
          (λ at. or_raise (gesture_of body) >>= (λ g. act ops array lib id free g at))
          (λ at.
            bind-Triple
              (or_raise-Triple (λ s h. kept ops array lib id start address apart s h.0)
                (gesture_of body))
              λ g.
                weaken-Triple (λ s h. h.0)
                  (act-Triple ops array lib id start address apart free g at)))

  log_double_click-Triple :
      (free : Bool) (body : J)
      → Triple
          (Same ops array lib id start address apart)
          (log_double_click ops array lib id free body)
          (λ _. (Kept ops array lib id start address apart))
          (Kept ops array lib id start address apart)
  unfolding log_double_click
  log_double_click-Triple free body =
      seq-Triple
        (require-Same ops array lib id start address apart (ops.contains body (codes "toolbarId"))
          (codes "need toolbarId"))
        (seq-Triple
          (require-Same ops array lib id start address apart (ops.contains body (codes "logName"))
            (codes "need logName"))
          (bind-Triple
            (or_raise-Same ops array lib id start address apart
              (text_of ops array lib id body (codes "logName")))
            λ name.
              seq-Triple
                (require-Same ops array lib id start address apart
                  (ops.contains body (codes "lineNumber")) (codes "need lineNumber"))
                (bind-Triple
                  (or_raise-Same ops array lib id start address apart
                    (ops.get_int (ops.at body (codes "lineNumber"))))
                  λ number.
                    seq-Triple
                      (require-Same ops array lib id start address apart
                        (ops.contains body (codes "lineString")) (codes "need lineString"))
                      (bind-Triple
                        (or_raise-Same ops array lib id start address apart
                          (text_of ops array lib id body (codes "lineString")))
                        λ line.
                          from_session-Triple ops array lib id start address apart
                            (text_of ops array lib id body (codes "toolbarId"))
                            (act ops array lib id free (double_clicks name number line))
                            (act-Triple ops array lib id start address apart free
                              (double_clicks name number line))))))

  abbrev pub is_member_call : ToolbarRoute J L → Bool
  is_member_call (loads_all listing) = false
  is_member_call _ = true

  handler-Triple :
      (free : Bool) (route : ToolbarRoute J L)
      → is_member_call route ≡ true
      → Triple
          (Same ops array lib id start address apart)
          (toolbar_handler ops array lib id free route)
          (λ _. (Kept ops array lib id start address apart))
          (Kept ops array lib id start address apart)
  unfolding toolbar_handler
  handler-Triple free (calls_action body) e =
      read_json_body-Triple body _ (kept ops array lib id start address apart)
        (λ j f. delegate-Triple free _ _ j)
  handler-Triple free (cancels_action body) e =
      read_json_body-Triple body _ (kept ops array lib id start address apart)
        (λ j f. delegate-Triple free _ _ j)
  handler-Triple free (calls_menu body) e =
      read_json_body-Triple body _ (kept ops array lib id start address apart)
        (λ j f. delegate-Triple free _ _ j)
  handler-Triple free (loads_combobox body) e =
      read_json_body-Triple body _ (kept ops array lib id start address apart)
        (λ j f. delegate-Triple free _ _ j)
  handler-Triple free (selects_in_combobox body) e =
      read_json_body-Triple body _ (kept ops array lib id start address apart)
        (λ j f. delegate-Triple free _ _ j)
  handler-Triple free (double_clicks_log body) e =
      read_json_body-Triple body _ (kept ops array lib id start address apart)
        (λ j f. log_double_click-Triple free j)
  handler-Triple free (loads_all listing) e = cc e

  -- Whatever a client asks a toolbar to do, and whatever comes of it: the sessions are as before, and so is
  -- every toolbar that the session of the client does not hold.
  pub toolbar_handle-apart :
      (free : Bool) (route : ToolbarRoute J L)
      → is_member_call route ≡ true
      → let after = (toolbar_handle ops array lib id free route start).1 in
        (after.sessions ≡ start.sessions)
        × (find address after.toolbars ≡ find address start.toolbars)
  unfolding toolbar_handle
  toolbar_handle-apart free route member =
      outer-Triple (toolbar_handler ops array lib id free route) (handler-Triple free route member)
        start refl
