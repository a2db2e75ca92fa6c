-- ===== src/Debugging/Messages.antt =====
-- Debugging: every message to the client says which debugger it is from, and of which kind it is.
use minide.Base.{◌≡◌, refl, ◌∙◌, some, List, Bytes, codes, bytes_eq}
use minide.Base.Dict.{find, find-put}
use minide.Json.{JsonOps, IsLawful}
use minide.Debugging.{Debugger}
use minide.Debugging.Relay.{
  Report, log_stream, console_stream, parser_error, std_err, on_result, on_exec, on_status,
  on_notify, partial_remain, debugger_exit, fields_for, async_fields, relay_body,
}

unfoldable pub message_type : Report → Bytes
message_type (log_stream text) = codes "log_stream"
message_type (console_stream text) = codes "console_stream"
message_type (parser_error text) = codes "parser_error"
message_type (std_err text) = codes "stderr"
message_type (on_result r) = codes "result"
message_type (on_exec r) = codes "exec_record"
message_type (on_status r) = codes "status_record"
message_type (on_notify r) = codes "notify_record"
message_type (partial_remain remain subject) = codes "partial_remain"
message_type (debugger_exit status) = codes "debugger_exit"

module _ {J : Type 0} (ops : JsonOps J) (null : J) (array : List J → J) where
  fields_for-type :
      (report : Report)
      → find (codes "messageType") (fields_for ops null array report)
        ≡ some (ops.of_string (message_type report))
  unfolding fields_for async_fields message_type find bytes_eq
  fields_for-type (log_stream text) = refl
  fields_for-type (console_stream text) = refl
  fields_for-type (parser_error text) = refl
  fields_for-type (std_err text) = refl
  fields_for-type (on_result r) = refl
  fields_for-type (on_exec r) = refl
  fields_for-type (on_status r) = refl
  fields_for-type (on_notify r) = refl
  fields_for-type (partial_remain remain subject) = refl
  fields_for-type (debugger_exit status) = refl

  -- Whatever a debugger reports, the message says the id of its instance and the kind of the report.
  pub relay_body-names :
      IsLawful ops
      → (debugger : Debugger) (report : Report)
      → let body = relay_body ops null array debugger report in
        (ops.at body (codes "instanceId") ≡ ops.of_string debugger.instance_id)
        × (ops.at body (codes "messageType") ≡ ops.of_string (message_type report))
  unfolding relay_body bytes_eq
  relay_body-names laws debugger report =
      let named =
        find-put (codes "instanceId") (codes "instanceId") (ops.of_string debugger.instance_id)
          (fields_for ops null array report) in
      let typed =
        find-put (codes "messageType") (codes "instanceId") (ops.of_string debugger.instance_id)
          (fields_for ops null array report)
        ∙ fields_for-type report in
      (
        laws.at-object _ (codes "instanceId") (ops.of_string debugger.instance_id) named,
        laws.at-object _ (codes "messageType") (ops.of_string (message_type report)) typed,
      )
