-- ===== src/Debugging/Relay.antt =====
-- worker/debugger/debugger.cpp: what the debugger interface reports goes to the client as JSON.
use minide.Base.{Option, none, some, List, [], ◌∷◌, ◌++◌, Bytes, codes, ℤ}
use minide.Base.Dict.{put}
use minide.Json.{JsonOps}
use minide.HttpStreamer.{StreamChannel, control_channel}
use minide.Debugging.{Debugger}

-- `DebuggerInterface::Value`: a result, a constant, or another kind.
pub data Value : Type 0 where
  result : Bytes → Value → Value
  const : Bytes → Value
  other : Value

-- `DebuggerInterface::Result`, whose value may be missing.
pub record Result : Type 0 where
  pub variable : Bytes
  pub result_value : Option Value

pub record ResultRecord : Type 0 where
  pub result_status : ℤ
  pub result_results : List Result

pub record AsyncRecord : Type 0 where
  pub token : Option ℤ
  pub async_type : ℤ
  pub status : Bytes
  pub results : List Result

-- The calls of the listener that send something, and the exit that the watchdog sees.
pub data Report : Type 0 where
  log_stream : Bytes → Report
  console_stream : Bytes → Report
  parser_error : Bytes → Report
  std_err : Bytes → Report
  on_result : ResultRecord → Report
  on_exec : AsyncRecord → Report
  on_status : AsyncRecord → Report
  on_notify : AsyncRecord → Report
  partial_remain : Bytes → Bytes → Report
  debugger_exit : ℤ → Report

-- `null` is the JSON value null, and `array` makes an array.
module _ {J : Type 0} (ops : JsonOps J) (null : J) (array : List J → J) where
  unfoldable pub unpack_value : Value → J
  unpack_value (result variable value) =
      ops.object
        ((codes "variable", ops.of_string variable) ∷ (codes "value", unpack_value value) ∷ [])
  unpack_value (const text) = ops.object ((codes "value", ops.of_string text) ∷ [])
  unpack_value other = null

  abbrev pub unpack_result : Bytes → Option Value → J
  unpack_result variable (some value) = unpack_value value
  unpack_result variable none = ops.object ((codes "variable", ops.of_string variable) ∷ [])

  unfoldable pub unpack_results : List Result → List J
  unpack_results [] = []
  unpack_results (r ∷ rs) = unpack_result r.variable r.result_value ∷ unpack_results rs

  abbrev pub typed : Bytes → List (Bytes × J) → List (Bytes × J)
  typed message_type fields = (codes "messageType", ops.of_string message_type) ∷ fields

  abbrev pub text_data : Bytes → List (Bytes × J)
  text_data text = (codes "data", ops.of_string text) ∷ []

  abbrev pub token_field : Option ℤ → List (Bytes × J)
  token_field none = []
  token_field (some token) = (codes "token", ops.of_int token) ∷ []

  unfoldable pub async_fields : Bytes → AsyncRecord → List (Bytes × J)
  async_fields message_type r = typed message_type (
      token_field r.token
      ++ ((codes "type", ops.of_int r.async_type)
          ∷ (codes "status", ops.of_string r.status)
          ∷ (codes "results", array (unpack_results r.results))
          ∷ []))

  unfoldable pub fields_for : Report → List (Bytes × J)
  fields_for (log_stream text) = typed (codes "log_stream") (text_data text)
  fields_for (console_stream text) = typed (codes "console_stream") (text_data text)
  fields_for (parser_error text) = typed (codes "parser_error") (text_data text)
  fields_for (std_err text) = typed (codes "stderr") (text_data text)
  fields_for (on_result r) = typed (codes "result") (
      (codes "status", ops.of_int r.result_status)
      ∷ (codes "results", array (unpack_results r.result_results))
      ∷ [])
  fields_for (on_exec r) = async_fields (codes "exec_record") r
  fields_for (on_status r) = async_fields (codes "status_record") r
  fields_for (on_notify r) = async_fields (codes "notify_record") r
  fields_for (partial_remain remain subject) =
      typed (codes "partial_remain")
        ((codes "data", ops.of_string remain) ∷ (codes "subject", ops.of_string subject) ∷ [])
  fields_for (debugger_exit status) =
      typed (codes "debugger_exit") ((codes "exit_status", ops.of_int status) ∷ [])

  -- The body of the message that `relayMessage` sends: `j["instanceId"] = instanceId_`.
  unfoldable pub relay_body : Debugger → Report → J
  relay_body debugger report =
      ops.object (put (codes "instanceId") (ops.of_string debugger.instance_id) (fields_for report))

-- `streamer_->send` of an inline message, whose result is not looked at.
pub record Sender (J Streams : Type 0) : Type 0 where
  pub send : StreamChannel → Bytes → ℤ → Bytes → J → Streams → Streams

module _ {J Streams : Type 0} (ops : JsonOps J) (null : J) (array : List J → J)
    (sender : Sender J Streams) where
  unfoldable pub relay_message : Debugger → Report → Streams → Streams
  relay_message debugger report =
      sender.send control_channel debugger.remote_address debugger.control_id (codes "debugger")
        (relay_body ops null array debugger report)
