-- ===== src/Push/Calls.antt =====
-- SendIncomingCall and SendCallSignal, internal/service/message.go.
pub mod Repeats
use Prim.Native.String.{◌++◌ as str_append}
use mgl_communication.Base.{
  ℕ, ◌+◌, ◌-◌, ◌*◌, ◌/◌, String, Bool, true, false, not, ◌||◌, ◌==◌, ltb, if◌then◌else◌, Option,
  none, some, List, [], ◌∷◌, Dict, insert, invalid_request, Result, err,
}
use mgl_communication.Retry.{second}
use mgl_communication.Push.Types.{
  MessageType, incoming_call, call_cancelled, call_ended, IncomingCall, SendMessageResult, Tools,
  type_name,
}
use mgl_communication.Push.Tables.{Database}
use mgl_communication.Push.Validate.{SendMessageInput}
use mgl_communication.Push.Send.{send}

abbrev pub join_ids : List String → List String → String
join_ids (u ∷ us) installation_ids = u
join_ids [] (i ∷ is) = i
join_ids [] [] = "all"

pub record SendIncomingCallInput : Type 0 where
  pub app_id : String
  pub user_ids : List String
  pub installation_ids : List String
  pub call : IncomingCall
  pub idempotency_key : String

pub record SendCallSignalInput : Type 0 where
  pub app_id : String
  pub type : MessageType
  pub call_id : String
  pub user_ids : List String
  pub installation_ids : List String
  pub reason : String
  pub idempotency_key : String

-- A push about a call, which both senders hand to Send.
abbrev pub call_message :
    String → MessageType → List String → List String → Dict String → ℕ → String → SendMessageInput
call_message app_id type user_ids installation_ids payload ttl key = record {
  app_id = app_id;
  type = type;
  user_ids = user_ids;
  installation_ids = installation_ids;
  provider = "";
  token = "";
  title = "";
  body = "";
  payload = payload;
  image_url = "";
  priority = "high";
  ttl_seconds = some ttl;
  collapse_key = "";
  sound = "";
  badge = none;
  deep_link = "";
  category = "";
  idempotency_key = key;
}

abbrev pub value_or : Option ℕ → ℕ → ℕ
value_or none n = n
value_or (some m) n = m

abbrev pub default_incoming_call_ttl : ℕ
default_incoming_call_ttl = 30 * second

abbrev pub expires_at_of : ℕ → IncomingCall → ℕ
expires_at_of now c = value_or c.expires_at (now + default_incoming_call_ttl)

-- The seconds left; a call past its expiry has 0, where the source has a number below 1.
abbrev pub ttl_of : ℕ → IncomingCall → ℕ
ttl_of now c = (expires_at_of now c - now) / second

abbrev pub call_key : String → String → String → List String → List String → String
call_key key kind call_id user_ids installation_ids =
    if key == ""
    then str_append kind
        (str_append ":" (str_append call_id (str_append ":" (join_ids user_ids installation_ids))))
    else key

unfoldable pub incoming_call_data : Tools → ℕ → IncomingCall → Dict String
unfolding insert
incoming_call_data tools now c =
    let fixed =
      ("call_id", c.call_id)
      ∷ ("caller_id", c.caller_id)
      ∷ ("callee_id", c.callee_id)
      ∷ ("media_type", if c.media_type == "" then "audio" else c.media_type)
      ∷ ("timestamp", tools.format (value_or c.timestamp now / second))
      ∷ ("expires_at", tools.format (expires_at_of now c / second))
      ∷ [] in
    if c.caller_name == "" then fixed else insert "caller_display_name" c.caller_name fixed

unfoldable pub incoming_call_message : Tools → ℕ → SendIncomingCallInput → SendMessageInput
unfolding incoming_call_data
incoming_call_message tools now in_ =
    call_message in_.app_id incoming_call in_.user_ids in_.installation_ids
      (incoming_call_data tools now in_.call) (ttl_of now in_.call)
      (call_key in_.idempotency_key "incoming" in_.call.call_id in_.user_ids in_.installation_ids)

unfoldable pub send_incoming_call :
    Tools → ℕ → ℕ → SendIncomingCallInput → Database → Result SendMessageResult × Database
send_incoming_call tools now first in_ db =
    if in_.call.call_id == "" || in_.call.caller_id == "" || in_.call.callee_id == ""
    then (err (invalid_request "call_id, caller_id, and callee_id are required"), db)
    else if ltb (ttl_of now in_.call) 1
    then (err (invalid_request "call already expired"), db)
    else send tools now first (incoming_call_message tools now in_) db

abbrev pub is_signal : MessageType → Bool
is_signal call_cancelled = true
is_signal call_ended = true
is_signal type = false

unfoldable pub call_signal_message : SendCallSignalInput → SendMessageInput
call_signal_message in_ =
    call_message in_.app_id in_.type in_.user_ids in_.installation_ids
      (if in_.reason == ""
        then ("call_id", in_.call_id) ∷ []
        else ("call_id", in_.call_id) ∷ ("reason", in_.reason) ∷ [])
      30
      (call_key in_.idempotency_key (type_name in_.type) in_.call_id in_.user_ids
        in_.installation_ids)

unfoldable pub send_call_signal :
    Tools → ℕ → ℕ → SendCallSignalInput → Database → Result SendMessageResult × Database
send_call_signal tools now first in_ db =
    if not (is_signal in_.type)
    then (err (invalid_request "type must be call_cancelled or call_ended"), db)
    else if in_.call_id == ""
    then (err (invalid_request "call_id is required"), db)
    else send tools now first (call_signal_message in_) db
