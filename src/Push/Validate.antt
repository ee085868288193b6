-- ===== src/Push/Validate.antt =====
-- What Send takes: SendMessageInput, the type that a message without one gets, and validateSend,
-- internal/service/message.go.
use Prim.Native.String.{count}
use mgl_communication.Base.{
  ℕ, String, Bool, true, false, not, ◌&&◌, ◌||◌, ◌==◌, ltb, if◌then◌else◌, Option, none, some, List,
  Dict, any, is_empty, length, Error, invalid_request,
}
use mgl_communication.Push.Types.{
  MessageType, unset, notification, silent, unknown, is_data_only, is_allowed_provider,
}

pub record SendMessageInput : Type 0 where
  pub app_id : String
  pub type : MessageType
  pub user_ids : List String
  pub installation_ids : List String
  pub provider : String
  pub token : String
  pub title : String
  pub body : String
  pub payload : Dict String
  pub image_url : String
  pub priority : String
  pub ttl_seconds : Option ℕ
  pub collapse_key : String
  pub sound : String
  pub badge : Option ℕ
  pub deep_link : String
  pub category : String
  pub idempotency_key : String

abbrev pub max_data_entries : ℕ
max_data_entries = 32

abbrev pub max_data_value_len : ℕ
max_data_value_len = 1024

-- The first statement of Send.
abbrev pub type_or_default : MessageType → Bool → MessageType
type_or_default unset data_alone = if data_alone then silent else notification
type_or_default type data_alone = type

abbrev pub with_type : SendMessageInput → SendMessageInput
with_type in_ = record in_ {
  type = type_or_default in_.type (in_.title == "" && in_.body == "" && not (is_empty in_.payload));
}

abbrev pub is_direct : SendMessageInput → Bool
is_direct in_ = not (in_.provider == "") && not (in_.token == "")

abbrev pub has_target : SendMessageInput → Bool
has_target in_ = not (is_empty in_.user_ids) || not (is_empty in_.installation_ids) || is_direct in_

abbrev pub is_known : MessageType → Bool
is_known unset = false
is_known (unknown s) = false
is_known type = true

abbrev pub is_notification : MessageType → Bool
is_notification notification = true
is_notification type = false

abbrev pub is_bad_entry : String × String → Bool
is_bad_entry e = e.0 == "" || ltb max_data_value_len (count e.1)

unfoldable pub validate_send : SendMessageInput → Option Error
validate_send in_ =
    if in_.app_id == ""
    then some (invalid_request "app_id is required")
    else if not (has_target in_)
    then some (invalid_request "user_ids, installation_ids, or provider+token required")
    else if not (is_known in_.type)
    then some (invalid_request "invalid message type")
    else if is_notification in_.type && in_.title == "" && in_.body == "" && is_empty in_.payload
    then some (invalid_request "notification or data required")
    else if is_data_only in_.type && is_empty in_.payload
    then some (invalid_request "data required for this message type")
    else if not (in_.priority == "")
        && not (in_.priority == "normal")
        && not (in_.priority == "high")
    then some (invalid_request "priority must be normal or high")
    else if not (in_.provider == "") && not (is_allowed_provider in_.provider)
    then some (invalid_request "invalid provider")
    else if ltb max_data_entries (length in_.payload)
    then some (invalid_request "data has too many keys")
    else if any is_bad_entry in_.payload
    then some (invalid_request "invalid data payload")
    else none
