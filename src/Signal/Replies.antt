-- ===== src/Signal/Replies.antt =====
-- What the handlers of internal/signaling/websocket/hub.go share: the time, and the errors that they
-- send.
use mgl_communication.Base.{ℕ, String, Error, app, canceled, ErrorCode}
use Prim.Native.String.{◌++◌ as str_append}
use mgl_communication.Signal.Protocol.{EnvelopeType, error_data}
use mgl_communication.Signal.Connection.{Conn}
use mgl_communication.Signal.Hub.{Hub, send_to}

-- The time and the two ULIDs that a message may use.
pub record Moment : Type 0 where
  pub now : ℕ
  pub call_ulid : String
  pub room_ulid : String

unfoldable pub reply_error : Conn → String → String → String → String → Hub → Hub
reply_error c call_id sender code text h =
    send_to c.id
      (record {
        type = EnvelopeType.error;
        call_id = call_id;
        sender_id = sender;
        body = error_data code text;
      })
      h

-- The code of an error as text, for AppError.Error.
abbrev pub code_text : ErrorCode → String
code_text ErrorCode.invalid_request_code = "INVALID_REQUEST"
code_text ErrorCode.unauthorized_code = "UNAUTHORIZED"
code_text ErrorCode.forbidden_code = "FORBIDDEN"
code_text ErrorCode.device_not_found_code = "DEVICE_NOT_FOUND"
code_text ErrorCode.call_not_found_code = "CALL_NOT_FOUND"
code_text ErrorCode.invalid_token_code = "INVALID_TOKEN"
code_text ErrorCode.provider_not_available_code = "PROVIDER_NOT_AVAILABLE"
code_text ErrorCode.provider_auth_error_code = "PROVIDER_AUTH_ERROR"
code_text ErrorCode.provider_rate_limit_code = "PROVIDER_RATE_LIMIT"
code_text ErrorCode.provider_temp_error_code = "PROVIDER_TEMPORARY_ERROR"
code_text ErrorCode.message_not_found_code = "MESSAGE_NOT_FOUND"
code_text ErrorCode.internal_error_code = "INTERNAL_ERROR"

abbrev pub text_of : Error → String
text_of canceled = "context canceled"
text_of (app e) = str_append (code_text e.code) (str_append ": " e.message)

-- sendErr
abbrev pub send_err : Conn → String → String → Hub → Hub
send_err c call_id text h = reply_error c call_id c.user_id "ERROR" text h
