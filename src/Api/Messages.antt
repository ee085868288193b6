-- ===== src/Api/Messages.antt =====
-- The handlers of /messages, internal/api/server.go.
use mgl_communication.Base.{
  ℕ, ◌*◌, String, ◌==◌, ltb, if◌then◌else◌, Option, none, some, List, Dict, Result, ok, err,
  invalid_request,
}
use mgl_communication.Retry.{second}
use mgl_communication.Auth.{Verdict, require_app_id}
use mgl_communication.Push.Types.{
  MessageType, unset, notification, silent, background, incoming_call, call_cancelled, call_ended,
  unknown, IncomingCall, SendMessageResult,
}
use mgl_communication.Push.Tables.{Database}
use mgl_communication.Push.Validate.{SendMessageInput}
use mgl_communication.Push.Send.{send}
use mgl_communication.Push.Calls.{send_incoming_call, send_call_signal}
use mgl_communication.Api.{
  Services, Deps, Instant, Response, send_reply, write_error, write_accepted,
}

pub record Notification : Type 0 where
  pub title : String
  pub body : String

pub record SendMessageRequest : Type 0 where
  pub type : String
  pub user_ids : List String
  pub installation_ids : List String
  pub provider : String
  pub token : String
  pub notification : Option Notification
  pub payload : Dict String
  pub image_url : String
  pub priority : String
  pub ttl_seconds : Option ℕ
  pub collapse_key : String
  pub sound : String
  pub badge : Option ℕ
  pub deep_link : String
  pub category : String

-- domain.MessageType(req.Type)
abbrev pub message_type : String → MessageType
message_type s =
    if s == ""
    then unset
    else if s == "notification"
    then notification
    else if s == "silent"
    then silent
    else if s == "background"
    then background
    else if s == "incoming_call"
    then incoming_call
    else if s == "call_cancelled"
    then call_cancelled
    else if s == "call_ended"
    then call_ended
    else unknown s

abbrev pub title_of : Option Notification → String
title_of none = ""
title_of (some n) = n.title

abbrev pub body_of : Option Notification → String
body_of none = ""
body_of (some n) = n.body

abbrev pub message_of : String → String → SendMessageRequest → SendMessageInput
message_of app_id key req = record {
  app_id = app_id;
  type = message_type req.type;
  user_ids = req.user_ids;
  installation_ids = req.installation_ids;
  provider = req.provider;
  token = req.token;
  title = title_of req.notification;
  body = body_of req.notification;
  payload = req.payload;
  image_url = req.image_url;
  priority = req.priority;
  ttl_seconds = req.ttl_seconds;
  collapse_key = req.collapse_key;
  sound = req.sound;
  badge = req.badge;
  deep_link = req.deep_link;
  category = req.category;
  idempotency_key = key;
}

-- writeError and writeSendResult
abbrev pub sent_as : Services → Result SendMessageResult × Database → Services × Response
sent_as s (err e, db) = (record s { database = db }, write_error e)
sent_as s (ok r, db) = (record s { database = db }, write_accepted (send_reply r))

abbrev pub send_message_as :
    Deps
    → Instant
    → Result String
    → String
    → Option SendMessageRequest
    → Services
    → Services × Response
send_message_as deps t (err e) key req s = (s, write_error e)
send_message_as deps t (ok app_id) key none s = (s, write_error (invalid_request "invalid json"))
send_message_as deps t (ok app_id) key (some req) s =
    sent_as s (send deps.tools t.now t.first (message_of app_id key req) s.database)

-- `key` is the header Idempotency-Key.
unfoldable pub handle_send_message :
    Deps → Instant → Verdict → String → Option SendMessageRequest → Services → Services × Response
unfolding require_app_id send
handle_send_message deps t v key req s = send_message_as deps t (require_app_id v) key req s

-- The times are seconds. An `expires_at` below 0 is read as 0.
pub record CallBody : Type 0 where
  pub call_id : String
  pub caller_id : String
  pub callee_id : String
  pub media_type : String
  pub caller_name : String
  pub expires_at : ℕ

pub record IncomingCallRequest : Type 0 where
  pub user_ids : List String
  pub installation_ids : List String
  pub call : Option CallBody

abbrev pub payload_of : ℕ → CallBody → IncomingCall
payload_of now c = record {
  call_id = c.call_id;
  caller_id = c.caller_id;
  callee_id = c.callee_id;
  media_type = c.media_type;
  caller_name = c.caller_name;
  timestamp = some now;
  expires_at = if ltb 0 c.expires_at then some (c.expires_at * second) else none;
}

abbrev pub incoming_call_with :
    Deps
    → Instant
    → String
    → String
    → IncomingCallRequest
    → Option CallBody
    → Services
    → Services × Response
incoming_call_with deps t app_id key req none s =
    (s, write_error (invalid_request "call is required"))
incoming_call_with deps t app_id key req (some c) s = sent_as s (
    send_incoming_call deps.tools t.now t.first
      (record {
        app_id = app_id;
        user_ids = req.user_ids;
        installation_ids = req.installation_ids;
        call = payload_of t.now c;
        idempotency_key = key;
      })
      s.database)

abbrev pub incoming_call_as :
    Deps
    → Instant
    → Result String
    → String
    → Option IncomingCallRequest
    → Services
    → Services × Response
incoming_call_as deps t (err e) key req s = (s, write_error e)
incoming_call_as deps t (ok app_id) key none s = (s, write_error (invalid_request "invalid json"))
incoming_call_as deps t (ok app_id) key (some req) s =
    incoming_call_with deps t app_id key req req.call s

unfoldable pub handle_incoming_call :
    Deps → Instant → Verdict → String → Option IncomingCallRequest → Services → Services × Response
unfolding require_app_id send_incoming_call
handle_incoming_call deps t v key req s = incoming_call_as deps t (require_app_id v) key req s

pub record CallSignalRequest : Type 0 where
  pub call_id : String
  pub user_ids : List String
  pub installation_ids : List String
  pub reason : String

abbrev pub call_signal_as :
    Deps
    → Instant
    → MessageType
    → Result String
    → String
    → Option CallSignalRequest
    → Services
    → Services × Response
call_signal_as deps t type (err e) key req s = (s, write_error e)
call_signal_as deps t type (ok app_id) key none s =
    (s, write_error (invalid_request "invalid json"))
call_signal_as deps t type (ok app_id) key (some req) s = sent_as s (
    send_call_signal deps.tools t.now t.first
      (record {
        app_id = app_id;
        type = type;
        call_id = req.call_id;
        user_ids = req.user_ids;
        installation_ids = req.installation_ids;
        reason = req.reason;
        idempotency_key = key;
      })
      s.database)

-- handleCallCancelled and handleCallEnded hand their type to this one.
unfoldable pub handle_call_signal :
    Deps
    → Instant
    → MessageType
    → Verdict
    → String
    → Option CallSignalRequest
    → Services
    → Services × Response
unfolding require_app_id send_call_signal
handle_call_signal deps t type v key req s = call_signal_as deps t type (require_app_id v) key req s
