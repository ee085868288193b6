-- ===== src/Signal/Protocol.antt =====
-- internal/signaling/protocol/message.go. JSON is a library's: what a client sent is a text, and
-- its decoders are parameters; what the server sends is a value. The id and the time of an
-- envelope, which nothing on the server reads, are left out.
use mgl_communication.Base.{String, Bool, Option, List}
use mgl_communication.Call.Types.{Call}
use mgl_communication.Call.Orchestrator.{ResumeResult}
use mgl_communication.Presence.{UserPresence}

-- The values of `Type`, client to server and server to client; another one is kept as it is.
pub data EnvelopeType : Type 0 where
  authenticate ping pong : EnvelopeType
  call_create call_accept call_reject call_cancel call_join call_leave call_hangup : EnvelopeType
  call_resume session_resume : EnvelopeType
  webrtc_offer webrtc_answer webrtc_ice_candidate : EnvelopeType
  media_mute media_unmute media_camera_on media_camera_off : EnvelopeType
  authenticated error : EnvelopeType
  call_created call_ringing call_accepted call_rejected call_cancelled : EnvelopeType
  call_participant_joined call_participant_left call_connected call_ended : EnvelopeType
  call_failed call_state call_stop_ringing : EnvelopeType
  session_state presence_updated : EnvelopeType
  other : String → EnvelopeType

pub record AuthenticateData : Type 0 where
  pub token : String
  pub device_id : String
  pub reconnect : Bool

pub record AuthenticatedData : Type 0 where
  pub user_id : String
  pub app_id : String
  pub device_id : String
  pub reconnect : Bool
  pub active_calls : List Call

-- The data of an envelope. `raw` is what a client sent, passed on as it is.
pub data Body : Type 0 where
  nothing : Body
  raw : String → Body
  error_data : String → String → Body
  call_data : Call → Body
  presence_data : UserPresence → Body
  authenticated_data : AuthenticatedData → Body
  stop_ringing_data : String → String → String → Body
  resume_data : ResumeResult → Body

pub record Envelope : Type 0 where
  pub type : EnvelopeType
  pub call_id : String
  pub sender_id : String
  pub body : Body

-- A decoded message of a client: its data is still a text.
pub record Incoming : Type 0 where
  pub type : EnvelopeType
  pub call_id : String
  pub payload : String

pub record CreateCallData : Type 0 where
  pub callee_ids : List String
  pub callee_id : String
  pub type : String
  pub mode : String
  pub caller_name : String

-- encoding/json on what clients send. A decoder of data leaves zero values where it fails, as
-- the handlers ignore its error; `decode_auth` reads the whole message,
-- and `decode_auth_data` its data, into what is there already.
pub record Json : Type 0 where
  pub decode_envelope : String → Option Incoming
  pub decode_auth : String → AuthenticateData
  pub decode_auth_data : String → AuthenticateData → AuthenticateData
  pub decode_call_id : String → String
  pub decode_create : String → CreateCallData
