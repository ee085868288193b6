-- ===== src/Signal/Handlers.antt =====
-- What the hub does with a message, internal/signaling/websocket/hub.go: the read pump, `handle` and
-- the handlers. `c` is the connection as it is when its message is read; the ids of a new call and
-- the time are arguments. The clock stands still within a message.
pub mod Messages
pub mod Sessions
use mgl_communication.Base.{
  ℕ, String, Bool, true, false, not, ◌&&◌, ◌==◌, if◌then◌else◌, Option, none, some, List, [], ◌∷◌,
  ◌++◌, is_empty, lookup, insert, Result, ok, err, Error, app, canceled, ErrorCode, live,
}
use Prim.Native.String.{◌++◌ as str_append}
use mgl_communication.Auth.{UserClaims, validate}
use mgl_communication.Ratelimit.{Limiter, allow}
use mgl_communication.Presence.{set_online}
use mgl_communication.Call.Types.{Call, find_participant, Participant}
use mgl_communication.Call.Store.{get}
use mgl_communication.Call.Creation.{CreateInput}
use mgl_communication.Call.Service.{
  Runtime, accept, reject, cancel, join, leave, hangup, list_active_for_user,
}
use mgl_communication.Call.Orchestrator.{ResumeResult, create_call, resume_full}
use mgl_communication.Signal.Protocol.{
  EnvelopeType, Envelope, Incoming, AuthenticateData, CreateCallData, error_data,
  authenticated_data, stop_ringing_data, resume_data, raw, nothing,
}
use mgl_communication.Signal.Connection.{Conn, set_identity}
use mgl_communication.Signal.Hub.{
  Hub, Parts, Notice, send_to, deliver_local, send_to_user, broadcast_call, broadcast_presence,
  user_key, bind_user, publish_event, device_connected,
}
use mgl_communication.Signal.Replies.{Moment, reply_error, code_text, text_of, send_err}
use mgl_communication.Signal.Login.{
  data_or_inner, device_for, app_for, identify, go_online, log_in, log_in_if, handle_auth,
}
use mgl_communication.Signal.CallHandlers.{
  notify, callees_of, input_of, after_create, create_if_allowed, handle_call_create, call_id_from,
  map_call_event, after_call, wrap_call, stop_envelope, after_accept, handle_accept, replay,
  replay_if, after_resume, handle_resume, no_notice,
}
use mgl_communication.Signal.Relay.{relay_to, relayed, relay_as, relay_call, relay_signaling}

-- The cases of the switch in `handleAuthed`.
pub data Route : Type 0 where
  to_create to_accept to_reject to_cancel to_join to_leave to_hangup : Route
  to_resume to_relay to_nothing : Route

abbrev pub route : EnvelopeType → Route
route EnvelopeType.call_create = to_create
route EnvelopeType.call_accept = to_accept
route EnvelopeType.call_reject = to_reject
route EnvelopeType.call_cancel = to_cancel
route EnvelopeType.call_join = to_join
route EnvelopeType.call_leave = to_leave
route EnvelopeType.call_hangup = to_hangup
route EnvelopeType.call_resume = to_resume
route EnvelopeType.session_resume = to_resume
route EnvelopeType.webrtc_offer = to_relay
route EnvelopeType.webrtc_answer = to_relay
route EnvelopeType.webrtc_ice_candidate = to_relay
route EnvelopeType.media_mute = to_relay
route EnvelopeType.media_unmute = to_relay
route EnvelopeType.media_camera_on = to_relay
route EnvelopeType.media_camera_off = to_relay
route type = to_nothing

unfoldable pub dispatch : Parts → Moment → Conn → Incoming → Hub → Route → Hub
unfolding handle_call_create handle_accept wrap_call handle_resume relay_signaling reply_error
dispatch parts t c env h to_create = handle_call_create parts t c env h
dispatch parts t c env h to_accept = handle_accept parts t c env h
dispatch parts t c env h to_reject =
    wrap_call c (call_id_from parts env) env.type no_notice
      (λ id rt. reject live id c.user_id t.now rt) h
dispatch parts t c env h to_cancel =
    wrap_call c (call_id_from parts env) env.type (λ d. Notice.cancelled d "cancelled" ∷ [])
      (λ id rt. cancel live id c.user_id t.now rt) h
dispatch parts t c env h to_join =
    wrap_call c (call_id_from parts env) env.type no_notice
      (λ id rt. join live id c.user_id c.device_id t.now rt) h
dispatch parts t c env h to_leave =
    wrap_call c (call_id_from parts env) env.type no_notice
      (λ id rt. leave live id c.user_id t.now rt) h
dispatch parts t c env h to_hangup =
    wrap_call c (call_id_from parts env) env.type no_notice
      (λ id rt. hangup live id c.user_id t.now rt) h
dispatch parts t c env h to_resume = handle_resume parts t c env h
dispatch parts t c env h to_relay = relay_signaling parts c env h
dispatch parts t c env h to_nothing =
    reply_error c env.call_id c.user_id "UNKNOWN_TYPE" "unknown message type" h

unfoldable pub handle_authed : Parts → Moment → Conn → Incoming → Hub → Hub
unfolding dispatch
handle_authed parts t c env h = dispatch parts t c env h (route env.type)

abbrev pub handle_if_allowed : Parts → Moment → Conn → Incoming → Hub → Limiter × Bool → Hub
handle_if_allowed parts t c env h (l, false) =
    reply_error c env.call_id c.user_id "RATE_LIMITED" "too many signaling messages"
      (record h { msg_limiter = l })
handle_if_allowed parts t c env h (l, true) =
    handle_authed parts t c env (record h { msg_limiter = l })

-- The default case of `handle`. The limiter is not asked for a session.resume.
abbrev pub is_session_resume : EnvelopeType → Bool
is_session_resume EnvelopeType.session_resume = true
is_session_resume type = false

unfoldable pub handle_default : Parts → Moment → Conn → Incoming → Hub → Hub
unfolding handle_authed reply_error
handle_default parts t c env h =
    if not c.authed
    then reply_error c env.call_id "" "UNAUTHORIZED" "authenticate first" h
    else if is_session_resume env.type
    then handle_authed parts t c env h
    else handle_if_allowed parts t c env h (allow h.msg_limiter c.id t.now)

-- The cases of the switch in `handle`.
pub data Kind : Type 0 where
  authentication probe ordinary : Kind

abbrev pub kind : EnvelopeType → Kind
kind EnvelopeType.authenticate = authentication
kind EnvelopeType.ping = probe
kind type = ordinary

abbrev pub pong_for : Conn → Incoming → Envelope
pong_for c env = record {
  type = EnvelopeType.pong;
  call_id = env.call_id;
  sender_id = c.user_id;
  body = nothing;
}

unfoldable pub handle_kind : Parts → Moment → Conn → Incoming → String → Hub → Kind → Hub
unfolding handle_auth handle_default send_to
handle_kind parts t c env text h authentication = handle_auth parts t c text h
handle_kind parts t c env text h probe = send_to c.id (pong_for c env) h
handle_kind parts t c env text h ordinary = handle_default parts t c env h

unfoldable pub handle : Parts → Moment → Conn → Incoming → String → Hub → Hub
unfolding handle_kind
handle parts t c env text h = handle_kind parts t c env text h (kind env.type)

abbrev pub handle_decoded : Parts → Moment → Conn → String → Option Incoming → Hub → Hub
handle_decoded parts t c text none h = reply_error c "" "" "INVALID_JSON" "invalid message" h
handle_decoded parts t c text (some env) h = handle parts t c env text h

-- A round of the read pump.
unfoldable pub receive : Parts → Moment → Conn → String → Hub → Hub
unfolding handle reply_error
receive parts t c text h = handle_decoded parts t c text (parts.json.decode_envelope text) h
