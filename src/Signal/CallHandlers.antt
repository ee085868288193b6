-- ===== src/Signal/CallHandlers.antt =====
-- The handlers of a call's messages, internal/signaling/websocket/hub.go: creation, the wrapped
-- methods, accept, and resume with the replay of the oplog.
pub mod Sends
use mgl_communication.Base.{
  String, Bool, true, false, not, ◌&&◌, ◌==◌, if◌then◌else◌, Option, none, some, List, [], ◌∷◌,
  ◌++◌, is_empty, Result, ok, err, live,
}
use mgl_communication.Ratelimit.{Limiter, allow}
use mgl_communication.Call.Types.{Call}
use mgl_communication.Call.Creation.{CreateInput}
use mgl_communication.Call.Service.{Runtime, accept}
use mgl_communication.Call.Orchestrator.{ResumeResult, create_call, resume_full}
use mgl_communication.Signal.Protocol.{
  EnvelopeType, Envelope, Incoming, CreateCallData, stop_ringing_data, resume_data,
}
use mgl_communication.Signal.Connection.{Conn}
use mgl_communication.Signal.Hub.{
  Hub, Parts, Notice, send_to, deliver_local, broadcast_call, user_key,
}
use mgl_communication.Signal.Replies.{Moment, reply_error, text_of, send_err}

abbrev pub notify : Notice → Hub → Hub
notify n h = record h { notices = h.notices ++ n ∷ [] }

abbrev pub callees_of : CreateCallData → List String
callees_of d =
    if is_empty d.callee_ids && not (d.callee_id == "") then d.callee_id ∷ [] else d.callee_ids

abbrev pub input_of : Conn → CreateCallData → CreateInput
input_of c d = record {
  app_id = c.app_id;
  caller_id = c.user_id;
  caller_device = c.device_id;
  callee_ids = callees_of d;
  type = d.type;
  mode = d.mode;
  caller_name = d.caller_name;
}

-- What follows a call of the call service: its runtime, and the error or the call.
abbrev pub after_create : Conn → String → String → Hub → Runtime × Result Call → Hub
after_create c call_id name h (rt, err e) =
    send_err c call_id (text_of e) (record h { runtime = rt })
after_create c call_id name h (rt, ok d) = notify (Notice.ringing d name) (
    broadcast_call d EnvelopeType.call_ringing c.user_id
      (broadcast_call d EnvelopeType.call_created c.user_id (record h { runtime = rt })))

abbrev pub create_if_allowed : Parts → Moment → Conn → Incoming → Hub → Limiter × Bool → Hub
create_if_allowed parts t c env h (l, false) =
    reply_error c env.call_id c.user_id "RATE_LIMITED" "too many call creations"
      (record h { call_limiter = l })
create_if_allowed parts t c env h (l, true) =
    let d = parts.json.decode_create env.payload in
    after_create c env.call_id d.caller_name (record h { call_limiter = l })
      (create_call parts.calls live (input_of c d) t.call_ulid t.room_ulid t.now h.runtime)

unfoldable pub handle_call_create : Parts → Moment → Conn → Incoming → Hub → Hub
unfolding reply_error broadcast_call create_call
handle_call_create parts t c env h =
    create_if_allowed parts t c env h (allow h.call_limiter (user_key c.app_id c.user_id) t.now)

abbrev pub call_id_from : Parts → Incoming → String
call_id_from parts env =
    if env.call_id == "" then parts.json.decode_call_id env.payload else env.call_id

-- mapCallEvent
abbrev pub map_call_event : EnvelopeType → EnvelopeType
map_call_event EnvelopeType.call_accept = EnvelopeType.call_accepted
map_call_event EnvelopeType.call_reject = EnvelopeType.call_rejected
map_call_event EnvelopeType.call_cancel = EnvelopeType.call_cancelled
map_call_event EnvelopeType.call_join = EnvelopeType.call_participant_joined
map_call_event EnvelopeType.call_leave = EnvelopeType.call_participant_left
map_call_event EnvelopeType.call_hangup = EnvelopeType.call_ended
map_call_event type = type

-- The answers of the call service; `told` is what the push bridge is asked to do.
abbrev pub after_call :
    Conn → String → EnvelopeType → (Call → List Notice) → Hub → Runtime × Result Call → Hub
after_call c call_id type told h (rt, err e) =
    send_err c call_id (text_of e) (record h { runtime = rt })
after_call c call_id type told h (rt, ok d) =
    broadcast_call d (map_call_event type) c.user_id
      (record h { runtime = rt; notices = h.notices ++ told d })

-- wrapCall: the method runs only if there is a call id.
unfoldable pub wrap_call :
    Conn
    → String
    → EnvelopeType
    → (Call → List Notice)
    → (String → Runtime → Runtime × Result Call)
    → Hub
    → Hub
unfolding reply_error broadcast_call
wrap_call c call_id type told method h =
    if call_id == ""
    then send_err c "" "call_id required" h
    else after_call c call_id type told h (method call_id h.runtime)

abbrev pub stop_envelope : Conn → Call → Envelope
stop_envelope c d = record {
  type = EnvelopeType.call_stop_ringing;
  call_id = d.id;
  sender_id = c.user_id;
  body = stop_ringing_data d.id c.device_id "accepted_elsewhere";
}

abbrev pub after_accept : Conn → String → Hub → Runtime × Result Call → Hub
after_accept c call_id h (rt, err e) = send_err c call_id (text_of e) (record h { runtime = rt })
after_accept c call_id h (rt, ok d) =
    notify (Notice.stop_ringing d c.user_id "accepted_elsewhere") (
      deliver_local d.app_id c.user_id c.device_id (stop_envelope c d)
        (broadcast_call d EnvelopeType.call_accepted c.user_id (record h { runtime = rt })))

unfoldable pub handle_accept : Parts → Moment → Conn → Incoming → Hub → Hub
unfolding reply_error broadcast_call deliver_local accept
handle_accept parts t c env h =
    let call_id = call_id_from parts env in
    if call_id == ""
    then send_err c "" "call_id required" h
    else after_accept c call_id h (accept live call_id c.user_id c.device_id t.now h.runtime)

-- The replay of the oplog, without the client's own messages.
unfoldable pub replay : Conn → List Envelope → Hub → Hub
unfolding send_to
replay c [] h = h
replay c (env ∷ envs) h =
    replay c envs (if env.sender_id == c.user_id then h else send_to c.id env h)

abbrev pub replay_if : Conn → Option (List Envelope) → Hub → Hub
replay_if c none h = h
replay_if c (some envs) h = replay c envs h

abbrev pub after_resume : Parts → Conn → String → Hub → Runtime × Result ResumeResult → Hub
after_resume parts c call_id h (rt, err e) =
    send_err c call_id (text_of e) (record h { runtime = rt })
after_resume parts c call_id h (rt, ok s) =
    let sent =
      send_to c.id
        (record {
          type = EnvelopeType.call_state;
          call_id = s.call.id;
          sender_id = c.user_id;
          body = resume_data s;
        })
        (record h { runtime = rt }) in
    let told = broadcast_call s.call EnvelopeType.call_participant_joined c.user_id sent in
    replay_if c (parts.oplog.recent call_id told.logs) told

unfoldable pub handle_resume : Parts → Moment → Conn → Incoming → Hub → Hub
unfolding reply_error broadcast_call replay send_to resume_full
handle_resume parts t c env h =
    let call_id = call_id_from parts env in
    if call_id == ""
    then send_err c "" "call_id required" h
    else after_resume parts c call_id h
        (resume_full parts.calls live call_id c.user_id c.device_id h.runtime)

abbrev pub no_notice : Call → List Notice
no_notice d = []
