-- ===== src/Signal/Relay.antt =====
-- relaySignaling of internal/signaling/websocket/hub.go.
pub mod Receivers
use mgl_communication.Base.{
  String, ◌==◌, if◌then◌else◌, Option, none, some, List, [], ◌∷◌, Result, ok, err, live,
}
use mgl_communication.Call.Types.{Call, find_participant, Participant}
use mgl_communication.Call.Store.{get}
use mgl_communication.Signal.Protocol.{Envelope, Incoming, raw}
use mgl_communication.Signal.Connection.{Conn}
use mgl_communication.Signal.Hub.{Hub, Parts, deliver_local, send_to_user}
use mgl_communication.Signal.Replies.{reply_error, text_of, send_err}

-- The loop over the participants, which skips the sender.
unfoldable pub relay_to : String → String → List Participant → Envelope → Hub → Hub
unfolding deliver_local
relay_to app_id sender [] env h = h
relay_to app_id sender (p ∷ ps) env h =
    relay_to app_id sender ps env
      (if p.user_id == sender then h else send_to_user app_id p.user_id env h)

abbrev pub relayed : Conn → Incoming → Envelope
relayed c env = record {
  type = env.type;
  call_id = env.call_id;
  sender_id = c.user_id;
  body = raw env.payload;
}

abbrev pub relay_as : Parts → Conn → Incoming → Hub → Call → Option Participant → Hub
relay_as parts c env h d none = send_err c env.call_id "not a participant" h
relay_as parts c env h d (some p) =
    relay_to d.app_id c.user_id d.participants (relayed c env)
      (record h { logs = parts.oplog.append env.call_id (relayed c env) h.logs })

abbrev pub relay_call : Parts → Conn → Incoming → Hub → Result Call → Hub
relay_call parts c env h (err e) = send_err c env.call_id (text_of e) h
relay_call parts c env h (ok d) =
    relay_as parts c env h d (find_participant c.user_id d.participants)

unfoldable pub relay_signaling : Parts → Conn → Incoming → Hub → Hub
unfolding reply_error relay_to
relay_signaling parts c env h =
    if env.call_id == ""
    then send_err c env.call_id "call_id required" h
    else relay_call parts c env h (get live env.call_id h.runtime.store)
