-- ===== src/Signal/Handlers/Messages.antt =====
-- No message but an authentication changes the tables of connections or who a connection is.
use mgl_communication.Base.{
  String, Bool, true, false, not, ◌==◌, if◌then◌else◌, Option, none, some, List, [], ◌∷◌, Result,
  ok, err, refl, live,
}
use mgl_communication.Ratelimit.{Limiter, allow}
use mgl_communication.Call.Types.{Call, Participant, find_participant}
use mgl_communication.Call.Store.{get}
use mgl_communication.Call.Service.{reject, cancel, join, leave, hangup}
use mgl_communication.Signal.Protocol.{Envelope, Incoming}
use mgl_communication.Signal.Connection.{Conn}
use mgl_communication.Signal.Hub.{Hub, Parts, Notice, deliver_local}
use mgl_communication.Signal.Hub.Delivered.{Quiet, Quiet-refl, Quiet-trans, deliver_local-Quiet}
use mgl_communication.Signal.Replies.{Moment, reply_error, text_of}
use mgl_communication.Signal.CallHandlers.{call_id_from, no_notice}
use mgl_communication.Signal.Relay.{relay_to, relayed, relay_as, relay_call, relay_signaling}
use mgl_communication.Signal.Handlers.{
  Route, to_create, to_accept, to_reject, to_cancel, to_join, to_leave, to_hangup, to_resume,
  to_relay, to_nothing, route, dispatch, handle_authed, handle_if_allowed, is_session_resume,
  handle_default,
}
use mgl_communication.Signal.CallHandlers.Sends.{
  reply_error-Quiet, behind_change, wrap_call-Quiet, handle_call_create-Quiet, handle_accept-Quiet,
  handle_resume-Quiet,
}

relay_to-Quiet :
    (app_id sender : String) (ps : List Participant) (env : Envelope) (h : Hub)
    → Quiet h (relay_to app_id sender ps env h)
unfolding relay_to
relay_to-Quiet app_id sender [] env h = Quiet-refl h
relay_to-Quiet app_id sender (p ∷ ps) env h =
    Quiet-trans h (step (p.user_id == sender)) _ (step-Quiet (p.user_id == sender))
      (relay_to-Quiet app_id sender ps env (step (p.user_id == sender)))
  where
    step : Bool → Hub
    step b = if b then h else deliver_local app_id p.user_id "" env h

    step-Quiet : (b : Bool) → Quiet h (step b)
    step-Quiet true = Quiet-refl h
    step-Quiet false = deliver_local-Quiet app_id p.user_id "" env h

relay_call-Quiet :
    (parts : Parts) (c : Conn) (env : Incoming) (h : Hub) (r : Result Call)
    → Quiet h (relay_call parts c env h r)
relay_call-Quiet parts c env h (err e) =
    reply_error-Quiet c env.call_id c.user_id "ERROR" (text_of e) h
relay_call-Quiet parts c env h (ok d) = go (find_participant c.user_id d.participants)
  where
    go : (o : Option Participant) → Quiet h (relay_as parts c env h d o)
    go none = reply_error-Quiet c env.call_id c.user_id "ERROR" "not a participant" h
    go (some p) =
        behind_change h (record h { logs = parts.oplog.append env.call_id (relayed c env) h.logs })
          _ refl refl refl
          (relay_to-Quiet d.app_id c.user_id d.participants (relayed c env)
            (record h { logs = parts.oplog.append env.call_id (relayed c env) h.logs }))

relay_signaling-Quiet :
    (parts : Parts) (c : Conn) (env : Incoming) (h : Hub) → Quiet h (relay_signaling parts c env h)
unfolding relay_signaling
relay_signaling-Quiet parts c env h = go (env.call_id == "")
  where
    go :
        (b : Bool)
        → Quiet h (
            if b
            then reply_error c env.call_id c.user_id "ERROR" "call_id required" h
            else relay_call parts c env h (get live env.call_id h.runtime.store))
    go true = reply_error-Quiet c env.call_id c.user_id "ERROR" "call_id required" h
    go false = relay_call-Quiet parts c env h (get live env.call_id h.runtime.store)

dispatch-Quiet :
    (parts : Parts) (t : Moment) (c : Conn) (env : Incoming) (h : Hub) (r : Route)
    → Quiet h (dispatch parts t c env h r)
unfolding dispatch
dispatch-Quiet parts t c env h to_create = handle_call_create-Quiet parts t c env h
dispatch-Quiet parts t c env h to_accept = handle_accept-Quiet parts t c env h
dispatch-Quiet parts t c env h to_reject =
    wrap_call-Quiet c (call_id_from parts env) env.type no_notice
      (λ id rt. reject live id c.user_id t.now rt) h
dispatch-Quiet parts t c env h to_cancel =
    wrap_call-Quiet c (call_id_from parts env) env.type (λ d. Notice.cancelled d "cancelled" ∷ [])
      (λ id rt. cancel live id c.user_id t.now rt) h
dispatch-Quiet parts t c env h to_join =
    wrap_call-Quiet c (call_id_from parts env) env.type no_notice
      (λ id rt. join live id c.user_id c.device_id t.now rt) h
dispatch-Quiet parts t c env h to_leave =
    wrap_call-Quiet c (call_id_from parts env) env.type no_notice
      (λ id rt. leave live id c.user_id t.now rt) h
dispatch-Quiet parts t c env h to_hangup =
    wrap_call-Quiet c (call_id_from parts env) env.type no_notice
      (λ id rt. hangup live id c.user_id t.now rt) h
dispatch-Quiet parts t c env h to_resume = handle_resume-Quiet parts t c env h
dispatch-Quiet parts t c env h to_relay = relay_signaling-Quiet parts c env h
dispatch-Quiet parts t c env h to_nothing =
    reply_error-Quiet c env.call_id c.user_id "UNKNOWN_TYPE" "unknown message type" h

handle_authed-Quiet :
    (parts : Parts) (t : Moment) (c : Conn) (env : Incoming) (h : Hub)
    → Quiet h (handle_authed parts t c env h)
unfolding handle_authed
handle_authed-Quiet parts t c env h = dispatch-Quiet parts t c env h (route env.type)

handle_if_allowed-Quiet :
    (parts : Parts) (t : Moment) (c : Conn) (env : Incoming) (h : Hub) (a : Limiter × Bool)
    → Quiet h (handle_if_allowed parts t c env h a)
handle_if_allowed-Quiet parts t c env h (l, false) =
    behind_change h (record h { msg_limiter = l }) _ refl refl refl
      (reply_error-Quiet c env.call_id c.user_id "RATE_LIMITED" "too many signaling messages"
        (record h { msg_limiter = l }))
handle_if_allowed-Quiet parts t c env h (l, true) =
    behind_change h (record h { msg_limiter = l }) _ refl refl refl
      (handle_authed-Quiet parts t c env (record h { msg_limiter = l }))

pub handle_default-Quiet :
    (parts : Parts) (t : Moment) (c : Conn) (env : Incoming) (h : Hub)
    → Quiet h (handle_default parts t c env h)
unfolding handle_default
handle_default-Quiet parts t c env h = go (not c.authed) (is_session_resume env.type)
  where
    go :
        (a b : Bool)
        → Quiet h (
            if a
            then reply_error c env.call_id "" "UNAUTHORIZED" "authenticate first" h
            else if b
            then handle_authed parts t c env h
            else handle_if_allowed parts t c env h (allow h.msg_limiter c.id t.now))
    go true b = reply_error-Quiet c env.call_id "" "UNAUTHORIZED" "authenticate first" h
    go false true = handle_authed-Quiet parts t c env h
    go false false = handle_if_allowed-Quiet parts t c env h (allow h.msg_limiter c.id t.now)
