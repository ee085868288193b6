-- ===== src/Signal/CallHandlers/Sends.antt =====
-- The handlers of a call's messages change no table of connections, and no identity.
use mgl_communication.Base.{
  Error, String, Bool, true, false, ◌==◌, if◌then◌else◌, Option, none, some, List, [], ◌∷◌, ◌++◌,
  Result, ok, err, ◌≡◌, refl, live,
}
use mgl_communication.Ratelimit.{Limiter, allow}
use mgl_communication.Call.Types.{Call}
use mgl_communication.Call.Service.{Runtime, accept}
use mgl_communication.Call.Orchestrator.{ResumeResult, create_call, resume_full}
use mgl_communication.Signal.Protocol.{EnvelopeType, Envelope, Incoming}
use mgl_communication.Signal.Connection.{Conn}
use mgl_communication.Signal.Hub.{
  Hub, Parts, Notice, send_to, deliver_local, broadcast_call, user_key,
}
use mgl_communication.Signal.Hub.Delivered.{
  Quiet, Quiet-refl, Quiet-same, Quiet-trans, send_to-Quiet, deliver_local-Quiet,
  broadcast_call-Quiet,
}
use mgl_communication.Signal.Replies.{Moment, reply_error, text_of}
use mgl_communication.Signal.CallHandlers.{
  notify, input_of, after_create, create_if_allowed, handle_call_create, call_id_from,
  map_call_event, after_call, wrap_call, stop_envelope, after_accept, handle_accept, replay,
  replay_if, after_resume, handle_resume,
}

pub reply_error-Quiet :
    (c : Conn) (call_id sender code text : String) (h : Hub)
    → Quiet h (reply_error c call_id sender code text h)
unfolding reply_error
reply_error-Quiet c call_id sender code text h = send_to-Quiet c.id _ h

-- Behind a change of the other parts of the hub, from the hub before it.
pub behind_change :
    (h mid after : Hub)
    → mid.objects ≡ h.objects
    → mid.conns ≡ h.conns
    → mid.by_user ≡ h.by_user
    → Quiet mid after
    → Quiet h after
behind_change h mid after o c b q = Quiet-trans h mid after (Quiet-same h mid o c b) q

-- The answer to a call of the call service that failed.
pub failed-Quiet :
    (c : Conn) (call_id : String) (e : Error) (rt : Runtime) (h : Hub)
    → Quiet h (reply_error c call_id c.user_id "ERROR" (text_of e) (record h { runtime = rt }))
failed-Quiet c call_id e rt h =
    behind_change h (record h { runtime = rt }) _ refl refl refl
      (reply_error-Quiet c call_id c.user_id "ERROR" (text_of e) (record h { runtime = rt }))

after_create-Quiet :
    (c : Conn) (call_id name : String) (h : Hub) (r : Runtime × Result Call)
    → Quiet h (after_create c call_id name h r)
after_create-Quiet c call_id name h (rt, err e) = failed-Quiet c call_id e rt h
after_create-Quiet c call_id name h (rt, ok d) =
    let base = record h { runtime = rt } in
    let created = broadcast_call d EnvelopeType.call_created c.user_id base in
    let rung = broadcast_call d EnvelopeType.call_ringing c.user_id created in
    behind_change h base _ refl refl refl (
      Quiet-trans base created _ (broadcast_call-Quiet d EnvelopeType.call_created c.user_id base) (
        Quiet-trans created rung _
          (broadcast_call-Quiet d EnvelopeType.call_ringing c.user_id created)
          (Quiet-same rung (notify (Notice.ringing d name) rung) refl refl refl)))

create_if_allowed-Quiet :
    (parts : Parts) (t : Moment) (c : Conn) (env : Incoming) (h : Hub) (a : Limiter × Bool)
    → Quiet h (create_if_allowed parts t c env h a)
create_if_allowed-Quiet parts t c env h (l, false) =
    behind_change h (record h { call_limiter = l }) _ refl refl refl
      (reply_error-Quiet c env.call_id c.user_id "RATE_LIMITED" "too many call creations"
        (record h { call_limiter = l }))
create_if_allowed-Quiet parts t c env h (l, true) =
    let d = parts.json.decode_create env.payload in
    behind_change h (record h { call_limiter = l }) _ refl refl refl
      (after_create-Quiet c env.call_id d.caller_name (record h { call_limiter = l })
        (create_call parts.calls live (input_of c d) t.call_ulid t.room_ulid t.now h.runtime))

after_call-Quiet :
    (c : Conn) (call_id : String) (type : EnvelopeType) (told : Call → List Notice) (h : Hub)
    (r : Runtime × Result Call)
    → Quiet h (after_call c call_id type told h r)
after_call-Quiet c call_id type told h (rt, err e) = failed-Quiet c call_id e rt h
after_call-Quiet c call_id type told h (rt, ok d) =
    let base = record h { runtime = rt; notices = h.notices ++ told d } in
    behind_change h base _ refl refl refl
      (broadcast_call-Quiet d (map_call_event type) c.user_id base)

pub wrap_call-Quiet :
    (c : Conn) (call_id : String) (type : EnvelopeType) (told : Call → List Notice)
    (method : String → Runtime → Runtime × Result Call) (h : Hub)
    → Quiet h (wrap_call c call_id type told method h)
unfolding wrap_call
wrap_call-Quiet c call_id type told method h = go (call_id == "")
  where
    go :
        (b : Bool)
        → Quiet h (
            if b
            then reply_error c "" c.user_id "ERROR" "call_id required" h
            else after_call c call_id type told h (method call_id h.runtime))
    go true = reply_error-Quiet c "" c.user_id "ERROR" "call_id required" h
    go false = after_call-Quiet c call_id type told h (method call_id h.runtime)

after_accept-Quiet :
    (c : Conn) (call_id : String) (h : Hub) (r : Runtime × Result Call)
    → Quiet h (after_accept c call_id h r)
after_accept-Quiet c call_id h (rt, err e) = failed-Quiet c call_id e rt h
after_accept-Quiet c call_id h (rt, ok d) =
    let base = record h { runtime = rt } in
    let told = broadcast_call d EnvelopeType.call_accepted c.user_id base in
    let stopped = deliver_local d.app_id c.user_id c.device_id (stop_envelope c d) told in
    behind_change h base _ refl refl refl (
      Quiet-trans base told _ (broadcast_call-Quiet d EnvelopeType.call_accepted c.user_id base) (
        Quiet-trans told stopped _
          (deliver_local-Quiet d.app_id c.user_id c.device_id (stop_envelope c d) told)
          (Quiet-same stopped
            (notify (Notice.stop_ringing d c.user_id "accepted_elsewhere") stopped) refl refl
            refl)))

replay-Quiet : (c : Conn) (envs : List Envelope) (h : Hub) → Quiet h (replay c envs h)
unfolding replay
replay-Quiet c [] h = Quiet-refl h
replay-Quiet c (env ∷ envs) h =
    Quiet-trans h (step (env.sender_id == c.user_id)) _ (step-Quiet (env.sender_id == c.user_id))
      (replay-Quiet c envs (step (env.sender_id == c.user_id)))
  where
    step : Bool → Hub
    step b = if b then h else send_to c.id env h

    step-Quiet : (b : Bool) → Quiet h (step b)
    step-Quiet true = Quiet-refl h
    step-Quiet false = send_to-Quiet c.id env h

replay_if-Quiet : (c : Conn) (o : Option (List Envelope)) (h : Hub) → Quiet h (replay_if c o h)
replay_if-Quiet c none h = Quiet-refl h
replay_if-Quiet c (some envs) h = replay-Quiet c envs h

after_resume-Quiet :
    (parts : Parts) (c : Conn) (call_id : String) (h : Hub) (r : Runtime × Result ResumeResult)
    → Quiet h (after_resume parts c call_id h r)
after_resume-Quiet parts c call_id h (rt, err e) = failed-Quiet c call_id e rt h
after_resume-Quiet parts c call_id h (rt, ok s) =
    behind_change h (record h { runtime = rt }) _ refl refl refl
      (Quiet-trans (record h { runtime = rt }) _ _
        (send_to-Quiet c.id _ (record h { runtime = rt }))
        (Quiet-trans _ _ _
          (broadcast_call-Quiet s.call EnvelopeType.call_participant_joined c.user_id _)
          (replay_if-Quiet c _ _)))

pub handle_call_create-Quiet :
    (parts : Parts) (t : Moment) (c : Conn) (env : Incoming) (h : Hub)
    → Quiet h (handle_call_create parts t c env h)
unfolding handle_call_create
handle_call_create-Quiet parts t c env h =
    create_if_allowed-Quiet parts t c env h
      (allow h.call_limiter (user_key c.app_id c.user_id) t.now)

-- A handler that wants a call id.
with_call_id-Quiet :
    (c : Conn) (b : Bool) (h after : Hub)
    → Quiet h after
    → Quiet h (if b then reply_error c "" c.user_id "ERROR" "call_id required" h else after)
with_call_id-Quiet c true h after q = reply_error-Quiet c "" c.user_id "ERROR" "call_id required" h
with_call_id-Quiet c false h after q = q

pub handle_accept-Quiet :
    (parts : Parts) (t : Moment) (c : Conn) (env : Incoming) (h : Hub)
    → Quiet h (handle_accept parts t c env h)
unfolding handle_accept
handle_accept-Quiet parts t c env h = with_call_id-Quiet c (call_id_from parts env == "") h _ (
    after_accept-Quiet c (call_id_from parts env) h
      (accept live (call_id_from parts env) c.user_id c.device_id t.now h.runtime))

pub handle_resume-Quiet :
    (parts : Parts) (t : Moment) (c : Conn) (env : Incoming) (h : Hub)
    → Quiet h (handle_resume parts t c env h)
unfolding handle_resume
handle_resume-Quiet parts t c env h = with_call_id-Quiet c (call_id_from parts env == "") h _ (
    after_resume-Quiet parts c (call_id_from parts env) h
      (resume_full parts.calls live (call_id_from parts env) c.user_id c.device_id h.runtime))
