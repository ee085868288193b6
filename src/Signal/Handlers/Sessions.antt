-- ===== src/Signal/Handlers/Sessions.antt =====
-- The messages and the end of a connection, by what they do to the tables.
use mgl_communication.Base.{
  ℕ, String, Bool, true, false, ◌==◌, if◌then◌else◌, Option, none, some, Dict, lookup, ◌≡◌, ◌≢◌,
  refl, sym, ap, arith, lookup-insert, live,
}
use mgl_communication.Auth.Identities.{validate-subject}
use mgl_communication.Auth.{UserClaims, validate}
use mgl_communication.Presence
use mgl_communication.Presence.{UserPresence, set_offline, set_online}
use mgl_communication.Signal.Protocol.{Incoming, AuthenticateData}
use mgl_communication.Signal.Connection.{Conn, close, set_identity}
use mgl_communication.Signal.Connection.Buffer.{Sent}
use mgl_communication.Signal.Hub.{
  Hub, Parts, unregister, close_object, leave_tables, go_offline, publish_event,
  device_disconnected, device_connected, DeviceEventType, broadcast_presence, bind_user,
}
use mgl_communication.Signal.Hub.Delivered.{
  Quiet, Quiet-same, Quiet-trans, Quiet-refl, SentAt, Delivered, send_to-Quiet,
  broadcast_presence-Quiet,
}
use mgl_communication.Signal.Hub.Changes.{bound_as, shut}
use mgl_communication.Signal.Replies.{Moment}
use mgl_communication.Signal.Login.{handle_auth, log_in, log_in_if, app_for, device_for}
use mgl_communication.Signal.Handlers.{
  receive, handle, handle_kind, handle_decoded, Kind, kind, authentication, probe, ordinary,
  pong_for,
}
use mgl_communication.Signal.CallHandlers.Sends.{reply_error-Quiet}
use mgl_communication.Signal.Handlers.Messages.{handle_default-Quiet}

-- What a presence change does beside the stores: it is broadcast, and an event is published.
broadcast_presence-told :
    (set : Presence.Store × UserPresence) (type : DeviceEventType) (c : Conn) (h : Hub)
    → Quiet h (publish_event type c (broadcast_presence set.1 (record h { presence = set.0 })))
broadcast_presence-told set type c h =
    let base = record h { presence = set.0 } in
    Quiet-trans h base _ (Quiet-same h base refl refl refl) (
      Quiet-trans base (broadcast_presence set.1 base) _ (broadcast_presence-Quiet set.1 base)
        (Quiet-same (broadcast_presence set.1 base) _ refl refl refl))

-- Closing a connection before or after messages were sent.
close-Sent : (c d : Conn) → Sent c d → Sent (close c) (close d)
unfolding close
close-Sent c d s = record {
  id = s.id;
  user_id = s.user_id;
  app_id = s.app_id;
  device_id = s.device_id;
  authed = s.authed;
  closed = refl;
  capacity = s.capacity;
  extra = s.extra;
  queue = s.queue;
  fits = s.fits;
}

pub closed_of : Option Conn → Option Conn
closed_of none = none
closed_of (some c) = some (close c)

pub lookup-close_object :
    (k id : String) (o : Option Conn) (objects : Dict Conn)
    → lookup id objects ≡ o
    → lookup k (close_object id o objects) ≡ (if k == id then closed_of o else lookup k objects)
unfolding closed_of
lookup-close_object k id none objects e = ground (arith, e)
lookup-close_object k id (some c) objects e = lookup-insert k id (close c) objects

closed-SentAt : (o p : Option Conn) → SentAt o p → SentAt (closed_of o) (closed_of p)
unfolding closed_of
closed-SentAt none none s = tt
closed-SentAt none (some d) s = s
closed-SentAt (some c) none s = s
closed-SentAt (some c) (some d) s = close-Sent c d s

closed-Delivered :
    (id : String) (a b : Dict Conn)
    → Delivered a b
    → Delivered (close_object id (lookup id a) a) (close_object id (lookup id b) b)
closed-Delivered id a b q k =
    rw
      (lookup-close_object k id (lookup id a) a refl, lookup-close_object k id (lookup id b) b refl)
      (go (k == id))
  where
    go :
        (same : Bool)
        → SentAt
            (if same then closed_of (lookup id a) else lookup k a)
            (if same then closed_of (lookup id b) else lookup k b)
    go true = closed-SentAt (lookup id a) (lookup id b) (q id)
    go false = q k

pub unregister-Quiet : (c : Conn) (now : ℕ) (h : Hub) → Quiet (shut c h) (unregister c now h)
unfolding unregister
unregister-Quiet c now h = closed_after _ (go c.authed)
  where
    closed_after :
        (left : Hub)
        → Quiet (leave_tables c h) left
        → Quiet
            (shut c h)
            (record left { objects = close_object c.id (lookup c.id left.objects) left.objects })
    closed_after left q = record {
      objects = closed-Delivered c.id h.objects left.objects q.objects;
      conns = q.conns;
      by_user = q.by_user;
    }

    go :
        (b : Bool)
        → Quiet (leave_tables c h) (
            if b
            then publish_event device_disconnected c (go_offline c now (leave_tables c h))
            else leave_tables c h)
    go true =
        broadcast_presence-told (set_offline live c.app_id c.user_id c.device_id now h.presence)
          device_disconnected c (leave_tables c h)
    go false = Quiet-refl (leave_tables c h)

pub log_in-Quiet :
    (t : Moment) (c : Conn) (d : AuthenticateData) (claims : UserClaims) (h : Hub)
    → lookup c.id h.objects ≡ some c
    → Quiet
        (bound_as claims.subject (app_for claims) (device_for d claims c) c h)
        (log_in t c d claims h)
unfolding log_in bind_user
log_in-Quiet t c d claims h e = rw (e) (
    Quiet-trans _ _ _
      (broadcast_presence-told
        (set_online live (app_for claims) claims.subject (device_for d claims c) t.now h.presence)
        device_connected (set_identity claims.subject (app_for claims) (device_for d claims c) c) _)
      (send_to-Quiet c.id _ _))

abbrev pub is_authentication : Option Incoming → Bool
is_authentication none = false
is_authentication (some env) = elim (kind env.type) [ authentication ↦ true | _ ↦ false ]

-- A message of a connection sends messages only, or it is an authentication with a valid token.
pub data Received (parts : Parts) (t : Moment) (c : Conn) (text : String) (h after : Hub)
    : Type 0 where
  quiet : Quiet h after → Received parts t c text h after
  logged_in :
      (d : AuthenticateData) (claims : UserClaims)
      → after ≡ log_in t c d claims h
      → claims.subject ≢ ""
      → is_authentication (parts.json.decode_envelope text) ≡ true
      → Received parts t c text h after

pub receive-Received :
    (parts : Parts) (t : Moment) (c : Conn) (text : String) (h : Hub)
    → Received parts t c text h (receive parts t c text h)
unfolding receive handle handle_kind handle_auth
receive-Received parts t c text h = go (parts.json.decode_envelope text) refl
  where
    by_token :
        (d : AuthenticateData)
        → is_authentication (parts.json.decode_envelope text) ≡ true
        → (o : Option UserClaims) → validate parts.jwt d.token ≡ o
        → Received parts t c text h (log_in_if t c d o h)
    by_token d a none e = quiet (reply_error-Quiet c "" "" "UNAUTHORIZED" "invalid token" h)
    by_token d a (some claims) e =
        logged_in d claims refl (validate-subject parts.jwt d.token claims e) a

    by_kind :
        (env : Incoming) (k : Kind)
        → elim k [ authentication ↦ true | _ ↦ false ]
          ≡ is_authentication (parts.json.decode_envelope text)
        → Received parts t c text h (handle_kind parts t c env text h k)
    by_kind env authentication e = by_token _ (sym e) _ refl
    by_kind env probe e = quiet (send_to-Quiet c.id (pong_for c env) h)
    by_kind env ordinary e = quiet (handle_default-Quiet parts t c env h)

    go :
        (o : Option Incoming)
        → parts.json.decode_envelope text ≡ o
        → Received parts t c text h (handle_decoded parts t c text o h)
    go none e = quiet (reply_error-Quiet c "" "" "INVALID_JSON" "invalid message" h)
    go (some env) e = by_kind env (kind env.type) (sym (ap is_authentication e))
