-- ===== src/Signal/Hub.antt =====
-- The state of internal/signaling/websocket/hub.go, its tables of connections, and the delivery to
-- the connections of a user. Go's maps hold pointers: `objects` is the heap of all connections that
-- were ever made, and the tables hold their ids. A map of one user is read in some order. The hub
-- runs on one node here, without the Redis bus, with presence and calls set.
use Prim.Native.String.{◌++◌ as str_append}
use mgl_communication.Base.{
  ℕ, String, Bool, true, false, not, ◌&&◌, ◌==◌, if◌then◌else◌, Option, none, some, List, [], ◌∷◌,
  ◌++◌, is_empty, keep_if, Dict, lookup, insert, erase, add_member, live, ltb, length,
}
use mgl_communication.Retry.{second}
use mgl_communication.Auth.{JwtValidator}
use mgl_communication.Ratelimit
use mgl_communication.Ratelimit.{Limiter}
use mgl_communication.Presence
use mgl_communication.Presence.{UserPresence, set_offline}
use mgl_communication.Call.Types.{Call, Participant}
use mgl_communication.Call.Service.{Runtime}
use mgl_communication.Call.Orchestrator.{Orchestrator}
use mgl_communication.Signal.Protocol.{Envelope, EnvelopeType, Body, Json}
use mgl_communication.Signal.Connection
use mgl_communication.Signal.Connection.{Conn}
pub mod Delivered
pub mod Bindings
pub mod Wired
pub mod Changes

-- What the hub asks of the push bridge, in goroutines of their own but for a cancelled call.
pub data Notice : Type 0 where
  ringing : Call → String → Notice
  cancelled : Call → String → Notice
  stop_ringing : Call → String → String → Notice

pub data DeviceEventType : Type 0 where
  device_connected device_disconnected : DeviceEventType

pub record DeviceEvent : Type 0 where
  pub type : DeviceEventType
  pub app_id : String
  pub user_id : String
  pub device_id : String

-- The oplog's interface; a log is kept for each call.
pub record Oplog : Type 0 where
  pub append : String → Envelope → Dict (List Envelope) → Dict (List Envelope)
  pub recent : String → Dict (List Envelope) → Option (List Envelope)

-- What the hub is made with and never changes.
pub record Parts : Type 0 where
  pub json : Json
  pub jwt : JwtValidator
  pub calls : Orchestrator
  pub oplog : Oplog

pub record Hub : Type 0 where
  pub objects : Dict Conn
  pub conns : List String
  pub by_user : Dict (List String)
  pub runtime : Runtime
  pub presence : Presence.Store
  pub msg_limiter : Limiter
  pub call_limiter : Limiter
  pub logs : Dict (List Envelope)
  pub notices : List Notice
  pub events : List DeviceEvent

abbrev pub or_default : ℕ → ℕ → ℕ
or_default n d = if ltb 0 n then n else d

-- NewHub, over the stores that the hub is given.
unfoldable pub new_hub : ℕ → ℕ → Runtime → Presence.Store → Hub
unfolding Ratelimit.new
new_hub msg_per_sec calls_per_minute rt ps = record {
  objects = [];
  conns = [];
  by_user = [];
  runtime = rt;
  presence = ps;
  msg_limiter = Ratelimit.new (or_default msg_per_sec 30) second;
  call_limiter = Ratelimit.new (or_default calls_per_minute 20) Ratelimit.minute;
  logs = [];
  notices = [];
  events = [];
}

unfoldable pub user_key : String → String → String
user_key app_id user_id = str_append app_id (str_append "|" user_id)

abbrev pub ids_of : Option (List String) → List String
ids_of none = []
ids_of (some ids) = ids

abbrev pub members : String → Dict (List String) → List String
members uk m = ids_of (lookup uk m)

-- A send through a pointer to a connection.
abbrev pub offer_to : String → Envelope → Option Conn → Dict Conn → Dict Conn
offer_to id env none objects = objects
offer_to id env (some c) objects = insert id (Connection.send env c).0 objects

unfoldable pub send_to : String → Envelope → Hub → Hub
send_to id env h = record h { objects = offer_to id env (lookup id h.objects) h.objects }

-- The loop of `deliverLocal`, which leaves out the connections of one device.
abbrev pub is_excepted : String → Option Conn → Bool
is_excepted except none = true
is_excepted except (some c) = not (except == "") && c.device_id == except

unfoldable pub deliver : String → Envelope → List String → Dict Conn → Dict Conn
deliver except env [] objects = objects
deliver except env (id ∷ ids) objects = deliver except env ids (
    if is_excepted except (lookup id objects)
    then objects
    else offer_to id env (lookup id objects) objects)

unfoldable pub deliver_local : String → String → String → Envelope → Hub → Hub
unfolding deliver
deliver_local app_id user_id except env h = record h {
  objects = deliver except env (members (user_key app_id user_id) h.by_user) h.objects;
}

abbrev pub send_to_user : String → String → Envelope → Hub → Hub
send_to_user app_id user_id env h = deliver_local app_id user_id "" env h

-- The loop of `broadcastCall`.
unfoldable pub send_to_participants : String → List Participant → Envelope → Hub → Hub
unfolding deliver_local
send_to_participants app_id [] env h = h
send_to_participants app_id (p ∷ ps) env h =
    send_to_participants app_id ps env (send_to_user app_id p.user_id env h)

unfoldable pub broadcast_call : Call → EnvelopeType → String → Hub → Hub
unfolding send_to_participants
broadcast_call c type sender h =
    send_to_participants c.app_id c.participants
      (record { type = type; call_id = c.id; sender_id = sender; body = Body.call_data c }) h

unfoldable pub broadcast_presence : UserPresence → Hub → Hub
unfolding deliver_local
broadcast_presence up h =
    send_to_user up.app_id up.user_id
      (record {
        type = EnvelopeType.presence_updated;
        call_id = "";
        sender_id = up.user_id;
        body = Body.presence_data up;
      })
      h

-- `ServeHTTP` behind the upgrade: a new connection with room for 128 messages.
unfoldable pub register : String → Hub → Hub
register id h = record h {
  objects = insert id (Connection.new id 128) h.objects;
  conns = add_member id h.conns;
}

abbrev pub without : String → List String → List String
without id = keep_if (λ j. not (j == id))

-- delete(m, c.ID), and of the user's entry with the last one.
abbrev pub unbind_from :
    String → String → Option (List String) → Dict (List String) → Dict (List String)
unbind_from uk id none m = m
unbind_from uk id (some ids) m =
    if is_empty (without id ids) then erase uk m else insert uk (without id ids) m

unfoldable pub unbind : String → String → Dict (List String) → Dict (List String)
unbind uk id m = unbind_from uk id (lookup uk m) m

abbrev pub unbind_user : Conn → Dict (List String) → Dict (List String)
unbind_user c m = if c.user_id == "" then m else unbind (user_key c.app_id c.user_id) c.id m

abbrev pub device_event : DeviceEventType → Conn → DeviceEvent
device_event type c = record {
  type = type;
  app_id = c.app_id;
  user_id = c.user_id;
  device_id = c.device_id;
}

abbrev pub go_offline : Conn → ℕ → Hub → Hub
go_offline c now h =
    let set = set_offline live c.app_id c.user_id c.device_id now h.presence in
    broadcast_presence set.1 (record h { presence = set.0 })

abbrev pub publish_event : DeviceEventType → Conn → Hub → Hub
publish_event type c h = record h { events = h.events ++ device_event type c ∷ [] }

abbrev pub close_object : String → Option Conn → Dict Conn → Dict Conn
close_object id none objects = objects
close_object id (some c) objects = insert id (Connection.close c) objects

abbrev pub leave_tables : Conn → Hub → Hub
leave_tables c h = record h { conns = without c.id h.conns; by_user = unbind_user c h.by_user }

-- `unregister` of the connection that `c` reads: the tables, then who is offline, then the socket.
unfoldable pub unregister : Conn → ℕ → Hub → Hub
unfolding broadcast_presence
unregister c now h =
    let left =
      if c.authed
      then publish_event device_disconnected c (go_offline c now (leave_tables c h))
      else leave_tables c h in
    record left { objects = close_object c.id (lookup c.id left.objects) left.objects }

unfoldable pub bind_user : Conn → Hub → Hub
bind_user c h =
    let uk = user_key c.app_id c.user_id in
    record h { by_user = insert uk (add_member c.id (members uk h.by_user)) h.by_user }

-- One round of the write pump of a connection.
abbrev pub drain_object : String → Option Conn → Dict Conn → Dict Conn
drain_object id none objects = objects
drain_object id (some c) objects = insert id (Connection.take_message c) objects

unfoldable pub drain : String → Hub → Hub
drain id h = record h { objects = drain_object id (lookup id h.objects) h.objects }

unfoldable pub active_connections : Hub → ℕ
active_connections h = length h.conns
