-- ===== src/Signal/Delivery.antt =====
-- Who gets a message: the hub's delivery through its table of users against a scan over all
-- connections by their identity.
use mgl_communication.Base.{
  String, Bool, true, false, not, ◌&&◌, ◌||◌, ◌==◌, if◌then◌else◌, Option, none, some, List, [],
  ◌∷◌, Dict, lookup, lookup-insert, contains, ◌≡◌, refl, ◌∙◌, ap, arith,
}
use mgl_communication.Call.Types.{Call, Participant}
use mgl_communication.Signal.Protocol.{Body, Envelope, EnvelopeType}
use mgl_communication.Signal.Connection.{Conn, send}
use mgl_communication.Signal.Hub.{
  Hub, Parts, user_key, members, is_excepted, offer_to, deliver, deliver_local,
  send_to_participants, broadcast_call,
}
use mgl_communication.Signal.Hub.Bindings.{Distinct}
use mgl_communication.Signal.Hub.Delivered.{deliver_local-Quiet}
use mgl_communication.Signal.Hub.Wired.{IsWired, IsExact, Quiet-IsWired, Quiet-IsExact}
use mgl_communication.Signal.Scan.{
  sent, offered, scan, told, has_participant, DistinctKeys, told-shut, told-once, is_addressed,
}
use mgl_communication.Signal.Reach.{Reach, Once, Reach-IsWired, Reach-IsExact}

pub lookup-offer_to :
    (k id : String) (env : Envelope) (objects : Dict Conn)
    → lookup k (offer_to id env (lookup id objects) objects)
      ≡ (if k == id then sent env (lookup k objects) else lookup k objects)
lookup-offer_to k id env objects = go (lookup id objects) refl
  where
    go :
        (o : Option Conn)
        → lookup id objects ≡ o
        → lookup k (offer_to id env o objects)
          ≡ (if k == id then sent env (lookup k objects) else lookup k objects)
    go none e = ground (arith, e)
    go (some c) e = ground (arith, e, lookup-insert k id (send env c).0 objects)

-- One connection of the list at a time, each once.
pub lookup-deliver :
    (k except : String) (env : Envelope) (ids : List String) (objects : Dict Conn)
    → Distinct ids
    → lookup k (deliver except env ids objects)
      ≡ (if contains k ids then offered except env (lookup k objects) else lookup k objects)
unfolding deliver
lookup-deliver k except env [] objects d = refl
lookup-deliver k except env (id ∷ ids) objects d =
    go (λ rest. lookup-deliver k except env ids rest d.1) (is_excepted except (lookup id objects))
      refl
  where
    go :
        ((rest : Dict Conn)
          → lookup k (deliver except env ids rest)
            ≡ (if contains k ids then offered except env (lookup k rest) else lookup k rest))
        → (b : Bool) → is_excepted except (lookup id objects) ≡ b
        → lookup k (
            deliver except env ids
              (if b then objects else offer_to id env (lookup id objects) objects))
          ≡ (if k == id || contains k ids
              then offered except env (lookup k objects)
              else lookup k objects)
    go later true e = ground (arith, later objects, e)
    go later false e = ground (
      arith,
      later (offer_to id env (lookup id objects) objects),
      lookup-offer_to k id env objects,
      e,
      d.0,
    )

lookup-deliver_local :
    (app_id user_id except k : String) (env : Envelope) (h : Hub)
    → IsWired h
    → IsExact h
    → lookup k (deliver_local app_id user_id except env h).objects
      ≡ scan (user_key app_id user_id) except env (lookup k h.objects)
unfolding deliver_local
lookup-deliver_local app_id user_id except k env h w x =
    let uk = user_key app_id user_id in
    lookup-deliver k except env (members uk h.by_user) h.objects (w.distinct uk)
    ∙ ap (λ b. if b then offered except env (lookup k h.objects) else lookup k h.objects) (x uk k)

pub lookup-send_to_participants :
    (app_id k : String) (ps : List Participant) (env : Envelope) (h : Hub)
    → IsWired h
    → IsExact h
    → lookup k (send_to_participants app_id ps env h).objects
      ≡ told app_id ps env (lookup k h.objects)
unfolding send_to_participants
lookup-send_to_participants app_id k [] env h w x = refl
lookup-send_to_participants app_id k (p ∷ ps) env h w x =
    let next = deliver_local app_id p.user_id "" env h in
    let q = deliver_local-Quiet app_id p.user_id "" env h in
    lookup-send_to_participants app_id k ps env next (Quiet-IsWired h next q w)
      (Quiet-IsExact h next q x)
    ∙ ap (told app_id ps env) (lookup-deliver_local app_id p.user_id "" k env h w x)

-- In a reached hub in which no connection authenticated twice, delivery through the table of
-- users does to every connection what a scan over all connections by their identity does: an open
-- connection of the user that is not on the excepted device is offered the message once, and
-- every other one stays as it is.
pub Reach-deliver_local :
    (parts : Parts) (h : Hub)
    → Reach parts (Once parts) h
    → (app_id user_id except : String) (env : Envelope) (k : String)
    → lookup k (deliver_local app_id user_id except env h).objects
      ≡ scan (user_key app_id user_id) except env (lookup k h.objects)
Reach-deliver_local parts h r app_id user_id except env k =
    lookup-deliver_local app_id user_id except k env h (Reach-IsWired parts (Once parts) h r)
      (Reach-IsExact parts h r)

-- A connection behind a message to the participants of a call.
told-addressed :
    (app_id : String) (ps : List Participant) (env : Envelope) (c : Conn)
    → DistinctKeys app_id ps
    → told app_id ps env (some c) ≡ some (if is_addressed app_id ps c then (send env c).0 else c)
told-addressed app_id ps env c d = go c.closed c.authed refl refl
  where
    go :
        (a b : Bool)
        → c.closed ≡ a
        → c.authed ≡ b
        → told app_id ps env (some c)
          ≡ some (
              if not a && b && has_participant (user_key c.app_id c.user_id) app_id ps
              then (send env c).0
              else c)
    go true b o a = told-shut app_id ps env c (rw o refl)
    go false false o a = told-shut app_id ps env c (rw (o, a) refl)
    go false true o a = told-once app_id ps env c d o a

abbrev pub call_envelope : Call → EnvelopeType → String → Envelope
call_envelope d type sender = record {
  type = type;
  call_id = d.id;
  sender_id = sender;
  body = Body.call_data d;
}

-- In a reached hub in which no connection authenticated twice, and for a call no two of whose
-- participants have one key, broadcastCall offers its message once to every open connection of a
-- participant, and changes no other connection.
pub Reach-broadcast_call :
    (parts : Parts) (h : Hub)
    → Reach parts (Once parts) h
    → (d : Call) (type : EnvelopeType) (sender : String) → DistinctKeys d.app_id d.participants
    → (k : String) (c : Conn) → lookup k h.objects ≡ some c
    → lookup k (broadcast_call d type sender h).objects
      ≡ some (
          if is_addressed d.app_id d.participants c
          then (send (call_envelope d type sender) c).0
          else c)
unfolding broadcast_call
Reach-broadcast_call parts h r d type sender u k c e =
    lookup-send_to_participants d.app_id k d.participants (call_envelope d type sender) h
      (Reach-IsWired parts (Once parts) h r) (Reach-IsExact parts h r)
    ∙ ap (told d.app_id d.participants (call_envelope d type sender)) e
    ∙ told-addressed d.app_id d.participants (call_envelope d type sender) c u
