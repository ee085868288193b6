-- ===== src/Signal/Hub/Delivered.antt =====
-- Sending changes nothing but the send buffers of connections.
use mgl_communication.Base.{
  String, Bool, true, false, ◌==◌, if◌then◌else◌, Option, none, some, List, [], ◌∷◌, Dict, lookup,
  lookup-insert, ◌≡◌, refl, sym, ◌∙◌, subst, arith, String-discrete, eq_refl,
}
use mgl_communication.Call.Types.{Participant, Call}
use mgl_communication.Presence.{UserPresence}
use mgl_communication.Signal.Protocol.{Envelope, EnvelopeType}
use mgl_communication.Signal.Connection.{Conn, send}
use mgl_communication.Signal.Connection.Buffer.{Sent, Sent-refl, Sent-trans, send-Sent}
use mgl_communication.Signal.Hub.{
  Hub, offer_to, is_excepted, deliver, deliver_local, send_to, send_to_participants, broadcast_call,
  broadcast_presence, members, user_key,
}

-- The same connections, with more messages.
abbrev pub SentAt : Option Conn → Option Conn → Type 0
SentAt none none = Unit
SentAt none (some d) = ⊥
SentAt (some c) none = ⊥
SentAt (some c) (some d) = Sent c d

abbrev pub Delivered : Dict Conn → Dict Conn → Type 0
Delivered objects after = (id : String) → SentAt (lookup id objects) (lookup id after)

pub SentAt-refl : (o : Option Conn) → SentAt o o
SentAt-refl none = tt
SentAt-refl (some c) = Sent-refl c

SentAt-trans : (o p q : Option Conn) → SentAt o p → SentAt p q → SentAt o q
SentAt-trans none none none a b = tt
SentAt-trans none none (some e) a b = b
SentAt-trans none (some d) q a b = absurd a
SentAt-trans (some c) none q a b = absurd a
SentAt-trans (some c) (some d) none a b = b
SentAt-trans (some c) (some d) (some e) a b = Sent-trans c d e a b

pub Delivered-refl : (objects : Dict Conn) → Delivered objects objects
Delivered-refl objects id = SentAt-refl (lookup id objects)

pub Delivered-trans : (a b c : Dict Conn) → Delivered a b → Delivered b c → Delivered a c
Delivered-trans a b c p q id = SentAt-trans (lookup id a) (lookup id b) (lookup id c) (p id) (q id)

offer_to-Delivered :
    (id : String) (env : Envelope) (o : Option Conn) (objects : Dict Conn)
    → lookup id objects ≡ o
    → Delivered objects (offer_to id env o objects)
offer_to-Delivered id env none objects e k = Delivered-refl objects k
offer_to-Delivered id env (some c) objects e k =
    rw (lookup-insert k id (send env c).0 objects) (elim (String-discrete k id) [
      | yes same ↦ rw (same, eq_refl id, e) (send-Sent env c)
      | no differ ↦ SentAt-if (k == id) (ground arith)
    ])
  where
    SentAt-if :
        (b : Bool)
        → b ≡ false
        → SentAt (lookup k objects) (if b then some (send env c).0 else lookup k objects)
    SentAt-if true h = cc
    SentAt-if false h = SentAt-refl (lookup k objects)

deliver-Delivered :
    (except : String) (env : Envelope) (ids : List String) (objects : Dict Conn)
    → Delivered objects (deliver except env ids objects)
unfolding deliver
deliver-Delivered except env [] objects = Delivered-refl objects
deliver-Delivered except env (id ∷ ids) objects =
    Delivered-trans objects (step (is_excepted except (lookup id objects))) _
      (step-Delivered (is_excepted except (lookup id objects)))
      (deliver-Delivered except env ids (step (is_excepted except (lookup id objects))))
  where
    step : Bool → Dict Conn
    step b = if b then objects else offer_to id env (lookup id objects) objects

    step-Delivered : (b : Bool) → Delivered objects (step b)
    step-Delivered true = Delivered-refl objects
    step-Delivered false = offer_to-Delivered id env (lookup id objects) objects refl

-- The hub after messages were sent and parts that hold no connection changed.
pub record Quiet (h after : Hub) : Type 0 where
  pub objects : Delivered h.objects after.objects
  pub conns : after.conns ≡ h.conns
  pub by_user : after.by_user ≡ h.by_user

pub Quiet-same :
    (h after : Hub)
    → after.objects ≡ h.objects
    → after.conns ≡ h.conns
    → after.by_user ≡ h.by_user
    → Quiet h after
Quiet-same h after o c b = record {
  objects = subst (Delivered h.objects) (sym o) (Delivered-refl h.objects);
  conns = c;
  by_user = b;
}

pub Quiet-refl : (h : Hub) → Quiet h h
Quiet-refl h = Quiet-same h h refl refl refl

pub Quiet-trans : (a b c : Hub) → Quiet a b → Quiet b c → Quiet a c
Quiet-trans a b c p q = record {
  objects = Delivered-trans a.objects b.objects c.objects p.objects q.objects;
  conns = q.conns ∙ p.conns;
  by_user = q.by_user ∙ p.by_user;
}

pub send_to-Quiet : (id : String) (env : Envelope) (h : Hub) → Quiet h (send_to id env h)
unfolding send_to
send_to-Quiet id env h = record {
  objects = offer_to-Delivered id env (lookup id h.objects) h.objects refl;
  conns = refl;
  by_user = refl;
}

pub deliver_local-Quiet :
    (app_id user_id except : String) (env : Envelope) (h : Hub)
    → Quiet h (deliver_local app_id user_id except env h)
unfolding deliver_local
deliver_local-Quiet app_id user_id except env h = record {
  objects = deliver-Delivered except env (members (user_key app_id user_id) h.by_user) h.objects;
  conns = refl;
  by_user = refl;
}

pub send_to_participants-Quiet :
    (app_id : String) (ps : List Participant) (env : Envelope) (h : Hub)
    → Quiet h (send_to_participants app_id ps env h)
unfolding send_to_participants
send_to_participants-Quiet app_id [] env h = Quiet-refl h
send_to_participants-Quiet app_id (p ∷ ps) env h =
    Quiet-trans h (deliver_local app_id p.user_id "" env h) _
      (deliver_local-Quiet app_id p.user_id "" env h)
      (send_to_participants-Quiet app_id ps env (deliver_local app_id p.user_id "" env h))

pub broadcast_call-Quiet :
    (c : Call) (type : EnvelopeType) (sender : String) (h : Hub)
    → Quiet h (broadcast_call c type sender h)
unfolding broadcast_call
broadcast_call-Quiet c type sender h = send_to_participants-Quiet c.app_id c.participants _ h

pub broadcast_presence-Quiet : (up : UserPresence) (h : Hub) → Quiet h (broadcast_presence up h)
unfolding broadcast_presence
broadcast_presence-Quiet up h = deliver_local-Quiet up.app_id up.user_id "" _ h
