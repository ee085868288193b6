-- ===== src/Signal/Relay/Receivers.antt =====
-- Who gets what a connection relays.
use mgl_communication.Base.{
  keep_if, Result, ok, err, live, String, Bool, true, false, not, ◌==◌, if◌then◌else◌, Option, none,
  some, List, [], ◌∷◌, lookup, ◌≡◌, ◌≢◌, refl, ◌∙◌, ap, arith,
}
use mgl_communication.Call.Types.{find_participant, Call, Participant}
use mgl_communication.Call.Store.{get}
use mgl_communication.Signal.Protocol.{Body, Envelope, EnvelopeType, Incoming}
use mgl_communication.Signal.Connection.{Conn}
use mgl_communication.Signal.Hub.{Hub, Parts, send_to, deliver_local, send_to_participants}
use mgl_communication.Signal.Hub.Delivered.{Quiet-same, Quiet}
use mgl_communication.Signal.Hub.Wired.{IsWired, Quiet-IsWired, Quiet-IsExact}
use mgl_communication.Signal.Replies.{reply_error, text_of}
use mgl_communication.Signal.Relay.{relay_to, relayed, relay_as, relay_call, relay_signaling}
use mgl_communication.Signal.Scan.{told}
use mgl_communication.Signal.Reach.{Reach, Once, Reach-IsWired, Reach-IsExact}
use mgl_communication.Signal.Delivery.{lookup-send_to_participants, lookup-offer_to}

-- The participants but the sender.
abbrev pub others : String → List Participant → List Participant
others sender ps = keep_if (λ p. not (p.user_id == sender)) ps

relay_to-others :
    (app_id sender : String) (ps : List Participant) (env : Envelope) (h : Hub)
    → relay_to app_id sender ps env h ≡ send_to_participants app_id (others sender ps) env h
unfolding relay_to send_to_participants
relay_to-others app_id sender [] env h = refl
relay_to-others app_id sender (p ∷ ps) env h =
    go (p.user_id == sender) (relay_to-others app_id sender ps env)
  where
    go :
        (b : Bool)
        → ((g : Hub)
            → relay_to app_id sender ps env g
              ≡ send_to_participants app_id (others sender ps) env g)
        → relay_to app_id sender ps env (if b then h else deliver_local app_id p.user_id "" env h)
          ≡ send_to_participants app_id
              (if not b then p ∷ others sender ps else others sender ps)
              env
              h
    go true later = later h
    go false later = later (deliver_local app_id p.user_id "" env h)

-- The call whose participants get what a connection relays: one that the sender takes part in.
abbrev pub relayable : String → Result Call → Option Call
relayable sender (err e) = none
relayable sender (ok d) = elim (find_participant sender d.participants) [
  | none ↦ none
  | some p ↦ some d
]

abbrev pub relayable_call : Conn → Incoming → Hub → Option Call
relayable_call c env h =
    if env.call_id == "" then none else relayable c.user_id (get live env.call_id h.runtime.store)

abbrev pub relayed_to : Conn → Incoming → Option Call → Option Conn → Option Conn
relayed_to c env none o = o
relayed_to c env (some d) o = told d.app_id (others c.user_id d.participants) (relayed c env) o

lookup-reply_error :
    (k : String) (c : Conn) (call_id sender code text : String) (h : Hub)
    → k ≢ c.id
    → lookup k (reply_error c call_id sender code text h).objects ≡ lookup k h.objects
unfolding reply_error send_to
lookup-reply_error k c call_id sender code text h n = ground (
  arith,
  lookup-offer_to k c.id
      (record {
        type = EnvelopeType.error;
        call_id = call_id;
        sender_id = sender;
        body = Body.error_data code text;
      })
      h.objects,
  n,
)

-- In a reached hub in which no connection authenticated twice, relaySignaling does to each
-- connection but the sender what a scan for each participant of the named call but the sender
-- does, if the sender is a participant of a stored call, and nothing otherwise.
pub Reach-relay_signaling :
    (parts : Parts) (h : Hub)
    → Reach parts (Once parts) h
    → (c : Conn) (env : Incoming) (k : String) → k ≢ c.id
    → lookup k (relay_signaling parts c env h).objects
      ≡ relayed_to c env (relayable_call c env h) (lookup k h.objects)
unfolding relay_signaling
Reach-relay_signaling parts h r c env k n = by_id (env.call_id == "")
  where
    wired : IsWired h
    wired = Reach-IsWired parts (Once parts) h r

    logged : Hub
    logged = record h { logs = parts.oplog.append env.call_id (relayed c env) h.logs }

    q : Quiet h logged
    q = Quiet-same h logged refl refl refl

    by_participant :
        (d : Call) (o : Option Participant)
        → lookup k (relay_as parts c env h d o).objects
          ≡ relayed_to c env (elim o [ none ↦ none | some p ↦ some d ]) (lookup k h.objects)
    by_participant d none =
        lookup-reply_error k c env.call_id c.user_id "ERROR" "not a participant" h n
    by_participant d (some p) =
        ap (λ g. lookup k g.objects)
          (relay_to-others d.app_id c.user_id d.participants (relayed c env) logged)
        ∙ lookup-send_to_participants d.app_id k (others c.user_id d.participants) (relayed c env)
            logged (Quiet-IsWired h logged q wired)
            (Quiet-IsExact h logged q (Reach-IsExact parts h r))

    by_call :
        (a : Result Call)
        → lookup k (relay_call parts c env h a).objects
          ≡ relayed_to c env (relayable c.user_id a) (lookup k h.objects)
    by_call (err e) = lookup-reply_error k c env.call_id c.user_id "ERROR" (text_of e) h n
    by_call (ok d) = by_participant d (find_participant c.user_id d.participants)

    by_id :
        (b : Bool)
        → lookup k
            (if b
              then reply_error c env.call_id c.user_id "ERROR" "call_id required" h
              else relay_call parts c env h (get live env.call_id h.runtime.store)).objects
          ≡ relayed_to c env
              (if b then none else relayable c.user_id (get live env.call_id h.runtime.store))
              (lookup k h.objects)
    by_id true = lookup-reply_error k c env.call_id c.user_id "ERROR" "call_id required" h n
    by_id false = by_call (get live env.call_id h.runtime.store)
