-- ===== src/Signal/Tests.antt =====
-- The theorems about the hub at a concrete run: Ann and Bob connect and authenticate, and Ann's
-- connection authenticates again, as Cay.
use mgl_communication.Base.{
  String, Bool, true, false, Option, none, some, [], ◌∷◌, ◌==◌, if◌then◌else◌, ◌≡◌, ◌≢◌, ◌⊎◌, refl,
  lookup, insert, erase, contains, add_member, String-discrete, text_ne,
}
use mgl_communication.Auth.{UserClaims, JwtValidator, validate}
use mgl_communication.Presence
use mgl_communication.Call.Types.{Call, direct, find_participant, video}
use mgl_communication.Call.Creation.{CreateInput, new_call, ring_callees}
use mgl_communication.Call.Effects.{created_call}
use mgl_communication.Call.Service.{Runtime}
use mgl_communication.Call.Store.{get}
use mgl_communication.Call.Reach.{initial}
use mgl_communication.Call.Orchestrator.{Orchestrator}
use mgl_communication.Signal.Protocol.{
  EnvelopeType, Envelope, Body, Incoming, Json, AuthenticateData,
}
use mgl_communication.Signal.Connection
use mgl_communication.Signal.Connection.{Conn, set_identity, send, close, take_message}
use mgl_communication.Signal.Hub.{
  Hub, Parts, Oplog, new_hub, user_key, members, send_to, deliver, deliver_local,
  broadcast_presence, broadcast_call, send_to_participants, register, bind_user,
}
use mgl_communication.Signal.Hub.Wired.{IsWired, belongs}
use mgl_communication.Signal.Replies.{Moment, reply_error}
use mgl_communication.Signal.Login.{handle_auth, log_in, app_for}
use mgl_communication.Signal.Relay.{relay_signaling, relay_to, relayed}
use mgl_communication.Signal.Handlers.{receive, handle, handle_kind}
use mgl_communication.Signal.Scan.{scan, sent, DistinctKeys, is_addressed}
use mgl_communication.Signal.Reach.{
  Reach, Once, start, connects, receives, Reach-IsWired, Reach-IsExact,
}
use mgl_communication.Signal.Delivery.{Reach-deliver_local, Reach-broadcast_call, call_envelope}
use mgl_communication.Signal.Relay.Receivers.{Reach-relay_signaling, relayed_to, relayable_call}
use mgl_communication.Signal.Leaving.{unregister_other, status_of}
use mgl_communication.Signal.Hub.Wired.{is_open}
use mgl_communication.Signal.Hub.{unregister}
use mgl_communication.Signal.Guards.{receive_stranger, Answered, Accepted, log_in_again}

-- A message is a word: "offer" relays, and any other one authenticates with itself as the token.
abbrev incoming : EnvelopeType → String → Option Incoming
incoming type text = some (record { type = type; call_id = "call_1"; payload = text })

abbrev word_json : Json
word_json = record {
  decode_envelope = λ text.
      if text == "offer"
      then incoming EnvelopeType.webrtc_offer text
      else incoming EnvelopeType.authenticate text;
  decode_auth = λ text. record { token = text; device_id = ""; reconnect = false };
  decode_auth_data = λ text d. d;
  decode_call_id = λ text. "";
  decode_create =
      λ text. record { callee_ids = []; callee_id = ""; type = ""; mode = ""; caller_name = "" };
}

-- A token is its subject's name.
abbrev name_jwt : JwtValidator
name_jwt = record {
  issuer = "";
  parse =
      λ token. some (record { app = "chat"; device_id = "phone"; subject = token; issuer = "" });
}

abbrev plain_calls : Orchestrator
plain_calls = record {
  authz = none;
  provider = none;
  sign = λ id user room role app ttl. some "secret";
  token_ttl = 0;
  ice_servers = [];
}

abbrev no_oplog : Oplog
no_oplog = record { append = λ id env logs. logs; recent = λ id logs. none }

abbrev parts : Parts
parts = record { json = word_json; jwt = name_jwt; calls = plain_calls; oplog = no_oplog }

abbrev request : CreateInput
request = record {
  app_id = "chat";
  caller_id = "ann";
  caller_device = "phone";
  callee_ids = "bob" ∷ [];
  type = "video";
  mode = "";
  caller_name = "Ann";
}

abbrev a_call : Call
a_call = created_call request "1" "1" 100 (video, direct)

abbrev calls : Runtime
calls = record initial { store = record { calls = ("call_1", a_call) ∷ []; by_user = [] } }

abbrev t : Moment
t = record { now = 100; call_ulid = "2"; room_ulid = "2" }

abbrev hub_0 : Hub
hub_0 = new_hub 0 0 calls Presence.empty

abbrev hub_1 : Hub
hub_1 = register "c1" hub_0

abbrev ann_new : Conn
ann_new = Connection.new "c1" 128

abbrev hub_2 : Hub
hub_2 = receive parts t ann_new "ann" hub_1

abbrev hub_3 : Hub
hub_3 = register "c2" hub_2

abbrev bob_new : Conn
bob_new = Connection.new "c2" 128

abbrev hub_4 : Hub
hub_4 = receive parts t bob_new "bob" hub_3

-- The user of a connection, and how many messages it waits for. A test that computes unfolds this.
seen : String → Hub → Option (String × Bool)
unfolding lookup insert erase add_member String-discrete user_key new_hub register Connection.new
    receive handle handle_kind handle_auth log_in bind_user set_identity send send_to deliver
    deliver_local broadcast_presence broadcast_call send_to_participants validate Presence.empty
    Presence.set_online new_call ring_callees initial relay_signaling relay_to get reply_error
seen id h = of (lookup id h.objects)
  where
    of : Option Conn → Option (String × Bool)
    of none = none
    of (some c) = some (c.user_id, c.authed)

ann_seen : seen "c1" hub_2 ≡ some ("ann", true)
unfolding seen
ann_seen = refl

bob_seen : seen "c2" hub_4 ≡ some ("bob", true)
unfolding seen
bob_seen = refl

-- Ann and Bob authenticated once each.
hub_4-Reach : Reach parts (Once parts) hub_4
unfolding seen
hub_4-Reach =
    receives t bob_new "bob" hub_3 refl refl (λ _. refl)
      (connects "c2" hub_2 refl (
        receives t ann_new "ann" hub_1 refl refl (λ _. refl)
          (connects "c1" hub_0 refl (start 0 0 calls Presence.empty))))

Reach-IsWired_example : IsWired hub_4
Reach-IsWired_example = Reach-IsWired parts (Once parts) hub_4 hub_4-Reach

Reach-IsExact_example :
    contains "c1" (members "chat|ann" hub_4.by_user)
    ≡ belongs "chat|ann" (lookup "c1" hub_4.objects)
Reach-IsExact_example = Reach-IsExact parts hub_4 hub_4-Reach "chat|ann" "c1"

abbrev conn_or : Conn → Option Conn → Conn
conn_or c none = c
conn_or c (some d) = d

abbrev ann : Conn
ann = conn_or ann_new (lookup "c1" hub_4.objects)

abbrev bob : Conn
bob = conn_or bob_new (lookup "c2" hub_4.objects)

abbrev hello : Envelope
hello = record { type = EnvelopeType.pong; call_id = ""; sender_id = "cay"; body = Body.nothing }

-- Bob gets a message for Bob.
Reach-deliver_local_example :
    lookup "c2" (deliver_local "chat" "bob" "" hello hub_4).objects
    ≡ scan (user_key "chat" "bob") "" hello (lookup "c2" hub_4.objects)
Reach-deliver_local_example = Reach-deliver_local parts hub_4 hub_4-Reach "chat" "bob" "" hello "c2"

scan_sends : scan (user_key "chat" "bob") "" hello (some bob) ≡ some (send hello bob).0
unfolding seen
scan_sends = refl

two_keys : DistinctKeys a_call.app_id a_call.participants
unfolding seen
two_keys = (refl, (refl, tt))

bob_stored : lookup "c2" hub_4.objects ≡ some bob
unfolding seen
bob_stored = refl

Reach-broadcast_call_example :
    lookup "c2" (broadcast_call a_call EnvelopeType.call_ringing "ann" hub_4).objects
    ≡ some (
        if is_addressed a_call.app_id a_call.participants bob
        then (send (call_envelope a_call EnvelopeType.call_ringing "ann") bob).0
        else bob)
Reach-broadcast_call_example =
    Reach-broadcast_call parts hub_4 hub_4-Reach a_call EnvelopeType.call_ringing "ann" two_keys
      "c2" bob bob_stored

bob_addressed : is_addressed a_call.app_id a_call.participants bob ≡ true
unfolding seen
bob_addressed = refl

abbrev offer : Incoming
offer = record { type = EnvelopeType.webrtc_offer; call_id = "call_1"; payload = "offer" }

c2-ann : "c2" ≢ ann.id
unfolding seen
c2-ann = text_ne "c2" "c1" refl

-- Ann's offer goes to Bob.
Reach-relay_signaling_example :
    lookup "c2" (relay_signaling parts ann offer hub_4).objects
    ≡ relayed_to ann offer (relayable_call ann offer hub_4) (lookup "c2" hub_4.objects)
Reach-relay_signaling_example = Reach-relay_signaling parts hub_4 hub_4-Reach ann offer "c2" c2-ann

offer_reaches_bob :
    relayed_to ann offer (relayable_call ann offer hub_4) (some bob)
    ≡ some (send (relayed ann offer) bob).0
unfolding seen find_participant
offer_reaches_bob = refl

ann_new_stranger : ann_new.authed ≡ false
unfolding seen
ann_new_stranger = refl

-- Before it authenticates, Ann's connection gets an error for its offer.
receive_stranger_example :
    Answered ann_new.id hub_1 (receive parts t ann_new "offer" hub_1)
    ⊎ Accepted parts t ann_new hub_1 (receive parts t ann_new "offer" hub_1)
receive_stranger_example = receive_stranger parts t ann_new "offer" hub_1 ann_new_stranger

abbrev cay_claims : UserClaims
cay_claims = record { app = "chat"; device_id = "phone"; subject = "cay"; issuer = "" }

abbrev cay_data : AuthenticateData
cay_data = record { token = "cay"; device_id = ""; reconnect = false }

ann_stored : lookup ann.id hub_4.objects ≡ some ann
unfolding seen
ann_stored = refl

ann_open : ann.closed ≡ false
unfolding seen
ann_open = refl

ann_authed : ann.authed ≡ true
unfolding seen
ann_authed = refl

cay_differs : user_key (app_for cay_claims) cay_claims.subject ≢ user_key ann.app_id ann.user_id
unfolding seen
cay_differs = text_ne "chat|cay" "chat|ann" refl

-- Ann's connection authenticates as Cay, and still gets what is sent to Ann.
log_in_again_example :
    (belongs
        (user_key ann.app_id ann.user_id)
        (lookup ann.id (log_in t ann cay_data cay_claims hub_4).objects)
      ≡ false)
    × (lookup ann.id
          (deliver_local ann.app_id ann.user_id "" hello
            (log_in t ann cay_data cay_claims hub_4)).objects
        ≡ sent hello (lookup ann.id (log_in t ann cay_data cay_claims hub_4).objects))
log_in_again_example =
    log_in_again parts (Once parts) t ann cay_data cay_claims hub_4 hub_4-Reach ann_stored
      (text_ne "cay" "" refl) ann_open ann_authed cay_differs hello

bob_open : bob.closed ≡ false
unfolding seen
bob_open = refl

one_device : bob.device_id ≡ ann.device_id
unfolding seen
one_device = refl

-- Ann's connection ends, and Bob's has the same device.
unregister_other_example :
    (is_open (lookup "c2" (unregister ann 200 hub_4).objects) ≡ true)
    × (status_of (lookup bob.device_id (unregister ann 200 hub_4).presence.devices)
        ≡ some "offline")
unregister_other_example =
    unregister_other ann bob "c2" 200 hub_4 ann_authed c2-ann bob_stored bob_open one_device
