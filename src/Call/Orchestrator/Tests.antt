-- ===== src/Call/Orchestrator/Tests.antt =====
-- The theorems about the orchestrator: a group call without a room, and a token for a direct call.
use mgl_communication.Base.{none, some, [], ◌∷◌, ◌≡◌, refl, live, ok, lookup, String-discrete}
use mgl_communication.Call.Types.{Call, direct, video, find_participant}
use mgl_communication.Call.Creation.{CreateInput, new_call, ring_callees}
use mgl_communication.Call.Store.{get}
use mgl_communication.Call.Service.{Runtime}
use mgl_communication.Call.Reach.{initial}
use mgl_communication.Call.Effects.{created_call}
use mgl_communication.Call.Orchestrator.{Orchestrator, TokenResult, issue_token, join_room}
use mgl_communication.Call.Orchestrator.Outcome.{Admits, issue_token-Admits}

abbrev request : CreateInput
request = record {
  app_id = "chat";
  caller_id = "ann";
  caller_device = "phone";
  callee_ids = "bob" ∷ [];
  type = "video";
  mode = "";
  caller_name = "Ann";
}

-- An SFU that is down, and a signer.
abbrev orchestrator : Orchestrator
orchestrator = record {
  authz = none;
  provider = some (record {
    create_room = λ room. some "down";
    join_token = λ room user role ttl. none;
    url = "";
  });
  sign = λ id u room role app ttl. some u;
  token_ttl = 0;
  ice_servers = [];
}

abbrev a_call : Call
a_call = created_call request "1" "1" 100 (video, direct)

abbrev calls : Runtime
calls = record initial { store = record { calls = ("call_1", a_call) ∷ []; by_user = [] } }

abbrev secret_for_bob : TokenResult
secret_for_bob = record {
  call_id = "call_1";
  room_id = "room_1";
  token = "bob";
  transport = a_call.transport;
  sfu_url = "";
  ice_servers = [];
  role = "callee";
  expires_in = 300;
}

bob_admitted : issue_token orchestrator live "call_1" "bob" calls ≡ ok secret_for_bob
unfolding issue_token join_room get lookup String-discrete find_participant new_call ring_callees
    initial
bob_admitted = refl

issue_token-Admits_example : Admits orchestrator "call_1" "bob" calls secret_for_bob
issue_token-Admits_example =
    issue_token-Admits orchestrator "call_1" "bob" calls secret_for_bob bob_admitted
