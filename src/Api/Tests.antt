-- ===== src/Api/Tests.antt =====
-- The theorems about the HTTP API at Ann's requests.
use mgl_communication.Base.{some, none, [], ◌≡◌, refl, lookup, String-discrete}
use mgl_communication.Auth.{
  Identity, user, Authenticator, Request, identified, middleware, validate,
}
use mgl_communication.Presence
use mgl_communication.Call.Reach.{initial}
use mgl_communication.Call.Store.{empty}
use mgl_communication.Api.{Services, Deps, Instant}
use mgl_communication.Api.Routes.{serve}
use mgl_communication.Api.OwnUser.{CallRequest, create_with, as_user, serve_own_user}

abbrev authenticator : Authenticator
authenticator = record {
  tokens = [];
  jwt = some (record {
    issuer = "";
    parse =
        λ token. some (record { app = "chat"; device_id = "phone"; subject = token; issuer = "" });
  });
}

abbrev from_ann : Request
from_ann = record { path = "/api/v1/calls"; bearer = some "ann" }

abbrev ann : Identity
ann = record { app_id = "chat"; user_id = "ann"; device_id = "phone"; kind = user }

ann_seen : middleware authenticator from_ann ≡ identified ann
unfolding middleware validate lookup String-discrete
ann_seen = refl

abbrev deps : Deps
deps = record {
  calls = record {
    authz = none;
    provider = none;
    sign = λ id user room role app ttl. some "secret";
    token_ttl = 0;
    ice_servers = [];
  };
  tools = record { new_id = λ n. "1"; format = λ n. ""; fails = λ n s. none };
}

abbrev instant : Instant
instant = record { now = 100; first = 1 }

abbrev services : Services
services = record {
  database = record { keys = []; devices = []; messages = []; deliveries = [] };
  runtime = initial;
  presence = Presence.empty;
  notices = [];
}

abbrev call_bob : CallRequest
call_bob = create_with (record {
  caller_id = "ann";
  caller_device = "";
  callee_id = "bob";
  callee_ids = [];
  type = "";
  mode = "";
  caller_name = "Ann";
})

-- Ann cannot call as Cay.
serve_own_user_example :
    serve deps instant (middleware authenticator from_ann) (as_user "cay" call_bob) services
    ≡ serve deps instant (middleware authenticator from_ann) (as_user "ann" call_bob) services
serve_own_user_example =
    serve_own_user authenticator from_ann ann ann_seen refl deps instant "cay" "ann" call_bob
      services
