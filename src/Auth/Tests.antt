-- ===== src/Auth/Tests.antt =====
-- The theorems about identities at a service's token and at a user's.
use mgl_communication.Base.{◌≡◌, refl, some, [], ◌∷◌, ok, lookup, String-discrete}
use mgl_communication.Auth.{
  UserClaims, validate, user, Identity, Authenticator, Request, Verdict, identified, middleware,
  require_app_id, require_user_id,
}
use mgl_communication.Auth.Identities.{Grounds, middleware-Grounds, middleware-require_user_id}

-- Every token but the service's has the claims of Ann.
abbrev ann_claims : UserClaims
ann_claims = record { app = "chat"; device_id = "phone"; subject = "ann"; issuer = "" }

abbrev two_kinds : Authenticator
two_kinds = record {
  tokens = ("key", "shop") ∷ [];
  jwt = some (record { issuer = "mgl"; parse = λ token. some ann_claims });
}

abbrev from_ann : Request
from_ann = record { path = "/api/v1/calls"; bearer = some "jwt" }

abbrev ann : Identity
ann = record { app_id = "chat"; user_id = "ann"; device_id = "phone"; kind = user }

seen : Request → Verdict
unfolding middleware validate lookup String-discrete
seen r = middleware two_kinds r

ann_seen : middleware two_kinds from_ann ≡ identified ann
unfolding seen
ann_seen = refl

middleware-Grounds_example : Grounds two_kinds from_ann ann
middleware-Grounds_example = middleware-Grounds two_kinds from_ann ann ann_seen

-- Ann's token does not speak for Bob.
ann_is_ann :
    (require_app_id (middleware two_kinds from_ann) ≡ ok "chat")
    × (require_user_id (middleware two_kinds from_ann) "bob" ≡ ok "ann")
ann_is_ann = middleware-require_user_id two_kinds from_ann ann ann_seen refl "bob"
