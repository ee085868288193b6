-- ===== src/Auth.antt =====
-- internal/auth: the claims of a client's token, jwt.go, and the authenticator of the HTTP API,
-- auth.go. Parsing a token and checking its signature and times is the JWT library's: `parse`.
use mgl_communication.Base.{
  String, Bool, not, ◌&&◌, ◌||◌, ◌==◌, if◌then◌else◌, Option, none, some, Dict, lookup, Result, ok,
  err, unauthorized,
}
pub mod Identities
mod Tests

pub record UserClaims : Type 0 where
  pub app : String
  pub device_id : String
  pub subject : String
  pub issuer : String

-- What Validate checks of the claims of a token that was parsed.
abbrev pub accept_claims : String → Option UserClaims → Option UserClaims
accept_claims issuer none = none
accept_claims issuer (some c) =
    if c.subject == ""
    then none
    else if not (issuer == "") && not (c.issuer == "") && not (c.issuer == issuer)
    then none
    else some c

-- JWTValidator: the issuer, and the library's parser with the secret.
pub record JwtValidator : Type 0 where
  pub issuer : String
  pub parse : String → Option UserClaims

unfoldable pub validate : JwtValidator → String → Option UserClaims
validate v token = if token == "" then none else accept_claims v.issuer (v.parse token)

pub data AuthKind : Type 0 where
  service user : AuthKind

-- What the middleware puts into the request's context.
pub record Identity : Type 0 where
  pub app_id : String
  pub user_id : String
  pub device_id : String
  pub kind : AuthKind

pub record Authenticator : Type 0 where
  pub tokens : Dict String
  pub jwt : Option JwtValidator

-- A request as the middleware reads it: its path, and the bearer token of its header.
pub record Request : Type 0 where
  pub path : String
  pub bearer : Option String

-- `passed` is a path that needs no token.
pub data Verdict : Type 0 where
  passed refused : Verdict
  identified : Identity → Verdict

abbrev pub is_public : String → Bool
is_public path = path == "/health" || path == "/ready" || path == "/metrics" || path == "/ws"

abbrev pub by_claims : Option UserClaims → Verdict
by_claims none = refused
by_claims (some c) =
    if c.app == ""
    then refused
    else identified
        (record { app_id = c.app; user_id = c.subject; device_id = c.device_id; kind = user })

abbrev pub by_jwt : Option JwtValidator → String → Verdict
by_jwt none token = refused
by_jwt (some v) token = by_claims (validate v token)

abbrev pub by_app : Authenticator → String → Option String → Verdict
by_app a token none = by_jwt a.jwt token
by_app a token (some app) =
    if not (app == "")
    then identified (record { app_id = app; user_id = ""; device_id = ""; kind = service })
    else by_jwt a.jwt token

abbrev pub by_bearer : Authenticator → Option String → Verdict
by_bearer a none = refused
by_bearer a (some token) = by_app a token (lookup token a.tokens)

unfoldable pub middleware : Authenticator → Request → Verdict
unfolding validate lookup
middleware a r = if is_public r.path then passed else by_bearer a r.bearer

abbrev pub app_id_of : Verdict → String
app_id_of (identified i) = i.app_id
app_id_of v = ""

abbrev pub user_id_of : Verdict → String
user_id_of (identified i) = i.user_id
user_id_of v = ""

abbrev pub device_id_of : Verdict → String
device_id_of (identified i) = i.device_id
device_id_of v = ""

unfoldable pub require_app_id : Verdict → Result String
require_app_id v =
    if app_id_of v == "" then err (unauthorized "missing app context") else ok (app_id_of v)

-- The user of a client's token, or the one that the body names.
unfoldable pub require_user_id : Verdict → String → Result String
require_user_id v body_user_id =
    if not (user_id_of v == "")
    then ok (user_id_of v)
    else if not (body_user_id == "")
    then ok body_user_id
    else err (unauthorized "missing user_id")
