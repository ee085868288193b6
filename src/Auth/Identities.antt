-- ===== src/Auth/Identities.antt =====
-- Where the identity of a request comes from.
use mgl_communication.Base.{
  String, Bool, true, false, not, ◌==◌, if◌then◌else◌, Option, none, some, lookup, ok, ◌≡◌, ◌≢◌,
  ◌⊎◌, inl, inr, refl, sym, ◌∙◌, subst, arith,
}
use mgl_communication.Auth.{
  UserClaims, JwtValidator, validate, accept_claims, service, user, Identity, Authenticator,
  Request, passed, refused, identified, is_public, by_claims, by_jwt, by_app, by_bearer, middleware,
  require_app_id, require_user_id,
}

pub validate-subject :
    (v : JwtValidator) (token : String) (claims : UserClaims)
    → validate v token ≡ some claims
    → claims.subject ≢ ""
unfolding validate
validate-subject v token claims e = go (token == "") (v.parse token) e
  where
    go :
        (b : Bool) (o : Option UserClaims)
        → (if b then none else accept_claims v.issuer o) ≡ some claims
        → claims.subject ≢ ""
    go true o h = cc
    go false none h = cc
    go false (some c) h = ground (arith, h)

identified_if :
    (b : Bool) (j i : Identity)
    → (if b then refused else identified j) ≡ identified i
    → (b ≡ false) × (j ≡ i)
identified_if true j i h = cc
identified_if false j i h = (refl, cc)

abbrev user_identity : UserClaims → Identity
user_identity c = record {
  app_id = c.app;
  user_id = c.subject;
  device_id = c.device_id;
  kind = user;
}

abbrev service_identity : String → Identity
service_identity app = record { app_id = app; user_id = ""; device_id = ""; kind = service }

-- A service: its token is in the table, with the app.
pub record FromTable (a : Authenticator) (token : String) (i : Identity) : Type 0 where
  pub app : lookup token a.tokens ≡ some i.app_id
  pub nameless : i.user_id ≡ ""
  pub kind : i.kind ≡ service

-- A user: the token's claims were accepted, and name the user and the app.
pub record FromClaims (a : Authenticator) (token : String) (i : Identity) : Type 0 where
  pub validator : JwtValidator
  pub claims : UserClaims
  pub configured : a.jwt ≡ some validator
  pub accepted : validate validator token ≡ some claims
  pub app : i.app_id ≡ claims.app
  pub subject : i.user_id ≡ claims.subject
  pub named : i.user_id ≢ ""
  pub kind : i.kind ≡ user

-- The request's path is not public, and its token gives the app and the user.
pub record Grounds (a : Authenticator) (r : Request) (i : Identity) : Type 0 where
  pub guarded : is_public r.path ≡ false
  pub token : String
  pub bearer : r.bearer ≡ some token
  pub app_named : i.app_id ≢ ""
  pub source : FromTable a token i ⊎ FromClaims a token i

-- When the middleware identifies a request, its path is not public, and its bearer token either
-- is in the table of service tokens with the app, or has accepted claims that name the app and
-- the user, neither of them empty.
pub middleware-Grounds :
    (a : Authenticator) (r : Request) (i : Identity) → middleware a r ≡ identified i → Grounds a r i
unfolding middleware
middleware-Grounds a r i e = go (is_public r.path) refl r.bearer refl e
  where
    by_user :
        (token : String) (v : JwtValidator) (o : Option UserClaims)
        → is_public r.path ≡ false
        → r.bearer ≡ some token
        → a.jwt ≡ some v
        → validate v token ≡ o
        → by_claims o ≡ identified i
        → Grounds a r i
    by_user token v none g b j w h = cc
    by_user token v (some c) g b j w h =
        let named = identified_if (c.app == "") (user_identity c) i h in
        subst (Grounds a r) named.1 (record {
          guarded = g;
          token = token;
          bearer = b;
          app_named = ground (arith, named.0);
          source = inr (record {
            validator = v;
            claims = c;
            configured = j;
            accepted = w;
            app = refl;
            subject = refl;
            named = validate-subject v token c w;
            kind = refl;
          });
        })

    by_validator :
        (token : String) (v : Option JwtValidator)
        → is_public r.path ≡ false
        → r.bearer ≡ some token
        → a.jwt ≡ v
        → by_jwt v token ≡ identified i
        → Grounds a r i
    by_validator token none g b j h = cc
    by_validator token (some v) g b j h = by_user token v _ g b j refl h

    by_name :
        (token app : String) (b : Bool)
        → is_public r.path ≡ false
        → r.bearer ≡ some token
        → lookup token a.tokens ≡ some app
        → (app == "") ≡ b
        → (if not b then identified (service_identity app) else by_jwt a.jwt token) ≡ identified i
        → Grounds a r i
    by_name token app true g b l n h = by_validator token a.jwt g b refl h
    by_name token app false g b l n h =
        subst (Grounds a r) (identified_if false (service_identity app) i h).1 (record {
          guarded = g;
          token = token;
          bearer = b;
          app_named = ground (arith, n);
          source = inl (record { app = l; nameless = refl; kind = refl });
        })

    by_table :
        (token : String) (o : Option String)
        → is_public r.path ≡ false
        → r.bearer ≡ some token
        → lookup token a.tokens ≡ o
        → by_app a token o ≡ identified i
        → Grounds a r i
    by_table token none g b l h = by_validator token a.jwt g b refl h
    by_table token (some app) g b l h = by_name token app _ g b l refl h

    go :
        (p : Bool)
        → is_public r.path ≡ p
        → (o : Option String) → r.bearer ≡ o
        → (if p then passed else by_bearer a o) ≡ identified i
        → Grounds a r i
    go true g o b h = cc
    go false g none b h = cc
    go false g (some token) b h = by_table token _ g b refl h

user_named :
    (a : Authenticator) (i : Identity) (token : String)
    → i.kind ≡ user
    → FromTable a token i ⊎ FromClaims a token i
    → i.user_id ≢ ""
user_named a i token k (inl t) e = kinds (sym t.kind ∙ k)
  where
    kinds : service ≢ user
    kinds h = cc
user_named a i token k (inr c) e = c.named e

-- When the middleware identifies a request by the token of a user, RequireAppID gives the app of
-- the token, and RequireUserID gives its user whatever user the body names.
pub middleware-require_user_id :
    (a : Authenticator) (r : Request) (i : Identity)
    → middleware a r ≡ identified i
    → i.kind ≡ user
    → (body_user_id : String)
    → (require_app_id (middleware a r) ≡ ok i.app_id)
      × (require_user_id (middleware a r) body_user_id ≡ ok i.user_id)
unfolding require_app_id require_user_id
middleware-require_user_id a r i e k body =
    let g = middleware-Grounds a r i e in
    let named = user_named a i g.token k g.source in
    rw (e) (ground (arith, g.app_named), ground (arith, named))
