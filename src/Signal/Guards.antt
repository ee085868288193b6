-- ===== src/Signal/Guards.antt =====
-- What a connection can do before it authenticates, and what a second authentication leaves.
use mgl_communication.Base.{
  String, Bool, true, false, not, Option, none, some, lookup, Dict, insert, lookup-insert, contains,
  ◌≡◌, ◌≢◌, ◌⊎◌, inl, inr, refl, ◌∙◌, ap, arith, if◌then◌else◌, eq_refl,
}
use mgl_communication.Ratelimit.{allow}
use mgl_communication.Auth.{UserClaims, validate}
use mgl_communication.Signal.Protocol.{Incoming, Envelope, AuthenticateData}
use mgl_communication.Signal.Connection.{Conn, set_identity}
use mgl_communication.Signal.Hub.{Hub, Parts, send_to, deliver_local, user_key, members}
use mgl_communication.Signal.Hub.Bindings.{contains-bound_in}
use mgl_communication.Signal.Hub.Wired.{belongs, IsWired, Quiet-IsWired, sent-belongs}
use mgl_communication.Signal.Hub.Changes.{bound_as, bound_as-IsWired}
use mgl_communication.Signal.Replies.{Moment, reply_error}
use mgl_communication.Signal.Login.{handle_auth, log_in, log_in_if, app_for, device_for}
use mgl_communication.Signal.Handlers.{
  receive, handle, handle_kind, handle_default, handle_authed, handle_if_allowed, is_session_resume,
  handle_decoded, Kind, kind, authentication, probe, ordinary, pong_for,
}
use mgl_communication.Signal.Handlers.Sessions.{log_in-Quiet}
use mgl_communication.Signal.Scan.{sent, offered}
use mgl_communication.Signal.Delivery.{lookup-deliver}
use mgl_communication.Signal.Reach.{Reach, Reach-IsWired}

-- The hub sent one message to the connection.
abbrev pub Answered : String → Hub → Hub → Type 0
Answered id h after = (env : Envelope) × (after ≡ send_to id env h)

-- The connection authenticated, with a token that was accepted.
pub record Accepted (parts : Parts) (t : Moment) (c : Conn) (h after : Hub) : Type 0 where
  pub message : AuthenticateData
  pub claims : UserClaims
  pub token : validate parts.jwt message.token ≡ some claims
  pub result : after ≡ log_in t c message claims h

reply_error-Answered :
    (c : Conn) (call_id sender code text : String) (h : Hub)
    → Answered c.id h (reply_error c call_id sender code text h)
unfolding reply_error
reply_error-Answered c call_id sender code text h = (_, refl)

-- Whatever a connection that is not authenticated sends, either the hub does nothing but send it
-- one message, or the connection is logged in with the claims of a token that was validated.
pub receive_stranger :
    (parts : Parts) (t : Moment) (c : Conn) (text : String) (h : Hub)
    → c.authed ≡ false
    → Answered c.id h (receive parts t c text h) ⊎ Accepted parts t c h (receive parts t c text h)
unfolding receive handle handle_kind handle_auth handle_default
receive_stranger parts t c text h stranger = go (parts.json.decode_envelope text)
  where
    by_token :
        (d : AuthenticateData) (o : Option UserClaims)
        → validate parts.jwt d.token ≡ o
        → Answered c.id h (log_in_if t c d o h) ⊎ Accepted parts t c h (log_in_if t c d o h)
    by_token d none e = inl (reply_error-Answered c "" "" "UNAUTHORIZED" "invalid token" h)
    by_token d (some claims) e =
        inr (record { message = d; claims = claims; token = e; result = refl })

    refused :
        (env : Incoming) (b : Bool)
        → b ≡ false
        → Answered c.id h (
            if not b
            then reply_error c env.call_id "" "UNAUTHORIZED" "authenticate first" h
            else if is_session_resume env.type
            then handle_authed parts t c env h
            else handle_if_allowed parts t c env h (allow h.msg_limiter c.id t.now))
    refused env true e = cc
    refused env false e =
        reply_error-Answered c env.call_id "" "UNAUTHORIZED" "authenticate first" h

    by_kind :
        (env : Incoming) (k : Kind)
        → Answered c.id h (handle_kind parts t c env text h k)
          ⊎ Accepted parts t c h (handle_kind parts t c env text h k)
    by_kind env authentication = by_token _ _ refl
    by_kind env probe = inl (pong_for c env, refl)
    by_kind env ordinary = inl (refused env c.authed stranger)

    go :
        (o : Option Incoming)
        → Answered c.id h (handle_decoded parts t c text o h)
          ⊎ Accepted parts t c h (handle_decoded parts t c text o h)
    go none = inl (reply_error-Answered c "" "" "INVALID_JSON" "invalid message" h)
    go (some env) = by_kind env (kind env.type)

offered_any : (env : Envelope) (o : Option Conn) → offered "" env o ≡ sent env o
offered_any env none = refl
offered_any env (some c) = rw (eq_refl "") refl

belongs-set_identity :
    (uk user app device : String) (c : Conn)
    → user_key app user ≢ uk
    → belongs uk (some (set_identity user app device c)) ≡ false
unfolding set_identity
belongs-set_identity uk user app device c n = ground (arith, n)

found_again :
    (id : String) (d : Conn) (objects : Dict Conn) → lookup id (insert id d objects) ≡ some d
found_again id d objects = ground (arith, lookup-insert id id d objects)

-- A connection that authenticates again, from a hub in which it is open and authenticated.
module _ (parts : Parts) (may : Conn → String → Type 0) (t : Moment) (c : Conn)
    (d : AuthenticateData) (claims : UserClaims) (h : Hub) (r : Reach parts may h)
    (e : lookup c.id h.objects ≡ some c) where
  log_in-IsWired : claims.subject ≢ "" → IsWired (log_in t c d claims h)
  log_in-IsWired subject = Quiet-IsWired _ _ (log_in-Quiet t c d claims h e) (
      bound_as-IsWired claims.subject (app_for claims) (device_for d claims c) c h e subject
        (Reach-IsWired parts may h r))

  still_listed :
      c.closed ≡ false
      → c.authed ≡ true
      → contains c.id (members (user_key c.app_id c.user_id) (log_in t c d claims h).by_user) ≡ true
  still_listed o a =
      let uk = user_key c.app_id c.user_id in
      let q = log_in-Quiet t c d claims h e in
      ap (λ m. contains c.id (members uk m)) q.by_user
      ∙ ground (
        arith,
        contains-bound_in uk c.id (user_key (app_for claims) claims.subject) c.id h.by_user,
        (Reach-IsWired parts may h r).bound uk c.id,
        e,
        o,
        a,
        eq_refl uk,
      )

  -- In a reached hub, when an open authenticated connection authenticates again as another user,
  -- it does not belong to the former user any more, and a message that is delivered to the former
  -- user is still offered to it.
  pub log_in_again :
      claims.subject ≢ ""
      → c.closed ≡ false
      → c.authed ≡ true
      → user_key (app_for claims) claims.subject ≢ user_key c.app_id c.user_id
      → (env : Envelope)
      → (belongs (user_key c.app_id c.user_id) (lookup c.id (log_in t c d claims h).objects)
          ≡ false)
        × (lookup c.id (deliver_local c.app_id c.user_id "" env (log_in t c d claims h)).objects
            ≡ sent env (lookup c.id (log_in t c d claims h).objects))
  unfolding deliver_local
  log_in_again subject o a differ env =
      let uk = user_key c.app_id c.user_id in
      let after = log_in t c d claims h in
      let as_user = set_identity claims.subject (app_for claims) (device_for d claims c) c in
      let bound = bound_as claims.subject (app_for claims) (device_for d claims c) c h in
      (
        sent-belongs uk (lookup c.id bound.objects) (lookup c.id after.objects)
              ((log_in-Quiet t c d claims h e).objects c.id)
            ∙ ap (belongs uk) (found_again c.id as_user h.objects)
            ∙ belongs-set_identity uk claims.subject (app_for claims) (device_for d claims c) c
                differ,
        lookup-deliver c.id "" env (members uk after.by_user) after.objects
              ((log_in-IsWired subject).distinct uk)
            ∙ ap
                (λ b.
                  if b
                  then offered "" env (lookup c.id after.objects)
                  else lookup c.id after.objects)
                (still_listed o a)
            ∙ offered_any env (lookup c.id after.objects),
      )
