-- ===== src/Signal/Reach.antt =====
-- The hub from its start: connections that come, send, are written to and go, in any order, and
-- whatever else changes the stores that the hub shares. A handler runs as one step.
use mgl_communication.Base.{ℕ, String, true, false, none, some, lookup, ◌≡◌, refl, sym, subst}
use mgl_communication.Presence
use mgl_communication.Presence.{UserPresence, set_offline, set_online}
use mgl_communication.Call.Service.{Runtime}
use mgl_communication.Signal.Connection.{Conn}
use mgl_communication.Signal.Hub.{Hub, Parts, new_hub, register, unregister, drain}
use mgl_communication.Signal.Hub.Delivered.{Quiet-same}
use mgl_communication.Signal.Hub.Wired.{IsWired, IsExact, Quiet-IsWired, Quiet-IsExact}
use mgl_communication.Signal.Hub.Changes.{
  register-IsWired, register-IsExact, drain-IsWired, drain-IsExact, bound_as-IsWired,
  bound_as-IsExact, shut-IsWired, shut-IsExact,
}
use mgl_communication.Signal.Replies.{Moment}
use mgl_communication.Signal.Login.{app_for, device_for}
use mgl_communication.Signal.Handlers.{receive}
use mgl_communication.Signal.Handlers.Sessions.{
  unregister-Quiet, log_in-Quiet, Received, quiet, logged_in, receive-Received, is_authentication,
}

-- A message that `may` reject is not sent.
pub data Reach (parts : Parts) (may : Conn → String → Type 0) : Hub → Type 0 where
  start : (m k : ℕ) (rt : Runtime) (ps : Presence.Store) → Reach parts may (new_hub m k rt ps)
  connects :
      (id : String) (h : Hub)
      → lookup id h.objects ≡ none
      → Reach parts may h
      → Reach parts may (register id h)
  receives :
      (t : Moment) (c : Conn) (text : String) (h : Hub)
      → lookup c.id h.objects ≡ some c
      → c.closed ≡ false
      → may c text
      → Reach parts may h
      → Reach parts may (receive parts t c text h)
  disconnects :
      (c : Conn) (now : ℕ) (h : Hub)
      → lookup c.id h.objects ≡ some c
      → c.closed ≡ false
      → Reach parts may h
      → Reach parts may (unregister c now h)
  drains : (id : String) (h : Hub) → Reach parts may h → Reach parts may (drain id h)
  elsewhere :
      (rt : Runtime) (ps : Presence.Store) (h : Hub)
      → Reach parts may h
      → Reach parts may (record h { runtime = rt; presence = ps })

new_hub-IsWired : (m k : ℕ) (rt : Runtime) (ps : Presence.Store) → IsWired (new_hub m k rt ps)
unfolding new_hub lookup
new_hub-IsWired m k rt ps = record {
  proper = λ j. tt;
  registered = λ j. refl;
  bound = λ uk j b. cc;
  distinct = λ uk. tt;
  known = λ uk j b. cc;
}

new_hub-IsExact : (m k : ℕ) (rt : Runtime) (ps : Presence.Store) → IsExact (new_hub m k rt ps)
unfolding new_hub lookup
new_hub-IsExact m k rt ps uk j = refl

module _ (parts : Parts) (may : Conn → String → Type 0) where
  receive_step-IsWired :
      (t : Moment) (c : Conn) (text : String) (h after : Hub)
      → lookup c.id h.objects ≡ some c
      → Received parts t c text h after
      → IsWired h
      → IsWired after
  receive_step-IsWired t c text h after e (quiet q) w = Quiet-IsWired h after q w
  receive_step-IsWired t c text h after e (logged_in d claims r subject a) w =
      subst IsWired (sym r) (
        Quiet-IsWired _ _ (log_in-Quiet t c d claims h e) (
          bound_as-IsWired claims.subject (app_for claims) (device_for d claims c) c h e subject w))

  -- In every hub that is reached by connections that come, send any messages, are written to and
  -- go, and by changes of the calls and the presence elsewhere: the table of connections has
  -- exactly the open ones, every open authenticated connection is listed under its user, no list
  -- has one twice or one that never was, every connection has its own id and a user name if it
  -- authenticated, and no send buffer holds more than its capacity.
  pub Reach-IsWired : (h : Hub) → Reach parts may h → IsWired h
  Reach-IsWired h (start m k rt ps) = new_hub-IsWired m k rt ps
  Reach-IsWired h (connects id g e r) = register-IsWired id g e (Reach-IsWired g r)
  Reach-IsWired h (receives t c text g e o m r) =
      receive_step-IsWired t c text g _ e (receive-Received parts t c text g) (Reach-IsWired g r)
  Reach-IsWired h (disconnects c now g e o r) =
      Quiet-IsWired _ _ (unregister-Quiet c now g) (shut-IsWired c g e (Reach-IsWired g r))
  Reach-IsWired h (drains id g r) = drain-IsWired id g (Reach-IsWired g r)
  Reach-IsWired h (elsewhere rt ps g r) =
      Quiet-IsWired g _ (Quiet-same g _ refl refl refl) (Reach-IsWired g r)

-- Every connection authenticates at most once.
abbrev pub Once : Parts → Conn → String → Type 0
Once parts c text = is_authentication (parts.json.decode_envelope text) ≡ true → c.authed ≡ false

module _ (parts : Parts) where
  receive_step-IsExact :
      (t : Moment) (c : Conn) (text : String) (h after : Hub)
      → lookup c.id h.objects ≡ some c
      → c.closed ≡ false
      → Once parts c text
      → Received parts t c text h after
      → IsExact h
      → IsExact after
  receive_step-IsExact t c text h after e o once (quiet q) x = Quiet-IsExact h after q x
  receive_step-IsExact t c text h after e o once (logged_in d claims r subject a) x =
      subst IsExact (sym r) (
        Quiet-IsExact _ _ (log_in-Quiet t c d claims h e) (
          bound_as-IsExact claims.subject (app_for claims) (device_for d claims c) c h e (once a) o
            x))

  -- If no connection authenticates twice, the list of a user has in every reached hub exactly the
  -- open connections that authenticated as this user.
  pub Reach-IsExact : (h : Hub) → Reach parts (Once parts) h → IsExact h
  Reach-IsExact h (start m k rt ps) = new_hub-IsExact m k rt ps
  Reach-IsExact h (connects id g e r) = register-IsExact id g e (Reach-IsExact g r)
  Reach-IsExact h (receives t c text g e o m r) =
      receive_step-IsExact t c text g _ e o m (receive-Received parts t c text g)
        (Reach-IsExact g r)
  Reach-IsExact h (disconnects c now g e o r) =
      Quiet-IsExact _ _ (unregister-Quiet c now g)
        (shut-IsExact c g e (Reach-IsWired parts (Once parts) g r) (Reach-IsExact g r))
  Reach-IsExact h (drains id g r) = drain-IsExact id g (Reach-IsExact g r)
  Reach-IsExact h (elsewhere rt ps g r) =
      let after = record g { runtime = rt; presence = ps } in
      Quiet-IsExact g after (Quiet-same g after refl refl refl) (Reach-IsExact g r)
