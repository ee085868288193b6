-- ===== src/Signal/Scan.antt =====
-- A message sent by looking at all connections and their identities, which the delivery through the
-- table of users is compared with.
use mgl_communication.Base.{
  eq_refl, subst, String-discrete, String, Bool, true, false, not, ◌&&◌, ◌||◌, ◌==◌, if◌then◌else◌,
  Option, none, some, List, [], ◌∷◌, ◌≡◌, refl, sym, ◌∙◌, ap, arith,
}
use mgl_communication.Call.Types.{Participant}
use mgl_communication.Signal.Protocol.{Envelope}
use mgl_communication.Signal.Connection.{Conn, send}
use mgl_communication.Signal.Hub.{user_key}
use mgl_communication.Signal.Hub.Wired.{belongs}
use mgl_communication.Signal.Connection.Buffer.{send-Sent}

abbrev pub sent : Envelope → Option Conn → Option Conn
sent env none = none
sent env (some c) = some (send env c).0

-- The message is offered to a connection, unless it is of the device that is left out.
abbrev pub offered : String → Envelope → Option Conn → Option Conn
offered except env none = none
offered except env (some c) =
    if except == ""
    then some (send env c).0
    else if c.device_id == except
    then some c
    else some (send env c).0

-- What a scan does at a connection: the open connections of the user get the message.
abbrev pub scan : String → String → Envelope → Option Conn → Option Conn
scan uk except env o = if belongs uk o then offered except env o else o

-- A scan for each participant in turn.
abbrev pub told : String → List Participant → Envelope → Option Conn → Option Conn
told app_id [] env o = o
told app_id (p ∷ ps) env o = told app_id ps env (scan (user_key app_id p.user_id) "" env o)

eq_sym : (s t : String) → (s == t) ≡ (t == s)
eq_sym s t = ground arith

or-false : (a b : Bool) → (a || b) ≡ false → (a ≡ false) × (b ≡ false)
or-false true b h = (h, cc)
or-false false b h = (refl, h)

scan-other :
    (uk : String) (env : Envelope) (c : Conn)
    → (uk == user_key c.app_id c.user_id) ≡ false
    → scan uk "" env (some c) ≡ some c
scan-other uk env c h = rw (eq_sym (user_key c.app_id c.user_id) uk, h) (go c.closed c.authed)
  where
    go : (a b : Bool) → (if not a && b && false then offered "" env (some c) else some c) ≡ some c
    go true b = refl
    go false true = refl
    go false false = refl

-- One of the participants has this key.
abbrev pub has_participant : String → String → List Participant → Bool
has_participant uk app_id [] = false
has_participant uk app_id (p ∷ ps) = user_key app_id p.user_id == uk || has_participant uk app_id ps

-- No two participants have one key.
abbrev pub DistinctKeys : String → List Participant → Type 0
DistinctKeys app_id [] = Unit
DistinctKeys app_id (p ∷ ps) =
    (has_participant (user_key app_id p.user_id) app_id ps ≡ false) × DistinctKeys app_id ps

-- A connection of another user is left alone.
pub told-other :
    (app_id : String) (ps : List Participant) (env : Envelope) (c : Conn)
    → has_participant (user_key c.app_id c.user_id) app_id ps ≡ false
    → told app_id ps env (some c) ≡ some c
told-other app_id [] env c h = refl
told-other app_id (p ∷ ps) env c h =
    let apart =
      or-false (user_key app_id p.user_id == user_key c.app_id c.user_id)
        (has_participant (user_key c.app_id c.user_id) app_id ps) h in
    ap (told app_id ps env) (scan-other (user_key app_id p.user_id) env c apart.0)
    ∙ told-other app_id ps env c apart.1

-- An open connection of a participant.
abbrev pub is_addressed : String → List Participant → Conn → Bool
is_addressed app_id ps c =
    not c.closed && c.authed && has_participant (user_key c.app_id c.user_id) app_id ps

-- A connection that is closed or did not authenticate is left alone.
pub told-shut :
    (app_id : String) (ps : List Participant) (env : Envelope) (c : Conn)
    → (not c.closed && c.authed) ≡ false
    → told app_id ps env (some c) ≡ some c
told-shut app_id [] env c h = refl
told-shut app_id (p ∷ ps) env c h =
    ap (told app_id ps env) (alone c.closed c.authed h) ∙ told-shut app_id ps env c h
  where
    alone :
        (a b : Bool)
        → (not a && b) ≡ false
        → (if not a && b && user_key c.app_id c.user_id == user_key app_id p.user_id
            then offered "" env (some c)
            else some c)
          ≡ some c
    alone true b h = refl
    alone false true h = cc
    alone false false h = refl

scan-own :
    (uk : String) (env : Envelope) (c : Conn)
    → c.closed ≡ false
    → c.authed ≡ true
    → user_key c.app_id c.user_id ≡ uk
    → scan uk "" env (some c) ≡ some (send env c).0
scan-own uk env c o a e = ground (arith, o, a, e, eq_refl "")

-- A message changes nothing about whose connection it is.
told-sent :
    (app_id : String) (ps : List Participant) (env : Envelope) (c : Conn)
    → has_participant (user_key c.app_id c.user_id) app_id ps ≡ false
    → told app_id ps env (some (send env c).0) ≡ some (send env c).0
told-sent app_id ps env c h =
    let s = send-Sent env c in told-other app_id ps env (send env c).0 (rw (s.app_id, s.user_id) h)

pub told-once :
    (app_id : String) (ps : List Participant) (env : Envelope) (c : Conn)
    → DistinctKeys app_id ps
    → c.closed ≡ false
    → c.authed ≡ true
    → told app_id ps env (some c)
      ≡ some (if has_participant (user_key c.app_id c.user_id) app_id ps then (send env c).0 else c)
told-once app_id [] env c d o a = refl
told-once app_id (p ∷ ps) env c d o a =
    let uk = user_key c.app_id c.user_id in
    let pk = user_key app_id p.user_id in
    let rest = told-once app_id ps env c d.1 o a in
    elim (String-discrete pk uk) [
      | yes e ↦
          ap (told app_id ps env) (scan-own pk env c o a (sym e))
          ∙ told-sent app_id ps env c (subst (λ k. has_participant k app_id ps ≡ false) e d.0)
          ∙ ground (arith, e)
      | no n ↦
          ap (told app_id ps env) (scan-other pk env c (ground (arith, n)))
          ∙ ground (arith, rest, n)
    ]
