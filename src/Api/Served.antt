-- ===== src/Api/Served.antt =====
-- An error response of the handlers of devices and messages.
use mgl_communication.Base.{
  ℕ, String, Bool, true, false, not, ◌||◌, ◌==◌, ltb, if◌then◌else◌, Option, none, some, Error,
  Result, ok, err, forbidden, ◌≡◌, refl, ap, ◌⊎◌, inl, inr,
}
use mgl_communication.Push.Types.{Tools, Device, MessageType, SendMessageResult}
use mgl_communication.Push.Tables.{Database}
use mgl_communication.Push.Registration
use mgl_communication.Push.Registration.{RegisterDeviceInput}
use mgl_communication.Push.Validate.{SendMessageInput}
use mgl_communication.Push.Send.{send}
use mgl_communication.Push.Send.Outcome.{send-error_leaves}
use mgl_communication.Push.Send.Stranding.{Stranded}
use mgl_communication.Push.Calls.{
  SendIncomingCallInput, SendCallSignalInput, send_incoming_call, send_call_signal,
  incoming_call_message, call_signal_message, ttl_of, is_signal,
}
use mgl_communication.Api.{Services, Deps, Instant, Response, write_error}
use mgl_communication.Api.Devices.{
  registered, register_as, app_or, token_updated, update_token_as, done_as, set_user_as,
  clear_user_as, unregister_as, UpdateTokenRequest,
}
use mgl_communication.Api.Messages.{
  SendMessageRequest, IncomingCallRequest, CallSignalRequest, CallBody, sent_as, send_message_as,
  incoming_call_as, incoming_call_with, call_signal_as,
}
use mgl_communication.Api.Errors.{
  is_error, Kept, Kept-refl, Kept-database, register-error, update_token-error, set_user_id-error,
  clear_user_id-error, unregister-error,
}

-- What is left when the response is an error.
abbrev pub KeptIf : Services → Services × Response → Type 0
KeptIf s r = is_error r.1.body ≡ true → Kept s r.0

registered-KeptIf :
    (s : Services) (r : Result Device × Database)
    → ((e : Error) → r.0 ≡ err e → r.1 ≡ s.database)
    → KeptIf s (registered s r)
registered-KeptIf s (ok d, db) same h = cc
registered-KeptIf s (err e, db) same h = Kept-database s db (same e refl)

token_updated-KeptIf :
    (s : Services) (r : Result Device × Database)
    → ((e : Error) → r.0 ≡ err e → r.1 ≡ s.database)
    → KeptIf s (token_updated s r)
token_updated-KeptIf s (ok d, db) same h = cc
token_updated-KeptIf s (err e, db) same h = Kept-database s db (same e refl)

done_as-KeptIf :
    (status : String) (s : Services) (r : Option Error × Database)
    → ((e : Error) → r.0 ≡ some e → r.1 ≡ s.database)
    → KeptIf s (done_as status s r)
done_as-KeptIf status s (none, db) same h = cc
done_as-KeptIf status s (some e, db) same h = Kept-database s db (same e refl)

-- The database of an error of a Send: the same, or with a message that was stored and not queued.
abbrev pub Sent : Database → Database → Type 0
Sent db after = (after ≡ db) ⊎ ((in_ : SendMessageInput) × Stranded in_ db after)

in_some :
    (in_ : SendMessageInput) (db after : Database)
    → (after ≡ db) ⊎ Stranded in_ db after
    → Sent db after
in_some in_ db after (inl e) = inl e
in_some in_ db after (inr x) = inr (in_, x)

-- A message that was stored and not queued, and nothing outside the tables.
pub record LeftStranded (s after : Services) : Type 0 where
  pub runtime : after.runtime ≡ s.runtime
  pub presence : after.presence ≡ s.presence
  pub notices : after.notices ≡ s.notices
  pub input : SendMessageInput
  pub stranded : Stranded input s.database after.database

abbrev pub LeftIf : Services → Services × Response → Type 0
LeftIf s r = is_error r.1.body ≡ true → Kept s r.0 ⊎ LeftStranded s r.0

sent_as-LeftIf :
    (s : Services) (r : Result SendMessageResult × Database)
    → ((e : Error) → r.0 ≡ err e → Sent s.database r.1)
    → LeftIf s (sent_as s r)
sent_as-LeftIf s (ok d, db) same h = cc
sent_as-LeftIf s (err e, db) same h = go (same e refl)
  where
    go :
        Sent s.database db
        → Kept s (record s { database = db }) ⊎ LeftStranded s (record s { database = db })
    go (inl q) = inl (Kept-database s db q)
    go (inr (in_, x)) =
        inr (record { runtime = refl; presence = refl; notices = refl; input = in_; stranded = x })

register_for-KeptIf :
    (deps : Deps) (t : Instant) (app_id : String) (req : RegisterDeviceInput) (s : Services)
    (b : Bool)
    → KeptIf s (
        if b
        then (s, write_error (forbidden "app_id mismatch"))
        else registered s (
            Registration.register t.now (deps.tools.new_id t.first) (app_or app_id req) s.database))
register_for-KeptIf deps t app_id req s true = λ h. Kept-refl s
register_for-KeptIf deps t app_id req s false =
    registered-KeptIf s
      (Registration.register t.now (deps.tools.new_id t.first) (app_or app_id req) s.database)
      (register-error t.now (deps.tools.new_id t.first) (app_or app_id req) s.database)

pub devices_served :
    (deps : Deps) (t : Instant) (a : Result String) (s : Services)
    → ((req : Option RegisterDeviceInput) → KeptIf s (register_as deps t a req s))
      × ((id : String) (req : Option UpdateTokenRequest)
          → KeptIf s (update_token_as deps t a id req s))
      × ((id : String) (req : Option String) → KeptIf s (set_user_as t a id req s))
      × ((id : String) → KeptIf s (clear_user_as t a id s))
      × ((id : String) → KeptIf s (unregister_as t a id s))
devices_served deps t (err e) s = (
  λ req h. Kept-refl s,
  λ id req h. Kept-refl s,
  λ id req h. Kept-refl s,
  λ id h. Kept-refl s,
  λ id h. Kept-refl s,
)
devices_served deps t (ok app_id) s = (
  by_body,
  token_by_body,
  user_by_body,
  λ id. done_as-KeptIf "ok" s _ (clear_user_id-error t.now app_id id s.database),
  λ id. done_as-KeptIf "disabled" s _ (unregister-error t.now app_id id s.database),
)
  where
    by_body : (req : Option RegisterDeviceInput) → KeptIf s (register_as deps t (ok app_id) req s)
    by_body none = λ h. Kept-refl s
    by_body (some req) =
        register_for-KeptIf deps t app_id req s (not ((app_or app_id req).app_id == app_id))

    token_by_body :
        (id : String) (req : Option UpdateTokenRequest)
        → KeptIf s (update_token_as deps t (ok app_id) id req s)
    token_by_body id none = λ h. Kept-refl s
    token_by_body id (some req) = token_updated-KeptIf s _ (
        update_token-error t.now (deps.tools.new_id t.first) app_id id req.provider req.token
          s.database)

    user_by_body :
        (id : String) (req : Option String) → KeptIf s (set_user_as t (ok app_id) id req s)
    user_by_body id none = λ h. Kept-refl s
    user_by_body id (some user) =
        done_as-KeptIf "ok" s _ (set_user_id-error t.now app_id id user s.database)

send-error :
    (tools : Tools) (now first : ℕ) (in_ : SendMessageInput) (db : Database) (e : Error)
    → (send tools now first in_ db).0 ≡ err e
    → Sent db (send tools now first in_ db).1
send-error tools now first in_ db e h = in_some in_ db (send tools now first in_ db).1 (
    send-error_leaves tools now first in_ db (send tools now first in_ db).1 e
      (ap (λ r. (r, (send tools now first in_ db).1)) h))

-- A Send behind two checks of its input.
checked_send-error :
    (a b : Bool) (x y : Error) (tools : Tools) (now first : ℕ) (in_ : SendMessageInput)
    (db : Database) (e : Error)
    → (if a then (err x, db) else if b then (err y, db) else send tools now first in_ db).0 ≡ err e
    → Sent db (if a then (err x, db) else if b then (err y, db) else send tools now first in_ db).1
checked_send-error true b x y tools now first in_ db e h = inl refl
checked_send-error false true x y tools now first in_ db e h = inl refl
checked_send-error false false x y tools now first in_ db e h =
    send-error tools now first in_ db e h

send_incoming_call-error :
    (tools : Tools) (now first : ℕ) (in_ : SendIncomingCallInput) (db : Database) (e : Error)
    → (send_incoming_call tools now first in_ db).0 ≡ err e
    → Sent db (send_incoming_call tools now first in_ db).1
unfolding send_incoming_call
send_incoming_call-error tools now first in_ db e h =
    checked_send-error
      (in_.call.call_id == "" || in_.call.caller_id == "" || in_.call.callee_id == "")
      (ltb (ttl_of now in_.call) 1) _ _ tools now first (incoming_call_message tools now in_) db e h

send_call_signal-error :
    (tools : Tools) (now first : ℕ) (in_ : SendCallSignalInput) (db : Database) (e : Error)
    → (send_call_signal tools now first in_ db).0 ≡ err e
    → Sent db (send_call_signal tools now first in_ db).1
unfolding send_call_signal
send_call_signal-error tools now first in_ db e h =
    checked_send-error (not (is_signal in_.type)) (in_.call_id == "") _ _ tools now first
      (call_signal_message in_) db e h

pub messages_served :
    (deps : Deps) (t : Instant) (a : Result String) (key : String) (s : Services)
    → ((req : Option SendMessageRequest) → LeftIf s (send_message_as deps t a key req s))
      × ((req : Option IncomingCallRequest) → LeftIf s (incoming_call_as deps t a key req s))
      × ((type : MessageType) (req : Option CallSignalRequest)
          → LeftIf s (call_signal_as deps t type a key req s))
messages_served deps t (err e) key s =
    (λ req h. inl (Kept-refl s), λ req h. inl (Kept-refl s), λ type req h. inl (Kept-refl s))
messages_served deps t (ok app_id) key s = (send_by_body, ring_by_body, signal_by_body)
  where
    send_by_body :
        (req : Option SendMessageRequest) → LeftIf s (send_message_as deps t (ok app_id) key req s)
    send_by_body none = λ h. inl (Kept-refl s)
    send_by_body (some req) = sent_as-LeftIf s _ (send-error deps.tools t.now t.first _ s.database)

    ring_with :
        (req : IncomingCallRequest) (c : Option CallBody)
        → LeftIf s (incoming_call_with deps t app_id key req c s)
    ring_with req none = λ h. inl (Kept-refl s)
    ring_with req (some c) =
        sent_as-LeftIf s _ (send_incoming_call-error deps.tools t.now t.first _ s.database)

    ring_by_body :
        (req : Option IncomingCallRequest)
        → LeftIf s (incoming_call_as deps t (ok app_id) key req s)
    ring_by_body none = λ h. inl (Kept-refl s)
    ring_by_body (some req) = ring_with req req.call

    signal_by_body :
        (type : MessageType) (req : Option CallSignalRequest)
        → LeftIf s (call_signal_as deps t type (ok app_id) key req s)
    signal_by_body type none = λ h. inl (Kept-refl s)
    signal_by_body type (some req) =
        sent_as-LeftIf s _ (send_call_signal-error deps.tools t.now t.first _ s.database)
