-- ===== src/Incoming/Repeats.antt =====
-- A push about the end of a call, sent again.
use mgl_communication.Base.{
  ℕ, String, Bool, true, false, if◌then◌else◌, ◌==◌, List, is_empty, Result, ok, err,
  invalid_request, ◌≡◌, ◌≢◌, refl, ◌∙◌, ap, arith, inl, inr,
}
use mgl_communication.Call.Types.{Call}
use mgl_communication.Push.Types.{Tools, SendMessageResult}
use mgl_communication.Push.Tables.{Database}
use mgl_communication.Push.Validate.{SendMessageInput}
use mgl_communication.Push.Send.{send}
use mgl_communication.Push.Send.Outcome.{Repeated, send-Repeated}
use mgl_communication.Push.Calls.{SendCallSignalInput, send_call_signal, call_signal_message}
use mgl_communication.Incoming.{Bridge, notify_users, signal_input, pushed, push_sent}

-- Behind a Send that succeeded, the same Send changes no table.
send_again :
    (tools : Tools) (now later first next : ℕ) (m : SendMessageInput) (db after : Database)
    (r : SendMessageResult)
    → m.idempotency_key ≢ ""
    → send tools now first m db ≡ (ok r, after)
    → (send tools later next m after).1 ≡ after
send_again tools now later first next m db after r n h =
    go (send-Repeated tools now later first next m m db after r n refl refl h)
  where
    go :
        Repeated r.message_id after (send tools later next m after)
        → (send tools later next m after).1 ≡ after
    go (inl (e, q)) = ap (λ x. x.1) q
    go (inr q) = ap (λ x. x.1) q

key_named :
    (in_ : SendCallSignalInput)
    → in_.idempotency_key ≢ ""
    → (call_signal_message in_).idempotency_key ≢ ""
unfolding call_signal_message
key_named in_ n = ground (arith, n)

-- The same for a push about the end of a call, behind the check of its call id.
signal_again :
    (tools : Tools) (now later first next : ℕ) (c : Call) (users : List String)
    (reason key : String) (db after : Database) (r : SendMessageResult)
    → key ≢ ""
    → send_call_signal tools now first (signal_input c users reason key) db ≡ (ok r, after)
    → (send_call_signal tools later next (signal_input c users reason key) after).1 ≡ after
unfolding send_call_signal
signal_again tools now later first next c users reason key db after r n h = go (c.id == "") h
  where
    m : SendMessageInput
    m = call_signal_message (signal_input c users reason key)

    go :
        (b : Bool)
        → (if b
            then (err (invalid_request "call_id is required"), db)
            else send tools now first m db)
          ≡ (ok r, after)
        → (if b
            then (err (invalid_request "call_id is required"), after)
            else send tools later next m after).1
          ≡ after
    go true k = refl
    go false k =
        send_again tools now later first next m db after r
          (key_named (signal_input c users reason key) n) k

pushed_database :
    (c : Call) (b : Bridge) (r : Result SendMessageResult × Database)
    → (pushed push_sent c "" b r).database ≡ r.1
pushed_database c b (ok x, db) = refl
pushed_database c b (err e, db) = refl

-- On the tables that a successful call push of notifyUsers with a key that is not empty has left,
-- another notifyUsers for the same call, users, reason and key changes no table.
pub notify_users_again :
    (tools : Tools) (now later first next : ℕ) (c : Call) (users : List String)
    (reason key : String) (db : Database) (r : SendMessageResult) (b : Bridge)
    → key ≢ ""
    → send_call_signal tools now first (signal_input c users reason key) db ≡ (ok r, b.database)
    → (notify_users tools later next c users reason key b).database ≡ b.database
unfolding notify_users
notify_users_again tools now later first next c users reason key db r b n h = go (is_empty users)
  where
    repeated : Result SendMessageResult × Database
    repeated = send_call_signal tools later next (signal_input c users reason key) b.database

    go : (e : Bool) → (if e then b else pushed push_sent c "" b repeated).database ≡ b.database
    go true = refl
    go false =
        pushed_database c b repeated
        ∙ signal_again tools now later first next c users reason key db b.database r n h
