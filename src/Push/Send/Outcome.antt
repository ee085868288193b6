-- ===== src/Push/Send/Outcome.antt =====
-- What a Send leaves and answers, internal/service/message.go: errors, and keys used again.
use mgl_communication.Base.{
  true, Error, subst, List, sym, ℕ, String, Option, none, some, ◌≡◌, refl, ◌∙◌, ap, ◌≢◌, ◌⊎◌, inl,
  inr, arith, Result, ok, err,
}
use mgl_communication.Push.Types.{Device, SendMessageResult, Tools, creating, resolving}
use mgl_communication.Push.Tables.{Database, create_with_message_and_idempotency}
use mgl_communication.Push.Validate.{with_type, SendMessageInput}
use mgl_communication.Push.Send.{send, persist_checked, check_send, new_message, sent, persist}
use mgl_communication.Push.Send.Stranding.{Bound, Stranded, Ends, send-Ends}

persist-duplicate :
    (tools : Tools) (now first : ℕ) (in_ : SendMessageInput) (ds : List Device) (db : Database)
    (id : String)
    → tools.fails first creating ≡ none
    → in_.idempotency_key ≢ ""
    → Bound in_.app_id in_.idempotency_key id db
    → persist tools now first in_ ds db ≡ (sent id true, db)
unfolding persist new_message create_with_message_and_idempotency
persist-duplicate tools now first in_ ds db id l n (k, f, e) = ground arith

persist-refused :
    (tools : Tools) (now first : ℕ) (in_ : SendMessageInput) (ds : List Device) (db : Database)
    (e : Error)
    → tools.fails first creating ≡ some e
    → persist tools now first in_ ds db ≡ (err e, db)
unfolding persist
persist-refused tools now first in_ ds db e f = rw f refl

pub send-error_leaves :
    (tools : Tools) (now first : ℕ) (in_ : SendMessageInput) (db after : Database) (e : Error)
    → send tools now first in_ db ≡ (err e, after)
    → (after ≡ db) ⊎ Stranded in_ db after
send-error_leaves tools now first in_ db after e h = go (send-Ends tools now first in_ db)
  where
    go :
        Ends (with_type in_) db (send tools now first in_ db)
          ⊎ ((x : Error) × (send tools now first in_ db ≡ (err x, db)))
        → (after ≡ db) ⊎ Stranded in_ db after
    go (inl x) = subst (Ends (with_type in_) db) h x
    go (inr (x, q)) = inl (ap (λ y. y.1) (sym h ∙ q))

send-Bound :
    (tools : Tools) (now first : ℕ) (in_ : SendMessageInput) (db after : Database)
    (r : SendMessageResult)
    → in_.idempotency_key ≢ ""
    → send tools now first in_ db ≡ (ok r, after)
    → Bound in_.app_id in_.idempotency_key r.message_id after
send-Bound tools now first in_ db after r n h = go (send-Ends tools now first in_ db)
  where
    bound :
        (in_.idempotency_key ≡ "") ⊎ Bound in_.app_id in_.idempotency_key r.message_id after
        → Bound in_.app_id in_.idempotency_key r.message_id after
    bound (inl e) = absurd (n e)
    bound (inr b) = b

    go :
        Ends (with_type in_) db (send tools now first in_ db)
          ⊎ ((x : Error) × (send tools now first in_ db ≡ (err x, db)))
        → Bound in_.app_id in_.idempotency_key r.message_id after
    go (inl x) = bound (subst (Ends (with_type in_) db) h x)
    go (inr (x, q)) = cc

send_known :
    (tools : Tools) (later next : ℕ) (again : SendMessageInput) (after : Database) (id : String)
    (ds : List Device)
    → again.idempotency_key ≢ ""
    → Bound again.app_id again.idempotency_key id after
    → check_send (tools.fails next resolving) (with_type again) after ≡ ok ds
    → tools.fails next creating ≡ none
    → send tools later next again after
      ≡ (ok (record { message_id = id; accepted = true; duplicate = true }), after)
unfolding send
send_known tools later next again after id ds n b c l =
    ap (λ x. persist_checked tools later next (with_type again) x after) c
    ∙ persist-duplicate tools later next (with_type again) ds after id l n b

-- On the tables that a successful Send with an idempotency key has left, every Send with this key
-- in the same app that passes its checks, and whose look at the key does not fail, is answered
-- with the id of the first message, as a duplicate, and changes no table.
pub send-idempotent :
    (tools : Tools) (now later first next : ℕ) (in_ again : SendMessageInput) (db after : Database)
    (r : SendMessageResult) (ds : List Device)
    → in_.idempotency_key ≢ ""
    → again.app_id ≡ in_.app_id
    → again.idempotency_key ≡ in_.idempotency_key
    → send tools now first in_ db ≡ (ok r, after)
    → check_send (tools.fails next resolving) (with_type again) after ≡ ok ds
    → tools.fails next creating ≡ none
    → send tools later next again after
      ≡ (ok (record { message_id = r.message_id; accepted = true; duplicate = true }), after)
send-idempotent tools now later first next in_ again db after r ds n a k h c l =
    send_known tools later next again after r.message_id ds (λ e. n (sym k ∙ e))
      (rw a (rw k (send-Bound tools now first in_ db after r n h))) c l

-- The answer to a repeated request: an error or the first message, and no table changes.
abbrev pub Repeated : String → Database → Result SendMessageResult × Database → Type 0
Repeated id after answer =
    ((e : Error) × (answer ≡ (err e, after)))
    ⊎ (answer ≡ (ok (record { message_id = id; accepted = true; duplicate = true }), after))

pub send-Repeated :
    (tools : Tools) (now later first next : ℕ) (in_ again : SendMessageInput) (db after : Database)
    (r : SendMessageResult)
    → in_.idempotency_key ≢ ""
    → again.app_id ≡ in_.app_id
    → again.idempotency_key ≡ in_.idempotency_key
    → send tools now first in_ db ≡ (ok r, after)
    → Repeated r.message_id after (send tools later next again after)
unfolding send
send-Repeated tools now later first next in_ again db after r n a k h =
    go (check_send (tools.fails next resolving) (with_type again) after) (tools.fails next creating)
      refl refl
  where
    go :
        (c : Result (List Device)) (o : Option Error)
        → check_send (tools.fails next resolving) (with_type again) after ≡ c
        → tools.fails next creating ≡ o
        → Repeated r.message_id after (persist_checked tools later next (with_type again) c after)
    go (err e) o q l = inl (e, refl)
    go (ok ds) (some e) q l =
        inl (e, persist-refused tools later next (with_type again) ds after e l)
    go (ok ds) none q l = inr (
        ap (λ x. persist_checked tools later next (with_type again) x after) (sym q)
        ∙ send-idempotent tools now later first next in_ again db after r ds n a k h q l)
