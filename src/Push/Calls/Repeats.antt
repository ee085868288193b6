-- ===== src/Push/Calls/Repeats.antt =====
-- A call push that is sent again, internal/service/message.go.
use Prim.Native.String.{◌++◌ as str_append}
use text.Mathlib.TextLemmas.{append-eq-nil_iff}
use mgl_communication.Base.{
  ℕ, String, Bool, true, false, ◌||◌, ◌==◌, ltb, if◌then◌else◌, List, ◌≡◌, refl, ◌≢◌, inl, Error,
  Result, ok, err, arith, text_ne, invalid_request,
}
use mgl_communication.Push.Types.{SendMessageResult, Tools}
use mgl_communication.Push.Tables.{Database}
use mgl_communication.Push.Send.{send}
use mgl_communication.Push.Send.Outcome.{Repeated, send-Repeated}
use mgl_communication.Push.Calls.{
  join_ids, SendIncomingCallInput, call_key, ttl_of, incoming_call_message, send_incoming_call,
}

append-ne_nil : (s t : String) → s ≢ "" → str_append s t ≢ ""
append-ne_nil s t n h = n ((append-eq-nil_iff {p = s} {q = t}).0 h).0

call_key-ne_nil :
    (key kind call_id : String) (user_ids installation_ids : List String)
    → kind ≢ ""
    → call_key key kind call_id user_ids installation_ids ≢ ""
call_key-ne_nil key kind call_id user_ids installation_ids n = ground (
  arith,
  append-ne_nil kind
      (str_append ":" (str_append call_id (str_append ":" (join_ids user_ids installation_ids)))) n,
)

sent_by_incoming_call :
    (tools : Tools) (now first : ℕ) (in_ : SendIncomingCallInput) (db after : Database)
    (r : SendMessageResult)
    → send_incoming_call tools now first in_ db ≡ (ok r, after)
    → send tools now first (incoming_call_message tools now in_) db ≡ (ok r, after)
unfolding send_incoming_call
sent_by_incoming_call tools now first in_ db after r h =
    go (in_.call.call_id == "" || in_.call.caller_id == "" || in_.call.callee_id == "")
      (ltb (ttl_of now in_.call) 1) h
  where
    go :
        (a b : Bool)
        → (if a
            then (err (invalid_request "call_id, caller_id, and callee_id are required"), db)
            else if b
            then (err (invalid_request "call already expired"), db)
            else send tools now first (incoming_call_message tools now in_) db)
          ≡ (ok r, after)
        → send tools now first (incoming_call_message tools now in_) db ≡ (ok r, after)
    go true b q = cc
    go false true q = cc
    go false false q = q

checked-Repeated :
    (a b : Bool) (id : String) (after : Database) (x y : Error)
    (answer : Result SendMessageResult × Database)
    → Repeated id after answer
    → Repeated id after (if a then (err x, after) else if b then (err y, after) else answer)
checked-Repeated true b id after x y answer h = inl (x, refl)
checked-Repeated false true id after x y answer h = inl (y, refl)
checked-Repeated false false id after x y answer h = h

-- On the tables that a successful SendIncomingCall has left, each further one of the same app
-- with the same key, which is the idempotency key or else made of the call id and the first
-- target, is answered with an error or with the id of the first message as a duplicate, and
-- changes no table.
pub send_incoming_call-Repeated :
    (tools : Tools) (now later first next : ℕ) (in_ again : SendIncomingCallInput)
    (db after : Database) (r : SendMessageResult)
    → again.app_id ≡ in_.app_id
    → call_key again.idempotency_key "incoming" again.call.call_id again.user_ids
        again.installation_ids
      ≡ call_key in_.idempotency_key "incoming" in_.call.call_id in_.user_ids in_.installation_ids
    → send_incoming_call tools now first in_ db ≡ (ok r, after)
    → Repeated r.message_id after (send_incoming_call tools later next again after)
unfolding send_incoming_call incoming_call_message
send_incoming_call-Repeated tools now later first next in_ again db after r a k h =
    checked-Repeated
      (again.call.call_id == "" || again.call.caller_id == "" || again.call.callee_id == "")
      (ltb (ttl_of later again.call) 1) r.message_id after
      (invalid_request "call_id, caller_id, and callee_id are required")
      (invalid_request "call already expired") _
      (send-Repeated tools now later first next (incoming_call_message tools now in_)
        (incoming_call_message tools later again) db after r
        (call_key-ne_nil in_.idempotency_key "incoming" in_.call.call_id in_.user_ids
          in_.installation_ids (text_ne "incoming" "" refl))
        a k (sent_by_incoming_call tools now first in_ db after r h))
