-- ===== src/Push/Send/Queueing.antt =====
-- What a Send that is not a duplicate stores: the message as queued, and its deliveries.
use mgl_communication.Base.{
  ℕ, suc, String, Bool, true, false, ◌==◌, if◌then◌else◌, Option, none, some, List, [], ◌∷◌, ◌++◌,
  map, All, Some, Some-append_right, ◌≡◌, refl, sym, ◌∙◌, ap, inl, inr, arith, Result, ok, err,
  Error, subst,
}
use mgl_communication.Push.Types.{
  queued, Device, Message, Delivery, SendMessageResult, Tools, Statement, creating, resolving,
}
use mgl_communication.Push.Tables.{
  Database, IdempotencyKey, is_key, find_row, create_unless, create_message,
  create_with_message_and_idempotency, mark_queued, queued_now, edit_message,
}
use mgl_communication.Push.Validate.{SendMessageInput, with_type}
use mgl_communication.Push.Send.Dispatch.{
  IsFresh, Dispatched, stopped, finished, dispatch-Dispatched,
}
use mgl_communication.Push.Send.{
  new_message, dispatch_if_new, sent_unless, unless_failed, persist, check_send, persist_checked,
  send,
}

create_messages :
    (now : ℕ) (m : Message) (db : Database)
    → Some (λ x. (x.id ≡ m.id) × (x.app_id ≡ m.app_id)) (create_message now m db).messages
unfolding create_message
create_messages now m db =
    Some-append_right (λ x. (x.id ≡ m.id) × (x.app_id ≡ m.app_id)) db.messages _ (inl (refl, refl))

-- The message is stored as queued, with one pending delivery for each chosen device.
abbrev pub Queued : String → String → Database → Database → Type 0
Queued app_id id db after =
    Some (λ m. (m.id ≡ id) × (m.app_id ≡ app_id) × (m.status ≡ queued)) after.messages
    × (ds : List Delivery) × (after.deliveries ≡ db.deliveries ++ ds)
    × All (IsFresh id) ds

mark_queued-Some :
    (now : ℕ) (id app_id : String) (ms : List Message)
    → Some (λ m. (m.id ≡ id) × (m.app_id ≡ app_id)) ms
    → Some
        (λ m. (m.id ≡ id) × (m.app_id ≡ app_id) × (m.status ≡ queued))
        (map (edit_message id (queued_now now)) ms)
mark_queued-Some now id app_id [] h = absurd h
mark_queued-Some now id app_id (m ∷ ms) (inl h) = inl (ground (arith, h.0, h.1))
mark_queued-Some now id app_id (m ∷ ms) (inr h) = inr (mark_queued-Some now id app_id ms h)

-- What a successful answer that is no duplicate says of the tables.
abbrev Stores : String → Database → Result SendMessageResult × Database → Type 0
Stores app_id db (ok r, after) = r.duplicate ≡ false → Queued app_id r.message_id db after
Stores app_id db (err e, after) = Unit

-- A message that is in the table when its dispatch begins is queued if the dispatch succeeds.
sent_unless-Stores :
    (now : ℕ) (app_id : String) (m : Message) (db mid : Database) (r : Result (Unit {0}) × Database)
    → Some (λ x. (x.id ≡ m.id) × (x.app_id ≡ m.app_id)) mid.messages
    → mid.deliveries ≡ db.deliveries
    → m.app_id ≡ app_id
    → Dispatched now m.id mid r
    → Stores app_id db (sent_unless m.id r)
unfolding mark_queued
sent_unless-Stores now app_id m db mid _ h e a (stopped x after adds) = tt
sent_unless-Stores now app_id m db mid _ h e a (finished last (ks, ms, ds, d, fresh)) = λ f. (
  mark_queued-Some now m.id app_id last.messages (rw ms (rw (sym a) h)),
  ds,
  d ∙ ap (λ x. x ++ ds) e,
  fresh,
)

create_unless-Stores :
    (tools : Tools) (fails : Statement → Option Error) (now first : ℕ) (in_ : SendMessageInput)
    (m : Message) (ds : List Device) (key : String) (o : Option IdempotencyKey) (db : Database)
    → m.app_id ≡ in_.app_id
    → Stores in_.app_id db
        (dispatch_if_new tools fails now first in_ m ds (create_unless now m key o db))
unfolding create_message
create_unless-Stores tools fails now first in_ m ds key (some k) db a = λ f. cc
create_unless-Stores tools fails now first in_ m ds key none db a =
    let mid = (create_unless now m key none db).1 in
    sent_unless-Stores now in_.app_id m db mid _ (create_messages now m db) refl a
      (dispatch-Dispatched tools fails now first in_ m ds mid)

persist-Stores :
    (tools : Tools) (now first : ℕ) (in_ : SendMessageInput) (ds : List Device) (db : Database)
    → Stores in_.app_id db (persist tools now first in_ ds db)
unfolding persist new_message create_with_message_and_idempotency create_message
persist-Stores tools now first in_ ds db =
    go (tools.fails first creating) (in_.idempotency_key == "")
  where
    m : Message
    m = new_message tools now (tools.new_id first) in_

    go :
        (o : Option Error) (b : Bool)
        → Stores in_.app_id db (
            unless_failed o db (
              dispatch_if_new tools (tools.fails first) now (suc first) in_ m ds (
                if b
                then ((m.id, true), create_message now m db)
                else create_with_message_and_idempotency now m in_.idempotency_key db)))
    go (some e) b = tt
    go none true =
        sent_unless-Stores now in_.app_id m db (create_message now m db) _
          (create_messages now m db) refl refl
          (dispatch-Dispatched tools (tools.fails first) now (suc first) in_ m ds
            (create_message now m db))
    go none false =
        create_unless-Stores tools (tools.fails first) now (suc first) in_ m ds in_.idempotency_key
          (find_row (is_key in_.app_id in_.idempotency_key) db.keys) db refl

-- A Send that succeeds and is no duplicate leaves a message queued under the id of the answer and
-- in the app of the request, and adds to the table of deliveries only pending ones of this
-- message without an attempt.
pub send-queues :
    (tools : Tools) (now first : ℕ) (in_ : SendMessageInput) (db after : Database)
    (r : SendMessageResult)
    → send tools now first in_ db ≡ (ok r, after)
    → r.duplicate ≡ false
    → Queued in_.app_id r.message_id db after
unfolding send
send-queues tools now first in_ db after r h =
    go (check_send (tools.fails first resolving) (with_type in_) db) h
  where
    go :
        (c : Result (List Device))
        → persist_checked tools now first (with_type in_) c db ≡ (ok r, after)
        → Stores in_.app_id db (ok r, after)
    go (err x) q = cc
    go (ok ds) q =
        subst (Stores in_.app_id db) q (persist-Stores tools now first (with_type in_) ds db)
