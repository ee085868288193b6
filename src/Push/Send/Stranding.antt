-- ===== src/Push/Send/Stranding.antt =====
-- What a Send leaves when it ends behind the creation of its message, internal/service/message.go.
use mgl_communication.Base.{
  Bool, true, false, ◌==◌, if◌then◌else◌, Error, List, sym, ℕ, suc, String, Option, none, some, [],
  ◌∷◌, ◌++◌, ◌≡◌, refl, ◌∙◌, ap, ◌⊎◌, inl, inr, arith, Result, ok, err, All,
}
use mgl_communication.Push.Types.{
  created, Device, Message, Delivery, SendMessageResult, Tools, Statement, creating, resolving,
}
use mgl_communication.Push.Tables.{
  Database, IdempotencyKey, is_key, find_row, create_unless, create_message, stored_ttl,
  create_with_message_and_idempotency, mark_queued, type_or_notification,
}
use mgl_communication.Push.Validate.{with_type, SendMessageInput}
use mgl_communication.Push.Send.{
  send, persist_checked, check_send, new_message, dispatch_if_new, persist, sent_unless,
  unless_failed,
}
use mgl_communication.Push.Send.Dispatch.{
  IsFresh, Dispatched, stopped, finished, dispatch-Dispatched,
}

find_row-append :
    (p : IdempotencyKey → Bool) (ks : List IdempotencyKey) (k : IdempotencyKey)
    → find_row p ks ≡ none
    → p k ≡ true
    → find_row p (ks ++ k ∷ []) ≡ some k
unfolding find_row
find_row-append p [] k n h = ground arith
find_row-append p (j ∷ ks) k n h = ground (arith, find_row-append p ks k)

-- The table binds the key to the message.
abbrev pub Bound : String → String → String → Database → Type 0
Bound app_id key id db =
    (k : IdempotencyKey) × (find_row (is_key app_id key) db.keys ≡ some k) × (k.message_id ≡ id)

Bound-keys :
    (app_id key id : String) (db after : Database)
    → after.keys ≡ db.keys
    → Bound app_id key id db
    → Bound app_id key id after
Bound-keys app_id key id db after e (k, f, i) = (k, ap (find_row (is_key app_id key)) e ∙ f, i)

is_key_self :
    (app_id key id : String)
    → is_key app_id key (record { app_id = app_id; key = key; message_id = id }) ≡ true
is_key_self app_id key id = ground arith

-- The row that create stores.
abbrev stored : ℕ → Message → Message
stored now m = record m {
  priority = if m.priority == "" then "normal" else m.priority;
  type = type_or_notification m.type;
  ttl_seconds = stored_ttl m.ttl_seconds;
  created_at = now;
}

-- The message is stored and was not queued; its key, if the request has one, is bound to it, and
-- nothing else has changed in the tables but the devices and some fresh deliveries of it.
abbrev pub Stranded : SendMessageInput → Database → Database → Type 0
Stranded in_ db after =
    (m : Message) × (after.messages ≡ db.messages ++ m ∷ [])
    × (m.status ≡ created)
    × (m.app_id ≡ in_.app_id)
    × (ds : List Delivery) × (after.deliveries ≡ db.deliveries ++ ds)
    × All (IsFresh m.id) ds
    × ((in_.idempotency_key ≡ "") ⊎ Bound in_.app_id in_.idempotency_key m.id after)

-- The answer of a Send that found or stored the message of the key: the message is bound to it
-- if there is a key, and an error has left it stranded.
abbrev pub Ends : SendMessageInput → Database → Result SendMessageResult × Database → Type 0
Ends in_ db (ok r, after) =
    (in_.idempotency_key ≡ "") ⊎ Bound in_.app_id in_.idempotency_key r.message_id after
Ends in_ db (err e, after) = (after ≡ db) ⊎ Stranded in_ db after

sent_unless-Ends :
    (now : ℕ) (in_ : SendMessageInput) (m : Message) (db mid : Database)
    (r : Result (Unit {0}) × Database)
    → mid.messages ≡ db.messages ++ stored now m ∷ []
    → mid.deliveries ≡ db.deliveries
    → m.status ≡ created
    → m.app_id ≡ in_.app_id
    → (in_.idempotency_key ≡ "") ⊎ Bound in_.app_id in_.idempotency_key m.id mid
    → Dispatched now m.id mid r
    → Ends in_ db (sent_unless m.id r)
unfolding mark_queued
sent_unless-Ends now in_ m db mid _ ms ds s a (inl k) (finished last f) = inl k
sent_unless-Ends now in_ m db mid _ ms ds s a (inr k) (finished last f) =
    inr (Bound-keys in_.app_id in_.idempotency_key m.id mid (mark_queued now m.id last) f.0 k)
sent_unless-Ends now in_ m db mid _ ms ds s a k (stopped e after (ks, fs, es, d, fresh)) =
    inr (stored now m, fs ∙ ms, s, a, es, d ∙ ap (λ x. x ++ es) ds, fresh, kept k)
  where
    kept :
        (in_.idempotency_key ≡ "") ⊎ Bound in_.app_id in_.idempotency_key m.id mid
        → (in_.idempotency_key ≡ "") ⊎ Bound in_.app_id in_.idempotency_key m.id after
    kept (inl x) = inl x
    kept (inr x) = inr (Bound-keys in_.app_id in_.idempotency_key m.id mid after ks x)

-- Steps 3 and 4 of a Send with a key.
create_unless-Ends :
    (tools : Tools) (fails : Statement → Option Error) (now first : ℕ) (in_ : SendMessageInput)
    (m : Message) (ds : List Device) (o : Option IdempotencyKey) (db : Database)
    → m.status ≡ created
    → m.app_id ≡ in_.app_id
    → find_row (is_key in_.app_id in_.idempotency_key) db.keys ≡ o
    → Ends in_ db (
        dispatch_if_new tools fails now first in_ m ds
          (create_unless now m in_.idempotency_key o db))
unfolding create_message
create_unless-Ends tools fails now first in_ m ds (some k) db s a f = inr (k, f, refl)
create_unless-Ends tools fails now first in_ m ds none db s a f =
    let k : IdempotencyKey = record {
      app_id = m.app_id;
      key = in_.idempotency_key;
      message_id = m.id;
    } in
    let mid = (create_unless now m in_.idempotency_key none db).1 in
    sent_unless-Ends now in_ m db mid _ refl refl s a
      (inr (
        k,
        find_row-append (is_key in_.app_id in_.idempotency_key) db.keys k f (
            ap (λ x. is_key x in_.idempotency_key k) (sym a)
            ∙ is_key_self m.app_id in_.idempotency_key m.id),
        refl,
      ))
      (dispatch-Dispatched tools fails now first in_ m ds mid)

persist-Ends :
    (tools : Tools) (now first : ℕ) (in_ : SendMessageInput) (ds : List Device) (db : Database)
    → Ends in_ db (persist tools now first in_ ds db)
unfolding persist new_message create_with_message_and_idempotency create_message
persist-Ends tools now first in_ ds db =
    go (tools.fails first creating) (in_.idempotency_key == "") refl
  where
    m : Message
    m = new_message tools now (tools.new_id first) in_

    keyed : (String × Bool) × Database
    keyed = create_with_message_and_idempotency now m in_.idempotency_key db

    go :
        (o : Option Error) (b : Bool)
        → (in_.idempotency_key == "") ≡ b
        → Ends in_ db (
            unless_failed o db (
              dispatch_if_new tools
                (tools.fails first)
                now
                (suc first)
                in_
                m
                ds
                (if b then ((m.id, true), create_message now m db) else keyed)))
    go (some e) b k = inl refl
    go none true k =
        sent_unless-Ends now in_ m db (create_message now m db) _ refl refl refl refl
          (inl (ground (arith, k)))
          (dispatch-Dispatched tools (tools.fails first) now (suc first) in_ m ds
            (create_message now m db))
    go none false k =
        create_unless-Ends tools (tools.fails first) now (suc first) in_ m ds
          (find_row (is_key in_.app_id in_.idempotency_key) db.keys) db refl refl refl

pub send-Ends :
    (tools : Tools) (now first : ℕ) (in_ : SendMessageInput) (db : Database)
    → Ends (with_type in_) db (send tools now first in_ db)
      ⊎ ((e : Error) × (send tools now first in_ db ≡ (err e, db)))
unfolding send
send-Ends tools now first in_ db = go (check_send (tools.fails first resolving) (with_type in_) db)
  where
    go :
        (c : Result (List Device))
        → Ends (with_type in_) db (persist_checked tools now first (with_type in_) c db)
          ⊎ ((e : Error) × (persist_checked tools now first (with_type in_) c db ≡ (err e, db)))
    go (err e) = inr (e, refl)
    go (ok ds) = inl (persist-Ends tools now first (with_type in_) ds db)
