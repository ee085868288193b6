-- ===== src/Push/Tables.antt =====
-- The tables, and the statements of internal/repository/delivery.go and message.go. A table is the
-- list of its rows; that of the deliveries is in the order of created_at. A statement that fails has
-- changed nothing: which ones do is up to their callers. A NULL text is the empty string, as
-- `deref` reads it.
use mgl_communication.Base.{
  ◌++◌, ℕ, zero, suc, String, Bool, true, false, ◌&&◌, ◌||◌, ◌==◌, leb, ltb, if◌then◌else◌, Option,
  none, some, List, [], ◌∷◌, map, length, keep_if,
}
use mgl_communication.Push.Types.{
  MessageType, unset, notification, queued, completed, DeliveryStatus, pending, sending, accepted,
  delivered, opened, failed, retrying, Device, Message, Delivery,
}

-- A row of idempotency_keys.
pub record IdempotencyKey : Type 0 where
  pub app_id : String
  pub key : String
  pub message_id : String

pub record Database : Type 0 where
  pub keys : List IdempotencyKey
  pub devices : List Device
  pub messages : List Message
  pub deliveries : List Delivery

-- status IN ('pending', 'retrying')
abbrev pub is_waiting : DeliveryStatus → Bool
is_waiting pending = true
is_waiting retrying = true
is_waiting _ = false

-- status IN ('pending', 'sending', 'retrying')
abbrev pub is_open : DeliveryStatus → Bool
is_open pending = true
is_open sending = true
is_open retrying = true
is_open _ = false

-- status IN ('accepted', 'failed', 'delivered', 'opened')
abbrev pub is_final : DeliveryStatus → Bool
is_final accepted = true
is_final failed = true
is_final delivered = true
is_final opened = true
is_final _ = false

-- next_retry_at IS NULL OR next_retry_at <= now
abbrev pub is_due : ℕ → Option ℕ → Bool
is_due now none = true
is_due now (some at) = leb at now

abbrev pub is_ready : ℕ → Delivery → Bool
is_ready now d = is_waiting d.status && is_due now d.next_retry_at

abbrev pub claim : Delivery → Delivery
claim d = record d { status = sending; attempts = suc d.attempts }

-- Claims the row if it may be, in front of what was claimed and left of the rows behind it.
abbrev pub claim_if :
    Bool → Delivery → List Delivery × List Delivery → List Delivery × List Delivery
claim_if true d rest = (claim d ∷ rest.0, claim d ∷ rest.1)
claim_if false d rest = (rest.0, d ∷ rest.1)

-- What ClaimReady returns, and the table behind it.
unfoldable pub claim_ready : ℕ → ℕ → List Delivery → List Delivery × List Delivery
claim_ready now limit [] = ([], [])
claim_ready now zero (d ∷ ds) = ([], d ∷ ds)
claim_ready now (suc limit) (d ∷ ds) =
    claim_if (is_ready now d) d (claim_ready now (if is_ready now d then limit else suc limit) ds)

-- UPDATE push_deliveries SET ... WHERE id = $1
abbrev pub edit_delivery : String → (Delivery → Delivery) → Delivery → Delivery
edit_delivery id edit d = if d.id == id then edit d else d

abbrev pub update_delivery : String → (Delivery → Delivery) → Database → Database
update_delivery id edit db = record db { deliveries = map (edit_delivery id edit) db.deliveries }

unfoldable pub mark_accepted : ℕ → String → String → Database → Database
mark_accepted now id provider_message_id = update_delivery id λ d. record d {
  status = accepted;
  provider_message_id = provider_message_id;
  sent_at = some now;
  error_code = "";
  error_message = "";
  next_retry_at = none;
}

unfoldable pub mark_failed : String → String → String → Database → Database
mark_failed id code message = update_delivery id λ d. record d {
  status = failed;
  error_code = code;
  error_message = message;
  next_retry_at = none;
}

unfoldable pub mark_retrying : String → String → String → ℕ → Database → Database
mark_retrying id code message next = update_delivery id λ d. record d {
  status = retrying;
  error_code = code;
  error_message = message;
  next_retry_at = some next;
}

abbrev pub is_of : String → Delivery → Bool
is_of message_id d = d.message_id == message_id

-- The pair of CountByMessage: all deliveries of the message, and those that are final.
unfoldable pub count_by_message : String → Database → ℕ × ℕ
count_by_message message_id db = (
  length (keep_if (is_of message_id) db.deliveries),
  length (keep_if (λ d. is_of message_id d && is_final d.status) db.deliveries),
)

unfoldable pub has_pending : String → Database → Bool
has_pending message_id db =
    ltb 0 (length (keep_if (λ d. is_of message_id d && is_open d.status) db.deliveries))

abbrev pub edit_message : String → (Message → Message) → Message → Message
edit_message id edit m = if m.id == id then edit m else m

abbrev pub completed_now : ℕ → Message → Message
completed_now now m = record m { status = completed; completed_at = some now }

unfoldable pub mark_completed : ℕ → String → Database → Database
mark_completed now id db = record db {
  messages = map (edit_message id (completed_now now)) db.messages;
}

-- The SELECT of FindByID for messages, with its two forms.
abbrev pub is_message : String → String → Message → Bool
is_message app_id id m = m.id == id && (app_id == "" || m.app_id == app_id)

unfoldable pub find_row {ℓ} : {A : Type ℓ} → (A → Bool) → List A → Option A
find_row p [] = none
find_row p (x ∷ xs) = if p x then some x else find_row p xs

abbrev pub find_message : String → String → Database → Option Message
find_message app_id id db = find_row (is_message app_id id) db.messages

-- A time to live of zero is not stored.
abbrev pub stored_ttl : Option ℕ → Option ℕ
stored_ttl none = none
stored_ttl (some s) = if ltb 0 s then some s else none

abbrev pub type_or_notification : MessageType → MessageType
type_or_notification unset = notification
type_or_notification type = type

unfoldable pub create_message : ℕ → Message → Database → Database
create_message now m db = record db {
  messages =
      db.messages
      ++ record m {
        priority = if m.priority == "" then "normal" else m.priority;
        type = type_or_notification m.type;
        ttl_seconds = stored_ttl m.ttl_seconds;
        created_at = now;
      }
        ∷ [];
}

abbrev pub is_key : String → String → IdempotencyKey → Bool
is_key app_id key k = k.app_id == app_id && k.key == key

abbrev pub create_unless :
    ℕ → Message → String → Option IdempotencyKey → Database → (String × Bool) × Database
create_unless now m key (some k) db = ((k.message_id, false), db)
create_unless now m key none db =
    let created = create_message now m db in
    (
      (m.id, true),
      record created {
        keys = db.keys ++ record { app_id = m.app_id; key = key; message_id = m.id } ∷ [];
      },
    )

unfoldable pub create_with_message_and_idempotency :
    ℕ → Message → String → Database → (String × Bool) × Database
create_with_message_and_idempotency now m key db =
    create_unless now m key (find_row (is_key m.app_id key) db.keys) db

-- The INSERT of CreateMany.
abbrev pub insert_delivery : Delivery → Database → Database
insert_delivery d db = record db { deliveries = db.deliveries ++ d ∷ [] }

abbrev pub queued_now : ℕ → Message → Message
queued_now now m = record m { status = queued; queued_at = some now }

unfoldable pub mark_queued : ℕ → String → Database → Database
mark_queued now id db = record db { messages = map (edit_message id (queued_now now)) db.messages }
