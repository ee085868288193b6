-- ===== src/Push/Send.antt =====
-- Send, resolveDevices and enqueueDeliveries, internal/service/message.go. A call
-- draws its ids from `tools.new_id` at the given number and behind it, and the clock stands still
-- within it. Every statement may fail: `tools.fails` says which do, with which error.
use Prim.Native.String.{◌++◌ as str_append}
use mgl_communication.Base.{
  ℕ, suc, ◌+◌, ◌-◌, ◌*◌, ◌/◌, String, Bool, true, false, not, ◌&&◌, ◌||◌, ◌==◌, leb, ltb,
  if◌then◌else◌, Option, none, some, List, [], ◌∷◌, ◌++◌, Dict, insert, is_empty, length, Error,
  invalid_request, Result, ok, err,
}
use mgl_communication.Retry.{second}
use mgl_communication.Push.Types.{
  MessageType, incoming_call, call_cancelled, call_ended, created, pending, Device, Message,
  Delivery, IncomingCall, SendMessageResult, Tools, Statement, resolving, creating, upserting,
  queueing, inserting, is_call_related, type_name,
}
use mgl_communication.Push.Select.{
  filter_devices_for_message, select_provider_for_message, add_unseen,
}
use mgl_communication.Push.Devices.{active_by_user_ids, active_by_installation_ids, upsert_device}
use mgl_communication.Push.Tables.{
  Database, create_message, create_with_message_and_idempotency, insert_delivery, mark_queued,
}
use mgl_communication.Push.Validate.{SendMessageInput, with_type, is_direct, validate_send}
pub mod Dispatch
pub mod Outcome
pub mod Queueing
pub mod Stranding

unfoldable pub resolve_devices : SendMessageInput → Database → List Device
unfolding add_unseen
resolve_devices in_ db =
    add_unseen
      ((if is_empty in_.user_ids then [] else active_by_user_ids in_.app_id in_.user_ids db)
        ++ (if is_empty in_.installation_ids
            then []
            else active_by_installation_ids in_.app_id in_.installation_ids db))
      []

-- enrichEventData
abbrev pub enrich_event_data : Tools → ℕ → Message → Message
enrich_event_data tools now m = record m {
  payload = insert "mgl_timestamp" (tools.format (now / second)) (
      insert "mgl_event_type" (type_name m.type)
        (insert "mgl_event_id" m.id (insert "mgl_message_id" m.id m.payload)));
}

abbrev pub priority_or_default : String → MessageType → String
priority_or_default priority type =
    if priority == "" then (if is_call_related type then "high" else "normal") else priority

unfoldable pub new_message : Tools → ℕ → String → SendMessageInput → Message
unfolding insert
new_message tools now id in_ = enrich_event_data tools now (record {
  id = id;
  type = in_.type;
  title = in_.title;
  body = in_.body;
  payload = in_.payload;
  image_url = in_.image_url;
  priority = priority_or_default in_.priority in_.type;
  ttl_seconds = in_.ttl_seconds;
  collapse_key = in_.collapse_key;
  sound = in_.sound;
  badge = in_.badge;
  deep_link = in_.deep_link;
  category = in_.category;
  app_id = in_.app_id;
  status = created;
  created_at = 0;
  queued_at = none;
  completed_at = none;
})

abbrev pub platform_for_provider : String → String
platform_for_provider p = if p == "apns" || p == "apns_voip" then "ios" else "android"

abbrev pub direct_device : Tools → ℕ → SendMessageInput → Device
direct_device tools first in_ = record {
  id = tools.new_id (suc first);
  user_id = "";
  installation_id = str_append "direct-" (tools.new_id first);
  platform = platform_for_provider in_.provider;
  provider = in_.provider;
  token = in_.token;
  app_id = in_.app_id;
  app_version = "";
  os_version = "";
  device_model = "";
  locale = "";
  timezone = "";
  status = "active";
  created_at = 0;
  updated_at = 0;
  last_seen_at = 0;
}

abbrev pub new_delivery : Tools → ℕ → ℕ → Message → Device → Delivery
new_delivery tools now number m d = record {
  id = tools.new_id number;
  message_id = m.id;
  device_id = d.id;
  provider = select_provider_for_message d m.type;
  status = pending;
  provider_message_id = "";
  error_code = "";
  error_message = "";
  attempts = 0;
  created_at = now;
  sent_at = none;
  next_retry_at = none;
}

unfoldable pub new_deliveries : Tools → ℕ → ℕ → Message → List Device → List Delivery
unfolding select_provider_for_message
new_deliveries tools now number m [] = []
new_deliveries tools now number m (d ∷ ds) =
    new_delivery tools now number m d ∷ new_deliveries tools now (suc number) m ds

-- A statement that fails has changed nothing, and its error ends the Send.
abbrev pub unless_failed {ℓ} :
    {A : Type ℓ} → Option Error → Database → Result A × Database → Result A × Database
unless_failed (some e) db rest = (err e, db)
unless_failed none db rest = rest

-- CreateMany, from the row of this number on: the rows in front of one that fails stay.
unfoldable pub create_many :
    (Statement → Option Error) → ℕ → List Delivery → Database → Result (Unit {0}) × Database
create_many fails number [] db = (ok tt, db)
create_many fails number (d ∷ ds) db =
    let rest = create_many fails (suc number) ds (insert_delivery d db) in
    unless_failed (fails (inserting number)) db rest

abbrev pub queue_inserted :
    Option Error → ℕ → String → Result (Unit {0}) × Database → Result (Unit {0}) × Database
queue_inserted failure now id (err e, db) = (err e, db)
queue_inserted failure now id (ok _, db) = unless_failed failure db (ok tt, mark_queued now id db)

unfoldable pub enqueue_deliveries :
    Tools
    → (Statement → Option Error)
    → ℕ
    → ℕ
    → Message
    → List Device
    → Database
    → Result (Unit {0}) × Database
enqueue_deliveries tools fails now number m devices db =
    let ds = new_deliveries tools now number m (filter_devices_for_message devices m.type) in
    queue_inserted (fails queueing) now m.id (create_many fails 0 ds db)

-- Step 4 of Send, behind a message that is new.
unfoldable pub dispatch :
    Tools
    → (Statement → Option Error)
    → ℕ
    → ℕ
    → SendMessageInput
    → Message
    → List Device
    → Database
    → Result (Unit {0}) × Database
dispatch tools fails now first in_ m devices db =
    let direct = upsert_device now (direct_device tools first in_) db in
    if is_direct in_
    then unless_failed (fails upserting) db
        (enqueue_deliveries tools fails now (suc (suc first)) m (direct.0 ∷ []) direct.1)
    else enqueue_deliveries tools fails now first m devices db

abbrev pub sent : String → Bool → Result SendMessageResult
sent id duplicate = ok (record { message_id = id; accepted = true; duplicate = duplicate })

abbrev pub sent_unless : String → Result (Unit {0}) × Database → Result SendMessageResult × Database
sent_unless id (ok _, db) = (sent id false, db)
sent_unless id (err e, db) = (err e, db)

abbrev pub dispatch_if_new :
    Tools
    → (Statement → Option Error)
    → ℕ
    → ℕ
    → SendMessageInput
    → Message
    → List Device
    → (String × Bool) × Database
    → Result SendMessageResult × Database
dispatch_if_new tools fails now first in_ m devices ((id, false), db) = (sent id true, db)
dispatch_if_new tools fails now first in_ m devices ((id, true), db) =
    sent_unless id (dispatch tools fails now first in_ (record m { id = id }) devices db)

-- Steps 2 to 4 of Send.
unfoldable pub persist :
    Tools → ℕ → ℕ → SendMessageInput → List Device → Database → Result SendMessageResult × Database
persist tools now first in_ devices db =
    let m = new_message tools now (tools.new_id first) in_ in
    unless_failed (tools.fails first creating) db (
      dispatch_if_new tools (tools.fails first) now (suc first) in_ m devices (
        if in_.idempotency_key == ""
        then ((m.id, true), create_message now m db)
        else create_with_message_and_idempotency now m in_.idempotency_key db))

-- The checks of Send: the devices of a request that is taken. The option is the error of the
-- statements of resolveDevices.
unfoldable pub check_send : Option Error → SendMessageInput → Database → Result (List Device)
check_send failure in_ db = check_devices (validate_send in_) failure (resolve_devices in_ db)
  where
    check_devices : Option Error → Option Error → List Device → Result (List Device)
    check_devices (some e) failure devices = err e
    check_devices none (some e) devices = err e
    check_devices none none devices =
        if is_empty devices && in_.provider == ""
        then err (invalid_request "no active devices found for targets")
        else ok devices

abbrev pub persist_checked :
    Tools
    → ℕ
    → ℕ
    → SendMessageInput
    → Result (List Device)
    → Database
    → Result SendMessageResult × Database
persist_checked tools now first in_ (err e) db = (err e, db)
persist_checked tools now first in_ (ok devices) db = persist tools now first in_ devices db

unfoldable pub send :
    Tools → ℕ → ℕ → SendMessageInput → Database → Result SendMessageResult × Database
send tools now first in_ db =
    persist_checked tools now first (with_type in_)
      (check_send (tools.fails first resolving) (with_type in_) db) db
