-- ===== src/Push/Worker.antt =====
-- internal/queue/worker.go: tick, processDelivery, handleError and maybeCompleteMessage. The clock
-- stands still while one delivery is processed; the log and the metrics are left out. Any statement
-- may fail, as all do from the moment on at which Stop cancels the context of a tick.
use Prim.Native.String.{◌++◌ as str_append}
use mgl_communication.Base.{
  ℕ, suc, ◌+◌, ◌==◌, String, Bool, true, false, not, if◌then◌else◌, ltb, leb, Option, none, some,
  List, [], ◌∷◌, Dict, lookup,
}
use mgl_communication.Retry.{delay_for_attempt, should_retry}
use mgl_communication.Push.Types.{Device, Message, Delivery}
use mgl_communication.Push.Devices.{find_device, mark_invalid}
use mgl_communication.Push.Tables.{
  Database, claim_ready, mark_accepted, mark_failed, mark_retrying, count_by_message, has_pending,
  mark_completed, find_message,
}
pub mod Settle
pub mod Completion
pub mod Progress
pub mod Budget

pub record SendResult : Type 0 where
  pub accepted : Bool
  pub provider_message_id : String
  pub retryable : Bool
  pub error_code : String
  pub error_message : String
  pub invalid_token : Bool

pub record ProviderError : Type 0 where
  pub provider : String
  pub code : String
  pub message : String
  pub retryable : Bool
  pub invalid_token : Bool

-- What `Send` of a provider returns: a result that may be nil, or an error.
pub data Outcome : Type 0 where
  returned : Option SendResult → Outcome
  provider_failed : ProviderError → Outcome
  other_failed : String → Outcome

-- The statements for one delivery: two lookups, MarkInvalid, the mark of the delivery, and those
-- of maybeCompleteMessage.
pub data WorkerStep : Type 0 where
  finding_device finding_message invalidating marking completing : WorkerStep

-- What ClaimReady does: its rows are claimed and read, or nothing happens, or the rows are claimed
-- and the worker does not get them.
pub data Claiming : Type 0 where
  rows_read rows_refused rows_lost : Claiming

-- The worker's fields that the steps read, and what the database does in a tick; a provider is its
-- `Send`. `fails` is the text of the error of a statement, and a statement that fails changes
-- nothing.
pub record Worker : Type 0 where
  pub registry : Dict (Message → Device → Outcome)
  pub batch_size : ℕ
  pub max_attempt : ℕ
  pub claims : Claiming
  pub fails : Delivery → WorkerStep → Option String

-- A statement whose error the worker ignores.
abbrev pub ignoring : Option String → (Database → Database) → Database → Database
ignoring none statement db = statement db
ignoring (some text) statement db = db

abbrev pub try_fail : Worker → Delivery → String → String → Database → Database
try_fail w d code text = ignoring (w.fails d marking) (mark_failed d.id code text)

-- ProviderError.Error
abbrev pub error_text : ProviderError → String
error_text e =
    str_append e.provider (str_append ": " (str_append e.code (str_append ": " e.message)))

-- The error of Registry.Get.
abbrev pub not_registered : String → ProviderError
not_registered name = record {
  provider = name;
  code = "PROVIDER_NOT_AVAILABLE";
  message = str_append "provider \"" (str_append name "\" not registered");
  retryable = false;
  invalid_token = false;
}

unfoldable pub maybe_complete_message : ℕ → String → Database → Database
maybe_complete_message now id db =
    let count = count_by_message id db in
    if has_pending id db
    then db
    else if leb count.0 0
    then db
    else if ltb count.1 count.0
    then db
    else mark_completed now id db

abbrev pub try_complete : Worker → ℕ → Delivery → Message → Database → Database
try_complete w now d msg = ignoring (w.fails d completing) (maybe_complete_message now msg.id)

-- The two branches of a failed attempt, shared by processDelivery and handleError.
unfoldable pub retry_or_fail :
    Worker → ℕ → Delivery → Message → Bool → String → String → Database → Database
unfolding maybe_complete_message mark_retrying mark_failed
retry_or_fail w now d msg retryable code text db =
    if should_retry retryable d.attempts w.max_attempt
    then ignoring (w.fails d marking)
        (mark_retrying d.id code text (now + delay_for_attempt (suc d.attempts))) db
    else try_complete w now d msg (try_fail w d code text db)

unfoldable pub fail_invalid :
    Worker → ℕ → Delivery → Device → Message → String → Database → Database
unfolding maybe_complete_message mark_failed
fail_invalid w now d device msg text db = try_complete w now d msg (
    try_fail w d "INVALID_TOKEN" text
      (ignoring (w.fails d invalidating) (mark_invalid now device.id) db))

unfoldable pub handle_error :
    Worker → ℕ → Delivery → Device → Message → Bool → Bool → String → String → Database → Database
handle_error w now d device msg invalid retryable code text db =
    if invalid
    then fail_invalid w now d device msg text db
    else retry_or_fail w now d msg retryable code text db

unfoldable pub take_result :
    Worker → ℕ → Delivery → Device → Message → SendResult → Database → Database
take_result w now d device msg r db =
    if r.invalid_token
    then fail_invalid w now d device msg r.error_message db
    else if not r.accepted
    then retry_or_fail w now d msg r.retryable r.error_code r.error_message db
    else try_complete w now d msg
        (ignoring (w.fails d marking) (mark_accepted now d.id r.provider_message_id) db)

unfoldable pub take_outcome :
    Worker → ℕ → Delivery → Device → Message → Outcome → Database → Database
take_outcome w now d device msg (returned none) db =
    try_complete w now d msg (try_fail w d "INTERNAL_ERROR" "nil result" db)
take_outcome w now d device msg (returned (some r)) db = take_result w now d device msg r db
take_outcome w now d device msg (provider_failed e) db =
    handle_error w now d device msg e.invalid_token e.retryable e.code (error_text e) db
take_outcome w now d device msg (other_failed text) db =
    handle_error w now d device msg false true "PROVIDER_TEMPORARY_ERROR" text db

unfoldable pub send_delivery :
    Worker
    → ℕ
    → Delivery
    → Device
    → Message
    → Option (Message → Device → Outcome)
    → Database
    → Database
send_delivery w now d device msg none db =
    try_complete w now d msg
      (try_fail w d "PROVIDER_NOT_AVAILABLE" (error_text (not_registered d.provider)) db)
send_delivery w now d device msg (some send) db =
    take_outcome w now d device msg (send msg device) db

-- The options are the error of the lookup, and the row it finds when it does not fail.
unfoldable pub deliver_message :
    Worker → ℕ → Delivery → Device → Option String → Option Message → Database → Database
deliver_message w now d device (some text) m db = try_fail w d "MESSAGE_NOT_FOUND" text db
deliver_message w now d device none none db =
    try_fail w d "MESSAGE_NOT_FOUND" "MESSAGE_NOT_FOUND: Message not found" db
deliver_message w now d device none (some msg) db =
    send_delivery w now d device msg (lookup d.provider w.registry) db

unfoldable pub deliver : Worker → ℕ → Delivery → Option String → Option Device → Database → Database
deliver w now d (some text) device db = try_fail w d "DEVICE_NOT_FOUND" text db
deliver w now d none none db =
    try_fail w d "DEVICE_NOT_FOUND" "DEVICE_NOT_FOUND: Device not found" db
deliver w now d none (some device) db =
    deliver_message w now d device (w.fails d finding_message)
      (find_message device.app_id d.message_id db) db

unfoldable pub process_delivery : Worker → ℕ → Delivery → Database → Database
process_delivery w now d db =
    deliver w now d (w.fails d finding_device) (find_device d.device_id db) db

unfoldable pub process_all : Worker → ℕ → List Delivery → Database → Database
process_all w now [] db = db
process_all w now (d ∷ ds) db = process_all w now ds (process_delivery w now d db)

abbrev pub tick_claimed :
    Worker → ℕ → Claiming → List Delivery × List Delivery → Database → Database
tick_claimed w now rows_read rows db = process_all w now rows.0 (record db { deliveries = rows.1 })
tick_claimed w now rows_refused rows db = db
tick_claimed w now rows_lost rows db = record db { deliveries = rows.1 }

unfoldable pub tick : Worker → ℕ → Database → Database
tick w now db = tick_claimed w now w.claims (claim_ready now w.batch_size db.deliveries) db
