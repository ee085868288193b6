-- ===== src/Push/Tests.antt =====
-- Push messages at concrete inputs.
use mgl_communication.Base.{
  ◌==◌, String-discrete, text_ne, ℕ, zero, suc, String, Bool, true, false, if◌then◌else◌, none,
  some, List, [], ◌∷◌, All, Some, ◌≡◌, refl, ◌≢◌, ◌⊎◌, inl, inr, arith, Error, invalid_request, ok,
  lookup, insert,
}
use mgl_communication.Retry.{should_retry, delay_for_attempt}
use mgl_communication.Push.Types.{
  unset, notification, incoming_call, pending, sending, retrying, created, Device, Message,
  Delivery, Tools, Statement, queueing, SendMessageResult,
}
use mgl_communication.Push.Select.{install_key, filter_devices_for_message, is_voip}
use mgl_communication.Push.Select.Installations.{filter_devices-serves, filter_devices-prefers}
use mgl_communication.Push.Tables.{
  claim_ready, find_row, create_with_message_and_idempotency, create_message, mark_queued, Database,
  mark_completed,
}
use mgl_communication.Push.Validate.{validate_send, SendMessageInput, with_type}
use mgl_communication.Push.Calls.{
  SendIncomingCallInput, send_incoming_call, incoming_call_message, incoming_call_data,
}
use mgl_communication.Push.Calls.Repeats.{send_incoming_call-Repeated}
use mgl_communication.Push.Devices.{is_installation, mark_invalid}
use mgl_communication.Push.Registration.{unregister}
use mgl_communication.Push.Registration.Retired.{
  resolve_devices-unregister, resolve_devices-mark_invalid,
}
use mgl_communication.Push.Send.{
  resolve_devices, persist, new_message, dispatch, enqueue_deliveries, create_many, new_deliveries,
  send, check_send,
}
use mgl_communication.Push.Send.Outcome.{send-idempotent, Repeated}
use mgl_communication.Push.Send.Queueing.{send-queues, Queued}
use mgl_communication.Push.Worker.{
  process_all, deliver, deliver_message, send_delivery, take_outcome, handle_error, retry_or_fail,
  Worker, rows_read, other_failed, process_delivery, tick, maybe_complete_message,
}
use mgl_communication.Push.Worker.Settle.{Processed, process_delivery-Settles}
use mgl_communication.Push.Worker.Completion.{maybe_complete_message-completes, Done}
use mgl_communication.Push.Worker.Progress.{tick-settles}
use mgl_communication.Push.Worker.Budget.{WithinBudget, tick-WithinBudget}

abbrev ids : ℕ → String
ids zero = "id-0"
ids (suc zero) = "id-1"
ids (suc (suc zero)) = "id-2"
ids (suc (suc (suc n))) = "id-3"

abbrev tools : Tools
tools = record { new_id = ids; format = λ n. "0"; fails = λ n s. none }

abbrev token : String → String → Device
token id provider = record {
  id = id;
  user_id = "ann";
  installation_id = "phone";
  platform = "ios";
  provider = provider;
  token = "t";
  app_id = "app";
  app_version = "";
  os_version = "";
  device_model = "";
  locale = "";
  timezone = "";
  status = "active";
  created_at = 0;
  updated_at = 0;
  last_seen_at = 0;
}

abbrev both : List Device
both = token "d1" "apns" ∷ token "d2" "apns_voip" ∷ []

filter_devices-serves_example :
    Some
      (λ e. install_key e ≡ install_key (token "d1" "apns"))
      (filter_devices_for_message both incoming_call)
filter_devices-serves_example =
    filter_devices-serves both incoming_call (token "d1" "apns") (inl refl)

filter_devices-prefers_example :
    All
      (λ d. (install_key d ≢ "app|phone") ⊎ (is_voip d ≡ true))
      (filter_devices_for_message both incoming_call)
unfolding install_key String-discrete
filter_devices-prefers_example =
    filter_devices-prefers both incoming_call "app|phone" refl (inr (inl refl))

abbrev hello : Message
hello = record {
  id = "m";
  type = notification;
  title = "hi";
  body = "";
  payload = [];
  image_url = "";
  priority = "normal";
  ttl_seconds = none;
  collapse_key = "";
  sound = "";
  badge = none;
  deep_link = "";
  category = "";
  app_id = "app";
  status = created;
  created_at = 0;
  queued_at = none;
  completed_at = none;
}

abbrev delivery : Delivery
delivery = record {
  id = "x";
  message_id = "m";
  device_id = "d1";
  provider = "apns";
  status = pending;
  provider_message_id = "";
  error_code = "";
  error_message = "";
  attempts = 0;
  created_at = 0;
  sent_at = none;
  next_retry_at = none;
}

abbrev store : Database
store = record { keys = []; devices = both; messages = hello ∷ []; deliveries = delivery ∷ [] }

abbrev worker : Worker
worker = record {
  registry = ("apns", λ m d. other_failed "timeout") ∷ [];
  batch_size = 10;
  max_attempt = 5;
  claims = rows_read;
  fails = λ d s. none;
}

-- A provider that cannot be reached: after the first attempt the next one is due in five seconds.
tick_retries :
    (tick worker 7 store).deliveries
    ≡ record delivery {
      status = retrying;
      attempts = 1;
      error_code = "PROVIDER_TEMPORARY_ERROR";
      error_message = "timeout";
      next_retry_at = some 5000000007;
    }
      ∷ []
unfolding tick lookup process_all claim_ready process_delivery deliver find_row String-discrete
    deliver_message send_delivery take_outcome handle_error retry_or_fail should_retry
    delay_for_attempt
tick_retries = refl

-- The context is cancelled while the provider is asked: the delivery stays in the state sending, and
-- a later tick does not claim it.
abbrev cut : Worker
cut = record worker { fails = λ d s. some "context canceled" }

abbrev cut_off : Database
cut_off = tick cut 7 store

tick_cut_off : cut_off.deliveries ≡ record delivery { status = sending; attempts = 1 } ∷ []
unfolding tick process_all claim_ready process_delivery deliver
tick_cut_off = refl

tick_does_not_resume : (tick worker 9 cut_off).deliveries ≡ cut_off.deliveries
unfolding tick process_all claim_ready process_delivery deliver
tick_does_not_resume = refl

process_delivery-Settles_example :
    Processed worker 7 delivery store (process_delivery worker 7 delivery store)
process_delivery-Settles_example = process_delivery-Settles worker 7 delivery store

tick-settles_example : All (λ r. r.status ≢ sending) (tick worker 7 store).deliveries
tick-settles_example = tick-settles worker 7 store ((λ e. cc), tt) (λ e. cc) (λ d. refl)

tick-WithinBudget_example : All (WithinBudget 5) (tick worker 7 store).deliveries
tick-WithinBudget_example =
    tick-WithinBudget worker 7 store (tt, tt) ((omega arith, λ e. omega arith), tt)

-- The message of a pending delivery is not complete.
maybe_complete_message-completes_example :
    (Done "m" store → maybe_complete_message 7 "m" store ≡ mark_completed 7 "m" store)
    × (¬ Done "m" store → maybe_complete_message 7 "m" store ≡ store)
maybe_complete_message-completes_example = maybe_complete_message-completes 7 "m" store

abbrev request : SendMessageInput
request = record {
  app_id = "app";
  type = unset;
  user_ids = "ann" ∷ [];
  installation_ids = [];
  provider = "";
  token = "";
  title = "hi";
  body = "";
  payload = [];
  image_url = "";
  priority = "";
  ttl_seconds = none;
  collapse_key = "";
  sound = "";
  badge = none;
  deep_link = "";
  category = "";
  idempotency_key = "k";
}

abbrev after : Database
after = (send tools 7 0 request store).1

abbrev answer : SendMessageResult
answer = record { message_id = "id-0"; accepted = true; duplicate = false }

send_answers : send tools 7 0 request store ≡ (ok answer, after)
unfolding String-discrete send check_send validate_send resolve_devices persist
    create_with_message_and_idempotency find_row new_message dispatch enqueue_deliveries create_many
    new_deliveries filter_devices_for_message lookup install_key
send_answers = refl

send-queues_example : Queued "app" "id-0" store after
send-queues_example = send-queues tools 7 0 request store after answer send_answers refl

check_again : check_send none (with_type request) after ≡ ok both
unfolding String-discrete send check_send validate_send resolve_devices persist
    create_with_message_and_idempotency find_row new_message dispatch enqueue_deliveries create_many
    new_deliveries filter_devices_for_message lookup install_key insert mark_queued create_message
check_again = refl

send-idempotent_example :
    send tools 9 1 request after
    ≡ (ok (record { message_id = "id-0"; accepted = true; duplicate = true }), after)
send-idempotent_example =
    send-idempotent tools 7 9 0 1 request request store after answer both (text_ne "k" "" refl) refl
      refl send_answers check_again refl

abbrev gone : Error
gone = invalid_request "connection closed"

abbrev is_queueing : Statement → Bool
is_queueing queueing = true
is_queueing s = false

-- The database is gone before the message is marked as queued.
abbrev failing : Tools
failing = record tools { fails = λ n s. if is_queueing s then some gone else none }

abbrev left : Database
left = (send failing 7 0 request store).1

-- The retry with the same key is answered as a duplicate, and the message stays as it is.
send_lost :
    send tools 9 1 request left
    ≡ (ok (record { message_id = "id-0"; accepted = true; duplicate = true }), left)
unfolding String-discrete send check_send validate_send resolve_devices persist
    create_with_message_and_idempotency find_row new_message dispatch enqueue_deliveries create_many
    new_deliveries filter_devices_for_message lookup install_key insert create_message
send_lost = refl

abbrev ring : SendIncomingCallInput
ring = record {
  app_id = "app";
  user_ids = "ann" ∷ [];
  installation_ids = [];
  call = record {
    call_id = "c";
    caller_id = "bob";
    callee_id = "ann";
    media_type = "";
    caller_name = "";
    timestamp = none;
    expires_at = none;
  };
  idempotency_key = "";
}

abbrev rung : Database
rung = (send_incoming_call tools 7 0 ring store).1

ring_answers : send_incoming_call tools 7 0 ring store ≡ (ok answer, rung)
unfolding send_incoming_call incoming_call_message incoming_call_data String-discrete send
    check_send validate_send resolve_devices persist create_with_message_and_idempotency find_row
    new_message dispatch enqueue_deliveries create_many new_deliveries filter_devices_for_message
    lookup install_key
ring_answers = refl

send_incoming_call-Repeated_example : Repeated "id-0" rung (send_incoming_call tools 9 1 ring rung)
send_incoming_call-Repeated_example =
    send_incoming_call-Repeated tools 7 9 0 1 ring ring store rung answer refl refl ring_answers

resolve_devices-unregister_example :
    All
      (λ d. is_installation "app" "phone" d ≡ false)
      (resolve_devices request (unregister 9 "app" "phone" store).1)
resolve_devices-unregister_example =
    resolve_devices-unregister 9 "app" "phone" request store (text_ne "phone" "" refl)

invalid_not_found :
    All (λ d. (d.id == "d1") ≡ false) (resolve_devices request (mark_invalid 9 "d1" store))
invalid_not_found = resolve_devices-mark_invalid 9 "d1" request store
