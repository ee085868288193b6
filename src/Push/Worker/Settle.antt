-- ===== src/Push/Worker/Settle.antt =====
-- What a step of the worker does to the deliveries.
use mgl_communication.Base.{
  ℕ, suc, ◌+◌, ◌<◌, String, Bool, true, false, if◌then◌else◌, Option, none, some, map, ◌≡◌, refl,
  ◌⊎◌, inl, inr, arith, lookup, ◌∙◌, ap,
}
use mgl_communication.Retry.{delay_for_attempt, should_retry}
use mgl_communication.Push.Types.{Device, Message, Delivery, accepted, failed, retrying}
use mgl_communication.Push.Devices.{find_device, mark_invalid}
use mgl_communication.Push.Tables.{
  Database, mark_accepted, mark_failed, mark_retrying, mark_completed, edit_delivery, find_message,
  update_delivery,
}
use mgl_communication.Push.Worker.{
  Worker, Outcome, returned, provider_failed, other_failed, SendResult, maybe_complete_message,
  retry_or_fail, fail_invalid, handle_error, take_result, take_outcome, send_delivery,
  deliver_message, deliver, process_delivery, try_fail, try_complete, ignoring, marking,
  invalidating, finding_device, finding_message,
}

-- A settled row: the provider has taken it, it has failed for good, or an attempt is left and the
-- next one is due after the delay for it.
abbrev pub Settled : Worker → ℕ → Delivery → Delivery → Type 0
Settled w now d r =
    (r.status ≡ accepted)
    ⊎ (r.status ≡ failed)
    ⊎ ((r.status ≡ retrying)
        × (d.attempts < w.max_attempt)
        × (r.next_retry_at ≡ some (now + delay_for_attempt (suc d.attempts))))

-- Every row with the id is changed into a settled one that keeps what the worker does not write.
abbrev pub Written : Worker → ℕ → Delivery → (Delivery → Delivery) → Type 0
Written w now d edit =
    (r : Delivery)
    → Settled w now d (edit r) × ((edit r).id ≡ r.id) × ((edit r).attempts ≡ r.attempts)

abbrev pub Settles : Worker → ℕ → Delivery → Database → Database → Type 0
Settles w now d db after =
    (edit : Delivery → Delivery) × Written w now d edit
    × (after.deliveries ≡ map (edit_delivery d.id edit) db.deliveries)

-- The mark of the delivery settles it, unless the mark fails: then no delivery changes.
abbrev pub SettlesUnless : Option String → Worker → ℕ → Delivery → Database → Database → Type 0
SettlesUnless none w now d db after = Settles w now d db after
SettlesUnless (some text) w now d db after = after.deliveries ≡ db.deliveries

abbrev pub Processed : Worker → ℕ → Delivery → Database → Database → Type 0
Processed w now d = SettlesUnless (w.fails d marking) w now d

complete-deliveries :
    (w : Worker) (now : ℕ) (d : Delivery) (msg : Message) (db : Database)
    → (try_complete w now d msg db).deliveries ≡ db.deliveries
unfolding maybe_complete_message mark_completed
complete-deliveries w now d msg db = ground arith

SettlesUnless-deliveries :
    (o : Option String) (w : Worker) (now : ℕ) (d : Delivery) (db before after last : Database)
    → before.deliveries ≡ db.deliveries
    → last.deliveries ≡ after.deliveries
    → SettlesUnless o w now d before after
    → SettlesUnless o w now d db last
SettlesUnless-deliveries none w now d db before after last b l (edit, f, e) =
    (edit, f, l ∙ e ∙ ap (map (edit_delivery d.id edit)) b)
SettlesUnless-deliveries (some text) w now d db before after last b l e = l ∙ e ∙ b

marked-SettlesUnless :
    (o : Option String) (w : Worker) (now : ℕ) (d : Delivery) (edit : Delivery → Delivery)
    (db : Database)
    → Written w now d edit
    → SettlesUnless o w now d db (ignoring o (update_delivery d.id edit) db)
marked-SettlesUnless none w now d edit db f = (edit, f, refl)
marked-SettlesUnless (some text) w now d edit db f = refl

fail-Settles :
    (w : Worker) (now : ℕ) (d : Delivery) (code text : String) (db : Database)
    → Processed w now d db (try_fail w d code text db)
unfolding mark_failed
fail-Settles w now d code text db =
    marked-SettlesUnless (w.fails d marking) w now d _ db (λ r. (inr (inl refl), refl, refl))

complete-Settles :
    (w : Worker) (now : ℕ) (d : Delivery) (msg : Message) (db after : Database)
    → Processed w now d db after
    → Processed w now d db (try_complete w now d msg after)
complete-Settles w now d msg db after =
    SettlesUnless-deliveries (w.fails d marking) w now d db db after
      (try_complete w now d msg after) refl (complete-deliveries w now d msg after)

fail_complete-Settles :
    (w : Worker) (now : ℕ) (d : Delivery) (msg : Message) (code text : String) (db : Database)
    → Processed w now d db (try_complete w now d msg (try_fail w d code text db))
fail_complete-Settles w now d msg code text db =
    complete-Settles w now d msg db (try_fail w d code text db) (fail-Settles w now d code text db)

accept-Settles :
    (w : Worker) (now : ℕ) (d : Delivery) (msg : Message) (provider_id : String) (db : Database)
    → Processed w now d db (
        try_complete w now d msg
          (ignoring (w.fails d marking) (mark_accepted now d.id provider_id) db))
unfolding mark_accepted
accept-Settles w now d msg provider_id db =
    complete-Settles w now d msg db
      (ignoring (w.fails d marking) (mark_accepted now d.id provider_id) db)
      (marked-SettlesUnless (w.fails d marking) w now d _ db (λ r. (inl refl, refl, refl)))

retry-Settles :
    (w : Worker) (now : ℕ) (d : Delivery) (code text : String) (db : Database)
    → d.attempts < w.max_attempt
    → Processed w now d db (
        ignoring
          (w.fails d marking)
          (mark_retrying d.id code text (now + delay_for_attempt (suc d.attempts)))
          db)
unfolding mark_retrying
retry-Settles w now d code text db l =
    marked-SettlesUnless (w.fails d marking) w now d _ db
      (λ r. (inr (inr (refl, l, refl)), refl, refl))

should_retry-below :
    (retryable : Bool) (attempts max : ℕ)
    → should_retry retryable attempts max ≡ true
    → attempts < max
unfolding should_retry
should_retry-below retryable attempts max h = ground arith

retry_or_fail-Settles :
    (w : Worker) (now : ℕ) (d : Delivery) (msg : Message) (retryable : Bool) (code text : String)
    (db : Database)
    → Processed w now d db (retry_or_fail w now d msg retryable code text db)
unfolding retry_or_fail
retry_or_fail-Settles w now d msg retryable code text db =
    go (should_retry retryable d.attempts w.max_attempt) refl
  where
    go :
        (b : Bool)
        → should_retry retryable d.attempts w.max_attempt ≡ b
        → Processed w now d db (
            if b
            then ignoring
                (w.fails d marking)
                (mark_retrying d.id code text (now + delay_for_attempt (suc d.attempts)))
                db
            else try_complete w now d msg (try_fail w d code text db))
    go true e =
        retry-Settles w now d code text db (should_retry-below retryable d.attempts w.max_attempt e)
    go false e = fail_complete-Settles w now d msg code text db

ignoring_invalid-deliveries :
    (o : Option String) (now : ℕ) (id : String) (db : Database)
    → (ignoring o (mark_invalid now id) db).deliveries ≡ db.deliveries
unfolding mark_invalid
ignoring_invalid-deliveries none now id db = refl
ignoring_invalid-deliveries (some text) now id db = refl

fail_invalid-Settles :
    (w : Worker) (now : ℕ) (d : Delivery) (device : Device) (msg : Message) (text : String)
    (db : Database)
    → Processed w now d db (fail_invalid w now d device msg text db)
unfolding fail_invalid
fail_invalid-Settles w now d device msg text db =
    let before = ignoring (w.fails d invalidating) (mark_invalid now device.id) db in
    let after = try_complete w now d msg (try_fail w d "INVALID_TOKEN" text before) in
    SettlesUnless-deliveries (w.fails d marking) w now d db before after after
      (ignoring_invalid-deliveries (w.fails d invalidating) now device.id db) refl
      (fail_complete-Settles w now d msg "INVALID_TOKEN" text before)

handle_error-Settles :
    (w : Worker) (now : ℕ) (d : Delivery) (device : Device) (msg : Message)
    (invalid retryable : Bool) (code text : String) (db : Database)
    → Processed w now d db (handle_error w now d device msg invalid retryable code text db)
unfolding handle_error
handle_error-Settles w now d device msg true retryable code text db =
    fail_invalid-Settles w now d device msg text db
handle_error-Settles w now d device msg false retryable code text db =
    retry_or_fail-Settles w now d msg retryable code text db

take_result-Settles :
    (w : Worker) (now : ℕ) (d : Delivery) (device : Device) (msg : Message) (r : SendResult)
    (db : Database)
    → Processed w now d db (take_result w now d device msg r db)
unfolding take_result
take_result-Settles w now d device msg r db = go r.invalid_token r.accepted
  where
    go :
        (i a : Bool)
        → Processed w now d db (
            if i
            then fail_invalid w now d device msg r.error_message db
            else if mathlib.Core.Bool.not a
            then retry_or_fail w now d msg r.retryable r.error_code r.error_message db
            else try_complete w now d msg
                (ignoring (w.fails d marking) (mark_accepted now d.id r.provider_message_id) db))
    go true a = fail_invalid-Settles w now d device msg r.error_message db
    go false false = retry_or_fail-Settles w now d msg r.retryable r.error_code r.error_message db
    go false true = accept-Settles w now d msg r.provider_message_id db

take_outcome-Settles :
    (w : Worker) (now : ℕ) (d : Delivery) (device : Device) (msg : Message) (o : Outcome)
    (db : Database)
    → Processed w now d db (take_outcome w now d device msg o db)
unfolding take_outcome
take_outcome-Settles w now d device msg (returned none) db =
    fail_complete-Settles w now d msg _ _ db
take_outcome-Settles w now d device msg (returned (some r)) db =
    take_result-Settles w now d device msg r db
take_outcome-Settles w now d device msg (provider_failed e) db =
    handle_error-Settles w now d device msg _ _ _ _ db
take_outcome-Settles w now d device msg (other_failed text) db =
    handle_error-Settles w now d device msg _ _ _ _ db

send_delivery-Settles :
    (w : Worker) (now : ℕ) (d : Delivery) (device : Device) (msg : Message)
    (p : Option (Message → Device → Outcome)) (db : Database)
    → Processed w now d db (send_delivery w now d device msg p db)
unfolding send_delivery
send_delivery-Settles w now d device msg none db = fail_complete-Settles w now d msg _ _ db
send_delivery-Settles w now d device msg (some send) db =
    take_outcome-Settles w now d device msg (send msg device) db

deliver_message-Settles :
    (w : Worker) (now : ℕ) (d : Delivery) (device : Device) (o : Option String) (m : Option Message)
    (db : Database)
    → Processed w now d db (deliver_message w now d device o m db)
unfolding deliver_message
deliver_message-Settles w now d device (some text) m db = fail-Settles w now d _ _ db
deliver_message-Settles w now d device none none db = fail-Settles w now d _ _ db
deliver_message-Settles w now d device none (some msg) db =
    send_delivery-Settles w now d device msg (lookup d.provider w.registry) db

deliver-Settles :
    (w : Worker) (now : ℕ) (d : Delivery) (o : Option String) (device : Option Device)
    (db : Database)
    → Processed w now d db (deliver w now d o device db)
unfolding deliver
deliver-Settles w now d (some text) device db = fail-Settles w now d _ _ db
deliver-Settles w now d none none db = fail-Settles w now d _ _ db
deliver-Settles w now d none (some device) db =
    deliver_message-Settles w now d device (w.fails d finding_message)
      (find_message device.app_id d.message_id db) db

-- Processing a delivery, whatever the provider answers, whether the device, the message and the
-- provider are found, and whichever statements fail, turns each row with its id into one that is
-- accepted, failed or retrying, the last only with an attempt left and due after the delay for
-- the next attempt, and keeps the ids and attempt counts and every other row; only when the mark
-- of the delivery fails do all deliveries stay as they are.
pub process_delivery-Settles :
    (w : Worker) (now : ℕ) (d : Delivery) (db : Database)
    → Processed w now d db (process_delivery w now d db)
unfolding process_delivery
process_delivery-Settles w now d db =
    deliver-Settles w now d (w.fails d finding_device) (find_device d.device_id db) db

pub processed_or_not :
    (o : Option String) (w : Worker) (now : ℕ) (d : Delivery) (db after : Database)
    → SettlesUnless o w now d db after
    → Settles w now d db after ⊎ (after.deliveries ≡ db.deliveries)
processed_or_not none w now d db after s = inl s
processed_or_not (some text) w now d db after e = inr e
