-- ===== src/Incoming.antt =====
-- internal/incomingcall/service.go: the pushes that follow a call. The message service and the bus
-- are set; `supply i` is the number of the first id that the i-th push draws.
use Prim.Native.String.{◌++◌ as str_append}
use mgl_communication.Base.{
  ℕ, suc, ◌+◌, String, Bool, not, ◌&&◌, ◌==◌, if◌then◌else◌, some, List, [], ◌∷◌, ◌++◌, is_empty,
  Result, ok, err,
}
use mgl_communication.Call.Types.{Call, CallType, audio, video, Participant, is_waiting}
use mgl_communication.Push.Types.{call_cancelled, SendMessageResult, Tools}
use mgl_communication.Push.Tables.{Database}
use mgl_communication.Push.Calls.{
  SendIncomingCallInput, SendCallSignalInput, send_incoming_call, send_call_signal,
  default_incoming_call_ttl,
}
pub mod Repeats
mod Tests

pub data PushEventType : Type 0 where
  push_requested push_sent push_failed : PushEventType

pub record PushEvent : Type 0 where
  pub type : PushEventType
  pub app_id : String
  pub call_id : String
  pub user_id : String

-- The tables that the message service writes, and what was published.
pub record Bridge : Type 0 where
  pub database : Database
  pub events : List PushEvent

abbrev pub publish : PushEventType → Call → String → Bridge → Bridge
publish type c user b = record b {
  events =
      b.events ++ record { type = type; app_id = c.app_id; call_id = c.id; user_id = user } ∷ [];
}

-- The loop of NotifyRinging that collects the callees who still ring.
unfoldable pub ringing_callees : String → List Participant → List String
ringing_callees caller [] = []
ringing_callees caller (p ∷ ps) =
    let rest = ringing_callees caller ps in
    if not (p.user_id == caller) && is_waiting p.state then p.user_id ∷ rest else rest

abbrev pub media_of : CallType → String
media_of audio = "audio"
media_of video = "video"

abbrev pub ring_input : ℕ → Call → String → String → SendIncomingCallInput
ring_input now c caller_name callee = record {
  app_id = c.app_id;
  user_ids = callee ∷ [];
  installation_ids = [];
  call = record {
    call_id = c.id;
    caller_id = c.caller_id;
    callee_id = callee;
    media_type = media_of c.type;
    caller_name = caller_name;
    timestamp = some now;
    expires_at = some (now + default_incoming_call_ttl);
  };
  idempotency_key = str_append "incoming:" (str_append c.id (str_append ":" callee));
}

-- What follows a push: its tables, and an event.
abbrev pub pushed :
    PushEventType → Call → String → Bridge → Result SendMessageResult × Database → Bridge
pushed type c user b (err e, db) = publish push_failed c user (record b { database = db })
pushed type c user b (ok r, db) = publish type c user (record b { database = db })

unfoldable pub ring_each : Tools → (ℕ → ℕ) → ℕ → ℕ → Call → String → List String → Bridge → Bridge
unfolding send_incoming_call
ring_each tools supply i now c caller_name [] b = b
ring_each tools supply i now c caller_name (callee ∷ callees) b =
    ring_each tools supply (suc i) now c caller_name callees (
      pushed push_requested c callee b
        (send_incoming_call tools now (supply i) (ring_input now c caller_name callee) b.database))

unfoldable pub notify_ringing : Tools → (ℕ → ℕ) → ℕ → Call → String → Bridge → Bridge
unfolding ring_each ringing_callees
notify_ringing tools supply now c caller_name b =
    ring_each tools supply 0 now c caller_name (ringing_callees c.caller_id c.participants) b

abbrev pub signal_input : Call → List String → String → String → SendCallSignalInput
signal_input c user_ids reason key = record {
  app_id = c.app_id;
  type = call_cancelled;
  call_id = c.id;
  user_ids = user_ids;
  installation_ids = [];
  reason = if reason == "" then "cancelled" else reason;
  idempotency_key = key;
}

unfoldable pub notify_users : Tools → ℕ → ℕ → Call → List String → String → String → Bridge → Bridge
unfolding send_call_signal
notify_users tools now first c user_ids reason key b =
    if is_empty user_ids
    then b
    else pushed push_sent c "" b
        (send_call_signal tools now first (signal_input c user_ids reason key) b.database)

unfoldable pub callees_of : String → List Participant → List String
callees_of caller [] = []
callees_of caller (p ∷ ps) =
    let rest = callees_of caller ps in if p.user_id == caller then rest else p.user_id ∷ rest

unfoldable pub notify_cancelled : Tools → ℕ → ℕ → Call → String → Bridge → Bridge
unfolding notify_users callees_of
notify_cancelled tools now first c reason b =
    notify_users tools now first c (callees_of c.caller_id c.participants) reason
      (str_append "cancel:" c.id) b

unfoldable pub notify_stop_ringing : Tools → ℕ → ℕ → Call → String → String → Bridge → Bridge
unfolding notify_users
notify_stop_ringing tools now first c user reason b =
    if user == ""
    then b
    else notify_users tools now first c (user ∷ []) reason
        (str_append "stop_ring:" (str_append c.id (str_append ":" user))) b
