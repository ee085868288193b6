-- ===== src/Incoming/Tests.antt =====
-- The pushes that follow a call, on a table with one device of Bob.
use mgl_communication.Base.{
  ℕ, zero, suc, String, true, false, none, [], ◌∷◌, ◌≡◌, refl, ok, Result, String-discrete, text_ne,
  lookup,
}
use mgl_communication.Call.Types.{Call, direct, video}
use mgl_communication.Call.Creation.{new_call, ring_callees}
use mgl_communication.Call.Effects.{created_call}
use mgl_communication.Push.Types.{Device, SendMessageResult, Tools}
use mgl_communication.Push.Tables.{Database, create_with_message_and_idempotency, find_row}
use mgl_communication.Push.Validate.{validate_send}
use mgl_communication.Push.Send.{
  send, check_send, resolve_devices, persist, new_message, dispatch, enqueue_deliveries,
  create_many, new_deliveries,
}
use mgl_communication.Push.Select.{filter_devices_for_message, install_key}
use mgl_communication.Push.Calls.{send_call_signal, call_signal_message}
use mgl_communication.Incoming.{Bridge, notify_users, signal_input, ringing_callees}
use mgl_communication.Incoming.Repeats.{notify_users_again}

abbrev a_call : Call
a_call =
    created_call
      (record {
        app_id = "chat";
        caller_id = "ann";
        caller_device = "phone";
        callee_ids = "bob" ∷ [];
        type = "video";
        mode = "";
        caller_name = "Ann";
      })
      "1" "1" 100 (video, direct)

bob_rings : ringing_callees a_call.caller_id a_call.participants ≡ "bob" ∷ []
unfolding ringing_callees new_call ring_callees String-discrete
bob_rings = refl

abbrev tablet : Device
tablet = record {
  id = "d1";
  user_id = "bob";
  installation_id = "tablet";
  platform = "android";
  provider = "fcm";
  token = "token";
  app_id = "chat";
  app_version = "";
  os_version = "";
  device_model = "";
  locale = "";
  timezone = "";
  status = "active";
  created_at = 0;
  updated_at = 0;
  last_seen_at = 0;
}

abbrev store : Database
store = record { keys = []; devices = tablet ∷ []; messages = []; deliveries = [] }

-- Two ids are enough here.
abbrev id_at : ℕ → String
id_at zero = "id-0"
id_at (suc n) = "id-1"

abbrev tools : Tools
tools = record { new_id = id_at; format = λ n. ""; fails = λ n s. none }

abbrev told : Result SendMessageResult × Database
told =
    send_call_signal tools 7 0 (signal_input a_call ("bob" ∷ []) "cancelled" "cancel:call_1") store

abbrev answer : SendMessageResult
answer = record { message_id = "id-0"; accepted = true; duplicate = false }

told_once : told ≡ (ok answer, told.1)
unfolding send_call_signal call_signal_message new_call ring_callees String-discrete send check_send
    validate_send resolve_devices persist create_with_message_and_idempotency find_row new_message
    dispatch enqueue_deliveries create_many new_deliveries filter_devices_for_message lookup
    install_key
told_once = refl

abbrev bridge : Bridge
bridge = record { database = told.1; events = [] }

-- Bob is told once.
notify_users_again_example :
    (notify_users tools 9 1 a_call ("bob" ∷ []) "cancelled" "cancel:call_1" bridge).database
    ≡ bridge.database
notify_users_again_example =
    notify_users_again tools 7 9 0 1 a_call ("bob" ∷ []) "cancelled" "cancel:call_1" store answer
      bridge (text_ne "cancel:call_1" "" refl) told_once
