-- ===== src/Call/Creation.antt =====
-- The checks of `Create` in internal/call/service.go, and the call that it builds.
use mgl_communication.Base.{
  ℕ, zero, suc, String, Bool, true, false, none, some, List, [], ◌∷◌, ◌==◌, ◌||◌, if◌then◌else◌,
  invalid_request, length, is_empty, Result, ok, err,
}
use mgl_communication.Call.Types.{
  CallState, ParticipantState, CallType, audio, video, Mode, direct, group, Transport, p2p, sfu,
  Participant, Call,
}

pub record CreateInput : Type 0 where
  pub app_id : String
  pub caller_id : String
  pub caller_device : String
  pub callee_ids : List String
  pub type : String
  pub mode : String
  pub caller_name : String

abbrev is_one : ℕ → Bool
is_one (suc zero) = true
is_one _ = false

unfoldable pub read_type : String → Result CallType
read_type t =
    if t == ""
    then ok audio
    else if t == "audio"
    then ok audio
    else if t == "video"
    then ok video
    else err (invalid_request "type must be audio or video")

abbrev default_mode : ℕ → Mode
default_mode n = if is_one n then direct else group

unfoldable pub read_mode : String → ℕ → Result Mode
read_mode m callees =
    if m == ""
    then ok (default_mode callees)
    else if m == "direct"
    then ok direct
    else if m == "group"
    then ok group
    else err (invalid_request "mode must be direct or group")

-- "direct call requires exactly one callee"
unfoldable pub check_callees : CallType → ℕ → Mode → Result (CallType × Mode)
check_callees t callees group = ok (t, group)
check_callees t callees direct =
    if is_one callees
    then ok (t, direct)
    else err (invalid_request "direct call requires exactly one callee")

unfoldable pub check_mode : CallType → ℕ → Result Mode → Result (CallType × Mode)
unfolding check_callees
check_mode t callees (err e) = err e
check_mode t callees (ok m) = check_callees t callees m

unfoldable pub check_type : CreateInput → Result CallType → Result (CallType × Mode)
unfolding check_mode
check_type input (err e) = err e
check_type input (ok t) =
    check_mode t (length input.callee_ids) (read_mode input.mode (length input.callee_ids))

-- The checks at the head of `Create`, in their order.
unfoldable pub check_create : CreateInput → Result (CallType × Mode)
unfolding check_type
check_create input =
    if input.caller_id == "" || is_empty input.callee_ids
    then err (invalid_request "caller_id and callees are required")
    else check_type input (read_type input.type)

abbrev pub transport_for : Mode → Transport
transport_for direct = p2p
transport_for group = sfu

abbrev callee_of : String → String → Participant
callee_of call_id user = record {
  call_id = call_id;
  user_id = user;
  device_id = "";
  state = ParticipantState.ringing;
  joined_at = none;
  left_at = none;
  role = "callee";
}

-- The loop over the callees, which skips the caller.
unfoldable pub ring_callees : String → String → List String → List Participant
ring_callees call_id caller [] = []
ring_callees call_id caller (user ∷ users) =
    if user == caller
    then ring_callees call_id caller users
    else callee_of call_id user ∷ ring_callees call_id caller users

abbrev caller_of : String → CreateInput → ℕ → Participant
caller_of call_id input now = record {
  call_id = call_id;
  user_id = input.caller_id;
  device_id = input.caller_device;
  state = ParticipantState.accepted;
  joined_at = some now;
  left_at = none;
  role = "caller";
}

unfoldable pub new_call : CreateInput → String → String → ℕ → CallType × Mode → Call
unfolding ring_callees
new_call input call_id room_id now (t, m) = record {
  id = call_id;
  room_id = room_id;
  app_id = input.app_id;
  caller_id = input.caller_id;
  type = t;
  mode = m;
  state = CallState.ringing;
  transport = transport_for m;
  created_at = now;
  started_at = none;
  ended_at = none;
  reason = "";
  participants =
      caller_of call_id input now ∷ ring_callees call_id input.caller_id input.callee_ids;
}
