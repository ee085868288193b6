-- ===== src/Call/Edits.antt =====
-- The closures that internal/call/service.go passes to the store's `Update`. `now` is what
-- time.Now returns in the closure.
use mgl_communication.Base.{
  ℕ, zero, suc, String, Bool, true, false, Option, none, some, List, [], ◌∷◌, ◌++◌, ◌==◌, not, ◌&&◌,
  ◌||◌, if◌then◌else◌, Error, invalid_request, forbidden,
}
use mgl_communication.Call.Types.{
  CallState, ParticipantState, Mode, direct, group, Participant, Call, is_terminal,
  find_participant, modify_participant, is_waiting,
}
use mgl_communication.Call.Store.{Edit}

abbrev pub already_ended : Error
already_ended = invalid_request "call already ended"

abbrev pub not_a_participant : Error
not_a_participant = forbidden "not a participant"

abbrev pub silence : ℕ → Participant → Participant
silence now p =
    if is_waiting p.state
    then record p { state = ParticipantState.disconnected; left_at = some now }
    else p

-- Whoever still rings is disconnected (`scheduleTimeout`, `Cancel`).
unfoldable pub silence_waiting : ℕ → List Participant → List Participant
silence_waiting now [] = []
silence_waiting now (p ∷ ps) = silence now p ∷ silence_waiting now ps

abbrev is_ringing : CallState → Bool
is_ringing CallState.ringing = true
is_ringing _ = false

-- `scheduleTimeout`; the error is errSkip.
unfoldable pub timeout_edit : ℕ → Edit
unfolding silence_waiting
timeout_edit now c =
    if is_ringing c.state
    then (
      record c {
        state = CallState.timeout;
        ended_at = some now;
        reason = "ring_timeout";
        participants = silence_waiting now c.participants;
      },
      none,
    )
    else (c, some (invalid_request "skip"))

abbrev may_accept : CallState → Bool
may_accept CallState.ringing = true
may_accept CallState.accepted = true
may_accept CallState.connecting = true
may_accept _ = false

abbrev pub is_direct : Mode → Bool
is_direct direct = true
is_direct group = false

-- The loop over the others in `Accept`.
unfoldable pub silence_others : String → String → ℕ → List Participant → List Participant
silence_others user caller now [] = []
silence_others user caller now (p ∷ ps) =
    (if not (p.user_id == user) && not (p.user_id == caller) then silence now p else p)
    ∷ silence_others user caller now ps

abbrev pub accept_as : String → ℕ → Participant → Participant
accept_as device now p = record p {
  state = ParticipantState.accepted;
  device_id = device;
  joined_at = some now;
}

abbrev pub after_accept : String → String → ℕ → Call → List Participant
after_accept user device now c =
    let ps = modify_participant user (accept_as device now) c.participants in
    if is_direct c.mode then silence_others user c.caller_id now ps else ps

-- The closure's steps behind the check of FindParticipant.
abbrev for_participant : Option Participant → Call → Call × Option Error → Call × Option Error
for_participant none c r = (c, some not_a_participant)
for_participant (some _) c r = r

unfoldable pub accept_edit : String → String → ℕ → Edit
unfolding modify_participant silence_others find_participant
accept_edit user device now c =
    if is_terminal c
    then (c, some already_ended)
    else if not (may_accept c.state)
    then (c, some (invalid_request "call not ringing"))
    else for_participant (find_participant user c.participants) c (
      record c { state = CallState.accepted; participants = after_accept user device now c },
      none,
    )

abbrev pub reject_as : ℕ → Participant → Participant
reject_as now p = record p { state = ParticipantState.rejected; left_at = some now }

abbrev after_reject : String → ℕ → Call → Call
after_reject user now c =
    let c' = record c { participants = modify_participant user (reject_as now) c.participants } in
    if is_direct c.mode
    then record c' { state = CallState.rejected; ended_at = some now; reason = "rejected" }
    else c'

unfoldable pub reject_edit : String → ℕ → Edit
unfolding modify_participant find_participant
reject_edit user now c =
    if is_terminal c
    then (c, some already_ended)
    else for_participant (find_participant user c.participants) c (after_reject user now c, none)

unfoldable pub cancel_edit : String → ℕ → Edit
unfolding silence_waiting
cancel_edit user now c =
    if is_terminal c
    then (c, some already_ended)
    else if not (c.caller_id == user)
    then (c, some (forbidden "only caller can cancel"))
    else (
      record c {
        state = CallState.cancelled;
        ended_at = some now;
        reason = "cancelled";
        participants = silence_waiting now c.participants;
      },
      none,
    )

abbrev or_now : Option ℕ → ℕ → Option ℕ
or_now none now = some now
or_now (some t) now = some t

abbrev pub join_as : String → ℕ → Participant → Participant
join_as device now p = record p {
  device_id = device;
  state = ParticipantState.connecting;
  joined_at = or_now p.joined_at now;
}

-- Who joins a group call without an invitation, as the closure leaves the new participant.
abbrev pub newcomer : String → String → String → ℕ → Participant
newcomer call_id user device now = record {
  call_id = call_id;
  user_id = user;
  device_id = device;
  state = ParticipantState.connecting;
  joined_at = some now;
  left_at = none;
  role = "participant";
}

abbrev state_after_join : CallState → CallState
state_after_join CallState.accepted = CallState.connecting
state_after_join CallState.ringing = CallState.connecting
state_after_join s = s

-- A group call takes a user who was not invited.
unfoldable pub join_found :
    String → String → String → ℕ → Call → Option Participant → Call × Option Error
unfolding modify_participant
join_found call_id user device now c (some _) = (
  record c {
    participants = modify_participant user (join_as device now) c.participants;
    state = state_after_join c.state;
  },
  none,
)
join_found call_id user device now c none =
    if is_direct c.mode then (c, some not_a_participant) else (
      record c {
        participants = c.participants ++ newcomer call_id user device now ∷ [];
        state = state_after_join c.state;
      },
      none,
    )

unfoldable pub join_edit : String → String → String → ℕ → Edit
unfolding join_found find_participant
join_edit call_id user device now c =
    if is_terminal c
    then (c, some already_ended)
    else join_found call_id user device now c (find_participant user c.participants)

abbrev pub connect_as : Participant → Participant
connect_as p = record p { state = ParticipantState.connected }

abbrev start : Option ℕ → ℕ → Call → Call
start none now c = record c { started_at = some now; state = CallState.connected }
start (some _) now c = c

unfoldable pub connect_edit : String → ℕ → Edit
unfolding modify_participant find_participant
connect_edit user now c =
    if is_terminal c
    then (c, some already_ended)
    else for_participant (find_participant user c.participants) c (
      start c.started_at now
          (record c { participants = modify_participant user connect_as c.participants }),
      none,
    )

unfoldable pub fail_edit : String → ℕ → Edit
fail_edit reason now c =
    if is_terminal c
    then (c, none)
    else (record c { state = CallState.failed; ended_at = some now; reason = reason }, none)

abbrev resume_state : ParticipantState → ParticipantState
resume_state ParticipantState.disconnected = ParticipantState.reconnecting
resume_state ParticipantState.reconnecting = ParticipantState.reconnecting
resume_state ParticipantState.connected = ParticipantState.reconnecting
resume_state s = s

abbrev pub resume_as : String → Participant → Participant
resume_as device p = record p { device_id = device; state = resume_state p.state }

unfoldable pub resume_edit : String → String → Edit
unfolding modify_participant
resume_edit user device c =
    (record c { participants = modify_participant user (resume_as device) c.participants }, none)

-- The switch that counts the active participants.
abbrev pub counts_active : ParticipantState → Bool
counts_active ParticipantState.connected = true
counts_active ParticipantState.connecting = true
counts_active ParticipantState.accepted = true
counts_active ParticipantState.reconnecting = true
counts_active _ = false

unfoldable pub count_active : List Participant → ℕ
count_active [] = 0
count_active (p ∷ ps) = if counts_active p.state then suc (count_active ps) else count_active ps

abbrev pub leave_as : ℕ → Participant → Participant
leave_as now p = record p { state = ParticipantState.left; left_at = some now }

abbrev end_with : String → ℕ → Call → Call
end_with reason now c = record c { state = CallState.ended; ended_at = some now; reason = reason }

abbrev is_none : ℕ → Bool
is_none zero = true
is_none (suc _) = false

abbrev after_leave : String → Bool → ℕ → Call → Call
after_leave reason end_call now c =
    if end_call || is_direct c.mode
    then end_with reason now c
    else if is_none (count_active c.participants)
    then end_with reason now c
    else c

-- `endForUser`, which `Leave` and `Hangup` call.
unfoldable pub leave_edit : String → String → Bool → ℕ → Edit
unfolding modify_participant find_participant
leave_edit user reason end_call now c =
    if is_terminal c
    then (c, some already_ended)
    else for_participant (find_participant user c.participants) c (
      after_leave reason end_call now
          (record c { participants = modify_participant user (leave_as now) c.participants }),
      none,
    )
