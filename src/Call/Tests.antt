-- ===== src/Call/Tests.antt =====
-- The theorems about calls at concrete inputs: Ann calls Bob, who accepts.
use mathlib.Core.Option
use mgl_communication.Base.{
  ◌&&◌, ◌↔◌, ◌⊎◌, ◌≡◌, ◌≢◌, refl, Option, none, some, [], ◌∷◌, ok, err, lookup, live, contains,
  String-discrete, add_member, insert, map, text_ne, All, true, false,
}
use mgl_communication.Call.Types.{
  is_waiting, Call, CallState, ParticipantState, video, direct, group, is_terminal,
  find_participant, modify_participant,
}
use mgl_communication.Call.Store.{
  empty, put, update, get, commit, update_found, index_participants, user_key, is_active,
}
use mgl_communication.Call.Creation.{CreateInput, check_create, new_call, read_type, read_mode}
use mgl_communication.Call.Edits.{
  not_a_participant, accept_edit, leave_edit, timeout_edit, counts_active, silence_waiting,
  silence_others, count_active,
}
use mgl_communication.Call.Service.{Runtime, create, ring_timeout, list_active_for_user}
use mgl_communication.Call.Actions.{Action, perform, edit_of}
use mgl_communication.Call.Lifecycle.{Edge}
use mgl_communication.Call.Reach.{
  Step, creates, acts, Reach, here, next, initial, Settled, Step-Edge, Reach-Settled,
}
use mgl_communication.Call.Sound.{IsSound, initial-IsSound, Reach-IsSound, ringing_expires}
use mgl_communication.Call.Answers.{
  Unchanged, perform_error-Unchanged, perform_answer_stored, list_active_for_user-exact,
}
use mgl_communication.Call.Outcome.{
  HasAccepted, IsQuiet, accept_edit-succeeds_iff, accept_edit-outcome, leave_edit-ends_iff,
  caller_accepts_own_call,
}
use mgl_communication.Call.Created.{
  Starts, IsAcceptable, check_create-accepts_iff, create-Starts, call_oneself, self_call,
}
use mgl_communication.Call.Roster.{user_ids}
use mgl_communication.Call.Index.{indexes}
use mgl_communication.Call.Effects.{created_call}

abbrev request : CreateInput
request = record {
  app_id = "nomio";
  caller_id = "ann";
  caller_device = "phone";
  callee_ids = "bob" ∷ [];
  type = "video";
  mode = "";
  caller_name = "Ann";
}

abbrev ringing_call : Call
ringing_call = created_call request "1" "1" 100 (video, direct)

abbrev called : Runtime
called = (create live request "1" "1" 100 initial).0

abbrev answered : Runtime
answered = (perform live "call_1" (Action.accepts "bob" "tablet") 200 called).0

abbrev hung_up : Runtime
hung_up = (perform live "call_1" (Action.hangs_up "ann") 300 answered).0

-- The state of the call. A test that computes unfolds this, and with it the methods.
seen : Runtime → Option CallState
unfolding initial empty lookup insert add_member String-discrete user_key index_participants put get
    commit update_found update create check_create read_type read_mode new_call perform edit_of
    ring_timeout find_participant modify_participant silence_waiting silence_others count_active
    accept_edit leave_edit timeout_edit
seen rt = Option.map (λ c. c.state) (lookup "call_1" rt.store.calls)

create_rings : seen called ≡ some CallState.ringing
unfolding seen
create_rings = refl

accept_accepts : seen answered ≡ some CallState.accepted
unfolding seen
accept_accepts = refl

hangup_ends : seen hung_up ≡ some CallState.ended
unfolding seen
hangup_ends = refl

called-Reach : Reach initial called
unfolding seen
called-Reach = next here (creates live request "1" "1" 100 refl)

answered-Reach : Reach called answered
answered-Reach = next here (acts live "call_1" (Action.accepts "bob" "tablet") 200)

abbrev ended_call : Call
ended_call = record ringing_call {
  state = CallState.ended;
  ended_at = some 300;
  reason = "hangup";
  participants =
      record {
        call_id = "call_1";
        user_id = "ann";
        device_id = "phone";
        state = ParticipantState.left;
        joined_at = some 100;
        left_at = some 300;
        role = "caller";
      }
      ∷ record {
        call_id = "call_1";
        user_id = "bob";
        device_id = "tablet";
        state = ParticipantState.accepted;
        joined_at = some 200;
        left_at = none;
        role = "callee";
      }
      ∷ [];
}

hung_up_call : lookup "call_1" hung_up.store.calls ≡ some ended_call
unfolding seen
hung_up_call = refl

called_call : lookup "call_1" called.store.calls ≡ some ringing_call
unfolding seen
called_call = refl

called-IsSound : IsSound called
called-IsSound = Reach-IsSound called-Reach initial-IsSound

Reach-IsSound_example : IsSound called
Reach-IsSound_example = Reach-IsSound called-Reach initial-IsSound

Step-Edge_example :
    (c : Call) × (lookup "call_1" answered.store.calls ≡ some c) × Edge ringing_call.state c.state
Step-Edge_example =
    Step-Edge "call_1" ringing_call (acts live "call_1" (Action.accepts "bob" "tablet") 200)
      called_call

abbrev resumed : Runtime
resumed = (perform live "call_1" (Action.resumes "bob" "laptop") 400 hung_up).0

Reach-Settled_example :
    (d : Call) × (lookup "call_1" resumed.store.calls ≡ some d) × Settled ended_call d
Reach-Settled_example =
    Reach-Settled "call_1" ended_call
      (next here (acts live "call_1" (Action.resumes "bob" "laptop") 400)) hung_up_call refl

ringing_expires_example :
    Step called (ring_timeout "call_1" 500 called)
    × ((d : Call) × (lookup "call_1" (ring_timeout "call_1" 500 called).store.calls ≡ some d)
        × (d.state ≡ CallState.timeout)
        × (d.ended_at ≡ some 500)
        × (d.reason ≡ "ring_timeout")
        × All (λ p. is_waiting p.state ≡ false) d.participants)
unfolding new_call
ringing_expires_example = ringing_expires "call_1" ringing_call 500 called-IsSound called_call refl

stranger_refused :
    (perform live "call_1" (Action.accepts "eve" "tablet") 200 called).1 ≡ err not_a_participant
unfolding seen
stranger_refused = refl

perform_error-Unchanged_example :
    Unchanged called (perform live "call_1" (Action.accepts "eve" "tablet") 200 called).0
perform_error-Unchanged_example =
    perform_error-Unchanged live "call_1" (Action.accepts "eve" "tablet") 200 called
      stranger_refused

hangup_answer : (perform live "call_1" (Action.hangs_up "ann") 300 answered).1 ≡ ok ended_call
unfolding seen
hangup_answer = refl

hung_up_stored : lookup "call_1" hung_up.store.calls ≡ some ended_call
hung_up_stored =
    perform_answer_stored live "call_1" (Action.hangs_up "ann") 300 answered hangup_answer

list_active_for_user-exact_example :
    contains "call_1" (map (λ c. c.id) (list_active_for_user live "nomio" "bob" called)) ≡ (
      is_active (lookup "call_1" called.store.calls)
      && indexes (user_key "nomio" "bob") (lookup "call_1" called.store.calls))
list_active_for_user-exact_example =
    list_active_for_user-exact called "nomio" "bob" "call_1" called-IsSound

request_answer : (create live request "1" "1" 100 initial).1 ≡ ok ringing_call
unfolding seen
request_answer = refl

create-Starts_example : Starts request "1" 100 initial called ringing_call
create-Starts_example = create-Starts live request "1" "1" 100 initial request_answer

check_create-accepts_iff_example :
    (check_create request ≡ ok (video, direct)) ↔ IsAcceptable request video direct
check_create-accepts_iff_example = check_create-accepts_iff request video direct

ann_calls_herself :
    (c : Call) × ((create live (call_oneself "nomio" "ann" "phone" "Ann") "1" "1" 100 initial).1
      ≡ ok c)
    × (c.mode ≡ direct)
    × (user_ids c.participants ≡ "ann" ∷ [])
ann_calls_herself =
    self_call "nomio" "ann" "phone" "Ann" "1" "1" 100 initial (text_ne "ann" "" refl)

bob_accepting : ((accept_edit "bob" "tablet" 200 ringing_call).1 ≡ none) ↔ (
    ((ringing_call.state ≡ CallState.ringing)
      ⊎ (ringing_call.state ≡ CallState.accepted)
      ⊎ (ringing_call.state ≡ CallState.connecting))
    × (find_participant "bob" ringing_call.participants ≢ none))
bob_accepting = accept_edit-succeeds_iff "bob" "tablet" 200 ringing_call

bob_accepts : (accept_edit "bob" "tablet" 200 ringing_call).1 ≡ none
unfolding seen
bob_accepts = refl

accept_edit-outcome_example :
    let d = (accept_edit "bob" "tablet" 200 ringing_call).0 in
    (d.state ≡ CallState.accepted)
    × HasAccepted "bob" "tablet" 200 d
    × ((ringing_call.mode ≡ group) ⊎ All (IsQuiet "bob" ringing_call.caller_id) d.participants)
accept_edit-outcome_example = accept_edit-outcome "bob" "tablet" 200 ringing_call bob_accepts

bob_leaves : (leave_edit "bob" "left" false 200 ringing_call).1 ≡ none
unfolding seen
bob_leaves = refl

leave_edit-ends_iff_example :
    let d = (leave_edit "bob" "left" false 200 ringing_call).0 in
    (is_terminal d ≡ true) ↔ (
      (false ≡ true)
      ⊎ (ringing_call.mode ≡ direct)
      ⊎ All (λ p. counts_active p.state ≡ false) d.participants)
leave_edit-ends_iff_example = leave_edit-ends_iff "bob" "left" false 200 ringing_call bob_leaves

ann_found : find_participant ringing_call.caller_id ringing_call.participants ≢ none
unfolding seen
ann_found e = cc

caller_accepts_own_call_example :
    let d = (accept_edit ringing_call.caller_id "phone" 200 ringing_call).0 in
    ((accept_edit ringing_call.caller_id "phone" 200 ringing_call).1 ≡ none)
    × (d.state ≡ CallState.accepted)
    × All (IsQuiet ringing_call.caller_id ringing_call.caller_id) d.participants
unfolding new_call
caller_accepts_own_call_example =
    caller_accepts_own_call "phone" 200 ringing_call refl refl ann_found
