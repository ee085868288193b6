-- ===== src/Call/Service.antt =====
-- internal/call/service.go, over the in-memory store. A method is one step: it returns the new
-- state of the runtime and what the Go method returns. Random ids (idgen) and times are arguments.
use Prim.Native.String.{◌++◌ as str_append}
use mgl_communication.Base.{
  ℕ, String, Bool, true, false, Option, none, some, List, [], ◌∷◌, ◌++◌, ◌==◌, not, if◌then◌else◌,
  Result, ok, err, keep_if, Context, live,
}
use mgl_communication.Call.Types.{
  CallState, CallType, Mode, Participant, Call, is_terminal, find_participant,
}
use mgl_communication.Call.Store.{Store, put, get, update, active_call_ids}
use mgl_communication.Call.Creation.{CreateInput, check_create, new_call}
use mgl_communication.Call.Edits.{
  not_a_participant, timeout_edit, accept_edit, reject_edit, cancel_edit, join_edit, connect_edit,
  fail_edit, resume_edit, leave_edit,
}

pub data EventType : Type 0 where
  call_created call_ringing call_accepted call_rejected call_cancelled call_connected : EventType
  call_participant_joined call_participant_left call_ended call_failed : EventType

-- The values that `publish` adds to the payload beside the call.
pub data Extra : Type 0 where
  reason accepted_device_id : String → Extra
  stop_ringing : Extra

pub record Event : Type 0 where
  pub type : EventType
  pub app_id : String
  pub user_id : String
  pub call_id : String
  pub call : Call
  pub extra : List Extra

-- The store, what was published so far, the calls whose ring timer still runs, and the calls for
-- which the ring-timeout handler was called.
pub record Runtime : Type 0 where
  pub store : Store
  pub events : List Event
  pub timers : List String
  pub notified : List String

unfoldable pub publish : EventType → Call → String → List Extra → Runtime → Runtime
publish type c sender extra rt = record rt {
  events =
      rt.events
      ++ record {
        type = type;
        app_id = c.app_id;
        user_id = sender;
        call_id = c.id;
        call = c;
        extra = extra;
      }
        ∷ [];
}

-- A method that updates a call and then publishes, unless the update failed.
abbrev conclude : Runtime → (Call → Runtime → Runtime) → Store × Result Call → Runtime × Result Call
conclude rt announce (s, err e) = (record rt { store = s }, err e)
conclude rt announce (s, ok c) = (announce c (record rt { store = s }), ok c)

-- `Create` behind its checks: it stores the call, publishes twice and starts the ring timer.
unfoldable pub start_call :
    Call → String → Runtime → Store × Result (Unit {0}) → Runtime × Result Call
unfolding publish
start_call c caller rt (s, err e) = (record rt { store = s }, err e)
start_call c caller rt (s, ok _) =
    let created = publish EventType.call_created c caller [] (record rt { store = s }) in
    let ringing = publish EventType.call_ringing c caller [] created in
    (record ringing { timers = c.id ∷ ringing.timers }, ok c)

unfoldable pub create_checked :
    Context
    → CreateInput
    → String
    → String
    → ℕ
    → Runtime
    → Result (CallType × Mode)
    → Runtime × Result Call
unfolding start_call
create_checked ctx input call_ulid room_ulid now rt (err e) = (rt, err e)
create_checked ctx input call_ulid room_ulid now rt (ok kind) =
    let c = new_call input (str_append "call_" call_ulid) (str_append "room_" room_ulid) now kind in
    start_call c input.caller_id rt (put ctx c rt.store)

unfoldable pub create :
    Context → CreateInput → String → String → ℕ → Runtime → Runtime × Result Call
unfolding create_checked
create ctx input call_ulid room_ulid now rt =
    create_checked ctx input call_ulid room_ulid now rt (check_create input)

abbrev end_timer : String → Runtime → Runtime
end_timer id rt = record rt { timers = keep_if (λ j. not (j == id)) rt.timers }

-- The end of `scheduleTimeout`: the call is read again for its event.
unfoldable pub after_timeout : String → Runtime → Result Call → Runtime
unfolding publish
after_timeout id rt (err e) = record rt { notified = rt.notified ++ id ∷ [] }
after_timeout id rt (ok c) =
    let rt' = publish EventType.call_ended c "" (Extra.reason "ring_timeout" ∷ []) rt in
    record rt' { notified = rt'.notified ++ id ∷ [] }

unfoldable pub timeout_updated : String → Runtime → Store × Result Call → Runtime
unfolding after_timeout
timeout_updated id rt (s, err e) = record rt { store = s }
timeout_updated id rt (s, ok _) = after_timeout id (record rt { store = s }) (get live id s)

-- `scheduleTimeout` behind its wait.
unfoldable pub ring_timeout : String → ℕ → Runtime → Runtime
unfolding timeout_updated
ring_timeout id now rt =
    timeout_updated id (end_timer id rt) (update live id (timeout_edit now) rt.store)

unfoldable pub accept : Context → String → String → String → ℕ → Runtime → Runtime × Result Call
unfolding publish
accept ctx id user device now rt =
    conclude rt
      (λ c.
        publish EventType.call_accepted c user
          (Extra.accepted_device_id device ∷ Extra.stop_ringing ∷ []))
      (update ctx id (accept_edit user device now) rt.store)

abbrev is_rejected : CallState → Bool
is_rejected CallState.rejected = true
is_rejected _ = false

unfoldable pub reject : Context → String → String → ℕ → Runtime → Runtime × Result Call
unfolding publish
reject ctx id user now rt =
    conclude rt
      (λ c rt'.
        let rt'' = publish EventType.call_rejected c user [] rt' in
        if is_rejected c.state
        then publish EventType.call_ended c user (Extra.reason "rejected" ∷ []) rt''
        else rt'')
      (update ctx id (reject_edit user now) rt.store)

unfoldable pub cancel : Context → String → String → ℕ → Runtime → Runtime × Result Call
unfolding publish
cancel ctx id user now rt =
    conclude rt
      (λ c rt'.
        publish EventType.call_ended c user (Extra.reason "cancelled" ∷ [])
          (publish EventType.call_cancelled c user [] rt'))
      (update ctx id (cancel_edit user now) rt.store)

unfoldable pub join : Context → String → String → String → ℕ → Runtime → Runtime × Result Call
unfolding publish
join ctx id user device now rt =
    conclude rt (λ c. publish EventType.call_participant_joined c user [])
      (update ctx id (join_edit id user device now) rt.store)

unfoldable pub mark_connected : Context → String → String → ℕ → Runtime → Runtime × Result Call
unfolding publish
mark_connected ctx id user now rt =
    conclude rt (λ c. publish EventType.call_connected c user [])
      (update ctx id (connect_edit user now) rt.store)

unfoldable pub fail : Context → String → String → ℕ → Runtime → Runtime × Result Call
unfolding publish
fail ctx id why now rt =
    conclude rt (λ c. publish EventType.call_failed c "" (Extra.reason why ∷ []))
      (update ctx id (fail_edit why now) rt.store)

unfoldable pub end_for_user :
    Context → String → String → String → Bool → ℕ → Runtime → Runtime × Result Call
unfolding publish
end_for_user ctx id user why end_call now rt =
    conclude rt
      (λ c rt'.
        let rt'' = publish EventType.call_participant_left c user (Extra.reason why ∷ []) rt' in
        if is_terminal c
        then publish EventType.call_ended c user (Extra.reason why ∷ []) rt''
        else rt'')
      (update ctx id (leave_edit user why end_call now) rt.store)

unfoldable pub leave : Context → String → String → ℕ → Runtime → Runtime × Result Call
unfolding end_for_user
leave ctx id user now rt = end_for_user ctx id user "left" false now rt

unfoldable pub hangup : Context → String → String → ℕ → Runtime → Runtime × Result Call
unfolding end_for_user
hangup ctx id user now rt = end_for_user ctx id user "hangup" true now rt

abbrev resume_updated : Context → String → Runtime → Store × Result Call → Runtime × Result Call
resume_updated ctx id rt (s, _) = (record rt { store = s }, get ctx id s)

abbrev resume_found :
    Context → String → String → String → Runtime → Call → Option Participant → Runtime × Result Call
resume_found ctx id user device rt c none = (rt, err not_a_participant)
resume_found ctx id user device rt c (some _) =
    if is_terminal c
    then (rt, ok c)
    else resume_updated ctx id rt (update ctx id (resume_edit user device) rt.store)

abbrev resume_got :
    Context → String → String → String → Runtime → Result Call → Runtime × Result Call
resume_got ctx id user device rt (err e) = (rt, err e)
resume_got ctx id user device rt (ok c) =
    resume_found ctx id user device rt c (find_participant user c.participants)

-- `Resume` reads, updates and reads again. No other method runs in between here.
unfoldable pub resume : Context → String → String → String → Runtime → Runtime × Result Call
resume ctx id user device rt = resume_got ctx id user device rt (get ctx id rt.store)

abbrev keep_active : Result Call → List Call → List Call
keep_active (err e) cs = cs
keep_active (ok c) cs = if not (is_terminal c) then c ∷ cs else cs

unfoldable pub load_active : Context → Store → List String → List Call
unfolding get
load_active ctx s [] = []
load_active ctx s (id ∷ ids) = keep_active (get ctx id s) (load_active ctx s ids)

unfoldable pub list_active_for_user : Context → String → String → Runtime → List Call
unfolding load_active active_call_ids
list_active_for_user ctx app_id user_id rt =
    load_active ctx rt.store (active_call_ids ctx app_id user_id rt.store)
