-- ===== src/Api/Calls.antt =====
-- The handlers of /calls and /presence, internal/api/calls.go. The path's ids are arguments.
use mgl_communication.Base.{
  ℕ, suc, String, not, ◌&&◌, ◌==◌, is_empty, if◌then◌else◌, Option, none, some, List, [], ◌∷◌, ◌++◌,
  Result, ok, err, invalid_request, live,
}
use mgl_communication.Auth.{Verdict, require_app_id, require_user_id, device_id_of}
use mgl_communication.Presence.{get_user}
use mgl_communication.Call.Types.{Call}
use mgl_communication.Call.Store.{get}
use mgl_communication.Call.Creation.{CreateInput}
use mgl_communication.Call.Service.{Runtime, accept, reject, cancel, join, leave, hangup}
use mgl_communication.Call.Orchestrator.{
  TokenResult, ResumeResult, create_call, issue_token, resume_full,
}
use mgl_communication.Signal.Hub.{Notice}
use mgl_communication.Api.{
  Services, Deps, Instant, Response, call_reply, resume_reply, token_reply, presence_reply,
  write_error, write_ok, write_created, notify,
}

pub record CreateCallRequest : Type 0 where
  pub caller_id : String
  pub caller_device : String
  pub callee_id : String
  pub callee_ids : List String
  pub type : String
  pub mode : String
  pub caller_name : String

pub record CallActorRequest : Type 0 where
  pub user_id : String
  pub device_id : String

-- The device of the body, or else the one of the token.
abbrev pub device_or : Verdict → String → String
device_or v device = if not (device == "") then device else device_id_of v

abbrev pub input_of : Verdict → String → String → CreateCallRequest → CreateInput
input_of v app_id caller_id req = record {
  app_id = app_id;
  caller_id = caller_id;
  caller_device = device_or v req.caller_device;
  callee_ids =
      if is_empty req.callee_ids && not (req.callee_id == "")
      then req.callee_id ∷ []
      else req.callee_ids;
  type = req.type;
  mode = req.mode;
  caller_name = req.caller_name;
}

abbrev pub created_as : CreateCallRequest → Services → Runtime × Result Call → Services × Response
created_as req s (rt, err e) = (record s { runtime = rt }, write_error e)
created_as req s (rt, ok c) = (
  notify (Notice.ringing c req.caller_name) (record s { runtime = rt }),
  write_created (call_reply c),
)

abbrev pub create_by :
    Deps
    → Instant
    → Verdict
    → String
    → CreateCallRequest
    → Result String
    → Services
    → Services × Response
create_by deps t v app_id req (err e) s = (s, write_error e)
create_by deps t v app_id req (ok caller_id) s = created_as req s (
    create_call deps.calls live (input_of v app_id caller_id req) (deps.tools.new_id t.first)
      (deps.tools.new_id (suc t.first)) t.now s.runtime)

abbrev pub create_as :
    Deps
    → Instant
    → Verdict
    → Result String
    → Option CreateCallRequest
    → Services
    → Services × Response
create_as deps t v (err e) req s = (s, write_error e)
create_as deps t v (ok app_id) none s = (s, write_error (invalid_request "invalid json"))
create_as deps t v (ok app_id) (some req) s =
    create_by deps t v app_id req (require_user_id v req.caller_id) s

unfoldable pub handle_create_call :
    Deps → Instant → Verdict → Option CreateCallRequest → Services → Services × Response
unfolding require_app_id require_user_id create_call
handle_create_call deps t v req s = create_as deps t v (require_app_id v) req s

abbrev pub got : Services → Result Call → Services × Response
got s (err e) = (s, write_error e)
got s (ok c) = (s, write_ok (call_reply c))

unfoldable pub handle_get_call : String → Services → Services × Response
unfolding get
handle_get_call id s = got s (get live id s.runtime.store)

abbrev pub acted : (Call → List Notice) → Services → Runtime × Result Call → Services × Response
acted told s (rt, err e) = (record s { runtime = rt }, write_error e)
acted told s (rt, ok c) =
    (record s { runtime = rt; notices = s.notices ++ told c }, write_ok (call_reply c))

abbrev pub act_as :
    Verdict
    → String
    → CallActorRequest
    → (String → Call → List Notice)
    → (String → String → String → Runtime → Runtime × Result Call)
    → Result String
    → Services
    → Services × Response
act_as v id req told method (err e) s = (s, write_error e)
act_as v id req told method (ok user) s =
    acted (told user) s (method id user (device_or v req.device_id) s.runtime)

-- withActor. A body that is no JSON reads as an empty one.
unfoldable pub with_actor :
    Verdict
    → String
    → CallActorRequest
    → (String → Call → List Notice)
    → (String → String → String → Runtime → Runtime × Result Call)
    → Services
    → Services × Response
unfolding require_user_id
with_actor v id req told method s = act_as v id req told method (require_user_id v req.user_id) s

pub data ActorRoute : Type 0 where
  to_accept to_reject to_cancel to_join to_leave to_hangup : ActorRoute

abbrev pub told_by : ActorRoute → String → Call → List Notice
told_by to_accept user c = Notice.stop_ringing c user "accepted_elsewhere" ∷ []
told_by to_cancel user c = Notice.cancelled c "cancelled" ∷ []
told_by route user c = []

abbrev pub method_of : ActorRoute → ℕ → String → String → String → Runtime → Runtime × Result Call
method_of to_accept now id user device rt = accept live id user device now rt
method_of to_reject now id user device rt = reject live id user now rt
method_of to_cancel now id user device rt = cancel live id user now rt
method_of to_join now id user device rt = join live id user device now rt
method_of to_leave now id user device rt = leave live id user now rt
method_of to_hangup now id user device rt = hangup live id user now rt

-- handleAcceptCall, handleRejectCall, handleCancelCall, handleJoinCall, handleLeaveCall and
-- handleHangupCall.
unfoldable pub handle_action :
    Instant → ActorRoute → Verdict → String → CallActorRequest → Services → Services × Response
unfolding with_actor accept reject cancel join leave hangup
handle_action t route v id req s = with_actor v id req (told_by route) (method_of route t.now) s

abbrev pub token_issued : Services → Result TokenResult → Services × Response
token_issued s (err e) = (s, write_error e)
token_issued s (ok token) = (s, write_ok (token_reply token))

abbrev pub token_as : Deps → String → Result String → Services → Services × Response
token_as deps id (err e) s = (s, write_error e)
token_as deps id (ok user) s = token_issued s (issue_token deps.calls live id user s.runtime)

unfoldable pub handle_call_token :
    Deps → Verdict → String → CallActorRequest → Services → Services × Response
unfolding require_user_id issue_token
handle_call_token deps v id req s = token_as deps id (require_user_id v req.user_id) s

abbrev pub resumed_as : Services → Runtime × Result ResumeResult → Services × Response
resumed_as s (rt, err e) = (record s { runtime = rt }, write_error e)
resumed_as s (rt, ok r) = (record s { runtime = rt }, write_ok (resume_reply r))

abbrev pub resume_as :
    Deps → Verdict → String → CallActorRequest → Result String → Services → Services × Response
resume_as deps v id req (err e) s = (s, write_error e)
resume_as deps v id req (ok user) s =
    resumed_as s (resume_full deps.calls live id user (device_or v req.device_id) s.runtime)

unfoldable pub handle_resume_call :
    Deps → Verdict → String → CallActorRequest → Services → Services × Response
unfolding require_user_id resume_full
handle_resume_call deps v id req s = resume_as deps v id req (require_user_id v req.user_id) s

abbrev pub presence_as : Instant → String → Result String → Services → Services × Response
presence_as t user_id (err e) s = (s, write_error e)
presence_as t user_id (ok app_id) s =
    (s, write_ok (presence_reply (get_user live app_id user_id t.now s.presence)))

unfoldable pub handle_get_presence : Instant → Verdict → String → Services → Services × Response
unfolding require_app_id get_user
handle_get_presence t v user_id s = presence_as t user_id (require_app_id v) s
