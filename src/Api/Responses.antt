-- ===== src/Api/Responses.antt =====
-- An error response of any route.
use mgl_communication.Base.{String, some, lookup, ◌≡◌, ◌⊎◌}
use mgl_communication.Call.Types.{Call, CallState}
use mgl_communication.Call.Actions.{Action}
use mgl_communication.Call.Effects.{call_id_of}
use mgl_communication.Call.Orchestrator.{Orchestrator}
use mgl_communication.Call.Orchestrator.Outcome.{rings}
use mgl_communication.Api.{Services, Deps, Instant}
use mgl_communication.Api.Calls.{
  ActorRoute, to_accept, to_reject, to_cancel, to_join, to_leave, to_hangup,
}
use mgl_communication.Api.Routes.{rings}
use mgl_communication.Api.Errors.{Kept}
use mgl_communication.Api.Served.{LeftStranded}

-- A new call that was stored and failed for the lack of a room, and nothing else.
pub record LeftFailed (deps : Deps) (t : Instant) (s after : Services) : Type 0 where
  pub database : after.database ≡ s.database
  pub presence : after.presence ≡ s.presence
  pub notices : after.notices ≡ s.notices
  pub call : Call
  pub stored : lookup (call_id_of (deps.tools.new_id t.first)) after.runtime.store.calls ≡ some call
  pub failed : call.state ≡ CallState.failed
  pub reason : call.reason ≡ "sfu_room_failed"

-- The action of the call service that a route performs.
action_of : ActorRoute → String → String → Action
action_of to_accept user device = Action.accepts user device
action_of to_reject user device = Action.rejects user
action_of to_cancel user device = Action.cancels user
action_of to_join user device = Action.joins user device
action_of to_leave user device = Action.leaves user
action_of to_hangup user device = Action.hangs_up user

-- What an error of a route has left.
abbrev pub Left : Deps → Instant → Services → Services → Type 0
Left deps t s after = Kept s after ⊎ LeftStranded s after ⊎ LeftFailed deps t s after
