-- ===== src/Api/Routes.antt =====
-- The routes of the HTTP API, internal/api/server.go: one request as the mux hands it to a handler,
-- with what its path, its headers and its body say.
use mgl_communication.Base.{String, Option}
use mgl_communication.Auth.{Verdict}
use mgl_communication.Push.Types.{MessageType}
use mgl_communication.Push.Registration.{RegisterDeviceInput}
use mgl_communication.Api.{Services, Deps, Instant, Response}
use mgl_communication.Api.Devices.{
  UpdateTokenRequest, handle_register_device, handle_update_token, handle_set_user,
  handle_clear_user, handle_unregister,
}
use mgl_communication.Api.Messages.{
  SendMessageRequest, IncomingCallRequest, CallSignalRequest, handle_send_message,
  handle_incoming_call, handle_call_signal,
}
use mgl_communication.Api.Calls.{
  CreateCallRequest, CallActorRequest, ActorRoute, handle_create_call, handle_get_call,
  handle_action, handle_call_token, handle_resume_call, handle_get_presence,
}

pub data ApiRequest : Type 0 where
  registers : Option RegisterDeviceInput → ApiRequest
  updates_token : String → Option UpdateTokenRequest → ApiRequest
  sets_user : String → Option String → ApiRequest
  clears_user unregisters : String → ApiRequest
  sends : String → Option SendMessageRequest → ApiRequest
  rings : String → Option IncomingCallRequest → ApiRequest
  signals : MessageType → String → Option CallSignalRequest → ApiRequest
  creates : Option CreateCallRequest → ApiRequest
  gets : String → ApiRequest
  acts : ActorRoute → String → CallActorRequest → ApiRequest
  asks_token resumes : String → CallActorRequest → ApiRequest
  reads_presence : String → ApiRequest

unfoldable pub serve : Deps → Instant → Verdict → ApiRequest → Services → Services × Response
unfolding handle_register_device handle_update_token handle_set_user handle_clear_user
    handle_unregister handle_send_message handle_incoming_call handle_call_signal handle_create_call
    handle_get_call handle_action handle_call_token handle_resume_call handle_get_presence
serve deps t v (registers req) s = handle_register_device deps t v req s
serve deps t v (updates_token id req) s = handle_update_token deps t v id req s
serve deps t v (sets_user id req) s = handle_set_user t v id req s
serve deps t v (clears_user id) s = handle_clear_user t v id s
serve deps t v (unregisters id) s = handle_unregister t v id s
serve deps t v (sends key req) s = handle_send_message deps t v key req s
serve deps t v (rings key req) s = handle_incoming_call deps t v key req s
serve deps t v (signals type key req) s = handle_call_signal deps t type v key req s
serve deps t v (creates req) s = handle_create_call deps t v req s
serve deps t v (gets id) s = handle_get_call id s
serve deps t v (acts route id req) s = handle_action t route v id req s
serve deps t v (asks_token id req) s = handle_call_token deps v id req s
serve deps t v (resumes id req) s = handle_resume_call deps v id req s
serve deps t v (reads_presence user_id) s = handle_get_presence t v user_id s
