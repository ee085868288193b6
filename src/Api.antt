-- ===== src/Api.antt =====
-- The HTTP API, internal/api/server.go and calls.go: what all handlers share. A response is its
-- status and what is written as JSON; a request's body is decoded by a library, `none` where that
-- fails. All parts of the server are set, and the context of a request is live.
use mgl_communication.Base.{
  ℕ, String, List, [], ◌∷◌, ◌++◌, Error, app, canceled, ErrorCode, internal_error_code,
}
use mgl_communication.Presence
use mgl_communication.Presence.{UserPresence}
use mgl_communication.Push.Types.{SendMessageResult, Tools}
use mgl_communication.Push.Tables.{Database}
use mgl_communication.Call.Types.{Call}
use mgl_communication.Call.Service.{Runtime}
use mgl_communication.Call.Orchestrator.{Orchestrator, TokenResult, ResumeResult}
use mgl_communication.Signal.Hub.{Notice}
pub mod Devices
pub mod Messages
pub mod Calls
pub mod Routes
pub mod Errors
pub mod Served
pub mod Responses
pub mod OwnUser
mod Tests

-- What a handler writes.
pub data Reply : Type 0 where
  error_reply : ErrorCode → String → Reply
  status_reply : String → Reply
  device_reply : String → String → String → Reply
  send_reply : SendMessageResult → Reply
  call_reply : Call → Reply
  resume_reply : ResumeResult → Reply
  token_reply : TokenResult → Reply
  presence_reply : UserPresence → Reply

pub record Response : Type 0 where
  pub status : ℕ
  pub body : Reply

-- The services that the handlers call, by their states.
pub record Services : Type 0 where
  pub database : Database
  pub runtime : Runtime
  pub presence : Presence.Store
  pub notices : List Notice

-- What the server is made with, and what a request finds: the time, and the number of the next id.
pub record Deps : Type 0 where
  pub calls : Orchestrator
  pub tools : Tools

pub record Instant : Type 0 where
  pub now : ℕ
  pub first : ℕ

-- writeError
abbrev pub write_error : Error → Response
write_error (app e) = record { status = e.http_status; body = error_reply e.code e.message }
write_error canceled = record {
  status = 500;
  body = error_reply internal_error_code "internal error";
}

-- http.StatusOK, StatusCreated and StatusAccepted
abbrev pub write_ok : Reply → Response
write_ok body = record { status = 200; body = body }

abbrev pub write_created : Reply → Response
write_created body = record { status = 201; body = body }

abbrev pub write_accepted : Reply → Response
write_accepted body = record { status = 202; body = body }

abbrev pub notify : Notice → Services → Services
notify n s = record s { notices = s.notices ++ n ∷ [] }
