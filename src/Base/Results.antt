-- ===== src/Base/Results.antt =====
-- Errors of internal/domain/errors.go, results and Go contexts.
use Prim.Native.Nat.{ℕ}
use Prim.Native.String.{String}

pub data ErrorCode : Type 0 where
  invalid_request_code unauthorized_code forbidden_code device_not_found_code : ErrorCode
  call_not_found_code invalid_token_code provider_not_available_code : ErrorCode
  provider_auth_error_code provider_rate_limit_code provider_temp_error_code : ErrorCode
  message_not_found_code internal_error_code : ErrorCode

pub record AppError : Type 0 where
  pub code : ErrorCode
  pub message : String
  pub http_status : ℕ

-- What a Go function of the server returns as its `error`: an AppError, or the error of a
-- cancelled context.
pub data Error : Type 0 where
  app : AppError → Error
  canceled : Error

abbrev pub invalid_request : String → Error
invalid_request msg = app (record { code = invalid_request_code; message = msg; http_status = 400 })

abbrev pub unauthorized : String → Error
unauthorized msg = app (record { code = unauthorized_code; message = msg; http_status = 401 })

abbrev pub forbidden : String → Error
forbidden msg = app (record { code = forbidden_code; message = msg; http_status = 403 })

abbrev pub call_not_found : Error
call_not_found =
    app (record { code = call_not_found_code; message = "Call not found"; http_status = 404 })

abbrev pub device_not_found : Error
device_not_found =
    app (record { code = device_not_found_code; message = "Device not found"; http_status = 404 })

abbrev pub internal : String → Error
internal msg = app (record { code = internal_error_code; message = msg; http_status = 500 })

pub data Result {ℓ} (A : Type ℓ) : Type ℓ where
  ok : A → Result A
  err : Error → Result A

-- A request's context: `ctx.Err()` is nil while it is live.
pub data Context : Type 0 where
  live done : Context
