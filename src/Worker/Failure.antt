-- ===== src/Worker/Failure.antt =====
-- crates/protocol/src/lib.rs, `ApiErrorCodeV1`, and apps/worker/src/lib.rs, `ApiFailure`. A status is
-- its HTTP number.
use Prim.Native.String.{String}
use free_whisper.Prelude.{ℕ, Bool, false, Option, none}

pub data ApiErrorCode : Type 0 where
  unauthorized invalid_request request_too_large audio_too_long rate_limited busy : ApiErrorCode
  model_not_ready cancelled not_found engine_unavailable engine_protocol internal : ApiErrorCode

pub record ApiFailure : Type 0 where
  pub status : ℕ
  pub code : ApiErrorCode
  pub message : String
  pub retryable : Bool
  pub request_id : Option ℕ

unfoldable pub failure : ℕ → ApiErrorCode → String → Bool → Option ℕ → ApiFailure
failure status code message retryable request_id = record {
  status = status;
  code = code;
  message = message;
  retryable = retryable;
  request_id = request_id;
}

unfoldable pub invalid : String → ApiFailure
unfolding failure
invalid message = failure 400 invalid_request message false none
