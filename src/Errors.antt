-- ===== src/Errors.antt =====
-- trainfer/errors.py: the closed taxonomy of wire errors. An exception is modelled by its class:
-- `structured` holds a subclass of TrainferError, and the other constructors the built-in
-- exceptions that the modelled code raises or catches. Messages are not part of an exception here.
use trainfer.Prelude.{ℕ, String, Bool, true, false, Option, none, some}

pub data TrainferError : Type 0 where
  base invalid_input unknown_objective unknown_response_id not_found queue_full : TrainferError
  batch_too_large rate_limited shutting_down shutdown_dropped timeout : TrainferError

unfoldable pub code : TrainferError → String
code base = "internal"
code invalid_input = "invalid_input"
code unknown_objective = "unknown_objective"
code unknown_response_id = "unknown_response_id"
code not_found = "not_found"
code queue_full = "queue_full"
code batch_too_large = "batch_too_large"
code rate_limited = "rate_limited"
code shutting_down = "shutting_down"
code shutdown_dropped = "shutdown_dropped"
code timeout = "timeout"

unfoldable pub status_code : TrainferError → ℕ
status_code base = 500
status_code invalid_input = 400
status_code unknown_objective = 400
status_code unknown_response_id = 404
status_code not_found = 404
status_code queue_full = 503
status_code batch_too_large = 413
status_code rate_limited = 429
status_code shutting_down = 503
status_code shutdown_dropped = 503
status_code timeout = 504

unfoldable pub retryable : TrainferError → Bool
retryable queue_full = true
retryable rate_limited = true
retryable shutting_down = true
retryable shutdown_dropped = true
retryable timeout = true
retryable _ = false

unfoldable pub retry_after_ms : TrainferError → Option ℕ
retry_after_ms queue_full = some 500
retry_after_ms _ = none

pub data Raised : Type 0 where
  structured : TrainferError → Raised
  value_error key_error runtime_error : Raised
  -- any other exception, such as one of a library
  foreign : ℕ → Raised

pub data Result {ℓ} (A : Type ℓ) : Type ℓ where
  ok : A → Result A
  raise : Raised → Result A
