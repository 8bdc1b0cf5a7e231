-- ===== src/Tests/ServerRuns.antt =====
-- trainfer/server_errors.py: a full queue, and a request with four bad fields.
use trainfer.Prelude.{ℕ, ◌≡◌, refl, String, some, [], ◌∷◌, if◌then◌else◌, ◌==◌}
use trainfer.Errors.{queue_full, code, status_code, retryable, retry_after_ms}
use trainfer.ServerErrors.{
  FieldError, trainfer_error, handle, respond, join, format_validation_message,
}
use trainfer.ServerErrors.Sound.{IsSound, handle-IsSound}

abbrev show : ℕ → String
show n = if n == 1 then "1" else "many"

full :
    (handle show (some "req_1") "req_2" (trainfer_error queue_full "")).header_retry_after ≡ some 1
unfolding handle respond code status_code retryable retry_after_ms
full = refl

abbrev missing : String → FieldError
missing field = record { loc = "body" ∷ field ∷ []; msg = some "missing" }

flattened :
    format_validation_message show (missing "a" ∷ missing "b" ∷ missing "c" ∷ missing "d" ∷ [])
    ≡ "a: missing; b: missing; c: missing; (+1 more)"
unfolding format_validation_message join
flattened = refl

handle-IsSound_example : IsSound (handle show (some "req_1") "req_2" (trainfer_error queue_full ""))
handle-IsSound_example = handle-IsSound show (some "req_1") "req_2" (trainfer_error queue_full "")
