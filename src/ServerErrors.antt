-- ===== src/ServerErrors.antt =====
-- trainfer/server_errors.py with trainfer/errors.py (`envelope_payload`, `ERROR_CODES`) and
-- trainfer/middleware.py (the bound request id): the response that each exception of a handler
-- becomes. `show` stands for Python's `str` of a number, and `fresh` for a new request id.
pub mod Sound
use trainfer.Prelude.{
  ℕ, zero, suc, ◌-◌, ◌/◌, String, Bool, true, false, ◌||◌, ◌&&◌, Option, none, some, List, [], ◌∷◌,
  ◌++◌, length, take, leb, ltb, ◌==◌, str_eq, if◌then◌else◌,
}
use Prim.Native.String.{◌++◌ as string_append}
use mathlib.Core.Option.{get_or, map as option_map}
use trainfer.Errors.{TrainferError, code, status_code, retryable, retry_after_ms}

unfoldable pub error_codes : List String
error_codes =
    "invalid_input" ∷ "unknown_objective" ∷ "unknown_response_id" ∷ "not_found" ∷ "queue_full"
    ∷ "rate_limited" ∷ "batch_too_large" ∷ "shutting_down" ∷ "shutdown_dropped" ∷ "timeout"
    ∷ "internal" ∷ []

-- One error of a RequestValidationError: `loc`, each part as its text, and `msg`.
pub record FieldError : Type 0 where
  pub loc : List String
  pub msg : Option String

pub data WebException : Type 0 where
  trainfer_error : TrainferError → String → WebException
  validation : List FieldError → WebException
  http : ℕ → String → WebException
  unhandled : WebException

pub record Envelope : Type 0 where
  pub code : String
  pub message : String
  pub retryable : Bool
  pub request_id : String
  pub retry_after_ms : Option ℕ

pub record Response : Type 0 where
  pub status : ℕ
  pub body : Envelope
  pub header_request_id : String
  pub header_retry_after : Option ℕ  -- seconds

-- a or b, for texts
abbrev or_text : String → String → String
or_text a b = if str_eq a "" then b else a

abbrev resolve_request_id : Option String → String → String
resolve_request_id none fresh = fresh
resolve_request_id (some rid) fresh = rid

-- max(1, ms // 1000)
abbrev pub seconds_of : ℕ → ℕ
seconds_of ms = let s = ms / 1000 in if ltb s 1 then 1 else s

unfoldable pub respond : Option String → String → ℕ → String → String → Bool → Option ℕ → Response
respond current fresh status code message retryable retry_after_ms =
    let rid = resolve_request_id current fresh in
    record {
      status = status;
      body = record {
        code = code;
        message = message;
        retryable = retryable;
        request_id = rid;
        retry_after_ms = retry_after_ms;
      };
      header_request_id = rid;
      header_retry_after = option_map seconds_of retry_after_ms;
    }

unfoldable pub join : String → List String → String
join sep [] = ""
join sep (s ∷ []) = s
join sep (s ∷ t ∷ ts) = string_append s (string_append sep (join sep (t ∷ ts)))

abbrev drop_body : List String → List String
drop_body [] = []
drop_body (x ∷ xs) = let rest = drop_body xs in if str_eq x "body" then rest else x ∷ rest

abbrev bit : FieldError → String
bit e =
    let loc = join "." (drop_body e.loc) in
    let msg = get_or e.msg "invalid value" in
    if str_eq loc "" then msg else string_append loc (string_append ": " msg)

abbrev bits : List FieldError → List String
bits [] = []
bits (e ∷ es) = bit e ∷ bits es

unfoldable pub http_code : ℕ → String
http_code status =
    if status == 400
    then "invalid_input"
    else if status == 404
    then "not_found"
    else if status == 503
    then "shutting_down"
    else if status == 504
    then "timeout"
    else if leb 500 status
    then "internal"
    else "invalid_input"

unfoldable pub http_retryable : ℕ → Bool
http_retryable status = status == 502 || status == 503 || status == 504

module _ (show : ℕ → String) where
  abbrev more : List FieldError → List String
  more errors =
      if ltb 3 (length errors)
      then string_append "(+" (string_append (show (length errors - 3)) " more)") ∷ []
      else []

  -- "; ".join(bits) or "invalid input"
  unfoldable pub format_validation_message : List FieldError → String
  format_validation_message errors =
      or_text (join "; " (bits (take 3 errors) ++ more errors)) "invalid input"

  -- The handler of each class, as `register_error_handlers` installs them.
  unfoldable pub handle : Option String → String → WebException → Response
  handle current fresh (trainfer_error e message) =
      respond current fresh (status_code e) (code e) (or_text message (code e)) (retryable e)
        (retry_after_ms e)
  handle current fresh (validation errors) =
      respond current fresh 400 "invalid_input" (format_validation_message errors) false none
  handle current fresh (http status detail) =
      respond current fresh status (http_code status) (or_text detail (http_code status))
        (http_retryable status) none
  handle current fresh unhandled =
      respond current fresh 500 "internal" "internal server error" false none
