-- ===== src/ServerErrors/Sound.antt =====
-- trainfer/server_errors.py: what a client may rely on in every error response.
use trainfer.Prelude.{
  ℕ, ◌≤◌, ◌≡◌, refl, ◌⊎◌, inl, inr, String, Bool, true, false, ◌||◌, Option, none, some, List, [],
  ◌∷◌, leb, ◌==◌, str_eq, if_elim, arith,
}
use trainfer.Errors.{TrainferError, code, status_code, retryable, retry_after_ms}
use trainfer.ServerErrors.{
  error_codes, WebException, trainfer_error, validation, http, unhandled, Response, seconds_of,
  respond, http_code, http_retryable, handle,
}

-- Membership in a list of texts.
abbrev pub Among : String → List String → Type 0
Among s [] = ⊥
Among s (t ∷ ts) = (str_eq s t ≡ true) ⊎ Among s ts

abbrev pub transient : ℕ → Bool
transient status = status == 429 || status == 502 || status == 503 || status == 504

-- The wait in the body and the one in the header.
abbrev pub Waits : Option ℕ → Option ℕ → Type 0
Waits none none = Unit
Waits (some ms) (some s) = 1 ≤ s
Waits _ _ = ⊥

-- What holds of a response: its code is one of the closed list; the body and the header name the
-- same request; the header says how many seconds to wait, one at least, exactly where the body says
-- how many milliseconds; and only 429, 502, 503 and 504 ask for a retry.
pub record IsSound (r : Response) : Type 0 where
  pub closed : Among r.body.code error_codes
  pub same_request : r.body.request_id ≡ r.header_request_id
  pub waits : Waits r.body.retry_after_ms r.header_retry_after
  pub retries : r.body.retryable ≡ true → transient r.status ≡ true

seconds_positive : (ms : ℕ) → 1 ≤ seconds_of ms
seconds_positive ms = ground arith

respond-IsSound :
    (current : Option String) (fresh : String) (status : ℕ) (c message : String) (again : Bool)
    (ms : Option ℕ)
    → Among c error_codes
    → (again ≡ true → transient status ≡ true)
    → IsSound (respond current fresh status c message again ms)
unfolding respond
respond-IsSound current fresh status c message again none a t = record {
  closed = a;
  same_request = refl;
  waits = tt;
  retries = t;
}
respond-IsSound current fresh status c message again (some ms) a t = record {
  closed = a;
  same_request = refl;
  waits = seconds_positive ms;
  retries = t;
}

error-closed : (e : TrainferError) → Among (code e) error_codes
unfolding code error_codes
error-closed TrainferError.base =
    inr (inr (inr (inr (inr (inr (inr (inr (inr (inr (inl refl))))))))))
error-closed TrainferError.invalid_input = inl refl
error-closed TrainferError.unknown_objective = inr (inl refl)
error-closed TrainferError.unknown_response_id = inr (inr (inl refl))
error-closed TrainferError.not_found = inr (inr (inr (inl refl)))
error-closed TrainferError.queue_full = inr (inr (inr (inr (inl refl))))
error-closed TrainferError.batch_too_large = inr (inr (inr (inr (inr (inr (inl refl))))))
error-closed TrainferError.rate_limited = inr (inr (inr (inr (inr (inl refl)))))
error-closed TrainferError.shutting_down = inr (inr (inr (inr (inr (inr (inr (inl refl)))))))
error-closed TrainferError.shutdown_dropped =
    inr (inr (inr (inr (inr (inr (inr (inr (inl refl))))))))
error-closed TrainferError.timeout = inr (inr (inr (inr (inr (inr (inr (inr (inr (inl refl)))))))))

error-transient : (e : TrainferError) → retryable e ≡ true → transient (status_code e) ≡ true
unfolding retryable status_code
error-transient TrainferError.queue_full h = refl
error-transient TrainferError.rate_limited h = refl
error-transient TrainferError.shutting_down h = refl
error-transient TrainferError.shutdown_dropped h = refl
error-transient TrainferError.timeout h = refl
error-transient TrainferError.base h = ground arith
error-transient TrainferError.invalid_input h = ground arith
error-transient TrainferError.unknown_objective h = ground arith
error-transient TrainferError.unknown_response_id h = ground arith
error-transient TrainferError.not_found h = ground arith
error-transient TrainferError.batch_too_large h = ground arith

http-closed : (status : ℕ) → Among (http_code status) error_codes
unfolding http_code error_codes
http-closed status =
    let P : String → Type 0 = λ s. Among s error_codes in
    if_elim P (status == 400) _ _ (λ _. inl refl)
      (λ _.
        if_elim P (status == 404) _ _ (λ _. inr (inr (inr (inl refl))))
          (λ _.
            if_elim P (status == 503) _ _ (λ _. inr (inr (inr (inr (inr (inr (inr (inl refl))))))))
              (λ _.
                if_elim P (status == 504) _ _
                  (λ _. inr (inr (inr (inr (inr (inr (inr (inr (inr (inl refl))))))))))
                  (λ _.
                    if_elim P (leb 500 status) _ _
                      (λ _. inr (inr (inr (inr (inr (inr (inr (inr (inr (inr (inl refl)))))))))))
                      (λ _. inl refl)))))

http-transient : (status : ℕ) → http_retryable status ≡ true → transient status ≡ true
unfolding http_retryable
http-transient status h = ground arith

-- Whatever exception a route raises, its response is sound: a code of the closed list, one request
-- id in the body and in the header, a Retry-After of a second or more exactly where the body has a
-- retry_after_ms, and `retryable` only on the statuses 429, 502, 503 and 504.
pub handle-IsSound :
    (show : ℕ → String) (current : Option String) (fresh : String) (e : WebException)
    → IsSound (handle show current fresh e)
unfolding handle
handle-IsSound show current fresh (trainfer_error e message) =
    respond-IsSound current fresh (status_code e) (code e) _ (retryable e) (retry_after_ms e)
      (error-closed e) (error-transient e)
handle-IsSound show current fresh (validation errors) =
    respond-IsSound current fresh 400 "invalid_input" _ false none
      (unfold code in error-closed TrainferError.invalid_input) (λ h. ground arith)
handle-IsSound show current fresh (http status detail) =
    respond-IsSound current fresh status (http_code status) _ (http_retryable status) none
      (http-closed status) (http-transient status)
handle-IsSound show current fresh unhandled =
    respond-IsSound current fresh 500 "internal" _ false none
      (unfold code in error-closed TrainferError.base) (λ h. ground arith)
