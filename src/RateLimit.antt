-- ===== src/RateLimit.antt =====
-- trainfer/server.py: TokenBucket and RateLimiter. Time is in microseconds of the monotonic clock, a
-- rate in whole tokens for a second, and tokens in millionths, so that a microsecond adds `rate` of them;
-- the code computes them in floats. A rate of None or not above 0 is `none`.
pub mod Burst
use trainfer.Prelude.{
  ℕ, zero, suc, ◌+◌, ◌-◌, ◌*◌, String, Bool, true, false, Option, none, some, List, [], ◌∷◌, leb,
  ltb, str_eq, if◌then◌else◌,
}
use trainfer.Errors.{structured, rate_limited, Result, ok, raise}

pub record TokenBucket : Type 0 where
  pub rate : ℕ
  pub capacity : ℕ
  pub tokens : ℕ
  pub last_update : ℕ

unfoldable pub new_bucket : ℕ → ℕ → ℕ → TokenBucket
new_bucket rate capacity now = record {
  rate = rate;
  capacity = capacity;
  tokens = capacity;
  last_update = now;
}

abbrev pub min : ℕ → ℕ → ℕ
min a b = if leb a b then a else b

-- The tokens that are there at a time, before any is taken.
abbrev pub refill : TokenBucket → ℕ → ℕ
refill b now = min b.capacity (b.tokens + (now - b.last_update) * b.rate)

unfoldable pub consume : TokenBucket → ℕ → ℕ → Bool × TokenBucket
consume b wanted now =
    let have = refill b now in
    if leb wanted have
    then (true, record b { tokens = have - wanted; last_update = now })
    else (false, record b { tokens = have; last_update = now })

abbrev pub Buckets : Type 0
Buckets = List (String × TokenBucket)

unfoldable pub find : String → Buckets → Option TokenBucket
find client [] = none
find client ((c, b) ∷ bs) = let later = find client bs in if str_eq c client then some b else later

unfoldable pub put : String → TokenBucket → Buckets → Buckets
put client b [] = (client, b) ∷ []
put client b ((c, a) ∷ bs) =
    let rest = put client b bs in if str_eq c client then (c, b) ∷ bs else (c, a) ∷ rest

-- The bucket of a client, made full on its first request.
abbrev pub bucket_or_new : ℕ → ℕ → Option TokenBucket → TokenBucket
bucket_or_new rps now none = new_bucket rps (1000000 * (if ltb rps 1 then 1 else rps)) now
bucket_or_new rps now (some b) = b

abbrev pub admitted_or_limited : Bool → Result (Unit {0})
admitted_or_limited true = ok tt
admitted_or_limited false = raise (structured rate_limited)

-- `client` is the X-Client-Id header, or the host, or "unknown".
unfoldable pub check : Option ℕ → Buckets → String → ℕ → Result (Unit {0}) × Buckets
check none buckets client now = (ok tt, buckets)
check (some rps) buckets client now =
    let (admitted, b) = consume (bucket_or_new rps now (find client buckets)) 1000000 now in
    (admitted_or_limited admitted, put client b buckets)
