-- ===== src/Tests/LimitRuns.antt =====
-- trainfer/server.py: a bucket of two tokens, asked three times at once and once a second later.
use trainfer.Prelude.{ℕ, ◌+◌, ◌-◌, ◌*◌, ◌≤◌, ◌≡◌, refl, List, [], ◌∷◌, arith}
use trainfer.RateLimit.{TokenBucket, consume}
use trainfer.RateLimit.Burst.{admitted, Rises, last_time, admitted_bound}

abbrev bucket : TokenBucket
bucket = record { rate = 2; capacity = 2000000; tokens = 2000000; last_update = 0 }

abbrev times : List ℕ
times = 0 ∷ 0 ∷ 0 ∷ 1000000 ∷ []

three_granted : admitted bucket 1000000 times ≡ 3
unfolding admitted consume
three_granted = refl

times_rise : Rises 0 times
times_rise = (omega arith, (omega arith, (omega arith, (omega arith, tt))))

admitted_bound_example :
    admitted bucket 1000000 times * 1000000 ≤ bucket.tokens + (last_time 0 times - 0) * bucket.rate
admitted_bound_example = admitted_bound bucket 1000000 times times_rise
