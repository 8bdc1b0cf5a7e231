-- ===== src/Tests/MemorizeRuns.antt =====
-- trainfer/memorize.py: a call that reaches the threshold in its second step.
use trainfer.Prelude.{ℕ, zero, suc, ◌+◌, ◌≡◌, refl, none}
use trainfer.Errors.{Result, ok}
use trainfer.Memorize.{Rank, Settings, Summary, reaches, improves, rounds, iterate_memorize}
use trainfer.Memorize.Ends.{Ends, iterate_memorize-Ends}

abbrev settings : Settings
settings = record { max_steps = 5; threshold = 950; plateau_patience = 3 }

abbrev submits : ℕ → Result ℕ
submits n = ok (6 + n)

abbrev evals : ℕ → Result Rank
evals zero = ok (record { matched = 2; total = 10 })
evals (suc zero) = ok (record { matched = 7; total = 10 })
evals (suc (suc n)) = ok (record { matched = 10; total = 10 })

abbrev steps_of : Result Summary → ℕ
steps_of (ok s) = s.steps
steps_of _ = 99

second_step : steps_of (iterate_memorize settings submits evals none) ≡ 2
unfolding iterate_memorize rounds reaches improves
second_step = refl

iterate_memorize-Ends_example :
    Ends settings submits evals (iterate_memorize settings submits evals none)
iterate_memorize-Ends_example = iterate_memorize-Ends settings submits evals none
