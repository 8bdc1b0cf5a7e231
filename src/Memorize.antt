-- ===== src/Memorize.antt =====
-- trainfer/memorize.py: `iterate_memorize`, which trains on one answer until the model reproduces it.
-- A rank is the fraction of matched tokens, 1 where there is none; ranks are compared exactly, where
-- the code compares floats. The threshold is in thousandths. What `submit_train` and the evaluation
-- after it give at each step are arguments; a failed `wait_for` is swallowed and changes nothing.
pub mod Ends
use trainfer.Prelude.{
  ℕ, zero, suc, ◌+◌, ◌*◌, Bool, true, false, not, ◌&&◌, Option, none, some, List, [], ◌∷◌, ◌++◌,
  ltb, leb, if◌then◌else◌,
}
use trainfer.Errors.{Result, ok, raise}

pub record Rank : Type 0 where
  pub matched : ℕ
  pub total : ℕ

pub record Step : Type 0 where
  pub step : ℕ
  pub rank : Rank
  pub commit_token : Option ℕ

pub data Reason : Type 0 where
  already_memorized threshold_reached plateau max_steps_done : Reason

pub record Summary : Type 0 where
  pub steps : ℕ
  pub final_rank : Rank
  pub commit_token : Option ℕ
  pub history : List Step
  pub reason : Reason

-- The numerator and the denominator that count for a comparison.
abbrev parts : Rank → ℕ × ℕ
parts r = parts_of r.matched r.total
  where
    parts_of : ℕ → ℕ → ℕ × ℕ
    parts_of m zero = (1, 1)
    parts_of m (suc t) = (m, suc t)

-- rank >= threshold
unfoldable pub reaches : ℕ → Rank → Bool
reaches threshold r = let (m, t) = parts r in leb (threshold * t) (1000 * m)

-- rank > best + 1e-6
unfoldable pub improves : Rank → Rank → Bool
improves best r =
    let (m, t) = parts r in
    let (bm, bt) = parts best in ltb (1000000 * bm * t + t * bt) (1000000 * m * bt)

-- What the caller chose.
pub record Settings : Type 0 where
  pub max_steps : ℕ
  pub threshold : ℕ
  pub plateau_patience : ℕ

-- The loop's variables: the best rank, the steps since it improved, the token and the rank of the
-- last step, and the history.
pub record Loop : Type 0 where
  pub best_rank : Rank
  pub steps_since_improve : ℕ
  pub commit_token : Option ℕ
  pub rank : Rank
  pub history : List Step

abbrev pub summary : Loop → ℕ → Reason → Summary
summary l n reason = record {
  steps = n;
  final_rank = l.rank;
  commit_token = l.commit_token;
  history = l.history;
  reason = reason;
}

-- The variables after the training and the evaluation of a step.
abbrev pub after_step : Loop → ℕ → ℕ → Rank → Loop
after_step l n token r = record {
  best_rank = if improves l.best_rank r then r else l.best_rank;
  steps_since_improve = if improves l.best_rank r then 0 else suc l.steps_since_improve;
  commit_token = some token;
  rank = r;
  history = l.history ++ record { step = n; rank = r; commit_token = some token } ∷ [];
}

-- The end of a round: it returns, or goes on with `rest`.
abbrev pub decide : Settings → Loop → Loop → ℕ → Result Summary → Result Summary
decide c old l n rest =
    if reaches c.threshold l.rank
    then ok (summary l n threshold_reached)
    else if not (improves old.best_rank l.rank) && leb c.plateau_patience l.steps_since_improve
    then ok (summary l n plateau)
    else rest

-- A `submit_train` that raises ends the call.
abbrev pub with_token : Result ℕ → (ℕ → Result Summary) → Result Summary
with_token (ok token) f = f token
with_token (raise e) f = raise e

-- An evaluation that raises ends the call as well.
abbrev pub with_rank : Result Rank → (Rank → Result Summary) → Result Summary
with_rank (ok r) f = f r
with_rank (raise e) f = raise e

-- The rounds from step `n` on, of which `left` are left.
unfoldable pub rounds :
    Settings → (ℕ → Result ℕ) → (ℕ → Result Rank) → ℕ → ℕ → Loop → Result Summary
rounds c submits evals zero n l = ok (summary l c.max_steps max_steps_done)
rounds c submits evals (suc left) n l = with_token (submits n) (λ token. with_rank (evals n) (λ r.
    let l' = after_step l n token r in decide c l l' n (rounds c submits evals left (suc n) l')))

-- `evals n` is the rank after step n, or the exception of the evaluation, and `evals 0` the one before any training.
unfoldable pub iterate_memorize :
    Settings → (ℕ → Result ℕ) → (ℕ → Result Rank) → Option ℕ → Result Summary
iterate_memorize c submits evals committed = with_rank (evals 0) (λ r.
    let start : Loop = record {
      best_rank = r;
      steps_since_improve = 0;
      commit_token = none;
      rank = r;
      history = record { step = 0; rank = r; commit_token = none } ∷ [];
    } in
    let rest = rounds c submits evals c.max_steps 1 start in
    if reaches c.threshold r
    then ok (summary (record start { commit_token = committed }) 0 already_memorized)
    else rest)
