-- ===== src/Memorize/Ends.antt =====
-- trainfer/memorize.py: how the loop ends.
use trainfer.Prelude.{
  ℕ, zero, suc, ◌+◌, ◌≤◌, ◌<◌, ◌≡◌, ◌⊎◌, inl, inr, refl, ◌∙◌, true, false, not, ◌&&◌, Option, none,
  some, List, [], ◌∷◌, ◌++◌, length, length-append, leb, if_elim, All, All-append, arith,
}
use trainfer.Errors.{Result, ok, raise}
use trainfer.Memorize.{
  Rank, Step, Reason, already_memorized, threshold_reached, plateau, max_steps_done, Summary,
  reaches, improves, Settings, Loop, after_step, decide, with_token, with_rank, rounds,
  iterate_memorize,
}

-- What a reason says: the rank reached the threshold, or it did not and the steps ran out or had
-- begun.
abbrev pub Justified : Settings → Summary → Reason → Type 0
Justified c s already_memorized = (reaches c.threshold s.final_rank ≡ true) × (s.steps ≡ 0)
Justified c s threshold_reached = (reaches c.threshold s.final_rank ≡ true) × (0 < s.steps)
Justified c s plateau = (reaches c.threshold s.final_rank ≡ false) × (0 < s.steps)
Justified c s max_steps_done = (reaches c.threshold s.final_rank ≡ false) × (s.steps ≡ c.max_steps)

abbrev pub FallsShort : Settings → Step → Type 0
FallsShort c h = reaches c.threshold h.rank ≡ false

-- How a call ends: a submit or an evaluation within the budget raised; or it returns after at most `max_steps` steps,
-- with one entry of the history for each step and one for the start, of which all before the last
-- fall short of the threshold, the last has the final rank, and the reason fits.
abbrev pub Ends : Settings → (ℕ → Result ℕ) → (ℕ → Result Rank) → Result Summary → Type 0
Ends c submits evals (raise e) =
    (n : ℕ) × (n ≤ c.max_steps) × ((submits n ≡ raise e) ⊎ (evals n ≡ raise e))
Ends c submits evals (ok s) =
    (s.steps ≤ c.max_steps)
    × (length s.history ≡ suc s.steps)
    × ((earlier : List Step) × (last : Step) × (s.history ≡ earlier ++ last ∷ [])
        × (last.rank ≡ s.final_rank)
        × All (FallsShort c) earlier)
    × Justified c s s.reason

-- The loop before step n: the history has n entries that fall short, the last with the last rank.
record Ready (c : Settings) (left n : ℕ) (l : Loop) : Type 0 where
  budget : n + left ≡ suc c.max_steps
  started : 0 < n
  counted : length l.history ≡ n
  short : All (FallsShort c) l.history
  ended :
      (earlier : List Step) × (last : Step) × (l.history ≡ earlier ++ last ∷ [])
      × (last.rank ≡ l.rank)
      × All (FallsShort c) earlier
  now_short : reaches c.threshold l.rank ≡ false

Ready-next :
    (c : Settings) (left n : ℕ) (l : Loop) (token : ℕ) (r : Rank)
    → reaches c.threshold r ≡ false
    → Ready c (suc left) n l
    → Ready c left (suc n) (after_step l n token r)
Ready-next c left n l token r short ready =
    let last : Step = record { step = n; rank = r; commit_token = some token } in
    record {
      budget = omega (arith, ready.budget);
      started = omega arith;
      counted = omega (arith, ready.counted, length-append l.history (last ∷ []));
      short = All-append (FallsShort c) l.history (last ∷ []) ready.short (short, tt);
      ended = (l.history, last, refl, refl, ready.short);
      now_short = short;
    }

decide-Ends :
    (c : Settings) (submits : ℕ → Result ℕ) (evals : ℕ → Result Rank) (left n : ℕ) (l : Loop)
    (token : ℕ) (r : Rank) (rest : Result Summary)
    → Ready c (suc left) n l
    → (reaches c.threshold r ≡ false → Ends c submits evals rest)
    → Ends c submits evals (decide c l (after_step l n token r) n rest)
decide-Ends c submits evals left n l token r rest ready go =
    let last : Step = record { step = n; rank = r; commit_token = some token } in
    let within : n ≤ c.max_steps = omega (arith, ready.budget) in
    let count : length (l.history ++ last ∷ []) ≡ suc n =
      omega (arith, ready.counted, length-append l.history (last ∷ [])) in
    if_elim (Ends c submits evals) (reaches c.threshold r) _ _
      (λ hit. (within, count, (l.history, last, refl, refl, ready.short), (hit, ready.started)))
      (λ miss.
        if_elim (Ends c submits evals)
          (not (improves l.best_rank r)
            && leb c.plateau_patience (after_step l n token r).steps_since_improve)
          _ _
          (λ _. (within, count, (l.history, last, refl, refl, ready.short), (miss, ready.started)))
          (λ _. go miss))

turn-Ends :
    (c : Settings) (submits : ℕ → Result ℕ) (evals : ℕ → Result Rank) (left n : ℕ) (l : Loop)
    (o : Result ℕ) (f : ℕ → Result Summary)
    → Ready c (suc left) n l
    → submits n ≡ o
    → ((token : ℕ) → Ends c submits evals (f token))
    → Ends c submits evals (with_token o f)
turn-Ends c submits evals left n l (ok token) f ready e go = go token
turn-Ends c submits evals left n l (raise x) f ready e go = (n, omega (arith, ready.budget), inl e)

rank-Ends :
    (c : Settings) (submits : ℕ → Result ℕ) (evals : ℕ → Result Rank) (n : ℕ) (o : Result Rank)
    (f : Rank → Result Summary)
    → n ≤ c.max_steps
    → evals n ≡ o
    → ((r : Rank) → Ends c submits evals (f r))
    → Ends c submits evals (with_rank o f)
rank-Ends c submits evals n (ok r) f within e go = go r
rank-Ends c submits evals n (raise x) f within e go = (n, within, inr e)

rounds-Ends :
    (c : Settings) (submits : ℕ → Result ℕ) (evals : ℕ → Result Rank) (left n : ℕ) (l : Loop)
    → Ready c left n l
    → Ends c submits evals (rounds c submits evals left n l)
unfolding rounds
rounds-Ends c submits evals zero n l ready =
    let spent : n ≡ suc c.max_steps = omega (arith, ready.budget) in
    (omega arith, ready.counted ∙ spent, ready.ended, (ready.now_short, refl))
rounds-Ends c submits evals (suc left) n l ready =
    turn-Ends c submits evals left n l (submits n) _ ready refl (λ token.
      rank-Ends c submits evals n (evals n) _ (omega (arith, ready.budget)) refl (λ r.
        decide-Ends c submits evals left n l token r _ ready (λ short.
          rounds-Ends c submits evals left (suc n) (after_step l n token r)
            (Ready-next c left n l token r short ready))))

-- Whatever the submits and the evaluations give, `iterate_memorize` comes to an end: the submit
-- or the evaluation of a step within `max_steps` raised that exception, or it returns after at most `max_steps` steps, with a history of
-- one entry for the start and for each step, in which only the last may reach the threshold and has
-- the final rank, and with a reason that fits the final rank and the number of steps.
pub iterate_memorize-Ends :
    (c : Settings) (submits : ℕ → Result ℕ) (evals : ℕ → Result Rank) (committed : Option ℕ)
    → Ends c submits evals (iterate_memorize c submits evals committed)
unfolding iterate_memorize
iterate_memorize-Ends c submits evals committed =
    rank-Ends c submits evals 0 (evals 0) _ (omega arith) refl (λ r.
      let first : Step = record { step = 0; rank = r; commit_token = none } in
      if_elim (Ends c submits evals) (reaches c.threshold r) _ _
        (λ hit. (omega arith, refl, ([], first, refl, refl, tt), (hit, refl)))
        (λ miss. rounds-Ends c submits evals c.max_steps 1 _ (record {
          budget = omega arith;
          started = omega arith;
          counted = refl;
          short = (miss, tt);
          ended = ([], first, refl, refl, tt);
          now_short = miss;
        })))
