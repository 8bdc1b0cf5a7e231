-- ===== src/Ttrl.antt =====
-- trainfer/ttrl_mv.py: the majority vote over rollouts, and the scheduler that trains on its winner.
-- The verifier registry, the key of a rollout, and the answers of the model and of `submit_train`
-- are arguments: `select` stands for `verifiers.select`, `key` for `_rollout_key_ext`, and a Poll
-- holds what the trajectory log, `generate` and `submit_train` give to one `_maybe_run_one`.
pub mod Vote
pub mod Labels
pub mod Election
pub mod Caps
use trainfer.Prelude.{
  ℕ, zero, suc, ◌+◌, String, Bool, true, false, Option, none, some, List, [], ◌∷◌, map, length,
  take, ltb, leb, ◌==◌, str_eq, if◌then◌else◌,
}

-- The keys of the rollouts; a key that could not be extracted is `none`.
abbrev pub Keys : Type 0
Keys = List (Option String)

-- One count of collections.Counter; a key that is new stands last.
unfoldable pub bump : String → List (String × ℕ) → List (String × ℕ)
bump k [] = (k, 1) ∷ []
bump k ((w, n) ∷ rest) =
    let bumped = bump k rest in if str_eq k w then (w, suc n) ∷ rest else (w, n) ∷ bumped

unfoldable pub counter : List (String × ℕ) → Keys → List (String × ℕ)
counter cs [] = cs
counter cs (none ∷ ks) = counter cs ks
counter cs (some k ∷ ks) = counter (bump k cs) ks

-- The first of the greatest counts.
unfoldable pub greatest : String × ℕ → List (String × ℕ) → String × ℕ
greatest best [] = best
greatest best (e ∷ es) = greatest (if ltb best.1 e.1 then e else best) es

abbrev pub shifted : Option ℕ → Option ℕ
shifted none = none
shifted (some i) = some (suc i)

-- next(i for i, k in enumerate(keys) if k == winner)
unfoldable pub index_of : String → Keys → Option ℕ
index_of w [] = none
index_of w (none ∷ ks) = shifted (index_of w ks)
index_of w (some k ∷ ks) =
    let later = shifted (index_of w ks) in if str_eq k w then some 0 else later

abbrev pub with_key : String → Option ℕ → Option (ℕ × String)
with_key w none = none
with_key w (some i) = some (i, w)

abbrev pub elected : Keys → ℕ → List (String × ℕ) → Option (ℕ × String)
elected keys min_count [] = none
elected keys min_count (e ∷ es) =
    let (winner, top) = greatest e es in
    if ltb top min_count then none else with_key winner (index_of winner keys)

unfoldable pub majority_from_keys : Keys → ℕ → Option (ℕ × String)
majority_from_keys keys min_count = elected keys min_count (counter [] keys)

pub record TtrlPolicy : Type 0 where
  pub k_rollouts : ℕ
  pub max_per_prompt : ℕ
  pub min_prompts : ℕ

pub record TtrlScheduler : Type 0 where
  pub seen : ℕ → ℕ  -- offset -> count, 0 where it holds none
  pub rollouts_sampled : ℕ
  pub labels_enqueued : ℕ
  pub skipped_no_majority : ℕ
  pub skipped_empty : ℕ
  pub skipped_empty_stdout : ℕ
  pub last_offset : Option ℕ

-- What one poll finds: the inference records with their offsets and prompts, the answer of each
-- `generate` (`none` where it raised), and whether `submit_train` returned.
pub record Poll : Type 0 where
  pub records : List (ℕ × String)
  pub answers : List (Option String)
  pub accepted : Bool

-- rollouts[idx]
abbrev pub rollout_at : List String → ℕ → String
rollout_at [] i = ""
rollout_at (r ∷ rs) zero = r
rollout_at (r ∷ rs) (suc i) = rollout_at rs i

-- The rollouts of the `generate` calls that did not raise.
abbrev pub sample_rollouts : List (Option String) → List String
sample_rollouts [] = []
sample_rollouts (none ∷ rest) = sample_rollouts rest
sample_rollouts (some r ∷ rest) = r ∷ sample_rollouts rest

abbrev pub count_empty : List (Option String × Bool) → ℕ
count_empty [] = 0
count_empty ((k, empty) ∷ ks) = if empty then suc (count_empty ks) else count_empty ks

-- self._seen[offset] = self._seen.get(offset, 0) + 1
abbrev pub burn : (ℕ → ℕ) → ℕ → ℕ → ℕ
burn seen offset o = if o == offset then suc (seen o) else seen o

-- candidates[-1]
abbrev pub last_candidate : List (ℕ × String × String) → Option (ℕ × String × String)
last_candidate [] = none
last_candidate (c ∷ []) = some c
last_candidate (c ∷ d ∷ cs) = last_candidate (d ∷ cs)

-- From the vote on: the cap is burned whether `submit_train` then raises or not.
abbrev pub enqueue_label : TtrlScheduler → ℕ → Bool → Option (ℕ × String) → TtrlScheduler
enqueue_label s offset accepted none = record s {
  seen = burn s.seen offset;
  skipped_no_majority = suc s.skipped_no_majority;
}
enqueue_label s offset true (some vote) = record s {
  seen = burn s.seen offset;
  labels_enqueued = suc s.labels_enqueued;
  last_offset = some offset;
}
enqueue_label s offset false (some vote) = record s { seen = burn s.seen offset }

-- The text that `submit_train` is given as the response of its one sample.
abbrev pub label : List String → Option (ℕ × String) → Option String
label rollouts none = none
label rollouts (some (i, w)) = some (rollout_at rollouts i)

abbrev pub claimed :
    ℕ → String → Option String → List (ℕ × String × String) → List (ℕ × String × String)
claimed offset prompt none rest = rest
claimed offset prompt (some domain) rest = (offset, prompt, domain) ∷ rest

module _ (select : String → Option String) (key : String → String → Option String × Bool) where
  unfoldable pub candidates : ℕ → (ℕ → ℕ) → List (ℕ × String) → List (ℕ × String × String)
  candidates cap seen [] = []
  candidates cap seen ((offset, prompt) ∷ records) =
      let rest = candidates cap seen records in
      if leb cap (seen offset)
      then rest
      else if str_eq prompt ""
      then rest
      else claimed offset prompt (select prompt) rest

  unfoldable pub pick_prompt :
      TtrlPolicy → (ℕ → ℕ) → List (ℕ × String) → Option (ℕ × String × String)
  pick_prompt policy seen records =
      let found = candidates policy.max_per_prompt seen records in
      if ltb (length found) policy.min_prompts then none else last_candidate found

  unfoldable pub run_chosen :
      TtrlPolicy
      → TtrlScheduler
      → Poll
      → Option (ℕ × String × String)
      → Option String × TtrlScheduler
  run_chosen policy s poll none = (none, record s { skipped_empty = suc s.skipped_empty })
  run_chosen policy s poll (some (offset, prompt, domain)) =
      let rollouts = sample_rollouts (take policy.k_rollouts poll.answers) in
      let keyed = map (key domain) rollouts in
      let vote = majority_from_keys (map (λ (k : Option String × Bool). k.0) keyed) 2 in
      (
        label rollouts vote,
        enqueue_label
            (record s {
              rollouts_sampled = s.rollouts_sampled + length rollouts;
              skipped_empty_stdout = s.skipped_empty_stdout + count_empty keyed;
            })
            offset poll.accepted vote,
      )

  unfoldable pub maybe_run_one : TtrlPolicy → TtrlScheduler → Poll → Option String × TtrlScheduler
  maybe_run_one policy s poll = run_chosen policy s poll (pick_prompt policy s.seen poll.records)

  -- The polls of `_run` at which the queue was idle.
  unfoldable pub run_polls : TtrlPolicy → TtrlScheduler → List Poll → TtrlScheduler
  run_polls policy s [] = s
  run_polls policy s (p ∷ ps) = run_polls policy (maybe_run_one policy s p).1 ps
