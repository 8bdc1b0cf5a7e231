-- ===== src/Tests/SchedulerRuns.antt =====
-- trainfer/ttrl_mv.py and trainfer/engine/replay.py: a vote of four rollouts, and polls of both
-- schedulers.
use trainfer.Prelude.{
  ◌≡◌, refl, String, Bool, true, false, Option, none, some, List, ◌+◌, ◌≤◌, [], ◌∷◌, str_eq,
  if◌then◌else◌, take, arith,
}
use trainfer.Ttrl.{
  Keys, TtrlPolicy, TtrlScheduler, Poll, bump, counter, greatest, index_of, majority_from_keys,
  candidates, pick_prompt, run_chosen, sample_rollouts, maybe_run_one, run_polls,
}
use trainfer.Ttrl.Election.{Elects, majority_from_keys-Elects}
use trainfer.Ttrl.Labels.{IsAgreed, maybe_run_one-IsAgreed}
use trainfer.Ttrl.Caps.{times_chosen, times_chosen-IsCapped}
use trainfer.Controller.Feedback.{Payload, feedback_to_batch, route}
use trainfer.Replay.{ReplayPolicy, IdleReplayScheduler}
use trainfer.Replay.Caps.{times_replayed, times_replayed-IsCapped}
use trainfer.Replay

abbrev votes : Keys
votes = some "7" ∷ none ∷ some "4" ∷ some "4" ∷ []

elected_4 : majority_from_keys votes 2 ≡ some (2, "4")
unfolding majority_from_keys counter bump greatest index_of
elected_4 = refl

majority_from_keys-Elects_example : Elects votes 2 (majority_from_keys votes 2)
majority_from_keys-Elects_example = majority_from_keys-Elects votes 2 (omega arith)

abbrev select : String → Option String
select prompt = if str_eq prompt "hi" then none else some "math"

abbrev key : String → String → Option String × Bool
key domain rollout = (if str_eq rollout "?" then none else some rollout, false)

abbrev policy : TtrlPolicy
policy = record { k_rollouts = 4; max_per_prompt = 1; min_prompts = 1 }

abbrev idle : TtrlScheduler
idle = record {
  seen = λ o. 0;
  rollouts_sampled = 0;
  labels_enqueued = 0;
  skipped_no_majority = 0;
  skipped_empty = 0;
  skipped_empty_stdout = 0;
  last_offset = none;
}

abbrev poll : Poll
poll = record {
  records = (0, "2 + 2") ∷ (9, "hi") ∷ [];
  answers = some "7" ∷ none ∷ some "4" ∷ some "4" ∷ [];
  accepted = false;
}

label_4 : (maybe_run_one select key policy idle poll).0 ≡ some "4"
unfolding maybe_run_one pick_prompt candidates run_chosen majority_from_keys counter bump greatest
    index_of
label_4 = refl

maybe_run_one-IsAgreed_example :
    IsAgreed select key
      (sample_rollouts (take 4 poll.answers))
      (maybe_run_one select key policy idle poll).0
maybe_run_one-IsAgreed_example = maybe_run_one-IsAgreed select key policy idle poll

-- Of the two polls, with a submit that fails, the first chooses the prompt and the second does not.
chosen_once : times_chosen select key policy idle (poll ∷ poll ∷ []) 0 ≡ 1
unfolding times_chosen maybe_run_one pick_prompt candidates run_chosen majority_from_keys counter
    bump greatest index_of
chosen_once = refl

times_chosen-IsCapped_example :
    ((run_polls select key policy idle (poll ∷ poll ∷ [])).seen 0
      ≡ idle.seen 0 + times_chosen select key policy idle (poll ∷ poll ∷ []) 0)
    × (idle.seen 0 + times_chosen select key policy idle (poll ∷ poll ∷ []) 0
        ≤ policy.max_per_prompt)
times_chosen-IsCapped_example =
    times_chosen-IsCapped select key policy idle (poll ∷ poll ∷ []) 0 (omega arith)

abbrev thumbs_up : Payload
thumbs_up = record {
  feedback_kind = some "binary";
  kind = some "feedback";
  prompt = some "2 + 2?";
  response = some "4";
  value = some "up";
  better_response = none;
  critique = none;
  weight = none;
}

abbrev replay_policy : ReplayPolicy
replay_policy = record { max_replays_per_record = 2; min_feedback_records = 1 }

abbrev replay_start : IdleReplayScheduler
replay_start = record {
  replayed = λ o. 0;
  replays_enqueued = 0;
  replays_skipped_empty = 0;
  replays_skipped_capped = 0;
  last_replay_offset = none;
}

abbrev replay_poll : Replay.Poll
replay_poll = record {
  records = (3, thumbs_up) ∷ [];
  is_heavy = λ o. true;
  draw = 0;
  accepted = true;
}

abbrev three_polls : List Replay.Poll
three_polls = replay_poll ∷ replay_poll ∷ replay_poll ∷ []

replayed_twice : times_replayed replay_policy replay_start three_polls 3 ≡ 2
unfolding times_replayed Replay.maybe_replay_one Replay.replay_chosen Replay.pick_record
    Replay.candidates feedback_to_batch route
replayed_twice = refl

times_replayed-IsCapped_example :
    (replay_start.replayed 3 + times_replayed replay_policy replay_start three_polls 3
      ≤ (Replay.run_polls replay_policy replay_start three_polls).replayed 3)
    × ((Replay.run_polls replay_policy replay_start three_polls).replayed 3
        ≤ replay_policy.max_replays_per_record)
times_replayed-IsCapped_example =
    times_replayed-IsCapped replay_policy replay_start three_polls 3 (omega arith)
