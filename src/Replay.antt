-- ===== src/Replay.antt =====
-- trainfer/engine/replay.py: the scheduler that trains again on logged feedback while the queue is
-- idle. The decay of a record's weight and the random draw are arguments: `is_heavy` tells whether
-- a record's weight is positive, and a Poll holds the number that `random.choices` draws, the
-- feedback records of the log with their offsets, and whether `submit_train` returns.
pub mod Caps
use trainfer.Prelude.{
  ℕ, zero, suc, Bool, true, false, not, Option, none, some, List, [], ◌∷◌, length, ltb, leb, ◌==◌,
  if◌then◌else◌,
}
use trainfer.Controller.Feedback.{Payload, Batch, feedback_to_batch}

pub record ReplayPolicy : Type 0 where
  pub max_replays_per_record : ℕ
  pub min_feedback_records : ℕ

pub record IdleReplayScheduler : Type 0 where
  pub replayed : ℕ → ℕ  -- offset -> count, 0 where it holds none
  pub replays_enqueued : ℕ
  pub replays_skipped_empty : ℕ
  pub replays_skipped_capped : ℕ
  pub last_replay_offset : Option ℕ

pub record Poll : Type 0 where
  pub records : List (ℕ × Payload)
  pub is_heavy : ℕ → Bool
  pub draw : ℕ
  pub accepted : Bool

abbrev pub set_count : (ℕ → ℕ) → ℕ → ℕ → ℕ → ℕ
set_count counts offset n o = if o == offset then n else counts o

unfoldable pub candidates : ℕ → (ℕ → ℕ) → (ℕ → Bool) → List (ℕ × Payload) → List (ℕ × Payload)
candidates cap counts is_heavy [] = []
candidates cap counts is_heavy ((offset, record') ∷ records) =
    let rest = candidates cap counts is_heavy records in
    if leb cap (counts offset)
    then rest
    else if not (is_heavy offset)
    then rest
    else (offset, record') ∷ rest

abbrev pub drawn : List (ℕ × Payload) → ℕ → Option (ℕ × Payload)
drawn [] i = none
drawn (c ∷ cs) zero = some c
drawn (c ∷ cs) (suc i) = drawn cs i

unfoldable pub pick_record : ReplayPolicy → (ℕ → ℕ) → Poll → Option (ℕ × Payload)
pick_record policy counts poll =
    let found = candidates policy.max_replays_per_record counts poll.is_heavy poll.records in
    if ltb (length found) policy.min_feedback_records then none else drawn found poll.draw

-- The submit of a routed record, by whether `submit_train` returns: only then it is counted.
abbrev pub replay_batch :
    ReplayPolicy → IdleReplayScheduler → ℕ → Bool → Option Batch → IdleReplayScheduler
replay_batch policy s offset accepted none = record s {
  replayed = set_count s.replayed offset policy.max_replays_per_record;
  replays_skipped_capped = suc s.replays_skipped_capped;
}
replay_batch policy s offset true (some batch) = record s {
  replayed = set_count s.replayed offset (suc (s.replayed offset));
  replays_enqueued = suc s.replays_enqueued;
  last_replay_offset = some offset;
}
replay_batch policy s offset false (some batch) = s

-- The batch that is handed to `submit_train`, if any, and the scheduler after the poll.
unfoldable pub replay_chosen :
    ReplayPolicy
    → IdleReplayScheduler
    → Bool
    → Option (ℕ × Payload)
    → Option Batch × IdleReplayScheduler
replay_chosen policy s accepted none =
    (none, record s { replays_skipped_empty = suc s.replays_skipped_empty })
replay_chosen policy s accepted (some (offset, payload)) =
    let spec = feedback_to_batch payload none none in
    (spec, replay_batch policy s offset accepted spec)

unfoldable pub maybe_replay_one :
    ReplayPolicy → IdleReplayScheduler → Poll → Option Batch × IdleReplayScheduler
maybe_replay_one policy s poll =
    replay_chosen policy s poll.accepted (pick_record policy s.replayed poll)

-- The polls of `_run` at which the queue was idle.
unfoldable pub run_polls : ReplayPolicy → IdleReplayScheduler → List Poll → IdleReplayScheduler
run_polls policy s [] = s
run_polls policy s (p ∷ ps) = run_polls policy (maybe_replay_one policy s p).1 ps
