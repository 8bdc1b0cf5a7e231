-- ===== src/Replay/Caps.antt =====
-- trainfer/engine/replay.py: the cap on the replays of a record, and how often it is replayed.
use trainfer.Prelude.{
  ℕ, zero, suc, ◌+◌, ◌≤◌, ◌<◌, ◌≡◌, refl, ap, inl, inr, Bool-cases, ==_iff, if◌then◌else◌, Bool,
  true, false, not, Option, none, some, List, [], ◌∷◌, length, ltb, leb, ◌==◌, if_elim, All, arith,
}
use trainfer.Controller.Feedback.{Payload, Batch, feedback_to_batch}
use trainfer.Replay.{
  ReplayPolicy, IdleReplayScheduler, Poll, set_count, candidates, drawn, pick_record, replay_batch,
  replay_chosen, maybe_replay_one, run_polls,
}

abbrev IsUnder : ℕ → (ℕ → ℕ) → ℕ × Payload → Type 0
IsUnder cap counts c = counts c.0 < cap

abbrev IsChoice : ℕ → (ℕ → ℕ) → Option (ℕ × Payload) → Type 0
IsChoice cap counts none = Unit
IsChoice cap counts (some c) = IsUnder cap counts c

candidates-All :
    (cap : ℕ) (counts : ℕ → ℕ) (is_heavy : ℕ → Bool) (records : List (ℕ × Payload))
    → All (IsUnder cap counts) (candidates cap counts is_heavy records)
unfolding candidates
candidates-All cap counts is_heavy [] = tt
candidates-All cap counts is_heavy ((offset, payload) ∷ records) =
    let rest = candidates-All cap counts is_heavy records in
    if_elim (All (IsUnder cap counts)) (leb cap (counts offset)) _ _ (λ _. rest)
      (λ under.
        if_elim (All (IsUnder cap counts)) (not (is_heavy offset)) _ _ (λ _. rest)
          (λ _. (ground arith, rest)))

drawn-IsChoice :
    (cap : ℕ) (counts : ℕ → ℕ) (cs : List (ℕ × Payload)) (i : ℕ)
    → All (IsUnder cap counts) cs
    → IsChoice cap counts (drawn cs i)
drawn-IsChoice cap counts [] i h = tt
drawn-IsChoice cap counts (c ∷ cs) zero h = h.0
drawn-IsChoice cap counts (c ∷ cs) (suc i) h = drawn-IsChoice cap counts cs i h.1

pick_record-IsChoice :
    (policy : ReplayPolicy) (counts : ℕ → ℕ) (poll : Poll)
    → IsChoice policy.max_replays_per_record counts (pick_record policy counts poll)
unfolding pick_record
pick_record-IsChoice policy counts poll =
    let cap = policy.max_replays_per_record in
    let found = candidates cap counts poll.is_heavy poll.records in
    if_elim (IsChoice cap counts) (ltb (length found) policy.min_feedback_records) _ _ (λ _. tt)
      (λ _.
        drawn-IsChoice cap counts found poll.draw
          (candidates-All cap counts poll.is_heavy poll.records))

-- 1 if the poll hands a batch of this record to a `submit_train` that returns, else 0.
abbrev pub is_submitted : Bool → Option Batch → ℕ
is_submitted accepted none = 0
is_submitted accepted (some batch) = if accepted then 1 else 0

abbrev pub is_replay : ℕ → Bool → Option (ℕ × Payload) → ℕ
is_replay offset accepted none = 0
is_replay offset accepted (some (chosen, payload)) =
    if offset == chosen then is_submitted accepted (feedback_to_batch payload none none) else 0

-- At how many of the polls a record is replayed, as a count of its own.
unfoldable pub times_replayed : ReplayPolicy → IdleReplayScheduler → List Poll → ℕ → ℕ
times_replayed policy s [] offset = 0
times_replayed policy s (p ∷ ps) offset =
    is_replay offset p.accepted (pick_record policy s.replayed p)
    + times_replayed policy (maybe_replay_one policy s p).1 ps offset

-- What one poll does to the count of a record that was under the cap: it grows with a replay.
abbrev Counts : ℕ → ℕ → ℕ → ℕ → Type 0
Counts cap count replays count' = (count + replays ≤ count') × (count' ≤ cap)

set_count_other :
    (cap : ℕ) (counts : ℕ → ℕ) (offset chosen n replays : ℕ)
    → counts offset ≤ cap
    → (offset ≡ chosen → Counts cap (counts offset) replays n)
    → Counts cap
        (counts offset)
        (if offset == chosen then replays else 0)
        (set_count counts chosen n offset)
set_count_other cap counts offset chosen n replays le h = elim (Bool-cases (offset == chosen)) [
  | inl hit ↦ rw hit (h ((==_iff offset chosen).0 hit))
  | inr miss ↦ rw miss (omega arith, le)
]

none_here : (b : Bool) → let zero_both : ℕ = if b then 0 else 0 in zero_both ≡ 0
none_here true = refl
none_here false = refl

replay_batch-Counts :
    (policy : ReplayPolicy) (s : IdleReplayScheduler) (offset chosen : ℕ) (accepted : Bool)
    (spec : Option Batch)
    → s.replayed chosen < policy.max_replays_per_record
    → s.replayed offset ≤ policy.max_replays_per_record
    → Counts policy.max_replays_per_record
        (s.replayed offset)
        (if offset == chosen then is_submitted accepted spec else 0)
        ((replay_batch policy s chosen accepted spec).replayed offset)
replay_batch-Counts policy s offset chosen accepted none h le =
    set_count_other policy.max_replays_per_record s.replayed offset chosen
      policy.max_replays_per_record 0 le (λ e. (omega arith, omega arith))
replay_batch-Counts policy s offset chosen true (some b) h le =
    set_count_other policy.max_replays_per_record s.replayed offset chosen (suc (s.replayed chosen))
      1 le (λ e. let same = ap s.replayed e in (omega (arith, same), omega (arith, h)))
replay_batch-Counts policy s offset chosen false (some b) h le =
    (omega (arith, none_here (offset == chosen)), le)

replay_chosen-Counts :
    (policy : ReplayPolicy) (s : IdleReplayScheduler) (offset : ℕ) (accepted : Bool)
    (choice : Option (ℕ × Payload))
    → IsChoice policy.max_replays_per_record s.replayed choice
    → s.replayed offset ≤ policy.max_replays_per_record
    → Counts policy.max_replays_per_record
        (s.replayed offset)
        (is_replay offset accepted choice)
        ((replay_chosen policy s accepted choice).1.replayed offset)
unfolding replay_chosen
replay_chosen-Counts policy s offset accepted none h le = (omega arith, le)
replay_chosen-Counts policy s offset accepted (some (chosen, payload)) h le =
    replay_batch-Counts policy s offset chosen accepted (feedback_to_batch payload none none) h le

-- Over any polls, whatever is drawn, whether a record can be routed or not, and whether or not
-- `submit_train` raises: a record's earlier count and the polls at which a batch of it is accepted
-- are together at most its count, and that is at most the cap, if the earlier count was. So no record
-- is replayed more often than the cap allows.
pub times_replayed-IsCapped :
    (policy : ReplayPolicy) (s : IdleReplayScheduler) (polls : List Poll) (offset : ℕ)
    → s.replayed offset ≤ policy.max_replays_per_record
    → (s.replayed offset + times_replayed policy s polls offset
        ≤ (run_polls policy s polls).replayed offset)
      × ((run_polls policy s polls).replayed offset ≤ policy.max_replays_per_record)
unfolding run_polls times_replayed maybe_replay_one
times_replayed-IsCapped policy s [] offset h = (omega arith, h)
times_replayed-IsCapped policy s (p ∷ ps) offset h =
    let (grows, within) =
      replay_chosen-Counts policy s offset p.accepted (pick_record policy s.replayed p)
        (pick_record-IsChoice policy s.replayed p) h in
    let (later, capped) =
      times_replayed-IsCapped policy (maybe_replay_one policy s p).1 ps offset within in
    (omega (arith, grows, later), capped)
