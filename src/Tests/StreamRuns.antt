-- ===== src/Tests/StreamRuns.antt =====
-- trainfer/commit_stream.py: a subscriber of one place and one of two, the first of which misses a
-- commit.
use trainfer.Prelude.{ℕ, ◌+◌, ◌≡◌, refl, true, List, [], ◌∷◌, length}
use trainfer.CommitStream.{
  pos, CommitEvent, commit, CommitBroadcaster, new, subscribe, consume, broadcast_commit,
  count_full,
}
use trainfer.CommitStream.Accounts.{
  waiting, Action, subscribes, consumes, broadcasts, act, broadcast-accounts,
}
use trainfer.CommitStream.Cursors.{acts}
use trainfer.CommitStream.Reads.{received, sent, received-Sublist}
use mathlib.Core.List.{Sublist}

abbrev event : ℕ → CommitEvent
event n = record {
  cursor = n;
  ts = "2026-01-01T00:00:00Z";
  objective = "sft";
  loss_milli = pos 250;
  components = [];
  batch_size = 2;
}

abbrev actions : List Action
actions =
    subscribes 1 ∷ subscribes 2 ∷ broadcasts (event 0) ∷ broadcasts (event 1) ∷ consumes 0 ∷ []

abbrev two_slow : CommitBroadcaster
two_slow = acts (new true) actions

one_dropped : (two_slow.drops ≡ 1) × (waiting two_slow.subscribers ≡ 2)
unfolding acts act new subscribe broadcast_commit consume count_full waiting
one_dropped = (refl, refl)

two_slow_on : two_slow.enabled ≡ true
unfolding acts act new subscribe broadcast_commit consume count_full
two_slow_on = refl

broadcast-accounts_example :
    waiting (broadcast_commit two_slow (event 2)).subscribers
      + (broadcast_commit two_slow (event 2)).drops
    ≡ waiting two_slow.subscribers + two_slow.drops + length two_slow.subscribers
broadcast-accounts_example = broadcast-accounts two_slow (event 2) two_slow_on

-- The one of one place has read the first commit and missed the second, which still waits for the other.
read_and_missed :
    (received 0 (new true) actions ≡ commit (event 0) ∷ [])
    × (received 1 (new true) actions ≡ commit (event 0) ∷ commit (event 1) ∷ [])
unfolding received acts act new subscribe broadcast_commit consume
read_and_missed = (refl, refl)

received-Sublist_example : Sublist (received 0 (new true) actions) (sent actions)
received-Sublist_example = received-Sublist true 0 actions
