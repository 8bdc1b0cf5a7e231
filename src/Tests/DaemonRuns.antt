-- ===== src/Tests/DaemonRuns.antt =====
-- trainfer/controller.py: a daemon with one subscriber that trains on a batch and then merges.
use trainfer.Prelude.{ℕ, ◌≡◌, refl, String, true, none, some, List, [], ◌∷◌, arith}
use trainfer.Errors.{ok, raise, value_error}
use trainfer.Queue.{
  Job, init, is_full, enqueue, submit, try_submit, start, poll, poll_at, get, get_at, take_item,
  finish, finish_at, settle,
}
use trainfer.Queue.Schedule.{tries, starts, polls, gets, step}
use trainfer.Queue.Cursor.{init-IsSafe}
use trainfer.CommitStream.{pos, new, subscribe, broadcast_commit, count_full}
use trainfer.CommitStream.Accounts.{subscribes, act}
use trainfer.Controller.Handler.{
  Work, Engine, handle_task, Daemon, Moment, queues, works, streams, daemon_step, daemon_run,
  train_step,
}
use trainfer.Controller.Handler.Commits.{IsCommitted, daemon_run-IsCommitted}

abbrev join : List String → String
join names = "multi"

abbrev work : Work ℕ
work = record {
  spec = record {
    objective = some "sft";
    objectives = [];
    samples = 1 ∷ 2 ∷ [];
    chunk_size = none;
  };
  name = none;
  prompt = none;
  response = none;
}

abbrev blank : Job (Work ℕ)
blank = record { token = 0; kind = ""; payload = work; batch_id = "" }

abbrev engine : Engine
engine = record {
  trained = ok (record { loss_milli = some (pos 250); components = [] });
  merged = ok 1;
  saved = ok tt;
  loaded = ok tt;
  rank = ok (1, 2);
  reset = raise value_error;
}

abbrev daemon : Daemon ℕ
daemon = record { queue = init 4 blank; commits = new true; log = [] }

abbrev moments : List (Moment ℕ)
moments =
    streams (subscribes 2)
    ∷ queues starts
    ∷ queues (tries 10 "train" work "b")
    ∷ queues (tries 11 "merge" work "")
    ∷ queues polls
    ∷ queues gets
    ∷ works "t" engine
    ∷ []

trained : (daemon_run join daemon moments).log ≡ train_step "b" "sft" (pos 250) 2 0 ∷ []
unfolding daemon_run daemon_step act new subscribe step start try_submit submit enqueue is_full init
    poll poll_at get get_at take_item finish finish_at settle handle_task broadcast_commit
    count_full
trained = refl

daemon-IsCommitted : IsCommitted join daemon
unfolding init new
daemon-IsCommitted = record {
  safe = init-IsSafe 4 blank;
  addressed = λ t lt. absurd (omega (arith, lt));
  events = tt;
}

daemon_run-IsCommitted_example : IsCommitted join (daemon_run join daemon moments)
daemon_run-IsCommitted_example = daemon_run-IsCommitted join daemon moments daemon-IsCommitted
