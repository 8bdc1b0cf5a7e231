-- ===== src/Controller/Shutdown.antt =====
-- trainfer/controller.py: `graceful_shutdown`, and the calls that it makes the controller refuse. While
-- the shutdown awaits the end of the schedulers' coroutines, the queue goes on as `stopping` says. The
-- exception at which such a coroutine has ended, if it has, is an argument: `stop` awaits the
-- coroutine and catches only the time limit.
pub mod Down
use trainfer.Prelude.{
  ℕ, String, Bool, true, false, Option, none, some, List, [], ◌∷◌, if◌then◌else◌,
}
use trainfer.Errors.{Raised, structured, shutting_down, Result, ok, raise}
use trainfer.Queue.{ComputeQueue, submit}
use trainfer.Queue.Schedule.{Event, run}
use trainfer.Queue.Drain.{DrainReport, graceful_drain}
use trainfer.CommitStream.{CommitBroadcaster, broadcast_shutdown}
use trainfer.Controller.Feedback.{Payload, Prior, Batch, submit_feedback}
use trainfer.Controller.Train.{TrainSpec, TrainReply, Front, submit_train}

-- The parts of a controller that a shutdown touches, or that `submit_train` uses.
pub record Running (P R : Type 0) : Type 0 where
  pub queue : ComputeQueue P R
  pub commits : CommitBroadcaster
  pub is_shutting_down : Bool
  pub has_ttrl : Bool
  pub has_replay : Bool
  pub logger_closed : Bool
  pub max_samples : ℕ
  pub queue_depth_high_total : ℕ

pub data ShutdownReport : Type 0 where
  already_shut_down : ShutdownReport
  drained : DrainReport → ShutdownReport

-- What the stop of a scheduler raises: nothing where there is no scheduler.
abbrev pub stop_error : Bool → Option Raised → Option Raised
stop_error false crash = none
stop_error true crash = crash

module _ {P R : Type 0} where
  -- When both schedulers have been awaited, or the first of them that raises.
  abbrev pub flagged : Running P R → List (Event P R) → Running P R
  flagged c stopping = record c {
    queue = run c.queue stopping;
    commits = broadcast_shutdown c.commits;
    is_shutting_down = true;
  }

  abbrev pub after_stops :
      Running P R
      → Option Raised
      → Option Raised
      → List (Event P R)
      → List (Event P R)
      → Result ShutdownReport × Running P R
  after_stops c (some e) replay_error before grace = (raise e, c)
  after_stops c none (some e) before grace = (raise e, record c { has_ttrl = false })
  after_stops c none none before grace =
      let (report, q) = graceful_drain c.queue before grace in
      (
        ok (drained report),
        record c { queue = q; has_ttrl = false; has_replay = false; logger_closed = true },
      )

  unfoldable pub graceful_shutdown :
      Running P R
      → Option Raised
      → Option Raised
      → List (Event P R)
      → List (Event P R)
      → List (Event P R)
      → Result ShutdownReport × Running P R
  graceful_shutdown c ttrl_crash replay_crash stopping before grace =
      let out =
        after_stops (flagged c stopping) (stop_error c.has_ttrl ttrl_crash)
          (stop_error c.has_replay replay_crash) before grace in
      if c.is_shutting_down then (ok already_shut_down, c) else out

  -- `request_merge`, `request_snapshot_save`, `request_snapshot_load` and `submit_eval_greedy_rank` up
  -- to their `wait_for`: they differ in the kind and the payload.
  unfoldable pub request : Running P R → ℕ → String → P → Result ℕ × Running P R
  request c now kind payload =
      let (r, q) = submit c.queue now kind payload "" in
      if c.is_shutting_down
      then (raise (structured shutting_down), c)
      else (r, record c { queue = q })

  -- `submit_feedback` up to its call of `submit_train`: what it logs, and the batch.
  unfoldable pub feedback : Running P R → Payload → Option Prior → Option Payload × Result Batch
  feedback c payload prior =
      let out = submit_feedback payload prior in
      if c.is_shutting_down then (none, raise (structured shutting_down)) else out

module _ {S R : Type 0} where
  abbrev pub front : Running (TrainSpec S) R → Front S R
  front c = record {
    queue = c.queue;
    shutting_down = c.is_shutting_down;
    max_samples = c.max_samples;
    queue_depth_high_total = c.queue_depth_high_total;
  }

  -- `submit_train` on the controller.
  unfoldable pub train :
      Running (TrainSpec S) R
      → (ℕ → ℕ)
      → TrainSpec S
      → String
      → Result TrainReply × Running (TrainSpec S) R
  train c clock spec batch_id =
      let (reply, f) = submit_train (front c) clock spec batch_id in
      (reply, record c { queue = f.queue; queue_depth_high_total = f.queue_depth_high_total })
