-- ===== src/Queue/Drain.antt =====
-- trainfer/queue.py: `graceful_drain` as a whole. While it awaits the worker, the event loop runs
-- whatever the schedule says: `before` up to the worker's exit or the deadline, `grace` up to the
-- exit or the end of the grace period.
pub mod Closing
pub mod Rounds
pub mod Completion
use trainfer.Prelude.{
  ℕ, zero, suc, ◌+◌, ◌≤◌, ◌<◌, ◌≡◌, ◌⊎◌, inl, inr, refl, Bool, true, false, List, [], ◌∷◌, ◌++◌,
  length, arith, ap, sym, ◌∙◌, if◌then◌else◌, if_elim, String, leb, ◌&&◌, not, ◌||◌,
}
use trainfer.Errors.{Result, ok, raise}
use trainfer.Queue.{
  Worker, ComputeQueue, Job, is_empty, poll, poll_at, get, get_at, take_item, finish, finish_at,
  settle, advance, update,
}
use trainfer.Queue.Shutdown.{
  begin_drain, hard_stop_now, release, reap_pending, reap_all, has_exited, worker_gone,
}
use trainfer.Queue.Schedule.{
  Event, polls, gets, finishes, deadline, releases, drains, reaps, step, run,
}
use trainfer.Queue.Cursor.{running, IsSafe}
use trainfer.Queue.Order.{line, IsOrdered, IsClosed, InOrder}
use trainfer.Queue.Progress.{run-Forward}
use trainfer.Queue.Order.Reaping.{reap_pending-IsClosed, reap_pending-IsClosed_again}
use trainfer.Queue.Order.Runs.{Reach, next, Fair, IsOrderly, Reach-IsOrderly}

pub record DrainReport : Type 0 where
  pub dropped : ℕ
  pub timed_out : Bool

module _ {P R : Type 0} where
  abbrev pub reaped : ComputeQueue P R → Bool → DrainReport × ComputeQueue P R
  reaped q timed_out =
      let (q', n) = reap_pending q in (record { dropped = n; timed_out = timed_out }, q')

  unfoldable pub graceful_drain :
      ComputeQueue P R → List (Event P R) → List (Event P R) → DrainReport × ComputeQueue P R
  graceful_drain q before grace =
      let q₁ = begin_drain q in
      if worker_gone q₁
      then reaped q₁ false
      else let q₂ = run q₁ before in
        if has_exited q₂.worker
        then reaped (release q₂) false
        else reaped (release (run (hard_stop_now q₂) grace)) true

  -- A schedule that is fair at each of its states.
  abbrev pub FairRun : ComputeQueue P R → List (Event P R) → Type 0
  FairRun q [] = Unit
  FairRun q (e ∷ es) = Fair q e × FairRun (step q e) es

  pub Reach-run :
      (max_depth : ℕ) (blank : Job P) (q : ComputeQueue P R) (es : List (Event P R))
      → FairRun q es
      → Reach max_depth blank q
      → Reach max_depth blank (run q es)
  unfolding run
  Reach-run max_depth blank q [] f r = r
  Reach-run max_depth blank q (e ∷ es) f r =
      Reach-run max_depth blank (step q e) es f.1 (next r e f.0)

  pub Reach-begin_drain :
      (max_depth : ℕ) (blank : Job P) (q : ComputeQueue P R)
      → Reach max_depth blank q
      → Reach max_depth blank (begin_drain q)
  Reach-begin_drain max_depth blank q r = unfold step in next r drains tt

  pub Reach-hard_stop_now :
      (max_depth : ℕ) (blank : Job P) (q : ComputeQueue P R)
      → Reach max_depth blank q
      → Reach max_depth blank (hard_stop_now q)
  Reach-hard_stop_now max_depth blank q r = unfold step in next r deadline tt

  pub Reach-release :
      (max_depth : ℕ) (blank : Job P) (q : ComputeQueue P R)
      → Reach max_depth blank q
      → Reach max_depth blank (release q)
  Reach-release max_depth blank q r = unfold step in next r releases tt
