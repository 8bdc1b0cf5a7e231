-- ===== src/Queue/Shutdown.antt =====
-- trainfer/queue.py: `stop`, `_reap_pending` and the pieces of `graceful_drain` between its awaits.
use trainfer.Prelude.{ℕ, suc, Bool, true, false, not, ◌||◌, some, List, [], ◌∷◌, if◌then◌else◌}
use trainfer.Errors.{structured, shutdown_dropped}
use trainfer.Queue.{QueueTask, Worker, ComputeQueue, update, advance, collect}

abbrev pub has_exited : Worker → Bool
has_exited Worker.exited = true
has_exited _ = false

module _ {P R : Type 0} where
  -- `stop` up to its await
  unfoldable pub request_stop : ComputeQueue P R → ComputeQueue P R
  request_stop q = record q { stop = true }

  -- `graceful_drain` up to its first await
  unfoldable pub begin_drain : ComputeQueue P R → ComputeQueue P R
  begin_drain q = record q { accepting = false; stop = true }

  -- The drain's deadline has passed.
  unfoldable pub hard_stop_now : ComputeQueue P R → ComputeQueue P R
  hard_stop_now q = record q { hard_stop = true }

  -- `_worker_task = None`
  unfoldable pub release : ComputeQueue P R → ComputeQueue P R
  release q = record q { has_worker_task = false }

  -- `self._worker_task is None or self._worker_task.done()`
  unfoldable pub worker_gone : ComputeQueue P R → Bool
  worker_gone q = not q.has_worker_task || has_exited q.worker

  abbrev pub drop_task : QueueTask P R → QueueTask P R
  drop_task task = record task { error = some (structured shutdown_dropped); done = true }

  -- One round of the loop in `_reap_pending`, with the count of the dropped tasks.
  unfoldable pub reap_one : ComputeQueue P R × ℕ → ℕ → ComputeQueue P R × ℕ
  reap_one (q, dropped) t = if (q.tasks t).done then (q, dropped) else (
    record q {
      tasks = update q.tasks t (drop_task (q.tasks t));
      completed = advance q.completed t;
    },
    suc dropped,
  )

  unfoldable pub reap_all : ComputeQueue P R × ℕ → List ℕ → ComputeQueue P R × ℕ
  reap_all qd [] = qd
  reap_all qd (t ∷ ts) = reap_all (reap_one qd t) ts

  -- `_reap_pending`: the queue, and the number of dropped tasks
  unfoldable pub reap_pending : ComputeQueue P R → ComputeQueue P R × ℕ
  reap_pending q =
      let (q', dropped) = reap_all (q, 0) q.pending in
      (record q' { pending = collect q'.completed q'.pending }, dropped)
