-- ===== src/Queue/Schedule.antt =====
-- trainfer/queue.py: executions of the event loop, as sequences of the stretches of code that run
-- between two awaits, and what a reader of the cursor sees (`wait_for`).
use trainfer.Prelude.{ℕ, ltb, String, List, [], ◌∷◌, elem, if◌then◌else◌}
use trainfer.Errors.{Result}
use trainfer.Queue.{
  QueueTask, ComputeQueue, submit, try_submit, resume_put, start, poll, get, finish,
}
use trainfer.Queue.Shutdown.{request_stop, begin_drain, hard_stop_now, release, reap_pending}

pub data Event (P R : Type 0) : Type 0 where
  submits tries : ℕ → String → P → String → Event P R
  resumes starts polls gets : Event P R
  finishes : Result R → Event P R
  stops drains deadline releases reaps : Event P R

-- What `wait_for` does at a moment: it returns a placeholder for a task that is completed and
-- collected, or the task itself, or raises KeyError, or goes on waiting for `done`.
pub data Wait (P R : Type 0) : Type 0 where
  seen unknown blocked : Wait P R
  ready : QueueTask P R → Wait P R

module _ {P R : Type 0} where
  unfoldable pub step : ComputeQueue P R → Event P R → ComputeQueue P R
  step q (submits now kind payload batch_id) = (submit q now kind payload batch_id).1
  step q (tries now kind payload batch_id) = (try_submit q now kind payload batch_id).1
  step q resumes = resume_put q
  step q starts = (start q).1
  step q polls = poll q
  step q gets = get q
  step q (finishes outcome) = finish q outcome
  step q stops = request_stop q
  step q drains = begin_drain q
  step q deadline = hard_stop_now q
  step q releases = release q
  step q reaps = (reap_pending q).0

  unfoldable pub run : ComputeQueue P R → List (Event P R) → ComputeQueue P R
  run q [] = q
  run q (e ∷ es) = run (step q e) es

  abbrev wait_done : QueueTask P R → Wait P R
  wait_done task = if task.done then ready task else blocked

  -- `wait_for` with a token
  unfoldable pub wait_for_token : ComputeQueue P R → ℕ → Wait P R
  wait_for_token q t =
      if elem t q.pending
      then wait_done (q.tasks t)
      else if ltb t q.completed
      then seen
      else unknown

  -- `wait_for` with a task, which is the address of its cell
  unfoldable pub wait_for_task : ComputeQueue P R → ℕ → Wait P R
  wait_for_task q t = wait_done (q.tasks t)
