-- ===== src/Queue/Cursor/Steps.antt =====
-- trainfer/queue.py: what holds of the commit cursor after any sequence of stretches of code.
use trainfer.Prelude.{Bool, true, false, List, [], ◌∷◌, if_elim}
use trainfer.Errors.{Result}
use trainfer.Queue.{ComputeQueue, resume_put, start, poll, get, finish}
use trainfer.Queue.Shutdown.{request_stop, begin_drain, hard_stop_now, release}
use trainfer.Queue.Schedule.{
  Event, submits, tries, resumes, starts, polls, gets, finishes, stops, drains, deadline, releases,
  reaps, step, run,
}
use trainfer.Queue.Cursor.{
  IsSafe, submit-IsSafe, try_submit-IsSafe, resume_first-IsSafe, poll_at-IsSafe, get_at-IsSafe,
  finish_at-IsSafe,
}
use trainfer.Queue.Cursor.Reaping.{reap_pending-IsSafe}

module _ {P R : Type 0} where
  start-IsSafe : (q : ComputeQueue P R) → IsSafe q → IsSafe (start q).1
  unfolding start
  start-IsSafe q s =
      if_elim (λ (r : Result (Unit {0}) × ComputeQueue P R). IsSafe r.1) q.has_worker_task _ _
        (λ _. s)
        (λ _. record {
          items_issued = s.items_issued;
          putters_issued = s.putters_issued;
          running_issued = tt;
          pending_issued = s.pending_issued;
          pending_open = s.pending_open;
          cursor_issued = s.cursor_issued;
          undone = s.undone;
        })

  -- The flags are not in the invariant.
  set_flags-IsSafe :
      (q : ComputeQueue P R) (h t d a : Bool)
      → IsSafe q
      → IsSafe (record q { has_worker_task = h; stop = t; hard_stop = d; accepting = a })
  set_flags-IsSafe q h t d a s = record {
    items_issued = s.items_issued;
    putters_issued = s.putters_issued;
    running_issued = s.running_issued;
    pending_issued = s.pending_issued;
    pending_open = s.pending_open;
    cursor_issued = s.cursor_issued;
    undone = s.undone;
  }

  -- Every stretch of code keeps the tokens in `_q`, in `_pending`, in the hands of the worker and of
  -- waiting submits below `_next_token`, the cursor at or below it, what is in `_pending` at or
  -- above the cursor, and every task at or above the cursor not done.
  pub step-IsSafe : (q : ComputeQueue P R) (e : Event P R) → IsSafe q → IsSafe (step q e)
  unfolding step resume_put poll get finish request_stop begin_drain hard_stop_now release
  step-IsSafe q (submits now kind payload batch_id) s = submit-IsSafe q now kind payload batch_id s
  step-IsSafe q (tries now kind payload batch_id) s =
      try_submit-IsSafe q now kind payload batch_id s
  step-IsSafe q resumes s = resume_first-IsSafe q q.putters s.putters_issued s
  step-IsSafe q starts s = start-IsSafe q s
  step-IsSafe q polls s = poll_at-IsSafe q q.worker s
  step-IsSafe q gets s = get_at-IsSafe q q.worker s
  step-IsSafe q (finishes outcome) s = finish_at-IsSafe q outcome q.worker s.running_issued s
  step-IsSafe q stops s = set_flags-IsSafe q q.has_worker_task true q.hard_stop q.accepting s
  step-IsSafe q drains s = set_flags-IsSafe q q.has_worker_task true q.hard_stop false s
  step-IsSafe q deadline s = set_flags-IsSafe q q.has_worker_task q.stop true q.accepting s
  step-IsSafe q releases s = set_flags-IsSafe q false q.stop q.hard_stop q.accepting s
  step-IsSafe q reaps s = reap_pending-IsSafe q s

  -- Whatever the order in which the event loop runs the stretches of code, a safe queue stays safe:
  -- the tokens in `_q`, in `_pending`, in the hands of the worker and of waiting submits are issued
  -- ones, the cursor is at or below the next token, what is in `_pending` is not below the cursor,
  -- and no task at or above the cursor is done.
  pub run-IsSafe : (q : ComputeQueue P R) (es : List (Event P R)) → IsSafe q → IsSafe (run q es)
  unfolding run
  run-IsSafe q [] s = s
  run-IsSafe q (e ∷ es) s = run-IsSafe (step q e) es (step-IsSafe q e s)
