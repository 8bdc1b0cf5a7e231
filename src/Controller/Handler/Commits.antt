-- ===== src/Controller/Handler/Commits.antt =====
-- trainfer/controller.py and trainfer/commit_stream.py: a commit event that a client can read is of
-- a token that the cursor has passed.
use trainfer.Prelude.{
  ℕ, ◌<◌, ◌≡◌, refl, sym, subst, String, List, [], ◌∷◌, leb, str_eq, if_elim, All, arith,
}
use trainfer.Errors.{Result, ok, raise}
use trainfer.Queue.{Worker, Job, ComputeQueue, finish, finish_at, settle}
use trainfer.Queue.Schedule.{Event, finishes, step}
use trainfer.Queue.Cursor.{IsSafe, running}
use trainfer.Queue.Cursor.Steps.{step-IsSafe}
use trainfer.Queue.Progress.{step-Forward}
use trainfer.Queue.Addresses.{IsAddressed, step-IsAddressed}
use trainfer.Controller.Handler.{
  Work, TrainOut, Engine, TaskResult, Handled, train_outcome, handle_task, Daemon, Moment, queues,
  works, streams, finish_task, is_finish, is_broadcast, daemon_step, daemon_run,
}
use trainfer.Controller.Handler.Events.{
  AllBelow, AllBelow-grows, act-AllBelow, HandledOf, plain-HandledOf, rank_outcome-HandledOf,
  with_name-HandledOf, with_pair-HandledOf, publish-AllBelow,
}

module _ {S : Type 0} (join : List String → String) where
  train_outcome-HandledOf :
      (ts : String) (job : Job (Work S)) (r : Result TrainOut)
      → HandledOf job.token (train_outcome join ts job job.payload.spec r)
  train_outcome-HandledOf ts job (ok out) = refl
  train_outcome-HandledOf ts job (raise e) = tt

  handle_task-HandledOf :
      (ts : String) (engine : Engine) (job : Job (Work S))
      → HandledOf job.token (handle_task join ts engine job)
  unfolding handle_task
  handle_task-HandledOf ts engine job =
      let P : Handled → Type 0 = HandledOf job.token in
      if_elim P (str_eq job.kind "train") _ _ (λ _. train_outcome-HandledOf ts job engine.trained)
        (λ _.
          if_elim P (str_eq job.kind "merge") _ _ (λ _. plain-HandledOf job.token engine.merged _)
            (λ _.
              if_elim P (str_eq job.kind "snapshot_save") _ _
                (λ _.
                  with_name-HandledOf job.token job.payload.name _
                    (λ s. plain-HandledOf job.token engine.saved _))
                (λ _.
                  if_elim P (str_eq job.kind "snapshot_load") _ _
                    (λ _.
                      with_name-HandledOf job.token job.payload.name _
                        (λ s. plain-HandledOf job.token engine.loaded _))
                    (λ _.
                      if_elim P (str_eq job.kind "eval_greedy_rank") _ _
                        (λ _.
                          with_pair-HandledOf job.token job.payload.prompt job.payload.response _
                            (λ s t. rank_outcome-HandledOf job.token job.token s t engine.rank))
                        (λ _.
                          if_elim P (str_eq job.kind "reset_adapter") _ _
                            (λ _. plain-HandledOf job.token engine.reset _) (λ _. tt))))))

  -- The queue is in a safe state, and what a client can read of the commit stream is committed.
  pub record IsCommitted (d : Daemon S) : Type 0 where
    pub safe : IsSafe d.queue
    pub addressed : IsAddressed d.queue
    pub events : AllBelow d.queue.completed d.commits

  step-IsCommitted :
      (d : Daemon S) (e : Event (Work S) TaskResult)
      → IsCommitted d
      → IsCommitted (record d { queue = step d.queue e })
  step-IsCommitted d e h = record {
    safe = step-IsSafe d.queue e h.safe;
    addressed = step-IsAddressed d.queue e h.addressed;
    events =
        AllBelow-grows d.queue.completed (step d.queue e).completed d.commits
          (step-Forward d.queue e).cursor h.events;
  }

  settle_passes :
      (q : ComputeQueue (Work S) TaskResult) (t : ℕ) (outcome : Result TaskResult)
      → t < (settle q t outcome).completed
  unfolding settle
  settle_passes q t outcome =
      if_elim (λ (n : ℕ). t < n) (leb q.completed t) _ _ (λ _. omega arith) (λ past. ground arith)

  finish_passes :
      (q : ComputeQueue (Work S) TaskResult) (t : ℕ) (outcome : Result TaskResult)
      → q.worker ≡ Worker.busy t
      → t < (step q (finishes outcome)).completed
  unfolding step finish finish_at
  finish_passes q t outcome busy =
      subst (λ w. t < (finish_at q outcome w).completed) (sym busy) (settle_passes q t outcome)

  busy_issued :
      (q : ComputeQueue (Work S) TaskResult) (t : ℕ)
      → q.worker ≡ Worker.busy t
      → IsSafe q
      → t < q.next_token
  busy_issued q t busy s =
      (subst (λ w. All (λ u. u < q.next_token) (running w)) busy s.running_issued).0

  finish_busy-IsCommitted :
      (d : Daemon S) (ts : String) (engine : Engine) (t : ℕ)
      → d.queue.worker ≡ Worker.busy t
      → IsCommitted d
      → IsCommitted (finish_task join ts engine d (Worker.busy t))
  unfolding step
  finish_busy-IsCommitted d ts engine t busy h =
      let job = (d.queue.tasks t).job in
      let done = handle_task join ts engine job in
      let ended = step-IsCommitted d (finishes done.outcome) h in
      let top = (step d.queue (finishes done.outcome)).completed in
      let passed =
        subst (λ u. u < top) (sym (h.addressed t (busy_issued d.queue t busy h.safe)))
          (finish_passes d.queue t done.outcome busy) in
      record {
        safe = ended.safe;
        addressed = ended.addressed;
        events =
            publish-AllBelow top job.token d.commits done.event
              (handle_task-HandledOf ts engine job) passed ended.events;
      }

  finish_task-IsCommitted :
      (d : Daemon S) (ts : String) (engine : Engine) (w : Worker)
      → d.queue.worker ≡ w
      → IsCommitted d
      → IsCommitted (finish_task join ts engine d w)
  finish_task-IsCommitted d ts engine (Worker.busy t) e h =
      finish_busy-IsCommitted d ts engine t e h
  finish_task-IsCommitted d ts engine Worker.absent e h = h
  finish_task-IsCommitted d ts engine Worker.polling e h = h
  finish_task-IsCommitted d ts engine Worker.getting e h = h
  finish_task-IsCommitted d ts engine Worker.exited e h = h

  daemon_step-IsCommitted :
      (d : Daemon S) (m : Moment S) → IsCommitted d → IsCommitted (daemon_step join d m)
  unfolding daemon_step
  daemon_step-IsCommitted d (queues e) h =
      if_elim IsCommitted (is_finish e) _ _ (λ _. h) (λ _. step-IsCommitted d e h)
  daemon_step-IsCommitted d (works ts engine) h =
      finish_task-IsCommitted d ts engine d.queue.worker refl h
  daemon_step-IsCommitted d (streams a) h =
      if_elim IsCommitted (is_broadcast a) _ _ (λ _. h)
        (λ n. record {
          safe = h.safe;
          addressed = h.addressed;
          events = act-AllBelow d.queue.completed d.commits a n h.events;
        })

  -- In any execution of the queue, its handler and the commit stream together, whatever the
  -- interleaving and the outcomes, if it holds at first of a safe queue, each commit event that waits
  -- for a client has a cursor that the queue's commit cursor has reached.
  pub daemon_run-IsCommitted :
      (d : Daemon S) (ms : List (Moment S)) → IsCommitted d → IsCommitted (daemon_run join d ms)
  unfolding daemon_run
  daemon_run-IsCommitted d [] h = h
  daemon_run-IsCommitted d (m ∷ ms) h =
      daemon_run-IsCommitted (daemon_step join d m) ms (daemon_step-IsCommitted d m h)
