-- ===== src/Queue/Jobs.antt =====
-- trainfer/queue.py: a job is fixed by its submit; no later stretch of code changes it.
use trainfer.Prelude.{ℕ, ◌<◌, ◌≡◌, refl, String, List, [], ◌∷◌, if_elim, ◌&&◌, arith, ap, ◌∙◌}
use trainfer.Errors.{Result, ok, raise}
use trainfer.Queue.{
  QueueTask, Worker, ComputeQueue, update, is_full, enqueue, submit, try_submit, resume_put, start,
  poll, get, take_item, is_empty, resume_first, poll_at, get_at, finish, finish_at, settle,
  record_outcome,
}
use trainfer.Queue.Shutdown.{
  request_stop, begin_drain, hard_stop_now, release, reap_pending, reap_all, reap_one, drop_task,
}
use trainfer.Queue.Schedule.{
  Event, submits, tries, resumes, starts, polls, gets, finishes, stops, drains, deadline, releases,
  reaps, step,
}

module _ {P R : Type 0} where
  abbrev pub JobsKept : ComputeQueue P R → ComputeQueue P R → Type 0
  JobsKept q r = (t : ℕ) → t < q.next_token → (r.tasks t).job ≡ (q.tasks t).job

  pub enqueue-JobsKept :
      (q : ComputeQueue P R) (now : ℕ) (kind : String) (payload : P) (batch_id : String)
      → JobsKept q (enqueue q now kind payload batch_id)
  unfolding enqueue
  enqueue-JobsKept q now kind payload batch_id =
      if_elim (JobsKept q) (is_full q.maxsize q.items) _ _ (λ _ t lt. ground arith)
        (λ _ t lt. ground arith)

  submit-JobsKept :
      (q : ComputeQueue P R) (now : ℕ) (kind : String) (payload : P) (batch_id : String)
      → JobsKept q (submit q now kind payload batch_id).1
  unfolding submit
  submit-JobsKept q now kind payload batch_id =
      if_elim (λ (r : Result ℕ × ComputeQueue P R). JobsKept q r.1) q.accepting _ _
        (λ _. enqueue-JobsKept q now kind payload batch_id) (λ _ t lt. refl)

  try_submit-JobsKept :
      (q : ComputeQueue P R) (now : ℕ) (kind : String) (payload : P) (batch_id : String)
      → JobsKept q (try_submit q now kind payload batch_id).1
  unfolding try_submit
  try_submit-JobsKept q now kind payload batch_id =
      if_elim (λ (r : Result ℕ × ComputeQueue P R). JobsKept q r.1) (is_full q.maxsize q.items) _ _
        (λ _ t lt. refl) (λ _. submit-JobsKept q now kind payload batch_id)

  resume_first-tasks : (q : ComputeQueue P R) (ps : List ℕ) → (resume_first q ps).tasks ≡ q.tasks
  unfolding resume_first
  resume_first-tasks q [] = refl
  resume_first-tasks q (t ∷ rest) =
      if_elim (λ (r : ComputeQueue P R). r.tasks ≡ q.tasks) (is_full q.maxsize q.items) _ _
        (λ _. refl) (λ _. refl)

  start-tasks : (q : ComputeQueue P R) → (start q).1.tasks ≡ q.tasks
  unfolding start
  start-tasks q =
      if_elim (λ (r : Result (Unit {0}) × ComputeQueue P R). r.1.tasks ≡ q.tasks) q.has_worker_task
        _ _ (λ _. refl) (λ _. refl)

  poll_at-tasks : (q : ComputeQueue P R) (w : Worker) → (poll_at q w).tasks ≡ q.tasks
  unfolding poll_at
  poll_at-tasks q Worker.polling =
      if_elim (λ (r : ComputeQueue P R). r.tasks ≡ q.tasks) q.hard_stop _ _ (λ _. refl)
        (λ _.
          if_elim (λ (r : ComputeQueue P R). r.tasks ≡ q.tasks) (q.stop && is_empty q.items) _ _
            (λ _. refl) (λ _. refl))
  poll_at-tasks q _ = refl

  take_item-tasks : (q : ComputeQueue P R) (items : List ℕ) → (take_item q items).tasks ≡ q.tasks
  unfolding take_item
  take_item-tasks q [] = refl
  take_item-tasks q (t ∷ rest) = refl

  get_at-tasks : (q : ComputeQueue P R) (w : Worker) → (get_at q w).tasks ≡ q.tasks
  unfolding get_at
  get_at-tasks q Worker.getting = take_item-tasks q q.items
  get_at-tasks q _ = refl

  record_outcome-job : (x : QueueTask P R) (o : Result R) → (record_outcome x o).job ≡ x.job
  record_outcome-job x (ok r) = refl
  record_outcome-job x (raise e) = refl

  update-job :
      (f : ℕ → QueueTask P R) (t u : ℕ) (x : QueueTask P R)
      → x.job ≡ (f t).job
      → (update f t x u).job ≡ (f u).job
  update-job f t u x e = ground arith

  finish_at-JobsKept :
      (q : ComputeQueue P R) (o : Result R) (w : Worker) → JobsKept q (finish_at q o w)
  unfolding finish_at settle
  finish_at-JobsKept q o (Worker.busy t) u lt =
      update-job q.tasks t u (record_outcome (q.tasks t) o) (record_outcome-job (q.tasks t) o)
  finish_at-JobsKept q o _ u lt = refl

  reap_one-jobs :
      (q : ComputeQueue P R) (k t u : ℕ) → ((reap_one (q, k) t).0.tasks u).job ≡ (q.tasks u).job
  unfolding reap_one
  reap_one-jobs q k t u =
      if_elim (λ (r : ComputeQueue P R × ℕ). (r.0.tasks u).job ≡ (q.tasks u).job) (q.tasks t).done _
        _ (λ _. refl) (λ _. update-job q.tasks t u (drop_task (q.tasks t)) refl)

  reap_all-jobs :
      (q : ComputeQueue P R) (k u : ℕ) (ts : List ℕ)
      → ((reap_all (q, k) ts).0.tasks u).job ≡ (q.tasks u).job
  unfolding reap_all
  reap_all-jobs q k u [] = refl
  reap_all-jobs q k u (t ∷ ts) =
      let x : ComputeQueue P R × ℕ = reap_one (q, k) t in
      reap_all-jobs x.0 x.1 u ts ∙ reap_one-jobs q k t u

  kept_of_tasks : (q r : ComputeQueue P R) → r.tasks ≡ q.tasks → JobsKept q r
  kept_of_tasks q r e t lt = ap (λ (f : ℕ → QueueTask P R). (f t).job) e

  -- No stretch of code changes the job of an issued token.
  pub step-JobsKept : (q : ComputeQueue P R) (e : Event P R) → JobsKept q (step q e)
  unfolding step resume_put poll get finish request_stop begin_drain hard_stop_now release
      reap_pending
  step-JobsKept q (submits now kind payload batch_id) = submit-JobsKept q now kind payload batch_id
  step-JobsKept q (tries now kind payload batch_id) =
      try_submit-JobsKept q now kind payload batch_id
  step-JobsKept q resumes = kept_of_tasks q (resume_put q) (resume_first-tasks q q.putters)
  step-JobsKept q starts = kept_of_tasks q (start q).1 (start-tasks q)
  step-JobsKept q polls = kept_of_tasks q (poll q) (poll_at-tasks q q.worker)
  step-JobsKept q gets = kept_of_tasks q (get q) (get_at-tasks q q.worker)
  step-JobsKept q (finishes outcome) = finish_at-JobsKept q outcome q.worker
  step-JobsKept q stops = λ t lt. refl
  step-JobsKept q drains = λ t lt. refl
  step-JobsKept q deadline = λ t lt. refl
  step-JobsKept q releases = λ t lt. refl
  step-JobsKept q reaps = λ t lt. reap_all-jobs q 0 t q.pending
