-- ===== src/Queue/Progress.antt =====
-- trainfer/queue.py: the cursor moves only forward, done tasks stay done, and `_q` keeps within its
-- depth, in every execution.
use trainfer.Prelude.{
  ℕ, zero, suc, ◌≤◌, ◌<◌, ◌≡◌, String, false, List, [], ◌∷◌, ◌++◌, length, length-append, if_elim,
  ◌&&◌, arith,
}
use trainfer.Errors.{Result}
use trainfer.Queue.{
  Worker, ComputeQueue, is_full, enqueue, submit, try_submit, resume_put, start, poll, get,
  take_item, is_empty, resume_first, poll_at, get_at, finish, finish_at, settle,
}
use trainfer.Queue.Shutdown.{
  request_stop, begin_drain, hard_stop_now, release, reap_pending, reap_all, reap_one,
}
use trainfer.Queue.Schedule.{
  Event, submits, tries, resumes, starts, polls, gets, finishes, stops, drains, deadline, releases,
  reaps, step, run,
}

room_below : (m : ℕ) (items : List ℕ) → is_full m items ≡ false → 0 < m → length items < m
unfolding is_full
room_below zero items e h = absurd (omega arith)
room_below (suc m) items e h = ground arith

-- `put` on a queue with room keeps the bound.
put-IsBounded :
    (m : ℕ) (items : List ℕ) (t : ℕ)
    → is_full m items ≡ false
    → 0 < m
    → length (items ++ t ∷ []) ≤ m
put-IsBounded m items t e h = omega (arith, room_below m items e h, length-append items (t ∷ []))

module _ {P R : Type 0} where
  -- What never goes back.
  pub record Forward (q r : ComputeQueue P R) : Type 0 where
    pub cursor : q.completed ≤ r.completed
    pub tokens : q.next_token ≤ r.next_token
    pub depth : r.maxsize ≡ q.maxsize
    pub closing : q.accepting ≡ false → r.accepting ≡ false

  Forward-trans : {p q r : ComputeQueue P R} → Forward p q → Forward q r → Forward p r
  Forward-trans f g = record {
    cursor = omega (arith, f.cursor, g.cursor);
    tokens = omega (arith, f.tokens, g.tokens);
    depth = omega (arith, f.depth, g.depth);
    closing = λ e. g.closing (f.closing e);
  }

  reap_one-Forward : (q : ComputeQueue P R) (k t : ℕ) → Forward q (reap_one (q, k) t).0
  unfolding reap_one
  reap_one-Forward q k t = ground arith

  reap_all-Forward : (q : ComputeQueue P R) (k : ℕ) (ts : List ℕ) → Forward q (reap_all (q, k) ts).0
  unfolding reap_all
  reap_all-Forward q k [] = ground arith
  reap_all-Forward q k (t ∷ ts) =
      let x : ComputeQueue P R × ℕ = reap_one (q, k) t in
      Forward-trans (reap_one-Forward q k t) (reap_all-Forward x.0 x.1 ts)

  pub step-Forward : (q : ComputeQueue P R) (e : Event P R) → Forward q (step q e)
  unfolding step submit try_submit enqueue resume_put resume_first start poll poll_at get get_at
      take_item finish finish_at settle request_stop begin_drain hard_stop_now release reap_pending
  step-Forward q reaps =
      let f : Forward q (reap_all (q, 0) q.pending).0 = reap_all-Forward q 0 q.pending in
      record { cursor = f.cursor; tokens = f.tokens; depth = f.depth; closing = f.closing }
  step-Forward q _ = ground arith

  -- In any execution, whatever the interleaving and from whatever state, neither the commit cursor
  -- nor the next token ever falls, the depth stays, and a queue that is closed to submits stays
  -- closed.
  pub run-Forward : (q : ComputeQueue P R) (es : List (Event P R)) → Forward q (run q es)
  unfolding run
  run-Forward q [] = ground arith
  run-Forward q (e ∷ es) = Forward-trans (step-Forward q e) (run-Forward (step q e) es)

  -- A depth of 0 is no bound.
  abbrev pub IsBounded : ComputeQueue P R → Type 0
  IsBounded q = 0 < q.maxsize → length q.items ≤ q.maxsize

  enqueue-IsBounded :
      (q : ComputeQueue P R) (now : ℕ) (kind : String) (payload : P) (batch_id : String)
      → IsBounded q
      → IsBounded (enqueue q now kind payload batch_id)
  unfolding enqueue
  enqueue-IsBounded q now kind payload batch_id b =
      if_elim IsBounded (is_full q.maxsize q.items) _ _ (λ _. b)
        (λ room h. put-IsBounded q.maxsize q.items q.next_token room h)

  submit-IsBounded :
      (q : ComputeQueue P R) (now : ℕ) (kind : String) (payload : P) (batch_id : String)
      → IsBounded q
      → IsBounded (submit q now kind payload batch_id).1
  unfolding submit
  submit-IsBounded q now kind payload batch_id b =
      if_elim (λ (r : Result ℕ × ComputeQueue P R). IsBounded r.1) q.accepting _ _
        (λ _. enqueue-IsBounded q now kind payload batch_id b) (λ _. b)

  try_submit-IsBounded :
      (q : ComputeQueue P R) (now : ℕ) (kind : String) (payload : P) (batch_id : String)
      → IsBounded q
      → IsBounded (try_submit q now kind payload batch_id).1
  unfolding try_submit
  try_submit-IsBounded q now kind payload batch_id b =
      if_elim (λ (r : Result ℕ × ComputeQueue P R). IsBounded r.1) (is_full q.maxsize q.items) _ _
        (λ _. b) (λ _. submit-IsBounded q now kind payload batch_id b)

  resume_first-IsBounded :
      (q : ComputeQueue P R) (ps : List ℕ) → IsBounded q → IsBounded (resume_first q ps)
  unfolding resume_first
  resume_first-IsBounded q [] b = b
  resume_first-IsBounded q (t ∷ rest) b =
      if_elim IsBounded (is_full q.maxsize q.items) _ _ (λ _. b)
        (λ room h. put-IsBounded q.maxsize q.items t room h)

  take_item-IsBounded :
      (q : ComputeQueue P R) (items : List ℕ)
      → (0 < q.maxsize → length items ≤ q.maxsize)
      → IsBounded q
      → IsBounded (take_item q items)
  unfolding take_item
  take_item-IsBounded q [] a b = b
  take_item-IsBounded q (t ∷ rest) a b = λ h. omega (arith, a h)

  get_at-IsBounded : (q : ComputeQueue P R) (w : Worker) → IsBounded q → IsBounded (get_at q w)
  unfolding get_at
  get_at-IsBounded q Worker.getting b = take_item-IsBounded q q.items b b
  get_at-IsBounded q _ b = b

  reap_one-IsBounded :
      (q : ComputeQueue P R) (k t : ℕ) → IsBounded q → IsBounded (reap_one (q, k) t).0
  unfolding reap_one
  reap_one-IsBounded q k t b =
      if_elim (λ (r : ComputeQueue P R × ℕ). IsBounded r.0) (q.tasks t).done _ _ (λ _. b) (λ _. b)

  reap_all-IsBounded :
      (q : ComputeQueue P R) (k : ℕ) (ts : List ℕ) → IsBounded q → IsBounded (reap_all (q, k) ts).0
  unfolding reap_all
  reap_all-IsBounded q k [] b = b
  reap_all-IsBounded q k (t ∷ ts) b =
      reap_all-IsBounded (reap_one (q, k) t).0 (reap_one (q, k) t).1 ts (reap_one-IsBounded q k t b)

  -- The other stretches of code leave `_q` alone.
  start-IsBounded : (q : ComputeQueue P R) → IsBounded q → IsBounded (start q).1
  unfolding start
  start-IsBounded q b =
      if_elim (λ (r : Result (Unit {0}) × ComputeQueue P R). IsBounded r.1) q.has_worker_task _ _
        (λ _. b) (λ _. b)

  poll_at-IsBounded : (q : ComputeQueue P R) (w : Worker) → IsBounded q → IsBounded (poll_at q w)
  unfolding poll_at
  poll_at-IsBounded q Worker.polling b =
      if_elim IsBounded q.hard_stop _ _ (λ _. b)
        (λ _. if_elim IsBounded (q.stop && is_empty q.items) _ _ (λ _. b) (λ _. b))
  poll_at-IsBounded q _ b = b

  finish_at-IsBounded :
      (q : ComputeQueue P R) (o : Result R) (w : Worker) → IsBounded q → IsBounded (finish_at q o w)
  unfolding finish_at settle
  finish_at-IsBounded q o (Worker.busy t) b = b
  finish_at-IsBounded q o _ b = b

  step-IsBounded : (q : ComputeQueue P R) (e : Event P R) → IsBounded q → IsBounded (step q e)
  unfolding step resume_put poll get finish request_stop begin_drain hard_stop_now release
      reap_pending
  step-IsBounded q (submits now kind payload batch_id) b =
      submit-IsBounded q now kind payload batch_id b
  step-IsBounded q (tries now kind payload batch_id) b =
      try_submit-IsBounded q now kind payload batch_id b
  step-IsBounded q resumes b = resume_first-IsBounded q q.putters b
  step-IsBounded q starts b = start-IsBounded q b
  step-IsBounded q polls b = poll_at-IsBounded q q.worker b
  step-IsBounded q gets b = get_at-IsBounded q q.worker b
  step-IsBounded q (finishes outcome) b = finish_at-IsBounded q outcome q.worker b
  step-IsBounded q stops b = b
  step-IsBounded q drains b = b
  step-IsBounded q deadline b = b
  step-IsBounded q releases b = b
  step-IsBounded q reaps b = reap_all-IsBounded q 0 q.pending b

  -- In any execution `_q` holds at most `maxsize` tasks, if that is positive and it does so at first.
  pub run-IsBounded :
      (q : ComputeQueue P R) (es : List (Event P R)) → IsBounded q → IsBounded (run q es)
  unfolding run
  run-IsBounded q [] b = b
  run-IsBounded q (e ∷ es) b = run-IsBounded (step q e) es (step-IsBounded q e b)
