-- ===== src/Queue/Cursor.antt =====
-- trainfer/queue.py: what holds of the commit cursor in every execution, whatever the order in
-- which the event loop resumes the coroutines.
pub mod Reaping
pub mod Steps
use trainfer.Prelude.{
  ℕ, zero, suc, ◌+◌, ◌≤◌, ◌<◌, ◌≡◌, ◌⊎◌, inl, inr, refl, String, Bool, true, false, Option, none,
  some, List, [], ◌∷◌, ◌++◌, length, keep, All, All-append, All-keep, All-map, leb, leb→le, ◌&&◌,
  Bool-cases, if_elim, arith, length-append,
}
use trainfer.Errors.{Result, ok, raise}
use trainfer.Queue.{
  QueueTask, Worker, ComputeQueue, update, advance, collect, record_outcome, is_full, enqueue, init,
  submit, try_submit, resume_put, start, poll, get, finish, settle, take_item, is_empty,
  resume_first, poll_at, get_at, finish_at, Job,
}
use trainfer.Queue.Shutdown.{
  drop_task, reap_one, reap_all, reap_pending, request_stop, begin_drain, hard_stop_now, release,
}
use trainfer.Queue.Schedule.{
  Event, submits, tries, resumes, starts, polls, gets, finishes, stops, drains, deadline, releases,
  reaps, step, run,
}

-- The task that the handler runs.
abbrev pub running : Worker → List ℕ
running (Worker.busy t) = t ∷ []
running _ = []

pub record IsSafe {P R : Type 0} (q : ComputeQueue P R) : Type 0 where
  pub items_issued : All (λ t. t < q.next_token) q.items
  pub putters_issued : All (λ t. t < q.next_token) q.putters
  pub running_issued : All (λ t. t < q.next_token) (running q.worker)
  pub pending_issued : All (λ t. t < q.next_token) q.pending
  pub pending_open : All (λ t. q.completed ≤ t) q.pending
  pub cursor_issued : q.completed ≤ q.next_token
  pub undone : (t : ℕ) → q.completed ≤ t → (q.tasks t).done ≡ false

pub All-below : {n m : ℕ} (ts : List ℕ) → n ≤ m → All (λ t. t < n) ts → All (λ t. t < m) ts
All-below {n} {m} ts h a = All-map (λ t. t < n) (λ t. t < m) ts (λ t lt. omega arith) a

-- The cursor has passed each token that `collect` drops.
pub collect_open : (c : ℕ) (ts : List ℕ) → All (λ t. c ≤ t) (collect c ts)
collect_open c [] = tt
collect_open c (t ∷ ts) = ground (arith, collect_open c ts)

pub advance_bounds :
    (c t n : ℕ) → c ≤ n → t < n → (c ≤ advance c t) × (t < advance c t) × (advance c t ≤ n)
advance_bounds c t n h lt = ground arith

pub All-below_snoc :
    (n : ℕ) (ts : List ℕ) → All (λ t. t < n) ts → All (λ t. t < suc n) (ts ++ n ∷ [])
All-below_snoc n ts h =
    All-append (λ t. t < suc n) ts (n ∷ []) (All-below ts (omega arith) h) (omega arith, tt)

pub All-from_snoc :
    (c n : ℕ) (ts : List ℕ) → c ≤ n → All (λ t. c ≤ t) ts → All (λ t. c ≤ t) (ts ++ n ∷ [])
All-from_snoc c n ts le h = All-append (λ t. c ≤ t) ts (n ∷ []) h (le, tt)

module _ {P R : Type 0} where
  pub init-IsSafe : (max_depth : ℕ) (blank : Job P) → IsSafe (init {R = R} max_depth blank)
  unfolding init
  init-IsSafe max_depth blank = record {
    items_issued = tt;
    putters_issued = tt;
    running_issued = tt;
    pending_issued = tt;
    pending_open = tt;
    cursor_issued = omega arith;
    undone = λ t h. refl;
  }

  -- Both branches of `put` leave the rest of the queue alike.
  pub enqueue-IsSafe :
      (q : ComputeQueue P R) (now : ℕ) (kind : String) (payload : P) (batch_id : String)
      → IsSafe q
      → IsSafe (enqueue q now kind payload batch_id)
  unfolding enqueue
  enqueue-IsSafe q now kind payload batch_id s =
      if_elim IsSafe (is_full q.maxsize q.items) _ _
        (λ _. record {
          items_issued = All-below q.items (omega arith) s.items_issued;
          putters_issued = All-below_snoc q.next_token q.putters s.putters_issued;
          running_issued = All-below (running q.worker) (omega arith) s.running_issued;
          pending_issued = All-below_snoc q.next_token q.pending s.pending_issued;
          pending_open =
              All-from_snoc q.completed q.next_token q.pending s.cursor_issued s.pending_open;
          cursor_issued = omega (arith, s.cursor_issued);
          undone = λ t h. ground (arith, s.undone t);
        })
        (λ _. record {
          items_issued = All-below_snoc q.next_token q.items s.items_issued;
          putters_issued = All-below q.putters (omega arith) s.putters_issued;
          running_issued = All-below (running q.worker) (omega arith) s.running_issued;
          pending_issued = All-below_snoc q.next_token q.pending s.pending_issued;
          pending_open =
              All-from_snoc q.completed q.next_token q.pending s.cursor_issued s.pending_open;
          cursor_issued = omega (arith, s.cursor_issued);
          undone = λ t h. ground (arith, s.undone t);
        })

  pub submit-IsSafe :
      (q : ComputeQueue P R) (now : ℕ) (kind : String) (payload : P) (batch_id : String)
      → IsSafe q
      → IsSafe (submit q now kind payload batch_id).1
  unfolding submit
  submit-IsSafe q now kind payload batch_id s =
      if_elim (λ (r : Result ℕ × ComputeQueue P R). IsSafe r.1) q.accepting _ _
        (λ _. enqueue-IsSafe q now kind payload batch_id s) (λ _. s)

  pub try_submit-IsSafe :
      (q : ComputeQueue P R) (now : ℕ) (kind : String) (payload : P) (batch_id : String)
      → IsSafe q
      → IsSafe (try_submit q now kind payload batch_id).1
  unfolding try_submit
  try_submit-IsSafe q now kind payload batch_id s =
      if_elim (λ (r : Result ℕ × ComputeQueue P R). IsSafe r.1) (is_full q.maxsize q.items) _ _
        (λ _. s) (λ _. submit-IsSafe q now kind payload batch_id s)

  pub resume_first-IsSafe :
      (q : ComputeQueue P R) (ps : List ℕ)
      → All (λ t. t < q.next_token) ps
      → IsSafe q
      → IsSafe (resume_first q ps)
  unfolding resume_first
  resume_first-IsSafe q [] a s = s
  resume_first-IsSafe q (t ∷ rest) a s =
      if_elim IsSafe (is_full q.maxsize q.items) _ _
        (λ _. record {
          items_issued = s.items_issued;
          putters_issued = All-append (λ u. u < q.next_token) rest (t ∷ []) a.1 (a.0, tt);
          running_issued = s.running_issued;
          pending_issued = s.pending_issued;
          pending_open = s.pending_open;
          cursor_issued = s.cursor_issued;
          undone = s.undone;
        })
        (λ _. record {
          items_issued =
              All-append (λ u. u < q.next_token) q.items (t ∷ []) s.items_issued (a.0, tt);
          putters_issued = a.1;
          running_issued = s.running_issued;
          pending_issued = s.pending_issued;
          pending_open = s.pending_open;
          cursor_issued = s.cursor_issued;
          undone = s.undone;
        })

  -- The worker moves on, and may hold an issued task.
  pub set_worker-IsSafe :
      (q : ComputeQueue P R) (w : Worker) (items : List ℕ)
      → All (λ t. t < q.next_token) (running w)
      → All (λ t. t < q.next_token) items
      → IsSafe q
      → IsSafe (record q { worker = w; items = items })
  set_worker-IsSafe q w items a b s = record {
    items_issued = b;
    putters_issued = s.putters_issued;
    running_issued = a;
    pending_issued = s.pending_issued;
    pending_open = s.pending_open;
    cursor_issued = s.cursor_issued;
    undone = s.undone;
  }

  pub poll_at-IsSafe : (q : ComputeQueue P R) (w : Worker) → IsSafe q → IsSafe (poll_at q w)
  unfolding poll_at
  poll_at-IsSafe q Worker.polling s =
      let leave = set_worker-IsSafe q Worker.exited q.items tt s.items_issued s in
      if_elim IsSafe q.hard_stop _ _ (λ _. leave)
        (λ _.
          if_elim IsSafe (q.stop && is_empty q.items) _ _ (λ _. leave)
            (λ _. set_worker-IsSafe q Worker.getting q.items tt s.items_issued s))
  poll_at-IsSafe q _ s = s

  pub take_item-IsSafe :
      (q : ComputeQueue P R) (items : List ℕ)
      → All (λ t. t < q.next_token) items
      → IsSafe q
      → IsSafe (take_item q items)
  unfolding take_item
  take_item-IsSafe q [] a s = set_worker-IsSafe q Worker.polling q.items tt s.items_issued s
  take_item-IsSafe q (t ∷ rest) a s = set_worker-IsSafe q (Worker.busy t) rest (a.0, tt) a.1 s

  pub get_at-IsSafe : (q : ComputeQueue P R) (w : Worker) → IsSafe q → IsSafe (get_at q w)
  unfolding get_at
  get_at-IsSafe q Worker.getting s = take_item-IsSafe q q.items s.items_issued s
  get_at-IsSafe q _ s = s

  pub settle-IsSafe :
      (q : ComputeQueue P R) (t : ℕ) (outcome : Result R)
      → t < q.next_token
      → IsSafe q
      → IsSafe (settle q t outcome)
  unfolding settle
  settle-IsSafe q t outcome lt s =
      let c = advance q.completed t in
      let b = advance_bounds q.completed t q.next_token s.cursor_issued lt in
      record {
        items_issued = s.items_issued;
        putters_issued = s.putters_issued;
        running_issued = tt;
        pending_issued = All-keep (λ u. u < q.next_token) (λ u. leb c u) q.pending s.pending_issued;
        pending_open = collect_open c q.pending;
        cursor_issued = b.2;
        undone = λ u h. ground (arith, s.undone u, b);
      }

  pub finish_at-IsSafe :
      (q : ComputeQueue P R) (outcome : Result R) (w : Worker)
      → All (λ t. t < q.next_token) (running w)
      → IsSafe q
      → IsSafe (finish_at q outcome w)
  unfolding finish_at
  finish_at-IsSafe q outcome (Worker.busy t) a s = settle-IsSafe q t outcome a.0 s
  finish_at-IsSafe q outcome _ a s = s
