-- ===== src/Queue.antt =====
-- trainfer/queue.py: ComputeQueue, the single-writer queue with the commit cursor.
-- Between two awaits the event loop runs nothing else, so each operation below is one such stretch
-- of code, and an execution is a sequence of them (Queue/Schedule.antt). A QueueTask is shared by
-- `_q`, `_pending` and the callers: it is a cell of `tasks`, and its token is its address.
-- `completed` is `_completed_token` + 1, so that its start -1 is 0.
pub mod Shutdown
pub mod Schedule
pub mod Cursor
pub mod Order
pub mod Jobs
pub mod Addresses
pub mod Serial
pub mod Progress
pub mod Drain
pub mod Overtaking
use trainfer.Prelude.{
  ℕ, zero, suc, ◌+◌, ◌-◌, String, Bool, true, false, not, ◌&&◌, Option, none, some, List, [], ◌∷◌,
  ◌++◌, length, keep, elem, ltb, leb, ◌==◌, if◌then◌else◌,
}
use trainfer.Errors.{
  Raised, structured, queue_full, shutting_down, runtime_error, Result, ok, raise,
}

-- What `submit` fixes for good.
pub record Job (P : Type 0) : Type 0 where
  pub token : ℕ
  pub kind : String
  pub payload : P
  pub batch_id : String

pub record QueueTask (P R : Type 0) : Type 0 where
  pub job : Job P
  pub done : Bool
  pub error : Option Raised
  pub result : Option R

-- Where the worker coroutine `_run` stands: not created, at the top of its loop, in
-- `await self._q.get()`, in the handler, or returned.
pub data Worker : Type 0 where
  absent polling getting : Worker
  busy : ℕ → Worker
  exited : Worker

pub record ComputeQueue (P R : Type 0) : Type 0 where
  pub maxsize : ℕ
  pub items : List ℕ  -- _q
  pub putters : List ℕ  -- the submits that wait in `await self._q.put(task)`
  pub next_token : ℕ
  pub completed : ℕ
  pub pending : List ℕ  -- the keys of _pending
  pub tasks : ℕ → QueueTask P R
  pub worker : Worker
  pub has_worker_task : Bool  -- _worker_task is not None
  pub stop : Bool
  pub hard_stop : Bool
  pub accepting : Bool
  pub last_enqueue_ts : ℕ

-- asyncio.Queue.full: a maxsize of 0 is no bound
unfoldable pub is_full : ℕ → List ℕ → Bool
is_full zero items = false
is_full (suc m) items = leb (suc m) (length items)

abbrev is_empty : List ℕ → Bool
is_empty [] = true
is_empty (_ ∷ _) = false

-- The cursor moves only forward.
abbrev pub advance : ℕ → ℕ → ℕ
advance completed t = if leb completed t then suc t else completed

-- The GC of `_pending`: what the cursor has not passed stays.
abbrev pub collect : ℕ → List ℕ → List ℕ
collect completed pending = keep (λ t. leb completed t) pending

module _ {P R : Type 0} where
  abbrev pub update : (ℕ → QueueTask P R) → ℕ → QueueTask P R → ℕ → QueueTask P R
  update f a v t = if a == t then v else f t

  unfoldable pub init : ℕ → Job P → ComputeQueue P R
  init max_depth blank = record {
    maxsize = max_depth;
    items = [];
    putters = [];
    next_token = 0;
    completed = 0;
    pending = [];
    tasks = λ t. record { job = blank; done = false; error = none; result = none };
    worker = Worker.absent;
    has_worker_task = false;
    stop = false;
    hard_stop = false;
    accepting = true;
    last_enqueue_ts = 0;
  }

  -- The part of `submit` up to `put`: the task's token, and the queue in which it is stored. With
  -- `_q` full the coroutine is left waiting in `put`.
  unfoldable pub enqueue : ComputeQueue P R → ℕ → String → P → String → ComputeQueue P R
  enqueue q now kind payload batch_id =
      let t = q.next_token in
      let task : QueueTask P R = record {
        job = record { token = t; kind = kind; payload = payload; batch_id = batch_id };
        done = false;
        error = none;
        result = none;
      } in
      let q' = record q {
        next_token = suc t;
        tasks = update q.tasks t task;
        pending = q.pending ++ t ∷ [];
        last_enqueue_ts = now;
      } in
      if is_full q.maxsize q.items
      then record q' { putters = q.putters ++ t ∷ [] }
      else record q' { items = q.items ++ t ∷ [] }

  unfoldable pub submit : ComputeQueue P R → ℕ → String → P → String → Result ℕ × ComputeQueue P R
  submit q now kind payload batch_id =
      if q.accepting
      then (ok q.next_token, enqueue q now kind payload batch_id)
      else (raise (structured shutting_down), q)

  unfoldable pub try_submit :
      ComputeQueue P R → ℕ → String → P → String → Result ℕ × ComputeQueue P R
  try_submit q now kind payload batch_id =
      if is_full q.maxsize q.items
      then (raise (structured queue_full), q)
      else submit q now kind payload batch_id

  -- The first submit that waits in `put` is woken: `while self.full()` is tested again, and where it
  -- holds, the submit waits anew behind the others.
  unfoldable pub resume_first : ComputeQueue P R → List ℕ → ComputeQueue P R
  resume_first q [] = q
  resume_first q (t ∷ rest) =
      if is_full q.maxsize q.items
      then record q { putters = rest ++ t ∷ [] }
      else record q { putters = rest; items = q.items ++ t ∷ [] }

  unfoldable pub resume_put : ComputeQueue P R → ComputeQueue P R
  resume_put q = resume_first q q.putters

  unfoldable pub is_idle_for : ComputeQueue P R → ℕ → ℕ → Bool
  is_idle_for q now seconds = elim q.pending [
    | [] ↦ leb seconds (now - q.last_enqueue_ts)
    | _ ∷ _ ↦ false
  ]

  unfoldable pub start : ComputeQueue P R → Result (Unit {0}) × ComputeQueue P R
  start q =
      if q.has_worker_task
      then (raise runtime_error, q)
      else (ok tt, record q { worker = Worker.polling; has_worker_task = true })

  -- The two tests at the top of the worker's loop.
  unfoldable pub poll_at : ComputeQueue P R → Worker → ComputeQueue P R
  poll_at q Worker.polling =
      if q.hard_stop
      then record q { worker = Worker.exited }
      else if q.stop && is_empty q.items
      then record q { worker = Worker.exited }
      else record q { worker = Worker.getting }
  poll_at q _ = q

  unfoldable pub poll : ComputeQueue P R → ComputeQueue P R
  poll q = poll_at q q.worker

  unfoldable pub take_item : ComputeQueue P R → List ℕ → ComputeQueue P R
  take_item q [] = record q { worker = Worker.polling }
  take_item q (t ∷ rest) = record q { worker = Worker.busy t; items = rest }

  unfoldable pub get_at : ComputeQueue P R → Worker → ComputeQueue P R
  get_at q Worker.getting = take_item q q.items
  get_at q _ = q

  -- `await asyncio.wait_for(self._q.get(), timeout=0.1)`: an item, or the timeout and `continue`.
  unfoldable pub get : ComputeQueue P R → ComputeQueue P R
  get q = get_at q q.worker

  abbrev pub record_outcome : QueueTask P R → Result R → QueueTask P R
  record_outcome task (ok r) = record task { result = some r; done = true }
  record_outcome task (raise e) = record task { error = some e; done = true }

  unfoldable pub settle : ComputeQueue P R → ℕ → Result R → ComputeQueue P R
  settle q t outcome =
      let c = advance q.completed t in
      record q {
        tasks = update q.tasks t (record_outcome (q.tasks t) outcome);
        completed = c;
        pending = collect c q.pending;
        worker = Worker.polling;
      }

  unfoldable pub finish_at : ComputeQueue P R → Result R → Worker → ComputeQueue P R
  finish_at q outcome (Worker.busy t) = settle q t outcome
  finish_at q outcome _ = q

  -- The handler has returned or raised: the `except` and `finally` blocks.
  unfoldable pub finish : ComputeQueue P R → Result R → ComputeQueue P R
  finish q outcome = finish_at q outcome q.worker
