-- ===== src/Controller/Handler.antt =====
-- trainfer/controller.py: `_handle_task`, which the queue's worker calls for a task, and the queue
-- and the commit stream together. The handler is not a coroutine, so the event loop runs nothing
-- between its broadcast and the worker's `finally` block. What the engine, the model state and the
-- snapshots answer is an argument, an Engine for each call; metrics and the external logger are
-- left out.
pub mod Events
pub mod Commits
use trainfer.Prelude.{
  ℕ, String, Bool, true, false, not, ◌&&◌, Option, none, some, List, [], ◌∷◌, ◌++◌, map, length,
  str_eq, if◌then◌else◌,
}
use trainfer.Errors.{Raised, value_error, key_error, Result, ok, raise}
use trainfer.Queue.{Worker, Job, ComputeQueue, finish}
use trainfer.Queue.Schedule.{Event, finishes, step}
use trainfer.CommitStream.{ℤ, pos, CommitEvent, CommitBroadcaster, broadcast_commit}
use trainfer.CommitStream.Accounts.{Action, broadcasts, act}
use trainfer.Controller.Feedback.{truthy, text_of}
use trainfer.Controller.Train.{Objective, TrainSpec, has_objs}

-- The payload of a task: the keys that a branch of the handler reads.
pub record Work (S : Type 0) : Type 0 where
  pub spec : TrainSpec S
  pub name : Option String
  pub prompt : Option String
  pub response : Option String

pub record TrainOut : Type 0 where
  pub loss_milli : Option ℤ
  pub components : List (String × ℤ)

pub record Engine : Type 0 where
  pub trained : Result TrainOut  -- train_engine.step(payload)
  pub merged : Result ℕ  -- merge_active_into_residual
  pub saved : Result (Unit {0})
  pub loaded : Result (Unit {0})
  pub rank : Result (ℕ × ℕ)  -- greedy_rank_fraction: matched and total
  pub reset : Result (Unit {0})

pub data LogEvent : Type 0 where
  train_error : String → String → ℕ → Raised → LogEvent
  train_step : String → String → ℤ → ℕ → ℕ → LogEvent
  eval_point : String → String → ℕ → ℕ → ℕ → LogEvent

pub data TaskResult : Type 0 where
  step_done : TrainOut → TaskResult
  merges_applied : ℕ → TaskResult
  saved loaded : String → TaskResult
  ranked : ℕ → ℕ → TaskResult
  adapter_reset : TaskResult

-- What a call of the handler does: its result, the records it logs, the event it broadcasts.
pub record Handled : Type 0 where
  pub outcome : Result TaskResult
  pub logged : List LogEvent
  pub event : Option CommitEvent

abbrev loss_or_zero : Option ℤ → ℤ
loss_or_zero none = pos 0
loss_or_zero (some n) = n

abbrev fails : Raised → Handled
fails e = record { outcome = raise e; logged = []; event = none }

abbrev plain {ℓ} : {A : Type ℓ} → Result A → (A → TaskResult) → Handled
plain (ok a) f = record { outcome = ok (f a); logged = []; event = none }
plain (raise e) f = record { outcome = raise e; logged = []; event = none }

-- payload["name"]: a KeyError where it is missing
abbrev pub with_name : Option String → (String → Handled) → Handled
with_name none f = fails key_error
with_name (some name) f = f name

-- payload["prompt"] and payload["response"]
abbrev pub with_pair : Option String → Option String → (String → String → Handled) → Handled
with_pair (some prompt) (some response) f = f prompt response
with_pair _ _ f = fails key_error

abbrev pub rank_outcome : ℕ → String → String → Result (ℕ × ℕ) → Handled
rank_outcome token prompt response (raise e) = record {
  outcome = raise e;
  logged = [];
  event = none;
}
rank_outcome token prompt response (ok (matched, total)) = record {
  outcome = ok (ranked matched total);
  logged = eval_point prompt response matched total token ∷ [];
  event = none;
}

module _ {S : Type 0} where
  abbrev names_of : List (Objective S) → List String
  names_of os = map (λ o. o.name) os

  -- `join` makes "multi[a+b]" of the names, sorted and each once.
  abbrev pub objective_label : (List String → String) → TrainSpec S → String
  objective_label join spec =
      if truthy spec.objective
      then text_of spec.objective
      else if has_objs spec.objectives
      then join (names_of spec.objectives)
      else "unknown"

  abbrev pub train_outcome :
      (List String → String) → String → Job (Work S) → TrainSpec S → Result TrainOut → Handled
  train_outcome join ts job spec (raise e) = record {
    outcome = raise e;
    logged = train_error job.batch_id (objective_label join spec) job.token e ∷ [];
    event = none;
  }
  train_outcome join ts job spec (ok out) =
      let objective = objective_label join spec in
      let size = length spec.samples in
      record {
        outcome = ok (step_done out);
        logged =
            train_step job.batch_id objective (loss_or_zero out.loss_milli) size job.token ∷ [];
        event = some (record {
          cursor = job.token;
          ts = ts;
          objective = objective;
          loss_milli = loss_or_zero out.loss_milli;
          components = out.components;
          batch_size = size;
        });
      }

  unfoldable pub handle_task : (List String → String) → String → Engine → Job (Work S) → Handled
  handle_task join ts engine job =
      let payload = job.payload in
      if str_eq job.kind "train"
      then train_outcome join ts job payload.spec engine.trained
      else if str_eq job.kind "merge"
      then plain engine.merged merges_applied
      else if str_eq job.kind "snapshot_save"
      then with_name payload.name (λ name. plain engine.saved (λ _. saved name))
      else if str_eq job.kind "snapshot_load"
      then with_name payload.name (λ name. plain engine.loaded (λ _. loaded name))
      else if str_eq job.kind "eval_greedy_rank"
      then with_pair payload.prompt payload.response
          (λ prompt response. rank_outcome job.token prompt response engine.rank)
      else if str_eq job.kind "reset_adapter"
      then plain engine.reset (λ _. adapter_reset)
      else fails value_error

-- The queue and the commit stream of a controller, and the trajectory log's records.
pub record Daemon (S : Type 0) : Type 0 where
  pub queue : ComputeQueue (Work S) TaskResult
  pub commits : CommitBroadcaster
  pub log : List LogEvent

-- What runs between two awaits: an operation of the queue, the end of a task, or an operation of
-- the commit stream by a client or by the shutdown.
pub data Moment (S : Type 0) : Type 0 where
  queues : Event (Work S) TaskResult → Moment S
  works : String → Engine → Moment S
  streams : Action → Moment S

abbrev pub publish : CommitBroadcaster → Option CommitEvent → CommitBroadcaster
publish b none = b
publish b (some e) = broadcast_commit b e

-- A commit is broadcast only by the handler.
abbrev pub is_broadcast : Action → Bool
is_broadcast (broadcasts e) = true
is_broadcast _ = false

-- A handler's outcome reaches the queue only with what the handler does.
abbrev pub is_finish : {S : Type 0} → Event (Work S) TaskResult → Bool
is_finish (finishes outcome) = true
is_finish _ = false

module _ {S : Type 0} (join : List String → String) where
  -- The worker calls the handler for its task, and settles it.
  abbrev pub finish_task : String → Engine → Daemon S → Worker → Daemon S
  finish_task ts engine d (Worker.busy t) =
      let h = handle_task join ts engine (d.queue.tasks t).job in
      record {
        queue = finish d.queue h.outcome;
        commits = publish d.commits h.event;
        log = d.log ++ h.logged;
      }
  finish_task ts engine d _ = d

  unfoldable pub daemon_step : Daemon S → Moment S → Daemon S
  daemon_step d (queues e) = if is_finish e then d else record d { queue = step d.queue e }
  daemon_step d (works ts engine) = finish_task ts engine d d.queue.worker
  daemon_step d (streams a) = if is_broadcast a then d else record d { commits = act d.commits a }

  unfoldable pub daemon_run : Daemon S → List (Moment S) → Daemon S
  daemon_run d [] = d
  daemon_run d (m ∷ ms) = daemon_run (daemon_step d m) ms
