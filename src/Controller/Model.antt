-- ===== src/Controller/Model.antt =====
-- trainfer/controller.py: what `_handle_task` does to the model, with the engine, the model state and the
-- snapshots of their own modules. The adapter's parameters are the weights that the engine trains:
-- `read` and `write` take them from the layers and put them back. `spec_of` is the payload as the engine
-- reads it, `clock` the time at which a task runs, and the records that are logged are those of Controller/Handler.

pub mod Live
use trainfer.Prelude.{
  ℕ, String, Bool, true, false, Option, none, some, List, Dict, str_eq, if◌then◌else◌,
}
use trainfer.Errors.{Raised, value_error, key_error, foreign, Result, ok, raise}
use trainfer.Queue.{Job}
use trainfer.State.{Tensors, Module, ModelState, merge_active_into_residual, reset_active_adapter}
use trainfer.Snapshot.{Manifest, SnapshotRoot, save, load}
use trainfer.Snapshot.Sessions.{train_adapter}
use trainfer.Engine.{Torch, Spec, Report, Objective, TrainEngine, reset_optimizer}
use trainfer.Engine.Steps.{step}
use trainfer.Controller.Train.{TrainSpec}
use trainfer.Controller.Handler.{Work}

pub record Trained (T P O S L X : Type 0) : Type 0 where
  pub state : ModelState T
  pub snapshots : SnapshotRoot T
  pub engine : TrainEngine P O S L X
  pub log_size : ℕ

-- What the handler answers.
pub data Answer (L X : Type 0) : Type 0 where
  stepped : Report L X → Answer L X
  merges : ℕ → Answer L X
  saved : String → Answer L X
  loaded : String → Manifest → Answer L X
  evaluated reset : Answer L X

abbrev pub answer_step : {L X : Type 0} → Result (Report L X) → Result (Answer L X)
answer_step (ok report) = ok (stepped report)
answer_step (raise x) = raise x

-- A manifest that is not there.
abbrev pub file_not_found : ℕ
file_not_found = 2

module _ {T P O S L X : Type 0} (ts : Tensors T) (torch : Torch P O L X)
    (registry : Dict (Objective P S L X)) (read : List (Module T) → P)
    (write : P → Module T → T × T) (spec_of : TrainSpec S → Spec S X) (clock : ℕ → ℕ) where
  -- The step trains the parameters of the layers.
  unfoldable pub train_model :
      Spec S X → Trained T P O S L X → Result (Answer L X) × Trained T P O S L X
  train_model spec w =
      let e = record w.engine { net = record w.engine.net { weights = read w.state.modules } } in
      let (r, e') = step torch registry e spec in
      (
        answer_step r,
        record w { engine = e'; state = train_adapter (write e'.net.weights) w.state },
      )

  abbrev pub merge_model : Trained T P O S L X → Result (Answer L X) × Trained T P O S L X
  merge_model w =
      let st = merge_active_into_residual ts w.state in
      (ok (merges st.merges_applied), record w { state = st })

  abbrev pub save_model :
      Option String → ℕ → Trained T P O S L X → Result (Answer L X) × Trained T P O S L X
  save_model none now w = (raise key_error, w)
  save_model (some name) now w =
      (ok (saved name), record w { snapshots = save ts name w.state w.log_size now w.snapshots })

  -- The optimizers go only once the snapshot is loaded.
  abbrev pub after_load :
      String
      → Option (Manifest × ModelState T)
      → Trained T P O S L X
      → Result (Answer L X) × Trained T P O S L X
  after_load name none w = (raise (foreign file_not_found), w)
  after_load name (some (manifest, st)) w =
      (ok (loaded name manifest), record w { state = st; engine = reset_optimizer w.engine })

  abbrev pub load_model :
      Option String → Trained T P O S L X → Result (Answer L X) × Trained T P O S L X
  load_model none w = (raise key_error, w)
  load_model (some name) w = after_load name (load ts name w.snapshots w.state) w

  unfoldable pub handle_model :
      Job (Work S) → Trained T P O S L X → Result (Answer L X) × Trained T P O S L X
  handle_model job w =
      if str_eq job.kind "train"
      then train_model (spec_of job.payload.spec) w
      else if str_eq job.kind "merge"
      then merge_model w
      else if str_eq job.kind "snapshot_save"
      then save_model job.payload.name (clock job.token) w
      else if str_eq job.kind "snapshot_load"
      then load_model job.payload.name w
      else if str_eq job.kind "eval_greedy_rank"
      then (ok evaluated, w)
      else if str_eq job.kind "reset_adapter"
      then (ok reset, record w { state = reset_active_adapter ts w.state })
      else (raise value_error, w)
