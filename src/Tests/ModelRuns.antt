-- ===== src/Tests/ModelRuns.antt =====
-- trainfer/controller.py: a queue that runs a merge on the two layers of StateRuns.
use trainfer.Prelude.{
  ℕ, zero, suc, ◌<◌, Bool, true, false, str_eq, ◌≡◌, refl, inl, none, List, [], ◌∷◌, arith,
}
use trainfer.Errors.{Result}
use trainfer.Queue.{
  Worker, ComputeQueue, Job, init, submit, try_submit, enqueue, start, poll, poll_at, get, get_at,
  take_item, finish, finish_at, settle, is_full,
}
use trainfer.Queue.Schedule.{Event, tries, starts, polls, gets, finishes, step}
use trainfer.Queue.Serial.{Serves, fresh, other, handles, serial, jobs_of}
use trainfer.State.{Module}
use trainfer.Snapshot.Sessions.{IsLive}
use trainfer.Engine.{Spec}
use trainfer.Controller.Train.{TrainSpec}
use trainfer.Controller.Handler.{Work}
use trainfer.Controller.Model.{Trained, Answer, handle_model}
use trainfer.Controller.Model.Live.{handler, handled-IsLive, LoadsCovered}
use trainfer.Tests.StateRuns
use trainfer.Tests.EngineRuns

abbrev no_work : Work ℕ
no_work = record {
  spec = record { objective = none; objectives = []; samples = []; chunk_size = none };
  name = none;
  prompt = none;
  response = none;
}

abbrev no_job : Job (Work ℕ)
no_job = record { token = 0; kind = ""; payload = no_work; batch_id = "" }

abbrev read : List (Module ℕ) → ℕ
read [] = 0
read (m ∷ ms) = m.lora_a

abbrev write : ℕ → Module ℕ → ℕ × ℕ
write p m = (p, m.lora_b)

abbrev spec_of : TrainSpec ℕ → Spec ℕ ℕ
spec_of s = EngineRuns.spec

abbrev handle : Job (Work ℕ) → Trained ℕ ℕ ℕ ℕ ℕ ℕ → Result (Answer ℕ ℕ) × Trained ℕ ℕ ℕ ℕ ℕ ℕ
handle =
    handler StateRuns.numbers EngineRuns.numbers EngineRuns.registry read write spec_of (λ t. t)

abbrev world : Trained ℕ ℕ ℕ ℕ ℕ ℕ
world = record {
  state = StateRuns.trained;
  snapshots = [];
  engine = EngineRuns.engine;
  log_size = 0;
}

abbrev put_merge : Event (Work ℕ) (Answer ℕ ℕ)
put_merge = tries 10 "merge" no_work "b"

abbrev ready : ComputeQueue (Work ℕ) (Answer ℕ ℕ)
ready = step (step (step (step (init 2 no_job) starts) put_merge) polls) gets

opened-Serves : Serves handle 2 no_job world (step (step (init 2 no_job) starts) put_merge) world
unfolding step start init
opened-Serves = other (other fresh starts refl tt) put_merge (inl refl) tt

ready-Serves : Serves handle 2 no_job world ready world
ready-Serves = other (other opened-Serves polls tt tt) gets tt tt

ready_busy : ready.worker ≡ Worker.busy 0
unfolding step start try_submit submit enqueue is_full init poll poll_at get get_at take_item
ready_busy = refl

abbrev merged_queue : ComputeQueue (Work ℕ) (Answer ℕ ℕ)
merged_queue = step ready (finishes (handle (ready.tasks 0).job world).0)

abbrev merged_world : Trained ℕ ℕ ℕ ℕ ℕ ℕ
merged_world = (handle (ready.tasks 0).job world).1

merged-Serves : Serves handle 2 no_job world merged_queue merged_world
merged-Serves = handles ready-Serves 0 ready_busy

not_both : {A : Type 0} (b : Bool) → b ≡ true → b ≡ false → A
not_both true t f = absurd (cc f)
not_both false t f = absurd (cc t)

no_load : str_eq (jobs_of handle merged_queue 0).kind "snapshot_load" ≡ false
unfolding step start try_submit submit enqueue is_full init poll poll_at get get_at take_item finish
    finish_at settle handle_model
no_load = refl

-- The only task is the merge.
merge_alone :
    (k : ℕ)
    → k < merged_queue.next_token
    → LoadsCovered
        (jobs_of handle merged_queue k)
        (serial handle (jobs_of handle merged_queue) world k)
unfolding step start try_submit submit enqueue is_full init poll poll_at get get_at take_item finish
    finish_at settle
merge_alone zero lt = λ is_load name dir named found.
    not_both (str_eq (jobs_of handle merged_queue 0).kind "snapshot_load") is_load no_load
merge_alone (suc k) lt = absurd (omega (arith, lt))

handled-IsLive_example : IsLive StateRuns.numbers merged_world.state
handled-IsLive_example =
    handled-IsLive StateRuns.numbers EngineRuns.numbers EngineRuns.registry read write spec_of
      (λ t. t) 2 no_job world merged_queue merged_world merged-Serves
      (StateRuns.trained-Distinct, StateRuns.trained-IsBound) merge_alone
