-- ===== src/Tests/LifecycleRuns.antt =====
-- trainfer/controller.py: a shutdown with a task in the queue, and an index of two answers.
use trainfer.Prelude.{ℕ, ◌≡◌, inl, refl, String, true, false, none, some, List, [], ◌∷◌, arith}
use trainfer.Queue.{Job, init, enqueue, submit, try_submit, is_full, start}
use trainfer.Queue.Schedule.{Event, tries, starts, run, step}
use trainfer.Queue.Order.Runs.{here}
use trainfer.Queue.Drain.{FairRun, Reach-run}
use trainfer.CommitStream.{new}
use trainfer.Controller.Feedback.{Prior}
use trainfer.Controller.Responses.{ResponseIndex, set_item, evict, remember_response}
use trainfer.Controller.Responses.Recent.{Remembers, remember_response-Remembers}
use trainfer.Controller.Shutdown.{Running, graceful_shutdown}
use trainfer.Controller.Shutdown.Down.{Ended, Refuses, graceful_shutdown-Ended}
use trainfer.Controller.Train.{TrainSpec}
use trainfer.Errors.{raise, runtime_error}

abbrev answer : String → Prior
answer s = record { last_content = none; response = s }

abbrev two : ResponseIndex
two = ("r1", answer "a") ∷ ("r2", answer "b") ∷ []

oldest_gone :
    remember_response 2 "r3" (answer "c") two ≡ ("r2", answer "b") ∷ ("r3", answer "c") ∷ []
unfolding remember_response set_item evict
oldest_gone = refl

remember_response-Remembers_example :
    Remembers 2 "r3" (answer "c") two (remember_response 2 "r3" (answer "c") two)
remember_response-Remembers_example =
    remember_response-Remembers 2 "r3" (answer "c") two (omega arith) (omega arith)

abbrev a_spec : TrainSpec ℕ
a_spec = record { objective = some "sft"; objectives = []; samples = 5 ∷ []; chunk_size = none }

abbrev blank : Job (TrainSpec ℕ)
blank = record { token = 0; kind = ""; payload = a_spec; batch_id = "" }

abbrev opening : List (Event (TrainSpec ℕ) ℕ)
opening = starts ∷ tries 10 "train" a_spec "b" ∷ []

abbrev controller : Running (TrainSpec ℕ) ℕ
controller = record {
  queue = run (init 2 blank) opening;
  commits = new true;
  is_shutting_down = false;
  has_ttrl = true;
  has_replay = true;
  logger_closed = false;
  max_samples = 8;
  queue_depth_high_total = 0;
}

opening_fair : FairRun (init {R = ℕ} 2 blank) opening
unfolding run step start try_submit submit enqueue is_full init
opening_fair = (refl, (inl refl, tt))

graceful_shutdown-Ended_example :
    let out = graceful_shutdown controller none none [] [] [] in
    Ended controller [] none out × Refuses out.1
graceful_shutdown-Ended_example =
    graceful_shutdown-Ended 2 blank controller none none [] [] []
      (Reach-run 2 blank (init 2 blank) opening opening_fair here) refl tt tt tt

-- The replay scheduler has crashed: the queue still takes work, and its task is not done.
replay_crashed :
    let out = graceful_shutdown controller none (some runtime_error) [] [] [] in
    (out.0 ≡ raise runtime_error)
    × (out.1.queue.accepting ≡ true)
    × ((out.1.queue.tasks 0).done ≡ false)
unfolding graceful_shutdown run step start try_submit submit enqueue is_full init
replay_crashed = (refl, refl, refl)
