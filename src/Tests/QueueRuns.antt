-- ===== src/Tests/QueueRuns.antt =====
-- trainfer/queue.py: a queue of depth 2 with three submits, a failing handler, and a drain.
use trainfer.Prelude.{
  subst, inr, ◌≢◌, ℕ, ◌+◌, ◌≤◌, ◌<◌, ◌≡◌, inl, refl, Bool, true, false, List, [], ◌∷◌, arith, ltb,
  ◌==◌, ◌%◌, ◌*◌, if◌then◌else◌,
}
use trainfer.Errors.{Result, ok, raise, value_error}
use trainfer.Queue.{
  Worker, ComputeQueue, Job, init, enqueue, submit, try_submit, resume_put, resume_first, start,
  poll, poll_at, get, get_at, take_item, finish, finish_at, settle, is_full, record_outcome,
}
use trainfer.Queue.Shutdown.{
  begin_drain, hard_stop_now, release, reap_pending, reap_all, reap_one, worker_gone,
}
use trainfer.Queue.Schedule.{
  Event, submits, tries, resumes, starts, polls, gets, finishes, step, run, seen, blocked, unknown,
  wait_for_token,
}
use trainfer.Queue.Cursor.{IsSafe, init-IsSafe}
use trainfer.Queue.Cursor.Steps.{run-IsSafe}
use trainfer.Queue.Order.{IsOrdered, IsClosed}
use trainfer.Queue.Order.Runs.{Reach-IsOrderly, Reach, here}
use trainfer.Queue.Order.Waits.{standing, wait_for-exact}
use trainfer.Queue.Serial.{Serves, fresh, other, handles, serial, jobs_of, queue-serial}
use trainfer.Queue.Drain.{graceful_drain, FairRun, Reach-run}
use trainfer.Queue.Drain.Closing.{drain-IsClosed}
use trainfer.Queue.Drain.Rounds.{work_off}
use trainfer.Queue.Drain.Completion.{drain_completes}
use trainfer.Queue.Overtaking.{overtaken_wait}

abbrev blank : Job ℕ
blank = record { token = 0; kind = ""; payload = 0; batch_id = "" }

abbrev q0 : ComputeQueue ℕ ℕ
q0 = init 2 blank

abbrev put_5 : Event ℕ ℕ
put_5 = tries 10 "train" 5 "b"

abbrev put_7 : Event ℕ ℕ
put_7 = tries 11 "train" 7 "b"

abbrev opening : List (Event ℕ ℕ)
opening = starts ∷ put_5 ∷ put_7 ∷ tries 12 "train" 9 "c" ∷ polls ∷ gets ∷ finishes (ok 50) ∷ []

abbrev q1 : ComputeQueue ℕ ℕ
q1 = run q0 opening

-- The third submit found the queue full; the first task is done.
opening_lem : (q1.next_token ≡ 2) × (q1.completed ≡ 1) × (q1.items ≡ 1 ∷ []) × (q1.pending ≡ 1 ∷ [])
unfolding run step start try_submit submit enqueue is_full init poll poll_at get get_at take_item
    finish finish_at settle
opening_lem = (refl, refl, refl, refl)

waits :
    (wait_for_token q1 0 ≡ seen) × (wait_for_token q1 1 ≡ blocked) × (wait_for_token q1 2 ≡ unknown)
unfolding run step start try_submit submit enqueue is_full init poll poll_at get get_at take_item
    finish finish_at settle wait_for_token
waits = (refl, refl, refl)

run-IsSafe_example : IsSafe q1
run-IsSafe_example = run-IsSafe q0 opening (init-IsSafe 2 blank)

opening_fair : FairRun q0 opening
unfolding run step start try_submit submit enqueue is_full init poll poll_at get get_at take_item
    finish finish_at settle
opening_fair = (refl, (inl refl, (inl refl, (inl refl, (tt, (tt, (tt, tt)))))))

q1-Reach : Reach 2 blank q1
q1-Reach = Reach-run 2 blank q0 opening opening_fair here

wait_for-exact_example :
    (wait_for_token q1 1 ≡ standing q1 1) × ((q1.tasks 1).done ≡ ltb 1 q1.completed)
wait_for-exact_example = wait_for-exact 2 blank q1 1 q1-Reach

IsOpen : Bool → Type 0
IsOpen true = Unit
IsOpen false = ⊥

not_shut : q1.accepting ≢ false
unfolding IsOpen run step start try_submit submit enqueue is_full init poll poll_at get get_at
    take_item finish finish_at settle
not_shut h = subst IsOpen h tt

q1-IsOrdered : IsOrdered q1
q1-IsOrdered = elim (Reach-IsOrderly 2 blank q1-Reach).phase [
  | inl o ↦ o
  | inr c ↦ absurd (not_shut c.shut)
]

-- The handler adds up the payloads, and raises on an odd one.
abbrev adder : Job ℕ → ℕ → Result ℕ × ℕ
adder job total =
    if (job.payload % 2) == 0
    then (ok (job.payload * 10), total + job.payload)
    else (raise value_error, total + 1000)

q0-Serves : Serves adder 2 blank 3 (step (step q0 starts) put_5) 3
unfolding step start init
q0-Serves = other (other fresh starts refl tt) put_5 (inl refl) tt

abbrev ready_to_run : ComputeQueue ℕ ℕ
ready_to_run = step (step (step (step q0 starts) put_5) polls) gets

ready-Serves : Serves adder 2 blank 3 ready_to_run 3
ready-Serves = other (other q0-Serves polls tt tt) gets tt tt

ready_busy : ready_to_run.worker ≡ Worker.busy 0
unfolding step start try_submit submit enqueue is_full init poll poll_at get get_at take_item
ready_busy = refl

abbrev after_first : ComputeQueue ℕ ℕ
after_first = step ready_to_run (finishes (adder (ready_to_run.tasks 0).job 3).0)

queue-serial_example :
    ((n : ℕ) × (n ≤ after_first.next_token)
      × ((adder (ready_to_run.tasks 0).job 3).1 ≡ serial adder (jobs_of adder after_first) 3 n))
    × (after_first.accepting ≡ true
        → (adder (ready_to_run.tasks 0).job 3).1
          ≡ serial adder (jobs_of adder after_first) 3 after_first.completed)
queue-serial_example =
    queue-serial adder 2 blank 3 after_first (adder (ready_to_run.tasks 0).job 3).1
      (handles ready-Serves 0 ready_busy)

after_first_world : (adder (ready_to_run.tasks 0).job 3).1 ≡ 1003
unfolding step start try_submit submit enqueue is_full init poll poll_at get get_at take_item
after_first_world = refl

-- A drain whose deadline passes at once drops the second task.
drain-IsClosed_example : IsClosed (graceful_drain q1 [] []).1
drain-IsClosed_example = drain-IsClosed 2 blank q1 [] [] q1-Reach tt tt

dropped_one : (graceful_drain q1 [] []).0 ≡ record { dropped = 1; timed_out = true }
unfolding run step start try_submit submit enqueue is_full init poll poll_at get get_at take_item
    finish finish_at settle graceful_drain begin_drain worker_gone hard_stop_now release
    reap_pending reap_all reap_one
dropped_one = refl

abbrev outcomes : ℕ → Result ℕ
outcomes t = ok (t + 100)

q1_state :
    (q1.accepting ≡ true)
    × (q1.worker ≡ Worker.polling)
    × (q1.has_worker_task ≡ true)
    × (q1.hard_stop ≡ false)
    × (q1.putters ≡ [])
unfolding run step start try_submit submit enqueue is_full init poll poll_at get get_at take_item
    finish finish_at settle
q1_state = (refl, refl, refl, refl, refl)

drain_completes_example :
    let d = graceful_drain q1 (work_off outcomes q1.items) [] in
    (d.0 ≡ record { dropped = 0; timed_out = false })
    × ((u : ℕ)
        → q1.completed ≤ u
        → u < q1.next_token
        → d.1.tasks u ≡ record_outcome (q1.tasks u) (outcomes u))
drain_completes_example =
    drain_completes 2 blank q1 outcomes [] q1-Reach q1_state.0 q1_state.1 q1_state.2 q1_state.3
      q1_state.4

-- Depth 1: the submit of token 1 waits; token 2 takes the place that token 0 left.
abbrev overtaking : List (Event ℕ ℕ)
overtaking =
    starts
    ∷ put_5
    ∷ submits 11 "merge" 7 ""
    ∷ polls
    ∷ gets
    ∷ tries 12 "train" 9 "c"
    ∷ resumes
    ∷ finishes (ok 50)
    ∷ polls
    ∷ gets
    ∷ []

abbrev q2 : ComputeQueue ℕ ℕ
q2 = run (init 1 blank) overtaking

q2_state : (q2.worker ≡ Worker.busy 2) × (q2.completed ≡ 1) × ((q2.tasks 1).done ≡ false)
unfolding run step start submit try_submit enqueue is_full init poll poll_at get get_at take_item
    finish finish_at settle resume_put resume_first
q2_state = (refl, refl, refl)

overtaken_wait_example :
    (wait_for_token (step q2 (finishes (ok 90))) 1 ≡ seen)
    × (((step q2 (finishes (ok 90))).tasks 1).done ≡ false)
overtaken_wait_example =
    overtaken_wait q2 1 2 (ok 90) q2_state.0 (omega arith) (omega (arith, q2_state.1)) q2_state.2
