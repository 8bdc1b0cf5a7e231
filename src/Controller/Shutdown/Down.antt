-- ===== src/Controller/Shutdown/Down.antt =====
-- trainfer/controller.py: the controller after `graceful_shutdown`, whether it returns or raises.
use trainfer.Prelude.{
  ℕ, ◌≡◌, refl, ap, subst, sym, String, true, false, Option, none, some, List, if_true, if_false,
}
use trainfer.Errors.{Raised, structured, shutting_down, Result, ok, raise}
use trainfer.Queue.{Job}
use trainfer.Queue.Schedule.{Event, run}
use trainfer.Queue.Shutdown.{begin_drain, hard_stop_now}
use trainfer.Queue.Order.{IsClosed}
use trainfer.Queue.Order.Runs.{Reach}
use trainfer.Queue.Drain.{FairRun, Reach-run}
use trainfer.Queue.Drain.Closing.{drain-IsClosed}
use trainfer.Controller.Feedback.{Payload, Prior}
use trainfer.Controller.Train.{TrainSpec, TrainReply, Front, submit_train}
use trainfer.Controller.Shutdown.{
  Running, ShutdownReport, already_shut_down, stop_error, flagged, after_stops, graceful_shutdown,
  request, feedback, train,
}

-- The exception that the shutdown meets first.
abbrev pub first_error : Option Raised → Option Raised → Option Raised
first_error (some e) later = some e
first_error none later = later

module _ {S R : Type 0} where
  -- Nothing more is let in: a further shutdown changes nothing and says that the first one was enough,
  -- and each call for work is refused, without a change and without a log record.
  pub record Refuses (c : Running (TrainSpec S) R) : Type 0 where
    pub again :
        (ttrl_crash replay_crash : Option Raised)
        (stopping before grace : List (Event (TrainSpec S) R))
        → graceful_shutdown c ttrl_crash replay_crash stopping before grace
          ≡ (ok already_shut_down, c)
    pub no_request :
        (now : ℕ) (kind : String) (payload : TrainSpec S)
        → request c now kind payload ≡ (raise (structured shutting_down), c)
    pub no_train :
        (clock : ℕ → ℕ) (spec : TrainSpec S) (batch_id : String)
        → train c clock spec batch_id ≡ (raise (structured shutting_down), c)
    pub no_feedback :
        (payload : Payload) (prior : Option Prior)
        → feedback c payload prior ≡ (none, raise (structured shutting_down))

  flag-Refuses : (c : Running (TrainSpec S) R) → c.is_shutting_down ≡ true → Refuses c
  unfolding graceful_shutdown request train feedback submit_train
  flag-Refuses c h = record {
    again = λ ttrl_crash replay_crash stopping before grace. if_true {b = c.is_shutting_down} _ _ h;
    no_request = λ now kind payload. if_true {b = c.is_shutting_down} _ _ h;
    no_train = λ clock spec batch_id.
        ap
          (λ (out : Result TrainReply × Front S R). (
            out.0,
            record c { queue = out.1.queue; queue_depth_high_total = out.1.queue_depth_high_total },
          ))
          (if_true {b = c.is_shutting_down} _ _ h);
    no_feedback = λ payload prior. if_true {b = c.is_shutting_down} _ _ h;
  }

  -- What a shutdown has done, by the exception that it met.
  abbrev pub Ended :
      Running (TrainSpec S) R
      → List (Event (TrainSpec S) R)
      → Option Raised
      → Result ShutdownReport × Running (TrainSpec S) R
      → Type 0
  Ended c stopping none (result, c') =
      IsClosed c'.queue
      × (c'.has_ttrl ≡ false)
      × (c'.has_replay ≡ false)
      × (c'.logger_closed ≡ true)
  Ended c stopping (some e) (result, c') =
      (result ≡ raise e)
      × (c'.queue ≡ run c.queue stopping)
      × (c'.has_replay ≡ c.has_replay)
      × (c'.logger_closed ≡ c.logger_closed)

  -- The first `graceful_shutdown` of an orderly execution, with any deadline and whatever runs while it
  -- waits. If no scheduler's coroutine has ended in an exception: nothing is pending and every issued
  -- task is done, both schedulers are gone and the logger is closed. If one has, the shutdown raises
  -- that exception, the replay scheduler and the logger are as they were, and the queue is what the
  -- wait for the schedulers has left, without any drain. Either way another shutdown says that it is
  -- already done and changes nothing, and `submit_train`, `submit_feedback` and the requests are
  -- refused with shutting_down.
  pub graceful_shutdown-Ended :
      (max_depth : ℕ) (blank : Job (TrainSpec S)) (c : Running (TrainSpec S) R)
      (ttrl_crash replay_crash : Option Raised)
      (stopping before grace : List (Event (TrainSpec S) R))
      → Reach max_depth blank c.queue
      → c.is_shutting_down ≡ false
      → FairRun c.queue stopping
      → FairRun (begin_drain (run c.queue stopping)) before
      → FairRun (hard_stop_now (run (begin_drain (run c.queue stopping)) before)) grace
      → let out = graceful_shutdown c ttrl_crash replay_crash stopping before grace in
        Ended c stopping
          (first_error (stop_error c.has_ttrl ttrl_crash) (stop_error c.has_replay replay_crash))
          out
        × Refuses out.1
  unfolding graceful_shutdown
  graceful_shutdown-Ended max_depth blank c ttrl_crash replay_crash stopping before grace r h fs fb
        fg =
      subst
        (λ out.
          Ended c stopping
            (first_error (stop_error c.has_ttrl ttrl_crash) (stop_error c.has_replay replay_crash))
            out
          × Refuses out.1)
        (sym (if_false {b = c.is_shutting_down} _ _ h))
        (ends (stop_error c.has_ttrl ttrl_crash) (stop_error c.has_replay replay_crash))
    where
      ends :
          (ttrl_error replay_error : Option Raised)
          → let out = after_stops (flagged c stopping) ttrl_error replay_error before grace in
            Ended c stopping (first_error ttrl_error replay_error) out × Refuses out.1
      ends (some e) replay_error = ((refl, refl, refl, refl), flag-Refuses _ refl)
      ends none (some e) = ((refl, refl, refl, refl), flag-Refuses _ refl)
      ends none none = (
        (
          drain-IsClosed max_depth blank (run c.queue stopping) before grace
              (Reach-run max_depth blank c.queue stopping fs r) fb fg,
          refl,
          refl,
          refl,
        ),
        flag-Refuses _ refl,
      )
