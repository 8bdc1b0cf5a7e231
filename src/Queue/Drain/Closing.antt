-- ===== src/Queue/Drain/Closing.antt =====
-- trainfer/queue.py: how `graceful_drain` leaves the queue.
use trainfer.Prelude.{ℕ, ◌≡◌, ◌⊎◌, inl, inr, refl, Bool, true, false, List, [], ◌∷◌, ◌∙◌, if_elim}
use trainfer.Queue.{ComputeQueue, Job}
use trainfer.Queue.Shutdown.{
  begin_drain, hard_stop_now, release, reap_pending, reap_all, reap_one, has_exited, worker_gone,
}
use trainfer.Queue.Schedule.{Event, run}
use trainfer.Queue.Order.{IsOrdered, IsClosed}
use trainfer.Queue.Progress.{run-Forward}
use trainfer.Queue.Order.Reaping.{reap_pending-IsClosed, reap_pending-IsClosed_again}
use trainfer.Queue.Order.Runs.{Reach, IsOrderly, Reach-IsOrderly}
use trainfer.Queue.Drain.{
  DrainReport, reaped, graceful_drain, FairRun, Reach-run, Reach-begin_drain, Reach-hard_stop_now,
  Reach-release,
}

module _ {P R : Type 0} where
  IsClosed-phase :
      (q : ComputeQueue P R) → q.accepting ≡ false → IsOrderly q → IsClosed (reap_pending q).0
  IsClosed-phase q e k = of_phase k.phase
    where
      of_phase : IsOrdered q ⊎ IsClosed q → IsClosed (reap_pending q).0
      of_phase (inl o) = reap_pending-IsClosed q e k.safe o
      of_phase (inr c) = reap_pending-IsClosed_again q c

  begin_drain-shut : (q : ComputeQueue P R) → (begin_drain q).accepting ≡ false
  unfolding begin_drain
  begin_drain-shut q = refl

  hard_stop_now-shut :
      (q : ComputeQueue P R) → q.accepting ≡ false → (hard_stop_now q).accepting ≡ false
  unfolding hard_stop_now
  hard_stop_now-shut q e = e

  release-shut : (q : ComputeQueue P R) → q.accepting ≡ false → (release q).accepting ≡ false
  unfolding release
  release-shut q e = e

  release-gone : (q : ComputeQueue P R) → worker_gone (release q) ≡ true
  unfolding release worker_gone
  release-gone q = refl

  reaped-IsClosed :
      (max_depth : ℕ) (blank : Job P) (q : ComputeQueue P R) (b : Bool)
      → q.accepting ≡ false
      → Reach max_depth blank q
      → IsClosed (reaped q b).1
  reaped-IsClosed max_depth blank q b e r = IsClosed-phase q e (Reach-IsOrderly max_depth blank r)

  -- In an orderly execution `graceful_drain`, with any deadline and whatever runs meanwhile, leaves
  -- no task pending: every issued task is done, the cursor is at the end, and submits are refused.
  pub drain-IsClosed :
      (max_depth : ℕ) (blank : Job P) (q : ComputeQueue P R) (before grace : List (Event P R))
      → Reach max_depth blank q
      → FairRun (begin_drain q) before
      → FairRun (hard_stop_now (run (begin_drain q) before)) grace
      → IsClosed (graceful_drain q before grace).1
  unfolding graceful_drain
  drain-IsClosed max_depth blank q before grace r fb fg =
      let q₁ = begin_drain q in
      let q₂ = run q₁ before in
      let q₃ = run (hard_stop_now q₂) grace in
      let r₁ = Reach-begin_drain max_depth blank q r in
      let r₂ = Reach-run max_depth blank q₁ before fb r₁ in
      let r₃ =
        Reach-run max_depth blank (hard_stop_now q₂) grace fg
          (Reach-hard_stop_now max_depth blank q₂ r₂) in
      let e₂ = (run-Forward q₁ before).closing (begin_drain-shut q) in
      let e₃ = (run-Forward (hard_stop_now q₂) grace).closing (hard_stop_now-shut q₂ e₂) in
      let closes : DrainReport × ComputeQueue P R → Type 0 = λ x. IsClosed x.1 in
      if_elim closes (worker_gone q₁) _ _
        (λ _. reaped-IsClosed max_depth blank q₁ false (begin_drain-shut q) r₁)
        (λ _.
          if_elim closes (has_exited q₂.worker) _ _
            (λ _.
              reaped-IsClosed max_depth blank (release q₂) false (release-shut q₂ e₂)
                (Reach-release max_depth blank q₂ r₂))
            (λ _.
              reaped-IsClosed max_depth blank (release q₃) true (release-shut q₃ e₃)
                (Reach-release max_depth blank q₃ r₃)))

  -- `graceful_drain` keeps whether the worker is gone: the reaping leaves the worker alone.
  reap_one-worker :
      (q : ComputeQueue P R) (k t : ℕ) → worker_gone (reap_one (q, k) t).0 ≡ worker_gone q
  unfolding reap_one worker_gone
  reap_one-worker q k t =
      if_elim (λ (x : ComputeQueue P R × ℕ). worker_gone x.0 ≡ worker_gone q) (q.tasks t).done _ _
        (λ _. refl) (λ _. refl)

  reap_all-worker :
      (q : ComputeQueue P R) (k : ℕ) (ts : List ℕ)
      → worker_gone (reap_all (q, k) ts).0 ≡ worker_gone q
  unfolding reap_all
  reap_all-worker q k [] = refl
  reap_all-worker q k (t ∷ ts) =
      let x : ComputeQueue P R × ℕ = reap_one (q, k) t in
      reap_all-worker x.0 x.1 ts ∙ reap_one-worker q k t

  reap_pending-worker : (q : ComputeQueue P R) → worker_gone (reap_pending q).0 ≡ worker_gone q
  reap_pending-worker q = unfold reap_pending worker_gone in reap_all-worker q 0 q.pending

  -- When `graceful_drain` returns, the worker is gone or given up.
  drain-worker :
      (q : ComputeQueue P R) (before grace : List (Event P R))
      → worker_gone (graceful_drain q before grace).1 ≡ true
  unfolding graceful_drain
  drain-worker q before grace =
      let q₁ = begin_drain q in
      let q₂ = run q₁ before in
      let q₃ = run (hard_stop_now q₂) grace in
      let gone : DrainReport × ComputeQueue P R → Type 0 = λ x. worker_gone x.1 ≡ true in
      if_elim gone (worker_gone q₁) _ _ (λ e. reap_pending-worker q₁ ∙ e)
        (λ _.
          if_elim gone (has_exited q₂.worker) _ _
            (λ _. reap_pending-worker (release q₂) ∙ release-gone q₂)
            (λ _. reap_pending-worker (release q₃) ∙ release-gone q₃))

  nothing_to_reap : (q : ComputeQueue P R) → q.pending ≡ [] → (reap_pending q).1 ≡ 0
  unfolding reap_pending reap_all
  nothing_to_reap q e = rw e

  drain_gone :
      (q : ComputeQueue P R) (before grace : List (Event P R))
      → worker_gone q ≡ true
      → q.pending ≡ []
      → (graceful_drain q before grace).0 ≡ record { dropped = 0; timed_out = false }
  drain_gone q before grace g e =
      let gone : worker_gone (begin_drain q) ≡ true = unfold begin_drain worker_gone in g in
      let p : (begin_drain q).pending ≡ [] = unfold begin_drain in e in
      unfold graceful_drain in
      (rw gone (λ i. record { dropped = nothing_to_reap (begin_drain q) p i; timed_out = false }))

  -- `graceful_drain` is idempotent: after one in an orderly execution, a second returns at once and
  -- reports nothing dropped and no timeout.
  pub drain_again :
      (max_depth : ℕ) (blank : Job P) (q : ComputeQueue P R)
      (before grace before' grace' : List (Event P R))
      → Reach max_depth blank q
      → FairRun (begin_drain q) before
      → FairRun (hard_stop_now (run (begin_drain q) before)) grace
      → (graceful_drain (graceful_drain q before grace).1 before' grace').0
        ≡ record { dropped = 0; timed_out = false }
  drain_again max_depth blank q before grace before' grace' r fb fg =
      drain_gone (graceful_drain q before grace).1 before' grace' (drain-worker q before grace)
        (drain-IsClosed max_depth blank q before grace r fb fg).none_pending
