-- ===== src/Queue/Drain/Completion.antt =====
-- trainfer/queue.py: a drain with time enough runs every task that is queued.
use trainfer.Prelude.{
  ℕ, ◌≤◌, ◌<◌, ◌≡◌, ◌⊎◌, inl, inr, refl, true, false, List, [], ap, subst, ◌∙◌, if_true, if_false,
}
use mathlib.Core.List.{append-nil}
use trainfer.Errors.{Result}
use trainfer.Queue.{Worker, ComputeQueue, Job, record_outcome}
use trainfer.Queue.Shutdown.{begin_drain, release, reap_pending, reap_all, has_exited, worker_gone}
use trainfer.Queue.Schedule.{Event, run}
use trainfer.Queue.Order.{IsOrdered, IsClosed, InOrder}
use trainfer.Queue.Order.Runs.{Reach, Reach-IsOrderly}
use trainfer.Queue.Drain.{reaped, graceful_drain, Reach-run, Reach-begin_drain}
use trainfer.Queue.Drain.Rounds.{work_off, work_off-FairRun, IsStopping, WorkedOff, work_off_lem}

module _ {P R : Type 0} where
  no_line :
      (q : ComputeQueue P R)
      → q.worker ≡ Worker.exited
      → q.items ≡ []
      → q.putters ≡ []
      → IsOrdered q ⊎ IsClosed q
      → q.pending ≡ []
  no_line q w i p (inl o) = o.pending_is ∙ rw (w, i, p) refl
  no_line q w i p (inr c) = c.none_pending

  still-IsOrdered :
      (q : ComputeQueue P R) → q.accepting ≡ true → IsOrdered q ⊎ IsClosed q → IsOrdered q
  still-IsOrdered q a (inl o) = o
  still-IsOrdered q a (inr c) = absurd (cc (c.shut, a))

  reap_nothing :
      (q : ComputeQueue P R)
      → q.pending ≡ []
      → ((reap_pending q).1 ≡ 0) × ((reap_pending q).0.tasks ≡ q.tasks)
  unfolding reap_pending reap_all
  reap_nothing q e = rw e (refl, refl)

  begin_drain-IsStopping :
      (q : ComputeQueue P R)
      → q.worker ≡ Worker.polling
      → q.hard_stop ≡ false
      → q.putters ≡ []
      → IsStopping (begin_drain q) q.items
  unfolding begin_drain
  begin_drain-IsStopping q w h p = record {
    at_top = w;
    items_are = refl;
    stopping = refl;
    soft = h;
    alone = p;
  }

  release-tasks : (q : ComputeQueue P R) → (release q).tasks ≡ q.tasks
  unfolding release
  release-tasks q = refl

  begin_drain-tasks : (q : ComputeQueue P R) → (begin_drain q).tasks ≡ q.tasks
  unfolding begin_drain
  begin_drain-tasks q = refl

  -- With a budget that lets the worker come to the end of the queue, a drain of an orderly queue
  -- that accepts, whose worker is at the top of its loop, with no hard stop and no submit that waits
  -- in `put`, drops nothing, does not time out, and leaves each task
  -- that was queued done with the outcome of its own handler.
  pub drain_completes :
      (max_depth : ℕ) (blank : Job P) (q : ComputeQueue P R) (outcome : ℕ → Result R)
      (grace : List (Event P R))
      → Reach max_depth blank q
      → q.accepting ≡ true
      → q.worker ≡ Worker.polling
      → q.has_worker_task ≡ true
      → q.hard_stop ≡ false
      → q.putters ≡ []
      → let d = graceful_drain q (work_off outcome q.items) grace in
        (d.0 ≡ record { dropped = 0; timed_out = false })
        × ((u : ℕ)
            → q.completed ≤ u
            → u < q.next_token
            → d.1.tasks u ≡ record_outcome (q.tasks u) (outcome u))
  drain_completes max_depth blank q outcome grace reach a w has soft alone =
      let q₁ = begin_drain q in
      let es = work_off outcome q.items in
      let q₂ = run q₁ es in
      let o : IsOrdered q = still-IsOrdered q a (Reach-IsOrderly max_depth blank reach).phase in
      let items : InOrder q.completed q.items q.next_token =
        subst (λ ts. InOrder q.completed ts q.next_token) (rw (w, alone) (append-nil q.items))
          o.in_order in
      let done : WorkedOff outcome q.completed q.next_token q₁ q₂ =
        work_off_lem q₁ outcome q.completed q.next_token q.items items
          (begin_drain-IsStopping q w soft alone) in
      let r₂ : Reach max_depth blank q₂ =
        Reach-run max_depth blank q₁ es (work_off-FairRun q₁ outcome q.items)
          (Reach-begin_drain max_depth blank q reach) in
      let pending : q₂.pending ≡ [] =
        no_line q₂ done.left done.empty done.alone (Reach-IsOrderly max_depth blank r₂).phase in
      let reap = reap_nothing (release q₂) (unfold release in pending) in
      let at_start : worker_gone q₁ ≡ false =
        unfold begin_drain worker_gone in (rw (has, w) refl) in
      let at_end : has_exited q₂.worker ≡ true = rw done.left in
      let d : graceful_drain q es grace ≡ reaped (release q₂) false =
        unfold graceful_drain in (if_false _ _ at_start ∙ if_true _ _ at_end) in
      (
        ap (λ x. x.0) d ∙ (λ i. record { dropped = reap.0 i; timed_out = false }),
        λ u le lt.
            ap (λ x. x.1.tasks u) d
            ∙ ap (λ f. f u) reap.1
            ∙ ap (λ f. f u) (release-tasks q₂)
            ∙ done.ran u le lt
            ∙ ap (λ f. record_outcome (f u) (outcome u)) (begin_drain-tasks q),
      )
