-- ===== src/Queue/Order/Runs.antt =====
-- trainfer/queue.py: executions in which no submit overtakes one that waits in `put`, and the
-- guarantee of the commit cursor in them.
use trainfer.Prelude.{ℕ, ◌≡◌, ◌⊎◌, inl, inr, refl, String, Bool, true, false, [], if_elim}
use trainfer.Errors.{Result}
use trainfer.Queue.{
  ComputeQueue, is_full, init, submit, try_submit, resume_put, start, poll, get, finish, Job,
}
use trainfer.Queue.Cursor.{running, IsSafe}
use trainfer.Queue.Shutdown.{request_stop, begin_drain, hard_stop_now, release}
use trainfer.Queue.Schedule.{
  Event, submits, tries, resumes, starts, polls, gets, finishes, stops, drains, deadline, releases,
  reaps, step,
}
use trainfer.Queue.Cursor.{init-IsSafe}
use trainfer.Queue.Cursor.Steps.{step-IsSafe}
use trainfer.Queue.Order.{
  IsOrdered, IsClosed, NoBarging, enqueue-IsOrdered, finish_at-IsOrdered, finish_at-IsClosed,
}
use trainfer.Queue.Order.Moves.{
  poll_at-IsOrdered, poll_at-IsClosed, get_at-IsOrdered, get_at-IsClosed, resume_first-IsOrdered,
  resume_first-IsClosed,
}
use trainfer.Queue.Order.Reaping.{reap_pending-IsClosed, reap_pending-IsClosed_again}

module _ {P R : Type 0} where
  -- A submit overtakes no other, so that a submit that is woken finds room; `start` comes while the worker holds no task; only a drain, which
  -- has closed the queue, reaps. The other stretches of code may come at any time.
  abbrev pub Fair : ComputeQueue P R → Event P R → Type 0
  Fair q (submits _ _ _ _) = NoBarging q
  Fair q (tries _ _ _ _) = NoBarging q
  Fair q resumes = is_full q.maxsize q.items ≡ false
  Fair q starts = running q.worker ≡ []
  Fair q reaps = q.accepting ≡ false
  Fair q _ = Unit

  pub record IsOrderly (q : ComputeQueue P R) : Type 0 where
    pub safe : IsSafe q
    pub phase : IsOrdered q ⊎ IsClosed q

  -- The queues that such an execution reaches from a new one.
  pub data Reach (max_depth : ℕ) (blank : Job P) : ComputeQueue P R → Type 0 where
    here : Reach max_depth blank (init max_depth blank)
    next :
        {q : ComputeQueue P R}
        → Reach max_depth blank q
        → (e : Event P R) → Fair q e
        → Reach max_depth blank (step q e)

  init-IsOrdered : (max_depth : ℕ) (blank : Job P) → IsOrdered (init {R = R} max_depth blank)
  unfolding init
  init-IsOrdered max_depth blank = record {
    in_order = refl;
    pending_is = refl;
    settled = λ t h. elim h [ ];
  }

  submit-IsOrdered :
      (q : ComputeQueue P R) (now : ℕ) (kind : String) (payload : P) (batch_id : String)
      → NoBarging q
      → IsSafe q
      → IsOrdered q
      → IsOrdered (submit q now kind payload batch_id).1
  unfolding submit
  submit-IsOrdered q now kind payload batch_id fair s o =
      if_elim (λ (r : Result ℕ × ComputeQueue P R). IsOrdered r.1) q.accepting _ _
        (λ _. enqueue-IsOrdered q now kind payload batch_id fair s o) (λ _. o)

  try_submit-IsOrdered :
      (q : ComputeQueue P R) (now : ℕ) (kind : String) (payload : P) (batch_id : String)
      → NoBarging q
      → IsSafe q
      → IsOrdered q
      → IsOrdered (try_submit q now kind payload batch_id).1
  unfolding try_submit
  try_submit-IsOrdered q now kind payload batch_id fair s o =
      if_elim (λ (r : Result ℕ × ComputeQueue P R). IsOrdered r.1) (is_full q.maxsize q.items) _ _
        (λ _. o) (λ _. submit-IsOrdered q now kind payload batch_id fair s o)

  submit-IsClosed :
      (q : ComputeQueue P R) (now : ℕ) (kind : String) (payload : P) (batch_id : String)
      → IsClosed q
      → IsClosed (submit q now kind payload batch_id).1
  unfolding submit
  submit-IsClosed q now kind payload batch_id o =
      if_elim (λ (r : Result ℕ × ComputeQueue P R). IsClosed r.1) q.accepting _ _
        (λ e. absurd (cc (o.shut, e))) (λ _. o)

  try_submit-IsClosed :
      (q : ComputeQueue P R) (now : ℕ) (kind : String) (payload : P) (batch_id : String)
      → IsClosed q
      → IsClosed (try_submit q now kind payload batch_id).1
  unfolding try_submit
  try_submit-IsClosed q now kind payload batch_id o =
      if_elim (λ (r : Result ℕ × ComputeQueue P R). IsClosed r.1) (is_full q.maxsize q.items) _ _
        (λ _. o) (λ _. submit-IsClosed q now kind payload batch_id o)

  flags-IsOrdered :
      (q : ComputeQueue P R) (h t d a : Bool)
      → IsOrdered q
      → IsOrdered (record q { has_worker_task = h; stop = t; hard_stop = d; accepting = a })
  flags-IsOrdered q h t d a o = record {
    in_order = o.in_order;
    pending_is = o.pending_is;
    settled = o.settled;
  }

  flags-IsClosed :
      (q : ComputeQueue P R) (h t d a : Bool)
      → a ≡ false
      → IsClosed q
      → IsClosed (record q { has_worker_task = h; stop = t; hard_stop = d; accepting = a })
  flags-IsClosed q h t d a e o = record {
    shut = e;
    none_pending = o.none_pending;
    cursor_is = o.cursor_is;
    settled = o.settled;
  }

  start-IsOrdered :
      (q : ComputeQueue P R) → running q.worker ≡ [] → IsOrdered q → IsOrdered (start q).1
  unfolding start
  start-IsOrdered q e o =
      if_elim (λ (r : Result (Unit {0}) × ComputeQueue P R). IsOrdered r.1) q.has_worker_task _ _
        (λ _. o)
        (λ _. record {
          in_order = rw e at o.in_order;
          pending_is = rw e at o.pending_is;
          settled = o.settled;
        })

  start-IsClosed : (q : ComputeQueue P R) → IsClosed q → IsClosed (start q).1
  unfolding start
  start-IsClosed q o =
      if_elim (λ (r : Result (Unit {0}) × ComputeQueue P R). IsClosed r.1) q.has_worker_task _ _
        (λ _. o)
        (λ _. record {
          shut = o.shut;
          none_pending = o.none_pending;
          cursor_is = o.cursor_is;
          settled = o.settled;
        })

  step-IsOrdered :
      (q : ComputeQueue P R) (e : Event P R)
      → Fair q e
      → IsSafe q
      → IsOrdered q
      → IsOrdered (step q e) ⊎ IsClosed (step q e)
  unfolding step resume_put poll get finish request_stop begin_drain hard_stop_now release
  step-IsOrdered q (submits now kind payload batch_id) f s o =
      inl (submit-IsOrdered q now kind payload batch_id f s o)
  step-IsOrdered q (tries now kind payload batch_id) f s o =
      inl (try_submit-IsOrdered q now kind payload batch_id f s o)
  step-IsOrdered q resumes f s o = inl (resume_first-IsOrdered q q.putters refl f o)
  step-IsOrdered q starts f s o = inl (start-IsOrdered q f o)
  step-IsOrdered q polls f s o = inl (poll_at-IsOrdered q q.worker refl o)
  step-IsOrdered q gets f s o = inl (get_at-IsOrdered q q.worker refl o)
  step-IsOrdered q (finishes outcome) f s o = inl (finish_at-IsOrdered q outcome q.worker refl o)
  step-IsOrdered q stops f s o =
      inl (flags-IsOrdered q q.has_worker_task true q.hard_stop q.accepting o)
  step-IsOrdered q drains f s o = inl (flags-IsOrdered q q.has_worker_task true q.hard_stop false o)
  step-IsOrdered q deadline f s o =
      inl (flags-IsOrdered q q.has_worker_task q.stop true q.accepting o)
  step-IsOrdered q releases f s o = inl (flags-IsOrdered q false q.stop q.hard_stop q.accepting o)
  step-IsOrdered q reaps f s o = inr (reap_pending-IsClosed q f s o)

  step-IsClosed :
      (q : ComputeQueue P R) (e : Event P R) → IsSafe q → IsClosed q → IsClosed (step q e)
  unfolding step resume_put poll get finish request_stop begin_drain hard_stop_now release
  step-IsClosed q (submits now kind payload batch_id) s o =
      submit-IsClosed q now kind payload batch_id o
  step-IsClosed q (tries now kind payload batch_id) s o =
      try_submit-IsClosed q now kind payload batch_id o
  step-IsClosed q resumes s o = resume_first-IsClosed q q.putters o
  step-IsClosed q starts s o = start-IsClosed q o
  step-IsClosed q polls s o = poll_at-IsClosed q q.worker o
  step-IsClosed q gets s o = get_at-IsClosed q q.worker o
  step-IsClosed q (finishes outcome) s o = finish_at-IsClosed q outcome q.worker s.running_issued o
  step-IsClosed q stops s o =
      flags-IsClosed q q.has_worker_task true q.hard_stop q.accepting o.shut o
  step-IsClosed q drains s o = flags-IsClosed q q.has_worker_task true q.hard_stop false refl o
  step-IsClosed q deadline s o = flags-IsClosed q q.has_worker_task q.stop true q.accepting o.shut o
  step-IsClosed q releases s o = flags-IsClosed q false q.stop q.hard_stop q.accepting o.shut o
  step-IsClosed q reaps s o = reap_pending-IsClosed_again q o

  step_phase :
      (q : ComputeQueue P R) (e : Event P R)
      → Fair q e
      → IsSafe q
      → IsOrdered q ⊎ IsClosed q
      → IsOrdered (step q e) ⊎ IsClosed (step q e)
  step_phase q e f s (inl o) = step-IsOrdered q e f s o
  step_phase q e f s (inr c) = inr (step-IsClosed q e s c)

  pub Reach-IsOrderly :
      (max_depth : ℕ) (blank : Job P) {q : ComputeQueue P R} → Reach max_depth blank q → IsOrderly q
  Reach-IsOrderly max_depth blank here = record {
    safe = init-IsSafe max_depth blank;
    phase = inl (init-IsOrdered max_depth blank);
  }
  Reach-IsOrderly max_depth blank (next {q = q} r e f) =
      let k : IsOrderly q = Reach-IsOrderly max_depth blank r in
      record { safe = step-IsSafe q e k.safe; phase = step_phase q e f k.safe k.phase }
