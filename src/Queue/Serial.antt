-- ===== src/Queue/Serial.antt =====
-- trainfer/queue.py: the queue refines a serial machine. Whatever the interleaving of submits,
-- waits and drains with the worker, the handler acts on its world (the model, the logs) as if the
-- jobs were run one by one in the order of their tokens.
use trainfer.Prelude.{
  ℕ, zero, suc, ◌≤◌, ◌<◌, ◌≡◌, true, subst, refl, inl, inr, ◌⊎◌, List, [], ◌∷◌, ◌++◌, arith, ap,
  sym, ◌∙◌,
}
use trainfer.Errors.{Result}
use trainfer.Queue.{Worker, ComputeQueue, Job, init, finish, finish_at, settle}
use trainfer.Queue.Schedule.{Event, finishes, step}
use trainfer.Queue.Order.{InOrder, InOrder-snoc, InOrder-le, line, IsOrdered, IsClosed}
use trainfer.Queue.Order.Runs.{Reach, here, next, Fair, IsOrderly, Reach-IsOrderly}
use trainfer.Queue.Order.Line.{LineStep, NoFinish, step-LineStep}
use trainfer.Queue.Jobs.{JobsKept, step-JobsKept}

module _ {P R W : Type 0} (handler : Job P → W → Result R × W) where
  -- The specification: the first `n` jobs, one after the other.
  abbrev pub serial : (ℕ → Job P) → W → ℕ → W
  serial jobs w zero = w
  serial jobs w (suc n) = (handler (jobs n) (serial jobs w n)).1

  serial_congr :
      (f g : ℕ → Job P) (w : W) (n : ℕ)
      → ((t : ℕ) → t < n → g t ≡ f t)
      → serial g w n ≡ serial f w n
  serial_congr f g w zero h = refl
  serial_congr f g w (suc n) h =
      let job : g n ≡ f n = h n (omega arith) in
      let before : serial g w n ≡ serial f w n = serial_congr f g w n (λ t lt. h t (omega arith)) in
      λ i. (handler (job i) (before i)).1

  abbrev pub jobs_of : ComputeQueue P R → ℕ → Job P
  jobs_of q t = (q.tasks t).job

  -- The queue with the world that its handler acts on: only the worker calls the handler, on the
  -- task that it holds.
  pub data Serves (max_depth : ℕ) (blank : Job P) (start_world : W)
      : ComputeQueue P R → W → Type 0 where
    fresh : Serves max_depth blank start_world (init max_depth blank) start_world
    other :
        {q : ComputeQueue P R} {w : W}
        → Serves max_depth blank start_world q w
        → (e : Event P R) → Fair q e
        → NoFinish e
        → Serves max_depth blank start_world (step q e) w
    handles :
        {q : ComputeQueue P R} {w : W}
        → Serves max_depth blank start_world q w
        → (t : ℕ) → q.worker ≡ Worker.busy t
        → Serves max_depth blank start_world
            (step q (finishes (handler (q.tasks t).job w).0))
            (handler (q.tasks t).job w).1

  -- The first `ran` jobs have been handled, and the line holds the others.
  record IsSerial (start_world : W) (q : ComputeQueue P R) (w : W) : Type 0 where
    ran : ℕ
    rest : InOrder ran (line q) q.next_token
    world_is : w ≡ serial (jobs_of q) start_world ran

  moved-IsSerial :
      (start_world : W) (q r : ComputeQueue P R) (w : W)
      → LineStep q r
      → JobsKept q r
      → IsSerial start_world q w
      → IsSerial start_world r w
  moved-IsSerial start_world q r w (inl (l, n)) kept s = record {
    ran = s.ran;
    rest = rw (l, n) s.rest;
    world_is =
        s.world_is
        ∙ sym (
            serial_congr (jobs_of q) (jobs_of r) start_world s.ran
              (λ t lt. kept t (omega (arith, InOrder-le s.ran q.next_token (line q) s.rest))));
  }
  moved-IsSerial start_world q r w (inr (l, n)) kept s = record {
    ran = s.ran;
    rest = rw (l, n) (InOrder-snoc s.ran q.next_token (line q) s.rest);
    world_is =
        s.world_is
        ∙ sym (
            serial_congr (jobs_of q) (jobs_of r) start_world s.ran
              (λ t lt. kept t (omega (arith, InOrder-le s.ran q.next_token (line q) s.rest))));
  }

  finish_busy :
      (q : ComputeQueue P R) (o : Result R) (t : ℕ)
      → q.worker ≡ Worker.busy t
      → step q (finishes o) ≡ settle q t o
  unfolding step finish finish_at
  finish_busy q o t e = ap (finish_at q o) e

  settled-IsSerial :
      (start_world : W) (q : ComputeQueue P R) (w : W) (t : ℕ) (o : Result R)
      → q.worker ≡ Worker.busy t
      → JobsKept q (settle q t o)
      → IsSerial start_world q w
      → IsSerial start_world (settle q t o) (handler (q.tasks t).job w).1
  unfolding settle
  settled-IsSerial start_world q w t o e kept s =
      let h : InOrder s.ran (t ∷ (q.items ++ q.putters)) q.next_token = rw e at s.rest in
      let le : suc s.ran ≤ q.next_token =
        InOrder-le (suc s.ran) q.next_token (q.items ++ q.putters) h.1 in
      let world : (handler (q.tasks t).job w).1 ≡ serial (jobs_of q) start_world (suc s.ran) =
        λ i. (handler (jobs_of q (h.0 i)) (s.world_is i)).1 in
      record {
        ran = suc s.ran;
        rest = h.1;
        world_is =
            world
            ∙ sym (
                serial_congr (jobs_of q) (jobs_of (settle q t o)) start_world (suc s.ran)
                  (λ u lt. kept u (omega arith)));
      }

  handled-IsSerial :
      (start_world : W) (q : ComputeQueue P R) (w : W) (t : ℕ) (o : Result R)
      → q.worker ≡ Worker.busy t
      → IsSerial start_world q w
      → IsSerial start_world (step q (finishes o)) (handler (q.tasks t).job w).1
  handled-IsSerial start_world q w t o e s =
      let f = finish_busy q o t e in
      subst (λ r. IsSerial start_world r (handler (q.tasks t).job w).1) (sym f)
        (settled-IsSerial start_world q w t o e
          (subst (λ r. JobsKept q r) f (step-JobsKept q (finishes o))) s)

  Serves-IsSerial :
      (max_depth : ℕ) (blank : Job P) (start_world : W) {q : ComputeQueue P R} {w : W}
      → Serves max_depth blank start_world q w
      → IsSerial start_world q w
  unfolding init
  Serves-IsSerial max_depth blank start_world fresh = record {
    ran = 0;
    rest = refl;
    world_is = refl;
  }
  Serves-IsSerial max_depth blank start_world (other {q = q} {w = w} r e f n) =
      moved-IsSerial start_world q (step q e) w (step-LineStep q e f n) (step-JobsKept q e)
        (Serves-IsSerial max_depth blank start_world r)
  Serves-IsSerial max_depth blank start_world (handles {q = q} {w = w} r t e) =
      handled-IsSerial start_world q w t (handler (q.tasks t).job w).0 e
        (Serves-IsSerial max_depth blank start_world r)

  Serves-Reach :
      (max_depth : ℕ) (blank : Job P) (start_world : W) {q : ComputeQueue P R} {w : W}
      → Serves max_depth blank start_world q w
      → Reach max_depth blank q
  Serves-Reach max_depth blank start_world fresh = here
  Serves-Reach max_depth blank start_world (other r e f n) =
      next (Serves-Reach max_depth blank start_world r) e f
  Serves-Reach max_depth blank start_world (handles {q = q} {w = w} r t e) =
      next (Serves-Reach max_depth blank start_world r) (finishes (handler (q.tasks t).job w).0) tt

  InOrder-unique : (c d n : ℕ) (ts : List ℕ) → InOrder c ts n → InOrder d ts n → c ≡ d
  InOrder-unique c d n [] h k = h ∙ sym k
  InOrder-unique c d n (t ∷ ts) h k = sym h.0 ∙ k.0

  serial_phase :
      (start_world : W) (q : ComputeQueue P R) (w : W)
      → IsSerial start_world q w
      → IsOrdered q ⊎ IsClosed q
      → q.accepting ≡ true
      → w ≡ serial (jobs_of q) start_world q.completed
  serial_phase start_world q w s (inl o) a =
      s.world_is
      ∙ ap (serial (jobs_of q) start_world)
          (InOrder-unique s.ran q.completed q.next_token (line q) s.rest o.in_order)
  serial_phase start_world q w s (inr c) a = absurd (cc (c.shut, a))

  -- In every execution in which no submit overtakes another, the world of the handler is that of
  -- the jobs run serially, the first so many in the order of their tokens; and while the queue
  -- accepts submits, these are exactly the jobs that the cursor has passed.
  pub queue-serial :
      (max_depth : ℕ) (blank : Job P) (start_world : W) (q : ComputeQueue P R) (w : W)
      → Serves max_depth blank start_world q w
      → ((n : ℕ) × (n ≤ q.next_token) × (w ≡ serial (jobs_of q) start_world n))
        × (q.accepting ≡ true → w ≡ serial (jobs_of q) start_world q.completed)
  queue-serial max_depth blank start_world q w r =
      let s : IsSerial start_world q w = Serves-IsSerial max_depth blank start_world r in
      let k : IsOrderly q =
        Reach-IsOrderly max_depth blank (Serves-Reach max_depth blank start_world r) in
      (
        (s.ran, InOrder-le s.ran q.next_token (line q) s.rest, s.world_is),
        λ a. serial_phase start_world q w s k.phase a,
      )
