-- ===== src/Queue/Drain/Rounds.antt =====
-- trainfer/queue.py: the rounds of the worker loop over a queue that gets no more tasks.
use trainfer.Prelude.{
  ℕ, suc, ◌≤◌, ◌<◌, ◌≡◌, ◌≢◌, refl, true, false, List, [], ◌∷◌, arith, ap, sym, subst, ◌∙◌, if_true,
  if_false, ◌&&◌,
}
use native.Mathlib.Decide.{ℕ_discrete}
use trainfer.Errors.{Result}
use trainfer.Queue.{
  Worker, ComputeQueue, is_empty, poll, poll_at, get, get_at, take_item, finish, finish_at, settle,
  update, record_outcome,
}
use trainfer.Queue.Schedule.{Event, polls, gets, finishes, step, run}
use trainfer.Queue.Order.{InOrder}
use trainfer.Queue.Drain.{FairRun}

module _ {P R : Type 0} where
  -- The worker's loop over the queued tasks, whose handlers return or raise as `outcome` says, and
  -- its last look at the empty queue.
  abbrev pub work_off : (ℕ → Result R) → List ℕ → List (Event P R)
  work_off outcome [] = polls ∷ []
  work_off outcome (t ∷ ts) = polls ∷ gets ∷ finishes (outcome t) ∷ work_off outcome ts

  pub work_off-FairRun :
      (q : ComputeQueue P R) (outcome : ℕ → Result R) (ts : List ℕ)
      → FairRun q (work_off outcome ts)
  work_off-FairRun q outcome [] = (tt, tt)
  work_off-FairRun q outcome (t ∷ ts) = (
    tt,
    (
      tt,
      (tt, work_off-FairRun (step (step (step q polls) gets) (finishes (outcome t))) outcome ts),
    ),
  )

  -- The worker at the top of its loop, with `items` queued and a stop requested.
  pub record IsStopping (q : ComputeQueue P R) (items : List ℕ) : Type 0 where
    pub at_top : q.worker ≡ Worker.polling
    pub items_are : q.items ≡ items
    pub stopping : q.stop ≡ true
    pub soft : q.hard_stop ≡ false
    pub alone : q.putters ≡ []

  pub poll_busy :
      (q : ComputeQueue P R) (t : ℕ) (ts : List ℕ)
      → IsStopping q (t ∷ ts)
      → step q polls ≡ record q { worker = Worker.getting }
  unfolding step poll poll_at
  poll_busy q t ts s =
      ap (poll_at q) s.at_top
      ∙ if_false _ _ s.soft
      ∙ if_false {b = q.stop && is_empty q.items} _ _ (rw (s.stopping, s.items_are) refl)

  pub get_busy :
      (q : ComputeQueue P R) (t : ℕ) (ts : List ℕ)
      → q.items ≡ t ∷ ts
      → step (record q { worker = Worker.getting }) gets
        ≡ record q { worker = Worker.busy t; items = ts }
  unfolding step get get_at take_item
  get_busy q t ts e = ap (take_item (record q { worker = Worker.getting })) e

  pub poll_idle :
      (q : ComputeQueue P R) → IsStopping q [] → step q polls ≡ record q { worker = Worker.exited }
  unfolding step poll poll_at
  poll_idle q s =
      ap (poll_at q) s.at_top
      ∙ if_false _ _ s.soft
      ∙ if_true {b = q.stop && is_empty q.items} _ _ (rw (s.stopping, s.items_are) refl)

  -- What a round leaves in the cell of its task, and in the others.
  pub at_same :
      (q r : ComputeQueue P R) (t u : ℕ) (o : Result R)
      → r.tasks ≡ update q.tasks t (record_outcome (q.tasks t) o)
      → u ≡ t
      → r.tasks u ≡ record_outcome (q.tasks u) o
  at_same q r t u o e same = ap (λ f. f u) e ∙ ground (arith, same)

  pub at_other :
      (q r : ComputeQueue P R) (t u : ℕ) (o : Result R)
      → r.tasks ≡ update q.tasks t (record_outcome (q.tasks t) o)
      → u ≢ t
      → r.tasks u ≡ q.tasks u
  at_other q r t u o e other = ap (λ f. f u) e ∙ ground (arith, other)

  pub finish_busy :
      (q : ComputeQueue P R) (t : ℕ) (ts : List ℕ) (o : Result R)
      → IsStopping q (t ∷ ts)
      → step (step (step q polls) gets) (finishes o)
        ≡ settle (record q { worker = Worker.busy t; items = ts }) t o
  unfolding finish finish_at
  finish_busy q t ts o s =
      ap (λ r. step (step r gets) (finishes o)) (poll_busy q t ts s)
      ∙ ap (λ r. step r (finishes o)) (get_busy q t ts s.items_are)
      ∙ unfold step in refl

  -- One round of the loop on a queue with an item.
  pub round_lem :
      (q : ComputeQueue P R) (t : ℕ) (ts : List ℕ) (o : Result R)
      → IsStopping q (t ∷ ts)
      → let r = step (step (step q polls) gets) (finishes o) in
        IsStopping r ts × (r.tasks ≡ update q.tasks t (record_outcome (q.tasks t) o))
  round_lem q t ts o s =
      subst (λ r. IsStopping r ts × (r.tasks ≡ update q.tasks t (record_outcome (q.tasks t) o)))
        (sym (finish_busy q t ts o s))
        (unfold settle in
          (
            record {
              at_top = refl;
              items_are = refl;
              stopping = s.stopping;
              soft = s.soft;
              alone = s.alone;
            },
            refl,
          ))

  -- The worker has run `ts` and left.
  pub record WorkedOff (outcome : ℕ → Result R) (c n : ℕ) (q r : ComputeQueue P R) : Type 0 where
    pub left : r.worker ≡ Worker.exited
    pub empty : r.items ≡ []
    pub alone : r.putters ≡ []
    pub ran : (u : ℕ) → c ≤ u → u < n → r.tasks u ≡ record_outcome (q.tasks u) (outcome u)
    pub kept : (u : ℕ) → u < c → r.tasks u ≡ q.tasks u

  pub work_off_lem :
      (q : ComputeQueue P R) (outcome : ℕ → Result R) (c n : ℕ) (ts : List ℕ)
      → InOrder c ts n
      → IsStopping q ts
      → WorkedOff outcome c n q (run q (work_off outcome ts))
  unfolding run
  work_off_lem q outcome c n [] h s =
      subst (λ r. WorkedOff outcome c n q r) (sym (poll_idle q s))
        (record {
          left = refl;
          empty = s.items_are;
          alone = s.alone;
          ran = λ u a b. absurd (omega (arith, h));
          kept = λ u lt. refl;
        })
  work_off_lem q outcome c n (t ∷ ts) h s =
      let r : ComputeQueue P R = step (step (step q polls) gets) (finishes (outcome t)) in
      let (s', e) = round_lem q t ts (outcome t) s in
      let w : WorkedOff outcome (suc c) n r (run r (work_off outcome ts)) =
        work_off_lem r outcome (suc c) n ts h.1 s' in
      record {
        left = w.left;
        empty = w.empty;
        alone = w.alone;
        ran = λ u a b. elim (ℕ_discrete u t) [
          | yes same ↦
              w.kept u (omega (arith, h.0, same))
              ∙ at_same q r t u (outcome t) e same
              ∙ ap (λ v. record_outcome (q.tasks u) (outcome v)) (sym same)
          | no other ↦
              w.ran u (omega (arith, h.0, other)) b
              ∙ ap (λ x. record_outcome x (outcome u)) (at_other q r t u (outcome t) e other)
        ];
        kept = λ u lt.
            w.kept u (omega arith)
            ∙ at_other q r t u (outcome t) e (λ same. absurd (omega (arith, h.0, same)));
      }
