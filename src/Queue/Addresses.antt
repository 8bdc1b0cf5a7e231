-- ===== src/Queue/Addresses.antt =====
-- trainfer/queue.py: a task holds the token under which it is stored, in every execution.
use trainfer.Prelude.{
  ℕ, suc, ◌<◌, ◌≡◌, refl, sym, ap, subst, ◌∙◌, inl, inr, String, List, [], ◌∷◌, ◌==◌, ==_iff,
  if_elim, Bool-cases, arith,
}
use trainfer.Errors.{Result}
use trainfer.Queue.{
  ComputeQueue, is_full, enqueue, submit, try_submit, resume_put, start, poll, get, take_item,
  resume_first, poll_at, get_at, finish, finish_at, settle,
}
use trainfer.Queue.Shutdown.{
  request_stop, begin_drain, hard_stop_now, release, reap_pending, reap_all, reap_one,
}
use trainfer.Queue.Schedule.{
  Event, submits, tries, resumes, starts, polls, gets, finishes, stops, drains, deadline, releases,
  reaps, step,
}
use trainfer.Queue.Jobs.{JobsKept, step-JobsKept, enqueue-JobsKept}

module _ {P R : Type 0} where
  abbrev pub IsAddressed : ComputeQueue P R → Type 0
  IsAddressed q = (t : ℕ) → t < q.next_token → (q.tasks t).job.token ≡ t

  JobsKept-IsAddressed :
      (q r : ComputeQueue P R)
      → JobsKept q r
      → r.next_token ≡ q.next_token
      → IsAddressed q
      → IsAddressed r
  JobsKept-IsAddressed q r kept same h t lt =
      let old : t < q.next_token = omega (arith, lt, same) in
      ap (λ j. j.token) (kept t old) ∙ h t old

  enqueue-fresh :
      (q : ComputeQueue P R) (now : ℕ) (kind : String) (payload : P) (batch_id : String)
      → (((enqueue q now kind payload batch_id).tasks q.next_token).job.token ≡ q.next_token)
        × ((enqueue q now kind payload batch_id).next_token ≡ suc q.next_token)
  unfolding enqueue
  enqueue-fresh q now kind payload batch_id =
      if_elim
        (λ (r : ComputeQueue P R).
          ((r.tasks q.next_token).job.token ≡ q.next_token) × (r.next_token ≡ suc q.next_token))
        (is_full q.maxsize q.items) _ _ (λ _. (ground arith, refl)) (λ _. (ground arith, refl))

  enqueue-IsAddressed :
      (q : ComputeQueue P R) (now : ℕ) (kind : String) (payload : P) (batch_id : String)
      → IsAddressed q
      → IsAddressed (enqueue q now kind payload batch_id)
  enqueue-IsAddressed q now kind payload batch_id h t lt =
      let r = enqueue q now kind payload batch_id in
      let fresh = enqueue-fresh q now kind payload batch_id in
      elim (Bool-cases (t == q.next_token)) [
        | inl new ↦
            let e = (==_iff t q.next_token).0 new in
            subst (λ u. (r.tasks u).job.token ≡ u) (sym e) fresh.0
        | inr not_new ↦
            let old : t < q.next_token = ground (arith, fresh.1) in
            ap (λ j. j.token) (enqueue-JobsKept q now kind payload batch_id t old) ∙ h t old
      ]

  submit-IsAddressed :
      (q : ComputeQueue P R) (now : ℕ) (kind : String) (payload : P) (batch_id : String)
      → IsAddressed q
      → IsAddressed (submit q now kind payload batch_id).1
  unfolding submit
  submit-IsAddressed q now kind payload batch_id h =
      if_elim (λ (r : Result ℕ × ComputeQueue P R). IsAddressed r.1) q.accepting _ _
        (λ _. enqueue-IsAddressed q now kind payload batch_id h) (λ _. h)

  try_submit-IsAddressed :
      (q : ComputeQueue P R) (now : ℕ) (kind : String) (payload : P) (batch_id : String)
      → IsAddressed q
      → IsAddressed (try_submit q now kind payload batch_id).1
  unfolding try_submit
  try_submit-IsAddressed q now kind payload batch_id h =
      if_elim (λ (r : Result ℕ × ComputeQueue P R). IsAddressed r.1) (is_full q.maxsize q.items) _ _
        (λ _. h) (λ _. submit-IsAddressed q now kind payload batch_id h)

  reap_all-next_token :
      (q : ComputeQueue P R) (k : ℕ) (ts : List ℕ)
      → (reap_all (q, k) ts).0.next_token ≡ q.next_token
  unfolding reap_all reap_one
  reap_all-next_token q k [] = refl
  reap_all-next_token q k (t ∷ ts) =
      let x : ComputeQueue P R × ℕ = reap_one (q, k) t in
      reap_all-next_token x.0 x.1 ts ∙ ground arith

  -- No event but a submit issues a token.
  abbrev Submits : Event P R → Type 0
  Submits (submits now kind payload batch_id) = Unit
  Submits (tries now kind payload batch_id) = Unit
  Submits _ = ⊥

  step-next_token :
      (q : ComputeQueue P R) (e : Event P R)
      → (Submits e → ⊥)
      → (step q e).next_token ≡ q.next_token
  unfolding step resume_put resume_first start poll poll_at get get_at take_item finish finish_at
      settle request_stop begin_drain hard_stop_now release reap_pending
  step-next_token q (submits now kind payload batch_id) n = absurd (n tt)
  step-next_token q (tries now kind payload batch_id) n = absurd (n tt)
  step-next_token q reaps n = reap_all-next_token q 0 q.pending
  step-next_token q _ n = ground arith

  kept :
      (q : ComputeQueue P R) (e : Event P R)
      → (Submits e → ⊥)
      → IsAddressed q
      → IsAddressed (step q e)
  kept q e n h = JobsKept-IsAddressed q (step q e) (step-JobsKept q e) (step-next_token q e n) h

  pub step-IsAddressed :
      (q : ComputeQueue P R) (e : Event P R) → IsAddressed q → IsAddressed (step q e)
  step-IsAddressed q (submits now kind payload batch_id) h =
      unfold step in submit-IsAddressed q now kind payload batch_id h
  step-IsAddressed q (tries now kind payload batch_id) h =
      unfold step in try_submit-IsAddressed q now kind payload batch_id h
  step-IsAddressed q resumes h = kept q resumes (λ n. n) h
  step-IsAddressed q starts h = kept q starts (λ n. n) h
  step-IsAddressed q polls h = kept q polls (λ n. n) h
  step-IsAddressed q gets h = kept q gets (λ n. n) h
  step-IsAddressed q (finishes outcome) h = kept q (finishes outcome) (λ n. n) h
  step-IsAddressed q stops h = kept q stops (λ n. n) h
  step-IsAddressed q drains h = kept q drains (λ n. n) h
  step-IsAddressed q deadline h = kept q deadline (λ n. n) h
  step-IsAddressed q releases h = kept q releases (λ n. n) h
  step-IsAddressed q reaps h = kept q reaps (λ n. n) h
