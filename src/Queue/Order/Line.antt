-- ===== src/Queue/Order/Line.antt =====
-- trainfer/queue.py: how each stretch of code moves the line of tasks.
use trainfer.Prelude.{
  false, ℕ, suc, ◌≡◌, ◌⊎◌, inl, inr, refl, String, List, [], ◌∷◌, ◌++◌, if_elim, ◌&&◌, ◌∙◌,
}
use mathlib.Core.List.{append_assoc}
use trainfer.Errors.{Result}
use trainfer.Queue.{
  Worker, ComputeQueue, is_full, enqueue, submit, try_submit, resume_put, start, poll, get,
  take_item, is_empty, resume_first, poll_at, get_at,
}
use trainfer.Queue.Shutdown.{
  request_stop, begin_drain, hard_stop_now, release, reap_pending, reap_all, reap_one,
}
use trainfer.Queue.Schedule.{
  Event, submits, tries, resumes, starts, polls, gets, finishes, stops, drains, deadline, releases,
  reaps, step,
}
use trainfer.Queue.Cursor.{running}
use trainfer.Queue.Order.{line, NoBarging, no_putters, append_back, append_middle}
use trainfer.Queue.Order.Runs.{Fair}

module _ {P R : Type 0} where
  -- The line stays, or a new token joins it at the end.
  abbrev pub LineStep : ComputeQueue P R → ComputeQueue P R → Type 0
  LineStep q r =
      ((line r ≡ line q) × (r.next_token ≡ q.next_token))
      ⊎ ((line r ≡ line q ++ q.next_token ∷ []) × (r.next_token ≡ suc q.next_token))

  -- A stretch of code other than the end of the handler.
  abbrev pub NoFinish : Event P R → Type 0
  NoFinish (finishes _) = ⊥
  NoFinish _ = Unit

  enqueue-LineStep :
      (q : ComputeQueue P R) (now : ℕ) (kind : String) (payload : P) (batch_id : String)
      → NoBarging q
      → LineStep q (enqueue q now kind payload batch_id)
  unfolding enqueue
  enqueue-LineStep q now kind payload batch_id fair =
      let end = q.next_token ∷ [] in
      if_elim (LineStep q) (is_full q.maxsize q.items) _ _
        (λ _. inr (append_back (running q.worker) q.items q.putters end, refl))
        (λ room.
          inr
            (append_middle (running q.worker) q.items q.putters end (no_putters q fair room), refl))

  submit-LineStep :
      (q : ComputeQueue P R) (now : ℕ) (kind : String) (payload : P) (batch_id : String)
      → NoBarging q
      → LineStep q (submit q now kind payload batch_id).1
  unfolding submit
  submit-LineStep q now kind payload batch_id fair =
      if_elim (λ (r : Result ℕ × ComputeQueue P R). LineStep q r.1) q.accepting _ _
        (λ _. enqueue-LineStep q now kind payload batch_id fair) (λ _. inl (refl, refl))

  try_submit-LineStep :
      (q : ComputeQueue P R) (now : ℕ) (kind : String) (payload : P) (batch_id : String)
      → NoBarging q
      → LineStep q (try_submit q now kind payload batch_id).1
  unfolding try_submit
  try_submit-LineStep q now kind payload batch_id fair =
      if_elim (λ (r : Result ℕ × ComputeQueue P R). LineStep q r.1) (is_full q.maxsize q.items) _ _
        (λ _. inl (refl, refl)) (λ _. submit-LineStep q now kind payload batch_id fair)

  resume_first-LineStep :
      (q : ComputeQueue P R) (ps : List ℕ)
      → q.putters ≡ ps
      → is_full q.maxsize q.items ≡ false
      → LineStep q (resume_first q ps)
  unfolding resume_first
  resume_first-LineStep q [] e room = inl (refl, refl)
  resume_first-LineStep q (t ∷ rest) e room =
      if_elim (LineStep q) (is_full q.maxsize q.items) _ _ (λ full. absurd (cc (room, full)))
        (λ _. inl (rw e (simp append_assoc), refl))

  poll_at-LineStep : (q : ComputeQueue P R) (w : Worker) → q.worker ≡ w → LineStep q (poll_at q w)
  unfolding poll_at
  poll_at-LineStep q Worker.polling e =
      if_elim (LineStep q) q.hard_stop _ _ (λ _. inl (rw e, refl))
        (λ _.
          if_elim (LineStep q) (q.stop && is_empty q.items) _ _ (λ _. inl (rw e, refl))
            (λ _. inl (rw e, refl)))
  poll_at-LineStep q _ e = inl (refl, refl)

  take_item-LineStep :
      (q : ComputeQueue P R) (items : List ℕ)
      → q.worker ≡ Worker.getting
      → q.items ≡ items
      → LineStep q (take_item q items)
  unfolding take_item
  take_item-LineStep q [] w e = inl (rw w, refl)
  take_item-LineStep q (t ∷ rest) w e = inl (rw (w, e), refl)

  get_at-LineStep : (q : ComputeQueue P R) (w : Worker) → q.worker ≡ w → LineStep q (get_at q w)
  unfolding get_at
  get_at-LineStep q Worker.getting e = take_item-LineStep q q.items e refl
  get_at-LineStep q _ e = inl (refl, refl)

  start-LineStep : (q : ComputeQueue P R) → running q.worker ≡ [] → LineStep q (start q).1
  unfolding start
  start-LineStep q e =
      if_elim (λ (r : Result (Unit {0}) × ComputeQueue P R). LineStep q r.1) q.has_worker_task _ _
        (λ _. inl (refl, refl)) (λ _. inl (rw e, refl))

  reap_one-line :
      (q : ComputeQueue P R) (k t : ℕ)
      → (line (reap_one (q, k) t).0 ≡ line q) × ((reap_one (q, k) t).0.next_token ≡ q.next_token)
  unfolding reap_one
  reap_one-line q k t =
      if_elim (λ (r : ComputeQueue P R × ℕ). (line r.0 ≡ line q) × (r.0.next_token ≡ q.next_token))
        (q.tasks t).done _ _ (λ _. (refl, refl)) (λ _. (refl, refl))

  reap_all-line :
      (q : ComputeQueue P R) (k : ℕ) (ts : List ℕ)
      → (line (reap_all (q, k) ts).0 ≡ line q) × ((reap_all (q, k) ts).0.next_token ≡ q.next_token)
  unfolding reap_all
  reap_all-line q k [] = (refl, refl)
  reap_all-line q k (t ∷ ts) =
      let x : ComputeQueue P R × ℕ = reap_one (q, k) t in
      let one = reap_one-line q k t in
      let rest = reap_all-line x.0 x.1 ts in (rest.0 ∙ one.0, rest.1 ∙ one.1)

  pub step-LineStep :
      (q : ComputeQueue P R) (e : Event P R) → Fair q e → NoFinish e → LineStep q (step q e)
  unfolding step resume_put poll get request_stop begin_drain hard_stop_now release reap_pending
  step-LineStep q (submits now kind payload batch_id) f _ =
      submit-LineStep q now kind payload batch_id f
  step-LineStep q (tries now kind payload batch_id) f _ =
      try_submit-LineStep q now kind payload batch_id f
  step-LineStep q resumes f _ = resume_first-LineStep q q.putters refl f
  step-LineStep q starts f _ = start-LineStep q f
  step-LineStep q polls f _ = poll_at-LineStep q q.worker refl
  step-LineStep q gets f _ = get_at-LineStep q q.worker refl
  step-LineStep q (finishes outcome) f n = absurd n
  step-LineStep q stops f _ = inl (refl, refl)
  step-LineStep q drains f _ = inl (refl, refl)
  step-LineStep q deadline f _ = inl (refl, refl)
  step-LineStep q releases f _ = inl (refl, refl)
  step-LineStep q reaps f _ = inl (reap_all-line q 0 q.pending)
