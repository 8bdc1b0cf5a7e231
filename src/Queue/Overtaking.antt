-- ===== src/Queue/Overtaking.antt =====
-- trainfer/queue.py: a submit that waits in `put` on a full `_q` may be overtaken by a later one,
-- which takes the free place before the first is resumed. The cursor then passes a task not run.
use trainfer.Prelude.{
  ℕ, suc, ◌≤◌, ◌<◌, ◌≡◌, refl, false, List, [], ◌∷◌, elem, arith, ap, sym, subst,
}
use trainfer.Errors.{Result}
use trainfer.Queue.{Worker, ComputeQueue, finish, finish_at, settle, collect, advance}
use trainfer.Queue.Schedule.{finishes, step, seen, wait_for_token}

collect_drops : (c t : ℕ) (ts : List ℕ) → t < c → elem t (collect c ts) ≡ false
collect_drops c t [] lt = refl
collect_drops c t (u ∷ ts) lt = ground (arith, collect_drops c t ts lt)

module _ {P R : Type 0} where
  settle_overtakes :
      (q : ComputeQueue P R) (t u : ℕ) (o : Result R)
      → t < u
      → q.completed ≤ u
      → (q.tasks t).done ≡ false
      → (wait_for_token (settle q u o) t ≡ seen) × (((settle q u o).tasks t).done ≡ false)
  unfolding settle wait_for_token
  settle_overtakes q t u o lt le d =
      let next : advance q.completed u ≡ suc u = ground arith in
      (rw (next, collect_drops (suc u) t q.pending (omega arith)) (ground arith), ground (arith, d))

  -- When the handler of a token ends while the task of a smaller token has not run, `wait_for` with
  -- the smaller token returns at once, as for a completed task, though that task is not done.
  pub overtaken_wait :
      (q : ComputeQueue P R) (t u : ℕ) (o : Result R)
      → q.worker ≡ Worker.busy u
      → t < u
      → q.completed ≤ u
      → (q.tasks t).done ≡ false
      → (wait_for_token (step q (finishes o)) t ≡ seen)
        × (((step q (finishes o)).tasks t).done ≡ false)
  unfolding step finish finish_at
  overtaken_wait q t u o w lt le d =
      subst (λ r. (wait_for_token r t ≡ seen) × ((r.tasks t).done ≡ false))
        (sym (ap (finish_at q o) w)) (settle_overtakes q t u o lt le d)
