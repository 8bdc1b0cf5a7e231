-- ===== src/Queue/Cursor/Reaping.antt =====
-- trainfer/queue.py: the loop of `_reap_pending` and the state of the cursor.
use trainfer.Prelude.{
  ℕ, ◌≤◌, ◌<◌, ◌≡◌, refl, false, List, [], ◌∷◌, All, All-keep, leb, if_elim, arith,
}
use trainfer.Queue.{ComputeQueue, collect}
use trainfer.Queue.Shutdown.{reap_one, reap_all, reap_pending}
use trainfer.Queue.Cursor.{running, IsSafe, All-below, collect_open, advance_bounds}

module _ {P R : Type 0} where
  -- The loop of `_reap_pending`: `pending` still lists what the cursor has passed.
  record IsReaping (n : ℕ) (q : ComputeQueue P R) : Type 0 where
    next_is : q.next_token ≡ n
    items_issued : All (λ t. t < n) q.items
    putters_issued : All (λ t. t < n) q.putters
    running_issued : All (λ t. t < n) (running q.worker)
    pending_issued : All (λ t. t < n) q.pending
    cursor_issued : q.completed ≤ n
    undone : (t : ℕ) → q.completed ≤ t → (q.tasks t).done ≡ false

  reap_one-IsReaping :
      (q : ComputeQueue P R) (k t n : ℕ) → t < n → IsReaping n q → IsReaping n (reap_one (q, k) t).0
  unfolding reap_one
  reap_one-IsReaping q k t n lt s =
      let b = advance_bounds q.completed t n s.cursor_issued lt in
      if_elim (λ (r : ComputeQueue P R × ℕ). IsReaping n r.0) (q.tasks t).done _ _ (λ _. s)
        (λ _. record {
          next_is = s.next_is;
          items_issued = s.items_issued;
          putters_issued = s.putters_issued;
          running_issued = s.running_issued;
          pending_issued = s.pending_issued;
          cursor_issued = b.2;
          undone = λ u h. ground (arith, s.undone u, b);
        })

  reap_all-IsReaping :
      (q : ComputeQueue P R) (k n : ℕ) (ts : List ℕ)
      → All (λ t. t < n) ts
      → IsReaping n q
      → IsReaping n (reap_all (q, k) ts).0
  unfolding reap_all
  reap_all-IsReaping q k n [] a s = s
  reap_all-IsReaping q k n (t ∷ ts) a s =
      reap_all-IsReaping (reap_one (q, k) t).0 (reap_one (q, k) t).1 n ts a.1
        (reap_one-IsReaping q k t n a.0 s)

  collected-IsSafe :
      (q : ComputeQueue P R) (n : ℕ)
      → IsReaping n q
      → IsSafe (record q { pending = collect q.completed q.pending })
  collected-IsSafe q n s =
      let le : n ≤ q.next_token = omega (arith, s.next_is) in
      record {
        items_issued = All-below q.items le s.items_issued;
        putters_issued = All-below q.putters le s.putters_issued;
        running_issued = All-below (running q.worker) le s.running_issued;
        pending_issued =
            All-keep (λ u. u < q.next_token) (λ u. leb q.completed u) q.pending
              (All-below q.pending le s.pending_issued);
        pending_open = collect_open q.completed q.pending;
        cursor_issued = omega (arith, s.cursor_issued);
        undone = s.undone;
      }

  pub reap_pending-IsSafe : (q : ComputeQueue P R) → IsSafe q → IsSafe (reap_pending q).0
  unfolding reap_pending
  reap_pending-IsSafe q s = collected-IsSafe (reap_all (q, 0) q.pending).0 q.next_token (
      reap_all-IsReaping q 0 q.next_token q.pending s.pending_issued (record {
        next_is = refl;
        items_issued = s.items_issued;
        putters_issued = s.putters_issued;
        running_issued = s.running_issued;
        pending_issued = s.pending_issued;
        cursor_issued = s.cursor_issued;
        undone = s.undone;
      }))
