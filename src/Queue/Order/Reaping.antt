-- ===== src/Queue/Order/Reaping.antt =====
-- trainfer/queue.py: `_reap_pending` resolves every task that is left.
use trainfer.Prelude.{
  ℕ, suc, ◌+◌, ◌≤◌, ◌<◌, ◌≡◌, ◌≢◌, ◌∙◌, sym, refl, true, false, Option, some, List, [], ◌∷◌, length,
  if_elim, arith,
}
use native.Mathlib.Decide.{ℕ_discrete, dec_lt}
use trainfer.Errors.{Raised, structured, shutdown_dropped}
use trainfer.Queue.{ComputeQueue}
use trainfer.Queue.Cursor.{IsSafe}
use trainfer.Queue.Shutdown.{reap_one, reap_all, reap_pending}
use trainfer.Queue.Order.{IsOrdered, IsClosed, InOrder, collect-All}

-- The error of a task that a drain drops.
abbrev pub dropped_error : Option Raised
dropped_error = some (structured shutdown_dropped)

module _ {P R : Type 0} where
  -- What the loop of `_reap_pending` leaves alone.
  record Frame (q r : ComputeQueue P R) : Type 0 where
    pending_is : r.pending ≡ q.pending
    accepting_is : r.accepting ≡ q.accepting
    next_is : r.next_token ≡ q.next_token

  reap_one-Frame : (q r : ComputeQueue P R) (k t : ℕ) → Frame q r → Frame q (reap_one (r, k) t).0
  unfolding reap_one
  reap_one-Frame q r k t f =
      if_elim (λ (x : ComputeQueue P R × ℕ). Frame q x.0) (r.tasks t).done _ _ (λ _. f)
        (λ _. record {
          pending_is = f.pending_is;
          accepting_is = f.accepting_is;
          next_is = f.next_is;
        })

  reap_all-Frame :
      (q r : ComputeQueue P R) (k : ℕ) (ts : List ℕ) → Frame q r → Frame q (reap_all (r, k) ts).0
  unfolding reap_all
  reap_all-Frame q r k [] f = f
  reap_all-Frame q r k (t ∷ ts) f =
      reap_all-Frame q (reap_one (r, k) t).0 (reap_one (r, k) t).1 ts (reap_one-Frame q r k t f)

  -- A round of the loop on the task at the cursor, which is not done.
  record Reaped (q : ComputeQueue P R) (k t : ℕ) (x : ComputeQueue P R × ℕ) : Type 0 where
    cursor_is : x.0.completed ≡ suc t
    counted : x.1 ≡ suc k
    dropped : (x.0.tasks t).error ≡ dropped_error
    kept : (u : ℕ) → u ≢ t → x.0.tasks u ≡ q.tasks u
    done_now : (x.0.tasks t).done ≡ true

  reap_one-Reaped :
      (q : ComputeQueue P R) (k t : ℕ)
      → t ≡ q.completed
      → (q.tasks t).done ≡ false
      → Reaped q k t (reap_one (q, k) t)
  unfolding reap_one
  reap_one-Reaped q k t e n = rw n (record {
    cursor_is = ground (arith, e);
    counted = refl;
    dropped = ground arith;
    kept = λ u h. ground (arith, h);
    done_now = ground arith;
  })

  -- The loop over the tokens from the cursor on drops each, and leaves the cursor at their end.
  pub record ReapedAll (q : ComputeQueue P R) (k n : ℕ) (ts : List ℕ) (x : ComputeQueue P R × ℕ)
      : Type 0 where
    pub cursor_is : x.0.completed ≡ n
    pub counted : x.1 ≡ k + length ts
    pub dropped :
        (u : ℕ)
        → q.completed ≤ u
        → u < n
        → ((x.0.tasks u).done ≡ true) × ((x.0.tasks u).error ≡ dropped_error)
    pub kept : (u : ℕ) → u < q.completed → x.0.tasks u ≡ q.tasks u

  reap_all-ReapedAll :
      (q : ComputeQueue P R) (k n : ℕ) (ts : List ℕ)
      → InOrder q.completed ts n
      → ((u : ℕ) → q.completed ≤ u → (q.tasks u).done ≡ false)
      → ReapedAll q k n ts (reap_all (q, k) ts)
  unfolding reap_all
  reap_all-ReapedAll q k n [] h u = record {
    cursor_is = h;
    counted = omega arith;
    dropped = λ t a b. absurd (omega (arith, h));
    kept = λ t lt. refl;
  }
  reap_all-ReapedAll q k n (t ∷ ts) h u =
      let x : ComputeQueue P R × ℕ = reap_one (q, k) t in
      let r : Reaped q k t x = reap_one-Reaped q k t h.0 (u t (omega (arith, h.0))) in
      let next : suc q.completed ≡ x.0.completed = omega (arith, h.0, r.cursor_is) in
      let rest : ReapedAll x.0 x.1 n ts (reap_all x ts) =
        reap_all-ReapedAll x.0 x.1 n ts (rw next at h.1) (λ v le.
          rw (r.kept v (λ e. absurd (omega (arith, e, h.0, r.cursor_is))))
            (u v (omega (arith, next)))) in
      record {
        cursor_is = rest.cursor_is;
        counted = omega (arith, rest.counted, r.counted);
        dropped = λ v a b. elim (ℕ_discrete v t) [
          | yes e ↦ rw (e, rest.kept t (omega (arith, r.cursor_is))) (r.done_now, r.dropped)
          | no ne ↦ rest.dropped v (omega (arith, next, ne, h.0)) b
        ];
        kept = λ v lt.
            rest.kept v (omega (arith, next)) ∙ r.kept v (λ e. absurd (omega (arith, e, h.0)));
      }

  -- On a safe queue in order, `_reap_pending` counts the pending tasks; every issued task that the
  -- cursor had not passed is then done, with a ShutdownDroppedError, and every other is as it was.
  pub reap_pending_drops :
      (q : ComputeQueue P R)
      → IsSafe q
      → IsOrdered q
      → ((reap_pending q).1 ≡ length q.pending)
        × ((u : ℕ)
            → q.completed ≤ u
            → u < q.next_token
            → (((reap_pending q).0.tasks u).done ≡ true)
              × (((reap_pending q).0.tasks u).error ≡ dropped_error))
        × ((u : ℕ) → u < q.completed → (reap_pending q).0.tasks u ≡ q.tasks u)
  unfolding reap_pending
  reap_pending_drops q s o =
      let r : ReapedAll q 0 q.next_token q.pending (reap_all (q, 0) q.pending) =
        reap_all-ReapedAll q 0 q.next_token q.pending (rw o.pending_is o.in_order) s.undone in
      (omega (arith, r.counted), r.dropped, r.kept)

  -- On a queue in order, `_reap_pending` drops all that is pending, counts it and moves the cursor
  -- to the end.
  pub reap_pending-IsClosed :
      (q : ComputeQueue P R)
      → q.accepting ≡ false
      → IsSafe q
      → IsOrdered q
      → IsClosed (reap_pending q).0
  unfolding reap_pending
  reap_pending-IsClosed q shut s o =
      let x : ComputeQueue P R × ℕ = reap_all (q, 0) q.pending in
      let f : Frame q x.0 =
        reap_all-Frame q q 0 q.pending
          (record { pending_is = refl; accepting_is = refl; next_is = refl }) in
      let r : ReapedAll q 0 q.next_token q.pending x =
        reap_all-ReapedAll q 0 q.next_token q.pending (rw o.pending_is o.in_order) s.undone in
      record {
        shut = f.accepting_is ∙ shut;
        none_pending = rw f.pending_is (
            collect-All x.0.completed q.next_token q.pending (omega (arith, r.cursor_is))
              s.pending_issued);
        cursor_is = r.cursor_is ∙ sym f.next_is;
        settled = λ u lt. elim (dec_lt u q.completed) [
          | yes a ↦ rw (r.kept u a) (o.settled u a)
          | no b ↦ (r.dropped u (omega arith) (omega (arith, r.cursor_is))).0
        ];
      }

  pub reap_pending-IsClosed_again :
      (q : ComputeQueue P R) → IsClosed q → IsClosed (reap_pending q).0
  unfolding reap_pending reap_all
  reap_pending-IsClosed_again q o =
      rw o.none_pending (record {
        shut = o.shut;
        none_pending = refl;
        cursor_is = o.cursor_is;
        settled = o.settled;
      })
