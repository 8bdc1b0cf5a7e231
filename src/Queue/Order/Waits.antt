-- ===== src/Queue/Order/Waits.antt =====
-- trainfer/queue.py: what `wait_for` promises to a reader that holds a commit token.
use trainfer.Prelude.{
  ℕ, suc, ◌≡◌, ◌⊎◌, inl, inr, false, List, [], ◌∷◌, elem, ltb, if◌then◌else◌, arith,
}
use trainfer.Queue.{ComputeQueue, Job}
use trainfer.Queue.Schedule.{Wait, seen, unknown, blocked, wait_for_token}
use trainfer.Queue.Cursor.{IsSafe}
use trainfer.Queue.Order.{IsOrdered, IsClosed, InOrder, InOrder-le, line}
use trainfer.Queue.Order.Runs.{Reach, Reach-IsOrderly, IsOrderly}

elem-InOrder :
    (c n t : ℕ) (ts : List ℕ) → InOrder c ts n → elem t ts ≡ (if ltb t c then false else ltb t n)
elem-InOrder c n t [] h = ground arith
elem-InOrder c n t (u ∷ ts) h =
    ground (arith, elem-InOrder (suc c) n t ts h.1, InOrder-le (suc c) n ts h.1)

module _ {P R : Type 0} where
  -- Where the tokens stand: passed by the cursor, issued and waited for, or never issued.
  abbrev pub standing : ComputeQueue P R → ℕ → Wait P R
  standing q t = if ltb t q.completed then seen else if ltb t q.next_token then blocked else unknown

  wait-IsOrdered :
      (q : ComputeQueue P R) (t : ℕ) → IsSafe q → IsOrdered q → wait_for_token q t ≡ standing q t
  unfolding wait_for_token
  wait-IsOrdered q t s o = rw o.pending_is (
      rw (elem-InOrder q.completed q.next_token t (line q) o.in_order)
        (ground (arith, s.undone t, s.cursor_issued)))

  wait-IsClosed : (q : ComputeQueue P R) (t : ℕ) → IsClosed q → wait_for_token q t ≡ standing q t
  unfolding wait_for_token
  wait-IsClosed q t c = rw c.none_pending (ground (arith, c.cursor_is))

  wait_phase :
      (q : ComputeQueue P R) (t : ℕ)
      → IsSafe q
      → IsOrdered q ⊎ IsClosed q
      → wait_for_token q t ≡ standing q t
  wait_phase q t s (inl o) = wait-IsOrdered q t s o
  wait_phase q t s (inr c) = wait-IsClosed q t c

  done_phase :
      (q : ComputeQueue P R) (t : ℕ)
      → IsSafe q
      → IsOrdered q ⊎ IsClosed q
      → (q.tasks t).done ≡ ltb t q.completed
  done_phase q t s (inl o) = ground (arith, s.undone t, o.settled t)
  done_phase q t s (inr c) = ground (arith, s.undone t, c.settled t)

  -- In every execution in which no submit overtakes another: `wait_for` with a token returns at
  -- once exactly for the tokens that the cursor has passed, waits for the other issued ones, and
  -- raises KeyError for a token never issued; and the cursor has passed a token exactly when its
  -- task is done.
  pub wait_for-exact :
      (max_depth : ℕ) (blank : Job P) (q : ComputeQueue P R) (t : ℕ)
      → Reach max_depth blank q
      → (wait_for_token q t ≡ standing q t) × ((q.tasks t).done ≡ ltb t q.completed)
  wait_for-exact max_depth blank q t r =
      let k : IsOrderly q = Reach-IsOrderly max_depth blank r in
      (wait_phase q t k.safe k.phase, done_phase q t k.safe k.phase)
