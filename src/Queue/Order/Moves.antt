-- ===== src/Queue/Order/Moves.antt =====
-- trainfer/queue.py: the worker's loop and the waiting submits keep the line in order.
use trainfer.Prelude.{false, ℕ, ◌≡◌, ◌∙◌, sym, refl, List, [], ◌∷◌, ◌++◌, ◌&&◌, if_elim}
use mathlib.Core.List.{append_assoc}
use trainfer.Queue.{
  Worker, ComputeQueue, is_full, take_item, is_empty, resume_first, poll_at, get_at,
}
use trainfer.Queue.Cursor.{running}
use trainfer.Queue.Order.{line, IsOrdered, IsClosed}

module _ {P R : Type 0} where
  -- The line may be cut elsewhere between the worker, `_q` and the waiting submits.
  pub recut-IsOrdered :
      (q : ComputeQueue P R) (w : Worker) (items putters : List ℕ)
      → running w ++ (items ++ putters) ≡ line q
      → IsOrdered q
      → IsOrdered (record q { worker = w; items = items; putters = putters })
  recut-IsOrdered q w items putters e o = record {
    in_order = rw e o.in_order;
    pending_is = o.pending_is ∙ sym e;
    settled = o.settled;
  }

  pub recut-IsClosed :
      (q : ComputeQueue P R) (w : Worker) (items putters : List ℕ)
      → IsClosed q
      → IsClosed (record q { worker = w; items = items; putters = putters })
  recut-IsClosed q w items putters o = record {
    shut = o.shut;
    none_pending = o.none_pending;
    cursor_is = o.cursor_is;
    settled = o.settled;
  }

  pub poll_at-IsOrdered :
      (q : ComputeQueue P R) (w : Worker) → q.worker ≡ w → IsOrdered q → IsOrdered (poll_at q w)
  unfolding poll_at
  poll_at-IsOrdered q Worker.polling e o =
      let leave : IsOrdered (record q { worker = Worker.exited }) =
        recut-IsOrdered q Worker.exited q.items q.putters (rw e) o in
      if_elim IsOrdered q.hard_stop _ _ (λ _. leave)
        (λ _.
          if_elim IsOrdered (q.stop && is_empty q.items) _ _ (λ _. leave)
            (λ _. recut-IsOrdered q Worker.getting q.items q.putters (rw e) o))
  poll_at-IsOrdered q _ e o = o

  pub poll_at-IsClosed : (q : ComputeQueue P R) (w : Worker) → IsClosed q → IsClosed (poll_at q w)
  unfolding poll_at
  poll_at-IsClosed q Worker.polling o =
      if_elim IsClosed q.hard_stop _ _ (λ _. recut-IsClosed q Worker.exited q.items q.putters o)
        (λ _.
          if_elim IsClosed (q.stop && is_empty q.items) _ _
            (λ _. recut-IsClosed q Worker.exited q.items q.putters o)
            (λ _. recut-IsClosed q Worker.getting q.items q.putters o))
  poll_at-IsClosed q _ o = o

  take_item-IsOrdered :
      (q : ComputeQueue P R) (items : List ℕ)
      → q.worker ≡ Worker.getting
      → q.items ≡ items
      → IsOrdered q
      → IsOrdered (take_item q items)
  unfolding take_item
  take_item-IsOrdered q [] w e o = recut-IsOrdered q Worker.polling q.items q.putters (rw w) o
  take_item-IsOrdered q (t ∷ rest) w e o =
      recut-IsOrdered q (Worker.busy t) rest q.putters (rw (w, e)) o

  take_item-IsClosed :
      (q : ComputeQueue P R) (items : List ℕ) → IsClosed q → IsClosed (take_item q items)
  unfolding take_item
  take_item-IsClosed q [] o = recut-IsClosed q Worker.polling q.items q.putters o
  take_item-IsClosed q (t ∷ rest) o = recut-IsClosed q (Worker.busy t) rest q.putters o

  pub get_at-IsOrdered :
      (q : ComputeQueue P R) (w : Worker) → q.worker ≡ w → IsOrdered q → IsOrdered (get_at q w)
  unfolding get_at
  get_at-IsOrdered q Worker.getting e o = take_item-IsOrdered q q.items e refl o
  get_at-IsOrdered q _ e o = o

  pub get_at-IsClosed : (q : ComputeQueue P R) (w : Worker) → IsClosed q → IsClosed (get_at q w)
  unfolding get_at
  get_at-IsClosed q Worker.getting o = take_item-IsClosed q q.items o
  get_at-IsClosed q _ o = o

  pub resume_first-IsOrdered :
      (q : ComputeQueue P R) (ps : List ℕ)
      → q.putters ≡ ps
      → is_full q.maxsize q.items ≡ false
      → IsOrdered q
      → IsOrdered (resume_first q ps)
  unfolding resume_first
  resume_first-IsOrdered q [] e room o = o
  resume_first-IsOrdered q (t ∷ rest) e room o =
      if_elim IsOrdered (is_full q.maxsize q.items) _ _ (λ full. absurd (cc (room, full)))
        (λ _. recut-IsOrdered q q.worker (q.items ++ t ∷ []) rest (rw e (simp append_assoc)) o)

  pub resume_first-IsClosed :
      (q : ComputeQueue P R) (ps : List ℕ) → IsClosed q → IsClosed (resume_first q ps)
  unfolding resume_first
  resume_first-IsClosed q [] o = o
  resume_first-IsClosed q (t ∷ rest) o =
      if_elim IsClosed (is_full q.maxsize q.items) _ _
        (λ _. recut-IsClosed q q.worker q.items (rest ++ t ∷ []) o)
        (λ _. recut-IsClosed q q.worker (q.items ++ t ∷ []) rest o)
