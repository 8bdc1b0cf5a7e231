-- ===== src/Queue/Order.antt =====
-- trainfer/queue.py: the line of tasks in the hands of the worker, in `_q` and in the submits that
-- wait in `put`. While nothing overtakes, it holds the tokens from the cursor on, in order.
mod Moves
pub mod Reaping
pub mod Runs
pub mod Waits
pub mod Line
use trainfer.Prelude.{
  ℕ, zero, suc, ◌+◌, ◌≤◌, ◌<◌, ◌≡◌, ◌⊎◌, ◌∙◌, ap, sym, inl, inr, refl, String, Bool, true, false,
  Option, none, some, List, [], ◌∷◌, ◌++◌, length, keep, All, leb, leb→le, ◌&&◌, Bool-cases,
  if_elim, if◌then◌else◌, arith,
}
use mathlib.Core.List.{append_assoc, append-nil}
use trainfer.Errors.{Result, ok, raise}
use trainfer.Queue.{
  QueueTask, Worker, ComputeQueue, update, advance, collect, record_outcome, is_full, enqueue, init,
  submit, try_submit, resume_put, start, poll, get, finish, settle, take_item, is_empty,
  resume_first, poll_at, get_at, finish_at, Job,
}
use trainfer.Queue.Cursor.{running, IsSafe}

-- `ts` lists the tokens from `c` up to and without `n`, in order.
abbrev pub InOrder : ℕ → List ℕ → ℕ → Type 0
InOrder c [] n = c ≡ n
InOrder c (t ∷ ts) n = (t ≡ c) × InOrder (suc c) ts n

pub InOrder-snoc : (c n : ℕ) (ts : List ℕ) → InOrder c ts n → InOrder c (ts ++ n ∷ []) (suc n)
InOrder-snoc c n [] h = (sym h, ap suc h)
InOrder-snoc c n (t ∷ ts) h = (h.0, InOrder-snoc (suc c) n ts h.1)

pub InOrder-le : (c n : ℕ) (ts : List ℕ) → InOrder c ts n → c ≤ n
InOrder-le c n [] h = omega arith
InOrder-le c n (t ∷ ts) h = omega (arith, InOrder-le (suc c) n ts h.1)

-- Nothing of such a list is collected at its start.
collect-InOrder : (c d n : ℕ) (ts : List ℕ) → d ≤ c → InOrder c ts n → collect d ts ≡ ts
collect-InOrder c d n [] le h = refl
collect-InOrder c d n (t ∷ ts) le h = ground (arith, collect-InOrder (suc c) d n ts)

pub collect-InOrder_head :
    (c n t : ℕ) (ts : List ℕ) → InOrder c (t ∷ ts) n → collect (advance c t) (t ∷ ts) ≡ ts
collect-InOrder_head c n t ts h = ground (arith, collect-InOrder (suc c) (suc c) n ts)

pub collect-All : (c n : ℕ) (ts : List ℕ) → n ≤ c → All (λ t. t < n) ts → collect c ts ≡ []
collect-All c n [] le h = refl
collect-All c n (t ∷ ts) le h = ground (arith, collect-All c n ts)

append_back {ℓ} :
    {A : Type ℓ} (xs ys zs ws : List A) → xs ++ (ys ++ (zs ++ ws)) ≡ (xs ++ (ys ++ zs)) ++ ws
append_back xs ys zs ws = simp append_assoc

append_middle {ℓ} :
    {A : Type ℓ} (xs ys zs ws : List A)
    → zs ≡ []
    → xs ++ ((ys ++ ws) ++ zs) ≡ (xs ++ (ys ++ zs)) ++ ws
append_middle xs ys zs ws e = rw e (simp (append_assoc, append-nil))

module _ {P R : Type 0} where
  abbrev pub line : ComputeQueue P R → List ℕ
  line q = running q.worker ++ (q.items ++ q.putters)

  -- Nothing has overtaken: the work goes on.
  pub record IsOrdered (q : ComputeQueue P R) : Type 0 where
    pub in_order : InOrder q.completed (line q) q.next_token
    pub pending_is : q.pending ≡ line q
    pub settled : (t : ℕ) → t < q.completed → (q.tasks t).done ≡ true

  -- A drain has resolved what was left.
  pub record IsClosed (q : ComputeQueue P R) : Type 0 where
    pub shut : q.accepting ≡ false
    pub none_pending : q.pending ≡ []
    pub cursor_is : q.completed ≡ q.next_token
    pub settled : (t : ℕ) → t < q.completed → (q.tasks t).done ≡ true

  -- A submit that finds room finds no other waiting in `put`.
  abbrev pub NoBarging : ComputeQueue P R → Type 0
  NoBarging q = (q.putters ≡ []) ⊎ (is_full q.maxsize q.items ≡ true)

  no_putters :
      (q : ComputeQueue P R) → NoBarging q → is_full q.maxsize q.items ≡ false → q.putters ≡ []
  no_putters q (inl e) room = e
  no_putters q (inr full) room = cc

  -- One more task at the end of the line.
  longer-IsOrdered :
      (q r : ComputeQueue P R)
      → line r ≡ line q ++ q.next_token ∷ []
      → r.pending ≡ q.pending ++ q.next_token ∷ []
      → r.next_token ≡ suc q.next_token
      → r.completed ≡ q.completed
      → ((t : ℕ) → t < q.completed → (r.tasks t).done ≡ true)
      → IsOrdered q
      → IsOrdered r
  longer-IsOrdered q r l p n c d o = record {
    in_order = rw (l, n, c) (InOrder-snoc q.completed q.next_token (line q) o.in_order);
    pending_is = p ∙ ap (λ ts. ts ++ q.next_token ∷ []) o.pending_is ∙ sym l;
    settled = λ t h. d t (omega (arith, c));
  }

  pub enqueue-IsOrdered :
      (q : ComputeQueue P R) (now : ℕ) (kind : String) (payload : P) (batch_id : String)
      → NoBarging q
      → IsSafe q
      → IsOrdered q
      → IsOrdered (enqueue q now kind payload batch_id)
  unfolding enqueue
  enqueue-IsOrdered q now kind payload batch_id fair s o =
      let end = q.next_token ∷ [] in
      if_elim IsOrdered (is_full q.maxsize q.items) _ _
        (λ _.
          longer-IsOrdered q _ (append_back (running q.worker) q.items q.putters end) refl refl refl
            (λ t h. ground (arith, o.settled t, s.cursor_issued)) o)
        (λ room.
          longer-IsOrdered q _
            (append_middle (running q.worker) q.items q.putters end (no_putters q fair room)) refl
            refl refl (λ t h. ground (arith, o.settled t, s.cursor_issued)) o)

  -- The handler's task is the first of the line, so the cursor moves by one.
  settle-IsOrdered :
      (q : ComputeQueue P R) (t : ℕ) (outcome : Result R)
      → q.worker ≡ Worker.busy t
      → IsOrdered q
      → IsOrdered (settle q t outcome)
  unfolding settle
  settle-IsOrdered q t outcome w o =
      let rest = q.items ++ q.putters in
      let h : InOrder q.completed (t ∷ rest) q.next_token = rw w at o.in_order in
      let p : q.pending ≡ t ∷ rest = rw w at o.pending_is in
      let next : advance q.completed t ≡ suc q.completed = ground (arith, h.0) in
      record {
        in_order = rw next h.1;
        pending_is = rw p (collect-InOrder_head q.completed q.next_token t rest h);
        settled = λ u lt. ground (arith, h.0, next, o.settled u);
      }

  settle-IsClosed :
      (q : ComputeQueue P R) (t : ℕ) (outcome : Result R)
      → t < q.next_token
      → IsClosed q
      → IsClosed (settle q t outcome)
  unfolding settle
  settle-IsClosed q t outcome lt o =
      let same : advance q.completed t ≡ q.completed = ground (arith, o.cursor_is) in
      record {
        shut = o.shut;
        none_pending = rw o.none_pending refl;
        cursor_is = same ∙ o.cursor_is;
        settled = λ u h. ground (arith, same, o.settled u);
      }

  pub finish_at-IsOrdered :
      (q : ComputeQueue P R) (outcome : Result R) (w : Worker)
      → q.worker ≡ w
      → IsOrdered q
      → IsOrdered (finish_at q outcome w)
  unfolding finish_at
  finish_at-IsOrdered q outcome (Worker.busy t) e o = settle-IsOrdered q t outcome e o
  finish_at-IsOrdered q outcome _ e o = o

  pub finish_at-IsClosed :
      (q : ComputeQueue P R) (outcome : Result R) (w : Worker)
      → All (λ t. t < q.next_token) (running w)
      → IsClosed q
      → IsClosed (finish_at q outcome w)
  unfolding finish_at
  finish_at-IsClosed q outcome (Worker.busy t) a o = settle-IsClosed q t outcome a.0 o
  finish_at-IsClosed q outcome _ a o = o
