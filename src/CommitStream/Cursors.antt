-- ===== src/CommitStream/Cursors.antt =====
-- trainfer/commit_stream.py: a subscriber reads the commit cursors in rising order.
use trainfer.Prelude.{
  ℕ, suc, ◌≤◌, Bool, not, ◌||◌, List, [], ◌∷◌, ◌++◌, map, ◌==◌, if◌then◌else◌, if_elim, arith, All,
  All-append, All-keep, All-map,
}
use trainfer.CommitStream.{
  CommitEvent, Message, commit, shutdown, Subscriber, CommitBroadcaster, new, subscribe,
  unsubscribe, is_full, put_nowait, no_subscribers, broadcast_commit, broadcast_shutdown,
  take_first, consume,
}
use trainfer.CommitStream.Accounts.{
  Action, subscribes, unsubscribes, consumes, broadcasts, shuts, act,
}

-- The commit events of `ms` have rising cursors, from `lo` on and below `top`.
abbrev pub Rising : ℕ → List Message → ℕ → Type 0
Rising lo [] top = lo ≤ top
Rising lo (commit e ∷ ms) top = (lo ≤ e.cursor) × Rising (suc e.cursor) ms top
Rising lo (shutdown ∷ ms) top = Rising lo ms top

Rising-snoc :
    (lo top : ℕ) (ms : List Message) (e : CommitEvent)
    → top ≤ e.cursor
    → Rising lo ms top
    → Rising lo (ms ++ commit e ∷ []) (suc e.cursor)
Rising-snoc lo top [] e le h = (omega arith, omega arith)
Rising-snoc lo top (commit d ∷ ms) e le h = (h.0, Rising-snoc (suc d.cursor) top ms e le h.1)
Rising-snoc lo top (shutdown ∷ ms) e le h = Rising-snoc lo top ms e le h

Rising-shutdown :
    (lo top : ℕ) (ms : List Message) → Rising lo ms top → Rising lo (ms ++ shutdown ∷ []) top
Rising-shutdown lo top [] h = h
Rising-shutdown lo top (commit d ∷ ms) h = (h.0, Rising-shutdown (suc d.cursor) top ms h.1)
Rising-shutdown lo top (shutdown ∷ ms) h = Rising-shutdown lo top ms h

-- A wider range at either end.
Rising-widen :
    (lo lo' top top' : ℕ) (ms : List Message)
    → lo' ≤ lo
    → top ≤ top'
    → Rising lo ms top
    → Rising lo' ms top'
Rising-widen lo lo' top top' [] a b h = omega arith
Rising-widen lo lo' top top' (commit d ∷ ms) a b h =
    (omega (arith, h.0), Rising-widen (suc d.cursor) (suc d.cursor) top top' ms (omega arith) b h.1)
Rising-widen lo lo' top top' (shutdown ∷ ms) a b h = Rising-widen lo lo' top top' ms a b h

abbrev pub ReadsRising : ℕ → Subscriber → Type 0
ReadsRising top q = Rising 0 q.queue top

abbrev pub AllRising : ℕ → CommitBroadcaster → Type 0
AllRising top b = All (ReadsRising top) b.subscribers

map_rising :
    (top top' : ℕ) (f : Subscriber → Subscriber) (qs : List Subscriber)
    → ((q : Subscriber) → ReadsRising top q → ReadsRising top' (f q))
    → All (ReadsRising top) qs
    → All (ReadsRising top') (map f qs)
map_rising top top' f [] k h = tt
map_rising top top' f (q ∷ qs) k h = (k q h.0, map_rising top top' f qs k h.1)

put_rising :
    (top : ℕ) (e : CommitEvent) (q : Subscriber)
    → top ≤ e.cursor
    → ReadsRising top q
    → ReadsRising (suc e.cursor) (put_nowait (commit e) q)
put_rising top e q le h =
    if_elim (ReadsRising (suc e.cursor)) (is_full q.maxsize q.queue) _ _
      (λ _. Rising-widen 0 0 top (suc e.cursor) q.queue (omega arith) (omega arith) h)
      (λ _. Rising-snoc 0 top q.queue e le h)

shut_rising :
    (top : ℕ) (q : Subscriber) → ReadsRising top q → ReadsRising top (put_nowait shutdown q)
shut_rising top q h =
    if_elim (ReadsRising top) (is_full q.maxsize q.queue) _ _ (λ _. h)
      (λ _. Rising-shutdown 0 top q.queue h)

take-Rising :
    (top id maxsize : ℕ) (ms : List Message)
    → Rising 0 ms top
    → ReadsRising top (take_first (record { id = id; maxsize = maxsize; queue = ms }))
take-Rising top id maxsize [] h = h
take-Rising top id maxsize (commit d ∷ ms) h =
    Rising-widen (suc d.cursor) 0 top top ms (omega arith) (omega arith) h.1
take-Rising top id maxsize (shutdown ∷ ms) h = h

-- The cursor after an action: the worker's commits come with rising tokens.
abbrev pub top_after : ℕ → Action → ℕ
top_after top (broadcasts e) = suc e.cursor
top_after top _ = top

abbrev pub Follows : ℕ → Action → Type 0
Follows top (broadcasts e) = top ≤ e.cursor
Follows top _ = Unit

act_rising :
    (top : ℕ) (b : CommitBroadcaster) (a : Action)
    → Follows top a
    → AllRising top b
    → AllRising (top_after top a) (act b a)
unfolding act subscribe unsubscribe consume broadcast_commit broadcast_shutdown
act_rising top b (subscribes maxsize) f h =
    All-append (ReadsRising top) b.subscribers _ h (omega arith, tt)
act_rising top b (unsubscribes id) f h =
    All-keep (ReadsRising top) (λ q. not (q.id == id)) b.subscribers h
act_rising top b (consumes id) f h =
    map_rising top top (λ q. if q.id == id then take_first q else q) b.subscribers
      (λ q k.
        if_elim (ReadsRising top) (q.id == id) _ _ (λ _. take-Rising top q.id q.maxsize q.queue k)
          (λ _. k))
      h
act_rising top b (broadcasts e) f h =
    if_elim (AllRising (suc e.cursor)) (not b.enabled || no_subscribers b.subscribers) _ _
      (λ _.
        All-map (ReadsRising top) (ReadsRising (suc e.cursor)) b.subscribers
          (λ q k. Rising-widen 0 0 top (suc e.cursor) q.queue (omega arith) (omega arith) k) h)
      (λ _.
        map_rising top (suc e.cursor) (put_nowait (commit e)) b.subscribers
          (λ q k. put_rising top e q f k) h)
act_rising top b shuts f h =
    map_rising top top (put_nowait shutdown) b.subscribers (λ q k. shut_rising top q k) h

unfoldable pub acts : CommitBroadcaster → List Action → CommitBroadcaster
acts b [] = b
acts b (a ∷ as') = acts (act b a) as'

abbrev pub FollowsAll : ℕ → List Action → Type 0
FollowsAll top [] = Unit
FollowsAll top (a ∷ as') = Follows top a × FollowsAll (top_after top a) as'

abbrev pub top_at_end : ℕ → List Action → ℕ
top_at_end top [] = top
top_at_end top (a ∷ as') = top_at_end (top_after top a) as'

acts_rising :
    (top : ℕ) (b : CommitBroadcaster) (as' : List Action)
    → FollowsAll top as'
    → AllRising top b
    → AllRising (top_at_end top as') (acts b as')
unfolding acts
acts_rising top b [] f h = h
acts_rising top b (a ∷ as') f h =
    acts_rising (top_after top a) (act b a) as' f.1 (act_rising top b a f.0 h)

-- If the commits are broadcast with rising cursors, then after any subscriptions, reads, broadcasts
-- and shutdowns each subscriber queue holds commits in rising order of their cursors, none past the
-- last one broadcast, however many a slow reader missed.
pub cursors_rise :
    (enabled : Bool) (as' : List Action)
    → FollowsAll 0 as'
    → AllRising (top_at_end 0 as') (acts (new enabled) as')
cursors_rise enabled as' f = acts_rising 0 (new enabled) as' f (unfold new in tt)
