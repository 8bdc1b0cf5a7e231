-- ===== src/CommitStream/Accounts.antt =====
-- trainfer/commit_stream.py: no event is lost unaccounted, and no subscriber grows past its bound.
use trainfer.Prelude.{
  ℕ, zero, suc, ◌+◌, ◌≤◌, ◌<◌, ◌≡◌, refl, Bool, true, false, not, ◌||◌, List, [], ◌∷◌, length,
  length-append, map, ◌==◌, if◌then◌else◌, if_elim, Bool-cases, inl, inr, arith, All, All-append,
  All-keep,
}
use trainfer.CommitStream.{
  CommitEvent, Message, commit, shutdown, Subscriber, CommitBroadcaster, subscribe, unsubscribe,
  is_full, put_nowait, count_full, no_subscribers, broadcast_commit, broadcast_shutdown, take_first,
  consume,
}

-- The messages that wait in the subscriber queues.
unfoldable pub waiting : List Subscriber → ℕ
waiting [] = 0
waiting (q ∷ qs) = length q.queue + waiting qs

put_nowait-length :
    (m : Message) (q : Subscriber)
    → length (put_nowait m q).queue + (if is_full q.maxsize q.queue then 1 else 0)
      ≡ suc (length q.queue)
put_nowait-length m q = elim (Bool-cases (is_full q.maxsize q.queue)) [
  | inl e ↦ rw e (omega arith)
  | inr e ↦ rw e (omega (arith, length-append q.queue (m ∷ [])))
]

waiting-put :
    (m : Message) (qs : List Subscriber)
    → waiting (map (put_nowait m) qs) + count_full qs ≡ waiting qs + length qs
unfolding waiting count_full
waiting-put m [] = omega arith
waiting-put m (q ∷ qs) = omega (arith, put_nowait-length m q, waiting-put m qs)

skipped :
    (on : Bool) (qs : List Subscriber)
    → on ≡ true
    → not on || no_subscribers qs ≡ true
    → length qs ≡ 0
skipped on [] e h = refl
skipped on (q ∷ qs) e h = ground arith

-- While broadcasting is enabled, each commit event is delivered to or counted as dropped for every
-- subscriber: what waits and the drop count grow together by the number of subscribers.
pub broadcast-accounts :
    (b : CommitBroadcaster) (e : CommitEvent)
    → b.enabled ≡ true
    → waiting (broadcast_commit b e).subscribers + (broadcast_commit b e).drops
      ≡ waiting b.subscribers + b.drops + length b.subscribers
unfolding broadcast_commit
broadcast-accounts b e on = elim (Bool-cases (not b.enabled || no_subscribers b.subscribers)) [
  | inl skip ↦ rw skip (omega (arith, skipped b.enabled b.subscribers on skip))
  | inr go ↦ rw go (omega (arith, waiting-put (commit e) b.subscribers))
]

-- A queue within its bound; a maxsize of 0 is none.
abbrev pub InBound : Subscriber → Type 0
InBound q = 0 < q.maxsize → length q.queue ≤ q.maxsize

abbrev pub IsBounded : CommitBroadcaster → Type 0
IsBounded b = All InBound b.subscribers

room_below : (m : ℕ) (queue : List Message) → is_full m queue ≡ false → 0 < m → length queue < m
room_below zero queue e h = absurd (omega arith)
room_below (suc m) queue e h = ground arith

put_nowait-InBound : (m : Message) (q : Subscriber) → InBound q → InBound (put_nowait m q)
put_nowait-InBound m q b =
    if_elim InBound (is_full q.maxsize q.queue) _ _ (λ _. b)
      (λ room h. omega (arith, room_below q.maxsize q.queue room h, length-append q.queue (m ∷ [])))

take_first-InBound : (q : Subscriber) → InBound q → InBound (take_first q)
take_first-InBound q b h = ground (arith, b h)

All-map_of :
    (f : Subscriber → Subscriber) (qs : List Subscriber)
    → ((q : Subscriber) → InBound q → InBound (f q))
    → All InBound qs
    → All InBound (map f qs)
All-map_of f [] k h = tt
All-map_of f (q ∷ qs) k h = (k q h.0, All-map_of f qs k h.1)

-- What the daemon and the clients do with the broadcaster.
pub data Action : Type 0 where
  subscribes unsubscribes consumes : ℕ → Action
  broadcasts : CommitEvent → Action
  shuts : Action

unfoldable pub act : CommitBroadcaster → Action → CommitBroadcaster
act b (subscribes maxsize) = (subscribe b maxsize).1
act b (unsubscribes id) = unsubscribe b id
act b (consumes id) = consume b id
act b (broadcasts e) = broadcast_commit b e
act b shuts = broadcast_shutdown b

-- Every action keeps each subscriber queue within its own bound, however slow its reader is.
pub act-IsBounded : (b : CommitBroadcaster) (a : Action) → IsBounded b → IsBounded (act b a)
unfolding act subscribe unsubscribe consume broadcast_commit broadcast_shutdown
act-IsBounded b (subscribes maxsize) h =
    All-append InBound b.subscribers _ h ((λ _. omega arith), tt)
act-IsBounded b (unsubscribes id) h = All-keep InBound (λ q. not (q.id == id)) b.subscribers h
act-IsBounded b (consumes id) h =
    All-map_of (λ q. if q.id == id then take_first q else q) b.subscribers
      (λ q k. if_elim InBound (q.id == id) _ _ (λ _. take_first-InBound q k) (λ _. k)) h
act-IsBounded b (broadcasts e) h =
    if_elim IsBounded (not b.enabled || no_subscribers b.subscribers) _ _ (λ _. h)
      (λ _. All-map_of (put_nowait (commit e)) b.subscribers (put_nowait-InBound (commit e)) h)
act-IsBounded b shuts h =
    All-map_of (put_nowait shutdown) b.subscribers (put_nowait-InBound shutdown) h
