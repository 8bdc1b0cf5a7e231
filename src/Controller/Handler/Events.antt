-- ===== src/Controller/Handler/Events.antt =====
-- trainfer/controller.py and trainfer/commit_stream.py: what the operations of the commit stream keep
-- of the events that wait, and which event the handler of a task broadcasts.
use trainfer.Prelude.{
  ℕ, ◌≤◌, ◌<◌, ◌≡◌, sym, subst, String, false, not, ◌||◌, Option, none, some, List, [], ◌∷◌, map,
  ◌==◌, if◌then◌else◌, if_elim, All, All-append, All-keep, All-map, arith,
}
use trainfer.Errors.{Result, ok, raise}
use trainfer.CommitStream.{
  CommitEvent, Message, commit, shutdown, Subscriber, CommitBroadcaster, subscribe, unsubscribe,
  is_full, put_nowait, no_subscribers, broadcast_commit, broadcast_shutdown, take_first, consume,
}
use trainfer.CommitStream.Accounts.{
  Action, subscribes, unsubscribes, consumes, broadcasts, shuts, act,
}
use trainfer.Controller.Handler.{
  TaskResult, Handled, rank_outcome, plain, with_name, with_pair, publish, is_broadcast,
}

abbrev pub Below : ℕ → Message → Type 0
Below top (commit e) = e.cursor < top
Below top shutdown = Unit

abbrev pub ReadsBelow : ℕ → Subscriber → Type 0
ReadsBelow top q = All (Below top) q.queue

abbrev pub AllBelow : ℕ → CommitBroadcaster → Type 0
AllBelow top b = All (ReadsBelow top) b.subscribers

pub Below-grows : (top top' : ℕ) (m : Message) → top ≤ top' → Below top m → Below top' m
Below-grows top top' (commit e) le h = omega (arith, le, h)
Below-grows top top' shutdown le h = tt

pub AllBelow-grows :
    (top top' : ℕ) (b : CommitBroadcaster) → top ≤ top' → AllBelow top b → AllBelow top' b
AllBelow-grows top top' b le h =
    All-map (ReadsBelow top) (ReadsBelow top') b.subscribers
      (λ q k. All-map (Below top) (Below top') q.queue (λ m i. Below-grows top top' m le i) k) h

pub map-ReadsBelow :
    (top : ℕ) (f : Subscriber → Subscriber) (qs : List Subscriber)
    → ((q : Subscriber) → ReadsBelow top q → ReadsBelow top (f q))
    → All (ReadsBelow top) qs
    → All (ReadsBelow top) (map f qs)
map-ReadsBelow top f [] k h = tt
map-ReadsBelow top f (q ∷ qs) k h = (k q h.0, map-ReadsBelow top f qs k h.1)

pub put-ReadsBelow :
    (top : ℕ) (m : Message) (q : Subscriber)
    → Below top m
    → ReadsBelow top q
    → ReadsBelow top (put_nowait m q)
put-ReadsBelow top m q b h =
    if_elim (ReadsBelow top) (is_full q.maxsize q.queue) _ _ (λ _. h)
      (λ _. All-append (Below top) q.queue (m ∷ []) h (b, tt))

pub take-ReadsBelow : (top : ℕ) (q : Subscriber) → ReadsBelow top q → ReadsBelow top (take_first q)
take-ReadsBelow top q h = rest q.queue h
  where
    rest :
        (ms : List Message)
        → All (Below top) ms
        → ReadsBelow top (take_first (record q { queue = ms }))
    rest [] h = tt
    rest (m ∷ ms) h = h.1

pub broadcast_commit-AllBelow :
    (top : ℕ) (b : CommitBroadcaster) (e : CommitEvent)
    → e.cursor < top
    → AllBelow top b
    → AllBelow top (broadcast_commit b e)
unfolding broadcast_commit
broadcast_commit-AllBelow top b e lt h =
    if_elim (AllBelow top) (not b.enabled || no_subscribers b.subscribers) _ _ (λ _. h)
      (λ _.
        map-ReadsBelow top (put_nowait (commit e)) b.subscribers
          (λ q k. put-ReadsBelow top (commit e) q lt k) h)

pub act-AllBelow :
    (top : ℕ) (b : CommitBroadcaster) (a : Action)
    → is_broadcast a ≡ false
    → AllBelow top b
    → AllBelow top (act b a)
unfolding act subscribe unsubscribe consume broadcast_shutdown
act-AllBelow top b (subscribes maxsize) n h = All-append (ReadsBelow top) b.subscribers _ h (tt, tt)
act-AllBelow top b (unsubscribes id) n h =
    All-keep (ReadsBelow top) (λ q. not (q.id == id)) b.subscribers h
act-AllBelow top b (consumes id) n h =
    map-ReadsBelow top (λ q. if q.id == id then take_first q else q) b.subscribers
      (λ q k. if_elim (ReadsBelow top) (q.id == id) _ _ (λ _. take-ReadsBelow top q k) (λ _. k)) h
act-AllBelow top b (broadcasts e) n h = ground arith
act-AllBelow top b shuts n h =
    map-ReadsBelow top (put_nowait shutdown) b.subscribers
      (λ q k. put-ReadsBelow top shutdown q tt k) h

-- An event that the handler broadcasts is of its own task.
abbrev pub EventOf : ℕ → Option CommitEvent → Type 0
EventOf token none = Unit
EventOf token (some e) = e.cursor ≡ token

abbrev pub HandledOf : ℕ → Handled → Type 0
HandledOf token h = EventOf token h.event

pub plain-HandledOf {ℓ} :
    {A : Type ℓ} (token : ℕ) (r : Result A) (f : A → TaskResult) → HandledOf token (plain r f)
plain-HandledOf token (ok a) f = tt
plain-HandledOf token (raise e) f = tt

pub rank_outcome-HandledOf :
    (token u : ℕ) (prompt response : String) (r : Result (ℕ × ℕ))
    → HandledOf token (rank_outcome u prompt response r)
rank_outcome-HandledOf token u prompt response (ok x) = tt
rank_outcome-HandledOf token u prompt response (raise e) = tt

pub with_name-HandledOf :
    (token : ℕ) (name : Option String) (f : String → Handled)
    → ((s : String) → HandledOf token (f s))
    → HandledOf token (with_name name f)
with_name-HandledOf token none f h = tt
with_name-HandledOf token (some s) f h = h s

pub with_pair-HandledOf :
    (token : ℕ) (prompt response : Option String) (f : String → String → Handled)
    → ((s t : String) → HandledOf token (f s t))
    → HandledOf token (with_pair prompt response f)
with_pair-HandledOf token none response f h = tt
with_pair-HandledOf token (some s) none f h = tt
with_pair-HandledOf token (some s) (some t) f h = h s t

pub publish-AllBelow :
    (top token : ℕ) (b : CommitBroadcaster) (event : Option CommitEvent)
    → EventOf token event
    → token < top
    → AllBelow top b
    → AllBelow top (publish b event)
publish-AllBelow top token b none e lt h = h
publish-AllBelow top token b (some event) e lt h =
    broadcast_commit-AllBelow top b event (subst (λ c. c < top) (sym e) lt) h
