-- ===== src/CommitStream.antt =====
-- trainfer/commit_stream.py: CommitBroadcaster, which fans commit events out to bounded subscriber
-- queues. A subscriber queue is known by the number it was created with; the set of subscribers is
-- the list of those, oldest first (the fan-out visits every one, so its order does not show). The
-- time stamp of an event is an argument.
pub mod Accounts
pub mod Cursors
pub mod Lookup
pub mod Reads
use trainfer.Prelude.{
  ℕ, zero, suc, ◌+◌, ◌*◌, String, Bool, true, false, not, ◌||◌, List, [], ◌∷◌, ◌++◌, length, keep,
  map, leb, ◌==◌, if◌then◌else◌,
}

-- `negsuc n` is -(n + 1).
pub data ℤ : Type 0 where
  pos negsuc : ℕ → ℤ

pub record CommitEvent : Type 0 where
  pub cursor : ℕ
  pub ts : String
  pub objective : String
  pub loss_milli : ℤ  -- the loss in thousandths; the broadcaster only passes it on
  pub components : List (String × ℤ)  -- likewise
  pub batch_size : ℕ

pub data Message : Type 0 where
  commit : CommitEvent → Message
  shutdown : Message

-- An asyncio.Queue that a subscriber reads.
pub record Subscriber : Type 0 where
  pub id : ℕ
  pub maxsize : ℕ
  pub queue : List Message

pub record CommitBroadcaster : Type 0 where
  pub enabled : Bool
  pub drops : ℕ
  pub subscribers : List Subscriber
  pub next_id : ℕ

unfoldable pub new : Bool → CommitBroadcaster
new enabled = record { enabled = enabled; drops = 0; subscribers = []; next_id = 0 }

unfoldable pub subscribe : CommitBroadcaster → ℕ → ℕ × CommitBroadcaster
subscribe b maxsize =
    let q : Subscriber = record { id = b.next_id; maxsize = maxsize; queue = [] } in
    (b.next_id, record b { subscribers = b.subscribers ++ q ∷ []; next_id = suc b.next_id })

-- `discard`: no error for a queue that is not there
unfoldable pub unsubscribe : CommitBroadcaster → ℕ → CommitBroadcaster
unsubscribe b id = record b { subscribers = keep (λ q. not (q.id == id)) b.subscribers }

unfoldable pub subscriber_count : CommitBroadcaster → ℕ
subscriber_count b = length b.subscribers

-- asyncio.Queue.full: a maxsize of 0 is no bound
abbrev pub is_full : ℕ → List Message → Bool
is_full zero queue = false
is_full (suc m) queue = leb (suc m) (length queue)

-- `put_nowait`, where QueueFull is swallowed
abbrev pub put_nowait : Message → Subscriber → Subscriber
put_nowait m q = if is_full q.maxsize q.queue then q else record q { queue = q.queue ++ m ∷ [] }

-- How many of the subscribers are full.
unfoldable pub count_full : List Subscriber → ℕ
count_full [] = 0
count_full (q ∷ qs) = (if is_full q.maxsize q.queue then 1 else 0) + count_full qs

abbrev pub no_subscribers : List Subscriber → Bool
no_subscribers [] = true
no_subscribers (_ ∷ _) = false

unfoldable pub broadcast_commit : CommitBroadcaster → CommitEvent → CommitBroadcaster
broadcast_commit b event = if not b.enabled || no_subscribers b.subscribers then b else record b {
  subscribers = map (put_nowait (commit event)) b.subscribers;
  drops = b.drops + count_full b.subscribers;
}

unfoldable pub broadcast_shutdown : CommitBroadcaster → CommitBroadcaster
broadcast_shutdown b = record b { subscribers = map (put_nowait shutdown) b.subscribers }

-- A subscriber takes its next message.
abbrev pub take_first : Subscriber → Subscriber
take_first q = record q { queue = rest q.queue }
  where
    rest : List Message → List Message
    rest [] = []
    rest (_ ∷ ms) = ms

unfoldable pub consume : CommitBroadcaster → ℕ → CommitBroadcaster
consume b id = record b {
  subscribers = map (λ q. if q.id == id then take_first q else q) b.subscribers;
}
