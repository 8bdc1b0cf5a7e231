-- ===== src/CommitStream/Reads.antt =====
-- trainfer/commit_stream.py: what a subscriber reads, message by message.
use mathlib.Core.List.{append_assoc, append-nil, Sublist, sublist-append_left}
use mathlib.Core.List.Sublist
use trainfer.Prelude.{
  ℕ, refl, sym, ap, ◌∙◌, Bool, not, ◌||◌, List, [], ◌∷◌, ◌++◌, map, ◌==◌, ==_iff, if◌then◌else◌,
  if_elim, if_true, if_false, Bool-cases, inl, inr,
}
use trainfer.CommitStream.{
  Message, commit, shutdown, CommitBroadcaster, new, subscribe, unsubscribe, no_subscribers,
  broadcast_commit, broadcast_shutdown, consume,
}
use trainfer.CommitStream.Accounts.{
  Action, subscribes, unsubscribes, consumes, broadcasts, shuts, act,
}
use trainfer.CommitStream.Lookup.{
  queue_of, first_of, along, queue_of-append, queue_of-keep, queue_of-put, taken, taken_here,
  taken_elsewhere,
}

-- What an action gives the subscriber to read.
abbrev pub read_by : ℕ → CommitBroadcaster → Action → List Message
read_by id b (consumes j) = if j == id then first_of (queue_of id b.subscribers) else []
read_by id b _ = []

-- What the subscriber has read over the actions, in order, and then what still waits for it.
unfoldable pub received : ℕ → CommitBroadcaster → List Action → List Message
received id b [] = queue_of id b.subscribers
received id b (a ∷ actions) = read_by id b a ++ received id (act b a) actions

abbrev pub sent_by : Action → List Message
sent_by (broadcasts e) = commit e ∷ []
sent_by shuts = shutdown ∷ []
sent_by _ = []

abbrev pub sent : List Action → List Message
sent [] = []
sent (a ∷ actions) = sent_by a ++ sent actions

-- One action: what is read and what then waits is what waited, and what was sent.
act_lem :
    (id : ℕ) (b : CommitBroadcaster) (a : Action)
    → Sublist
        (read_by id b a ++ queue_of id (act b a).subscribers)
        (queue_of id b.subscribers ++ sent_by a)
unfolding act subscribe unsubscribe consume broadcast_commit broadcast_shutdown
act_lem id b (subscribes maxsize) =
    along (sym (queue_of-append id b.next_id maxsize b.subscribers))
      (sym (append-nil (queue_of id b.subscribers))) (Sublist.refl (queue_of id b.subscribers))
act_lem id b (unsubscribes j) =
    along refl (sym (append-nil (queue_of id b.subscribers))) (queue_of-keep id j b.subscribers)
act_lem id b (consumes j) =
    let after = queue_of id (map (taken j) b.subscribers) in
    along refl (sym (append-nil (queue_of id b.subscribers))) (elim (Bool-cases (j == id)) [
      | inl same ↦
          along
            (sym (
              ap (λ l. l ++ after) (if_true {b = j == id} _ _ same)
              ∙ ap
                  (λ k.
                    first_of (queue_of id b.subscribers)
                    ++ queue_of id (map (taken k) b.subscribers))
                  ((==_iff j id).0 same)
              ∙ taken_here id b.subscribers))
            refl (Sublist.refl (queue_of id b.subscribers))
      | inr other ↦
          along
            (sym (
              ap (λ l. l ++ after) (if_false {b = j == id} _ _ other)
              ∙ taken_elsewhere id j b.subscribers other))
            refl (Sublist.refl (queue_of id b.subscribers))
    ])
act_lem id b (broadcasts e) =
    if_elim
      (λ (r : CommitBroadcaster).
        Sublist (queue_of id r.subscribers) (queue_of id b.subscribers ++ commit e ∷ []))
      (not b.enabled || no_subscribers b.subscribers) _ _
      (λ _. sublist-append_left (queue_of id b.subscribers) (commit e ∷ []))
      (λ _. queue_of-put (commit e) id b.subscribers)
act_lem id b shuts = queue_of-put shutdown id b.subscribers

received-sent :
    (id : ℕ) (b : CommitBroadcaster) (actions : List Action)
    → Sublist (received id b actions) (queue_of id b.subscribers ++ sent actions)
unfolding received
received-sent id b [] = sublist-append_left (queue_of id b.subscribers) []
received-sent id b (a ∷ actions) =
    let read = read_by id b a in
    let waits = queue_of id (act b a).subscribers in
    along refl (append_assoc (queue_of id b.subscribers) (sent_by a) (sent actions)) (
      Sublist.trans
        (along refl (sym (append_assoc read waits (sent actions)))
          (Sublist.append (Sublist.refl read) (received-sent id (act b a) actions)))
        (Sublist.append (act_lem id b a) (Sublist.refl (sent actions))))

-- From a new broadcaster on, whatever subscriptions, reads, broadcasts and shutdowns come in whatever
-- order: what any subscriber has read and what still waits for it are messages that were broadcast, in
-- the order of the broadcasts and each at most as often as it was broadcast.
pub received-Sublist :
    (enabled : Bool) (id : ℕ) (actions : List Action)
    → Sublist (received id (new enabled) actions) (sent actions)
received-Sublist enabled id actions = unfold new in received-sent id (new enabled) actions
