-- ===== src/CommitStream/Lookup.antt =====
-- trainfer/commit_stream.py: how the fan-out, an unsubscribe and a read change the queue of one subscriber.
use mathlib.Core.List.{Sublist, nil-sublist, sublist-append_left}
use mathlib.Core.List.Sublist
use trainfer.Prelude.{
  ℕ, ◌≡◌, refl, sym, ap, subst, ◌∙◌, true, false, not, List, [], ◌∷◌, ◌++◌, map, keep, ◌==◌, ==_iff,
  if◌then◌else◌, if_elim, if_true, if_false, Bool-cases, inl, inr,
}
use trainfer.CommitStream.{Message, Subscriber, is_full, put_nowait, take_first}

-- The messages that wait for a subscriber; none where it is not there.
abbrev pub queue_of : ℕ → List Subscriber → List Message
queue_of id [] = []
queue_of id (q ∷ qs) = let later = queue_of id qs in if q.id == id then q.queue else later

abbrev pub first_of : List Message → List Message
first_of [] = []
first_of (m ∷ ms) = m ∷ []

pub along : {xs xs' ys ys' : List Message} → xs ≡ xs' → ys ≡ ys' → Sublist xs ys → Sublist xs' ys'
along {xs} {xs'} {ys} {ys'} e e' h = subst (λ l. Sublist xs' l) e' (subst (λ l. Sublist l ys) e h)

queue_hit :
    (id : ℕ) (q : Subscriber) (qs : List Subscriber)
    → (q.id == id) ≡ true
    → queue_of id (q ∷ qs) ≡ q.queue
queue_hit id q qs h = if_true {b = q.id == id} _ _ h

queue_miss :
    (id : ℕ) (q : Subscriber) (qs : List Subscriber)
    → (q.id == id) ≡ false
    → queue_of id (q ∷ qs) ≡ queue_of id qs
queue_miss id q qs n = if_false {b = q.id == id} _ _ n

pub queue_of-append :
    (id j maxsize : ℕ) (qs : List Subscriber)
    → queue_of id (qs ++ record { id = j; maxsize = maxsize; queue = [] } ∷ []) ≡ queue_of id qs
queue_of-append id j maxsize [] = if_elim (λ l. l ≡ []) (j == id) _ _ (λ _. refl) (λ _. refl)
queue_of-append id j maxsize (q ∷ qs) =
    ap (λ l. if q.id == id then q.queue else l) (queue_of-append id j maxsize qs)

keep_hit :
    (j : ℕ) (q : Subscriber) (qs : List Subscriber)
    → (q.id == j) ≡ true
    → keep (λ q. not (q.id == j)) (q ∷ qs) ≡ keep (λ q. not (q.id == j)) qs
keep_hit j q qs h = if_false {b = not (q.id == j)} _ _ (ap not h)

keep_miss :
    (j : ℕ) (q : Subscriber) (qs : List Subscriber)
    → (q.id == j) ≡ false
    → keep (λ q. not (q.id == j)) (q ∷ qs) ≡ q ∷ keep (λ q. not (q.id == j)) qs
keep_miss j q qs n = if_true {b = not (q.id == j)} _ _ (ap not n)

queue_of_removed :
    (id : ℕ) (qs : List Subscriber) → queue_of id (keep (λ q. not (q.id == id)) qs) ≡ []
queue_of_removed id [] = refl
queue_of_removed id (q ∷ qs) = elim (Bool-cases (q.id == id)) [
  | inl hit ↦ ap (queue_of id) (keep_hit id q qs hit) ∙ queue_of_removed id qs
  | inr miss ↦
      ap (queue_of id) (keep_miss id q qs miss)
      ∙ queue_miss id q (keep (λ q. not (q.id == id)) qs) miss
      ∙ queue_of_removed id qs
]

-- An unsubscribed queue is gone, and the others stay.
pub queue_of-keep :
    (id j : ℕ) (qs : List Subscriber)
    → Sublist (queue_of id (keep (λ q. not (q.id == j)) qs)) (queue_of id qs)
queue_of-keep id j qs = elim (Bool-cases (j == id)) [
  | inl same ↦
      let e : j ≡ id = (==_iff j id).0 same in
      along
        (sym (ap (λ k. queue_of id (keep (λ q. not (q.id == k)) qs)) e ∙ queue_of_removed id qs))
        refl (nil-sublist (queue_of id qs))
  | inr other ↦ along (sym (kept other qs)) refl (Sublist.refl (queue_of id qs))
]
  where
    kept :
        (j == id) ≡ false
        → (qs : List Subscriber) → queue_of id (keep (λ q. not (q.id == j)) qs) ≡ queue_of id qs
    kept n [] = refl
    kept n (q ∷ qs) = elim (Bool-cases (q.id == j)) [
      | inl hit ↦
          let not_here : (q.id == id) ≡ false = ap (λ k. k == id) ((==_iff q.id j).0 hit) ∙ n in
          ap (queue_of id) (keep_hit j q qs hit) ∙ kept n qs ∙ sym (queue_miss id q qs not_here)
      | inr miss ↦
          ap (queue_of id) (keep_miss j q qs miss)
          ∙ ap (λ l. if q.id == id then q.queue else l) (kept n qs)
    ]

put-id : (m : Message) (q : Subscriber) → (put_nowait m q).id ≡ q.id
put-id m q =
    if_elim (λ (r : Subscriber). r.id ≡ q.id) (is_full q.maxsize q.queue) _ _ (λ _. refl)
      (λ _. refl)

put-queue : (m : Message) (q : Subscriber) → Sublist (put_nowait m q).queue (q.queue ++ m ∷ [])
put-queue m q =
    if_elim (λ (r : Subscriber). Sublist r.queue (q.queue ++ m ∷ [])) (is_full q.maxsize q.queue) _
      _ (λ _. sublist-append_left q.queue (m ∷ [])) (λ _. Sublist.refl (q.queue ++ m ∷ []))

pub queue_of-put :
    (m : Message) (id : ℕ) (qs : List Subscriber)
    → Sublist (queue_of id (map (put_nowait m) qs)) (queue_of id qs ++ m ∷ [])
queue_of-put m id [] = nil-sublist (m ∷ [])
queue_of-put m id (q ∷ qs) =
    let same : ((put_nowait m q).id == id) ≡ (q.id == id) = ap (λ k. k == id) (put-id m q) in
    elim (Bool-cases (q.id == id)) [
      | inl hit ↦
          along (sym (queue_hit id (put_nowait m q) (map (put_nowait m) qs) (same ∙ hit)))
            (sym (ap (λ l. l ++ m ∷ []) (queue_hit id q qs hit))) (put-queue m q)
      | inr miss ↦
          along (sym (queue_miss id (put_nowait m q) (map (put_nowait m) qs) (same ∙ miss)))
            (sym (ap (λ l. l ++ m ∷ []) (queue_miss id q qs miss))) (queue_of-put m id qs)
    ]

abbrev pub taken : ℕ → Subscriber → Subscriber
taken j q = if q.id == j then take_first q else q

taken-id : (j : ℕ) (q : Subscriber) → (taken j q).id ≡ q.id
taken-id j q = if_elim (λ (r : Subscriber). r.id ≡ q.id) (q.id == j) _ _ (λ _. refl) (λ _. refl)

take_first_lem :
    (id maxsize : ℕ) (ms : List Message)
    → first_of ms ++ (take_first (record { id = id; maxsize = maxsize; queue = ms })).queue ≡ ms
take_first_lem id maxsize [] = refl
take_first_lem id maxsize (m ∷ ms) = refl

pub taken_here :
    (id : ℕ) (qs : List Subscriber)
    → first_of (queue_of id qs) ++ queue_of id (map (taken id) qs) ≡ queue_of id qs
taken_here id [] = refl
taken_here id (q ∷ qs) =
    let same : ((taken id q).id == id) ≡ (q.id == id) = ap (λ k. k == id) (taken-id id q) in
    elim (Bool-cases (q.id == id)) [
      | inl hit ↦
          (λ i.
            first_of (queue_hit id q qs hit i)
            ++ queue_hit id (taken id q) (map (taken id) qs) (same ∙ hit) i)
          ∙ ap (λ (r : Subscriber). first_of q.queue ++ r.queue) (if_true {b = q.id == id} _ _ hit)
          ∙ take_first_lem q.id q.maxsize q.queue
          ∙ sym (queue_hit id q qs hit)
      | inr miss ↦
          (λ i.
            first_of (queue_miss id q qs miss i)
            ++ queue_miss id (taken id q) (map (taken id) qs) (same ∙ miss) i)
          ∙ taken_here id qs
          ∙ sym (queue_miss id q qs miss)
    ]

pub taken_elsewhere :
    (id j : ℕ) (qs : List Subscriber)
    → (j == id) ≡ false
    → queue_of id (map (taken j) qs) ≡ queue_of id qs
taken_elsewhere id j [] n = refl
taken_elsewhere id j (q ∷ qs) n =
    let same : ((taken j q).id == id) ≡ (q.id == id) = ap (λ k. k == id) (taken-id j q) in
    elim (Bool-cases (q.id == j)) [
      | inl hit ↦
          let not_here : (q.id == id) ≡ false = ap (λ k. k == id) ((==_iff q.id j).0 hit) ∙ n in
          queue_miss id (taken j q) (map (taken j) qs) (same ∙ not_here)
          ∙ taken_elsewhere id j qs n
          ∙ sym (queue_miss id q qs not_here)
      | inr miss ↦
          ap (λ (r : Subscriber). queue_of id (r ∷ map (taken j) qs))
            (if_false {b = q.id == j} _ _ miss)
          ∙ ap (λ l. if q.id == id then q.queue else l) (taken_elsewhere id j qs n)
    ]
