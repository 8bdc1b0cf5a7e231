-- ===== src/Controller/Train/Chunks.antt =====
-- trainfer/controller.py: what `submit_chunks` leaves in the queue, with room for all of the chunks
-- and with too little.
use trainfer.Prelude.{
  ℕ, zero, suc, ◌+◌, ◌≤◌, ◌<◌, ◌≡◌, refl, sym, ap, ◌∙◌, String, true, false, none, List, [], ◌∷◌,
  ◌++◌, map, length, length-append, take, ==_iff, subst, ◌==◌, if_false, if_true, arith,
}
use trainfer.Errors.{structured, queue_full, Result, ok, raise}
use trainfer.Queue.{QueueTask, ComputeQueue, is_full, enqueue, submit, try_submit, update}
use trainfer.Controller.Train.{TrainSpec, prefix, with_samples, and_then, submit_chunks}

-- n tokens from t on
abbrev pub tokens : ℕ → ℕ → List ℕ
tokens t zero = []
tokens t (suc n) = t ∷ tokens (suc t) n

abbrev pub concat {ℓ} : {A : Type ℓ} → List (List A) → List A
concat [] = []
concat (x ∷ xs) = x ++ concat xs

map-cong_tokens {ℓ} :
    {A : Type ℓ} (f g : ℕ → A) (t n : ℕ)
    → ((u : ℕ) → f u ≡ g u)
    → map f (tokens t n) ≡ map g (tokens t n)
map-cong_tokens f g t zero h = refl
map-cong_tokens f g t (suc n) h = rw (h t) (ap (λ r. g t ∷ r) (map-cong_tokens f g (suc t) n h))

append_assoc {ℓ} : {A : Type ℓ} (xs ys zs : List A) → (xs ++ ys) ++ zs ≡ xs ++ (ys ++ zs)
append_assoc [] ys zs = refl
append_assoc (x ∷ xs) ys zs = ap (λ r. x ∷ r) (append_assoc xs ys zs)

append_nil {ℓ} : {A : Type ℓ} (xs : List A) → xs ++ [] ≡ xs
append_nil [] = refl
append_nil (x ∷ xs) = ap (λ r. x ∷ r) (append_nil xs)

is_full_room : (m n : ℕ) (items : List ℕ) → length items + suc n ≤ m → is_full m items ≡ false
unfolding is_full
is_full_room zero n items h = absurd (omega (arith, h))
is_full_room (suc m) n items h = ground (arith, h)

is_full_at : (m : ℕ) (items : List ℕ) → 0 < m → length items + 0 ≡ m → is_full m items ≡ true
unfolding is_full
is_full_at zero items p h = absurd (omega (arith, p))
is_full_at (suc m) items p h = ground (arith, h)

module _ {S R : Type 0} where
  -- The queue after one chunk is stored in a queue that is not full.
  abbrev pub stored :
      ComputeQueue (TrainSpec S) R
      → (ℕ → ℕ)
      → TrainSpec S
      → String
      → List S
      → ComputeQueue (TrainSpec S) R
  stored q clock spec batch_id c =
      let task : QueueTask (TrainSpec S) R = record {
        job = record {
          token = q.next_token;
          kind = "train";
          payload = with_samples spec c;
          batch_id = batch_id;
        };
        done = false;
        error = none;
        result = none;
      } in
      record q {
        next_token = suc q.next_token;
        tasks = update q.tasks q.next_token task;
        pending = q.pending ++ q.next_token ∷ [];
        last_enqueue_ts = clock q.next_token;
        items = q.items ++ q.next_token ∷ [];
      }

  abbrev pub fill :
      ComputeQueue (TrainSpec S) R
      → (ℕ → ℕ)
      → TrainSpec S
      → String
      → List (List S)
      → ComputeQueue (TrainSpec S) R
  fill q clock spec batch_id [] = q
  fill q clock spec batch_id (c ∷ cs) = fill (stored q clock spec batch_id c) clock spec batch_id cs

  try_submit_room :
      (q : ComputeQueue (TrainSpec S) R) (clock : ℕ → ℕ) (spec : TrainSpec S) (batch_id : String)
      (c : List S)
      → q.accepting ≡ true
      → is_full q.maxsize q.items ≡ false
      → try_submit q (clock q.next_token) "train" (with_samples spec c) batch_id
        ≡ (ok q.next_token, stored q clock spec batch_id c)
  unfolding try_submit submit enqueue
  try_submit_room q clock spec batch_id c a f = rw (f, a) refl

  try_submit_full :
      (q : ComputeQueue (TrainSpec S) R) (clock : ℕ → ℕ) (spec : TrainSpec S) (batch_id : String)
      (c : List S)
      → is_full q.maxsize q.items ≡ true
      → try_submit q (clock q.next_token) "train" (with_samples spec c) batch_id
        ≡ (raise (structured queue_full), q)
  unfolding try_submit
  try_submit_full q clock spec batch_id c f = rw f refl

  submit_chunks_first :
      (q q' : ComputeQueue (TrainSpec S) R) (r : Result ℕ) (clock : ℕ → ℕ) (spec : TrainSpec S)
      (batch_id : String) (c : List S) (cs : List (List S))
      → try_submit q (clock q.next_token) "train" (with_samples spec c) batch_id ≡ (r, q')
      → submit_chunks q clock spec batch_id (c ∷ cs)
        ≡ and_then (r, q') (λ p. submit_chunks p clock spec batch_id cs)
  unfolding submit_chunks
  submit_chunks_first q q' r clock spec batch_id c cs h =
      ap (λ s. and_then s (λ p. submit_chunks p clock spec batch_id cs)) h

  room_after :
      (q : ComputeQueue (TrainSpec S) R) (clock : ℕ → ℕ) (spec : TrainSpec S) (batch_id : String)
      (c : List S) (n : ℕ)
      → length (stored q clock spec batch_id c).items + n ≡ length q.items + suc n
  room_after q clock spec batch_id c n = omega (arith, length-append q.items (q.next_token ∷ []))

  pub submit_chunks-room :
      (q : ComputeQueue (TrainSpec S) R) (clock : ℕ → ℕ) (spec : TrainSpec S) (batch_id : String)
      (cs : List (List S))
      → q.accepting ≡ true
      → length q.items + length cs ≤ q.maxsize
      → submit_chunks q clock spec batch_id cs
        ≡ (ok (tokens q.next_token (length cs)), fill q clock spec batch_id cs)
  submit_chunks-room q clock spec batch_id [] a h = unfold submit_chunks in refl
  submit_chunks-room q clock spec batch_id (c ∷ cs) a h =
      let q' = stored q clock spec batch_id c in
      submit_chunks_first q q' (ok q.next_token) clock spec batch_id c cs
        (try_submit_room q clock spec batch_id c a (is_full_room q.maxsize (length cs) q.items h))
      ∙ ap (λ (r : Result (List ℕ) × ComputeQueue (TrainSpec S) R). (prefix q.next_token r.0, r.1))
          (submit_chunks-room q' clock spec batch_id cs a
            (subst (λ n. n ≤ q.maxsize) (sym (room_after q clock spec batch_id c (length cs))) h))

  pub submit_chunks-partial :
      (q : ComputeQueue (TrainSpec S) R) (clock : ℕ → ℕ) (spec : TrainSpec S) (batch_id : String)
      (n : ℕ) (cs : List (List S))
      → q.accepting ≡ true
      → 0 < q.maxsize
      → length q.items + n ≡ q.maxsize
      → n < length cs
      → submit_chunks q clock spec batch_id cs
        ≡ (raise (structured queue_full), fill q clock spec batch_id (take n cs))
  submit_chunks-partial q clock spec batch_id n [] a p h l = absurd (omega (arith, l))
  submit_chunks-partial q clock spec batch_id zero (c ∷ cs) a p h l =
      submit_chunks_first q q (raise (structured queue_full)) clock spec batch_id c cs
        (try_submit_full q clock spec batch_id c (is_full_at q.maxsize q.items p h))
  submit_chunks-partial q clock spec batch_id (suc n) (c ∷ cs) a p h l =
      let q' = stored q clock spec batch_id c in
      submit_chunks_first q q' (ok q.next_token) clock spec batch_id c cs (
        try_submit_room q clock spec batch_id c a
          (is_full_room q.maxsize n q.items (omega (arith, h))))
      ∙ ap (λ (r : Result (List ℕ) × ComputeQueue (TrainSpec S) R). (prefix q.next_token r.0, r.1))
          (submit_chunks-partial q' clock spec batch_id n cs a p
            (room_after q clock spec batch_id c n ∙ h) (omega (arith, l)))

  pub fill-items :
      (q : ComputeQueue (TrainSpec S) R) (clock : ℕ → ℕ) (spec : TrainSpec S) (batch_id : String)
      (cs : List (List S))
      → (fill q clock spec batch_id cs).items ≡ q.items ++ tokens q.next_token (length cs)
  fill-items q clock spec batch_id [] = sym (append_nil q.items)
  fill-items q clock spec batch_id (c ∷ cs) =
      fill-items (stored q clock spec batch_id c) clock spec batch_id cs
      ∙ append_assoc q.items (q.next_token ∷ []) (tokens (suc q.next_token) (length cs))

  fill-old :
      (q : ComputeQueue (TrainSpec S) R) (clock : ℕ → ℕ) (spec : TrainSpec S) (batch_id : String)
      (cs : List (List S)) (u : ℕ)
      → u < q.next_token
      → (fill q clock spec batch_id cs).tasks u ≡ q.tasks u
  fill-old q clock spec batch_id [] u h = refl
  fill-old q clock spec batch_id (c ∷ cs) u h =
      fill-old (stored q clock spec batch_id c) clock spec batch_id cs u (omega (arith, h))
      ∙ if_false {b = q.next_token == u} _ _ (ground arith)

  abbrev pub samples_at : ComputeQueue (TrainSpec S) R → ℕ → List S
  samples_at q u = (q.tasks u).job.payload.samples

  pub fill-samples :
      (q : ComputeQueue (TrainSpec S) R) (clock : ℕ → ℕ) (spec : TrainSpec S) (batch_id : String)
      (cs : List (List S))
      → map (samples_at (fill q clock spec batch_id cs)) (tokens q.next_token (length cs)) ≡ cs
  fill-samples q clock spec batch_id [] = refl
  fill-samples q clock spec batch_id (c ∷ cs) =
      let q' = stored q clock spec batch_id c in
      let first =
        ap (λ (t : QueueTask (TrainSpec S) R). t.job.payload.samples)
          (fill-old q' clock spec batch_id cs q.next_token (omega arith)
            ∙ if_true _ _ ((==_iff q.next_token q.next_token).1 refl)) in
      ap
        (λ (x : List S).
          x
          ∷ map (samples_at (fill q' clock spec batch_id cs))
              (tokens (suc q.next_token) (length cs)))
        first
      ∙ ap (λ (r : List (List S)). c ∷ r) (fill-samples q' clock spec batch_id cs)
