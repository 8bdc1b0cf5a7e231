-- ===== src/Controller/Train/Commits.antt =====
-- trainfer/controller.py: the single-objective calls of `submit_train` as a whole.
use trainfer.Prelude.{
  ℕ, zero, suc, ◌+◌, ◌≤◌, ◌<◌, ◌≡◌, refl, sym, ap, subst, ◌∙◌, String, true, false, List, [], ◌∷◌,
  ◌++◌, map, length, take, drop, take-append-drop, ltb, ◌==◌, arith, All,
}
use trainfer.Errors.{structured, queue_full, Result, ok, raise}
use trainfer.Queue.{ComputeQueue}
use trainfer.Controller.Feedback.{truthy}
use trainfer.Controller.Train.{
  TrainSpec, TrainReply, Front, size_or_default, ratio_above, last_token, has_objs, cut, chunks,
  submit_chunks, submit_train, answer, note_depth,
}
use trainfer.Controller.Train.Chunks.{
  tokens, concat, fill, samples_at, submit_chunks-room, submit_chunks-partial, fill-items,
  fill-samples,
}

module _ {S : Type 0} where
  length-drop : (k : ℕ) (xs : List S) → length (drop k xs) ≤ length xs
  length-drop zero xs = omega arith
  length-drop (suc k) [] = omega arith
  length-drop (suc k) (x ∷ xs) = omega (arith, length-drop k xs)

  length-take : (k : ℕ) (xs : List S) → length (take k xs) ≤ k
  length-take zero xs = omega arith
  length-take (suc k) [] = omega arith
  length-take (suc k) (x ∷ xs) = omega (arith, length-take k xs)

  concat-cut : (n k : ℕ) (xs : List S) → length xs ≤ n → concat (cut n (suc k) xs) ≡ xs
  unfolding cut
  concat-cut zero k [] h = refl
  concat-cut zero k (x ∷ xs) h = absurd (omega (arith, h))
  concat-cut (suc n) k [] h = refl
  concat-cut (suc n) k (x ∷ xs) h =
      ap (λ r. x ∷ (take k xs ++ r))
        (concat-cut n k (drop k xs) (omega (arith, h, length-drop k xs)))
      ∙ ap (λ r. x ∷ r) (take-append-drop k xs)

  pub concat-chunks : (k : ℕ) (xs : List S) → concat (chunks (suc k) xs) ≡ xs
  unfolding chunks
  concat-chunks k [] = refl
  concat-chunks k (x ∷ xs) = concat-cut (length (x ∷ xs)) k (x ∷ xs) (omega arith)

  All-cut : (n k : ℕ) (xs : List S) → All (λ (c : List S). length c ≤ k) (cut n k xs)
  unfolding cut
  All-cut zero k xs = tt
  All-cut (suc n) k [] = tt
  All-cut (suc n) k (x ∷ xs) = (length-take k (x ∷ xs), All-cut n k (drop k (x ∷ xs)))

  chunks-small : (k : ℕ) (xs : List S) → All (λ (c : List S). length c ≤ k) (chunks k xs)
  unfolding chunks
  chunks-small k [] = (omega arith, tt)
  chunks-small k (x ∷ xs) = All-cut (length (x ∷ xs)) k (x ∷ xs)

  chunks-cons : (k : ℕ) (xs : List S) → 0 < length (chunks (suc k) xs)
  unfolding chunks cut
  chunks-cons k [] = omega arith
  chunks-cons k (x ∷ xs) = omega arith

last_token_tokens : (t n : ℕ) → suc (last_token t (tokens (suc t) n)) ≡ t + suc n
last_token_tokens t zero = omega arith
last_token_tokens t (suc n) = omega (arith, last_token_tokens (suc t) n)

length-tokens : (t n : ℕ) → length (tokens t n) ≡ n
length-tokens t zero = refl
length-tokens t (suc n) = ap suc (length-tokens (suc t) n)

size_positive : (k : ℕ) → (suc k == 0) ≡ false
size_positive k = ground arith

length-take_short {ℓ} : {A : Type ℓ} (n : ℕ) (xs : List A) → n < length xs → length (take n xs) ≡ n
length-take_short zero xs h = refl
length-take_short (suc n) [] h = absurd (omega (arith, h))
length-take_short (suc n) (x ∷ xs) h = ap suc (length-take_short n xs (omega (arith, h)))

module _ {S R : Type 0} where
  -- The call is one that gets as far as the queue: one objective, no more samples than allowed, a
  -- positive chunk size, and neither the controller nor the queue closing.
  abbrev pub IsAdmitted : Front S R → TrainSpec S → ℕ → Type 0
  IsAdmitted c spec k =
      (c.shutting_down ≡ false)
      × (c.queue.accepting ≡ true)
      × (truthy spec.objective ≡ true)
      × (has_objs spec.objectives ≡ false)
      × (ltb c.max_samples (length spec.samples) ≡ false)
      × (size_or_default spec.chunk_size ≡ suc k)

  submit_train-chunks :
      (c : Front S R) (clock : ℕ → ℕ) (spec : TrainSpec S) (batch_id : String) (k : ℕ)
      → IsAdmitted c spec k
      → submit_train c clock spec batch_id
        ≡ answer
            (note_depth c)
            batch_id
            (submit_chunks c.queue clock spec batch_id (chunks (suc k) spec.samples))
  unfolding submit_train
  submit_train-chunks c clock spec batch_id k (opened, a, obj, single, small, size) =
      rw (opened, obj, single, small, size) (rw (size_positive k) refl)

  -- The samples of the tasks in their order, and the tasks' tokens up to the one that is replied.
  abbrev pub Commits : Front S R → TrainSpec S → ℕ → Result TrainReply × Front S R → Type 0
  Commits c spec k (r, c') =
      (reply : TrainReply) × (r ≡ ok reply)
      × (c'.queue.items ≡ c.queue.items ++ tokens c.queue.next_token reply.n_chunks)
      × (suc reply.commit_token ≡ c.queue.next_token + reply.n_chunks)
      × (concat (map (samples_at c'.queue) (tokens c.queue.next_token reply.n_chunks))
          ≡ spec.samples)
      × All (λ (s : List S). length s ≤ suc k)
          (map (samples_at c'.queue) (tokens c.queue.next_token reply.n_chunks))

  answer-Commits :
      (c : Front S R) (spec : TrainSpec S) (batch_id : String) (k n : ℕ) (cs : List (List S))
      (q : ComputeQueue (TrainSpec S) R)
      → q.items ≡ c.queue.items ++ tokens c.queue.next_token (suc n)
      → map (samples_at q) (tokens c.queue.next_token (suc n)) ≡ cs
      → concat cs ≡ spec.samples
      → All (λ (s : List S). length s ≤ suc k) cs
      → Commits c spec k
          (answer (note_depth c) batch_id (ok (tokens c.queue.next_token (suc n)), q))
  answer-Commits c spec batch_id k n cs q hi hs hc ha =
      let t = c.queue.next_token in
      let count = ap suc (length-tokens (suc t) n) in
      (
        record {
          batch_id = batch_id;
          commit_token = last_token t (tokens (suc t) n);
          n_chunks = length (tokens t (suc n));
          queue_depth = length q.items;
          high_pressure = ratio_above 9 10 (length c.queue.items) c.queue.maxsize;
        },
        refl,
        hi ∙ ap (λ m. c.queue.items ++ tokens t m) (sym count),
        last_token_tokens t n ∙ ap (λ m. t + m) (sym count),
        ap (λ m. concat (map (samples_at q) (tokens t m))) count ∙ ap concat hs ∙ hc,
        subst (All (λ (s : List S). length s ≤ suc k))
            (sym (ap (λ m. map (samples_at q) (tokens t m)) count ∙ hs)) ha,
      )

  filled-Commits :
      (c : Front S R) (clock : ℕ → ℕ) (spec : TrainSpec S) (batch_id : String) (k : ℕ)
      (cs : List (List S))
      → 0 < length cs
      → concat cs ≡ spec.samples
      → All (λ (s : List S). length s ≤ suc k) cs
      → Commits c spec k (
          answer
            (note_depth c)
            batch_id
            (ok (tokens c.queue.next_token (length cs)), fill c.queue clock spec batch_id cs))
  filled-Commits c clock spec batch_id k [] p hc ha = absurd (omega (arith, p))
  filled-Commits c clock spec batch_id k (x ∷ xs) p hc ha =
      answer-Commits c spec batch_id k (length xs) (x ∷ xs)
        (fill c.queue clock spec batch_id (x ∷ xs))
        (fill-items c.queue clock spec batch_id (x ∷ xs))
        (fill-samples c.queue clock spec batch_id (x ∷ xs)) hc ha

  -- A call for one objective with a positive chunk size and no more samples than allowed, while
  -- neither the controller nor the queue is closing, succeeds if the bounded queue has room for all
  -- of its chunks. The tasks it appends to the queue have consecutive tokens, of which the replied commit token is the last; the samples of
  -- these tasks, one after the other, are the samples of the call; and no task has more than the
  -- chunk size.
  pub submit_train-Commits :
      (c : Front S R) (clock : ℕ → ℕ) (spec : TrainSpec S) (batch_id : String) (k : ℕ)
      → IsAdmitted c spec k
      → length c.queue.items + length (chunks (suc k) spec.samples) ≤ c.queue.maxsize
      → Commits c spec k (submit_train c clock spec batch_id)
  submit_train-Commits c clock spec batch_id k h room =
      let cs = chunks (suc k) spec.samples in
      subst (Commits c spec k)
        (sym (
          submit_train-chunks c clock spec batch_id k h
          ∙ ap (answer (note_depth c) batch_id)
              (submit_chunks-room c.queue clock spec batch_id cs h.1 room)))
        (filled-Commits c clock spec batch_id k cs (chunks-cons k spec.samples)
          (concat-chunks k spec.samples) (chunks-small (suc k) spec.samples))

  -- What a call that finds too little room leaves behind: its first chunks as tasks of the queue.
  abbrev pub LeavesPart : Front S R → ℕ → List (List S) → Result TrainReply × Front S R → Type 0
  LeavesPart c n cs (r, c') =
      (r ≡ raise (structured queue_full))
      × (c'.queue.items ≡ c.queue.items ++ tokens c.queue.next_token n)
      × (map (samples_at c'.queue) (tokens c.queue.next_token n) ≡ take n cs)

  -- A call for one objective with a positive chunk size and no more samples than allowed, while
  -- neither the controller nor the queue is closing, on a bounded queue with room for just n tasks,
  -- fewer than the call's chunks, raises queue_full, and its first n chunks stay in the queue as tasks.
  pub submit_train-LeavesPart :
      (c : Front S R) (clock : ℕ → ℕ) (spec : TrainSpec S) (batch_id : String) (k n : ℕ)
      → IsAdmitted c spec k
      → 0 < c.queue.maxsize
      → length c.queue.items + n ≡ c.queue.maxsize
      → n < length (chunks (suc k) spec.samples)
      → LeavesPart c n (chunks (suc k) spec.samples) (submit_train c clock spec batch_id)
  submit_train-LeavesPart c clock spec batch_id k n h p room l =
      let cs = chunks (suc k) spec.samples in
      let part = take n cs in
      let count = length-take_short n cs l in
      subst (LeavesPart c n cs)
        (sym (
          submit_train-chunks c clock spec batch_id k h
          ∙ ap (answer (note_depth c) batch_id)
              (submit_chunks-partial c.queue clock spec batch_id n cs h.1 p room l)))
        (
          refl,
          fill-items c.queue clock spec batch_id part
              ∙ ap (λ m. c.queue.items ++ tokens c.queue.next_token m) count,
          ap
                (λ m.
                  map (samples_at (fill c.queue clock spec batch_id part))
                    (tokens c.queue.next_token m))
                (sym count)
              ∙ fill-samples c.queue clock spec batch_id part,
        )
