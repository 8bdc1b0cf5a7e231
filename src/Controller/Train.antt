-- ===== src/Controller/Train.antt =====
-- trainfer/controller.py: `submit_train`, which cuts a batch of samples into tasks of the queue.
-- No `await` of it waits: `try_submit` calls `put` only on a queue that is not full, so the whole
-- call is one stretch of code. A spec is the keys that the code reads; a chunk size is a natural
-- number, and `clock t` is the time at which the task with token t is stored.
pub mod Chunks
pub mod Commits
use trainfer.Prelude.{
  ℕ, zero, suc, ◌+◌, ◌*◌, String, Bool, true, false, ◌&&◌, not, Option, none, some, List, [], ◌∷◌,
  length, take, drop, ltb, ◌==◌, if◌then◌else◌,
}
use trainfer.Errors.{
  Raised, structured, value_error, batch_too_large, shutting_down, Result, ok, raise,
}
use trainfer.Queue.{ComputeQueue, try_submit}
use trainfer.Controller.Feedback.{truthy}

pub record Objective (S : Type 0) : Type 0 where
  pub name : String
  pub samples : List S

pub record TrainSpec (S : Type 0) : Type 0 where
  pub objective : Option String
  pub objectives : List (Objective S)
  pub samples : List S
  pub chunk_size : Option ℕ

pub record TrainReply : Type 0 where
  pub batch_id : String
  pub commit_token : ℕ
  pub n_chunks : ℕ
  pub queue_depth : ℕ
  pub high_pressure : Bool

-- What the controller keeps that `submit_train` uses.
pub record Front (S R : Type 0) : Type 0 where
  pub queue : ComputeQueue (TrainSpec S) R
  pub shutting_down : Bool
  pub max_samples : ℕ  -- cfg.max_samples_per_train_call
  pub queue_depth_high_total : ℕ

abbrev pub size_or_default : Option ℕ → ℕ
size_or_default none = 2
size_or_default (some n) = n

-- q / max(1, m) > a / b
abbrev pub ratio_above : ℕ → ℕ → ℕ → ℕ → Bool
ratio_above a b q zero = ltb a (b * q)
ratio_above a b q (suc m) = ltb (a * suc m) (b * q)

abbrev pub prefix : ℕ → Result (List ℕ) → Result (List ℕ)
prefix t (ok ts) = ok (t ∷ ts)
prefix t (raise e) = raise e

-- tasks[-1]
abbrev pub last_token : ℕ → List ℕ → ℕ
last_token t [] = t
last_token t (u ∷ us) = last_token u us

module _ {S : Type 0} where
  -- The samples from `i` on, cut at i + size, i + 2 * size, ...
  unfoldable pub cut : ℕ → ℕ → List S → List (List S)
  cut zero size xs = []
  cut (suc n) size [] = []
  cut (suc n) size (x ∷ xs) = take size (x ∷ xs) ∷ cut n size (drop size (x ∷ xs))

  -- The samples of each task: an empty batch is one empty task.
  unfoldable pub chunks : ℕ → List S → List (List S)
  chunks size [] = [] ∷ []
  chunks size (x ∷ xs) = cut (length (x ∷ xs)) size (x ∷ xs)

  abbrev pub count_samples : List (Objective S) → ℕ
  count_samples [] = 0
  count_samples (o ∷ os) = length o.samples + count_samples os

  abbrev pub has_objs : List (Objective S) → Bool
  has_objs [] = false
  has_objs (o ∷ os) = true

  abbrev pub total_samples : TrainSpec S → ℕ
  total_samples spec =
      if has_objs spec.objectives then count_samples spec.objectives else length spec.samples

  abbrev pub with_samples : TrainSpec S → List S → TrainSpec S
  with_samples spec c = record spec { samples = c }

module _ {S R : Type 0} where
  abbrev pub and_then :
      Result ℕ × ComputeQueue (TrainSpec S) R
      → (ComputeQueue (TrainSpec S) R → Result (List ℕ) × ComputeQueue (TrainSpec S) R)
      → Result (List ℕ) × ComputeQueue (TrainSpec S) R
  and_then (ok t, q) rest = let (ts, q') = rest q in (prefix t ts, q')
  and_then (raise e, q) rest = (raise e, q)

  unfoldable pub submit_chunks :
      ComputeQueue (TrainSpec S) R
      → (ℕ → ℕ)
      → TrainSpec S
      → String
      → List (List S)
      → Result (List ℕ) × ComputeQueue (TrainSpec S) R
  submit_chunks q clock spec batch_id [] = (ok [], q)
  submit_chunks q clock spec batch_id (c ∷ cs) =
      and_then (try_submit q (clock q.next_token) "train" (with_samples spec c) batch_id)
        (λ q'. submit_chunks q' clock spec batch_id cs)

  -- The reply for the tokens of the tasks, or the exception.
  abbrev pub answer :
      Front S R
      → String
      → Result (List ℕ) × ComputeQueue (TrainSpec S) R
      → Result TrainReply × Front S R
  answer c batch_id (raise e, q) = (raise e, record c { queue = q })
  answer c batch_id (ok [], q) = (raise (Raised.foreign 0), record c { queue = q })
  answer c batch_id (ok (t ∷ ts), q) = (
    ok (record {
      batch_id = batch_id;
      commit_token = last_token t ts;
      n_chunks = length (t ∷ ts);
      queue_depth = length q.items;
      high_pressure = ratio_above 9 10 (length c.queue.items) c.queue.maxsize;
    }),
    record c { queue = q },
  )

  abbrev pub note_depth : Front S R → Front S R
  note_depth c = record c {
    queue_depth_high_total =
        if ratio_above 3 4 (length c.queue.items) c.queue.maxsize
        then suc c.queue_depth_high_total
        else c.queue_depth_high_total;
  }

  -- One task for several objectives, one for each chunk of one objective.
  abbrev pub submit_parts :
      Front S R → (ℕ → ℕ) → TrainSpec S → String → Result TrainReply × Front S R
  submit_parts c clock spec batch_id =
      if has_objs spec.objectives
      then answer c batch_id (
          and_then (try_submit c.queue (clock c.queue.next_token) "train" spec batch_id)
            (λ q. (ok [], q)))
      else if size_or_default spec.chunk_size == 0
      then (raise value_error, c)
      else answer c batch_id (
          submit_chunks c.queue clock spec batch_id
            (chunks (size_or_default spec.chunk_size) spec.samples))

  unfoldable pub submit_train :
      Front S R → (ℕ → ℕ) → TrainSpec S → String → Result TrainReply × Front S R
  submit_train c clock spec batch_id =
      if c.shutting_down
      then (raise (structured shutting_down), c)
      else if truthy spec.objective && has_objs spec.objectives
      then (raise value_error, c)
      else if not (truthy spec.objective) && not (has_objs spec.objectives)
      then (raise value_error, c)
      else if ltb c.max_samples (total_samples spec)
      then (raise (structured batch_too_large), c)
      else submit_parts (note_depth c) clock spec batch_id
