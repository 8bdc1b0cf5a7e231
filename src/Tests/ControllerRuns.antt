-- ===== src/Tests/ControllerRuns.antt =====
-- trainfer/controller.py: calls of `submit_train` with and without room, and a logged rewrite.
use trainfer.Prelude.{subst, ℕ, ◌+◌, ◌≡◌, refl, String, false, Option, none, some, [], ◌∷◌, arith}
use trainfer.Queue.{Job, init}
use trainfer.Controller.Feedback.{
  Payload, Prior, prompt_of, response_of, feedback_to_batch, logged_record,
}
use trainfer.Controller.Feedback.Replayed.{NotBlank, replay-agrees}
use trainfer.Controller.Train.{TrainSpec, Front, chunks, cut, submit_train}
use trainfer.Controller.Train.Commits.{
  Commits, LeavesPart, submit_train-Commits, submit_train-LeavesPart,
}

abbrev spec : TrainSpec ℕ
spec = record {
  objective = some "sft";
  objectives = [];
  samples = 1 ∷ 2 ∷ 3 ∷ 4 ∷ 5 ∷ [];
  chunk_size = none;
}

abbrev blank : Job (TrainSpec ℕ)
blank = record { token = 0; kind = ""; payload = spec; batch_id = "" }

abbrev front : ℕ → Front ℕ ℕ
front depth = record {
  queue = init depth blank;
  shutting_down = false;
  max_samples = 16;
  queue_depth_high_total = 0;
}

abbrev clock : ℕ → ℕ
clock t = 10 + t

-- Five samples in chunks of two, on a queue of depth four.
submit_train-Commits_example : Commits (front 4) spec 1 (submit_train (front 4) clock spec "b")
submit_train-Commits_example =
    submit_train-Commits (front 4) clock spec "b" 1
      (unfold init in (refl, refl, refl, refl, refl, refl)) (unfold init chunks cut in omega arith)

three_chunks : chunks 2 spec.samples ≡ (1 ∷ 2 ∷ []) ∷ (3 ∷ 4 ∷ []) ∷ (5 ∷ []) ∷ []
unfolding chunks cut
three_chunks = refl

-- On a queue of depth two, the last chunk finds no room.
submit_train-LeavesPart_example :
    LeavesPart (front 2) 2 (chunks 2 spec.samples) (submit_train (front 2) clock spec "b")
submit_train-LeavesPart_example =
    submit_train-LeavesPart (front 2) clock spec "b" 1 2
      (unfold init in (refl, refl, refl, refl, refl, refl)) (unfold init in omega arith)
      (unfold init in omega arith) (unfold chunks cut in omega arith)

abbrev rewrite : Payload
rewrite = record {
  feedback_kind = none;
  kind = some "rewrite";
  prompt = none;
  response = none;
  value = none;
  better_response = some "four";
  critique = none;
  weight = none;
}

abbrev prior : Option Prior
prior = some (record { last_content = some "2 + 2?"; response = "five" })

abbrev IsNone : Option String → Type 0
IsNone none = Unit
IsNone (some s) = ⊥

absent : NotBlank none
absent h = subst IsNone h tt

replay-agrees_example :
    feedback_to_batch (logged_record rewrite prior) none none
    ≡ feedback_to_batch rewrite (prompt_of prior) (response_of prior)
replay-agrees_example = replay-agrees rewrite prior absent absent absent
