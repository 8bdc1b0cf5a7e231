-- ===== src/Tests/ReasoningRuns.antt =====
-- trainfer/reasoning.py: a stream cut inside its end tag, and one cut off before it.
use trainfer.Prelude.{
  subst, ℕ, ◌≡◌, ◌≢◌, refl, true, false, none, some, List, [], ◌∷◌, ◌++◌, if◌then◌else◌,
}
use trainfer.Reasoning.{
  Text, ReasoningParser, starts_with, split_at, split_end, extract_final, reasoning, pending_start,
  make_state,
}
use trainfer.Reasoning.Streaming.{stream, split_mode, concat}
use trainfer.Reasoning.Streaming.Chunks.{stream-split, truncated_reasoning}

-- The tags 8 1 8 and 8 9 8, in the prompt or written by the model.
abbrev in_prompt : ReasoningParser
in_prompt = record {
  start_token = 8 ∷ 1 ∷ 8 ∷ [];
  end_token = 8 ∷ 9 ∷ 8 ∷ [];
  start_in_prompt = true;
}

abbrev by_model : ReasoningParser
by_model = record {
  start_token = 8 ∷ 1 ∷ 8 ∷ [];
  end_token = 8 ∷ 9 ∷ 8 ∷ [];
  start_in_prompt = false;
}

abbrev deltas : List Text
deltas = (3 ∷ 4 ∷ 8 ∷ []) ∷ (9 ∷ []) ∷ (8 ∷ 5 ∷ []) ∷ []

abbrev cut_off : List Text
cut_off = (2 ∷ 8 ∷ 1 ∷ []) ∷ (8 ∷ 3 ∷ []) ∷ (4 ∷ 8 ∷ []) ∷ []

IsCons : Text → Type 0
IsCons [] = ⊥
IsCons (c ∷ s) = Unit

cons_nil : (c : ℕ) (s : Text) → c ∷ s ≢ []
unfolding IsCons
cons_nil c s h = subst IsCons h tt

stream-split_example :
    stream by_model (make_state by_model) deltas
    ≡ split_mode by_model
        (if by_model.start_in_prompt then reasoning else pending_start)
        (concat deltas)
stream-split_example =
    stream-split by_model deltas (cons_nil 8 (1 ∷ 8 ∷ [])) (cons_nil 8 (9 ∷ 8 ∷ []))

-- Both give the reasoning 3 4 and the content 5.
split_across_chunks : extract_final in_prompt (concat deltas) ≡ (3 ∷ 4 ∷ [], 5 ∷ [])
unfolding extract_final split_end split_at starts_with
split_across_chunks = refl

opened : split_at by_model.start_token (concat cut_off) ≡ some (2 ∷ [], 3 ∷ 4 ∷ 8 ∷ [])
unfolding split_at starts_with
opened = refl

never_closed : split_at by_model.end_token (3 ∷ 4 ∷ 8 ∷ []) ≡ none
unfolding split_at starts_with
never_closed = refl

truncated_reasoning_example :
    (extract_final by_model (concat cut_off) ≡ ([], 3 ∷ 4 ∷ 8 ∷ []))
    × (stream by_model (make_state by_model) cut_off ≡ (3 ∷ 4 ∷ 8 ∷ [], (2 ∷ []) ++ []))
truncated_reasoning_example =
    truncated_reasoning by_model cut_off (2 ∷ []) (3 ∷ 4 ∷ 8 ∷ []) refl (cons_nil 8 (1 ∷ 8 ∷ []))
      (cons_nil 8 (9 ∷ 8 ∷ [])) opened never_closed
