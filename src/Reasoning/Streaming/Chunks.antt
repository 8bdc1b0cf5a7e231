-- ===== src/Reasoning/Streaming/Chunks.antt =====
-- trainfer/reasoning.py: the streamed deltas add up to one split of the whole text, however the
-- stream is cut into chunks, and how that compares with `extract_final`.
use trainfer.Prelude.{
  ◌≡◌, ◌≢◌, refl, ap, sym, ◌∙◌, true, false, Option, none, some, List, [], ◌++◌, if◌then◌else◌,
  if_true, if_false,
}
use trainfer.Reasoning.{
  Text, ReasoningParser, split_at, split_end, end_or_mode, after_start, extract_final,
  pending_start, reasoning, make_state,
}
use trainfer.Reasoning.Streaming.{
  split_reasoning, put_before, split_pending, split_mode, stream, concat,
}
use trainfer.Reasoning.Streaming.Clean.{stream-split_mode, make_state-IsClean}

-- However a text is cut into chunks, the deltas of `feed` and `finalize` put together are one split
-- of the whole text, from the mode that the family starts in: with `start_in_prompt` at the first
-- end tag, and else at the first start tag, whose text before it is content, and the first end tag
-- after that. The two tags are not empty.
pub stream-split :
    (p : ReasoningParser) (ds : List Text)
    → p.start_token ≢ []
    → p.end_token ≢ []
    → stream p (make_state p) ds
      ≡ split_mode p (if p.start_in_prompt then reasoning else pending_start) (concat ds)
stream-split p ds hs he =
    stream-split_mode p (make_state p) ds (make_state-IsClean p hs he) ∙ (unfold make_state in refl)

split_end_in_prompt :
    (p : ReasoningParser) (text : Text) (o : Option (Text × Text))
    → p.start_in_prompt ≡ true
    → end_or_mode p text o ≡ split_reasoning text o
split_end_in_prompt p text none h = if_true _ _ h
split_end_in_prompt p text (some x) h = refl

extract_final_in_prompt :
    (p : ReasoningParser) (text : Text)
    → p.start_in_prompt ≡ true
    → extract_final p text ≡ end_or_mode p text (split_at p.end_token text)
unfolding extract_final split_end
extract_final_in_prompt p text h = if_true _ _ h

extract_final_opened :
    (p : ReasoningParser) (text before after : Text)
    → p.start_in_prompt ≡ false
    → split_at p.start_token text ≡ some (before, after)
    → extract_final p text ≡ end_or_mode p after (split_at p.end_token after)
unfolding extract_final split_end
extract_final_opened p text before after h e =
    if_false _ _ h
    ∙ ap (λ o. end_or_mode p (after_start text o) (split_at p.end_token (after_start text o))) e

-- For a family that opens the reasoning itself, a text cut off inside the reasoning is content for
-- `extract_final`, without its opening tag and what stood before it, and reasoning for the stream.
-- The two tags are not empty, and the text holds a start tag and no end tag after it.
pub truncated_reasoning :
    (p : ReasoningParser) (ds : List Text) (before after : Text)
    → p.start_in_prompt ≡ false
    → p.start_token ≢ []
    → p.end_token ≢ []
    → split_at p.start_token (concat ds) ≡ some (before, after)
    → split_at p.end_token after ≡ none
    → (extract_final p (concat ds) ≡ ([], after))
      × (stream p (make_state p) ds ≡ (after, before ++ []))
truncated_reasoning p ds before after h hs he opened never = (
  extract_final_opened p (concat ds) before after h opened
      ∙ ap (end_or_mode p after) never
      ∙ if_false _ _ h,
  stream-split p ds hs he
      ∙ ap (λ m. split_mode p m (concat ds)) (if_false reasoning pending_start h)
      ∙ ap (split_pending p (concat ds)) opened
      ∙ ap (λ o. put_before before (split_reasoning after o)) never,
)

-- For a family whose start tag stands in the prompt, streaming a text in any chunks gives what
-- `extract_final` gives for the whole. The two tags are not empty.
pub stream-extract_final :
    (p : ReasoningParser) (ds : List Text)
    → p.start_in_prompt ≡ true
    → p.start_token ≢ []
    → p.end_token ≢ []
    → stream p (make_state p) ds ≡ extract_final p (concat ds)
stream-extract_final p ds h hs he =
    stream-split p ds hs he
    ∙ ap (λ m. split_mode p m (concat ds)) (if_true reasoning pending_start h)
    ∙ sym (split_end_in_prompt p (concat ds) (split_at p.end_token (concat ds)) h)
    ∙ sym (extract_final_in_prompt p (concat ds) h)
