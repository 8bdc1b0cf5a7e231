-- ===== src/Reasoning.antt =====
-- trainfer/reasoning.py: the split of model output into reasoning and content, for a whole text
-- (`extract_final`) and for a stream of deltas (`ParserState.feed`, `finalize`). A text is the list
-- of its code points. `find` and `partition` of Python's str are written out as `split_at`.
pub mod Split
pub mod Streaming
pub mod Families
use trainfer.Prelude.{
  ℕ, zero, suc, ◌-◌, Bool, true, false, ◌&&◌, Option, none, some, List, [], ◌∷◌, ◌++◌, length, take,
  drop, ltb, ◌==◌, if◌then◌else◌,
}

abbrev pub Text : Type 0
Text = List ℕ

pub record ReasoningParser : Type 0 where
  pub start_token : Text
  pub end_token : Text
  pub start_in_prompt : Bool

-- str.startswith
unfoldable pub starts_with : Text → Text → Bool
starts_with [] s = true
starts_with (c ∷ tag) [] = false
starts_with (c ∷ tag) (d ∷ s) = (c == d) && starts_with tag s

abbrev pub cons_before : ℕ → Option (Text × Text) → Option (Text × Text)
cons_before c none = none
cons_before c (some (before, after)) = some (c ∷ before, after)

-- The text before the first occurrence of `tag`, and the text after it.
unfoldable pub split_at : Text → Text → Option (Text × Text)
split_at tag [] = if starts_with tag [] then some ([], []) else none
split_at tag (c ∷ s) =
    let rest = cons_before c (split_at tag s) in
    if starts_with tag (c ∷ s) then some ([], drop (length tag) (c ∷ s)) else rest

-- `end_token` splits the text, or the mode of the family says what a text without it is.
abbrev pub end_or_mode : ReasoningParser → Text → Option (Text × Text) → Text × Text
end_or_mode p text none = if p.start_in_prompt then (text, []) else ([], text)
end_or_mode p text (some (reasoning, content)) = (reasoning, content)

unfoldable pub split_end : ReasoningParser → Text → Text × Text
split_end p text = end_or_mode p text (split_at p.end_token text)

abbrev pub after_start : Text → Option (Text × Text) → Text
after_start text none = text
after_start text (some (before, after)) = after

unfoldable pub extract_final : ReasoningParser → Text → Text × Text
unfolding split_end
extract_final p full_text =
    if p.start_in_prompt
    then split_end p full_text
    else split_end p (after_start full_text (split_at p.start_token full_text))

pub data Mode : Type 0 where
  pending_start reasoning content : Mode

pub record ParserState : Type 0 where
  pub mode : Mode
  pub buf : Text

unfoldable pub make_state : ReasoningParser → ParserState
make_state p = record { mode = if p.start_in_prompt then reasoning else pending_start; buf = [] }

-- buf[:-hold] and buf[-hold:], where a `hold` of 0 makes them the empty text and the whole
abbrev pub all_but : ℕ → Text → Text
all_but zero buf = []
all_but (suc h) buf = take (length buf - suc h) buf

abbrev pub last_of : ℕ → Text → Text
last_of zero buf = buf
last_of (suc h) buf = drop (length buf - suc h) buf

-- What a call of `feed` gives out: the reasoning delta, the content delta, and the new state.
pub record Fed : Type 0 where
  pub reasoning_delta : Text
  pub content_delta : Text
  pub state : ParserState

-- One turn of the loop in `feed` for each mode: a found tag moves on to the next mode's turn with
-- the text after it; the other turns end the loop.
unfoldable pub feed_content : Text → Fed
feed_content buf = record {
  reasoning_delta = [];
  content_delta = buf;
  state = record { mode = content; buf = [] };
}

abbrev pub hold : Text → ℕ
hold tag = length tag - 1

unfoldable pub reasoning_turn : ReasoningParser → Text → Option (Text × Text) → Fed
unfolding feed_content
reasoning_turn p buf (some (before, after)) = record (feed_content after) {
  reasoning_delta = before;
}
reasoning_turn p buf none =
    let h = hold p.end_token in
    if ltb h (length buf)
    then record {
      reasoning_delta = all_but h buf;
      content_delta = [];
      state = record { mode = reasoning; buf = last_of h buf };
    }
    else record {
      reasoning_delta = [];
      content_delta = [];
      state = record { mode = reasoning; buf = buf };
    }

unfoldable pub feed_reasoning : ReasoningParser → Text → Fed
feed_reasoning p buf = reasoning_turn p buf (split_at p.end_token buf)

abbrev pub prepend_content : Text → Fed → Fed
prepend_content before f = record f { content_delta = before ++ f.content_delta }

unfoldable pub pending_turn : ReasoningParser → Text → Option (Text × Text) → Fed
pending_turn p buf (some (before, after)) = prepend_content before (feed_reasoning p after)
pending_turn p buf none =
    let h = hold p.start_token in
    if ltb h (length buf)
    then record {
      reasoning_delta = [];
      content_delta = all_but h buf;
      state = record { mode = pending_start; buf = last_of h buf };
    }
    else record {
      reasoning_delta = [];
      content_delta = [];
      state = record { mode = pending_start; buf = buf };
    }

unfoldable pub feed_pending : ReasoningParser → Text → Fed
feed_pending p buf = pending_turn p buf (split_at p.start_token buf)

unfoldable pub feed_mode : ReasoningParser → Mode → Text → Fed
feed_mode p pending_start buf = feed_pending p buf
feed_mode p reasoning buf = feed_reasoning p buf
feed_mode p content buf = feed_content buf

unfoldable pub feed : ReasoningParser → ParserState → Text → Fed
unfolding feed_mode feed_pending feed_reasoning pending_turn reasoning_turn feed_content
feed p s delta = feed_mode p s.mode (s.buf ++ delta)

unfoldable pub finalize_mode : Mode → Text → Text × Text
finalize_mode reasoning tail = (tail, [])
finalize_mode _ tail = ([], tail)

-- `finalize` also empties the buffer.
unfoldable pub finalize : ParserState → (Text × Text) × ParserState
unfolding finalize_mode
finalize s = (finalize_mode s.mode s.buf, record s { buf = [] })
