-- ===== src/Reasoning/Streaming.antt =====
-- trainfer/reasoning.py: the specification of the stream, and what a call of `feed` keeps of it.
pub mod Clean
pub mod Chunks
use trainfer.Prelude.{
  ℕ, zero, suc, ◌+◌, ◌-◌, ◌≤◌, ◌<◌, ◌≡◌, ◌≢◌, ◌⊎◌, ltb→lt, refl, ap, sym, ◌∙◌, Bool, true, false,
  Option, none, some, List, [], ◌∷◌, ◌++◌, length, take, drop, take-append-drop, ltb, if◌then◌else◌,
  if_true, if_false, if_elim, Bool-cases, Option-cases, inl, inr, arith, subst,
}
use mathlib.Core.List.{append_assoc, append-nil}
use trainfer.Reasoning.{
  Text, ReasoningParser, split_at, split_end, end_or_mode, after_start, extract_final, Mode,
  pending_start, reasoning, content, ParserState, make_state, all_but, last_of, Fed, feed_content,
  hold, reasoning_turn, pending_turn, feed_reasoning, prepend_content, feed_pending, feed_mode,
  feed, finalize_mode, finalize,
}
use trainfer.Reasoning.Split.{
  then_after, before_all, is_found, split_at-append, split_at_held, split_at-suffix,
  split_at_nothing,
}

-- The specification: how a whole text is split from a mode on.
abbrev pub split_reasoning : Text → Option (Text × Text) → Text × Text
split_reasoning text none = (text, [])
split_reasoning text (some (before, after)) = (before, after)

abbrev pub put_before : Text → Text × Text → Text × Text
put_before before (r, c) = (r, before ++ c)

abbrev pub split_pending : ReasoningParser → Text → Option (Text × Text) → Text × Text
split_pending p text none = ([], text)
split_pending p text (some (before, after)) =
    put_before before (split_reasoning after (split_at p.end_token after))

abbrev pub split_mode : ReasoningParser → Mode → Text → Text × Text
split_mode p pending_start text = split_pending p text (split_at p.start_token text)
split_mode p reasoning text = split_reasoning text (split_at p.end_token text)
split_mode p content text = ([], text)

-- A client that feeds the chunks and then finalizes, with the deltas put together per channel.
unfoldable pub stream : ReasoningParser → ParserState → List Text → Text × Text
stream p s [] = (finalize s).0
stream p s (d ∷ ds) =
    let f = feed p s d in
    let (r, c) = stream p f.state ds in (f.reasoning_delta ++ r, f.content_delta ++ c)

abbrev pub concat : List Text → Text
concat [] = []
concat (d ∷ ds) = d ++ concat ds

-- What a turn of the loop gave out, before what the rest of the stream gives.
abbrev pub joined : Fed → Text × Text → Text × Text
joined f (r, c) = (f.reasoning_delta ++ r, f.content_delta ++ c)

abbrev pub rest_of : ReasoningParser → Fed → Text → Text × Text
rest_of p f rest = split_mode p f.state.mode (f.state.buf ++ rest)

-- The emitted and the held part make up the buffer, and the held part is long enough for a tag.
pub held_parts : (h : ℕ) (buf : Text) → all_but h buf ++ last_of h buf ≡ buf
held_parts zero buf = refl
held_parts (suc h) buf = take-append-drop (length buf - suc h) buf

length-drop : (n : ℕ) (s : Text) → length (drop n s) ≡ length s - n
length-drop zero s = omega arith
length-drop (suc n) [] = omega arith
length-drop (suc n) (c ∷ s) = omega (arith, length-drop n s)

held_long : (h : ℕ) (buf : Text) → h < length buf → h ≤ length (last_of h buf)
held_long zero buf lt = omega arith
held_long (suc h) buf lt = omega (arith, length-drop (length buf - suc h) buf)

-- A search that failed on the buffer sees the rest of the stream only from the held part on.
split_at_rest :
    (tag buf rest : Text)
    → split_at tag buf ≡ none
    → hold tag < length buf
    → split_at tag (buf ++ rest)
      ≡ before_all (all_but (hold tag) buf) (split_at tag (last_of (hold tag) buf ++ rest))
split_at_rest tag buf rest e lt =
    let d = all_but (hold tag) buf in
    let b = last_of (hold tag) buf in
    let parts : d ++ b ≡ buf = held_parts (hold tag) buf in
    let none_yet : is_found (split_at tag (d ++ b)) ≡ false = rw (parts, e) refl in
    let whole : buf ++ rest ≡ d ++ (b ++ rest) =
      ap (λ s. s ++ rest) (sym parts) ∙ append_assoc d b rest in
    ap (split_at tag) whole
    ∙ split_at_held tag d b rest (omega (arith, held_long (hold tag) buf lt)) none_yet

whole_text : (h : ℕ) (buf rest : Text) → buf ++ rest ≡ all_but h buf ++ (last_of h buf ++ rest)
whole_text h buf rest =
    ap (λ s. s ++ rest) (sym (held_parts h buf)) ∙ append_assoc (all_but h buf) (last_of h buf) rest

-- What is given out before a split of the rest is what the split of the whole begins with.
split_reasoning_held :
    (text d later : Text) (o : Option (Text × Text))
    → text ≡ d ++ later
    → split_reasoning text (before_all d o)
      ≡ (d ++ (split_reasoning later o).0, (split_reasoning later o).1)
split_reasoning_held text d later none e = λ i. (e i, [])
split_reasoning_held text d later (some x) e = refl

reasoning_turn_lem :
    (p : ReasoningParser) (buf rest : Text) (o : Option (Text × Text))
    → split_at p.end_token buf ≡ o
    → split_mode p reasoning (buf ++ rest)
      ≡ joined (reasoning_turn p buf o) (rest_of p (reasoning_turn p buf o) rest)
unfolding reasoning_turn feed_content
reasoning_turn_lem p buf rest (some (before, after)) e =
    ap (split_reasoning (buf ++ rest))
      (split_at-append p.end_token buf rest (ap is_found e) ∙ ap (λ o. then_after o rest) e)
    ∙ (λ i. (sym (append-nil before) i, after ++ rest))
reasoning_turn_lem p buf rest none e =
    let h = hold p.end_token in
    if_elim (λ (f : Fed). split_mode p reasoning (buf ++ rest) ≡ joined f (rest_of p f rest))
      (ltb h (length buf)) _ _
      (λ lt.
        ap (split_reasoning (buf ++ rest))
          (split_at_rest p.end_token buf rest e (ltb→lt h (length buf) lt))
        ∙ split_reasoning_held (buf ++ rest) (all_but h buf) (last_of h buf ++ rest)
            (split_at p.end_token (last_of h buf ++ rest)) (whole_text h buf rest))
      (λ _. refl)

feed_reasoning_lem :
    (p : ReasoningParser) (buf rest : Text)
    → split_mode p reasoning (buf ++ rest)
      ≡ joined (feed_reasoning p buf) (rest_of p (feed_reasoning p buf) rest)
unfolding feed_reasoning
feed_reasoning_lem p buf rest = reasoning_turn_lem p buf rest (split_at p.end_token buf) refl

split_pending_held :
    (p : ReasoningParser) (text d later : Text) (o : Option (Text × Text))
    → text ≡ d ++ later
    → split_pending p text (before_all d o)
      ≡ ((split_pending p later o).0, d ++ (split_pending p later o).1)
split_pending_held p text d later none e = λ i. ([], e i)
split_pending_held p text d later (some (before, after)) e =
    let (r, c) = split_reasoning after (split_at p.end_token after) in
    λ i. (r, append_assoc d before c i)

pending_turn_lem :
    (p : ReasoningParser) (buf rest : Text) (o : Option (Text × Text))
    → split_at p.start_token buf ≡ o
    → split_mode p pending_start (buf ++ rest)
      ≡ joined (pending_turn p buf o) (rest_of p (pending_turn p buf o) rest)
unfolding pending_turn
pending_turn_lem p buf rest (some (before, after)) e =
    let f = feed_reasoning p after in
    ap (split_pending p (buf ++ rest))
      (split_at-append p.start_token buf rest (ap is_found e) ∙ ap (λ o. then_after o rest) e)
    ∙ ap (put_before before) (feed_reasoning_lem p after rest)
    ∙ (λ i. (
      f.reasoning_delta ++ (rest_of p f rest).0,
      sym (append_assoc before f.content_delta (rest_of p f rest).1) i,
    ))
pending_turn_lem p buf rest none e =
    let h = hold p.start_token in
    if_elim (λ (f : Fed). split_mode p pending_start (buf ++ rest) ≡ joined f (rest_of p f rest))
      (ltb h (length buf)) _ _
      (λ lt.
        ap (split_pending p (buf ++ rest))
          (split_at_rest p.start_token buf rest e (ltb→lt h (length buf) lt))
        ∙ split_pending_held p (buf ++ rest) (all_but h buf) (last_of h buf ++ rest)
            (split_at p.start_token (last_of h buf ++ rest)) (whole_text h buf rest))
      (λ _. refl)

pub feed_mode_lem :
    (p : ReasoningParser) (m : Mode) (buf rest : Text)
    → split_mode p m (buf ++ rest) ≡ joined (feed_mode p m buf) (rest_of p (feed_mode p m buf) rest)
unfolding feed_mode feed_pending feed_content
feed_mode_lem p pending_start buf rest =
    pending_turn_lem p buf rest (split_at p.start_token buf) refl
feed_mode_lem p reasoning buf rest = feed_reasoning_lem p buf rest
feed_mode_lem p content buf rest = refl
