-- ===== src/Reasoning/Streaming/Clean.antt =====
-- trainfer/reasoning.py: between two calls of `feed` the buffer holds no whole tag, so `finalize`
-- flushes it as the specification wants.
use trainfer.Prelude.{
  ℕ, ◌≡◌, ◌≢◌, refl, ap, sym, ◌∙◌, false, Option, none, some, List, [], ◌∷◌, ◌++◌, length, ltb,
  if_elim,
}
use mathlib.Core.List.{append_assoc, append-nil}
use trainfer.Reasoning.{
  Text, ReasoningParser, split_at, Mode, pending_start, reasoning, content, ParserState, make_state,
  all_but, last_of, Fed, feed_content, hold, reasoning_turn, pending_turn, feed_reasoning,
  feed_pending, feed_mode, feed, finalize_mode, finalize,
}
use trainfer.Reasoning.Split.{is_found, split_at-suffix, split_at_nothing}
use trainfer.Reasoning.Streaming.{
  split_reasoning, split_pending, split_mode, stream, concat, joined, rest_of, held_parts,
  feed_mode_lem,
}

-- Between two calls the buffer holds no whole tag.
abbrev pub IsClean : ReasoningParser → Mode → Text → Type 0
IsClean p pending_start buf = is_found (split_at p.start_token buf) ≡ false
IsClean p reasoning buf = is_found (split_at p.end_token buf) ≡ false
IsClean p content buf = Unit

abbrev CleanFed : ReasoningParser → Fed → Type 0
CleanFed p f = IsClean p f.state.mode f.state.buf

last_of-clean :
    (tag : Text) (h : ℕ) (buf : Text)
    → is_found (split_at tag buf) ≡ false
    → is_found (split_at tag (last_of h buf)) ≡ false
last_of-clean tag h buf e =
    split_at-suffix tag (all_but h buf) (last_of h buf) (rw (held_parts h buf) e)

reasoning_turn-clean :
    (p : ReasoningParser) (buf : Text) (o : Option (Text × Text))
    → split_at p.end_token buf ≡ o
    → CleanFed p (reasoning_turn p buf o)
unfolding reasoning_turn feed_content
reasoning_turn-clean p buf (some x) e = tt
reasoning_turn-clean p buf none e =
    let h = hold p.end_token in
    if_elim (CleanFed p) (ltb h (length buf)) _ _
      (λ _. last_of-clean p.end_token h buf (ap is_found e)) (λ _. ap is_found e)

pending_turn-clean :
    (p : ReasoningParser) (buf : Text) (o : Option (Text × Text))
    → split_at p.start_token buf ≡ o
    → CleanFed p (pending_turn p buf o)
unfolding pending_turn feed_reasoning
pending_turn-clean p buf (some (before, after)) e =
    reasoning_turn-clean p after (split_at p.end_token after) refl
pending_turn-clean p buf none e =
    let h = hold p.start_token in
    if_elim (CleanFed p) (ltb h (length buf)) _ _
      (λ _. last_of-clean p.start_token h buf (ap is_found e)) (λ _. ap is_found e)

feed_mode-clean : (p : ReasoningParser) (m : Mode) (buf : Text) → CleanFed p (feed_mode p m buf)
unfolding feed_mode feed_pending feed_reasoning feed_content
feed_mode-clean p pending_start buf = pending_turn-clean p buf (split_at p.start_token buf) refl
feed_mode-clean p reasoning buf = reasoning_turn-clean p buf (split_at p.end_token buf) refl
feed_mode-clean p content buf = tt

not_found : (o : Option (Text × Text)) → is_found o ≡ false → o ≡ none
not_found none h = refl
not_found (some x) h = cc

finalize_lem :
    (p : ReasoningParser) (m : Mode) (buf : Text)
    → IsClean p m buf
    → finalize_mode m buf ≡ split_mode p m buf
unfolding finalize_mode
finalize_lem p pending_start buf h =
    sym (ap (split_pending p buf) (not_found (split_at p.start_token buf) h))
finalize_lem p reasoning buf h =
    sym (ap (split_reasoning buf) (not_found (split_at p.end_token buf) h))
finalize_lem p content buf h = refl

stream-cons :
    (p : ReasoningParser) (s : ParserState) (d : Text) (ds : List Text)
    → let f = feed_mode p s.mode (s.buf ++ d) in
      stream p s (d ∷ ds) ≡ joined f (stream p f.state ds)
unfolding stream feed
stream-cons p s d ds = refl

pub stream-split_mode :
    (p : ReasoningParser) (s : ParserState) (ds : List Text)
    → IsClean p s.mode s.buf
    → stream p s ds ≡ split_mode p s.mode (s.buf ++ concat ds)
stream-split_mode p s [] h =
    let end : stream p s [] ≡ split_mode p s.mode s.buf =
      unfold stream finalize in finalize_lem p s.mode s.buf h in
    end ∙ ap (split_mode p s.mode) (sym (append-nil s.buf))
stream-split_mode p s (d ∷ ds) h =
    let buf = s.buf ++ d in
    let f = feed_mode p s.mode buf in
    let later : stream p f.state ds ≡ rest_of p f (concat ds) =
      stream-split_mode p f.state ds (feed_mode-clean p s.mode buf) in
    stream-cons p s d ds
    ∙ ap (joined f) later
    ∙ sym (feed_mode_lem p s.mode buf (concat ds))
    ∙ ap (split_mode p s.mode) (append_assoc s.buf d (concat ds))

pub make_state-IsClean :
    (p : ReasoningParser)
    → p.start_token ≢ []
    → p.end_token ≢ []
    → IsClean p (make_state p).mode (make_state p).buf
unfolding make_state
make_state-IsClean p hs he =
    if_elim (λ (m : Mode). IsClean p m []) p.start_in_prompt _ _
      (λ _. split_at_nothing p.end_token he) (λ _. split_at_nothing p.start_token hs)
