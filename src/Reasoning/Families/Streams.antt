-- ===== src/Reasoning/Families/Streams.antt =====
-- trainfer/reasoning.py: the streams of the registered families.
use trainfer.Prelude.{ℕ, ◌≡◌, ◌≢◌, subst, Option, none, some, List, [], ◌∷◌, if◌then◌else◌, if_elim}
use trainfer.Reasoning.{Text, ReasoningParser, reasoning, pending_start, make_state}
use trainfer.Reasoning.Streaming.{split_mode, stream, concat}
use trainfer.Reasoning.Streaming.Chunks.{stream-split}
use trainfer.Reasoning.Families.{families, any_in, first_match, get_parser_for_model}

IsCons : Text → Type 0
IsCons [] = ⊥
IsCons (c ∷ s) = Unit

abbrev HasTags : ReasoningParser → Type 0
HasTags p = (p.start_token ≢ []) × (p.end_token ≢ [])

abbrev AllTagged : List (List Text × ReasoningParser) → Type 0
AllTagged [] = Unit
AllTagged ((patterns, p) ∷ rest) = HasTags p × AllTagged rest

cons_nil : (c : ℕ) (s : Text) → c ∷ s ≢ []
unfolding IsCons
cons_nil c s h = subst IsCons h tt

families-tagged : AllTagged families
families-tagged = (
  (cons_nil _ _, cons_nil _ _),
  (
    (cons_nil _ _, cons_nil _ _),
    ((cons_nil _ _, cons_nil _ _), ((cons_nil _ _, cons_nil _ _), tt)),
  ),
)

abbrev Tagged : Option ReasoningParser → Type 0
Tagged none = Unit
Tagged (some p) = HasTags p

first_match-Tagged :
    (fs : List (List Text × ReasoningParser)) (needle : Text)
    → AllTagged fs
    → Tagged (first_match fs needle)
unfolding first_match
first_match-Tagged [] needle h = tt
first_match-Tagged ((patterns, p) ∷ rest) needle h =
    if_elim Tagged (any_in patterns needle) _ _ (λ _. h.0) (λ _. first_match-Tagged rest needle h.1)

-- Whatever the model is called: with the parser that the registry gives for it, however its output is
-- cut into chunks, the deltas of the stream put together are one split of the whole output.
pub family-stream :
    (lower : Text → Text) (model_name : Text) (p : ReasoningParser) (ds : List Text)
    → get_parser_for_model lower model_name ≡ some p
    → stream p (make_state p) ds
      ≡ split_mode p (if p.start_in_prompt then reasoning else pending_start) (concat ds)
unfolding get_parser_for_model
family-stream lower model_name p ds h =
    let tags = subst Tagged h (first_match-Tagged families (lower model_name) families-tagged) in
    stream-split p ds tags.0 tags.1
