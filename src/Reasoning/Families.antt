-- ===== src/Reasoning/Families.antt =====
-- trainfer/reasoning.py: the registry of model families. `lower` stands for Python's str.lower.
pub mod Streams
use trainfer.Prelude.{ℕ, Bool, true, false, ◌||◌, Option, none, some, List, [], ◌∷◌, if◌then◌else◌}
use trainfer.Reasoning.{Text, ReasoningParser, starts_with}

-- `in` of Python's str
unfoldable pub contains : Text → Text → Bool
contains p [] = starts_with p []
contains p (c ∷ s) = starts_with p (c ∷ s) || contains p s

-- <think>
abbrev pub think_start : Text
think_start = 60 ∷ 116 ∷ 104 ∷ 105 ∷ 110 ∷ 107 ∷ 62 ∷ []

-- </think>
abbrev pub think_end : Text
think_end = 60 ∷ 47 ∷ 116 ∷ 104 ∷ 105 ∷ 110 ∷ 107 ∷ 62 ∷ []

-- <|channel|>analysis<|message|>
abbrev pub analysis_start : Text
analysis_start =
    60 ∷ 124 ∷ 99 ∷ 104 ∷ 97 ∷ 110 ∷ 110 ∷ 101 ∷ 108 ∷ 124 ∷ 62 ∷ 97 ∷ 110 ∷ 97 ∷ 108 ∷ 121 ∷ 115
    ∷ 105 ∷ 115 ∷ 60 ∷ 124 ∷ 109 ∷ 101 ∷ 115 ∷ 115 ∷ 97 ∷ 103 ∷ 101 ∷ 124 ∷ 62 ∷ []

-- <|end|>
abbrev pub analysis_end : Text
analysis_end = 60 ∷ 124 ∷ 101 ∷ 110 ∷ 100 ∷ 124 ∷ 62 ∷ []

-- qwen3
abbrev qwen3 : Text
qwen3 = 113 ∷ 119 ∷ 101 ∷ 110 ∷ 51 ∷ []

-- deepseek-r1
abbrev deepseek_dash : Text
deepseek_dash = 100 ∷ 101 ∷ 101 ∷ 112 ∷ 115 ∷ 101 ∷ 101 ∷ 107 ∷ 45 ∷ 114 ∷ 49 ∷ []

-- deepseek_r1
abbrev deepseek_underscore : Text
deepseek_underscore = 100 ∷ 101 ∷ 101 ∷ 112 ∷ 115 ∷ 101 ∷ 101 ∷ 107 ∷ 95 ∷ 114 ∷ 49 ∷ []

-- r1-distill
abbrev r1_distill : Text
r1_distill = 114 ∷ 49 ∷ 45 ∷ 100 ∷ 105 ∷ 115 ∷ 116 ∷ 105 ∷ 108 ∷ 108 ∷ []

-- magistral
abbrev magistral : Text
magistral = 109 ∷ 97 ∷ 103 ∷ 105 ∷ 115 ∷ 116 ∷ 114 ∷ 97 ∷ 108 ∷ []

-- gpt-oss
abbrev gpt_oss : Text
gpt_oss = 103 ∷ 112 ∷ 116 ∷ 45 ∷ 111 ∷ 115 ∷ 115 ∷ []

abbrev pub think_parser : Bool → ReasoningParser
think_parser start_in_prompt = record {
  start_token = think_start;
  end_token = think_end;
  start_in_prompt = start_in_prompt;
}

abbrev pub families : List (List Text × ReasoningParser)
families =
    (qwen3 ∷ [], think_parser true)
    ∷ (deepseek_dash ∷ deepseek_underscore ∷ r1_distill ∷ [], think_parser false)
    ∷ (magistral ∷ [], think_parser false)
    ∷ (
      gpt_oss ∷ [],
      record { start_token = analysis_start; end_token = analysis_end; start_in_prompt = false },
    )
    ∷ []

abbrev pub any_in : List Text → Text → Bool
any_in [] needle = false
any_in (p ∷ ps) needle = contains p needle || any_in ps needle

-- The parser of the first family with a pattern in the name.
unfoldable pub first_match : List (List Text × ReasoningParser) → Text → Option ReasoningParser
first_match [] needle = none
first_match ((patterns, parser) ∷ rest) needle =
    let later = first_match rest needle in if any_in patterns needle then some parser else later

unfoldable pub get_parser_for_model : (Text → Text) → Text → Option ReasoningParser
get_parser_for_model lower model_name = first_match families (lower model_name)
