-- ===== src/Objectives/Inputs.antt =====
-- trainfer/objectives/_utils.py: `build_chat_inputs`, `extract_target_positions` and `pad_and_stack`.
-- The tokenizer is a parameter: the tokens of the prompt and of the whole chat are arguments. A label of
-- -100, which the loss ignores, is `none`.
pub mod Boundary
pub mod Labels
use trainfer.Prelude.{
  ℕ, zero, suc, ◌-◌, Bool, true, false, Option, none, some, List, [], ◌∷◌, ◌++◌, map, length, take,
  drop, leb, ltb, or_default, if◌then◌else◌,
}
use trainfer.Errors.{Result, ok, raise, value_error}

pub record Inputs : Type 0 where
  pub input_ids : List ℕ
  pub labels : List (Option ℕ)
  pub attention_mask : List ℕ

abbrev pub repeat {ℓ} : {A : Type ℓ} → ℕ → A → List A
repeat zero x = []
repeat (suc n) x = x ∷ repeat n x

-- The first of the slices `seen`, and `seen` with more of the tokens one by one, whose text ends as
-- it should; `ends` decodes it. The answer counts from `at`.
unfoldable pub find_boundary : (List ℕ → Bool) → ℕ → List ℕ → List ℕ → Option ℕ
find_boundary ends at seen [] = if ends seen then some at else none
find_boundary ends at seen (id ∷ ids) =
    let later = find_boundary ends (suc at) (seen ++ (id ∷ [])) ids in
    if ends seen then some at else later

-- How many tokens are masked. `ends` is none without a `span_prefix`.
abbrev pub prefix_length : Option (List ℕ → Bool) → ℕ → List ℕ → ℕ
prefix_length none n full_ids = n
prefix_length (some ends) n full_ids = or_default (find_boundary ends n [] (drop n full_ids)) n

-- `labels.extend(full_ids[len(labels):])` where the labels are too short.
abbrev pub extended : List (Option ℕ) → List ℕ → List (Option ℕ)
extended labels full_ids =
    if ltb (length labels) (length full_ids)
    then labels ++ map some (drop (length labels) full_ids)
    else labels

-- Where the prompt has more tokens than the cut chat it is cut as well, so that its length is the lesser.
unfoldable pub build_chat_inputs : Option (List ℕ → Bool) → ℕ → List ℕ → List ℕ → Inputs
build_chat_inputs ends max_len prompt_ids chat_ids =
    let full_ids = take max_len chat_ids in
    let n = length (
      if ltb (length full_ids) (length prompt_ids)
      then take (length full_ids) prompt_ids
      else prompt_ids) in
    let masked = prefix_length ends n full_ids in
    let labels = repeat masked none ++ map some (drop masked full_ids) in
    record {
      input_ids = full_ids;
      labels = extended (take (length full_ids) labels) full_ids;
      attention_mask = repeat (length full_ids) 1;
    }

-- The positions of one row: those before a label that is there, from `at` on, with the labels.
unfoldable pub positions_from : ℕ → List (Option ℕ) → List ℕ × List ℕ
positions_from at [] = ([], [])
positions_from at (none ∷ shifted) = positions_from (suc at) shifted
positions_from at (some t ∷ shifted) =
    let (ps, ts) = positions_from (suc at) shifted in (at ∷ ps, t ∷ ts)

abbrev pub row_positions : List (Option ℕ) → List ℕ × List ℕ
row_positions labels = positions_from 0 (drop 1 labels)

abbrev pub extract_target_positions : List (List (Option ℕ)) → List (List ℕ) × List (List ℕ)
extract_target_positions rows =
    (map (λ row. (row_positions row).0) rows, map (λ row. (row_positions row).1) rows)

abbrev pub max : ℕ → ℕ → ℕ
max a b = if leb a b then b else a

unfoldable pub longest : List Inputs → ℕ
longest [] = 0
longest (t ∷ ts) = max (length t.input_ids) (longest ts)

abbrev pub padded {ℓ} : {A : Type ℓ} → ℕ → A → List A → List A
padded n pad xs = xs ++ repeat (n - length xs) pad

-- One row of the batch.
abbrev pub pad_to : ℕ → ℕ → Inputs → Inputs
pad_to n pad_id t = record {
  input_ids = padded n pad_id t.input_ids;
  labels = padded n none t.labels;
  attention_mask = padded n 0 t.attention_mask;
}

-- `max` of nothing raises.
abbrev pub pad_and_stack : List Inputs → ℕ → Result (List Inputs)
pad_and_stack [] pad_id = raise value_error
pad_and_stack (t ∷ ts) pad_id = ok (map (pad_to (longest (t ∷ ts)) pad_id) (t ∷ ts))
