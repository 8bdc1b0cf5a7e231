-- ===== src/Objectives/Unlike.antt =====
-- trainfer/objectives/unlike.py: the gate of `_check_preconditions`, the trigger, the padding of the
-- prefixes and the target positions. A learning rate is in millionths, a probability in parts of 10000.
pub mod Gate
use trainfer.Prelude.{
  ℕ, suc, ◌+◌, ◌-◌, String, Bool, true, false, not, ◌&&◌, ◌||◌, Option, none, some, List, [], ◌∷◌,
  ◌++◌, map, length, keep, ltb, elem, or_default, str_eq, if◌then◌else◌,
}
use trainfer.Errors.{Result, ok, raise, value_error}
use trainfer.Objectives.Inputs.{repeat, max, padded}

-- `prefix_ids` are the tokens of the prefix. An absent threshold is `none`, and a null one `some none`.
pub record Sample : Type 0 where
  pub prefix_ids : List ℕ
  pub bad_token_id : Option ℕ
  pub good_token_id : Option ℕ
  pub rank_below : Option (Option ℕ)
  pub prob_above : Option (Option ℕ)

pub record BatchObjective : Type 0 where
  pub name : String
  pub scope : Option String
  pub exclude_token_ids : Option (List ℕ)

pub data Warning : Type 0 where
  -- the anchor's scope is not that of the push-down
  wrong_scope : Warning
  -- the anchor holds the surgery tokens
  fights_surgery : Warning
  small_rate : Warning

abbrev pub lr_floor : ℕ
lr_floor = 50

abbrev pub is_none {ℓ} : {A : Type ℓ} → Option A → Bool
is_none none = true
is_none (some a) = false

abbrev pub is_empty {ℓ} : {A : Type ℓ} → List A → Bool
is_empty [] = true
is_empty (x ∷ xs) = false

abbrev pub is_pure : Sample → Bool
is_pure s = is_none s.good_token_id

abbrev pub is_anchor : BatchObjective → Bool
is_anchor bo = str_eq bo.name "kl_anchor"

-- A set without None.
abbrev pub with_id : Option ℕ → List ℕ → List ℕ
with_id none ids = ids
with_id (some id) ids = id ∷ ids

abbrev pub sample_surgery : Sample → List ℕ
sample_surgery s = with_id s.bad_token_id (with_id s.good_token_id [])

abbrev pub is_subset : List ℕ → List ℕ → Bool
is_subset [] ids = true
is_subset (id ∷ rest) ids = elem id ids && is_subset rest ids

-- The tokens that the anchor leaves out for the sample: the batch's and the derived ones.
unfoldable pub covers : List ℕ → Sample → Bool
covers batch_exclude s =
    let per_sample_derived = sample_surgery s in
    is_subset (sample_surgery s) (batch_exclude ++ per_sample_derived)

unfoldable pub surgery_warnings : List ℕ → List Sample → List Warning
surgery_warnings batch_exclude [] = []
surgery_warnings batch_exclude (s ∷ ss) =
    let rest = surgery_warnings batch_exclude ss in
    if covers batch_exclude s then rest else fights_surgery ∷ rest

abbrev pub anchor_warnings : List Sample → BatchObjective → List Warning
anchor_warnings pure_samples bo =
    if str_eq (or_default bo.scope "prompt") "target_position"
    then surgery_warnings (or_default bo.exclude_token_ids []) pure_samples
    else wrong_scope ∷ []

unfoldable pub all_warnings : List Sample → List BatchObjective → List Warning
all_warnings pure_samples [] = []
all_warnings pure_samples (bo ∷ bos) =
    anchor_warnings pure_samples bo ++ all_warnings pure_samples bos

unfoldable pub anchor_gate : List Sample → List BatchObjective → Bool → Result (List Warning)
anchor_gate [] anchors allow_unanchored = ok []
anchor_gate (s ∷ ss) anchors allow_unanchored =
    if is_empty anchors && not allow_unanchored
    then raise value_error
    else ok (all_warnings (s ∷ ss) anchors)

abbrev pub rate_warnings : Option ℕ → List Warning
rate_warnings none = []
rate_warnings (some lr) = if ltb lr lr_floor then small_rate ∷ [] else []

abbrev pub and_warnings : Result (List Warning) → List Warning → Result (List Warning)
and_warnings (ok ws) more = ok (ws ++ more)
and_warnings (raise e) more = raise e

-- Without `batch_objectives` the tiers on the anchor's shape are skipped.
abbrev pub shape_gate : List Sample → Option (List BatchObjective) → Bool → Result (List Warning)
shape_gate samples none allow_unanchored = ok []
shape_gate samples (some bos) allow_unanchored =
    anchor_gate (keep is_pure samples) (keep is_anchor bos) allow_unanchored

unfoldable pub check_preconditions :
    List Sample → Option (List BatchObjective) → Bool → Option ℕ → Result (List Warning)
check_preconditions samples batch_objectives allow_unanchored effective_lr =
    and_warnings (shape_gate samples batch_objectives allow_unanchored) (rate_warnings effective_lr)

abbrev pub is_below : ℕ → Option ℕ → Bool
is_below n none = false
is_below n (some bound) = ltb n bound

abbrev pub is_over : ℕ → Option ℕ → Bool
is_over n none = false
is_over n (some bound) = ltb bound n

unfoldable pub should_trigger : ℕ → ℕ → Option ℕ → Option ℕ → Result Bool
should_trigger rank_bad p_bad rank_below prob_above =
    if is_none rank_below && is_none prob_above
    then raise value_error
    else ok (is_below rank_bad rank_below || is_over p_bad prob_above)

abbrev pub mask_with : Result Bool → Result (List Bool) → Result (List Bool)
mask_with (raise e) later = raise e
mask_with (ok b) (ok bs) = ok (b ∷ bs)
mask_with (ok b) (raise e) = raise e

-- The trigger of each sample, with its rank and probability; a sample's own thresholds come first.
unfoldable pub trigger_mask : Option ℕ → Option ℕ → List (Sample × (ℕ × ℕ)) → Result (List Bool)
trigger_mask default_rank default_prob [] = ok []
trigger_mask default_rank default_prob ((s, (rank_bad, p_bad)) ∷ rest) =
    mask_with
      (should_trigger rank_bad p_bad (or_default s.rank_below default_rank)
        (or_default s.prob_above default_prob))
      (trigger_mask default_rank default_prob rest)

unfoldable pub longest_prefix : List (List ℕ) → ℕ
longest_prefix [] = 0
longest_prefix (t ∷ ts) = max (length t) (longest_prefix ts)

-- A row of `_pad_prefixes`; no prefix is empty.
pub record PaddedPrefix : Type 0 where
  pub input_ids : List ℕ
  pub attention_mask : List ℕ
  pub last_idx : ℕ

abbrev pub pad_prefix : ℕ → ℕ → List ℕ → PaddedPrefix
pad_prefix max_len pad_id t = record {
  input_ids = padded max_len pad_id t;
  attention_mask = padded max_len 0 (repeat (length t) 1);
  last_idx = length t - 1;
}

abbrev pub pad_prefixes : List (List ℕ) → ℕ → List PaddedPrefix
pad_prefixes tokenized pad_id = map (pad_prefix (longest_prefix tokenized) pad_id) tokenized

abbrev pub by_teacher : Option ℕ → ℕ → List ℕ × List ℕ
by_teacher none last = ([], [])
by_teacher (some good) last = (last ∷ [], good ∷ [])

-- The target of a sample: the last position of its prefix where it has a positive teacher.
abbrev pub target_of : Sample → List ℕ × List ℕ
target_of s = by_teacher s.good_token_id (length s.prefix_ids - 1)

abbrev pub target_positions : List Sample → List (List ℕ) × List (List ℕ)
target_positions samples = (map (λ s. (target_of s).0) samples, map (λ s. (target_of s).1) samples)
