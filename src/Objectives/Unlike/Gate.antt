-- ===== src/Objectives/Unlike/Gate.antt =====
-- trainfer/objectives/unlike.py: when the gate raises, and what it can warn of.
use trainfer.Prelude.{
  ℕ, ◌≡◌, refl, sym, ap, ◌∙◌, Bool, true, false, not, ◌&&◌, ◌||◌, Option, none, some, List, [], ◌∷◌,
  ◌++◌, keep, elem, ◌==◌, ==_iff, str_eq, or_default, if◌then◌else◌, if_true, Bool-cases, inl, inr,
}
use mathlib.Core.List.{append_assoc}
use trainfer.Errors.{ok, raise, value_error}
use trainfer.Objectives.Unlike.{
  Sample, BatchObjective, Warning, wrong_scope, is_pure, is_anchor, is_empty, sample_surgery,
  is_subset, covers, surgery_warnings, all_warnings, anchor_gate, rate_warnings, and_warnings,
  check_preconditions,
}

or_true : (b : Bool) → (b || true) ≡ true
or_true true = refl
or_true false = refl

elem-append : (a : ℕ) (xs ys : List ℕ) → elem a ys ≡ true → elem a (xs ++ ys) ≡ true
elem-append a [] ys h = h
elem-append a (x ∷ xs) ys h = ap (λ b. a == x || b) (elem-append a xs ys h) ∙ or_true (a == x)

elem-head : (a : ℕ) (xs : List ℕ) → elem a (a ∷ xs) ≡ true
elem-head a xs = ap (λ b. b || elem a xs) ((==_iff a a).1 refl)

-- The tokens are among any tokens with them.
subset_self : (xs before : List ℕ) → is_subset xs (before ++ xs) ≡ true
subset_self [] before = refl
subset_self (x ∷ xs) before =
    ap (λ b. b && is_subset xs (before ++ (x ∷ xs)))
      (elem-append x before (x ∷ xs) (elem-head x xs))
    ∙ ap (is_subset xs) (sym (append_assoc before (x ∷ []) xs))
    ∙ subset_self xs (before ++ (x ∷ []))

-- The derived tokens are the surgery tokens, so each sample is covered.
no_surgery_warnings : (exclude : List ℕ) (ss : List Sample) → surgery_warnings exclude ss ≡ []
unfolding surgery_warnings covers
no_surgery_warnings exclude [] = refl
no_surgery_warnings exclude (s ∷ ss) =
    if_true {b = is_subset (sample_surgery s) (exclude ++ sample_surgery s)} _ _
      (subset_self (sample_surgery s) exclude)
    ∙ no_surgery_warnings exclude ss

-- One warning for each anchor of another scope.
abbrev pub wrong_scopes : List BatchObjective → List Warning
wrong_scopes [] = []
wrong_scopes (bo ∷ bos) =
    if str_eq (or_default bo.scope "prompt") "target_position"
    then wrong_scopes bos
    else wrong_scope ∷ wrong_scopes bos

all_warnings_lem :
    (ss : List Sample) (bos : List BatchObjective) → all_warnings ss bos ≡ wrong_scopes bos
unfolding all_warnings
all_warnings_lem ss [] = refl
all_warnings_lem ss (bo ∷ bos) =
    let is_target = str_eq (or_default bo.scope "prompt") "target_position" in
    let rest = all_warnings_lem ss bos in
    elim (Bool-cases is_target) [
      | inl hit ↦ rw hit (
          ap (λ ws. ws ++ all_warnings ss bos)
            (no_surgery_warnings (or_default bo.exclude_token_ids []) ss)
          ∙ rest)
      | inr miss ↦ rw miss (ap (λ ws. wrong_scope ∷ ws) rest)
    ]

-- Whether samples without a positive teacher come without an anchor and without leave.
abbrev pub is_unanchored : List Sample → Option (List BatchObjective) → Bool → Bool
is_unanchored samples none allow = false
is_unanchored samples (some bos) allow =
    not (is_empty (keep is_pure samples)) && (is_empty (keep is_anchor bos) && not allow)

abbrev pub scope_warnings : List Sample → Option (List BatchObjective) → List Warning
scope_warnings samples none = []
scope_warnings samples (some bos) =
    if is_empty (keep is_pure samples) then [] else wrong_scopes (keep is_anchor bos)

anchor_gate_lem :
    (ss : List Sample) (anchors : List BatchObjective) (allow : Bool)
    → anchor_gate ss anchors allow ≡ (
        if not (is_empty ss) && (is_empty anchors && not allow)
        then raise value_error
        else ok (if is_empty ss then [] else wrong_scopes anchors))
unfolding anchor_gate
anchor_gate_lem [] anchors allow = refl
anchor_gate_lem (s ∷ ss) anchors allow =
    ap (λ ws. if is_empty anchors && not allow then raise value_error else ok ws)
      (all_warnings_lem (s ∷ ss) anchors)

-- The gate raises ValueError exactly if some sample has no positive teacher, the batch objectives are given,
-- none of them is a KL anchor, and that is not allowed. Otherwise it warns, once for each
-- anchor of a scope other than the target position if some sample has no positive teacher, and of a
-- learning rate below the floor; and of nothing else, so never of an anchor that holds the surgery tokens.
pub check_preconditions-Gates :
    (samples : List Sample) (bos : Option (List BatchObjective)) (allow : Bool) (lr : Option ℕ)
    → check_preconditions samples bos allow lr ≡ (
        if is_unanchored samples bos allow
        then raise value_error
        else ok (scope_warnings samples bos ++ rate_warnings lr))
unfolding check_preconditions
check_preconditions-Gates samples none allow lr = refl
check_preconditions-Gates samples (some bos) allow lr =
    ap (λ r. and_warnings r (rate_warnings lr))
      (anchor_gate_lem (keep is_pure samples) (keep is_anchor bos) allow)
    ∙ if_both (is_unanchored samples (some bos) allow) (scope_warnings samples (some bos))
  where
    if_both :
        (b : Bool) (ws : List Warning)
        → and_warnings (if b then raise value_error else ok ws) (rate_warnings lr)
          ≡ (if b then raise value_error else ok (ws ++ rate_warnings lr))
    if_both true ws = refl
    if_both false ws = refl
