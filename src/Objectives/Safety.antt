-- ===== src/Objectives/Safety.antt =====
-- trainfer/objectives/safety.py: the watchlists and the scoring of `safety_monitor_loss`. The argument
-- `growers` stands for the model's forward pass and the threshold of a step: the tokens of the tail that
-- would grow at a position of a row. The means and the thresholds that are reported are left out.
pub mod Watched
pub mod Alarms
use trainfer.Prelude.{
  ℕ, zero, suc, ◌+◌, Bool, true, false, Option, none, some, List, [], ◌∷◌, ◌++◌, map, length, keep,
  leb, elem, ◌==◌, or_default, if◌then◌else◌,
}
use trainfer.Errors.{Result, ok, raise, value_error, runtime_error, foreign}

-- A set of tokens is a list of its members.
abbrev pub resolve_watchlist :
    List (Option (List ℕ)) → Option (List ℕ) → Option (List ℕ) → List (List ℕ)
resolve_watchlist samples batch_watchlist default_watchlist =
    let base = or_default default_watchlist [] ++ or_default batch_watchlist [] in
    map (λ sample_watchlist. base ++ or_default sample_watchlist []) samples

-- An index out of range raises IndexError.
abbrev pub index_error : ℕ
index_error = 4

unfoldable pub item {ℓ} : {A : Type ℓ} → ℕ → List A → Result A
item i [] = raise (foreign index_error)
item zero (x ∷ xs) = ok x
item (suc i) (x ∷ xs) = item i xs

pub record Scored : Type 0 where
  pub grower_sizes : List ℕ
  pub alarm_count : ℕ
  -- sample, position and token
  pub watchlist_hits : List (ℕ × ℕ × ℕ)

abbrev pub none_scored : Scored
none_scored = record { grower_sizes = []; alarm_count = 0; watchlist_hits = [] }

abbrev pub then_score : {A : Type 0} → Result A → (A → Result Scored) → Result Scored
then_score (ok a) f = f a
then_score (raise e) f = raise e

abbrev pub watched_in : Result (List ℕ) → List ℕ → Result (List ℕ)
watched_in (raise e) gs = raise e
watched_in (ok watch_set) gs = ok (keep (λ g. elem g watch_set) gs)

-- The growers that are watched. The sample's watchlist is only looked at for a grower.
abbrev pub watched : List (List ℕ) → ℕ → List ℕ → Result (List ℕ)
watched watch_sets i [] = ok []
watched watch_sets i (g ∷ gs) = watched_in (item i watch_sets) (g ∷ gs)

abbrev pub note_hits : ℕ → ℕ → ℕ → List ℕ → Scored → Scored
note_hits i p size [] sc = record sc { grower_sizes = sc.grower_sizes ++ (size ∷ []) }
note_hits i p size (g ∷ gs) sc = record {
  grower_sizes = sc.grower_sizes ++ (size ∷ []);
  alarm_count = suc sc.alarm_count;
  watchlist_hits = sc.watchlist_hits ++ map (λ h. (i, p, h)) (g ∷ gs);
}

-- `target_token_ids[i] if target_token_ids else []`.
abbrev pub tokens_of : List (List ℕ) → ℕ → Result (List ℕ)
tokens_of [] i = ok []
tokens_of (row ∷ rows) i = item i (row ∷ rows)

module _ (growers : ℕ → ℕ → ℕ → List ℕ) (watch_sets : List (List ℕ)) where
  -- The positions of a row with their tokens.
  unfoldable pub score_row : ℕ → List ℕ → List ℕ → Scored → Result Scored
  score_row i [] tokens sc = ok sc
  score_row i (p ∷ ps) [] sc = ok sc
  score_row i (p ∷ ps) (t ∷ ts) sc =
      let found = growers i p t in
      then_score (watched watch_sets i found)
        (λ hits. score_row i ps ts (note_hits i p (length found) hits sc))

  abbrev pub score_checked : ℕ → List ℕ → List ℕ → Scored → Result Scored
  score_checked i positions tokens sc =
      if length tokens == length positions
      then score_row i positions tokens sc
      else raise value_error

  abbrev pub score_positions : List (List ℕ) → ℕ → List ℕ → Scored → Result Scored
  score_positions token_ids i [] sc = ok sc
  score_positions token_ids i (p ∷ ps) sc =
      then_score (tokens_of token_ids i) (λ tokens. score_checked i (p ∷ ps) tokens sc)

  unfoldable pub score_rows : List (List ℕ) → ℕ → List (List ℕ) → Scored → Result Scored
  score_rows token_ids i [] sc = ok sc
  score_rows token_ids i (row ∷ rows) sc =
      then_score (score_positions token_ids i row sc) (λ sc'. score_rows token_ids (suc i) rows sc')

abbrev pub has_any_position : List (List ℕ) → Bool
has_any_position [] = false
has_any_position ([] ∷ rows) = has_any_position rows
has_any_position ((p ∷ ps) ∷ rows) = true

abbrev pub is_positive : Option ℕ → Bool
is_positive none = false
is_positive (some lr) = leb 1 lr

-- The report of `safety_monitor_loss`, whose loss is always zero. A weight is only warned of.
unfoldable pub safety_monitor :
    (ℕ → ℕ → ℕ → List ℕ)
    → List (Option (List ℕ))
    → Option (List (List ℕ))
    → Option (List (List ℕ))
    → Bool
    → Option (List ℕ)
    → Option (List ℕ)
    → Option ℕ
    → Result Scored
safety_monitor growers samples none token_ids has_input_ids watchlist default_watchlist
      effective_lr =
    raise runtime_error
safety_monitor growers samples (some positions) token_ids has_input_ids watchlist default_watchlist
      effective_lr =
    if has_any_position positions
    then if is_positive effective_lr
      then if has_input_ids
        then score_rows growers (resolve_watchlist samples watchlist default_watchlist)
            (or_default token_ids []) 0 positions none_scored
        else raise runtime_error
      else raise value_error
    else ok none_scored
