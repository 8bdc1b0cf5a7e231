-- ===== src/Tests/ObjectiveRuns.antt =====
-- trainfer/objectives: a chat of five tokens, an anchored and an unanchored batch, and a row of two targets.
use trainfer.Prelude.{
  ℕ, suc, ◌≤◌, ◌≡◌, ◌⊎◌, refl, Bool, true, false, Option, none, some, List, [], ◌∷◌, ◌++◌, length,
  take, drop, ◌==◌, if◌then◌else◌,
}
use trainfer.Errors.{ok, raise, value_error}
use trainfer.Objectives.Inputs.{build_chat_inputs, find_boundary, row_positions}
use trainfer.Objectives.Inputs.Boundary.{IsMasked}
use trainfer.Objectives.Inputs.Labels.{masked_labels, count_up, build_chat_inputs-Masks}
use trainfer.Objectives.Unlike.{
  Sample, BatchObjective, wrong_scope, small_rate, check_preconditions, all_warnings, anchor_gate,
  rate_warnings,
}
use trainfer.Objectives.Unlike.Gate.{is_unanchored, scope_warnings, check_preconditions-Gates}
use trainfer.Objectives.Safety.{Scored, safety_monitor, score_rows, score_row, item}
use trainfer.Objectives.Safety.Alarms.{
  flagged, count_flagged, sizes, rows_targets, safety_monitor-Reports,
}

-- The text of the tokens ends in that of token 7.
abbrev last_is_7 : List ℕ → Bool
last_is_7 [] = false
last_is_7 (t ∷ []) = t == 7
last_is_7 (t ∷ u ∷ us) = last_is_7 (u ∷ us)

abbrev prompt : List ℕ
prompt = 1 ∷ 2 ∷ []

abbrev chat : List ℕ
chat = 1 ∷ 2 ∷ 6 ∷ 7 ∷ 8 ∷ 9 ∷ []

masked_run :
    (build_chat_inputs (some last_is_7) 5 prompt chat).labels
    ≡ none ∷ none ∷ none ∷ none ∷ some 8 ∷ []
unfolding build_chat_inputs find_boundary
masked_run = refl

build_chat_inputs-Masks_example :
    let row = build_chat_inputs (some last_is_7) 5 prompt chat in
    let full_ids = take 5 chat in
    (row.input_ids ≡ full_ids)
    × (length row.labels ≡ length full_ids)
    × (length row.attention_mask ≡ length full_ids)
    × ((n masked : ℕ) × ((n ≤ length prompt)
          × ((n ≡ length full_ids) ⊎ (n ≡ length prompt))
          × IsMasked (some last_is_7) n full_ids masked
          × (n ≤ masked)
          × (masked ≤ length full_ids)
          × (row.labels ≡ masked_labels masked full_ids)
          × ((before : ℕ)
              → masked ≡ suc before
              → row_positions row.labels
                ≡ (count_up before (length (drop masked full_ids)), drop masked full_ids))))
build_chat_inputs-Masks_example = build_chat_inputs-Masks (some last_is_7) 5 prompt chat

abbrev push_down : Sample
push_down = record {
  prefix_ids = 3 ∷ 4 ∷ [];
  bad_token_id = some 5;
  good_token_id = none;
  rank_below = none;
  prob_above = none;
}

abbrev prompt_anchor : BatchObjective
prompt_anchor = record { name = "kl_anchor"; scope = none; exclude_token_ids = none }

unanchored_run : check_preconditions (push_down ∷ []) (some []) false (some 10) ≡ raise value_error
unfolding check_preconditions anchor_gate
unanchored_run = refl

anchored_run :
    check_preconditions (push_down ∷ []) (some (prompt_anchor ∷ [])) false (some 10)
    ≡ ok (wrong_scope ∷ small_rate ∷ [])
unfolding check_preconditions anchor_gate all_warnings
anchored_run = refl

check_preconditions-Gates_example :
    check_preconditions (push_down ∷ []) (some (prompt_anchor ∷ [])) false (some 10) ≡ (
      if is_unanchored (push_down ∷ []) (some (prompt_anchor ∷ [])) false
      then raise value_error
      else ok
          (scope_warnings (push_down ∷ []) (some (prompt_anchor ∷ [])) ++ rate_warnings (some 10)))
check_preconditions-Gates_example =
    check_preconditions-Gates (push_down ∷ []) (some (prompt_anchor ∷ [])) false (some 10)

abbrev growers : ℕ → ℕ → ℕ → List ℕ
growers i p t = p ∷ 20 ∷ 30 ∷ []

abbrev watchlists : List (Option (List ℕ))
watchlists = some (5 ∷ []) ∷ []

abbrev report : Scored
report = record {
  grower_sizes = 3 ∷ 3 ∷ [];
  alarm_count = 2;
  watchlist_hits = (0, 4, 20) ∷ (0, 5, 5) ∷ (0, 5, 20) ∷ [];
}

monitored :
    safety_monitor growers watchlists
      (some ((4 ∷ 5 ∷ []) ∷ []))
      (some ((8 ∷ 9 ∷ []) ∷ []))
      true
      none
      (some (20 ∷ []))
      (some 10)
    ≡ ok report
unfolding safety_monitor score_rows score_row item
monitored = refl

safety_monitor-Reports_example :
    let targets =
      rows_targets watchlists none
        (some (20 ∷ []))
        growers
        ((8 ∷ 9 ∷ []) ∷ [])
        0
        ((4 ∷ 5 ∷ []) ∷ []) in
    (report.watchlist_hits ≡ flagged watchlists none (some (20 ∷ [])) growers targets)
    × (report.alarm_count ≡ count_flagged watchlists none (some (20 ∷ [])) growers targets)
    × (report.grower_sizes ≡ sizes watchlists none (some (20 ∷ [])) growers targets)
safety_monitor-Reports_example =
    safety_monitor-Reports watchlists none (some (20 ∷ [])) growers ((4 ∷ 5 ∷ []) ∷ [])
      (some ((8 ∷ 9 ∷ []) ∷ [])) true (some 10) report monitored
