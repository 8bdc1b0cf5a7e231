-- ===== src/Objectives/Safety/Alarms.antt =====
-- trainfer/objectives/safety.py: the monitor reports each watched grower and nothing else.
use mathlib.Core.List.{append_assoc, append-nil}
use trainfer.Prelude.{
  ℕ, suc, ◌+◌, ◌≡◌, refl, sym, ap, subst, ◌∙◌, inl, inr, Bool, false, Option, some, List, [], ◌∷◌,
  ◌++◌, map, length, keep, ◌==◌, or_default, if_true, if_false, Bool-cases, arith,
}
use trainfer.Errors.{Result, ok, raise, value_error, runtime_error}
use trainfer.Objectives.Safety.{
  Scored, none_scored, watched, note_hits, score_row, tokens_of, score_checked, score_positions,
  score_rows, has_any_position, is_positive, safety_monitor,
}
use trainfer.Objectives.Safety.Watched.{then_ok, ok_inj, is_watched, all_watched, sets}

module _ (samples : List (Option (List ℕ))) (watchlist default_watchlist : Option (List ℕ))
    (growers : ℕ → ℕ → ℕ → List ℕ) where
  -- The watched growers of the targets, in order.
  abbrev pub flagged : List (ℕ × ℕ × ℕ) → List (ℕ × ℕ × ℕ)
  flagged [] = []
  flagged ((i, p, t) ∷ targets) =
      map (λ g. (i, p, g)) (keep (is_watched samples watchlist default_watchlist i) (growers i p t))
      ++ flagged targets

  abbrev pub count_if_any : List ℕ → ℕ
  count_if_any [] = 0
  count_if_any (g ∷ gs) = 1

  -- How many targets have a watched grower.
  abbrev pub count_flagged : List (ℕ × ℕ × ℕ) → ℕ
  count_flagged [] = 0
  count_flagged ((i, p, t) ∷ targets) =
      count_if_any (keep (is_watched samples watchlist default_watchlist i) (growers i p t))
      + count_flagged targets

  abbrev pub sizes : List (ℕ × ℕ × ℕ) → List ℕ
  sizes [] = []
  sizes ((i, p, t) ∷ targets) = length (growers i p t) ∷ sizes targets

  -- What has been scored is that of these targets on top of what was there.
  abbrev IsScored : List (ℕ × ℕ × ℕ) → Scored → Scored → Type 0
  IsScored targets sc sc' =
      (sc'.watchlist_hits ≡ sc.watchlist_hits ++ flagged targets)
      × (sc'.alarm_count ≡ sc.alarm_count + count_flagged targets)
      × (sc'.grower_sizes ≡ sc.grower_sizes ++ sizes targets)

  noted :
      (i p size : ℕ) (hits : List ℕ) (sc : Scored)
      → let sc' = note_hits i p size hits sc in
        (sc'.watchlist_hits ≡ sc.watchlist_hits ++ map (λ g. (i, p, g)) hits)
        × (sc'.alarm_count ≡ sc.alarm_count + count_if_any hits)
        × (sc'.grower_sizes ≡ sc.grower_sizes ++ (size ∷ []))
  noted i p size [] sc = (sym (append-nil sc.watchlist_hits), omega arith, refl)
  noted i p size (g ∷ gs) sc = (refl, omega arith, refl)

  one_more :
      (i p t : ℕ) (targets : List (ℕ × ℕ × ℕ)) (hits : List ℕ) (sc sc' : Scored)
      → hits ≡ keep (is_watched samples watchlist default_watchlist i) (growers i p t)
      → IsScored targets (note_hits i p (length (growers i p t)) hits sc) sc'
      → IsScored ((i, p, t) ∷ targets) sc sc'
  one_more i p t targets hits sc sc' e (later_hits, later_count, later_sizes) =
      let (now_hits, now_count, now_sizes) = noted i p (length (growers i p t)) hits sc in
      let count = ap count_if_any e in
      (
        later_hits
            ∙ ap (λ h. h ++ flagged targets) now_hits
            ∙ append_assoc sc.watchlist_hits (map (λ g. (i, p, g)) hits) (flagged targets)
            ∙ ap (λ h. sc.watchlist_hits ++ (map (λ g. (i, p, g)) h ++ flagged targets)) e,
        omega (arith, later_count, now_count, count),
        later_sizes
            ∙ ap (λ h. h ++ sizes targets) now_sizes
            ∙ append_assoc sc.grower_sizes (length (growers i p t) ∷ []) (sizes targets),
      )

  abbrev pub row_targets : ℕ → List ℕ → List ℕ → List (ℕ × ℕ × ℕ)
  row_targets i [] tokens = []
  row_targets i (p ∷ ps) [] = []
  row_targets i (p ∷ ps) (t ∷ ts) = (i, p, t) ∷ row_targets i ps ts

  nothing_scored : (sc : Scored) → IsScored [] sc sc
  nothing_scored sc =
      (sym (append-nil sc.watchlist_hits), omega arith, sym (append-nil sc.grower_sizes))

  score_row-IsScored :
      (i : ℕ) (ps ts : List ℕ) (sc sc' : Scored)
      → score_row growers (sets samples watchlist default_watchlist) i ps ts sc ≡ ok sc'
      → IsScored (row_targets i ps ts) sc sc'
  unfolding score_row
  score_row-IsScored i [] ts sc sc' e = subst (IsScored [] sc) (ok_inj e) (nothing_scored sc)
  score_row-IsScored i (p ∷ ps) [] sc sc' e = subst (IsScored [] sc) (ok_inj e) (nothing_scored sc)
  score_row-IsScored i (p ∷ ps) (t ∷ ts) sc sc' e =
      let found = growers i p t in
      let (hits, (at, rest)) =
        then_ok (watched (sets samples watchlist default_watchlist) i found) _ sc' e in
      one_more i p t (row_targets i ps ts) hits sc sc'
        (all_watched samples watchlist default_watchlist i found hits at)
        (score_row-IsScored i ps ts (note_hits i p (length found) hits sc) sc' rest)

  abbrev pub tokens_or_none : Result (List ℕ) → List ℕ
  tokens_or_none (ok ts) = ts
  tokens_or_none (raise e) = []

  abbrev pub row_or_none : List (List ℕ) → ℕ → List ℕ → List (ℕ × ℕ × ℕ)
  row_or_none token_ids i [] = []
  row_or_none token_ids i (p ∷ ps) = row_targets i (p ∷ ps) (tokens_or_none (tokens_of token_ids i))

  -- The targets of the rows: each position with its token.
  abbrev pub rows_targets : List (List ℕ) → ℕ → List (List ℕ) → List (ℕ × ℕ × ℕ)
  rows_targets token_ids i [] = []
  rows_targets token_ids i (row ∷ rows) =
      row_or_none token_ids i row ++ rows_targets token_ids (suc i) rows

  flagged-append : (xs ys : List (ℕ × ℕ × ℕ)) → flagged (xs ++ ys) ≡ flagged xs ++ flagged ys
  flagged-append [] ys = refl
  flagged-append ((i, p, t) ∷ xs) ys =
      let here =
        map (λ g. (i, p, g))
          (keep (is_watched samples watchlist default_watchlist i) (growers i p t)) in
      ap (λ r. here ++ r) (flagged-append xs ys) ∙ sym (append_assoc here (flagged xs) (flagged ys))

  count_flagged-append :
      (xs ys : List (ℕ × ℕ × ℕ)) → count_flagged (xs ++ ys) ≡ count_flagged xs + count_flagged ys
  count_flagged-append [] ys = omega arith
  count_flagged-append ((i, p, t) ∷ xs) ys = omega (arith, count_flagged-append xs ys)

  sizes-append : (xs ys : List (ℕ × ℕ × ℕ)) → sizes (xs ++ ys) ≡ sizes xs ++ sizes ys
  sizes-append [] ys = refl
  sizes-append ((i, p, t) ∷ xs) ys = ap (λ r. length (growers i p t) ∷ r) (sizes-append xs ys)

  scored_both :
      (xs ys : List (ℕ × ℕ × ℕ)) (a b c : Scored)
      → IsScored xs a b
      → IsScored ys b c
      → IsScored (xs ++ ys) a c
  scored_both xs ys a b c (h, k, l) (h', k', l') = (
    h'
        ∙ ap (λ r. r ++ flagged ys) h
        ∙ append_assoc a.watchlist_hits (flagged xs) (flagged ys)
        ∙ ap (λ r. a.watchlist_hits ++ r) (sym (flagged-append xs ys)),
    omega (arith, k, k', count_flagged-append xs ys),
    l'
        ∙ ap (λ r. r ++ sizes ys) l
        ∙ append_assoc a.grower_sizes (sizes xs) (sizes ys)
        ∙ ap (λ r. a.grower_sizes ++ r) (sym (sizes-append xs ys)),
  )

  checked-IsScored :
      (i : ℕ) (positions tokens : List ℕ) (sc sc' : Scored)
      → score_checked growers (sets samples watchlist default_watchlist) i positions tokens sc
        ≡ ok sc'
      → IsScored (row_targets i positions tokens) sc sc'
  checked-IsScored i positions tokens sc sc' e =
      elim (Bool-cases (length tokens == length positions)) [
        | inl same ↦
            score_row-IsScored i positions tokens sc sc'
              (sym (if_true {b = length tokens == length positions} _ _ same) ∙ e)
        | inr differ ↦
            let raised = sym (if_false {b = length tokens == length positions} _ _ differ) ∙ e in
            absurd (cc raised)
      ]

  positions-IsScored :
      (token_ids : List (List ℕ)) (i : ℕ) (row : List ℕ) (sc sc' : Scored)
      → score_positions growers (sets samples watchlist default_watchlist) token_ids i row sc
        ≡ ok sc'
      → IsScored (row_or_none token_ids i row) sc sc'
  positions-IsScored token_ids i [] sc sc' e = subst (IsScored [] sc) (ok_inj e) (nothing_scored sc)
  positions-IsScored token_ids i (p ∷ ps) sc sc' e =
      let (tokens, (at, rest)) = then_ok (tokens_of token_ids i) _ sc' e in
      subst (λ r. IsScored (row_targets i (p ∷ ps) (tokens_or_none r)) sc sc') (sym at)
        (checked-IsScored i (p ∷ ps) tokens sc sc' rest)

  rows-IsScored :
      (token_ids : List (List ℕ)) (i : ℕ) (rows : List (List ℕ)) (sc sc' : Scored)
      → score_rows growers (sets samples watchlist default_watchlist) token_ids i rows sc ≡ ok sc'
      → IsScored (rows_targets token_ids i rows) sc sc'
  unfolding score_rows
  rows-IsScored token_ids i [] sc sc' e = subst (IsScored [] sc) (ok_inj e) (nothing_scored sc)
  rows-IsScored token_ids i (row ∷ rows) sc sc' e =
      let (mid, (at, rest)) =
        then_ok
          (score_positions growers (sets samples watchlist default_watchlist) token_ids i row sc) _
          sc' e in
      scored_both (row_or_none token_ids i row) (rows_targets token_ids (suc i) rows) sc mid sc'
        (positions-IsScored token_ids i row sc mid at)
        (rows-IsScored token_ids (suc i) rows mid sc' rest)

  no_targets :
      (token_ids : List (List ℕ)) (i : ℕ) (rows : List (List ℕ))
      → has_any_position rows ≡ false
      → rows_targets token_ids i rows ≡ []
  no_targets token_ids i [] h = refl
  no_targets token_ids i ([] ∷ rows) h = no_targets token_ids (suc i) rows h
  no_targets token_ids i ((p ∷ ps) ∷ rows) h = absurd (cc h)

  -- If the monitor reports, its hits are the growers of the target positions, in order, that are on
  -- the watchlist of the daemon, of the batch objective or of the sample, each of them; its alarms
  -- are the positions with such a grower; and its sizes those of the growers of each position.
  pub safety_monitor-Reports :
      (positions : List (List ℕ)) (token_ids : Option (List (List ℕ))) (has_input_ids : Bool)
      (effective_lr : Option ℕ) (sc : Scored)
      → safety_monitor growers samples
          (some positions)
          token_ids
          has_input_ids
          watchlist
          default_watchlist
          effective_lr
        ≡ ok sc
      → let targets = rows_targets (or_default token_ids []) 0 positions in
        (sc.watchlist_hits ≡ flagged targets)
        × (sc.alarm_count ≡ count_flagged targets)
        × (sc.grower_sizes ≡ sizes targets)
  unfolding safety_monitor
  safety_monitor-Reports positions token_ids has_input_ids effective_lr sc e =
      let tokens = or_default token_ids [] in
      let targets = rows_targets tokens 0 positions in
      let scored : IsScored targets none_scored sc =
        elim (Bool-cases (has_any_position positions)) [
          | inl any ↦ elim (Bool-cases (is_positive effective_lr)) [
            | inl positive ↦ elim (Bool-cases has_input_ids) [
              | inl input ↦
                  rows-IsScored tokens 0 positions none_scored sc (rw (any, positive, input) at e)
              | inr missing ↦
                  let raised : raise runtime_error ≡ ok sc = rw (any, positive, missing) at e in
                  absurd (cc raised)
            ]
            | inr bad ↦
                let raised : raise value_error ≡ ok sc = rw (any, bad) at e in absurd (cc raised)
          ]
          | inr empty ↦
              let same : ok none_scored ≡ ok sc = rw empty at e in
              subst (λ ts. IsScored ts none_scored sc) (sym (no_targets tokens 0 positions empty))
                (subst (IsScored [] none_scored) (ok_inj same) (nothing_scored none_scored))
        ] in
      (scored.0, omega (arith, scored.1), scored.2)
