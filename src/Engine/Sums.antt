-- ===== src/Engine/Sums.antt =====
-- trainfer/engine/train.py: the loss of a combined step is the weighted sum of the losses there are.
use mathlib.Core.List.{append_assoc, append-nil}
use mathlib.Core.Option.{map as option_map}
use trainfer.Prelude.{
  ℕ, String, false, Option, none, some, List, [], ◌∷◌, ◌++◌, map, Dict, or_default, ◌≡◌, refl, sym,
  ap, ◌∙◌,
}
use trainfer.Errors.{Result, ok}
use trainfer.Engine.{Torch, Component, Sidecar, Outcome, Entry, Spec, Objective, TrainEngine}
use trainfer.Engine.Kwargs.{call, primary_kwargs, sidecar_kwargs}
use trainfer.Engine.Losses.{
  then_with, Total, Progress, plus_sidecar, plus_primary, unskipped, note_sidecar, run_sidecars,
  primary_total, primary_reports, note_primary, default_weight, run_primaries, no_progress,
  first_name, first_of, sidecar_samples, multi_total,
}
use trainfer.Engine.Calls.{
  Called, fold_results, IsLoop, loop-Called, sum_of, plus, sum_all, sum_all_lem, sum_all-append,
  is_absent,
}

module _ {P O S L X : Type 0} (registry : Dict (Objective P S L X)) where
  -- The calls of a combined step.
  abbrev pub primary_call : TrainEngine P O S L X → Spec S X → Entry S X → Result (Outcome L X)
  primary_call e spec entry =
      call registry entry.name e.net (or_default entry.samples spec.samples)
        (primary_kwargs e entry.name spec.batch_objectives (or_default entry.kwargs spec.kwargs))

  abbrev pub sidecar_call :
      TrainEngine P O S L X
      → List S
      → String
      → Option (Outcome L X)
      → Sidecar X
      → Result (Outcome L X)
  sidecar_call e samples lr_name result bo =
      call registry bo.0 e.net samples (sidecar_kwargs e lr_name result bo)

module _ {P O S L X : Type 0} (torch : Torch P O L X) where
  abbrev pub weighted_loss : Entry S X × Outcome L X → Option L
  weighted_loss (entry, r) =
      option_map (torch.weigh (or_default entry.weight default_weight)) r.loss

  abbrev pub value_of : Entry S X × Outcome L X → Option X
  value_of (entry, r) = option_map torch.loss_value r.loss

-- The result of the first objective.
abbrev pub first_outcome : {S L X : Type 0} → List (Entry S X × Outcome L X) → Option (Outcome L X)
first_outcome [] = none
first_outcome ((entry, r) ∷ os) = some r

abbrev or_outcome :
    {L X : Type 0} → Option (Outcome L X) → Option (Outcome L X) → Option (Outcome L X)
or_outcome none o = o
or_outcome (some f) o = some f

abbrev IsNoted : {L X : Type 0} → Total L X → Type 0
IsNoted t = t.skipped_all ≡ is_absent t.sum

or_outcome-none : {L X : Type 0} (f : Option (Outcome L X)) → or_outcome f none ≡ f
or_outcome-none none = refl
or_outcome-none (some f) = refl

first_step :
    {L X : Type 0} (f : Option (Outcome L X)) (r : Outcome L X) (o : Option (Outcome L X))
    → or_outcome (first_of f r) o ≡ or_outcome f (some r)
first_step none r o = refl
first_step (some f) r o = refl

module _ {P O S L X : Type 0} (torch : Torch P O L X) (registry : Dict (Objective P S L X))
    (zero_add : (l : L) → torch.add torch.zero_loss l ≡ l) where
  abbrev noting : Entry S X → Outcome L X → Progress L X → Progress L X
  noting entry r p = note_primary torch entry.name (or_default entry.weight default_weight) r p

  plus_primary-plus : (t : Option L) (l : L) → plus_primary torch t l ≡ plus torch.add t (some l)
  unfolding plus
  plus_primary-plus none l = refl
  plus_primary-plus (some t) l = refl

  plus_sidecar-plus : (t l : Option L) → plus_sidecar torch t l ≡ plus torch.add t l
  unfolding plus
  plus_sidecar-plus t none = refl
  plus_sidecar-plus none (some l) = ap some (zero_add l)
  plus_sidecar-plus (some t) (some l) = refl

  plus-some : (t : Option L) (l : L) → false ≡ is_absent (plus torch.add t (some l))
  unfolding plus
  plus-some none l = refl
  plus-some (some t) l = refl

  primary_step :
      (name : String) (w : ℕ) (reports : Dict (Component X)) (l : Option L) (t : Total L X)
      → IsNoted t
      → let t' = primary_total torch name w reports l t in
        (t'.sum ≡ plus torch.add t.sum (option_map (torch.weigh w) l)) × IsNoted t'
  unfolding plus
  primary_step name w reports none t h = (refl, h)
  primary_step name w reports (some l) t h =
      let e = plus_primary-plus t.sum (torch.weigh w l) in
      (e, plus-some t.sum (torch.weigh w l) ∙ sym (ap is_absent e))

  sidecar_step :
      (bo : Sidecar X) (r : Outcome L X) (t : Total L X)
      → IsNoted t
      → let t' = note_sidecar torch bo.0 t r in (t'.sum ≡ plus torch.add t.sum r.loss) × IsNoted t'
  sidecar_step bo r t h = (plus_sidecar-plus t.sum r.loss, noted_with r.loss t h)
    where
      noted_with :
          (l : Option L) (t : Total L X)
          → IsNoted t
          → unskipped l t.skipped_all ≡ is_absent (plus_sidecar torch t.sum l)
      noted_with none t h = h
      noted_with (some l) t h =
          plus-some t.sum l ∙ sym (ap is_absent (plus_sidecar-plus t.sum (some l)))

  primaries_fold :
      (os : List (Entry S X × Outcome L X)) (p : Progress L X)
      → IsNoted p.total
      → let p' = fold_results noting os p in
        (p'.total.sum ≡ sum_all torch.add p.total.sum (map (weighted_loss torch) os))
        × IsNoted p'.total
        × (p'.primary_losses ≡ p.primary_losses ++ map (value_of torch) os)
        × (p'.first_result ≡ or_outcome p.first_result (first_outcome os))
  unfolding sum_all note_primary
  primaries_fold [] p h =
      (refl, h, sym (append-nil p.primary_losses), sym (or_outcome-none p.first_result))
  primaries_fold ((entry, r) ∷ os) p h =
      let w = or_default entry.weight default_weight in
      let (sum, noted) =
        primary_step entry.name w (primary_reports entry.name w r.components p.total.found) r.loss
          p.total h in
      let (later_sum, later_noted, later_losses, later_first) =
        primaries_fold os (noting entry r p) noted in
      (
        later_sum ∙ ap (λ t. sum_all torch.add t (map (weighted_loss torch) os)) sum,
        later_noted,
        later_losses
            ∙ append_assoc p.primary_losses (value_of torch (entry, r) ∷ [])
                (map (value_of torch) os),
        later_first ∙ first_step p.first_result r (first_outcome os),
      )

  sidecars_fold :
      (bs : List (Sidecar X × Outcome L X)) (t : Total L X)
      → IsNoted t
      → let t' = fold_results (λ bo r t. note_sidecar torch bo.0 t r) bs t in
        (t'.sum ≡ sum_all torch.add t.sum (map (λ (bo, r). r.loss) bs)) × IsNoted t'
  unfolding sum_all
  sidecars_fold [] t h = (refl, h)
  sidecars_fold ((bo, r) ∷ bs) t h =
      let (sum, noted) = sidecar_step bo r t h in
      let (later_sum, later_noted) = sidecars_fold bs (note_sidecar torch bo.0 t r) noted in
      (later_sum ∙ ap (λ s. sum_all torch.add s (map (λ (bo, r). r.loss) bs)) sum, later_noted)

  primaries-IsLoop :
      (e : TrainEngine P O S L X) (spec : Spec S X)
      → IsLoop (primary_call registry e spec) noting (run_primaries torch registry e spec)
  unfolding run_primaries
  primaries-IsLoop e spec = record { stops = λ b. refl; goes = λ x xs b. refl }

  sidecars-IsLoop :
      (e : TrainEngine P O S L X) (samples : List S) (lr_name : String) (f : Option (Outcome L X))
      → IsLoop
          (sidecar_call registry e samples lr_name f)
          (λ bo r t. note_sidecar torch bo.0 t r)
          (run_sidecars torch registry e samples lr_name f)
  unfolding run_sidecars
  sidecars-IsLoop e samples lr_name f = record { stops = λ b. refl; goes = λ x xs b. refl }

  -- Where each call of an objective and of a batch objective succeeds, the combined step gets a
  -- loss, which is the sum from the left of the weighted losses of the objectives and then those of the
  -- batch objectives, as far as they are there; the step counts as skipped exactly if none is; and
  -- the losses it records are those of the objectives in order. Adding to 0.0 changes nothing.
  pub multi_total-sums :
      (e : TrainEngine P O S L X) (entries : List (Entry S X)) (spec : Spec S X)
      (os : List (Entry S X × Outcome L X)) (bs : List (Sidecar X × Outcome L X))
      → Called (primary_call registry e spec) entries os
      → Called
          (sidecar_call registry e
            (sidecar_samples spec.samples entries)
            (first_name entries)
            (first_outcome os))
          spec.batch_objectives
          bs
      → (total : Total L X) × ((multi_total torch registry e entries spec
            ≡ ok (total, map (value_of torch) os))
          × (total.sum
              ≡ sum_of torch.add (map (weighted_loss torch) os ++ map (λ (bo, r). r.loss) bs))
          × (total.skipped_all ≡ is_absent total.sum))
  unfolding multi_total
  multi_total-sums e entries spec os bs primaries sidecars =
      let p = fold_results noting os no_progress in
      let (sum, noted, losses, first) = primaries_fold os no_progress refl in
      let samples = sidecar_samples spec.samples entries in
      let side = λ (f : Option (Outcome L X)).
        run_sidecars torch registry e samples (first_name entries) f spec.batch_objectives
          p.total in
      let total = fold_results (λ bo r t. note_sidecar torch bo.0 t r) bs p.total in
      let (side_sum, side_noted) = sidecars_fold bs p.total noted in
      (
        total,
        (
          ap
                (λ r. then_with r (λ p.
                  then_with
                    (run_sidecars torch registry e samples (first_name entries) p.first_result
                      spec.batch_objectives p.total)
                    (λ t. ok (t, p.primary_losses))))
                (loop-Called (primary_call registry e spec) noting
                  (run_primaries torch registry e spec) (primaries-IsLoop e spec) primaries
                  no_progress)
              ∙ ap (λ r. then_with r (λ t. ok (t, p.primary_losses)))
                  (ap side first
                    ∙ loop-Called
                        (sidecar_call registry e samples (first_name entries) (first_outcome os))
                        (λ bo r t. note_sidecar torch bo.0 t r)
                        (run_sidecars torch registry e samples (first_name entries)
                          (first_outcome os))
                        (sidecars-IsLoop e samples (first_name entries) (first_outcome os)) sidecars
                        p.total)
              ∙ ap (λ l. ok (total, l)) losses,
          side_sum
              ∙ ap (λ t. sum_all torch.add t (map (λ (bo, r). r.loss) bs)) sum
              ∙ sym (
                  sum_all-append torch.add none (map (weighted_loss torch) os)
                    (map (λ (bo, r). r.loss) bs))
              ∙ sum_all_lem torch.add (map (weighted_loss torch) os ++ map (λ (bo, r). r.loss) bs),
          side_noted,
        ),
      )
