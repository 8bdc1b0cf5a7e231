-- ===== src/Engine/Losses.antt =====
-- trainfer/engine/train.py: the loss of a step, from the objectives and the batch objectives.
use mathlib.Core.Option.{map as option_map}
use trainfer.Prelude.{
  ℕ, String, Bool, true, false, Option, none, some, List, [], ◌∷◌, ◌++◌, Dict, set_item, or_default,
}
use Prim.Native.String.{◌++◌ as string_append}
use trainfer.Errors.{Result, ok, raise}
use trainfer.Engine.{
  Torch, Sidecar, Component, reported, flag, amount, Outcome, Entry, Spec, Objective, TrainEngine,
  shared_key,
}
use trainfer.Engine.Kwargs.{call, primary_kwargs, sidecar_kwargs}

abbrev pub then_with : {A B : Type 0} → Result A → (A → Result B) → Result B
then_with (ok a) f = f a
then_with (raise e) f = raise e

-- `components[prefix + k] = v` for each reported number.
abbrev pub with_components :
    {X : Type 0} → String → Dict X → Dict (Component X) → Dict (Component X)
with_components prefix [] found = found
with_components prefix ((k, x) ∷ more) found =
    with_components prefix more (set_item (string_append prefix k) (reported x) found)

-- The loss so far and what has been reported. Only a combined step reads `skipped_all`.
pub record Total (L X : Type 0) : Type 0 where
  pub sum : Option L
  pub found : Dict (Component X)
  pub skipped_all : Bool

abbrev pub unskipped : {L : Type 0} → Option L → Bool → Bool
unskipped none skipped_all = skipped_all
unskipped (some l) skipped_all = false

module _ {P O L X : Type 0} (torch : Torch P O L X) where
  abbrev pub plus_sidecar : Option L → Option L → Option L
  plus_sidecar total none = total
  plus_sidecar none (some l) = some (torch.add torch.zero_loss l)
  plus_sidecar (some t) (some l) = some (torch.add t l)

  abbrev pub note_sidecar : String → Total L X → Outcome L X → Total L X
  note_sidecar bo_name total r = record {
    sum = plus_sidecar total.sum r.loss;
    found =
        with_components (string_append "batch." (string_append bo_name ".")) r.components
          total.found;
    skipped_all = unskipped r.loss total.skipped_all;
  }

module _ {P O S L X : Type 0} (torch : Torch P O L X) (registry : Dict (Objective P S L X)) where
  unfoldable pub run_sidecars :
      TrainEngine P O S L X
      → List S
      → String
      → Option (Outcome L X)
      → List (Sidecar X)
      → Total L X
      → Result (Total L X)
  run_sidecars e samples lr_name result [] total = ok total
  run_sidecars e samples lr_name result (bo ∷ bos) total =
      then_with (call registry bo.0 e.net samples (sidecar_kwargs e lr_name result bo))
        (λ r. run_sidecars e samples lr_name result bos (note_sidecar torch bo.0 total r))

  -- The loss of one objective and its batch objectives.
  unfoldable pub single_total : TrainEngine P O S L X → String → Spec S X → Result (Total L X)
  single_total e name spec =
      then_with
        (call registry name e.net spec.samples
          (primary_kwargs e name spec.batch_objectives spec.kwargs))
        (λ r.
          run_sidecars e spec.samples name (some r) spec.batch_objectives (record {
            sum = r.loss;
            found = with_components "" r.components [];
            skipped_all = true;
          }))

-- The state of the loop over the objectives of a combined step.
pub record Progress (L X : Type 0) : Type 0 where
  pub total : Total L X
  pub first_result : Option (Outcome L X)
  pub primary_losses : List (Option X)

abbrev pub or_later : {S : Type 0} → Option (List S) → List S → List S
or_later none later = later
or_later (some []) later = later
or_later (some (s ∷ ss)) later = s ∷ ss

abbrev pub first_samples : {S X : Type 0} → List (Entry S X) → List S
first_samples [] = []
first_samples (entry ∷ entries) = or_later entry.samples (first_samples entries)

-- The samples of the batch objectives: those of the call, or else of the first objective with any.
abbrev pub sidecar_samples : {S X : Type 0} → List S → List (Entry S X) → List S
sidecar_samples [] entries = first_samples entries
sidecar_samples (s ∷ ss) entries = s ∷ ss

abbrev pub dotted : String → String → String
dotted name k = string_append name (string_append "." k)

abbrev pub default_weight : ℕ
default_weight = 1000

abbrev pub first_of : {L X : Type 0} → Option (Outcome L X) → Outcome L X → Option (Outcome L X)
first_of none r = some r
first_of (some f) r = some f

abbrev pub primary_reports :
    {X : Type 0} → String → ℕ → Dict X → Dict (Component X) → Dict (Component X)
primary_reports name weight components found =
    set_item (dotted name "weight") (amount weight)
      (with_components (dotted name "") components found)

abbrev pub no_progress : {L X : Type 0} → Progress L X
no_progress = record {
  total = record { sum = none; found = []; skipped_all = true };
  first_result = none;
  primary_losses = [];
}

abbrev pub first_name : {S X : Type 0} → List (Entry S X) → String
first_name [] = shared_key
first_name (entry ∷ entries) = entry.name

module _ {P O L X : Type 0} (torch : Torch P O L X) where
  abbrev pub plus_primary : Option L → L → Option L
  plus_primary none weighted = some weighted
  plus_primary (some t) weighted = some (torch.add t weighted)

  abbrev pub primary_total : String → ℕ → Dict (Component X) → Option L → Total L X → Total L X
  primary_total name weight reports none total = record {
    sum = total.sum;
    found = set_item (dotted name "skipped") (flag true) reports;
    skipped_all = total.skipped_all;
  }
  primary_total name weight reports (some sub_loss) total =
      let weighted = torch.weigh weight sub_loss in
      record {
        sum = plus_primary total.sum weighted;
        found =
            set_item (dotted name "weighted_loss") (reported (torch.loss_value weighted)) reports;
        skipped_all = false;
      }

  -- What the loop records of an objective that gave a loss, or none.
  unfoldable pub note_primary : String → ℕ → Outcome L X → Progress L X → Progress L X
  note_primary name weight r p = record {
    total =
        primary_total name weight (primary_reports name weight r.components p.total.found) r.loss
          p.total;
    first_result = first_of p.first_result r;
    primary_losses = p.primary_losses ++ (option_map torch.loss_value r.loss ∷ []);
  }

module _ {P O S L X : Type 0} (torch : Torch P O L X) (registry : Dict (Objective P S L X)) where
  unfoldable pub run_primaries :
      TrainEngine P O S L X → Spec S X → List (Entry S X) → Progress L X → Result (Progress L X)
  run_primaries e spec [] p = ok p
  run_primaries e spec (entry ∷ entries) p =
      then_with
        (call registry entry.name e.net (or_default entry.samples spec.samples)
          (primary_kwargs e entry.name spec.batch_objectives (or_default entry.kwargs spec.kwargs)))
        (λ r.
          run_primaries e spec entries
            (note_primary torch entry.name (or_default entry.weight default_weight) r p))

  -- The combined loss, and the losses of the objectives one by one.
  unfoldable pub multi_total :
      TrainEngine P O S L X → List (Entry S X) → Spec S X → Result (Total L X × List (Option X))
  multi_total e entries spec = then_with (run_primaries e spec entries no_progress) (λ p.
      then_with
        (run_sidecars torch registry e (sidecar_samples spec.samples entries) (first_name entries)
          p.first_result spec.batch_objectives p.total)
        (λ total. ok (total, p.primary_losses)))
