-- ===== src/Engine/Steps.antt =====
-- trainfer/engine/train.py: `step` and `_step_multi`, with the optimizer step and its failures.
use trainfer.Prelude.{
  ℕ, zero, suc, String, Bool, true, false, Option, none, some, List, [], ◌∷◌, Dict, set_item,
  length,
}
use trainfer.Errors.{Result, ok, raise, key_error, value_error}
use trainfer.Engine.{
  Net, Torch, Component, reported, flag, amount, reason, Entry, Spec, Report, Objective,
  TrainEngine, shared_key, optimizer, slot,
}
use trainfer.Engine.Losses.{Total, single_total, multi_total}

abbrev pub zero_grad : {P : Type 0} → Net P → Net P
zero_grad net = record net { gradient = none }

module _ {P O L X : Type 0} (torch : Torch P O L X) where
  -- A network and optimizer after the step, with the gradient's norm where it was clipped.
  abbrev Stepped : Type 0
  Stepped = Result (Option X) × (O × Net P)

  -- The failures of backward and of the step leave no gradient.
  abbrev pub after_step : Option X → Result (Unit {0}) × (O × Net P) → Stepped
  after_step norm (ok _, (opt, net)) = (ok norm, (opt, net))
  after_step norm (raise x, (opt, net)) = (raise x, (opt, zero_grad net))

  abbrev pub clipped : ℕ → Net P → Option X × Net P
  clipped zero net = (none, net)
  clipped (suc c) net = let (norm, net') = torch.clip_grad_norm (suc c) net in (some norm, net')

  abbrev pub after_backward : ℕ → O → Result (Unit {0}) × Net P → Stepped
  after_backward clip opt (ok _, net) =
      let (norm, net') = clipped clip net in after_step norm (torch.optimizer_step opt net')
  after_backward clip opt (raise x, net) = (raise x, (opt, zero_grad net))

  abbrev pub with_norm : ℕ → Option X → Dict (Component X) → Dict (Component X)
  with_norm clip none found = found
  with_norm clip (some norm) found =
      set_item "grad_clipped" (flag (torch.is_above norm clip))
        (set_item "grad_norm_total" (reported norm) found)

module _ {L X : Type 0} where
  abbrev pub skipped_report : Dict (Component X) → Report L X
  skipped_report found = record { loss = none; components = found; skipped = true }

  abbrev pub skipped_multi : Dict (Component X) → Report L X
  skipped_multi found =
      skipped_report (set_item "skipped_reason" (reason "all_primaries_skipped") found)

module _ {X : Type 0} where
  abbrev pub count_present : List (Option X) → ℕ
  count_present [] = 0
  count_present (none ∷ losses) = count_present losses
  count_present (some x ∷ losses) = suc (count_present losses)

  abbrev pub with_counts : List (Option X) → ℕ → Dict (Component X) → Dict (Component X)
  with_counts losses n found =
      set_item "objectives_active" (amount (count_present losses))
        (set_item "objectives_count" (amount n) found)

module _ {P O S L X : Type 0} (torch : Torch P O L X) where
  -- One optimizer step on a loss. The optimizer that the slot refers to is changed by it.
  unfoldable pub update :
      TrainEngine P O S L X → String → L → Result (Option X) × TrainEngine P O S L X
  update e objective loss =
      let (opt, made) = optimizer torch e objective in
      let (outcome, (opt', net)) =
        after_backward torch e.grad_clip opt (torch.backward loss (zero_grad made.net)) in
      (outcome, record made { net = net; opts = set_item (slot e objective) opt' made.opts })

  -- The report of a step that was made; `counts` are the numbers that a combined step adds.
  unfoldable pub report_step :
      TrainEngine P O S L X
      → L
      → (Dict (Component X) → Dict (Component X))
      → Option X
      → Dict (Component X)
      → Report L X
  report_step e loss counts norm found = record {
    loss = some (torch.loss_value loss);
    components = set_item "residual_norm_total" (reported e.residual_norm) (
        set_item "adapter_norm_total" (reported (torch.adapter_norm e.net.weights)) (
          with_norm torch e.grad_clip norm
            (counts (set_item "loss" (reported (torch.loss_value loss)) found))));
    skipped = false;
  }

  -- What the step answers for the outcome of the update.
  abbrev pub answered :
      L
      → (Dict (Component X) → Dict (Component X))
      → Dict (Component X)
      → Result (Option X) × TrainEngine P O S L X
      → Result (Report L X) × TrainEngine P O S L X
  answered loss counts found (ok norm, e) = (ok (report_step e loss counts norm found), e)
  answered loss counts found (raise x, e) = (raise x, e)

  abbrev pub single_by_loss :
      TrainEngine P O S L X
      → String
      → Dict (Component X)
      → Option L
      → Result (Report L X) × TrainEngine P O S L X
  single_by_loss e name found none = (ok (skipped_report found), e)
  single_by_loss e name found (some loss) =
      answered loss (λ found. found) found (update e name loss)

  abbrev pub finish_single :
      TrainEngine P O S L X
      → String
      → Result (Total L X)
      → Result (Report L X) × TrainEngine P O S L X
  finish_single e name (raise x) = (raise x, e)
  finish_single e name (ok total) = single_by_loss e name total.found total.sum

  abbrev pub multi_by_loss :
      TrainEngine P O S L X
      → ℕ
      → List (Option X)
      → Dict (Component X)
      → Option L
      → Bool
      → Result (Report L X) × TrainEngine P O S L X
  multi_by_loss e n losses found none skipped_all = (ok (skipped_multi found), e)
  multi_by_loss e n losses found (some loss) true = (ok (skipped_multi found), e)
  multi_by_loss e n losses found (some loss) false =
      answered loss (with_counts losses n) found (update e shared_key loss)

  abbrev pub finish_multi :
      TrainEngine P O S L X
      → ℕ
      → Result (Total L X × List (Option X))
      → Result (Report L X) × TrainEngine P O S L X
  finish_multi e n (raise x) = (raise x, e)
  finish_multi e n (ok (total, losses)) =
      multi_by_loss e n losses total.found total.sum total.skipped_all

module _ {P O S L X : Type 0} (torch : Torch P O L X) (registry : Dict (Objective P S L X)) where
  abbrev pub step_single :
      TrainEngine P O S L X → Spec S X → Option String → Result (Report L X) × TrainEngine P O S L X
  step_single e spec none = (raise key_error, e)
  step_single e spec (some name) =
      finish_single torch e name (single_total torch registry e name spec)

  unfoldable pub step_multi :
      TrainEngine P O S L X
      → Spec S X
      → List (Entry S X)
      → Result (Report L X) × TrainEngine P O S L X
  step_multi e spec [] = (raise value_error, e)
  step_multi e spec (entry ∷ entries) =
      finish_multi torch e (length (entry ∷ entries))
        (multi_total torch registry e (entry ∷ entries) spec)

  abbrev pub by_form :
      TrainEngine P O S L X
      → Spec S X
      → Option (List (Entry S X))
      → Result (Report L X) × TrainEngine P O S L X
  by_form e spec none = step_single e spec spec.objective
  by_form e spec (some []) = step_single e spec spec.objective
  by_form e spec (some (entry ∷ entries)) = step_multi e spec (entry ∷ entries)

  unfoldable pub step :
      TrainEngine P O S L X → Spec S X → Result (Report L X) × TrainEngine P O S L X
  step e spec = by_form (record e { net = record e.net { training = true } }) spec spec.objectives
