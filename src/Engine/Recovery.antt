-- ===== src/Engine/Recovery.antt =====
-- trainfer/engine/train.py: what a step leaves behind on each branch, and which optimizers it touches.
use trainfer.Prelude.{
  ℕ, String, Bool, true, false, Option, none, some, List, [], ◌∷◌, Dict, get, ◌≡◌, refl, sym, ◌∙◌,
  ◌⊎◌, inl, inr, str_eq, subst, get-set_other, length, or_default,
}
use trainfer.Errors.{Result, ok, raise}
use trainfer.Engine.{
  Net, Torch, Component, Entry, Spec, Report, Objective, TrainEngine, shared_key, slot, optimizer,
  found_or_made, fresh_optimizer,
}
use trainfer.Engine.Losses.{Total, single_total, multi_total}
use trainfer.Engine.Steps.{
  zero_grad, after_step, clipped, after_backward, update, report_step, answered, single_by_loss,
  finish_single, with_counts, multi_by_loss, finish_multi, step_single, step_multi, by_form, step,
}

-- After a failure there is no gradient.
abbrev IsClear : {P X : Type 0} → Result (Option X) → Net P → Type 0
IsClear (ok norm) net = Unit
IsClear (raise x) net = net.gradient ≡ none

-- The optimizers of the other slots are as before.
abbrev pub KeepsOthers :
    {P O S L X : Type 0} → String → TrainEngine P O S L X → TrainEngine P O S L X → Type 0
KeepsOthers key e e' = (k : String) → str_eq key k ≡ false → get k e'.opts ≡ get k e.opts

module _ {P O L X : Type 0} (torch : Torch P O L X) where
  after_step-IsClear :
      (norm : Option X) (r : Result (Unit {0}) × (O × Net P))
      → let s = after_step torch norm r in IsClear s.0 s.1.1
  after_step-IsClear norm (ok _, (opt, net)) = tt
  after_step-IsClear norm (raise x, (opt, net)) = refl

  after_backward-IsClear :
      (clip : ℕ) (opt : O) (r : Result (Unit {0}) × Net P)
      → let s = after_backward torch clip opt r in IsClear s.0 s.1.1
  after_backward-IsClear clip opt (ok _, net) =
      let (norm, net') = clipped torch clip net in
      after_step-IsClear norm (torch.optimizer_step opt net')
  after_backward-IsClear clip opt (raise x, net) = refl

module _ {P O S L X : Type 0} (torch : Torch P O L X) where
  update-IsClear :
      (e : TrainEngine P O S L X) (objective : String) (loss : L)
      → let (r, e') = update torch e objective loss in IsClear r e'.net
  unfolding update
  update-IsClear e objective loss =
      let (opt, made) = optimizer torch e objective in
      after_backward-IsClear torch e.grad_clip opt (torch.backward loss (zero_grad made.net))

  made-KeepsOthers :
      (e : TrainEngine P O S L X) (objective : String) (o : Option O)
      → KeepsOthers (slot e objective) e (found_or_made torch e objective o).1
  made-KeepsOthers e objective (some opt) k n = refl
  made-KeepsOthers e objective none k n =
      get-set_other k (slot e objective) (fresh_optimizer torch e objective) e.opts n

  update-KeepsOthers :
      (e : TrainEngine P O S L X) (objective : String) (loss : L)
      → KeepsOthers (slot e objective) e (update torch e objective loss).1
  unfolding update optimizer
  update-KeepsOthers e objective loss k n =
      let (opt, made) = optimizer torch e objective in
      let s = after_backward torch e.grad_clip opt (torch.backward loss (zero_grad made.net)) in
      get-set_other k (slot e objective) s.1.0 made.opts n
      ∙ made-KeepsOthers e objective (get (slot e objective) e.opts) k n

  -- A step is skipped and changes nothing, or makes the update for a loss, whose value it answers; if
  -- it raises, it has changed nothing or leaves no gradient; and it touches no other optimizer.
  abbrev pub IsRecovered :
      String → TrainEngine P O S L X → Result (Report L X) → TrainEngine P O S L X → Type 0
  IsRecovered objective e (ok report) e' =
      ((report.skipped ≡ true) × (report.loss ≡ none) × (e' ≡ e))
      ⊎ ((loss : L) × ((report.skipped ≡ false)
            × (report.loss ≡ some (torch.loss_value loss))
            × (e' ≡ (update torch e objective loss).1)
            × KeepsOthers (slot e objective) e e'))
  IsRecovered objective e (raise x) e' =
      (e' ≡ e) ⊎ ((e'.net.gradient ≡ none) × KeepsOthers (slot e objective) e e')

  answered-IsRecovered :
      (e : TrainEngine P O S L X) (objective : String) (loss : L)
      (counts : Dict (Component X) → Dict (Component X)) (found : Dict (Component X))
      (r : Result (Option X) × TrainEngine P O S L X)
      → r.1 ≡ (update torch e objective loss).1
      → IsClear r.0 r.1.net
      → let (answer, e') = answered torch loss counts found r in IsRecovered objective e answer e'
  unfolding report_step
  answered-IsRecovered e objective loss counts found (ok norm, e') same clear = inr (
    loss,
    (
      refl,
      refl,
      same,
      subst (KeepsOthers (slot e objective) e) (sym same) (update-KeepsOthers e objective loss),
    ),
  )
  answered-IsRecovered e objective loss counts found (raise x, e') same clear = inr (
    clear,
    subst (KeepsOthers (slot e objective) e) (sym same) (update-KeepsOthers e objective loss),
  )

  made_step :
      (e : TrainEngine P O S L X) (objective : String) (loss : L)
      (counts : Dict (Component X) → Dict (Component X)) (found : Dict (Component X))
      → let (answer, e') = answered torch loss counts found (update torch e objective loss) in
        IsRecovered objective e answer e'
  made_step e objective loss counts found =
      answered-IsRecovered e objective loss counts found (update torch e objective loss) refl
        (update-IsClear e objective loss)

  single-IsRecovered :
      (e : TrainEngine P O S L X) (name : String) (r : Result (Total L X))
      → let (answer, e') = finish_single torch e name r in IsRecovered name e answer e'
  single-IsRecovered e name (raise x) = inl refl
  single-IsRecovered e name (ok total) = by_loss total.found total.sum
    where
      by_loss :
          (found : Dict (Component X)) (l : Option L)
          → let (answer, e') = single_by_loss torch e name found l in IsRecovered name e answer e'
      by_loss found none = inl (refl, refl, refl)
      by_loss found (some loss) = made_step e name loss (λ c. c) found

  multi-IsRecovered :
      (e : TrainEngine P O S L X) (n : ℕ) (r : Result (Total L X × List (Option X)))
      → let (answer, e') = finish_multi torch e n r in IsRecovered shared_key e answer e'
  multi-IsRecovered e n (raise x) = inl refl
  multi-IsRecovered e n (ok (total, losses)) = by_loss total.found total.sum total.skipped_all
    where
      by_loss :
          (found : Dict (Component X)) (l : Option L) (skipped_all : Bool)
          → let (answer, e') = multi_by_loss torch e n losses found l skipped_all in
            IsRecovered shared_key e answer e'
      by_loss found none skipped_all = inl (refl, refl, refl)
      by_loss found (some loss) true = inl (refl, refl, refl)
      by_loss found (some loss) false = made_step e shared_key loss (with_counts losses n) found

-- The objective whose optimizer a call uses: a combined step has the shared slot.
abbrev pub objective_of : {S X : Type 0} → Option String → Option (List (Entry S X)) → String
objective_of name none = or_default name shared_key
objective_of name (some []) = or_default name shared_key
objective_of name (some (entry ∷ entries)) = shared_key

abbrev pub in_training : {P O S L X : Type 0} → TrainEngine P O S L X → TrainEngine P O S L X
in_training e = record e { net = record e.net { training = true } }

module _ {P O S L X : Type 0} (torch : Torch P O L X) (registry : Dict (Objective P S L X)) where
  single_form :
      (e : TrainEngine P O S L X) (spec : Spec S X) (name : Option String)
      → let (answer, e') = step_single torch registry e spec name in
        IsRecovered torch (or_default name shared_key) e answer e'
  single_form e spec none = inl refl
  single_form e spec (some name) =
      single-IsRecovered torch e name (single_total torch registry e name spec)

  forms :
      (e : TrainEngine P O S L X) (spec : Spec S X) (objectives : Option (List (Entry S X)))
      → let (answer, e') = by_form torch registry e spec objectives in
        IsRecovered torch (objective_of spec.objective objectives) e answer e'
  unfolding step_multi
  forms e spec none = single_form e spec spec.objective
  forms e spec (some []) = single_form e spec spec.objective
  forms e spec (some (entry ∷ entries)) =
      multi-IsRecovered torch e (length (entry ∷ entries))
        (multi_total torch registry e (entry ∷ entries) spec)

  -- Whatever the call, the objectives and torch do: a step that is skipped changes nothing but the mode
  -- of the network, and any other that answers has made the update for a loss whose value it answers; a
  -- step that raises has changed nothing but the mode or leaves no gradient; and all optimizers but that
  -- of the call's slot are as before.
  pub step-IsRecovered :
      (e : TrainEngine P O S L X) (spec : Spec S X)
      → let (answer, e') = step torch registry e spec in
        IsRecovered torch (objective_of spec.objective spec.objectives) (in_training e) answer e'
  unfolding step
  step-IsRecovered e spec = forms (in_training e) spec spec.objectives
