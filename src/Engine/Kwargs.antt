-- ===== src/Engine/Kwargs.antt =====
-- trainfer/engine/train.py: the calls of the objectives and their keyword arguments.
use trainfer.Prelude.{
  ℕ, String, Option, none, some, List, map, Dict, get, or_default, str_eq, if◌then◌else◌,
}
use trainfer.Errors.{Result, raise, key_error}
use trainfer.Engine.{
  Net, Arg, frozen_model, learning_rate, sidecars, watchlist, given, Sidecar, Outcome, Objective,
  TrainEngine, set_default,
}

module _ {P S L X : Type 0} (registry : Dict (Objective P S L X)) where
  abbrev pub call_found :
      Option (Objective P S L X) → Net P → List S → Dict (Arg X) → Result (Outcome L X)
  call_found none net samples kwargs = raise key_error
  call_found (some fn) net samples kwargs = fn net samples kwargs

  -- `get_objective(name)(model, tokenizer, samples, **kwargs)`.
  unfoldable pub call : String → Net P → List S → Dict (Arg X) → Result (Outcome L X)
  call name = call_found (get name registry)

abbrev pub as_given : {X : Type 0} → Dict X → Dict (Arg X)
as_given kwargs = map (λ (k, x). (k, given x)) kwargs

module _ {L X : Type 0} where
  -- A tensor of the primary's result, where it has it and the sidecar does not.
  abbrev pub plumb : Outcome L X → String → Dict (Arg X) → Dict (Arg X)
  plumb result k kwargs = from_result (get k result.tensors)
    where
      from_result : Option X → Dict (Arg X)
      from_result none = kwargs
      from_result (some x) = set_default k (given x) kwargs

  abbrev pub plumb_all : Outcome L X → Dict (Arg X) → Dict (Arg X)
  plumb_all result kwargs = plumb result "attention_mask" (
      plumb result "input_ids"
        (plumb result "target_token_ids" (plumb result "target_positions" kwargs)))

module _ {P O S L X : Type 0} where
  abbrev pub with_frozen_ref : TrainEngine P O S L X → Dict (Arg X) → Dict (Arg X)
  with_frozen_ref e kwargs =
      if e.has_frozen_ref then set_default "pi_ref" frozen_model kwargs else kwargs

  abbrev pub effective_lr : TrainEngine P O S L X → String → ℕ
  effective_lr e name = or_default (get name e.per_objective_lr) e.lr

  unfoldable pub primary_kwargs :
      TrainEngine P O S L X → String → List (Sidecar X) → Dict X → Dict (Arg X)
  primary_kwargs e name bos kwargs = set_default "batch_objectives" (sidecars bos) (
      set_default "effective_lr" (learning_rate (effective_lr e name))
        (with_frozen_ref e (as_given kwargs)))

  unfoldable pub sidecar_kwargs :
      TrainEngine P O S L X → String → Option (Outcome L X) → Sidecar X → Dict (Arg X)
  sidecar_kwargs e lr_name none (bo_name, items) = with_frozen_ref e (as_given items)
  sidecar_kwargs e lr_name (some result) (bo_name, items) =
      let kwargs = with_frozen_ref e (as_given items) in
      if str_eq bo_name "safety_monitor"
      then set_default "effective_lr" (learning_rate (effective_lr e lr_name)) (
          set_default "default_watchlist" (watchlist e.default_watchlist) (plumb_all result kwargs))
      else kwargs
