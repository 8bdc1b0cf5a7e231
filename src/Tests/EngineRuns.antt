-- ===== src/Tests/EngineRuns.antt =====
-- trainfer/engine/train.py: a combined step of two objectives and an anchor, with numbers for losses.
use trainfer.Prelude.{
  ℕ, suc, ◌+◌, ◌*◌, ◌/◌, String, ltb, ◌≡◌, refl, true, false, Option, none, some, List, [], ◌∷◌,
  ◌++◌, arith, map, Dict, get,
}
use trainfer.Errors.{ok}
use trainfer.Engine.{Torch, Outcome, Entry, Spec, Objective, TrainEngine, adamw}
use trainfer.Engine.Kwargs.{call}
use trainfer.Engine.Losses.{Total, multi_total, first_name, sidecar_samples}
use trainfer.Engine.Steps.{step}
use trainfer.Engine.Calls.{Called, done, called, sum_of, is_absent}
use trainfer.Engine.Sums.{
  primary_call, sidecar_call, weighted_loss, value_of, first_outcome, multi_total-sums,
}
use trainfer.Engine.Recovery.{IsRecovered, objective_of, in_training, step-IsRecovered}

abbrev pub numbers : Torch ℕ ℕ ℕ ℕ
numbers = record {
  zero_loss = 0;
  add = λ m n. m + n;
  weigh = λ w l. (w * l) / 1000;
  backward = λ l net. (ok tt, record net { gradient = some l });
  clip_grad_norm = λ c net. (7, net);
  is_above = λ n c. ltb c n;
  optimizer_step = λ o net. (ok tt, (suc o, record net { weights = suc net.weights }));
  new_optimizer = λ c lr. 0;
  loss_value = λ l. l;
  adapter_norm = λ p. p;
}

abbrev outcome : Option ℕ → Outcome ℕ ℕ
outcome l = record { loss = l; components = ("n", 1) ∷ []; tensors = [] }

abbrev pub registry : Dict (Objective ℕ ℕ ℕ ℕ)
registry =
    ("sft", λ net samples kwargs. ok (outcome (some 40)))
    ∷ ("unlike", λ net samples kwargs. ok (outcome none))
    ∷ ("kl_anchor", λ net samples kwargs. ok (outcome (some 3)))
    ∷ []

abbrev entries : List (Entry ℕ ℕ)
entries =
    record { name = "unlike"; weight = none; samples = none; kwargs = none }
    ∷ record { name = "sft"; weight = some 500; samples = some (8 ∷ []); kwargs = none }
    ∷ []

abbrev pub spec : Spec ℕ ℕ
spec = record {
  objective = none;
  objectives = some entries;
  samples = [];
  kwargs = [];
  batch_objectives = ("kl_anchor", []) ∷ [];
}

abbrev pub engine : TrainEngine ℕ ℕ ℕ ℕ ℕ
engine = record {
  net = record { weights = 0; gradient = none; training = false };
  has_frozen_ref = true;
  residual_norm = 0;
  lr = 10;
  grad_clip = 1;
  per_objective = true;
  per_objective_lr = [];
  default_watchlist = [];
  optimizer_class = adamw;
  has_bitsandbytes = false;
  opts = ("sft", 4) ∷ [];
}

abbrev primaries : List (Entry ℕ ℕ × Outcome ℕ ℕ)
primaries =
    (record { name = "unlike"; weight = none; samples = none; kwargs = none }, outcome none)
    ∷ (
      record { name = "sft"; weight = some 500; samples = some (8 ∷ []); kwargs = none },
      outcome (some 40),
    )
    ∷ []

primaries-Called : Called (primary_call registry engine spec) entries primaries
unfolding call get
primaries-Called = called refl (called refl done)

abbrev anchors : List ((String × Dict ℕ) × Outcome ℕ ℕ)
anchors = (("kl_anchor", []), outcome (some 3)) ∷ []

anchors-Called :
    Called
      (sidecar_call registry engine
        (sidecar_samples spec.samples entries)
        (first_name entries)
        (first_outcome primaries))
      spec.batch_objectives
      anchors
unfolding call get
anchors-Called = called refl done

-- Half of 40, and 3.
sum_run :
    sum_of numbers.add (map (weighted_loss numbers) primaries ++ map (λ (bo, r). r.loss) anchors)
    ≡ some 23
sum_run = refl

multi_total-sums_example :
    (total : Total ℕ ℕ) × ((multi_total numbers registry engine entries spec
        ≡ ok (total, map (value_of numbers) primaries))
      × (total.sum
          ≡ sum_of numbers.add
              (map (weighted_loss numbers) primaries ++ map (λ (bo, r). r.loss) anchors))
      × (total.skipped_all ≡ is_absent total.sum))
multi_total-sums_example =
    multi_total-sums numbers registry (λ l. omega arith) engine entries spec primaries anchors
      primaries-Called anchors-Called

step-IsRecovered_example :
    let (answer, e') = step numbers registry engine spec in
    IsRecovered numbers (objective_of spec.objective spec.objectives) (in_training engine) answer e'
step-IsRecovered_example = step-IsRecovered numbers registry engine spec
