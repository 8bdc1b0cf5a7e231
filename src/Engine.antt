-- ===== src/Engine.antt =====
-- trainfer/engine/train.py: `TrainEngine`, its optimizers and what it hands to the objectives. The
-- network is its weights with the gradient that backward has left; torch is the parameter `torch`, and an
-- objective a function of the registry. A learning rate and a weight are in fixed steps, a
-- `grad_clip` of 0 is none, and each batch objective has a name. Parts that torch keeps on the device
-- for speed, and the lock that the step holds, are left out.
pub mod Kwargs
pub mod Losses
pub mod Steps
pub mod Calls
pub mod Sums
pub mod Recovery
use trainfer.Prelude.{
  ℕ, String, Bool, true, false, ◌&&◌, Option, none, some, List, [], ◌∷◌, map, Dict, get, set_item,
  or_default, str_eq, if◌then◌else◌,
}
use Prim.Native.String.{◌++◌ as string_append}
use trainfer.Errors.{Raised, Result, ok, raise, key_error}

pub record Net (P : Type 0) : Type 0 where
  pub weights : P
  pub gradient : Option P
  pub training : Bool

pub data OptimizerClass : Type 0 where
  adamw adamw8bit lion8bit : OptimizerClass

-- What the engine asks of torch. `O` is an optimizer, `L` a loss, `X` a number that is reported.
-- A call that raises may leave anything behind.
pub record Torch (P O L X : Type 0) : Type 0 where
  pub zero_loss : L
  pub add : L → L → L
  pub weigh : ℕ → L → L
  pub backward : L → Net P → Result (Unit {0}) × Net P
  pub clip_grad_norm : ℕ → Net P → X × Net P
  pub is_above : X → ℕ → Bool
  pub optimizer_step : O → Net P → Result (Unit {0}) × (O × Net P)
  pub new_optimizer : OptimizerClass → ℕ → O
  pub loss_value : L → X
  pub adapter_norm : P → X

-- A keyword argument of an objective.
pub data Arg (X : Type 0) : Type 0 where
  frozen_model : Arg X
  learning_rate : ℕ → Arg X
  sidecars : List (String × Dict X) → Arg X
  watchlist : List ℕ → Arg X
  given : X → Arg X

-- A batch objective: its name and its other items.
abbrev pub Sidecar : Type 0 → Type 0
Sidecar X = String × Dict X

pub data Component (X : Type 0) : Type 0 where
  reported : X → Component X
  flag : Bool → Component X
  amount : ℕ → Component X
  reason : String → Component X

-- The dict that an objective returns; `tensors` are its other items.
pub record Outcome (L X : Type 0) : Type 0 where
  pub loss : Option L
  pub components : Dict X
  pub tensors : Dict X

pub record Entry (S X : Type 0) : Type 0 where
  pub name : String
  pub weight : Option ℕ
  pub samples : Option (List S)
  pub kwargs : Option (Dict X)

pub record Spec (S X : Type 0) : Type 0 where
  pub objective : Option String
  pub objectives : Option (List (Entry S X))
  pub samples : List S
  pub kwargs : Dict X
  pub batch_objectives : List (Sidecar X)

pub record Report (L X : Type 0) : Type 0 where
  pub loss : Option X
  pub components : Dict (Component X)
  pub skipped : Bool

abbrev pub Objective : Type 0 → Type 0 → Type 0 → Type 0 → Type 0
Objective P S L X = Net P → List S → Dict (Arg X) → Result (Outcome L X)

pub record TrainEngine (P O S L X : Type 0) : Type 0 where
  pub net : Net P
  pub has_frozen_ref : Bool
  pub residual_norm : X
  pub lr : ℕ
  pub grad_clip : ℕ
  pub per_objective : Bool
  pub per_objective_lr : Dict ℕ
  pub default_watchlist : List ℕ
  pub optimizer_class : OptimizerClass
  pub has_bitsandbytes : Bool
  pub opts : Dict O

abbrev pub shared_key : String
shared_key = ""

-- Without bitsandbytes every optimizer is a plain AdamW.
abbrev pub available : Bool → OptimizerClass → OptimizerClass
available true lion8bit = lion8bit
available true adamw = adamw8bit
available true adamw8bit = adamw8bit
available false _ = adamw

-- `if k not in d: d[k] = v`.
abbrev pub kept_or_set : {V : Type 0} → String → V → Dict V → Option V → Dict V
kept_or_set k v d none = set_item k v d
kept_or_set k v d (some _) = d

abbrev pub set_default : {V : Type 0} → String → V → Dict V → Dict V
set_default k v d = kept_or_set k v d (get k d)

abbrev pub slot : {P O S L X : Type 0} → TrainEngine P O S L X → String → String
slot e objective = if e.per_objective then objective else shared_key

module _ {P O S L X : Type 0} (torch : Torch P O L X) where
  -- `_optimizer`: the optimizer of the slot, made on first use.
  abbrev pub fresh_optimizer : TrainEngine P O S L X → String → O
  fresh_optimizer e objective =
      if e.per_objective
      then torch.new_optimizer adamw (or_default (get objective e.per_objective_lr) e.lr)
      else torch.new_optimizer (available e.has_bitsandbytes e.optimizer_class) e.lr

  abbrev pub found_or_made : TrainEngine P O S L X → String → Option O → O × TrainEngine P O S L X
  found_or_made e objective (some opt) = (opt, e)
  found_or_made e objective none =
      let opt = fresh_optimizer e objective in
      (opt, record e { opts = set_item (slot e objective) opt e.opts })

  unfoldable pub optimizer : TrainEngine P O S L X → String → O × TrainEngine P O S L X
  optimizer e objective = found_or_made e objective (get (slot e objective) e.opts)

abbrev pub reset_optimizer : {P O S L X : Type 0} → TrainEngine P O S L X → TrainEngine P O S L X
reset_optimizer e = record e { opts = [] }
