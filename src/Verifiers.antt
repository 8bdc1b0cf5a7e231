-- ===== src/Verifiers.antt =====
-- trainfer/objectives/verifiers/__init__.py: the registry of verifiers. The type of a verdict (a bool or
-- a float) is a parameter. A candidate is the list of its code points. The warnings are left out.

pub mod Names
pub mod Plugins
pub mod Routing
pub mod Comparing
pub mod Logical
use trainfer.Prelude.{
  Bool, true, false, not, ◌&&◌, ◌||◌, Option, none, some, List, [], ◌∷◌, ◌++◌, String, Dict, get,
  set_item, update, str_eq, if◌then◌else◌,
}
use trainfer.Reasoning.{Text}

-- What a call gives: a value, or an exception.
pub data Outcome (A : Type 0) : Type 0 where
  returned : A → Outcome A
  raised : Outcome A

-- A registered function, with its attribute `claims` where that is callable.
pub record Verifier (V : Type 0) : Type 0 where
  pub judges : String → Text → Outcome (Option V)
  pub claims : Option (String → Outcome Bool)

-- A package that the entry points name: what its import registers, in order, and whether the import
-- then fails. An import that Python has cached registers nothing.
pub record Plugin (V : Type 0) : Type 0 where
  pub registers : Dict (Verifier V)
  pub fails : Bool

abbrev pub mem : String → List String → Bool
mem k [] = false
mem k (c ∷ cs) = str_eq c k || mem k cs

abbrev pub keys {ℓ} : {A : Type ℓ} → Dict A → List String
keys [] = []
keys ((k, _) ∷ d) = k ∷ keys d

-- `sorted`, by the order of texts `before`.
unfoldable pub insert : (String → String → Bool) → String → List String → List String
insert before k [] = k ∷ []
insert before k (c ∷ cs) =
    let rest = insert before k cs in if before c k then c ∷ rest else k ∷ c ∷ cs

unfoldable pub sorted : (String → String → Bool) → List String → List String
sorted before [] = []
sorted before (k ∷ ks) = insert before k (sorted before ks)

-- The difference of two sets of domains.
unfoldable pub minus : List String → List String → List String
minus [] old = []
minus (k ∷ ks) old = let rest = minus ks old in if mem k old then rest else k ∷ rest

abbrev pub caught : {A : Type 0} → Outcome (Option A) → Option A
caught (returned v) = v
caught raised = none

abbrev pub asked : Option (String → Outcome Bool) → String → Outcome Bool
asked none prompt = returned false
asked (some claims) prompt = claims prompt

abbrev pub first_claim : String → Outcome Bool → Outcome (Option String) → Outcome (Option String)
first_claim domain (returned true) later = returned (some domain)
first_claim domain (returned false) later = later
first_claim domain raised later = raised

module _ {V : Type 0} where
  abbrev pub register : String → Verifier V → Dict (Verifier V) → Dict (Verifier V)
  register domain fn verifiers = set_item domain fn verifiers

  abbrev pub verify_by : Option (Verifier V) → String → Text → Option V
  verify_by none prompt candidate = none
  verify_by (some fn) prompt candidate = caught (fn.judges prompt candidate)

  unfoldable pub verify : Dict (Verifier V) → String → String → Text → Option V
  verify verifiers domain prompt candidate = verify_by (get domain verifiers) prompt candidate

  -- The exception of a `claims` is not caught.
  unfoldable pub select : Dict (Verifier V) → String → Outcome (Option String)
  select [] prompt = returned none
  select ((domain, fn) ∷ verifiers) prompt =
      first_claim domain (asked fn.claims prompt) (select verifiers prompt)

  abbrev pub loaded_names :
      (String → String → Bool) → Plugin V → Dict (Verifier V) → Dict (Verifier V) → List String
  loaded_names before ep old new =
      if ep.fails then [] else sorted before (minus (keys new) (keys old))

  -- The loop over the entry points: the domains loaded, and the registry.
  unfoldable pub load_each :
      (String → String → Bool)
      → List (Plugin V)
      → Dict (Verifier V)
      → List String × Dict (Verifier V)
  load_each before [] verifiers = ([], verifiers)
  load_each before (ep ∷ eps) verifiers =
      let new = update verifiers ep.registers in
      let (loaded, last) = load_each before eps new in
      (loaded_names before ep verifiers new ++ loaded, last)

  -- Without entry points where their discovery fails.
  abbrev pub load_plugins :
      (String → String → Bool)
      → Outcome (List (Plugin V))
      → Dict (Verifier V)
      → List String × Dict (Verifier V)
  load_plugins before raised verifiers = ([], verifiers)
  load_plugins before (returned eps) verifiers = load_each before eps verifiers
