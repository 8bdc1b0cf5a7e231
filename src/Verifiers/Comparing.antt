-- ===== src/Verifiers/Comparing.antt =====
-- trainfer/objectives/verifiers/_logical.py: the answer in a candidate, and its comparison with the one
-- that is expected. Texts are lists of code points.

pub mod Sets
use trainfer.Prelude.{
  ℕ, Bool, true, false, not, ◌&&◌, ◌||◌, Option, none, some, List, [], ◌∷◌, ◌++◌, map, keep, String,
  Dict, get, set_item, update, str_eq, leb, ◌==◌, if◌then◌else◌,
}
use trainfer.Reasoning.{Text}
use trainfer.Verifiers.{Outcome, returned, raised, mem, keys}

-- What the code uses of re, hashlib, str and float. `finditer` gives the first group of each match,
-- which may raise, and raises for a bad pattern; none stands for `_DEFAULT_EXTRACT`. `fullmatch` gives
-- none for a bad pattern. `is_near` is `abs(a - b) < 1e-9`.
pub record Python (F : Type 0) : Type 0 where
  pub lower : Text → Text
  pub is_space : ℕ → Bool
  pub float : Text → Option F
  pub is_near : F → F → Bool
  pub finditer : Option Text → Text → Outcome (List (Outcome Text))
  pub fullmatch : Text → Text → Option Bool
  pub hash : String → String

-- The value of `compare`; `other_mode` is any text that is none of the five.
pub data Mode : Type 0 where
  exact_mode numeric_mode set_mode bool_mode regex_mode other_mode : Mode

abbrev pub text_eq : Text → Text → Bool
text_eq [] [] = true
text_eq [] (b ∷ later) = false
text_eq (a ∷ more) [] = false
text_eq (a ∷ more) (b ∷ later) = a == b && text_eq more later

abbrev pub is_in : Text → List Text → Bool
is_in a [] = false
is_in a (b ∷ later) = text_eq a b || is_in a later

abbrev pub is_subset : List Text → List Text → Bool
is_subset [] bs = true
is_subset (a ∷ more) bs = is_in a bs && is_subset more bs

abbrev pub is_empty : Text → Bool
is_empty [] = true
is_empty (c ∷ s) = false

abbrev pub lstrip : (ℕ → Bool) → Text → Text
lstrip is_space [] = []
lstrip is_space (c ∷ s) = let rest = lstrip is_space s in if is_space c then rest else c ∷ s

abbrev pub rstrip : (ℕ → Bool) → Text → Text
rstrip is_space [] = []
rstrip is_space (c ∷ s) =
    let rest = rstrip is_space s in if is_empty rest && is_space c then [] else c ∷ rest

abbrev pub strip : (ℕ → Bool) → Text → Text
strip is_space s = rstrip is_space (lstrip is_space s)

-- The characters `[0-9.\-]`.
abbrev pub is_numeral : ℕ → Bool
is_numeral c = (leb 48 c && leb c 57) || (c == 46 || c == 45)

abbrev pub no_number : List Text
no_number = [] ∷ (46 ∷ []) ∷ (45 ∷ []) ∷ (45 ∷ 46 ∷ []) ∷ []

abbrev pub to_first : ℕ → List Text → List Text
to_first c [] = (c ∷ []) ∷ []
to_first c (s ∷ pieces) = (c ∷ s) ∷ pieces

-- The pieces between separators; a run of them leaves empty pieces, which the code drops as well.
abbrev pub split_on : (ℕ → Bool) → Text → List Text
split_on is_separator [] = [] ∷ []
split_on is_separator (c ∷ s) =
    let pieces = split_on is_separator s in
    if is_separator c then [] ∷ pieces else to_first c pieces

-- "1", "true", "yes", "y", "t"
abbrev pub truthy : List Text
truthy =
    (49 ∷ []) ∷ (116 ∷ 114 ∷ 117 ∷ 101 ∷ []) ∷ (121 ∷ 101 ∷ 115 ∷ []) ∷ (121 ∷ []) ∷ (116 ∷ []) ∷ []

-- "0", "false", "no", "n", "f"
abbrev pub falsy : List Text
falsy =
    (48 ∷ []) ∷ (102 ∷ 97 ∷ 108 ∷ 115 ∷ 101 ∷ []) ∷ (110 ∷ 111 ∷ []) ∷ (110 ∷ []) ∷ (102 ∷ []) ∷ []

abbrev pub same_bool : Option Bool → Option Bool → Bool
same_bool (some true) (some true) = true
same_bool (some false) (some false) = true
same_bool _ _ = false

abbrev pub matched : Option Bool → Bool
matched none = false
matched (some b) = b

-- A missing or empty pattern is the default one.
abbrev pub pattern_or_default : Option Text → Option Text
pattern_or_default (some (c ∷ s)) = some (c ∷ s)
pattern_or_default _ = none

abbrev pub mode_or_default : Option Mode → Mode
mode_or_default none = exact_mode
mode_or_default (some mode) = mode

module _ {F : Type 0} (py : Python F) where
  abbrev pub num : Text → Option F
  num x =
      let cleaned = keep is_numeral x in if is_in cleaned no_number then none else py.float cleaned

  abbrev pub near : Option F → Option F → Bool
  near (some a) (some b) = py.is_near a b
  near _ _ = false

  abbrev pub norm_bool : Text → Option Bool
  norm_bool s =
      let t = py.lower (strip py.is_space s) in
      if is_in t truthy then some true else if is_in t falsy then some false else none

  abbrev pub tokens : Text → List Text
  tokens s =
      map (λ x. py.lower (strip py.is_space x))
        (keep (λ x. not (is_empty (strip py.is_space x)))
          (split_on (λ c. c == 44 || py.is_space c) s))

  abbrev pub compare_stripped : Mode → Text → Text → Bool
  compare_stripped exact_mode g e = text_eq (py.lower g) (py.lower e)
  compare_stripped numeric_mode g e = near (num g) (num e)
  compare_stripped set_mode g e = is_subset (tokens g) (tokens e) && is_subset (tokens e) (tokens g)
  compare_stripped bool_mode g e = same_bool (norm_bool g) (norm_bool e)
  compare_stripped regex_mode g e = matched (py.fullmatch e g)
  compare_stripped other_mode g e = false

  unfoldable pub compare : Text → Text → Mode → Bool
  compare got expected mode =
      compare_stripped mode (strip py.is_space got) (strip py.is_space expected)

  abbrev pub stripped_group : Outcome Text → Outcome (Option Text)
  stripped_group raised = raised
  stripped_group (returned s) = returned (some (strip py.is_space s))

  -- The last match wins.
  abbrev pub last_group : List (Outcome Text) → Outcome (Option Text)
  last_group [] = returned none
  last_group (group ∷ []) = stripped_group group
  last_group (_ ∷ group ∷ groups) = last_group (group ∷ groups)

  abbrev pub groups_of : Outcome (List (Outcome Text)) → Outcome (Option Text)
  groups_of raised = raised
  groups_of (returned groups) = last_group groups

  unfoldable pub extract : Text → Option Text → Outcome (Option Text)
  extract candidate pattern = groups_of (py.finditer (pattern_or_default pattern) candidate)
