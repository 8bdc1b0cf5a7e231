-- ===== src/Engine/Calls.antt =====
-- trainfer/engine/train.py: loops over calls, and sums of the losses that are there.
use trainfer.Prelude.{
  Bool, true, false, Option, none, some, List, [], ◌∷◌, ◌++◌, ◌≡◌, refl, ap, ◌∙◌,
}
use trainfer.Errors.{Result, ok}
use trainfer.Engine.Losses.{then_with}

-- Each call of a list succeeds, with these results.
pub data Called {E A : Type 0} (c : E → Result A) : List E → List (E × A) → Type 0 where
  done : Called c [] []
  called :
      {x : E} {xs : List E} {a : A} {rest : List (E × A)}
      → c x ≡ ok a
      → Called c xs rest
      → Called c (x ∷ xs) ((x, a) ∷ rest)

abbrev pub fold_results : {E A B : Type 0} → (E → A → B → B) → List (E × A) → B → B
fold_results g [] b = b
fold_results g ((x, a) ∷ rest) b = fold_results g rest (g x a b)

-- A loop that runs each call and notes its result, up to one that raises.
pub record IsLoop {E A B : Type 0} (c : E → Result A) (g : E → A → B → B)
    (loop : List E → B → Result B) : Type 0 where
  pub stops : (b : B) → loop [] b ≡ ok b
  pub goes :
      (x : E) (xs : List E) (b : B) → loop (x ∷ xs) b ≡ then_with (c x) (λ a. loop xs (g x a b))

pub loop-Called :
    {E A B : Type 0} (c : E → Result A) (g : E → A → B → B) (loop : List E → B → Result B)
    → IsLoop c g loop
    → {xs : List E} {os : List (E × A)} → Called c xs os
    → (b : B) → loop xs b ≡ ok (fold_results g os b)
loop-Called c g loop l done b = l.stops b
loop-Called c g loop l (called {x = x} {xs = xs} {a = a} e rest) b =
    l.goes x xs b
    ∙ ap (λ r. then_with r (λ a'. loop xs (g x a' b))) e
    ∙ loop-Called c g loop l rest (g x a b)

module _ {L : Type 0} (add : L → L → L) where
  abbrev pub sum_from : L → List (Option L) → L
  sum_from t [] = t
  sum_from t (none ∷ ls) = sum_from t ls
  sum_from t (some l ∷ ls) = sum_from (add t l) ls

  -- The sum, from the left, of the losses that are there, or none.
  abbrev pub sum_of : List (Option L) → Option L
  sum_of [] = none
  sum_of (none ∷ ls) = sum_of ls
  sum_of (some l ∷ ls) = some (sum_from l ls)

  unfoldable pub plus : Option L → Option L → Option L
  plus t none = t
  plus none (some l) = some l
  plus (some t) (some l) = some (add t l)

  unfoldable pub sum_all : Option L → List (Option L) → Option L
  sum_all t [] = t
  sum_all t (l ∷ ls) = sum_all (plus t l) ls

  sum_all-some : (t : L) (ls : List (Option L)) → sum_all (some t) ls ≡ some (sum_from t ls)
  unfolding sum_all plus
  sum_all-some t [] = refl
  sum_all-some t (none ∷ ls) = sum_all-some t ls
  sum_all-some t (some l ∷ ls) = sum_all-some (add t l) ls

  pub sum_all_lem : (ls : List (Option L)) → sum_all none ls ≡ sum_of ls
  unfolding sum_all plus
  sum_all_lem [] = refl
  sum_all_lem (none ∷ ls) = sum_all_lem ls
  sum_all_lem (some l ∷ ls) = sum_all-some l ls

  pub sum_all-append :
      (t : Option L) (xs ys : List (Option L)) → sum_all t (xs ++ ys) ≡ sum_all (sum_all t xs) ys
  unfolding sum_all
  sum_all-append t [] ys = refl
  sum_all-append t (x ∷ xs) ys = sum_all-append (plus t x) xs ys

abbrev pub is_absent : {L : Type 0} → Option L → Bool
is_absent none = true
is_absent (some l) = false
