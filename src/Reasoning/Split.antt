-- ===== src/Reasoning/Split.antt =====
-- trainfer/reasoning.py: what the search for a tag finds in a text that goes on.
use trainfer.Prelude.{
  ℕ, zero, suc, ◌+◌, ◌≤◌, ◌≡◌, ◌≢◌, refl, ap, sym, ◌∙◌, Bool, true, false, ◌&&◌, Option, none, some,
  [], ◌∷◌, ◌++◌, length, drop, length-append, ◌==◌, if_true, if_false, Bool-cases, inl, inr, arith,
}
use mathlib.Core.List.{append_assoc}
use trainfer.Reasoning.{Text, starts_with, split_at, cons_before}

-- A prefix found in a text is found however it goes on.
starts_with-append : (tag s t : Text) → starts_with tag s ≡ true → starts_with tag (s ++ t) ≡ true
unfolding starts_with
starts_with-append [] s t h = refl
starts_with-append (c ∷ tag) [] t h = cc
starts_with-append (c ∷ tag) (d ∷ s) t h = ground (arith, starts_with-append tag s t)

-- A text as long as the tag decides whether it begins with it.
starts_with-long :
    (tag s t : Text) → length tag ≤ length s → starts_with tag (s ++ t) ≡ starts_with tag s
unfolding starts_with
starts_with-long [] s t h = refl
starts_with-long (c ∷ tag) [] t h = absurd (omega arith)
starts_with-long (c ∷ tag) (d ∷ s) t h =
    ap (λ b. (c == d) && b) (starts_with-long tag s t (omega arith))

starts_with-le : (tag s : Text) → starts_with tag s ≡ true → length tag ≤ length s
unfolding starts_with
starts_with-le [] s h = omega arith
starts_with-le (c ∷ tag) [] h = cc
starts_with-le (c ∷ tag) (d ∷ s) h = ground (arith, starts_with-le tag s)

drop-append : (n : ℕ) (s t : Text) → n ≤ length s → drop n (s ++ t) ≡ drop n s ++ t
drop-append zero s t h = refl
drop-append (suc n) [] t h = absurd (omega arith)
drop-append (suc n) (c ∷ s) t h = drop-append n s t (omega arith)

-- How a found split looks when the text goes on.
abbrev pub then_after : Option (Text × Text) → Text → Option (Text × Text)
then_after none t = none
then_after (some (before, after)) t = some (before, after ++ t)

abbrev pub before_all : Text → Option (Text × Text) → Option (Text × Text)
before_all d none = none
before_all d (some (before, after)) = some (d ++ before, after)

abbrev pub is_found : Option (Text × Text) → Bool
is_found none = false
is_found (some x) = true

cons_before-then_after :
    (c : ℕ) (o : Option (Text × Text)) (t : Text)
    → cons_before c (then_after o t) ≡ then_after (cons_before c o) t
cons_before-then_after c none t = refl
cons_before-then_after c (some x) t = refl

cons_before-before_all :
    (c : ℕ) (d : Text) (o : Option (Text × Text))
    → cons_before c (before_all d o) ≡ before_all (c ∷ d) o
cons_before-before_all c d none = refl
cons_before-before_all c d (some x) = refl

is_found-cons_before : (c : ℕ) (o : Option (Text × Text)) → is_found (cons_before c o) ≡ is_found o
is_found-cons_before c none = refl
is_found-cons_before c (some x) = refl

split_at_here :
    (tag : Text) (c : ℕ) (s : Text)
    → starts_with tag (c ∷ s) ≡ true
    → split_at tag (c ∷ s) ≡ some ([], drop (length tag) (c ∷ s))
unfolding split_at
split_at_here tag c s h = if_true _ _ h

split_at_later :
    (tag : Text) (c : ℕ) (s : Text)
    → starts_with tag (c ∷ s) ≡ false
    → split_at tag (c ∷ s) ≡ cons_before c (split_at tag s)
unfolding split_at
split_at_later tag c s h = if_false _ _ h

split_at_nil : (tag : Text) → starts_with tag [] ≡ false → split_at tag [] ≡ none
unfolding split_at
split_at_nil tag h = if_false _ _ h

-- The empty tag is found at the start.
split_at_empty : (t : Text) → split_at [] t ≡ some ([], t)
unfolding split_at starts_with
split_at_empty [] = refl
split_at_empty (c ∷ s) = refl

found-le : (tag s : Text) → is_found (split_at tag s) ≡ true → length tag ≤ length s
found-le tag [] h = elim (Bool-cases (starts_with tag [])) [
  | inl e ↦ starts_with-le tag [] e
  | inr e ↦ absurd (cc (ap is_found (split_at_nil tag e), h))
]
found-le tag (c ∷ s) h = elim (Bool-cases (starts_with tag (c ∷ s))) [
  | inl e ↦ starts_with-le tag (c ∷ s) e
  | inr e ↦
      let k : is_found (split_at tag s) ≡ true =
        sym (is_found-cons_before c (split_at tag s))
        ∙ ap is_found (sym (split_at_later tag c s e))
        ∙ h in
      omega (arith, found-le tag s k)
]

-- A tag that is found is found at the same place when the text goes on.
pub split_at-append :
    (tag s t : Text)
    → is_found (split_at tag s) ≡ true
    → split_at tag (s ++ t) ≡ then_after (split_at tag s) t
split_at-append [] [] t h = split_at_empty t ∙ sym (ap (λ o. then_after o t) (split_at_empty []))
split_at-append (x ∷ tag) [] t h = absurd (omega (arith, found-le (x ∷ tag) [] h))
split_at-append tag (c ∷ s) t h = elim (Bool-cases (starts_with tag (c ∷ s))) [
  | inl e ↦
      split_at_here tag c (s ++ t) (starts_with-append tag (c ∷ s) t e)
      ∙ ap (λ r. some ([], r)) (drop-append (length tag) (c ∷ s) t (starts_with-le tag (c ∷ s) e))
      ∙ sym (ap (λ o. then_after o t) (split_at_here tag c s e))
  | inr e ↦
      let k : is_found (split_at tag s) ≡ true =
        sym (is_found-cons_before c (split_at tag s))
        ∙ ap is_found (sym (split_at_later tag c s e))
        ∙ h in
      let le : length tag ≤ length (c ∷ s) = omega (arith, found-le tag s k) in
      split_at_later tag c (s ++ t) (starts_with-long tag (c ∷ s) t le ∙ e)
      ∙ ap (cons_before c) (split_at-append tag s t k)
      ∙ cons_before-then_after c (split_at tag s) t
      ∙ sym (ap (λ o. then_after o t) (split_at_later tag c s e))
]

-- Where a text holds no tag, only its last |tag| - 1 characters can be part of one when it goes on.
pub split_at_held :
    (tag d b t : Text)
    → length tag ≤ length b + 1
    → is_found (split_at tag (d ++ b)) ≡ false
    → split_at tag (d ++ (b ++ t)) ≡ before_all d (split_at tag (b ++ t))
split_at_held tag [] b t le h = before_none (split_at tag (b ++ t))
  where
    before_none : (o : Option (Text × Text)) → o ≡ before_all [] o
    before_none none = refl
    before_none (some x) = refl
split_at_held tag (c ∷ d) b t le h = elim (Bool-cases (starts_with tag (c ∷ (d ++ b)))) [
  | inl e ↦ absurd (cc (ap is_found (split_at_here tag c (d ++ b) e), h))
  | inr e ↦
      let k : is_found (split_at tag (d ++ b)) ≡ false =
        sym (is_found-cons_before c (split_at tag (d ++ b)))
        ∙ ap is_found (sym (split_at_later tag c (d ++ b) e))
        ∙ h in
      let long : length tag ≤ length (c ∷ (d ++ b)) = omega (arith, length-append d b) in
      let no_tag : starts_with tag (c ∷ (d ++ (b ++ t))) ≡ false =
        rw (← append_assoc) (starts_with-long tag (c ∷ (d ++ b)) t long ∙ e) in
      split_at_later tag c (d ++ (b ++ t)) no_tag
      ∙ ap (cons_before c) (split_at_held tag d b t le k)
      ∙ cons_before-before_all c d (split_at tag (b ++ t))
]

-- A text with no tag has none in its end either.
pub split_at-suffix :
    (tag d b : Text) → is_found (split_at tag (d ++ b)) ≡ false → is_found (split_at tag b) ≡ false
split_at-suffix tag [] b h = h
split_at-suffix tag (c ∷ d) b h = elim (Bool-cases (starts_with tag (c ∷ (d ++ b)))) [
  | inl e ↦ absurd (cc (ap is_found (split_at_here tag c (d ++ b) e), h))
  | inr e ↦ split_at-suffix tag d b (
      sym (is_found-cons_before c (split_at tag (d ++ b)))
      ∙ ap is_found (sym (split_at_later tag c (d ++ b) e))
      ∙ h)
]

pub split_at_nothing : (tag : Text) → tag ≢ [] → is_found (split_at tag []) ≡ false
split_at_nothing [] h = absurd (h refl)
split_at_nothing (c ∷ tag) h = ap is_found (split_at_nil (c ∷ tag) (unfold starts_with in refl))
