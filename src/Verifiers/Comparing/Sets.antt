-- ===== src/Verifiers/Comparing/Sets.antt =====
-- trainfer/objectives/verifiers/_logical.py: the mode "set" of `_compare`.
use trainfer.Prelude.{
  ◌≡◌, ◌↔◌, refl, sym, ap, subst, ◌∙◌, Bool, true, false, ◌&&◌, ◌||◌, List, [], ◌∷◌, ◌==◌, ==_iff,
  Bool-cases, inl, inr,
}
use trainfer.Reasoning.{Text}
use trainfer.Verifiers.Comparing.{
  Python, set_mode, text_eq, is_in, is_subset, strip, tokens, compare,
}

and_true : (a b : Bool) → (a && b) ≡ true → (a ≡ true) × (b ≡ true)
and_true true b h = (refl, h)
and_true false b h = absurd (cc h)

text_eq-same : (a : Text) → text_eq a a ≡ true
text_eq-same [] = refl
text_eq-same (c ∷ a) = rw ((==_iff c c).1 refl) (text_eq-same a)

text_eq_lem : (a b : Text) → text_eq a b ≡ true → a ≡ b
text_eq_lem [] [] h = refl
text_eq_lem [] (c ∷ b) h = absurd (cc h)
text_eq_lem (c ∷ a) [] h = absurd (cc h)
text_eq_lem (c ∷ a) (d ∷ b) h =
    let (here, later) = and_true (c == d) (text_eq a b) h in
    λ i. (==_iff c d).0 here i ∷ text_eq_lem a b later i

is_in_later :
    (x a : Text) (as_list : List Text) → is_in x as_list ≡ true → is_in x (a ∷ as_list) ≡ true
is_in_later x a as_list h = elim (Bool-cases (text_eq x a)) [
  | inl hit ↦ ap (λ b. b || is_in x as_list) hit
  | inr miss ↦ ap (λ b. b || is_in x as_list) miss ∙ h
]

is_subset-is_in :
    (x : Text) (xs ys : List Text) → is_subset xs ys ≡ true → is_in x xs ≡ true → is_in x ys ≡ true
is_subset-is_in x [] ys h e = absurd (cc e)
is_subset-is_in x (a ∷ xs) ys h e =
    let (here, later) = and_true (is_in a ys) (is_subset xs ys) h in
    elim (Bool-cases (text_eq x a)) [
      | inl hit ↦ subst (λ t. is_in t ys ≡ true) (sym (text_eq_lem x a hit)) here
      | inr miss ↦ is_subset-is_in x xs ys later (sym (ap (λ b. b || is_in x xs) miss) ∙ e)
    ]

is_in-is_subset :
    (xs ys : List Text)
    → ((x : Text) → is_in x xs ≡ true → is_in x ys ≡ true)
    → is_subset xs ys ≡ true
is_in-is_subset [] ys h = refl
is_in-is_subset (a ∷ xs) ys h =
    rw (h a (ap (λ b. b || is_in a xs) (text_eq-same a)))
      (is_in-is_subset xs ys (λ x e. h x (is_in_later x a xs e)))

both_ways : (a b : Bool) → (a ≡ true → b ≡ true) → (b ≡ true → a ≡ true) → a ≡ b
both_ways true b to from = sym (to refl)
both_ways false true to from = from refl
both_ways false false to from = refl

-- In the mode "set" an answer is right if and only if each text is a token of the answer exactly when it
-- is one of the expected answer: neither their order nor how often they occur counts.
pub compare-set_tokens :
    {F : Type 0} (py : Python F) (got expected : Text)
    → (compare py got expected set_mode ≡ true) ↔ (
        (x : Text)
        → is_in x (tokens py (strip py.is_space got))
          ≡ is_in x (tokens py (strip py.is_space expected)))
unfolding compare
compare-set_tokens py got expected =
    let gs = tokens py (strip py.is_space got) in
    let es = tokens py (strip py.is_space expected) in
    (
      λ h.
          let (to, from) = and_true (is_subset gs es) (is_subset es gs) h in
          λ x.
            both_ways (is_in x gs) (is_in x es) (is_subset-is_in x gs es to)
              (is_subset-is_in x es gs from),
      λ same.
          rw (is_in-is_subset gs es (λ x e. sym (same x) ∙ e))
            (is_in-is_subset es gs (λ x e. same x ∙ e)),
    )
