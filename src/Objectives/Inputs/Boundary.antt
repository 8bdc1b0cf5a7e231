-- ===== src/Objectives/Inputs/Boundary.antt =====
-- trainfer/objectives/_utils.py: how many tokens of a chat are masked.
use trainfer.Prelude.{
  ℕ, zero, suc, ◌+◌, ◌≤◌, ◌<◌, ◌≡◌, refl, sym, ap, ◌∙◌, ◌⊎◌, inl, inr, Bool, true, false, Option,
  none, some, List, [], ◌∷◌, ◌++◌, map, length, take, drop, or_default, arith, if_true, if_false,
  Bool-cases,
}
use mathlib.Core.List.{append_assoc, append-nil}
use trainfer.Objectives.Inputs.{repeat, find_boundary, prefix_length}

length-take : {A : Type 0} (n : ℕ) (xs : List A) → length (take n xs) ≤ n
length-take zero xs = omega arith
length-take (suc n) [] = omega arith
length-take (suc n) (x ∷ xs) = omega (arith, length-take n xs)

pub length-take_within : {A : Type 0} (n : ℕ) (xs : List A) → n ≤ length xs → length (take n xs) ≡ n
length-take_within zero xs h = refl
length-take_within (suc n) [] h = omega arith
length-take_within (suc n) (x ∷ xs) h = ap suc (length-take_within n xs (omega arith))

pub take_all : {A : Type 0} (n : ℕ) (xs : List A) → length xs ≤ n → take n xs ≡ xs
take_all zero [] h = refl
take_all zero (x ∷ xs) h = absurd (omega arith)
take_all (suc n) [] h = refl
take_all (suc n) (x ∷ xs) h = ap (λ r. x ∷ r) (take_all n xs (omega arith))

pub length-drop :
    {A : Type 0} (n : ℕ) (xs : List A) → n ≤ length xs → n + length (drop n xs) ≡ length xs
length-drop zero xs h = omega arith
length-drop (suc n) [] h = omega arith
length-drop (suc n) (x ∷ xs) h = omega (arith, length-drop n xs (omega arith))

pub length-map : {A B : Type 0} (f : A → B) (xs : List A) → length (map f xs) ≡ length xs
length-map f [] = refl
length-map f (x ∷ xs) = ap suc (length-map f xs)

pub length-repeat : {A : Type 0} (n : ℕ) (x : A) → length (repeat n x) ≡ n
length-repeat zero x = refl
length-repeat (suc n) x = ap suc (length-repeat n x)

-- The boundary is the first slice that ends as it should.
abbrev pub IsBoundary : (List ℕ → Bool) → List ℕ → List ℕ → ℕ → Type 0
IsBoundary ends seen ids n =
    (n ≤ length ids)
    × (ends (seen ++ take n ids) ≡ true)
    × ((m : ℕ) → m < n → ends (seen ++ take m ids) ≡ false)

-- No slice ends as it should.
abbrev pub HasNoBoundary : (List ℕ → Bool) → List ℕ → List ℕ → Type 0
HasNoBoundary ends seen ids = (m : ℕ) → m ≤ length ids → ends (seen ++ take m ids) ≡ false

later-HasNoBoundary :
    (ends : List ℕ → Bool) (seen : List ℕ) (id : ℕ) (ids : List ℕ)
    → ends seen ≡ false
    → HasNoBoundary ends (seen ++ (id ∷ [])) ids
    → HasNoBoundary ends seen (id ∷ ids)
later-HasNoBoundary ends seen id ids unended h zero le = ap ends (append-nil seen) ∙ unended
later-HasNoBoundary ends seen id ids unended h (suc m) le =
    sym (ap ends (append_assoc seen (id ∷ []) (take m ids))) ∙ h m (omega arith)

only_seen : (ends : List ℕ → Bool) (seen : List ℕ) → ends seen ≡ false → HasNoBoundary ends seen []
only_seen ends seen unended zero le = ap ends (append-nil seen) ∙ unended
only_seen ends seen unended (suc m) le = absurd (omega arith)

later-IsBoundary :
    (ends : List ℕ → Bool) (seen : List ℕ) (id : ℕ) (ids : List ℕ) (n : ℕ)
    → ends seen ≡ false
    → IsBoundary ends (seen ++ (id ∷ [])) ids n
    → IsBoundary ends seen (id ∷ ids) (suc n)
later-IsBoundary ends seen id ids n unended (within, hit, before) =
    (omega arith, sym (ap ends (append_assoc seen (id ∷ []) (take n ids))) ∙ hit, earlier)
  where
    earlier : (m : ℕ) → m < suc n → ends (seen ++ take m (id ∷ ids)) ≡ false
    earlier zero h = ap ends (append-nil seen) ∙ unended
    earlier (suc m) h =
        sym (ap ends (append_assoc seen (id ∷ []) (take m ids))) ∙ before m (omega arith)

find_boundary_lem :
    (ends : List ℕ → Bool) (at : ℕ) (seen ids : List ℕ)
    → ((find_boundary ends at seen ids ≡ none) × HasNoBoundary ends seen ids)
      ⊎ ((n : ℕ) × (find_boundary ends at seen ids ≡ some (at + n)) × IsBoundary ends seen ids n)
unfolding find_boundary
find_boundary_lem ends at seen [] = elim (Bool-cases (ends seen)) [
  | inl hit ↦ inr (
    0,
    if_true {b = ends seen} _ _ hit ∙ ap some (omega arith),
    (omega arith, ap ends (append-nil seen) ∙ hit, λ m h. absurd (omega arith)),
  )
  | inr miss ↦ inl (if_false {b = ends seen} _ _ miss, only_seen ends seen miss)
]
find_boundary_lem ends at seen (id ∷ ids) = elim (Bool-cases (ends seen)) [
  | inl hit ↦ inr (
    0,
    if_true {b = ends seen} _ _ hit ∙ ap some (omega arith),
    (omega arith, ap ends (append-nil seen) ∙ hit, λ m h. absurd (omega arith)),
  )
  | inr miss ↦ elim (find_boundary_lem ends (suc at) (seen ++ (id ∷ [])) ids) [
    | inl (e, unended) ↦
        inl
          (if_false {b = ends seen} _ _ miss ∙ e, later-HasNoBoundary ends seen id ids miss unended)
    | inr (n, e, boundary) ↦ inr (
      suc n,
      if_false {b = ends seen} _ _ miss ∙ e ∙ ap some (omega arith),
      later-IsBoundary ends seen id ids n miss boundary,
    )
  ]
]

-- What is masked: the prompt, and with a `span_prefix` up to the first boundary. Only where there is
-- none is it the prompt alone.
abbrev pub IsMasked : Option (List ℕ → Bool) → ℕ → List ℕ → ℕ → Type 0
IsMasked none n full_ids masked = masked ≡ n
IsMasked (some ends) n full_ids masked =
    ((masked ≡ n) × HasNoBoundary ends [] (drop n full_ids))
    ⊎ ((m : ℕ) × (masked ≡ n + m) × IsBoundary ends [] (drop n full_ids) m)

pub prefix_length-IsMasked :
    (ends : Option (List ℕ → Bool)) (n : ℕ) (full_ids : List ℕ)
    → IsMasked ends n full_ids (prefix_length ends n full_ids)
prefix_length-IsMasked none n full_ids = refl
prefix_length-IsMasked (some ends) n full_ids =
    elim (find_boundary_lem ends n [] (drop n full_ids)) [
      | inl (e, unended) ↦ inl (ap (λ o. or_default o n) e, unended)
      | inr (m, e, boundary) ↦ inr (m, ap (λ o. or_default o n) e, boundary)
    ]

pub masked_within :
    (ends : Option (List ℕ → Bool)) (n masked : ℕ) (full_ids : List ℕ)
    → n ≤ length full_ids
    → IsMasked ends n full_ids masked
    → (n ≤ masked) × (masked ≤ length full_ids)
masked_within none n masked full_ids h e = (omega (arith, e), omega (arith, e, h))
masked_within (some ends) n masked full_ids h (inl (e, unended)) =
    (omega (arith, e), omega (arith, e, h))
masked_within (some ends) n masked full_ids h (inr (m, e, (within, hit, before))) =
    (omega (arith, e), omega (arith, e, within, length-drop n full_ids h))
