-- ===== src/Controller/Responses/Recent.antt =====
-- trainfer/controller.py: what `_remember_response` keeps.
use trainfer.Prelude.{
  ℕ, suc, ◌≤◌, ◌<◌, ◌≡◌, ◌⊎◌, inl, inr, refl, sym, ap, subst, ◌∙◌, String, true, false, some, [],
  ◌∷◌, length, drop, ltb, ltb→lt, str_eq, str_eq_iff, if_true, if_false, if_elim, Bool-cases, arith,
}
use trainfer.Controller.Feedback.{Prior}
use trainfer.Controller.Responses.{ResponseIndex, set_item, get_item, evict, remember_response}

get_item-set_item :
    (rid : String) (r : Prior) (es : ResponseIndex) → get_item rid (set_item rid r es) ≡ some r
unfolding get_item set_item
get_item-set_item rid r [] = if_true {b = str_eq rid rid} _ _ ((str_eq_iff rid rid).1 refl)
get_item-set_item rid r ((k, v) ∷ es) = elim (Bool-cases (str_eq k rid)) [
  | inl hit ↦ rw hit (if_true {b = str_eq k rid} _ _ hit)
  | inr miss ↦ rw miss (if_false {b = str_eq k rid} _ _ miss ∙ get_item-set_item rid r es)
]

length-set_item :
    (rid : String) (r : Prior) (es : ResponseIndex) → length (set_item rid r es) ≤ suc (length es)
unfolding set_item
length-set_item rid r [] = omega arith
length-set_item rid r ((k, v) ∷ es) =
    if_elim (λ (x : ResponseIndex). length x ≤ suc (suc (length es))) (str_eq k rid) _ _
      (λ _. omega arith) (λ _. omega (arith, length-set_item rid r es))

evict_within : (cap : ℕ) (es : ResponseIndex) → length es ≤ cap → evict cap es ≡ es
unfolding evict
evict_within cap [] h = refl
evict_within cap (e ∷ es) h = if_false {b = ltb cap (length (e ∷ es))} _ _ (ground arith)

evict_over :
    (cap : ℕ) (e : String × Prior) (es : ResponseIndex)
    → cap < suc (length es)
    → evict cap (e ∷ es) ≡ evict cap es
unfolding evict
evict_over cap e es h = if_true {b = ltb cap (suc (length es))} _ _ (ground arith)

set_item_hit :
    (rid k : String) (r v : Prior) (es : ResponseIndex)
    → str_eq k rid ≡ true
    → set_item rid r ((k, v) ∷ es) ≡ (k, r) ∷ es
unfolding set_item
set_item_hit rid k r v es hit = if_true {b = str_eq k rid} _ _ hit

-- The index afterwards: it is within its cap, holds the answer under its id, and has lost nothing,
-- or, where it was full, its oldest entry.
abbrev pub Remembers : ℕ → String → Prior → ResponseIndex → ResponseIndex → Type 0
Remembers cap rid r index out =
    (length out ≤ cap)
    × (get_item rid out ≡ some r)
    × ((out ≡ set_item rid r index)
        ⊎ ((length index ≡ cap) × (out ≡ set_item rid r (drop 1 index))))

within-Remembers :
    (cap : ℕ) (rid : String) (r : Prior) (index : ResponseIndex)
    → length (set_item rid r index) ≤ cap
    → Remembers cap rid r index (evict cap (set_item rid r index))
within-Remembers cap rid r index h =
    subst (Remembers cap rid r index) (sym (evict_within cap (set_item rid r index) h))
      (h, get_item-set_item rid r index, inl refl)

-- A new id in an index that is full.
over-Remembers :
    (cap : ℕ) (rid k : String) (r v : Prior) (es : ResponseIndex)
    → suc (length es) ≤ cap
    → str_eq k rid ≡ false
    → cap < length (set_item rid r ((k, v) ∷ es))
    → Remembers cap rid r ((k, v) ∷ es) (evict cap (set_item rid r ((k, v) ∷ es)))
over-Remembers cap rid k r v es h miss over =
    let s = set_item rid r es in
    let split : set_item rid r ((k, v) ∷ es) ≡ (k, v) ∷ s =
      unfold set_item in if_false {b = str_eq k rid} _ _ miss in
    let small : length s ≤ cap = omega (arith, length-set_item rid r es, h) in
    let above : cap < suc (length s) = subst (λ (x : ResponseIndex). cap < length x) split over in
    let out : evict cap (set_item rid r ((k, v) ∷ es)) ≡ s =
      ap (evict cap) split ∙ evict_over cap (k, v) s above ∙ evict_within cap s small in
    let full : suc (length es) ≡ cap = omega (arith, h, above, length-set_item rid r es) in
    subst (Remembers cap rid r ((k, v) ∷ es)) (sym out)
      (small, get_item-set_item rid r es, inr (full, refl))

-- From an index within a positive cap: after `_remember_response` it is within the cap, the answer
-- is found under its id, and the index is the old one with this entry set, or, where the old one
-- was full, the old one without its oldest entry with this entry set.
pub remember_response-Remembers :
    (cap : ℕ) (rid : String) (r : Prior) (index : ResponseIndex)
    → 0 < cap
    → length index ≤ cap
    → Remembers cap rid r index (remember_response cap rid r index)
unfolding remember_response
remember_response-Remembers cap rid r [] p h =
    within-Remembers cap rid r [] (unfold set_item in omega (arith, p))
remember_response-Remembers cap rid r ((k, v) ∷ es) p h = elim (Bool-cases (str_eq k rid)) [
  | inl hit ↦
      within-Remembers cap rid r ((k, v) ∷ es)
        (subst (λ (x : ResponseIndex). length x ≤ cap) (sym (set_item_hit rid k r v es hit)) h)
  | inr miss ↦ elim (Bool-cases (ltb cap (length (set_item rid r ((k, v) ∷ es))))) [
    | inl over ↦ over-Remembers cap rid k r v es h miss (ltb→lt cap _ over)
    | inr fits ↦ within-Remembers cap rid r ((k, v) ∷ es) (ground arith)
  ]
]
