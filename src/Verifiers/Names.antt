-- ===== src/Verifiers/Names.antt =====
-- trainfer/objectives/verifiers/__init__.py: the sets of domains that `load_plugins` takes.
use mathlib.Core.List.{append_assoc, append-nil}
use trainfer.Prelude.{
  ◌≡◌, ◌⊎◌, inl, inr, refl, sym, ap, ◌∙◌, Bool, true, false, ◌||◌, List, [], ◌∷◌, ◌++◌, String,
  Dict, set_item, update, str_eq, str_eq_iff, str_eq-same, set_hit, set_miss, subst, if_elim,
  Bool-cases, All, All-map,
}
use trainfer.Verifiers.{mem, keys, insert, sorted, minus}

-- Membership of texts.
or_true : (a b : Bool) → (a || b) ≡ true → (a ≡ true) ⊎ (b ≡ true)
or_true true b h = inl refl
or_true false b h = inr h

pub or_right : (a b : Bool) → b ≡ true → (a || b) ≡ true
or_right true b h = refl
or_right false b h = h

pub or_left : (a b : Bool) → a ≡ true → (a || b) ≡ true
or_left a b h = rw h

pub mem-append : (k : String) (xs ys : List String) → mem k (xs ++ ys) ≡ (mem k xs || mem k ys)
mem-append k [] ys = refl
mem-append k (x ∷ xs) ys =
    ap (λ b. str_eq x k || b) (mem-append k xs ys) ∙ or_assoc (str_eq x k) (mem k xs) (mem k ys)
  where
    or_assoc : (a b c : Bool) → (a || (b || c)) ≡ ((a || b) || c)
    or_assoc true b c = refl
    or_assoc false b c = refl

module _ (before : String → String → Bool) where
  insert-mem :
      (d k : String) (cs : List String) → mem d (insert before k cs) ≡ (str_eq k d || mem d cs)
  unfolding insert
  insert-mem d k [] = refl
  insert-mem d k (c ∷ cs) =
      if_elim (λ l. mem d l ≡ (str_eq k d || (str_eq c d || mem d cs))) (before c k) _ _
        (λ _.
          ap (λ b. str_eq c d || b) (insert-mem d k cs) ∙ swap (str_eq c d) (str_eq k d) (mem d cs))
        (λ _. refl)
    where
      swap : (a b c : Bool) → (a || (b || c)) ≡ (b || (a || c))
      swap true true c = refl
      swap true false c = refl
      swap false b c = refl

  pub sorted-mem : (d : String) (ks : List String) → mem d (sorted before ks) ≡ mem d ks
  unfolding sorted
  sorted-mem d [] = refl
  sorted-mem d (k ∷ ks) =
      insert-mem d k (sorted before ks) ∙ ap (λ b. str_eq k d || b) (sorted-mem d ks)

module _ {ℓ} (P : String → Type ℓ) (before : String → String → Bool) where
  insert-All : (k : String) (cs : List String) → P k → All P cs → All P (insert before k cs)
  unfolding insert
  insert-All k [] hk h = (hk, tt)
  insert-All k (c ∷ cs) hk h =
      if_elim (All P) (before c k) _ _ (λ _. (h.0, insert-All k cs hk h.1)) (λ _. (hk, h))

  pub sorted-All : (ks : List String) → All P ks → All P (sorted before ks)
  unfolding sorted
  sorted-All [] h = tt
  sorted-All (k ∷ ks) h = insert-All k (sorted before ks) h.0 (sorted-All ks h.1)

pub minus-All :
    (ks old : List String) → All (λ d. (mem d old ≡ false) × (mem d ks ≡ true)) (minus ks old)
unfolding minus
minus-All [] old = tt
minus-All (k ∷ ks) old =
    let later =
      All-map (λ d. (mem d old ≡ false) × (mem d ks ≡ true))
        (λ d. (mem d old ≡ false) × (mem d (k ∷ ks) ≡ true)) (minus ks old)
        (λ d h. (h.0, or_right (str_eq k d) (mem d ks) h.1)) (minus-All ks old) in
    if_elim (All (λ d. (mem d old ≡ false) × (mem d (k ∷ ks) ≡ true))) (mem k old) _ _ (λ _. later)
      (λ miss. ((miss, or_left (str_eq k k) (mem k ks) (str_eq-same k)), later))

pub minus-mem :
    (d : String) (ks old : List String)
    → mem d ks ≡ true
    → mem d old ≡ false
    → mem d (minus ks old) ≡ true
unfolding minus
minus-mem d [] old h n = h
minus-mem d (k ∷ ks) old h n =
    if_elim (λ l. mem d l ≡ true) (mem k old) _ _
      (λ hit. elim (or_true (str_eq k d) (mem d ks) h) [
        | inl e ↦ absurd (cc (n, subst (λ c. mem c old ≡ true) ((str_eq_iff k d).0 e) hit))
        | inr later ↦ minus-mem d ks old later n
      ])
      (λ _. elim (or_true (str_eq k d) (mem d ks) h) [
        | inl e ↦ or_left (str_eq k d) (mem d (minus ks old)) e
        | inr later ↦ or_right (str_eq k d) (mem d (minus ks old)) (minus-mem d ks old later n)
      ])

-- A key that a dict has stays, and a new one goes to the end.
set_item-keys {ℓ} :
    {A : Type ℓ} (k : String) (v : A) (d : Dict A)
    → (added : List String) × (keys (set_item k v d) ≡ keys d ++ added)
unfolding set_item
set_item-keys k v [] = (k ∷ [], refl)
set_item-keys k v ((c, w) ∷ d) = elim (Bool-cases (str_eq c k)) [
  | inl hit ↦ ([], ap keys (set_hit k c v w d hit) ∙ sym (append-nil (c ∷ keys d)))
  | inr miss ↦
      let (added, e) = set_item-keys k v d in
      (added, ap keys (set_miss k c v w d miss) ∙ ap (λ l. c ∷ l) e)
]

pub update-keys {ℓ} :
    {A : Type ℓ} (items d : Dict A)
    → (added : List String) × (keys (update d items) ≡ keys d ++ added)
unfolding update
update-keys [] d = ([], sym (append-nil (keys d)))
update-keys ((k, v) ∷ items) d =
    let (first, e) = set_item-keys k v d in
    let (later, e') = update-keys items (set_item k v d) in
    (first ++ later, e' ∙ ap (λ l. l ++ later) e ∙ append_assoc (keys d) first later)

pub mem_grown :
    (d : String) (ks added all : List String)
    → all ≡ ks ++ added
    → mem d ks ≡ true
    → mem d all ≡ true
mem_grown d ks added all e h =
    ap (mem d) e ∙ mem-append d ks added ∙ or_left (mem d ks) (mem d added) h

pub mem_not_grown :
    (d : String) (ks added all : List String)
    → all ≡ ks ++ added
    → mem d all ≡ false
    → mem d ks ≡ false
mem_not_grown d ks added all e n = elim (Bool-cases (mem d ks)) [
  | inl hit ↦ absurd (cc (n, mem_grown d ks added all e hit))
  | inr miss ↦ miss
]
