-- ===== src/Prelude/Dicts.antt =====
-- A Python dict with text keys, as the list of its items in the order of insertion.
use Prim.Native.String.{String}
use mathlib.Core.Path.{◌≡◌, refl, sym, subst, ap, ◌∙◌}
use mathlib.Core.Logic.{inl, inr}
use mathlib.Core.Bool.{true, false}
use mathlib.Core.Option.{Option, none, some}
use mathlib.Core.List.{List, [], ◌∷◌}
use trainfer.Prelude.Tests.{str_eq, str_eq_iff, if◌then◌else◌, if_true, if_false, Bool-cases}

abbrev pub Dict {ℓ} : Type ℓ → Type ℓ
Dict V = List (String × V)

module _ {ℓ} {V : Type ℓ} where
  unfoldable pub get : String → Dict V → Option V
  get k [] = none
  get k ((c, v) ∷ d) = let later = get k d in if str_eq c k then some v else later

  unfoldable pub set_item : String → V → Dict V → Dict V
  set_item k v [] = (k, v) ∷ []
  set_item k v ((c, w) ∷ d) =
      let rest = set_item k v d in if str_eq c k then (c, v) ∷ d else (c, w) ∷ rest

  -- `d.update(items)`.
  unfoldable pub update : Dict V → Dict V → Dict V
  update d [] = d
  update d ((k, v) ∷ items) = update (set_item k v d) items

  -- `v` where there is none, as `d.get(k, v)` gives.
  abbrev pub or_default : Option V → V → V
  or_default none v = v
  or_default (some a) v = a

pub str_eq-same : (k : String) → str_eq k k ≡ true
str_eq-same k = (str_eq_iff k k).1 refl

pub str_eq-flip : (j k : String) → str_eq j k ≡ false → str_eq k j ≡ false
str_eq-flip j k n = elim (Bool-cases (str_eq k j)) [
  | inl hit ↦
      absurd (cc (n, subst (λ s. str_eq s k ≡ true) ((str_eq_iff k j).0 hit) (str_eq-same k)))
  | inr miss ↦ miss
]

module _ {ℓ} {V : Type ℓ} where
  pub get_hit :
      (k c : String) (v : V) (d : Dict V) → str_eq c k ≡ true → get k ((c, v) ∷ d) ≡ some v
  unfolding get
  get_hit k c v d h = if_true {b = str_eq c k} _ _ h

  pub get_miss :
      (k c : String) (v : V) (d : Dict V) → str_eq c k ≡ false → get k ((c, v) ∷ d) ≡ get k d
  unfolding get
  get_miss k c v d n = if_false {b = str_eq c k} _ _ n

  pub set_hit :
      (k c : String) (v w : V) (d : Dict V)
      → str_eq c k ≡ true
      → set_item k v ((c, w) ∷ d) ≡ (c, v) ∷ d
  unfolding set_item
  set_hit k c v w d h = if_true {b = str_eq c k} _ _ h

  pub set_miss :
      (k c : String) (v w : V) (d : Dict V)
      → str_eq c k ≡ false
      → set_item k v ((c, w) ∷ d) ≡ (c, w) ∷ set_item k v d
  unfolding set_item
  set_miss k c v w d n = if_false {b = str_eq c k} _ _ n

  pub get-set_item : (k : String) (v : V) (d : Dict V) → get k (set_item k v d) ≡ some v
  unfolding set_item get
  get-set_item k v [] = if_true {b = str_eq k k} _ _ (str_eq-same k)
  get-set_item k v ((c, w) ∷ d) = elim (Bool-cases (str_eq c k)) [
    | inl hit ↦ ap (get k) (set_hit k c v w d hit) ∙ get_hit k c v d hit
    | inr miss ↦
        ap (get k) (set_miss k c v w d miss)
        ∙ get_miss k c w (set_item k v d) miss
        ∙ get-set_item k v d
  ]

  pub get-set_other :
      (j k : String) (v : V) (d : Dict V) → str_eq k j ≡ false → get j (set_item k v d) ≡ get j d
  unfolding set_item get
  get-set_other j k v [] n = if_false {b = str_eq k j} _ _ n
  get-set_other j k v ((c, w) ∷ d) n = elim (Bool-cases (str_eq c k)) [
    | inl hit ↦
        let other = subst (λ s. str_eq s j ≡ false) (sym ((str_eq_iff c k).0 hit)) n in
        ap (get j) (set_hit k c v w d hit) ∙ get_miss j c v d other ∙ sym (get_miss j c w d other)
    | inr miss ↦
        ap (get j) (set_miss k c v w d miss)
        ∙ ap (λ later. if str_eq c j then some w else later) (get-set_other j k v d n)
  ]
