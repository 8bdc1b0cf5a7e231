-- ===== src/Ttrl/Vote.antt =====
-- trainfer/ttrl_mv.py: the majority vote, against a count of each key.
use trainfer.Prelude.{
  ℕ, zero, suc, ◌+◌, ◌≤◌, ◌<◌, ◌≡◌, refl, sym, ap, subst, ◌∙◌, inl, inr, String, true, false,
  Option, none, some, List, [], ◌∷◌, take, ltb, str_eq, str_eq_iff, if◌then◌else◌, if_elim, if_true,
  if_false, Bool-cases, All, All-map, arith,
}
use trainfer.Ttrl.{Keys, bump, counter, greatest, index_of, shifted}

-- How many of the keys are w.
abbrev pub count : String → Keys → ℕ
count w [] = 0
count w (none ∷ ks) = count w ks
count w (some k ∷ ks) = let n = count w ks in if str_eq k w then suc n else n

abbrev pub key_at : Keys → ℕ → Option String
key_at [] i = none
key_at (k ∷ ks) zero = k
key_at (k ∷ ks) (suc i) = key_at ks i

abbrev pub lookup : String → List (String × ℕ) → ℕ
lookup w [] = 0
lookup w ((v, n) ∷ rest) = let later = lookup w rest in if str_eq v w then n else later

abbrev raised : String → (String → ℕ) → String → ℕ
raised k f w = if str_eq k w then suc (f w) else f w

str_eq_refl : (k : String) → str_eq k k ≡ true
str_eq_refl k = (str_eq_iff k k).1 refl

-- str_eq is compatible with an equation found by it.
same : (k v w : String) → str_eq k v ≡ true → str_eq k w ≡ str_eq v w
same k v w h = ap (λ s. str_eq s w) ((str_eq_iff k v).0 h)

other : (k v w : String) → str_eq k v ≡ false → str_eq v w ≡ true → str_eq k w ≡ false
other k v w h e = subst (λ s. str_eq k s ≡ false) ((str_eq_iff v w).0 e) h

raised_grows : (k : String) (f : String → ℕ) (w : String) → f w ≤ raised k f w
raised_grows k f w =
    if_elim (λ (n : ℕ). f w ≤ n) (str_eq k w) _ _ (λ _. omega arith) (λ _. omega arith)

lookup-bump :
    (k w : String) (cs : List (String × ℕ)) → lookup w (bump k cs) ≡ raised k (λ v. lookup v cs) w
unfolding bump
lookup-bump k w [] = refl
lookup-bump k w ((v, n) ∷ rest) = elim (Bool-cases (str_eq k v)) [
  | inl hit ↦
      rw (hit, same k v w hit)
        (elim (Bool-cases (str_eq v w)) [ inl e ↦ rw e refl | inr e ↦ rw e refl ])
  | inr miss ↦ rw miss (elim (Bool-cases (str_eq v w)) [
    | inl e ↦ rw (e, other k v w miss e) refl
    | inr e ↦ rw e (lookup-bump k w rest)
  ])
]

abbrev Below : (String → ℕ) → List (String × ℕ) → Type 0
Below f cs = All (λ (e : String × ℕ). e.1 ≤ f e.0) cs

Below-raised :
    (k : String) (f : String → ℕ) (cs : List (String × ℕ)) → Below f cs → Below (raised k f) cs
Below-raised k f cs h =
    All-map (λ (e : String × ℕ). e.1 ≤ f e.0) (λ (e : String × ℕ). e.1 ≤ raised k f e.0) cs
      (λ e le. omega (arith, le, raised_grows k f e.0)) h

bump-Below :
    (k : String) (f : String → ℕ) (cs : List (String × ℕ))
    → Below f cs
    → Below (raised k f) (bump k cs)
unfolding bump
bump-Below k f [] h =
    (subst (λ n. 1 ≤ n) (sym (if_true {b = str_eq k k} _ _ (str_eq_refl k))) (omega arith), tt)
bump-Below k f ((v, n) ∷ rest) h =
    if_elim (Below (raised k f)) (str_eq k v) _ _
      (λ hit. (
        subst (λ m. suc n ≤ m) (sym (if_true {b = str_eq k v} (suc (f v)) (f v) hit))
            (omega (arith, h.0)),
        Below-raised k f rest h.1,
      ))
      (λ miss. (omega (arith, h.0, raised_grows k f v), bump-Below k f rest h.1))

-- The counts are those of f.
abbrev pub Counts : (String → ℕ) → List (String × ℕ) → Type 0
Counts f cs = ((w : String) → lookup w cs ≡ f w) × Below f cs

bump-Counts :
    (k : String) (f : String → ℕ) (cs : List (String × ℕ))
    → Counts f cs
    → Counts (raised k f) (bump k cs)
bump-Counts k f cs (h, b) =
    (λ w. lookup-bump k w cs ∙ ap (λ n. if str_eq k w then suc n else n) (h w), bump-Below k f cs b)

tally :
    (k w : String) (ks : Keys) (m : ℕ)
    → (if str_eq k w then suc m else m) + count w ks ≡ m + count w (some k ∷ ks)
tally k w ks m = elim (Bool-cases (str_eq k w)) [ inl e ↦ rw e (omega arith) | inr e ↦ rw e refl ]

pub Counts-ext :
    (f g : String → ℕ) (cs : List (String × ℕ))
    → ((w : String) → f w ≡ g w)
    → Counts f cs
    → Counts g cs
Counts-ext f g cs e (h, b) = (
  λ w. h w ∙ e w,
  All-map (λ (x : String × ℕ). x.1 ≤ f x.0) (λ (x : String × ℕ). x.1 ≤ g x.0) cs
      (λ x le. subst (λ n. x.1 ≤ n) (e x.0) le) b,
)

pub counter-Counts :
    (f : String → ℕ) (cs : List (String × ℕ)) (ks : Keys)
    → Counts f cs
    → Counts (λ w. f w + count w ks) (counter cs ks)
unfolding counter
counter-Counts f cs [] h = Counts-ext f (λ w. f w + 0) cs (λ w. omega arith) h
counter-Counts f cs (none ∷ ks) h = counter-Counts f cs ks h
counter-Counts f cs (some k ∷ ks) h =
    Counts-ext (λ w. raised k f w + count w ks) (λ w. f w + count w (some k ∷ ks))
      (counter (bump k cs) ks) (λ w. tally k w ks (f w))
      (counter-Counts (raised k f) (bump k cs) ks (bump-Counts k f cs h))

pub greatest-All {ℓ} :
    (P : String × ℕ → Type ℓ) (best : String × ℕ) (es : List (String × ℕ))
    → P best
    → All P es
    → P (greatest best es)
unfolding greatest
greatest-All P best [] h hs = h
greatest-All P best (e ∷ es) h (p, ps) =
    greatest-All P (if ltb best.1 e.1 then e else best) es
      (if_elim P (ltb best.1 e.1) e best (λ _. p) (λ _. h)) ps

pub greatest-grows : (best : String × ℕ) (es : List (String × ℕ)) → best.1 ≤ (greatest best es).1
unfolding greatest
greatest-grows best [] = omega arith
greatest-grows best (e ∷ es) =
    let chosen = if ltb best.1 e.1 then e else best in
    let first =
      if_elim (λ (c : String × ℕ). best.1 ≤ c.1) (ltb best.1 e.1) e best (λ lt. ground arith)
        (λ _. omega arith) in
    omega (arith, first, greatest-grows chosen es)

pub greatest-tops :
    (best : String × ℕ) (es : List (String × ℕ))
    → All (λ (e : String × ℕ). e.1 ≤ (greatest best es).1) es
unfolding greatest
greatest-tops best [] = tt
greatest-tops best (e ∷ es) =
    let chosen = if ltb best.1 e.1 then e else best in
    let first =
      if_elim (λ (c : String × ℕ). e.1 ≤ c.1) (ltb best.1 e.1) e best (λ _. omega arith)
        (λ ge. ground arith) in
    (omega (arith, first, greatest-grows chosen es), greatest-tops chosen es)

pub lookup_bound :
    (w : String) (m : ℕ) (cs : List (String × ℕ))
    → All (λ (e : String × ℕ). e.1 ≤ m) cs
    → lookup w cs ≤ m
lookup_bound w m [] h = omega arith
lookup_bound w m ((v, n) ∷ rest) h =
    if_elim (λ (x : ℕ). x ≤ m) (str_eq v w) _ _ (λ _. h.0) (λ _. lookup_bound w m rest h.1)

-- What it is for w to be found at i, first.
abbrev pub FoundAt : Keys → String → ℕ → Type 0
FoundAt ks w i = (key_at ks i ≡ some w) × (count w (take i ks) ≡ 0)

pub index_of_lem :
    (w : String) (ks : Keys) → 0 < count w ks → (i : ℕ) × (index_of w ks ≡ some i) × FoundAt ks w i
unfolding index_of
index_of_lem w [] h = absurd (omega (arith, h))
index_of_lem w (none ∷ ks) h =
    let (i, e, (f, c)) = index_of_lem w ks h in (suc i, ap shifted e, (f, c))
index_of_lem w (some k ∷ ks) h = elim (Bool-cases (str_eq k w)) [
  | inl hit ↦ (0, if_true {b = str_eq k w} _ _ hit, (ap some ((str_eq_iff k w).0 hit), refl))
  | inr miss ↦
      let (i, e, (f, c)) =
        index_of_lem w ks (subst (λ n. 0 < n) (if_false {b = str_eq k w} _ _ miss) h) in
      (
        suc i,
        if_false {b = str_eq k w} _ _ miss ∙ ap shifted e,
        (f, if_false {b = str_eq k w} _ _ miss ∙ c),
      )
]
