-- ===== src/Objectives/Safety/Watched.antt =====
-- trainfer/objectives/safety.py: which growers are watched.
use trainfer.Prelude.{
  ℕ, zero, suc, ◌≡◌, refl, sym, ap, ◌∙◌, Bool, true, false, ◌||◌, Option, List, [], ◌∷◌, ◌++◌, map,
  keep, elem, ◌==◌, or_default, if◌then◌else◌,
}
use trainfer.Errors.{Result, ok, raise}
use trainfer.Objectives.Safety.{resolve_watchlist, item, Scored, then_score, watched_in, watched}

pub then_ok :
    {A : Type 0} (r : Result A) (f : A → Result Scored) (sc : Scored)
    → then_score r f ≡ ok sc
    → (a : A) × ((r ≡ ok a) × (f a ≡ ok sc))
then_ok (ok a) f sc e = (a, (refl, e))
then_ok (raise x) f sc e = absurd (cc e)

elem-append : (a : ℕ) (xs ys : List ℕ) → elem a (xs ++ ys) ≡ (elem a xs || elem a ys)
elem-append a [] ys = refl
elem-append a (x ∷ xs) ys =
    ap (λ b. a == x || b) (elem-append a xs ys) ∙ or_assoc (a == x) (elem a xs) (elem a ys)
  where
    or_assoc : (b c d : Bool) → (b || (c || d)) ≡ ((b || c) || d)
    or_assoc true c d = refl
    or_assoc false c d = refl

keep_agree : (p q : ℕ → Bool) (xs : List ℕ) → ((x : ℕ) → p x ≡ q x) → keep p xs ≡ keep q xs
keep_agree p q [] h = refl
keep_agree p q (x ∷ xs) h = λ i. if h x i then x ∷ keep_agree p q xs h i else keep_agree p q xs h i

pub ok_inj : {A : Type 0} {a b : A} → ok a ≡ ok b → a ≡ b
ok_inj {A = A} {a = a} e = ap from_ok e
  where
    from_ok : Result A → A
    from_ok (ok x) = x
    from_ok (raise e) = a

module _ (samples : List (Option (List ℕ))) (watchlist default_watchlist : Option (List ℕ)) where
  abbrev pub in_sample : Result (Option (List ℕ)) → ℕ → Bool
  in_sample (ok w) g = elem g (or_default w [])
  in_sample (raise e) g = false

  -- On the watchlist of the daemon, of the batch objective, or of the sample.
  abbrev pub is_watched : ℕ → ℕ → Bool
  is_watched i g =
      (elem g (or_default default_watchlist []) || elem g (or_default watchlist []))
      || in_sample (item i samples) g

  abbrev pub sets : List (List ℕ)
  sets = resolve_watchlist samples watchlist default_watchlist

  item-map :
      {A B : Type 0} (f : A → B) (i : ℕ) (xs : List A) (b : B)
      → item i (map f xs) ≡ ok b
      → (a : A) × ((item i xs ≡ ok a) × (b ≡ f a))
  unfolding item
  item-map f i [] b e = absurd (cc e)
  item-map f zero (x ∷ xs) b e = (x, (refl, sym (ok_inj e)))
  item-map f (suc i) (x ∷ xs) b e = item-map f i xs b e

  union_watched :
      (i g : ℕ) (w : Option (List ℕ)) (watch_set : List ℕ)
      → item i samples ≡ ok w
      → watch_set ≡ (or_default default_watchlist [] ++ or_default watchlist []) ++ or_default w []
      → elem g watch_set ≡ is_watched i g
  union_watched i g w watch_set e u =
      let low = or_default default_watchlist [] in
      let batch = or_default watchlist [] in
      ap (elem g) u
      ∙ elem-append g (low ++ batch) (or_default w [])
      ∙ ap (λ b. b || elem g (or_default w [])) (elem-append g low batch)
      ∙ ap (λ r. (elem g low || elem g batch) || in_sample r g) (sym e)

  kept_watched :
      (i : ℕ) (gs hits : List ℕ) (r : Result (List ℕ))
      → item i sets ≡ r
      → watched_in r gs ≡ ok hits
      → hits ≡ keep (is_watched i) gs
  kept_watched i gs hits (raise x) found e = absurd (cc e)
  kept_watched i gs hits (ok watch_set) found e =
      let (w, (at, is_union)) = item-map _ i samples watch_set found in
      sym (ok_inj e)
      ∙ keep_agree (λ g. elem g watch_set) (is_watched i) gs
          (λ g. union_watched i g w watch_set at is_union)

  pub all_watched :
      (i : ℕ) (gs hits : List ℕ) → watched sets i gs ≡ ok hits → hits ≡ keep (is_watched i) gs
  all_watched i [] hits e = sym (ok_inj e)
  all_watched i (g ∷ gs) hits e = kept_watched i (g ∷ gs) hits (item i sets) refl e
