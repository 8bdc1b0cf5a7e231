-- ===== src/Ttrl/Election.antt =====
-- trainfer/ttrl_mv.py: what `_majority_from_keys` elects.
use trainfer.Prelude.{
  ℕ, ◌+◌, ◌≤◌, ◌<◌, ◌≡◌, refl, sym, subst, String, Option, none, some, List, [], ◌∷◌, ltb, ltb→lt,
  if_elim, arith,
}
use trainfer.Ttrl.{Keys, counter, greatest, with_key, elected, majority_from_keys}
use trainfer.Ttrl.Vote.{
  count, Counts, Counts-ext, FoundAt, counter-Counts, greatest-All, greatest-grows, greatest-tops,
  lookup_bound, index_of_lem,
}

-- What the vote's outcome says of the keys: without a winner no key is there `min_count` times; a
-- winner is there so often, no key is there more often, and its index is that of its first place.
abbrev pub Elects : Keys → ℕ → Option (ℕ × String) → Type 0
Elects keys min_count none = (w : String) → count w keys < min_count
Elects keys min_count (some (i, w)) =
    (min_count ≤ count w keys) × ((v : String) → count v keys ≤ count w keys) × FoundAt keys w i

-- The greatest of the counts is the count of its key, and bounds all others.
greatest_lem :
    (keys : Keys) (e : String × ℕ) (es : List (String × ℕ))
    → Counts (λ w. count w keys) (e ∷ es)
    → let (w, n) = greatest e es in (n ≡ count w keys) × ((v : String) → count v keys ≤ n)
greatest_lem keys e es (h, b) =
    let best = greatest e es in
    let tops = (v : String) → count v keys ≤ best.1 in
    let bound : tops = λ v.
      subst (λ n. n ≤ best.1) (h v)
        (lookup_bound v best.1 (e ∷ es) (greatest-grows e es, greatest-tops e es)) in
    let below = greatest-All (λ (x : String × ℕ). x.1 ≤ count x.0 keys) e es b.0 b.1 in
    (omega (arith, below, bound best.0), bound)

elected-Elects :
    (keys : Keys) (min_count : ℕ) (cs : List (String × ℕ))
    → 0 < min_count
    → Counts (λ w. count w keys) cs
    → Elects keys min_count (elected keys min_count cs)
elected-Elects keys m [] p (h, b) = λ w. subst (λ n. n < m) (h w) p
elected-Elects keys m (e ∷ es) p h =
    let (exact, bound) = greatest_lem keys e es h in
    let w = (greatest e es).0 in
    let n = (greatest e es).1 in
    if_elim (Elects keys m) (ltb n m) _ _ (λ lt. λ v. omega (arith, bound v, ltb→lt n m lt))
      (λ ge.
        let enough : m ≤ n = ground arith in
        let (i, e, found) = index_of_lem w keys (omega (arith, exact, enough, p)) in
        subst (λ o. Elects keys m (with_key w o)) (sym e)
          (omega (arith, exact, enough), (λ v. omega (arith, exact, bound v)), found))

-- For a positive floor: where the vote over the rollouts' keys elects none, each key is there less
-- often than the floor; where it elects one, the key is there at least that often, no other key is
-- there more often, and the index is that of the first rollout with this key.
pub majority_from_keys-Elects :
    (keys : Keys) (min_count : ℕ)
    → 0 < min_count
    → Elects keys min_count (majority_from_keys keys min_count)
unfolding majority_from_keys
majority_from_keys-Elects keys m p = elected-Elects keys m (counter [] keys) p (
    Counts-ext (λ w. 0 + count w keys) (λ w. count w keys) (counter [] keys) (λ w. omega arith)
      (counter-Counts (λ w. 0) [] keys ((λ w. refl), tt)))
