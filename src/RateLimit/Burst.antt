-- ===== src/RateLimit/Burst.antt =====
-- trainfer/server.py: how much a token bucket lets through, and which clients a check concerns.
use trainfer.Prelude.{
  ℕ, suc, ◌+◌, ◌-◌, ◌*◌, ◌≤◌, ◌≡◌, refl, sym, ap, subst, ◌∙◌, inl, inr, String, Bool, true, false,
  Option, none, some, List, [], ◌∷◌, leb, leb→le, str_eq, str_eq_iff, if◌then◌else◌, if_elim,
  if_false, Bool-cases, arith,
}
use native.Mathlib.Nat.{add-mul}
use trainfer.RateLimit.{TokenBucket, min, refill, consume, Buckets, find, put, bucket_or_new, check}

-- How many of the requests at these times get their `wanted` tokens, and the bucket at the end.
abbrev pub count_if : Bool → ℕ → ℕ
count_if true n = suc n
count_if false n = n

unfoldable pub admitted : TokenBucket → ℕ → List ℕ → ℕ
admitted b wanted [] = 0
admitted b wanted (now ∷ times) =
    let (granted, b') = consume b wanted now in count_if granted (admitted b' wanted times)

-- The clock does not go back.
abbrev pub Rises : ℕ → List ℕ → Type 0
Rises t [] = Unit
Rises t (now ∷ times) = (t ≤ now) × Rises now times

abbrev pub last_time : ℕ → List ℕ → ℕ
last_time t [] = t
last_time t (now ∷ times) = last_time now times

min_le : (a b : ℕ) → min a b ≤ b
min_le a b = if_elim (λ (n : ℕ). n ≤ b) (leb a b) _ _ (λ h. ground arith) (λ _. omega arith)

last_time_grows : (t : ℕ) (times : List ℕ) → Rises t times → t ≤ last_time t times
last_time_grows t [] h = omega arith
last_time_grows t (now ∷ times) h = omega (arith, h.0, last_time_grows now times h.1)

-- What one request leaves and takes is at most what was there and has come in.
consume_spends :
    (b : TokenBucket) (wanted now : ℕ)
    → let (granted, b') = consume b wanted now in
      count_if granted 0 * wanted + b'.tokens ≤ b.tokens + (now - b.last_update) * b.rate
unfolding consume
consume_spends b wanted now =
    let have = refill b now in
    let incoming = b.tokens + (now - b.last_update) * b.rate in
    if_elim (λ (r : Bool × TokenBucket). count_if r.0 0 * wanted + r.1.tokens ≤ incoming)
      (leb wanted have) _ _ (λ h. omega (arith, min_le b.capacity incoming, leb→le wanted have h))
      (λ _. omega (arith, min_le b.capacity incoming))

consume_keeps :
    (b : TokenBucket) (wanted now : ℕ)
    → ((consume b wanted now).1.rate ≡ b.rate) × ((consume b wanted now).1.last_update ≡ now)
unfolding consume
consume_keeps b wanted now =
    if_elim (λ (r : Bool × TokenBucket). (r.1.rate ≡ b.rate) × (r.1.last_update ≡ now))
      (leb wanted (refill b now)) _ _ (λ _. (refl, refl)) (λ _. (refl, refl))

count_split : (granted : Bool) (n w : ℕ) → count_if granted n * w ≡ count_if granted 0 * w + n * w
count_split true n w = omega (arith, add-mul 1 n w)
count_split false n w = omega arith

-- Two stretches of time bring in what the whole does.
elapsed_split :
    (t now end rate : ℕ)
    → t ≤ now
    → now ≤ end
    → (now - t) * rate + (end - now) * rate ≡ (end - t) * rate
elapsed_split t now end rate h k =
    sym (add-mul (now - t) (end - now) rate) ∙ ap (λ d. d * rate) (omega (arith, h, k))

-- For requests at times that do not go back, the tokens handed out are at most those that were in
-- the bucket and what its rate brings in up to the last request.
pub admitted_bound :
    (b : TokenBucket) (wanted : ℕ) (times : List ℕ)
    → Rises b.last_update times
    → admitted b wanted times * wanted
      ≤ b.tokens + (last_time b.last_update times - b.last_update) * b.rate
unfolding admitted
admitted_bound b wanted [] h = omega arith
admitted_bound b wanted (now ∷ times) h =
    let granted = (consume b wanted now).0 in
    let b' = (consume b wanted now).1 in
    let keeps = consume_keeps b wanted now in
    let end = last_time now times in
    let later = admitted b' wanted times in
    let rest = admitted_bound b' wanted times (subst (λ t. Rises t times) (sym keeps.1) h.1) in
    let from_now =
      subst (λ t. later * wanted ≤ b'.tokens + (last_time t times - t) * b'.rate) keeps.1 rest in
    let bound : later * wanted ≤ b'.tokens + (end - now) * b.rate =
      subst (λ r. later * wanted ≤ b'.tokens + (end - now) * r) keeps.0 from_now in
    omega (
      arith,
      count_split granted later wanted,
      consume_spends b wanted now,
      bound,
      elapsed_split b.last_update now end b.rate h.0 (last_time_grows now times h.1),
    )

find-put_other :
    (client other : String) (b : TokenBucket) (bs : Buckets)
    → str_eq client other ≡ false
    → find other (put client b bs) ≡ find other bs
unfolding find put
find-put_other client other b [] n = if_false {b = str_eq client other} _ _ n
find-put_other client other b ((c, a) ∷ bs) n = elim (Bool-cases (str_eq c client)) [
  | inl hit ↦ rw hit (
      let miss = subst (λ s. str_eq s other ≡ false) (sym ((str_eq_iff c client).0 hit)) n in
      if_false {b = str_eq c other} _ _ miss ∙ sym (if_false {b = str_eq c other} _ _ miss))
  | inr miss ↦
      rw miss (
        ap (λ later. if str_eq c other then some a else later) (find-put_other client other b bs n))
]

-- A check for one client leaves the bucket of every other as it was.
pub check-other :
    (rps : Option ℕ) (buckets : Buckets) (client other : String) (now : ℕ)
    → str_eq client other ≡ false
    → find other (check rps buckets client now).1 ≡ find other buckets
unfolding check
check-other none buckets client other now n = refl
check-other (some rps) buckets client other now n =
    find-put_other client other
      (consume (bucket_or_new rps now (find client buckets)) 1000000 now).1 buckets n
