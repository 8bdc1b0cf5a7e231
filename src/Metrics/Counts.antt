-- ===== src/Metrics/Counts.antt =====
-- trainfer/metrics.py: nothing is counted twice or left out, and the labels of requests are few.
use trainfer.Prelude.{
  ℕ, suc, ◌+◌, ◌≡◌, refl, ◌⊎◌, inl, inr, String, Option, none, some, List, [], ◌∷◌, Dict, get,
  set_item, or_default, str_eq, if_elim, Bool-cases, length, All, arith,
}
use trainfer.Errors.{Result, ok, raise}
use trainfer.Metrics.{inc, Metrics, record_request, resolve_route, dispatch}

module _ {V : Type 0} (size : V → ℕ) where
  -- What the children of a metric come to.
  abbrev pub total : Dict V → ℕ
  total [] = 0
  total ((k, v) ∷ d) = size v + total d

  abbrev pub size_at : Option V → ℕ
  size_at none = 0
  size_at (some v) = size v

  total-set_item :
      (k : String) (v : V) (d : Dict V)
      → total (set_item k v d) + size_at (get k d) ≡ total d + size v
  unfolding set_item get
  total-set_item k v [] = omega arith
  total-set_item k v ((c, w) ∷ d) = elim (Bool-cases (str_eq c k)) [
    | inl hit ↦ rw hit (omega arith)
    | inr miss ↦ rw miss (omega (arith, total-set_item k v d))
  ]

-- A property of the labels.
abbrev pub Labels {ℓ} : {V : Type ℓ} → (String → Type 0) → Dict V → Type 0
Labels P [] = Unit
Labels P ((k, v) ∷ d) = P k × Labels P d

set_item-Labels :
    {V : Type 0} (P : String → Type 0) (k : String) (v : V) (d : Dict V)
    → P k
    → Labels P d
    → Labels P (set_item k v d)
unfolding set_item
set_item-Labels P k v [] p h = (p, tt)
set_item-Labels P k v ((c, w) ∷ d) p h =
    if_elim (Labels P) (str_eq c k) _ _ (λ _. h) (λ _. (h.0, set_item-Labels P k v d p h.1))

abbrev pub count_of : ℕ → ℕ
count_of n = n

default_size :
    {V : Type 0} (size : V → ℕ) (v : V) (o : Option V)
    → size v ≡ 0
    → size (or_default o v) ≡ size_at size o
default_size size v none e = e
default_size size v (some w) e = refl

total-inc : (label : String) (d : Dict ℕ) → total count_of (inc 1 label d) ≡ suc (total count_of d)
unfolding inc
total-inc label d =
    let grows = total-set_item count_of label (or_default (get label d) 0 + 1) d in
    omega (arith, grows, default_size count_of 0 (get label d) refl)

-- The requests that have been counted.
abbrev pub requests_total : Metrics → ℕ
requests_total m = total (total count_of) m.requests

record_request-total :
    (route status : String) (m : Metrics)
    → requests_total (record_request route status m) ≡ suc (requests_total m)
unfolding record_request
record_request-total route status m =
    let old = or_default (get route m.requests) [] in
    let grows = total-set_item (total count_of) route (inc 1 status old) m.requests in
    omega (
      arith,
      grows,
      total-inc status old,
      default_size (total count_of) [] (get route m.requests) refl,
    )

-- The labels that a path may have: that of a registered route, or "unmatched".
abbrev pub Registered : List String → String → Type 0
Registered [] label = label ≡ "unmatched"
Registered (route ∷ routes) label = (label ≡ route) ⊎ Registered routes label

unmatched-Registered : (routes : List String) → Registered routes "unmatched"
unmatched-Registered [] = refl
unmatched-Registered (route ∷ routes) = inr (unmatched-Registered routes)

abbrev pub Matched : List String → Option String → Type 0
Matched routes none = Unit
Matched routes (some path) = Registered routes path

resolve-Registered :
    (routes : List String) (route : Option String)
    → Matched routes route
    → Registered routes (resolve_route route)
resolve-Registered routes none h = unmatched-Registered routes
resolve-Registered routes (some path) h =
    if_elim (Registered routes) (str_eq path "") _ _ (λ _. unmatched-Registered routes) (λ _. h)

module _ {A : Type 0} (status : A → String) where
  abbrev pub dispatch_all : List (Option String × Result A) → Metrics → Metrics
  dispatch_all [] m = m
  dispatch_all ((route, r) ∷ rs) m = dispatch_all rs (dispatch status route r m).1

  one_dispatch :
      (routes : List String) (route : Option String) (r : Result A) (m : Metrics)
      → Matched routes route
      → Labels (Registered routes) m.requests
      → let (r', m') = dispatch status route r m in
        (r' ≡ r)
        × (requests_total m' ≡ suc (requests_total m))
        × Labels (Registered routes) m'.requests
  unfolding dispatch record_request
  one_dispatch routes route (ok response) m matched labels = (
    refl,
    record_request-total (resolve_route route) (status response) m,
    set_item-Labels (Registered routes) (resolve_route route) _ m.requests
        (resolve-Registered routes route matched) labels,
  )
  one_dispatch routes route (raise e) m matched labels = (
    refl,
    record_request-total (resolve_route route) "500" m,
    set_item-Labels (Registered routes) (resolve_route route) _ m.requests
        (resolve-Registered routes route matched) labels,
  )

  -- Over any responses and exceptions, each counts once, in all as many as there were; and as each request
  -- has matched a registered route or none, no route label comes up but those routes and
  -- "unmatched", whatever paths the clients ask for.
  pub dispatch_all-counts :
      (routes : List String) (rs : List (Option String × Result A)) (m : Metrics)
      → All (λ (route, r). Matched routes route) rs
      → Labels (Registered routes) m.requests
      → let m' = dispatch_all rs m in
        (requests_total m' ≡ length rs + requests_total m) × Labels (Registered routes) m'.requests
  dispatch_all-counts routes [] m h labels = (omega arith, labels)
  dispatch_all-counts routes ((route, r) ∷ rs) m h labels =
      let (same, counted, later_labels) = one_dispatch routes route r m h.0 labels in
      let (count, kept) =
        dispatch_all-counts routes rs (dispatch status route r m).1 h.1 later_labels in
      (omega (arith, counted, count), kept)
