-- ===== src/Verifiers/Routing.antt =====
-- trainfer/objectives/verifiers/__init__.py: `select` and `verify` after the plugins are loaded.
use mathlib.Core.List.{append-nil}
use trainfer.Prelude.{
  ◌≡◌, inl, inr, refl, sym, ap, ◌∙◌, Bool, true, false, ◌||◌, Option, none, some, List, [], ◌∷◌,
  ◌++◌, String, Dict, get, set_item, update, str_eq, set_miss, get_hit, get_miss, Bool-cases, All,
}
use trainfer.Reasoning.{Text}
use trainfer.Verifiers.{
  Outcome, returned, raised, Verifier, Plugin, mem, keys, asked, first_claim, verify_by, verify,
  select, load_each, load_plugins,
}

or_false_left : (a b : Bool) → (a || b) ≡ false → a ≡ false
or_false_left false b h = refl
or_false_left true b h = h

or_false_right : (a b : Bool) → (a || b) ≡ false → b ≡ false
or_false_right false b h = h
or_false_right true b h = absurd (cc h)

-- The domains that the plugins register are none of the registry's.
abbrev pub Apart : {V : Type 0} → Dict (Verifier V) → List (Plugin V) → Type 0
Apart old eps = All (λ ep. All (λ d. mem d (keys old) ≡ false) (keys ep.registers)) eps

abbrev or_later : Outcome (Option String) → Outcome (Option String) → Outcome (Option String)
or_later raised later = raised
or_later (returned (some domain)) later = returned (some domain)
or_later (returned none) later = later

set_item_apart {ℓ} :
    {A : Type ℓ} (k : String) (v : A) (old extra : Dict A)
    → mem k (keys old) ≡ false
    → set_item k v (old ++ extra) ≡ old ++ set_item k v extra
set_item_apart k v [] extra n = refl
set_item_apart k v ((c, w) ∷ old) extra n =
    set_miss k c v w (old ++ extra) (or_false_left (str_eq c k) (mem k (keys old)) n)
    ∙ ap (λ d. (c, w) ∷ d)
        (set_item_apart k v old extra (or_false_right (str_eq c k) (mem k (keys old)) n))

update_apart {ℓ} :
    {A : Type ℓ} (old items extra : Dict A)
    → All (λ d. mem d (keys old) ≡ false) (keys items)
    → update (old ++ extra) items ≡ old ++ update extra items
unfolding update
update_apart old [] extra h = refl
update_apart old ((k, v) ∷ items) extra h =
    ap (λ d. update d items) (set_item_apart k v old extra h.0)
    ∙ update_apart old items (set_item k v extra) h.1

get_apart {ℓ} :
    {A : Type ℓ} (k : String) (old extra : Dict A)
    → mem k (keys old) ≡ true
    → get k (old ++ extra) ≡ get k old
get_apart k [] extra h = absurd (cc h)
get_apart k ((c, w) ∷ old) extra h = elim (Bool-cases (str_eq c k)) [
  | inl hit ↦ get_hit k c w (old ++ extra) hit ∙ sym (get_hit k c w old hit)
  | inr miss ↦
      get_miss k c w (old ++ extra) miss
      ∙ get_apart k old extra (sym (ap (λ b. b || mem k (keys old)) miss) ∙ h)
      ∙ sym (get_miss k c w old miss)
]

first_claim-later :
    (domain : String) (o : Outcome Bool) (a b : Outcome (Option String))
    → first_claim domain o (or_later a b) ≡ or_later (first_claim domain o a) b
first_claim-later domain (returned true) a b = refl
first_claim-later domain (returned false) a b = refl
first_claim-later domain raised a b = refl

module _ {V : Type 0} where
  select-append :
      (old extra : Dict (Verifier V)) (prompt : String)
      → select (old ++ extra) prompt ≡ or_later (select old prompt) (select extra prompt)
  unfolding select
  select-append [] extra prompt = refl
  select-append ((domain, fn) ∷ old) extra prompt =
      ap (first_claim domain (asked fn.claims prompt)) (select-append old extra prompt)
      ∙ first_claim-later domain (asked fn.claims prompt) (select old prompt) (select extra prompt)

  load_each-Apart :
      (before : String → String → Bool) (eps : List (Plugin V)) (old extra : Dict (Verifier V))
      → Apart old eps
      → (more : Dict (Verifier V)) × ((load_each before eps (old ++ extra)).1 ≡ old ++ more)
  unfolding load_each
  load_each-Apart before [] old extra h = (extra, refl)
  load_each-Apart before (ep ∷ eps) old extra h =
      let (more, e) = load_each-Apart before eps old (update extra ep.registers) h.1 in
      (more, ap (λ d. (load_each before eps d).1) (update_apart old ep.registers extra h.0) ∙ e)

-- The effect of a load on the registry, for plugins with domains of their own.
pub record Routes {V : Type 0} (old new : Dict (Verifier V)) : Type 0 where
  pub more : Dict (Verifier V)
  pub appended : new ≡ old ++ more
  pub select_old :
      (prompt domain : String)
      → select old prompt ≡ returned (some domain)
      → select new prompt ≡ returned (some domain)
  pub select_new :
      (prompt : String) → select old prompt ≡ returned none → select new prompt ≡ select more prompt
  pub verify_old :
      (domain prompt : String) (candidate : Text)
      → mem domain (keys old) ≡ true
      → verify new domain prompt candidate ≡ verify old domain prompt candidate

module _ {V : Type 0} where
  appended-Routes : (old more new : Dict (Verifier V)) → new ≡ old ++ more → Routes old new
  unfolding verify
  appended-Routes old more new e =
      let chosen : (prompt : String)
          → select new prompt ≡ or_later (select old prompt) (select more prompt) =
        λ prompt. ap (λ d. select d prompt) e ∙ select-append old more prompt in
      record {
        more = more;
        appended = e;
        select_old = λ prompt domain h. chosen prompt ∙ ap (λ o. or_later o (select more prompt)) h;
        select_new = λ prompt h. chosen prompt ∙ ap (λ o. or_later o (select more prompt)) h;
        verify_old = λ domain prompt candidate h.
            ap (λ d. verify_by (get domain d) prompt candidate) e
            ∙ ap (λ o. verify_by o prompt candidate) (get_apart domain old more h);
      }

-- If no plugin registers a domain that the registry has, a load only appends to the registry: a prompt
-- that a verifier claimed is still routed to it, one that none claimed is routed among the new
-- verifiers alone, and `verify` on an old domain gives what it gave before.
pub load_plugins-Routes :
    {V : Type 0} (before : String → String → Bool) (eps : List (Plugin V)) (old : Dict (Verifier V))
    → Apart old eps
    → Routes old (load_plugins before (returned eps) old).1
load_plugins-Routes before eps old h =
    let (more, e) = load_each-Apart before eps old [] h in
    appended-Routes old more (load_plugins before (returned eps) old).1
      (ap (λ d. (load_each before eps d).1) (sym (append-nil old)) ∙ e)
