-- ===== src/Verifiers/Plugins.antt =====
-- trainfer/objectives/verifiers/__init__.py: what the plugins do to the registry.
use mathlib.Core.List.{append_assoc, append-nil}
use trainfer.Prelude.{
  ◌≡◌, inl, inr, sym, ap, ◌∙◌, Bool, true, false, List, [], ◌∷◌, ◌++◌, String, Dict, update,
  if_elim, if_false, Bool-cases, All, All-append, All-map,
}
use trainfer.Verifiers.{
  Verifier, Plugin, mem, keys, minus, loaded_names, load_each, load_plugins, returned,
}
use trainfer.Verifiers.Names.{
  or_left, or_right, mem-append, sorted-mem, sorted-All, minus-All, minus-mem, update-keys,
  mem_grown, mem_not_grown,
}

-- What a load of plugins reports: the domains that it names are new and registered, those registered
-- before keep their place, and if no import fails it names every new one.
pub record Reports {V : Type 0} (eps : List (Plugin V)) (old : Dict (Verifier V))
    (out : List String × Dict (Verifier V)) : Type 0 where
  pub added : List String
  pub grown : keys out.1 ≡ keys old ++ added
  pub are_new : All (λ d. (mem d (keys old) ≡ false) × (mem d (keys out.1) ≡ true)) out.0
  pub all_new :
      All (λ ep. ep.fails ≡ false) eps
      → (d : String) → mem d (keys out.1) ≡ true
      → mem d (keys old) ≡ false
      → mem d out.0 ≡ true

module _ {V : Type 0} (before : String → String → Bool) where
  named_are_new :
      (ep : Plugin V) (old new : Dict (Verifier V))
      → All
          (λ d. (mem d (keys old) ≡ false) × (mem d (keys new) ≡ true))
          (loaded_names before ep old new)
  named_are_new ep old new =
      if_elim (All (λ d. (mem d (keys old) ≡ false) × (mem d (keys new) ≡ true))) ep.fails _ _
        (λ _. tt)
        (λ _.
          sorted-All (λ d. (mem d (keys old) ≡ false) × (mem d (keys new) ≡ true)) before
            (minus (keys new) (keys old)) (minus-All (keys new) (keys old)))

  named_all :
      (ep : Plugin V) (old new : Dict (Verifier V)) (d : String)
      → ep.fails ≡ false
      → mem d (keys new) ≡ true
      → mem d (keys old) ≡ false
      → mem d (loaded_names before ep old new) ≡ true
  named_all ep old new d ok h n =
      ap (mem d) (if_false {b = ep.fails} _ _ ok)
      ∙ sorted-mem before d (minus (keys new) (keys old))
      ∙ minus-mem d (keys new) (keys old) h n

  pub load_each-Reports :
      (eps : List (Plugin V)) (old : Dict (Verifier V)) → Reports eps old (load_each before eps old)
  unfolding load_each
  load_each-Reports [] old = record {
    added = [];
    grown = sym (append-nil (keys old));
    are_new = tt;
    all_new = λ _ d h n. absurd (cc (h, n));
  }
  load_each-Reports (ep ∷ eps) old =
      let new = update old ep.registers in
      let named = loaded_names before ep old new in
      let (first, e) = update-keys ep.registers old in
      let rest = load_each before eps new in
      let later = load_each-Reports eps new in
      let later_grown : keys rest.1 ≡ keys new ++ later.added = later.grown in
      record {
        added = first ++ later.added;
        grown =
            later_grown ∙ ap (λ l. l ++ later.added) e ∙ append_assoc (keys old) first later.added;
        are_new =
            All-append (λ d. (mem d (keys old) ≡ false) × (mem d (keys rest.1) ≡ true)) named rest.0
              (All-map (λ d. (mem d (keys old) ≡ false) × (mem d (keys new) ≡ true))
                (λ d. (mem d (keys old) ≡ false) × (mem d (keys rest.1) ≡ true)) named
                (λ d h. (h.0, mem_grown d (keys new) later.added (keys rest.1) later_grown h.1))
                (named_are_new ep old new))
              (All-map (λ d. (mem d (keys new) ≡ false) × (mem d (keys rest.1) ≡ true))
                (λ d. (mem d (keys old) ≡ false) × (mem d (keys rest.1) ≡ true)) rest.0
                (λ d h. (mem_not_grown d (keys old) first (keys new) e h.0, h.1)) later.are_new);
        all_new = λ ok d h n. mem-append d named rest.0 ∙ (elim (Bool-cases (mem d (keys new))) [
          | inl here ↦ or_left (mem d named) (mem d rest.0) (named_all ep old new d ok.0 here n)
          | inr not_here ↦ or_right (mem d named) (mem d rest.0) (later.all_new ok.1 d h not_here)
        ]);
      }

-- Whatever plugins are installed, whether or not their imports fail halfway, and in whatever state the
-- registry is: the domains that the load reports were not registered before and are now; the domains
-- registered before stay, in their order and ahead of all new ones; and if no import fails, the report
-- names every new domain.
pub load_plugins-Reports :
    {V : Type 0} (before : String → String → Bool) (eps : List (Plugin V)) (old : Dict (Verifier V))
    → Reports eps old (load_plugins before (returned eps) old)
load_plugins-Reports before eps old = load_each-Reports before eps old
