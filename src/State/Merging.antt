-- ===== src/State/Merging.antt =====
-- trainfer/state.py: what `merge_active_into_residual` does to each layer.
use mathlib.Core.Option.{map as option_map}
use trainfer.Prelude.{
  ℕ, suc, String, Bool, true, false, not, ◌&&◌, Option, none, some, List, [], ◌∷◌, map, Dict, get,
  set_item, update, ◌≡◌, refl, inl, inr, ap, sym, ◌∙◌, if◌then◌else◌, if_true, if_false, if_elim,
  Bool-cases, Option-cases, All, All-map, All-map2, All-image, map_agree, map-map, str_eq,
  str_eq-flip, get-set_item, get-set_other,
}
use trainfer.State.{
  Tensors, Module, ModelState, delta_key, bind_module, is_active, plus_previous, new_delta,
  new_deltas, zeroed, apply_residual_to_model, reset_active_adapter, merge_active_into_residual,
}
use trainfer.State.Binding.{
  is_bindable, wanted, BoundTo, IsBound, Fits, bind_module-BoundTo, bind_module-rest, bind_all-map,
  apply-IsBound,
}

-- No two layers have the same name, as those of a model's tree.
abbrev pub Distinct : {T : Type 0} → List (Module T) → Type 0
Distinct [] = Unit
Distinct (m ∷ ms) = All (λ n. str_eq (delta_key m) (delta_key n) ≡ false) ms × Distinct ms

-- What a layer is run with: the adapter's two matrices and what both ways of binding hold.
abbrev pub live : {T : Type 0} → Module T → T × T × Option T × Option T
live m = (m.lora_a, m.lora_b, m.residual_delta, m.hook)

module _ {T : Type 0} (ts : Tensors T) where
  abbrev pub plus_residual : T → Option T → T
  plus_residual product none = product
  plus_residual product (some prev) = ts.add product (ts.to_float32 prev)

  -- The merged delta that a layer should have after a merge: its own product on top of the residual,
  -- rounded once, unless it has no adapter or only zeros.
  abbrev pub baked : ModelState T → Module T → Option T
  baked st m =
      let prev = get (delta_key m) st.merged_deltas in
      let product =
        ts.scaled st.lora_alpha st.lora_rank (ts.to_float32 (ts.matmul m.lora_b m.lora_a)) in
      if (m.is_lora && m.has_default) && not (ts.is_zero m.lora_a && ts.is_zero m.lora_b)
      then some (ts.to_bfloat16 (plus_residual product prev))
      else prev

  module _ (alpha rank : ℕ) (merged : Dict T) where
    abbrev found : List (Module T) → Dict T
    found ms = new_deltas ts alpha rank merged ms

    abbrev value : Module T → T
    value m = new_delta ts alpha rank (get (delta_key m) merged) m

    abbrev baked_from : Module T → Option T → Option T
    baked_from m prev = if is_active ts m then some (value m) else prev

    update_apart :
        (k : String) (d : Dict T) (ms : List (Module T))
        → All (λ n. str_eq (delta_key n) k ≡ false) ms
        → get k (update d (found ms)) ≡ get k d
    unfolding update new_deltas
    update_apart k d [] h = refl
    update_apart k d (m ∷ ms) h =
        if_elim (λ items. get k (update d items) ≡ get k d) (is_active ts m) _ _
          (λ _.
            update_apart k (set_item (delta_key m) (value m) d) ms h.1
            ∙ get-set_other k (delta_key m) (value m) d h.0)
          (λ _. update_apart k d ms h.1)

    update_bakes :
        (d : Dict T) (ms : List (Module T))
        → Distinct ms
        → All (λ n. get (delta_key n) (update d (found ms)) ≡ baked_from n (get (delta_key n) d)) ms
    unfolding update new_deltas
    update_bakes d [] h = tt
    update_bakes d (m ∷ ms) h =
        let k = delta_key m in
        let d' = set_item k (value m) d in
        let apart =
          All-map (λ n. str_eq k (delta_key n) ≡ false) (λ n. str_eq (delta_key n) k ≡ false) ms
            (λ n e. str_eq-flip k (delta_key n) e) h.0 in
        if_elim
          (λ items.
            All (λ n. get (delta_key n) (update d items) ≡ baked_from n (get (delta_key n) d))
              (m ∷ ms))
          (is_active ts m) _ _
          (λ active. (
            update_apart k d' ms apart
                ∙ get-set_item k (value m) d
                ∙ sym (if_true {b = is_active ts m} _ _ active),
            All-map2 (λ n. str_eq k (delta_key n) ≡ false)
                (λ n.
                  get (delta_key n) (update d' (found ms)) ≡ baked_from n (get (delta_key n) d'))
                (λ n. get (delta_key n) (update d' (found ms)) ≡ baked_from n (get (delta_key n) d))
                ms (λ n e h'. h' ∙ ap (baked_from n) (get-set_other (delta_key n) k (value m) d e))
                h.0 (update_bakes d' ms h.1),
          ))
          (λ idle. (
            update_apart k d ms apart ∙ sym (if_false {b = is_active ts m} _ _ idle),
            update_bakes d ms h.1,
          ))

  -- A layer as a merge should leave it.
  abbrev pub merged_live : ModelState T → Module T → T × T × Option T × Option T
  merged_live st m =
      let bound = if is_bindable ts m then option_map ts.to_bfloat16 (baked st m) else none in
      let m' = zeroed ts m in (m'.lora_a, m'.lora_b, bound, bound)

  plus_previous-plus_residual :
      (product : T) (prev : Option T) → plus_previous ts product prev ≡ plus_residual product prev
  plus_previous-plus_residual product none = refl
  plus_previous-plus_residual product (some prev) = refl

  active_test :
      {A : Type 0} (site zeros : Bool) (x y : A)
      → (if (if site then if zeros then false else true else false) then x else y)
        ≡ (if site && not zeros then x else y)
  active_test true true x y = refl
  active_test true false x y = refl
  active_test false zeros x y = refl

  baked_lem :
      (st : ModelState T) (m : Module T)
      → baked_from st.lora_alpha st.lora_rank st.merged_deltas m
          (get (delta_key m) st.merged_deltas)
        ≡ baked st m
  baked_lem st m =
      let prev = get (delta_key m) st.merged_deltas in
      let product =
        ts.scaled st.lora_alpha st.lora_rank (ts.to_float32 (ts.matmul m.lora_b m.lora_a)) in
      active_test (m.is_lora && m.has_default) (ts.is_zero m.lora_a && ts.is_zero m.lora_b)
        (some (ts.to_bfloat16 (plus_previous ts product prev))) prev
      ∙ ap
          (λ v.
            if (m.is_lora && m.has_default) && not (ts.is_zero m.lora_a && ts.is_zero m.lora_b)
            then some (ts.to_bfloat16 v)
            else prev)
          (plus_previous-plus_residual product prev)

  baked-some :
      (st : ModelState T) (m : Module T) (d : T)
      → get (delta_key m) st.merged_deltas ≡ some d
      → (v : T) × (baked st m ≡ some v)
  baked-some st m d e =
      if_elim (λ r. (v : T) × (r ≡ some v))
        ((m.is_lora && m.has_default) && not (ts.is_zero m.lora_a && ts.is_zero m.lora_b)) _ _
        (λ _. (_, refl)) (λ _. (d, e))

  zeroed_same :
      (P : Module T → Type 0) (m : Module T)
      → P (record m { lora_a = ts.zero_tensor; lora_b = ts.zero_tensor })
      → P m
      → P (zeroed ts m)
  zeroed_same P m h k = if_elim P m.is_lora _ _ (λ _. h) (λ _. k)

  zeroed-Fits : (merged : Dict T) (m : Module T) → Fits ts merged m → Fits ts merged (zeroed ts m)
  zeroed-Fits merged m fits = zeroed_same (Fits ts merged) m fits fits

  wanted-zeroed :
      (merged : Dict T) (m : Module T) → wanted ts merged (zeroed ts m) ≡ wanted ts merged m
  wanted-zeroed merged m = zeroed_same (λ n. wanted ts merged n ≡ wanted ts merged m) m refl refl

  -- A layer that is bound to the old residual fits the new one.
  grown-Fits :
      (st : ModelState T) (merged : Dict T) (m : Module T)
      → get (delta_key m) merged ≡ baked st m
      → BoundTo ts st.merged_deltas m
      → Fits ts merged m
  grown-Fits st merged m e b = elim (Bool-cases (is_bindable ts m)) [
    | inl hit ↦ elim (Option-cases (get (delta_key m) st.merged_deltas)) [
      | inl none_before ↦
          let w : wanted ts st.merged_deltas m ≡ none =
            if_true {b = is_bindable ts m} _ _ hit ∙ ap (option_map ts.to_bfloat16) none_before in
          inl (b.0 ∙ w, b.1 ∙ w)
      | inr (d, before) ↦ let (v, after) = baked-some st m d before in inr (hit, (v, e ∙ after))
    ]
    | inr miss ↦ let w = if_false {b = is_bindable ts m} _ _ miss in inl (b.0 ∙ w, b.1 ∙ w)
  ]

  merged_module :
      (st : ModelState T) (merged : Dict T) (m : Module T)
      → get (delta_key m) merged ≡ baked st m
      → BoundTo ts st.merged_deltas m
      → live (bind_module ts merged (zeroed ts m)) ≡ merged_live st m
  merged_module st merged m e b =
      let fits = zeroed-Fits merged m (grown-Fits st merged m e b) in
      let bound = bind_module-BoundTo ts merged (zeroed ts m) fits in
      let (a_same, b_same, wanted_same) = bind_module-rest ts merged (zeroed ts m) in
      let want =
        wanted_same
        ∙ wanted-zeroed merged m
        ∙ ap (λ o. if is_bindable ts m then option_map ts.to_bfloat16 o else none) e in
      λ i. (a_same i, b_same i, (bound.0 ∙ want) i, (bound.1 ∙ want) i)

  -- If the layers have distinct names and are bound to the merged residual, a merge counts itself,
  -- zeroes the adapter of each LoRA layer and leaves the layers bound to the new residual; and each
  -- layer that can be bound is run with the rounded sum of its old residual and its own adapter's
  -- product, or with its old residual where both of the adapter's matrices were zero.
  pub merge-IsMerged :
      (st : ModelState T)
      → Distinct st.modules
      → IsBound ts st
      → let st' = merge_active_into_residual ts st in
        (map live st'.modules ≡ map (merged_live st) st.modules)
        × IsBound ts st'
        × (st'.merges_applied ≡ suc st.merges_applied)
  unfolding merge_active_into_residual apply_residual_to_model reset_active_adapter
  merge-IsMerged st distinct bound =
      let merged =
        update st.merged_deltas (found st.lora_alpha st.lora_rank st.merged_deltas st.modules) in
      let Baked = λ (m : Module T). get (delta_key m) merged ≡ baked st m in
      let bakes =
        All-map
          (λ m.
            get (delta_key m) merged
            ≡ baked_from st.lora_alpha st.lora_rank st.merged_deltas m
                (get (delta_key m) st.merged_deltas))
          Baked st.modules (λ m e. e ∙ baked_lem st m)
          (update_bakes st.lora_alpha st.lora_rank st.merged_deltas st.merged_deltas st.modules
            distinct) in
      let fits =
        All-map2 Baked (BoundTo ts st.merged_deltas) (λ m. Fits ts merged (zeroed ts m)) st.modules
          (λ m e b. zeroed-Fits merged m (grown-Fits st merged m e b)) bakes bound in
      let same =
        All-map2 Baked (BoundTo ts st.merged_deltas)
          (λ m. live (bind_module ts merged (zeroed ts m)) ≡ merged_live st m) st.modules
          (merged_module st merged) bakes bound in
      let reset = record st { merged_deltas = merged; modules = map (zeroed ts) st.modules } in
      (
        ap (map live) (bind_all-map ts merged (map (zeroed ts) st.modules))
            ∙ map-map live (bind_module ts merged) (map (zeroed ts) st.modules)
            ∙ map-map (λ m. live (bind_module ts merged m)) (zeroed ts) st.modules
            ∙ map_agree (λ m. live (bind_module ts merged (zeroed ts m))) (merged_live st)
                st.modules same,
        apply-IsBound ts reset (All-image (Fits ts merged) (zeroed ts) st.modules fits),
        refl,
      )
