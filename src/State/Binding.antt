-- ===== src/State/Binding.antt =====
-- trainfer/state.py: when the residual that a layer is run with is the merged one.
use mathlib.Core.Option.{map as option_map}
use trainfer.Prelude.{
  Bool, true, false, ◌&&◌, Option, none, some, List, [], ◌∷◌, map, Dict, get, ◌≡◌, refl, ◌⊎◌, inl,
  inr, ap, sym, ◌∙◌, subst, if◌then◌else◌, if_true, if_false, if_elim, Bool-cases, Option-cases,
  All, All-map, All-image, arith,
}
use trainfer.State.{
  Tensors, Module, ModelState, delta_key, bind_delta, bind_module, bind_all, cleared,
  apply_residual_to_model, clear_residual_from_model,
}

module _ {T : Type 0} (ts : Tensors T) where
  -- Layers to which a residual can be bound.
  abbrev pub is_bindable : Module T → Bool
  is_bindable m = (m.is_lora && m.has_default) && m.has_base

  -- What both ways of binding should hold.
  abbrev pub wanted : Dict T → Module T → Option T
  wanted merged m =
      if is_bindable m then option_map ts.to_bfloat16 (get (delta_key m) merged) else none

  abbrev pub BoundTo : Dict T → Module T → Type 0
  BoundTo merged m = (m.residual_delta ≡ wanted merged m) × (m.hook ≡ wanted merged m)

  abbrev pub IsBound : ModelState T → Type 0
  IsBound st = All (BoundTo st.merged_deltas) st.modules

  abbrev pub IsClean : Module T → Type 0
  IsClean m = (m.residual_delta ≡ none) × (m.hook ≡ none)

  -- The layer has nothing bound, or it gets a delta.
  abbrev pub Fits : Dict T → Module T → Type 0
  Fits merged m =
      IsClean m ⊎ ((is_bindable m ≡ true) × ((d : T) × (get (delta_key m) merged ≡ some d)))

  wanted_bound :
      (merged : Dict T) (m : Module T) (d : T)
      → is_bindable m ≡ true
      → get (delta_key m) merged ≡ some d
      → wanted merged m ≡ some (ts.to_bfloat16 d)
  wanted_bound merged m d b e = if_true {b = is_bindable m} _ _ b ∙ ap (option_map ts.to_bfloat16) e

  site_of :
      (m : Module T)
      → is_bindable m ≡ true
      → ((m.is_lora && m.has_default) ≡ true) × (m.has_base ≡ true)
  site_of m b = ground arith

  -- A layer that gets a delta.
  pub bind_module-hit :
      (merged : Dict T) (m : Module T) (d : T)
      → is_bindable m ≡ true
      → get (delta_key m) merged ≡ some d
      → bind_module ts merged m
        ≡ record m { residual_delta = some (ts.to_bfloat16 d); hook = some (ts.to_bfloat16 d) }
  bind_module-hit merged m d b e =
      if_true {b = m.is_lora && m.has_default} _ _ (site_of m b).0
      ∙ ap (λ o. bind_delta ts o m) e
      ∙ if_true {b = m.has_base} _ _ (site_of m b).1

  -- A layer that gets none stays as it is.
  pub bind_module-miss :
      (merged : Dict T) (m : Module T)
      → (is_bindable m ≡ true → get (delta_key m) merged ≡ none)
      → bind_module ts merged m ≡ m
  bind_module-miss merged m f =
      if_elim (λ r. r ≡ m) (m.is_lora && m.has_default) _ _
        (λ site. elim (Option-cases (get (delta_key m) merged)) [
          | inl e ↦ ap (λ o. bind_delta ts o m) e
          | inr (d, e) ↦
              ap (λ o. bind_delta ts o m) e
              ∙ if_elim (λ r. r ≡ m) m.has_base _ _
                  (λ base. absurd (cc (e, f (rw (site, base) refl)))) (λ _. refl)
        ])
        (λ _. refl)

  wanted-none :
      (merged : Dict T) (m : Module T)
      → (is_bindable m ≡ true → get (delta_key m) merged ≡ none)
      → wanted merged m ≡ none
  wanted-none merged m f =
      if_elim (λ r. r ≡ none) (is_bindable m) _ _ (λ b. ap (option_map ts.to_bfloat16) (f b))
        (λ _. refl)

  missing_or_bound :
      (merged : Dict T) (m : Module T)
      → (is_bindable m ≡ true → get (delta_key m) merged ≡ none)
        ⊎ ((is_bindable m ≡ true) × ((d : T) × (get (delta_key m) merged ≡ some d)))
  missing_or_bound merged m = elim (Bool-cases (is_bindable m)) [
    | inl b ↦ elim (Option-cases (get (delta_key m) merged)) [
      | inl e ↦ inl (λ _. e)
      | inr (d, e) ↦ inr (b, (d, e))
    ]
    | inr n ↦ inl (λ b. absurd (cc (b, n)))
  ]

  -- Binding brings each layer that fits to what it should hold.
  pub bind_module-BoundTo :
      (merged : Dict T) (m : Module T) → Fits merged m → BoundTo merged (bind_module ts merged m)
  bind_module-BoundTo merged m fits = elim (missing_or_bound merged m) [
    | inl miss ↦ elim fits [
      | inl clean ↦
          subst (BoundTo merged) (sym (bind_module-miss merged m miss))
            (clean.0 ∙ sym (wanted-none merged m miss), clean.1 ∙ sym (wanted-none merged m miss))
      | inr (b, (d, e)) ↦ absurd (cc (e, miss b))
    ]
    | inr (b, (d, e)) ↦
        let w = sym (wanted_bound merged m d b e) in
        subst (BoundTo merged) (sym (bind_module-hit merged m d b e)) (w, w)
  ]

  -- Binding changes nothing but what is bound.
  pub bind_module-rest :
      (merged : Dict T) (m : Module T)
      → let m' = bind_module ts merged m in
        (m'.lora_a ≡ m.lora_a) × (m'.lora_b ≡ m.lora_b) × (wanted merged m' ≡ wanted merged m)
  bind_module-rest merged m = elim (missing_or_bound merged m) [
    | inl miss ↦ rw (bind_module-miss merged m miss) (refl, refl, refl)
    | inr (b, (d, e)) ↦ rw (bind_module-hit merged m d b e) (refl, refl, refl)
  ]

  nothing_to_bind : (ms : List (Module T)) → map (bind_module ts []) ms ≡ ms
  unfolding get
  nothing_to_bind [] = refl
  nothing_to_bind (m ∷ ms) = λ i.
      if_elim (λ r. r ≡ m) (m.is_lora && m.has_default) _ _ (λ _. refl) (λ _. refl) i
      ∷ nothing_to_bind ms i

  -- The early return on an empty residual changes nothing.
  pub bind_all-map :
      (merged : Dict T) (ms : List (Module T))
      → bind_all ts merged ms ≡ map (bind_module ts merged) ms
  bind_all-map [] ms = sym (nothing_to_bind ms)
  bind_all-map (d ∷ ds) ms = refl

  -- Once each layer fits the merged residual, `_apply_residual_to_model` binds it.
  pub apply-IsBound :
      (st : ModelState T)
      → All (Fits st.merged_deltas) st.modules
      → IsBound (apply_residual_to_model ts st)
  unfolding apply_residual_to_model
  apply-IsBound st fits =
      let merged = st.merged_deltas in
      rw (bind_all-map merged st.modules) (
        All-image (BoundTo merged) (bind_module ts merged) st.modules (
          All-map (Fits merged) (λ m. BoundTo merged (bind_module ts merged m)) st.modules
            (bind_module-BoundTo merged) fits))

  cleared-BoundTo : (m : Module T) → (is_bindable m ≡ false → IsClean m) → BoundTo [] (cleared m)
  unfolding get
  cleared-BoundTo m clean = elim (Bool-cases (m.is_lora && m.has_base)) [
    | inl hit ↦
        let w : wanted [] m ≡ none = wanted-none [] m (λ _. refl) in
        rw
          (if_true {b = m.is_lora && m.has_base} (record m { residual_delta = none; hook = none })
            (record m { hook = none }) hit)
          (sym w, sym w)
    | inr miss ↦
        let w : wanted [] m ≡ none = wanted-none [] m (λ _. refl) in
        let unbindable : is_bindable m ≡ false = ground arith in
        rw
          (if_false {b = m.is_lora && m.has_base} (record m { residual_delta = none; hook = none })
            (record m { hook = none }) miss)
          ((clean unbindable).0 ∙ sym w, sym w)
  ]

  -- `_clear_residual_from_model` leaves the layers as an empty residual wants them.
  pub clear-IsBound :
      (st : ModelState T)
      → All (λ m. is_bindable m ≡ false → IsClean m) st.modules
      → st.merged_deltas ≡ []
      → IsBound (clear_residual_from_model st)
  unfolding clear_residual_from_model
  clear-IsBound st clean e =
      subst (λ merged. All (BoundTo merged) (map cleared st.modules)) (sym e)
        (All-image (BoundTo []) cleared st.modules (
          All-map (λ m. is_bindable m ≡ false → IsClean m) (λ m. BoundTo [] (cleared m)) st.modules
            cleared-BoundTo clean))
