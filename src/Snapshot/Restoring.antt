-- ===== src/Snapshot/Restoring.antt =====
-- trainfer/snapshot.py: a snapshot brings back what it was saved from.
use mathlib.Core.Option.{map as option_map}
use trainfer.Prelude.{
  ℕ, String, false, ◌&&◌, Option, none, some, List, [], ◌∷◌, map, Dict, get, ◌≡◌, refl, inl, inr,
  ap, sym, ◌∙◌, subst, if_true, if_false, if_elim, Bool-cases, Option-cases, All, All-map, All-map2,
  get-set_item,
}
use trainfer.State.{
  Tensors, Module, ModelState, Adapter, delta_key, bind_module, cleared, file_of,
  apply_residual_to_model, clear_residual_from_model, extract_active_adapter, load_active_adapter,
  reset_active_adapter,
}
use trainfer.State.Binding.{
  is_bindable, wanted, BoundTo, IsBound, IsClean, Fits, apply-IsBound, clear-IsBound,
}
use trainfer.State.Merging.{Distinct}
use trainfer.Snapshot.{
  Manifest, SnapshotDir, SnapshotRoot, written, adapter_to_write, earlier, save, load, loaded,
  restore, with_residual, with_adapter_file,
}
use trainfer.Snapshot.Adapters.{
  shape, adapter_of, stored_adapter, adapter_part, with_adapter_file-IsBound,
}

module _ {T : Type 0} (ts : Tensors T) where
  -- Each layer to which the state has bound a delta gets one of the residual, unless that is empty.
  abbrev pub Covers : Dict T → ModelState T → Type 0
  Covers [] t = Unit
  Covers (d ∷ ds) t =
      All
        (λ m.
          (old : T)
          → get (delta_key m) t.merged_deltas ≡ some old
          → (new : T) × (get (delta_key m) (d ∷ ds) ≡ some new))
        t.modules

  pub unbindable-IsClean :
      (merged : Dict T) (m : Module T)
      → BoundTo ts merged m
      → is_bindable ts m ≡ false
      → IsClean ts m
  unbindable-IsClean merged m b n =
      let w = if_false {b = is_bindable ts m} _ _ n in (b.0 ∙ w, b.1 ∙ w)

  pub covered-Fits :
      (merged new : Dict T) (m : Module T)
      → BoundTo ts merged m
      → ((old : T)
          → get (delta_key m) merged ≡ some old
          → (v : T) × (get (delta_key m) new ≡ some v))
      → Fits ts new m
  covered-Fits merged new m b covers = elim (Bool-cases (is_bindable ts m)) [
    | inl hit ↦ elim (Option-cases (get (delta_key m) merged)) [
      | inl e ↦
          let w : wanted ts merged m ≡ none =
            if_true {b = is_bindable ts m} _ _ hit ∙ ap (option_map ts.to_bfloat16) e in
          inl (b.0 ∙ w, b.1 ∙ w)
      | inr (old, e) ↦ inr (hit, covers old e)
    ]
    | inr miss ↦ inl (unbindable-IsClean merged m b miss)
  ]

  pub bind-shape : (merged : Dict T) (m : Module T) → shape (bind_module ts merged m) ≡ shape m
  bind-shape merged m =
      if_elim (λ r. shape r ≡ shape m) (m.is_lora && m.has_default) _ _
        (λ _. elim (Option-cases (get (delta_key m) merged)) [
          | inl e ↦ rw e refl
          | inr (d, e) ↦
              rw e (if_elim (λ r. shape r ≡ shape m) m.has_base _ _ (λ _. refl) (λ _. refl))
        ])
        (λ _. refl)

  pub cleared-shape : (m : Module T) → shape (cleared m) ≡ shape m
  cleared-shape m =
      if_elim (λ r. shape r ≡ shape m) (m.is_lora && m.has_base) _ _ (λ _. refl) (λ _. refl)

  map-shape :
      (f : Module T → Module T) (ms : List (Module T))
      → ((m : Module T) → shape (f m) ≡ shape m)
      → map shape (map f ms) ≡ map shape ms
  map-shape f [] h = refl
  map-shape f (m ∷ ms) h = λ i. h m i ∷ map-shape f ms h i

  -- What the file of the residual brings back.
  residual_part :
      (d : Dict T) (t : ModelState T)
      → IsBound ts t
      → Covers d t
      → let x = with_residual ts (file_of d) t in
        (x.merged_deltas ≡ d) × (map shape x.modules ≡ map shape t.modules) × IsBound ts x
  unfolding apply_residual_to_model clear_residual_from_model
  residual_part [] t b c = (
    refl,
    map-shape cleared t.modules cleared-shape,
    clear-IsBound ts (record t { merged_deltas = [] })
        (All-map (BoundTo ts t.merged_deltas) (λ m. is_bindable ts m ≡ false → IsClean ts m)
          t.modules (λ m h. unbindable-IsClean t.merged_deltas m h) b)
        refl,
  )
  residual_part (d ∷ ds) t b c = (
    refl,
    map-shape (bind_module ts (d ∷ ds)) t.modules (bind-shape (d ∷ ds)),
    apply-IsBound ts (record t { merged_deltas = d ∷ ds })
        (All-map2 (BoundTo ts t.merged_deltas)
          (λ m.
            (old : T)
            → get (delta_key m) t.merged_deltas ≡ some old
            → (new : T) × (get (delta_key m) (d ∷ ds) ≡ some new))
          (Fits ts (d ∷ ds)) t.modules (covered-Fits t.merged_deltas (d ∷ ds)) b c),
  )

  kept_residual :
      (o : Option (Adapter T)) (x : ModelState T)
      → (with_adapter_file ts o x).merged_deltas ≡ x.merged_deltas
  unfolding load_active_adapter reset_active_adapter
  kept_residual none x = refl
  kept_residual (some sd) x = refl

  written_new : {A : Type 0} (o : Option A) → written o none ≡ o
  written_new none = refl
  written_new (some a) = refl

  -- Under a new name there is a file exactly where one is written.
  new_file :
      {A : Type 0} (file : SnapshotDir T → Option A) (o : Option A) (old : Option (SnapshotDir T))
      → old ≡ none
      → written o (earlier file old) ≡ o
  new_file file o old e = ap (λ d. written o (earlier file d)) e ∙ written_new o

  -- What holds of a state that a snapshot of `st` was loaded into.
  abbrev pub IsRestored : ModelState T → ModelState T → Type 0
  IsRestored st t =
      (t.merged_deltas ≡ st.merged_deltas)
      × (t.merges_applied ≡ st.merges_applied)
      × (map (adapter_of ts) t.modules ≡ map (stored_adapter ts) st.modules)
      × IsBound ts t

  restored :
      (st t : ModelState T)
      → Distinct st.modules
      → map shape t.modules ≡ map shape st.modules
      → IsBound ts t
      → Covers st.merged_deltas t
      → let sd = extract_active_adapter ts st in
        let x =
          with_adapter_file ts
            (adapter_to_write sd sd.a_of sd.b_of)
            (with_residual ts (file_of st.merged_deltas) t) in
        IsRestored st (record x { merges_applied = st.merges_applied })
  restored st t distinct same bound covers =
      let sd = extract_active_adapter ts st in
      let o = adapter_to_write sd sd.a_of sd.b_of in
      let x = with_residual ts (file_of st.merged_deltas) t in
      let (merged, shapes, x_bound) = residual_part st.merged_deltas t bound covers in
      (
        kept_residual o x ∙ merged,
        refl,
        adapter_part ts st x distinct (shapes ∙ same),
        with_adapter_file-IsBound ts o x x_bound,
      )

  files_bring_back :
      (st t : ModelState T) (merged_file : Option (Dict T)) (adapter_file : Option (Adapter T))
      → merged_file ≡ file_of st.merged_deltas
      → let sd = extract_active_adapter ts st in
        adapter_file ≡ adapter_to_write sd sd.a_of sd.b_of
        → Distinct st.modules
        → map shape t.modules ≡ map shape st.modules
        → IsBound ts t
        → Covers st.merged_deltas t
        → IsRestored st
            (record (with_adapter_file ts adapter_file (with_residual ts merged_file t)) {
              merges_applied = st.merges_applied;
            })
  files_bring_back st t merged_file adapter_file e f distinct same bound covers =
      subst
        (λ (files : Option (Dict T) × Option (Adapter T)).
          IsRestored st (record (with_adapter_file ts files.1 (with_residual ts files.0 t)) {
            merges_applied = st.merges_applied;
          }))
        (λ i. (sym e i, sym f i)) (restored st t distinct same bound covers)

  -- A save under a new name, loaded into a state of the same model whose layers are bound to its own
  -- residual, gives the saved residual, count of merges and adapters, these as rounded for the file
  -- and for the parameter, and leaves the layers bound to the residual. The saved residual is
  -- empty or has a delta for each layer to which the state has bound one.
  pub load-save :
      (name : String) (st t : ModelState T) (log_size now : ℕ) (root : SnapshotRoot T)
      → get name root ≡ none
      → Distinct st.modules
      → map shape t.modules ≡ map shape st.modules
      → IsBound ts t
      → Covers st.merged_deltas t
      → (manifest : Manifest) × ((t' : ModelState T) × (load ts name
              (save ts name st log_size now root)
              t
            ≡ some (manifest, t'))
          × IsRestored st t')
  unfolding save load restore
  load-save name st t log_size now root fresh distinct same bound covers =
      let sd = extract_active_adapter ts st in
      (
        _,
        (
          _,
          ap (λ o. loaded ts o t) (get-set_item name _ root),
          files_bring_back st t _ _
              (new_file (λ d. d.merged_file) (file_of st.merged_deltas) (get name root) fresh)
              (new_file (λ d. d.adapter_file) (adapter_to_write sd sd.a_of sd.b_of) (get name root)
                fresh)
              distinct same bound covers,
        ),
      )
