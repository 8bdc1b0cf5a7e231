-- ===== src/Snapshot/Sessions.antt =====
-- trainfer/state.py and trainfer/snapshot.py: whatever a session does, each layer is run with the merged
-- residual, as long as a loaded one covers what is bound.
use Prim.Native.String.{◌++◌ as string_append}
use trainfer.Prelude.{
  String, Bool, false, Option, none, some, List, [], ◌∷◌, map, Dict, get, ◌≡◌, refl, sym, ap, ◌∙◌,
  subst, All, All-map, All-map2, All-image, if_elim, str_eq,
}
use trainfer.State.{
  Tensors, Module, ModelState, Adapter, delta_key, zeroed, cleared, bind_module, bind_all,
  reset_active_adapter, apply_residual_to_model, clear_residual_from_model, load_active_adapter,
  merge_active_into_residual, with_adapter,
}
use trainfer.State.Binding.{
  IsClean, BoundTo, IsBound, Fits, apply-IsBound, clear-IsBound, bind_all-map, is_bindable, wanted,
}
use trainfer.State.Merging.{Distinct, merge-IsMerged}
use trainfer.Snapshot.{SnapshotDir, with_residual, with_adapter_file, restore}
use trainfer.Snapshot.Adapters.{with_adapter_file-IsBound, shape}
use trainfer.Snapshot.Restoring.{unbindable-IsClean, covered-Fits, bind-shape, cleared-shape}

-- A training step gives the layers other matrices.
abbrev pub with_matrices : {T : Type 0} → (Module T → T × T) → Module T → Module T
with_matrices f m = record m { lora_a = (f m).0; lora_b = (f m).1 }

abbrev pub train_adapter : {T : Type 0} → (Module T → T × T) → ModelState T → ModelState T
train_adapter f st = record st { modules = map (with_matrices f) st.modules }

-- Each layer to which the state has bound a delta gets one of the file, if there is a file.
abbrev pub CoveredBy : {T : Type 0} → ModelState T → Option (Dict T) → Type 0
CoveredBy st none = Unit
CoveredBy st (some d) =
    All
      (λ m.
        (old : _)
        → get (delta_key m) st.merged_deltas ≡ some old
        → (new : _) × (get (delta_key m) d ≡ some new))
      st.modules

names_kept :
    {T : Type 0} (f : Module T → Module T) (ms : List (Module T))
    → ((m : Module T) → delta_key (f m) ≡ delta_key m)
    → Distinct ms
    → Distinct (map f ms)
names_kept f [] same h = tt
names_kept f (m ∷ ms) same h = (
  All-image (λ n. str_eq (delta_key (f m)) (delta_key n) ≡ false) f ms
      (All-map (λ n. str_eq (delta_key m) (delta_key n) ≡ false)
        (λ n. str_eq (delta_key (f m)) (delta_key (f n)) ≡ false) ms
        (λ n e. (λ i. str_eq (same m i) (same n i)) ∙ e) h.0),
  names_kept f ms same h.1,
)

module _ {T : Type 0} (ts : Tensors T) where
  -- The states of a session that starts with no residual.
  pub data Session : ModelState T → Type 0 where
    starts :
        (st : ModelState T)
        → st.merged_deltas ≡ []
        → Distinct st.modules
        → All (IsClean ts) st.modules
        → Session st
    trains :
        {st : ModelState T} → Session st → (f : Module T → T × T) → Session (train_adapter f st)
    resets : {st : ModelState T} → Session st → Session (reset_active_adapter ts st)
    merges : {st : ModelState T} → Session st → Session (merge_active_into_residual ts st)
    loads :
        {st : ModelState T}
        → Session st
        → (dir : SnapshotDir T) → CoveredBy st dir.merged_file
        → Session (restore ts dir st)

  -- The layers have distinct names and are bound to the residual.
  abbrev pub IsLive : ModelState T → Type 0
  IsLive st = Distinct st.modules × IsBound ts st

  starts-IsBound : (ms : List (Module T)) → All (IsClean ts) ms → All (BoundTo ts []) ms
  unfolding get
  starts-IsBound ms clean =
      All-map (IsClean ts) (BoundTo ts []) ms
        (λ m h.
          let w : wanted ts [] m ≡ none =
            if_elim (λ r. r ≡ none) (is_bindable ts m) _ _ (λ _. refl) (λ _. refl) in
          (h.0 ∙ sym w, h.1 ∙ sym w))
        clean

  -- Changes of the matrices alone.
  pub trained-IsLive :
      (f : Module T → T × T) (st : ModelState T) → IsLive st → IsLive (train_adapter f st)
  trained-IsLive f st (distinct, bound) = (
    names_kept (with_matrices f) st.modules (λ m. refl) distinct,
    All-image (BoundTo ts st.merged_deltas) (with_matrices f) st.modules bound,
  )

  key_of :
      (f : Module T → Module T) (m : Module T)
      → shape (f m) ≡ shape m
      → delta_key (f m) ≡ delta_key m
  key_of f m e = ap (λ (s : String × Bool). string_append s.0 ".weight") e

  zeroed-shape : (m : Module T) → shape (zeroed ts m) ≡ shape m
  zeroed-shape m = if_elim (λ r. shape r ≡ shape m) m.is_lora _ _ (λ _. refl) (λ _. refl)

  with_adapter-shape : (sd : Adapter T) (m : Module T) → shape (with_adapter ts sd m) ≡ shape m
  with_adapter-shape sd m = if_elim (λ r. shape r ≡ shape m) m.is_lora _ _ (λ _. refl) (λ _. refl)

  bind_all-Distinct :
      (merged : Dict T) (ms : List (Module T)) → Distinct ms → Distinct (bind_all ts merged ms)
  bind_all-Distinct merged ms h = rw (bind_all-map ts merged ms) (
      names_kept (bind_module ts merged) ms
        (λ m. key_of (bind_module ts merged) m (bind-shape ts merged m)) h)

  zeroed-Distinct : (ms : List (Module T)) → Distinct ms → Distinct (map (zeroed ts) ms)
  zeroed-Distinct ms h = names_kept (zeroed ts) ms (λ m. key_of (zeroed ts) m (zeroed-shape m)) h

  pub reset-IsLive : (st : ModelState T) → IsLive st → IsLive (reset_active_adapter ts st)
  unfolding reset_active_adapter
  reset-IsLive st (distinct, bound) =
      (zeroed-Distinct st.modules distinct, with_adapter_file-IsBound ts none st bound)

  pub merged-IsLive : (st : ModelState T) → IsLive st → IsLive (merge_active_into_residual ts st)
  unfolding merge_active_into_residual apply_residual_to_model reset_active_adapter
  merged-IsLive st (distinct, bound) = (
    bind_all-Distinct _ (map (zeroed ts) st.modules) (zeroed-Distinct st.modules distinct),
    (merge-IsMerged ts st distinct bound).1,
  )

  -- The residual of a file that covers what is bound.
  residual-IsLive :
      (o : Option (Dict T)) (st : ModelState T)
      → CoveredBy st o
      → IsLive st
      → IsLive (with_residual ts o st)
  unfolding apply_residual_to_model clear_residual_from_model
  residual-IsLive none st c (distinct, bound) = (
    names_kept cleared st.modules (λ m. key_of cleared m (cleared-shape ts m)) distinct,
    clear-IsBound ts (record st { merged_deltas = [] })
        (All-map (BoundTo ts st.merged_deltas) (λ m. is_bindable ts m ≡ false → IsClean ts m)
          st.modules (λ m h. unbindable-IsClean ts st.merged_deltas m h) bound)
        refl,
  )
  residual-IsLive (some d) st c (distinct, bound) = (
    bind_all-Distinct d st.modules distinct,
    apply-IsBound ts (record st { merged_deltas = d })
        (All-map2 (BoundTo ts st.merged_deltas)
          (λ m.
            (old : T)
            → get (delta_key m) st.merged_deltas ≡ some old
            → (new : T) × (get (delta_key m) d ≡ some new))
          (Fits ts d) st.modules (covered-Fits ts st.merged_deltas d) bound c),
  )

  adapter-IsLive :
      (o : Option (Adapter T)) (st : ModelState T) → IsLive st → IsLive (with_adapter_file ts o st)
  unfolding load_active_adapter
  adapter-IsLive none st live = reset-IsLive st live
  adapter-IsLive (some sd) st (distinct, bound) = (
    names_kept (with_adapter ts sd) st.modules
        (λ m. key_of (with_adapter ts sd) m (with_adapter-shape sd m)) distinct,
    with_adapter_file-IsBound ts (some sd) st bound,
  )

  pub restored-IsLive :
      (dir : SnapshotDir T) (st : ModelState T)
      → CoveredBy st dir.merged_file
      → IsLive st
      → IsLive (restore ts dir st)
  unfolding restore
  restored-IsLive dir st c live =
      let loaded = residual-IsLive dir.merged_file st c live in
      adapter-IsLive dir.adapter_file (with_residual ts dir.merged_file st) loaded

  -- In every state of a session that starts with nothing merged and distinct names, whatever steps of
  -- training, resets, merges and loads of snapshots it has had, each layer that can be bound holds in
  -- both ways the rounded delta that the merged residual has for it, and none where there is none. A
  -- loaded residual has a delta for each layer of which the state had one.
  pub Session-IsLive : (st : ModelState T) → Session st → IsLive st
  Session-IsLive _ (starts st empty distinct clean) = (
    distinct,
    subst (λ d. All (BoundTo ts d) st.modules) (sym empty) (starts-IsBound st.modules clean),
  )
  Session-IsLive _ (trains {st = st} s f) = trained-IsLive f st (Session-IsLive st s)
  Session-IsLive _ (resets {st = st} s) = reset-IsLive st (Session-IsLive st s)
  Session-IsLive _ (merges {st = st} s) = merged-IsLive st (Session-IsLive st s)
  Session-IsLive _ (loads {st = st} s dir c) = restored-IsLive dir st c (Session-IsLive st s)
