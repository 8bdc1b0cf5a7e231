-- ===== src/Snapshot/Adapters.antt =====
-- trainfer/snapshot.py: the adapter file brings back each layer's matrices.
use Prim.Native.String.{◌++◌ as string_append}
use trainfer.Prelude.{
  String, Bool, true, false, Option, none, some, List, [], ◌∷◌, map, Dict, get, ◌≡◌, refl, ◌⊎◌, inl,
  inr, ap, sym, ◌∙◌, subst, if◌then◌else◌, if_elim, Bool-cases, All, All-map, All-map2, All-image,
  All-preimage, map_agree, map-map, str_eq, str_eq_iff, str_eq-same, get_hit, get_miss,
}
use trainfer.State.{
  Tensors, Module, ModelState, Adapter, delta_key, zeroed, with_adapter, extract,
  extract_active_adapter, load_active_adapter, reset_active_adapter,
}
use trainfer.State.Binding.{BoundTo, IsBound}
use trainfer.State.Merging.{Distinct}
use trainfer.Snapshot.{adapter_to_write, with_adapter_file}

-- The name and the kind of a layer.
abbrev pub shape : {T : Type 0} → Module T → String × Bool
shape m = (m.name, m.is_lora)

module _ {T : Type 0} (ts : Tensors T) where
  -- The adapter of a layer, and what a save and a load make of it.
  abbrev pub adapter_of : Module T → Option (T × T)
  adapter_of m = if m.is_lora then some (m.lora_a, m.lora_b) else none

  abbrev pub stored_adapter : Module T → Option (T × T)
  stored_adapter m =
      if m.is_lora
      then some
          (ts.to_parameter (ts.to_bfloat16 m.lora_a), ts.to_parameter (ts.to_bfloat16 m.lora_b))
      else none

  names_apart :
      (m n : Module T) → str_eq (delta_key m) (delta_key n) ≡ false → str_eq m.name n.name ≡ false
  names_apart m n e = elim (Bool-cases (str_eq m.name n.name)) [
    | inl hit ↦
        let same : delta_key m ≡ delta_key n =
          ap (λ s. string_append s ".weight") ((str_eq_iff m.name n.name).0 hit) in
        absurd (cc (e, (str_eq_iff (delta_key m) (delta_key n)).1 same))
    | inr miss ↦ miss
  ]

  -- The state dict has the matrix of each LoRA layer under its name.
  get-extract :
      (pick : Module T → T) (ms : List (Module T))
      → Distinct ms
      → All
          (λ m. m.is_lora ≡ true → get m.name (extract ts pick ms) ≡ some (ts.to_bfloat16 (pick m)))
          ms
  unfolding extract
  get-extract pick [] h = tt
  get-extract pick (m ∷ ms) h =
      let rest = get-extract pick ms h.1 in
      if_elim
        (λ d. All (λ n. n.is_lora ≡ true → get n.name d ≡ some (ts.to_bfloat16 (pick n))) (m ∷ ms))
        m.is_lora _ _
        (λ lora. (
          λ _.
              get_hit m.name m.name (ts.to_bfloat16 (pick m)) (extract ts pick ms)
                (str_eq-same m.name),
          All-map2 (λ n. str_eq (delta_key m) (delta_key n) ≡ false)
              (λ n.
                n.is_lora ≡ true → get n.name (extract ts pick ms) ≡ some (ts.to_bfloat16 (pick n)))
              (λ n.
                n.is_lora ≡ true
                → get n.name ((m.name, ts.to_bfloat16 (pick m)) ∷ extract ts pick ms)
                  ≡ some (ts.to_bfloat16 (pick n)))
              ms
              (λ n e k l.
                get_miss n.name m.name (ts.to_bfloat16 (pick m)) (extract ts pick ms)
                  (names_apart m n e)
                ∙ k l)
              h.0 rest,
        ))
        (λ plain. (λ lora. absurd (cc (lora, plain)), rest))

  -- The adapter that a state dict gives to a layer of this name and kind.
  abbrev both : Option T → Option T → Option (T × T)
  both (some a) (some b) = some (ts.to_parameter a, ts.to_parameter b)
  both none _ = none
  both (some a) none = none

  abbrev given : Adapter T → String × Bool → Option (T × T)
  given sd (name, lora) = if lora then both (get name sd.a_of) (get name sd.b_of) else none

  abbrev Present : Adapter T → String × Bool → Type 0
  Present sd (name, lora) =
      lora ≡ true
      → ((a : T) × (get name sd.a_of ≡ some a)) × ((b : T) × (get name sd.b_of ≡ some b))

  with_adapter-given :
      (sd : Adapter T) (m : Module T)
      → Present sd (shape m)
      → adapter_of (with_adapter ts sd m) ≡ given sd (shape m)
  with_adapter-given sd m present = elim (Bool-cases m.is_lora) [
    | inl lora ↦ let ((a, in_a), (b, in_b)) = present lora in rw (lora, in_a, in_b) refl
    | inr plain ↦ rw plain refl
  ]

  abbrev Holds : Adapter T → Module T → Type 0
  Holds sd m =
      m.is_lora ≡ true
      → (get m.name sd.a_of ≡ some (ts.to_bfloat16 m.lora_a))
        × (get m.name sd.b_of ≡ some (ts.to_bfloat16 m.lora_b))

  stored-given :
      (sd : Adapter T) (m : Module T) → Holds sd m → given sd (shape m) ≡ stored_adapter m
  stored-given sd m holds = elim (Bool-cases m.is_lora) [
    | inl lora ↦ rw (lora, (holds lora).0, (holds lora).1) refl
    | inr plain ↦ rw plain refl
  ]

  extract-Holds :
      (st : ModelState T)
      → Distinct st.modules
      → All (Holds (extract_active_adapter ts st)) st.modules
  unfolding extract_active_adapter
  extract-Holds st h =
      All-map2
        (λ m.
          m.is_lora ≡ true
          → get m.name (extract ts (λ n. n.lora_a) st.modules) ≡ some (ts.to_bfloat16 m.lora_a))
        (λ m.
          m.is_lora ≡ true
          → get m.name (extract ts (λ n. n.lora_b) st.modules) ≡ some (ts.to_bfloat16 m.lora_b))
        (Holds (extract_active_adapter ts st)) st.modules (λ m a b l. (a l, b l))
        (get-extract (λ n. n.lora_a) st.modules h) (get-extract (λ n. n.lora_b) st.modules h)

  -- A property of the names and kinds of the layers holds of the layers of the same model.
  across :
      (P : String × Bool → Type 0) (ms ns : List (Module T))
      → map shape ns ≡ map shape ms
      → All (λ m. P (shape m)) ms
      → All (λ n. P (shape n)) ns
  across P ms ns same h =
      All-preimage P shape ns (subst (All P) (sym same) (All-image P shape ms h))

  agree_across :
      (f : Module T → Option (T × T)) (g : String × Bool → Option (T × T))
      (P : String × Bool → Type 0) (ms ns : List (Module T))
      → map shape ns ≡ map shape ms
      → ((n : Module T) → P (shape n) → f n ≡ g (shape n))
      → All (λ m. P (shape m)) ms
      → map f ns ≡ map (λ m. g (shape m)) ms
  agree_across f g P ms ns same step h =
      map_agree f (λ n. g (shape n)) ns
        (All-map (λ n. P (shape n)) (λ n. f n ≡ g (shape n)) ns step (across P ms ns same h))
      ∙ sym (map-map g shape ns)
      ∙ ap (map g) same
      ∙ map-map g shape ms

  file_cases :
      (sd : Adapter T) (a b : Dict T)
      → (adapter_to_write sd a b ≡ some sd)
        ⊎ ((adapter_to_write sd a b ≡ none) × ((a ≡ []) × (b ≡ [])))
  file_cases sd [] [] = inr (refl, (refl, refl))
  file_cases sd (a ∷ r) b = inl refl
  file_cases sd [] (b ∷ r) = inl refl

  plain_if_empty : (sd : Adapter T) (m : Module T) → sd.a_of ≡ [] → Holds sd m → m.is_lora ≡ false
  unfolding get
  plain_if_empty sd m e holds = elim (Bool-cases m.is_lora) [
    | inl lora ↦
        let found = (holds lora).0 in
        let missing : get m.name sd.a_of ≡ none = ap (get m.name) e in absurd (cc (found, missing))
    | inr plain ↦ plain
  ]

  -- What the file of adapters, as a save leaves it where none was, brings back.
  pub adapter_part :
      (st x : ModelState T)
      → Distinct st.modules
      → map shape x.modules ≡ map shape st.modules
      → let sd = extract_active_adapter ts st in
        map adapter_of (with_adapter_file ts (adapter_to_write sd sd.a_of sd.b_of) x).modules
        ≡ map stored_adapter st.modules
  unfolding load_active_adapter reset_active_adapter
  adapter_part st x distinct same =
      let sd = extract_active_adapter ts st in
      let holds = extract-Holds st distinct in
      let stored =
        map_agree (λ m. given sd (shape m)) stored_adapter st.modules
          (All-map (Holds sd) (λ m. given sd (shape m) ≡ stored_adapter m) st.modules
            (stored-given sd) holds) in
      elim (file_cases sd sd.a_of sd.b_of) [
        | inl e ↦
            ap (λ o. map adapter_of (with_adapter_file ts o x).modules) e
            ∙ map-map adapter_of (with_adapter ts sd) x.modules
            ∙ agree_across (λ m. adapter_of (with_adapter ts sd m)) (given sd) (Present sd)
                st.modules x.modules same (with_adapter-given sd)
                (All-map (Holds sd) (λ m. Present sd (shape m)) st.modules
                  (λ m h l. ((_, (h l).0), (_, (h l).1))) holds)
            ∙ stored
        | inr (e, (no_a, no_b)) ↦
            ap (λ o. map adapter_of (with_adapter_file ts o x).modules) e
            ∙ map-map adapter_of (zeroed ts) x.modules
            ∙ agree_across (λ m. adapter_of (zeroed ts m)) (given sd) (λ s. s.1 ≡ false) st.modules
                x.modules same (λ m plain. rw plain refl)
                (All-map (Holds sd) (λ m. m.is_lora ≡ false) st.modules
                  (λ m h. plain_if_empty sd m no_a h) holds)
            ∙ stored
      ]

  pub with_adapter_file-IsBound :
      (o : Option (Adapter T)) (x : ModelState T)
      → IsBound ts x
      → IsBound ts (with_adapter_file ts o x)
  unfolding load_active_adapter reset_active_adapter
  with_adapter_file-IsBound none x b =
      All-image (BoundTo ts x.merged_deltas) (zeroed ts) x.modules (
        All-map (BoundTo ts x.merged_deltas) (λ m. BoundTo ts x.merged_deltas (zeroed ts m))
          x.modules (λ m h. if_elim (BoundTo ts x.merged_deltas) m.is_lora _ _ (λ _. h) (λ _. h)) b)
  with_adapter_file-IsBound (some sd) x b =
      All-image (BoundTo ts x.merged_deltas) (with_adapter ts sd) x.modules (
        All-map (BoundTo ts x.merged_deltas)
          (λ m. BoundTo ts x.merged_deltas (with_adapter ts sd m)) x.modules
          (λ m h. if_elim (BoundTo ts x.merged_deltas) m.is_lora _ _ (λ _. h) (λ _. h)) b)
