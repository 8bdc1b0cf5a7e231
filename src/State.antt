-- ===== src/State.antt =====
-- trainfer/state.py: the layers of the live model with their LoRA matrices, the merged residual and
-- the two ways in which it is bound to a layer. torch's tensors are the parameter `ts`; a module
-- stands for `named_modules` with its own attributes, and its `hook` for the forward hook whose handle
-- `_residual_hook_handles` holds under the module's name. Unsloth's patch is not modelled.
pub mod Binding
pub mod Merging
use trainfer.Prelude.{
  ℕ, suc, ◌+◌, String, Bool, true, false, ◌&&◌, Option, none, some, List, [], ◌∷◌, map, Dict, get,
  update, or_default, if◌then◌else◌,
}
use Prim.Native.String.{◌++◌ as string_append}

-- What the code asks of torch: `A.abs().sum() == 0`, `B @ A`, a product with lora_alpha / lora_rank,
-- `+`, and the casts to float32, to bfloat16 and to a parameter's own type.
pub record Tensors (T : Type 0) : Type 0 where
  pub zero_tensor : T
  pub is_zero : T → Bool
  pub matmul : T → T → T
  pub scaled : ℕ → ℕ → T → T
  pub add : T → T → T
  pub to_float32 : T → T
  pub to_bfloat16 : T → T
  pub to_parameter : T → T

-- `has_default`: "default" is in `lora_A`. `has_base`: the `base_layer` is not None.
pub record Module (T : Type 0) : Type 0 where
  pub name : String
  pub is_lora : Bool
  pub has_default : Bool
  pub has_base : Bool
  pub lora_a : T
  pub lora_b : T
  pub residual_delta : Option T
  pub hook : Option T

pub record ModelState (T : Type 0) : Type 0 where
  pub modules : List (Module T)
  pub base_model_name : String
  pub lora_rank : ℕ
  pub lora_alpha : ℕ
  pub merges_applied : ℕ
  pub merged_deltas : Dict T

-- The state dict of an adapter, as the part with "lora_A" and the part with "lora_B" in the name.
pub record Adapter (T : Type 0) : Type 0 where
  pub a_of : Dict T
  pub b_of : Dict T

abbrev pub delta_key : {T : Type 0} → Module T → String
delta_key m = string_append m.name ".weight"

module _ {T : Type 0} (ts : Tensors T) where
  abbrev pub zeroed : Module T → Module T
  zeroed m = if m.is_lora then record m { lora_a = ts.zero_tensor; lora_b = ts.zero_tensor } else m

  unfoldable pub reset_active_adapter : ModelState T → ModelState T
  reset_active_adapter st = record st { modules = map zeroed st.modules }

  -- The part of the state dict that has one of the two matrices.
  unfoldable pub extract : (Module T → T) → List (Module T) → Dict T
  extract pick [] = []
  extract pick (m ∷ ms) =
      let rest = extract pick ms in
      if m.is_lora then (m.name, ts.to_bfloat16 (pick m)) ∷ rest else rest

  unfoldable pub extract_active_adapter : ModelState T → Adapter T
  extract_active_adapter st = record {
    a_of = extract (λ m. m.lora_a) st.modules;
    b_of = extract (λ m. m.lora_b) st.modules;
  }

  -- A parameter after the loop over the items of the state dict, whose names are distinct.
  abbrev pub copied : Option T → T → T
  copied none p = p
  copied (some t) p = ts.to_parameter t

  abbrev pub with_adapter : Adapter T → Module T → Module T
  with_adapter sd m =
      if m.is_lora
      then record m {
        lora_a = copied (get m.name sd.a_of) m.lora_a;
        lora_b = copied (get m.name sd.b_of) m.lora_b;
      }
      else m

  unfoldable pub load_active_adapter : Adapter T → ModelState T → ModelState T
  load_active_adapter sd st = record st { modules = map (with_adapter sd) st.modules }

  -- The sites that a merge bakes in.
  abbrev pub is_active : Module T → Bool
  is_active m =
      if m.is_lora && m.has_default
      then if ts.is_zero m.lora_a && ts.is_zero m.lora_b then false else true
      else false

  abbrev pub plus_previous : T → Option T → T
  plus_previous delta none = delta
  plus_previous delta (some prev) = ts.add delta (ts.to_float32 prev)

  abbrev pub new_delta : ℕ → ℕ → Option T → Module T → T
  new_delta alpha rank prev m =
      ts.to_bfloat16
        (plus_previous (ts.scaled alpha rank (ts.to_float32 (ts.matmul m.lora_b m.lora_a))) prev)

  unfoldable pub new_deltas : ℕ → ℕ → Dict T → List (Module T) → Dict T
  new_deltas alpha rank merged [] = []
  new_deltas alpha rank merged (m ∷ ms) =
      let rest = new_deltas alpha rank merged ms in
      if is_active m
      then (delta_key m, new_delta alpha rank (get (delta_key m) merged) m) ∷ rest
      else rest

  abbrev pub bind_delta : Option T → Module T → Module T
  bind_delta none m = m
  bind_delta (some delta) m =
      if m.has_base
      then record m {
        residual_delta = some (ts.to_bfloat16 delta);
        hook = some (ts.to_bfloat16 delta);
      }
      else m

  abbrev pub bind_module : Dict T → Module T → Module T
  bind_module merged m =
      if m.is_lora && m.has_default then bind_delta (get (delta_key m) merged) m else m

  abbrev pub bind_all : Dict T → List (Module T) → List (Module T)
  bind_all [] ms = ms
  bind_all (d ∷ ds) ms = map (bind_module (d ∷ ds)) ms

  unfoldable pub apply_residual_to_model : ModelState T → ModelState T
  apply_residual_to_model st = record st { modules = bind_all st.merged_deltas st.modules }

  unfoldable pub merge_active_into_residual : ModelState T → ModelState T
  merge_active_into_residual st =
      let found = new_deltas st.lora_alpha st.lora_rank st.merged_deltas st.modules in
      apply_residual_to_model (
        reset_active_adapter (record st {
          merged_deltas = update st.merged_deltas found;
          merges_applied = suc st.merges_applied;
        }))

-- The hooks of all handles go, and the attribute of each LoRA layer that has a base layer.
abbrev pub cleared : {T : Type 0} → Module T → Module T
cleared m =
    if m.is_lora && m.has_base
    then record m { residual_delta = none; hook = none }
    else record m { hook = none }

unfoldable pub clear_residual_from_model : {T : Type 0} → ModelState T → ModelState T
clear_residual_from_model st = record st { modules = map cleared st.modules }

-- The file at a path after `save_residual`: none where the dict is empty, since the file is removed.
-- The safetensors library writes the dict and reads it back.
abbrev pub file_of : {T : Type 0} → Dict T → Option (Dict T)
file_of [] = none
file_of (d ∷ ds) = some (d ∷ ds)

unfoldable pub save_residual : {T : Type 0} → ModelState T → Option (Dict T)
save_residual st = file_of st.merged_deltas

unfoldable pub load_residual :
    {T : Type 0} → Tensors T → Option (Dict T) → ModelState T → ModelState T
load_residual ts none st = record st { merged_deltas = [] }
load_residual ts (some d) st = apply_residual_to_model ts (record st { merged_deltas = d })
