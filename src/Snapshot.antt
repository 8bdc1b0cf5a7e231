-- ===== src/Snapshot.antt =====
-- trainfer/snapshot.py: a snapshot directory holds a manifest and up to two files of tensors, and the
-- root maps names to directories. The safetensors and json libraries write and read back what they
-- are given. The manifest's fingerprint and the log's path are left out; the time and the log's size
-- are arguments.
pub mod Adapters
pub mod Restoring
pub mod Sessions
use trainfer.Prelude.{
  ℕ, String, Bool, true, false, ◌&&◌, Option, none, some, List, [], ◌∷◌, Dict, get, set_item,
  if◌then◌else◌,
}
use trainfer.State.{
  Tensors, ModelState, Adapter, file_of, apply_residual_to_model, clear_residual_from_model,
  extract_active_adapter, load_active_adapter, reset_active_adapter,
}

pub record Manifest : Type 0 where
  pub snapshot_name : String
  pub created_at : ℕ
  pub base_model : String
  pub saved_rank : ℕ
  pub saved_alpha : ℕ
  pub saved_merges : ℕ
  pub trajectory_offset : ℕ

pub record SnapshotDir (T : Type 0) : Type 0 where
  pub manifest : Manifest
  pub merged_file : Option (Dict T)
  pub adapter_file : Option (Adapter T)

abbrev pub SnapshotRoot : Type 0 → Type 0
SnapshotRoot T = Dict (SnapshotDir T)

-- A file that is not written keeps what an earlier save under the name has left.
abbrev pub written : {A : Type 0} → Option A → Option A → Option A
written none old = old
written (some new) old = some new

abbrev pub earlier : {T A : Type 0} → (SnapshotDir T → Option A) → Option (SnapshotDir T) → Option A
earlier file none = none
earlier file (some d) = file d

-- `if sd:` of the adapter's state dict.
abbrev pub adapter_to_write : {T : Type 0} → Adapter T → Dict T → Dict T → Option (Adapter T)
adapter_to_write sd [] [] = none
adapter_to_write sd (a ∷ rest) bs = some sd
adapter_to_write sd [] (b ∷ bs) = some sd

module _ {T : Type 0} (ts : Tensors T) where
  unfoldable pub save : String → ModelState T → ℕ → ℕ → SnapshotRoot T → SnapshotRoot T
  save name st log_size now root =
      let old = get name root in
      let sd = extract_active_adapter ts st in
      set_item name
        (record {
          manifest = record {
            snapshot_name = name;
            created_at = now;
            base_model = st.base_model_name;
            saved_rank = st.lora_rank;
            saved_alpha = st.lora_alpha;
            saved_merges = st.merges_applied;
            trajectory_offset = log_size;
          };
          merged_file = written (file_of st.merged_deltas) (earlier (λ d. d.merged_file) old);
          adapter_file =
              written (adapter_to_write sd sd.a_of sd.b_of) (earlier (λ d. d.adapter_file) old);
        })
        root

  abbrev pub with_residual : Option (Dict T) → ModelState T → ModelState T
  with_residual (some deltas) st = apply_residual_to_model ts (record st { merged_deltas = deltas })
  with_residual none st = clear_residual_from_model (record st { merged_deltas = [] })

  abbrev pub with_adapter_file : Option (Adapter T) → ModelState T → ModelState T
  with_adapter_file (some sd) st = load_active_adapter ts sd st
  with_adapter_file none st = reset_active_adapter ts st

  unfoldable pub restore : SnapshotDir T → ModelState T → ModelState T
  restore dir st = record (with_adapter_file dir.adapter_file (with_residual dir.merged_file st)) {
    merges_applied = dir.manifest.saved_merges;
  }

  -- The manifest of an unknown name cannot be read.
  abbrev pub loaded : Option (SnapshotDir T) → ModelState T → Option (Manifest × ModelState T)
  loaded none st = none
  loaded (some dir) st = some (dir.manifest, restore dir st)

  unfoldable pub load : String → SnapshotRoot T → ModelState T → Option (Manifest × ModelState T)
  load name root st = loaded (get name root) st
