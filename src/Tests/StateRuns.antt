-- ===== src/Tests/StateRuns.antt =====
-- trainfer/state.py and trainfer/snapshot.py: two layers with numbers for tensors.
use trainfer.Prelude.{
  ℕ, suc, ◌+◌, ◌*◌, ◌/◌, ◌==◌, ◌≡◌, refl, true, none, some, [], ◌∷◌, map, get, set_item, update,
}
use trainfer.State.{
  Tensors, Module, ModelState, reset_active_adapter, new_deltas, merge_active_into_residual,
  apply_residual_to_model,
}
use trainfer.State.Binding.{IsBound}
use trainfer.State.Merging.{Distinct, live, merged_live, merge-IsMerged}
use trainfer.Snapshot.Sessions.{
  Session, starts, trains, merges, loads, train_adapter, IsLive, Session-IsLive,
}
use trainfer.Snapshot.{Manifest, SnapshotDir, restore, save, load}
use trainfer.Snapshot.Restoring.{Covers, IsRestored, load-save}

abbrev pub numbers : Tensors ℕ
numbers = record {
  zero_tensor = 0;
  is_zero = λ n. n == 0;
  matmul = λ b a. b * a;
  scaled = λ alpha rank n. (n * alpha) / rank;
  add = λ m n. m + n;
  to_float32 = λ n. n;
  to_bfloat16 = λ n. n;
  to_parameter = λ n. n;
}

abbrev q_proj : Module ℕ
q_proj = record {
  name = "q_proj";
  is_lora = true;
  has_default = true;
  has_base = true;
  lora_a = 2;
  lora_b = 3;
  residual_delta = some 5;
  hook = some 5;
}

abbrev k_proj : Module ℕ
k_proj = record q_proj {
  name = "k_proj";
  lora_a = 0;
  lora_b = 0;
  residual_delta = none;
  hook = none;
}

abbrev pub trained : ModelState ℕ
trained = record {
  modules = q_proj ∷ k_proj ∷ [];
  base_model_name = "base";
  lora_rank = 1;
  lora_alpha = 2;
  merges_applied = 1;
  merged_deltas = ("q_proj.weight", 5) ∷ [];
}

pub trained-Distinct : Distinct trained.modules
trained-Distinct = ((refl, tt), (tt, tt))

pub trained-IsBound : IsBound numbers trained
unfolding get
trained-IsBound = ((refl, refl), ((refl, refl), tt))

-- 3 * 2 * 2 / 1 comes on top of 5.
merged_run :
    map live (merge_active_into_residual numbers trained).modules
    ≡ (0, 0, some 17, some 17) ∷ (0, 0, none, none) ∷ []
unfolding merge_active_into_residual apply_residual_to_model reset_active_adapter new_deltas update
    set_item get
merged_run = refl

merge-IsMerged_example :
    let st' = merge_active_into_residual numbers trained in
    (map live st'.modules ≡ map (merged_live numbers trained) trained.modules)
    × IsBound numbers st'
    × (st'.merges_applied ≡ suc trained.merges_applied)
merge-IsMerged_example = merge-IsMerged numbers trained trained-Distinct trained-IsBound

abbrev pub blank : ModelState ℕ
blank = record trained {
  modules = record q_proj { lora_a = 9; residual_delta = none; hook = none } ∷ k_proj ∷ [];
  merges_applied = 0;
  merged_deltas = [];
}

pub blank-IsBound : IsBound numbers blank
unfolding get
blank-IsBound = ((refl, refl), ((refl, refl), tt))

blank_covered : Covers numbers trained.merged_deltas blank
unfolding get
blank_covered = (λ old e. (5, refl), (λ old e. absurd (cc e), tt))

load-save_example :
    (manifest : Manifest) × ((t' : ModelState ℕ) × (load numbers "night"
          (save numbers "night" trained 40 7 [])
          blank
        ≡ some (manifest, t'))
      × IsRestored numbers trained t')
unfolding get
load-save_example =
    load-save numbers "night" trained blank 40 7 [] refl trained-Distinct refl blank-IsBound
      blank_covered

-- A step, a merge, and the load of a snapshot from before them.
abbrev empty_dir : SnapshotDir ℕ
empty_dir = record {
  manifest = record {
    snapshot_name = "start";
    created_at = 1;
    base_model = "base";
    saved_rank = 1;
    saved_alpha = 2;
    saved_merges = 0;
    trajectory_offset = 0;
  };
  merged_file = none;
  adapter_file = none;
}

abbrev stepped : ModelState ℕ
stepped = merge_active_into_residual numbers (train_adapter (λ m. (2, 3)) blank)

session : Session numbers (restore numbers empty_dir stepped)
session =
    loads
      (merges (
        trains (starts blank refl trained-Distinct ((refl, refl), ((refl, refl), tt)))
          (λ m. (2, 3))))
      empty_dir tt

Session-IsLive_example : IsLive numbers (restore numbers empty_dir stepped)
Session-IsLive_example = Session-IsLive numbers (restore numbers empty_dir stepped) session
