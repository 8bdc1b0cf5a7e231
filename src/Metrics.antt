-- ===== src/Metrics.antt =====
-- trainfer/metrics.py: the daemon's own counters and histograms, the gauges that are read at a scrape, and
-- the middleware that counts responses. prometheus_client is the parts `inc` and `observe`: a labelled
-- counter is the dict of its children, and a histogram keeps what it has observed. Times and losses are
-- in whole units.
pub mod Counts
use trainfer.Prelude.{
  ℕ, zero, suc, ◌+◌, String, Bool, true, false, Option, none, some, List, [], ◌∷◌, ◌++◌, Dict, get,
  set_item, or_default, str_eq, if◌then◌else◌,
}
use trainfer.Errors.{Raised, Result, ok, raise}

-- `labels(...).inc(n)`.
unfoldable pub inc : ℕ → String → Dict ℕ → Dict ℕ
inc n label children = set_item label (or_default (get label children) 0 + n) children

-- What a histogram has observed, each with its exemplar: the request's id, if there is one.
abbrev pub Observed : Type 0
Observed = List (ℕ × Option String)

unfoldable pub observe : ℕ → Option String → String → Dict Observed → Dict Observed
observe x exemplar label children =
    set_item label (or_default (get label children) [] ++ ((x, exemplar) ∷ [])) children

pub record Metrics : Type 0 where
  -- by route, and then by status
  pub requests : Dict (Dict ℕ)
  pub train_steps : Dict ℕ
  pub feedback_events : Dict ℕ
  pub queue_dropped : Dict ℕ
  pub replay_enqueued : ℕ
  pub eval_greedy_rank : ℕ
  pub step_latency : Dict Observed
  pub generate_latency : Dict Observed
  pub objective_loss : Dict Observed

abbrev pub no_metrics : Metrics
no_metrics = record {
  requests = [];
  train_steps = [];
  feedback_events = [];
  queue_dropped = [];
  replay_enqueued = 0;
  eval_greedy_rank = 0;
  step_latency = [];
  generate_latency = [];
  objective_loss = [];
}

unfoldable pub record_request : String → String → Metrics → Metrics
record_request route status m = record m {
  requests = set_item route (inc 1 status (or_default (get route m.requests) [])) m.requests;
}

abbrev pub or_unknown : String → String
or_unknown label = if str_eq label "" then "unknown" else label

-- `{"request_id": rid} if rid else None`.
abbrev pub exemplar : Option String → Option String
exemplar none = none
exemplar (some rid) = if str_eq rid "" then none else some rid

abbrev pub observe_loss : Option ℕ → Option String → String → Dict Observed → Dict Observed
observe_loss none rid label children = children
observe_loss (some loss) rid label children = observe loss (exemplar rid) label children

-- `rid` is the id of the current request.
unfoldable pub record_train_step : Option String → String → ℕ → Option ℕ → Metrics → Metrics
record_train_step rid objective latency loss m =
    let label = or_unknown objective in
    record m {
      train_steps = inc 1 label m.train_steps;
      step_latency = observe latency (exemplar rid) label m.step_latency;
      objective_loss = observe_loss loss rid label m.objective_loss;
    }

abbrev pub record_feedback_event : String → Metrics → Metrics
record_feedback_event kind m = record m {
  feedback_events = inc 1 (or_unknown kind) m.feedback_events;
}

abbrev pub record_queue_drop : String → Metrics → Metrics
record_queue_drop reason m = record m { queue_dropped = inc 1 reason m.queue_dropped }

abbrev pub record_replay_enqueued : ℕ → Metrics → Metrics
record_replay_enqueued n m = record m { replay_enqueued = m.replay_enqueued + n }

abbrev pub record_generate_latency : Option String → Bool → ℕ → Metrics → Metrics
record_generate_latency rid stream latency m = record m {
  generate_latency =
      observe latency (exemplar rid) (if stream then "true" else "false") m.generate_latency;
}

abbrev pub record_eval_greedy_rank : Metrics → Metrics
record_eval_greedy_rank m = record m { eval_greedy_rank = suc m.eval_greedy_rank }

-- The path of the route that matched, if one did.
abbrev pub resolve_route : Option String → String
resolve_route none = "unmatched"
resolve_route (some path) = if str_eq path "" then "unmatched" else path

-- `MetricsMiddleware.dispatch` of what the inner application gave: a response with this status, or an
-- exception, which goes on.
unfoldable pub dispatch {ℓ} :
    {A : Type ℓ} → (A → String) → Option String → Result A → Metrics → Result A × Metrics
dispatch status route (ok response) m =
    (ok response, record_request (resolve_route route) (status response) m)
dispatch status route (raise e) m = (raise e, record_request (resolve_route route) "500" m)

-- What a scrape reads off the controller. A reading that fails is `none`, and so is a state that is not there.
pub record Readings : Type 0 where
  pub queue_size : Option ℕ
  pub committed : Option ℕ
  pub merges_applied : Option ℕ
  pub trajectory_size : Option ℕ
  pub snapshot_stats : Option (ℕ × ℕ)
  pub is_shutting_down : Option Bool
  pub adapter_norm : Option ℕ
  pub residual_norm : Option ℕ

abbrev pub zero_one : Option Bool → ℕ
zero_one none = 0
zero_one (some b) = if b then 1 else 0

abbrev pub no_readings : Readings
no_readings = record {
  queue_size = none;
  committed = none;
  merges_applied = none;
  trajectory_size = none;
  snapshot_stats = none;
  is_shutting_down = none;
  adapter_norm = none;
  residual_norm = none;
}

-- `_ControllerGaugeCollector.collect`: every gauge has a value, whatever cannot be read.
unfoldable pub collect : Option Readings → Dict ℕ
collect controller =
    let r = or_default controller no_readings in
    let snapshots = or_default r.snapshot_stats (0, 0) in
    ("trainfer_queue_depth", or_default r.queue_size 0)
    ∷ ("trainfer_commit_cursor", or_default r.committed 0)
    ∷ ("trainfer_merges_applied", or_default r.merges_applied 0)
    ∷ ("trainfer_trajectory_bytes", or_default r.trajectory_size 0)
    ∷ ("trainfer_snapshots_count", snapshots.0)
    ∷ ("trainfer_snapshots_bytes", snapshots.1)
    ∷ ("trainfer_shutting_down", zero_one r.is_shutting_down)
    ∷ ("trainfer_adapter_norm", or_default r.adapter_norm 0)
    ∷ ("trainfer_residual_norm", or_default r.residual_norm 0)
    ∷ []

-- An entry of the snapshots directory: the files below it where it is a directory, each with its
-- size unless that cannot be read.
abbrev pub total_size : List (Option ℕ) → ℕ
total_size [] = 0
total_size (none ∷ files) = total_size files
total_size (some size ∷ files) = size + total_size files

unfoldable pub snapshot_stats : List (Option (List (Option ℕ))) → ℕ × ℕ
snapshot_stats [] = (0, 0)
snapshot_stats (none ∷ entries) = snapshot_stats entries
snapshot_stats (some files ∷ entries) =
    let (count, total) = snapshot_stats entries in (suc count, total_size files + total)
