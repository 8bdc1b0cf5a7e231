-- ===== src/Tests/MetricRuns.antt =====
-- trainfer/metrics.py: a response of a known route, a probe of an unknown path, and an exception.
use trainfer.Prelude.{
  ◌+◌, ◌≡◌, refl, inl, String, Option, none, some, List, [], ◌∷◌, length, get, set_item,
}
use trainfer.Errors.{Result, ok, raise, runtime_error}
use trainfer.Metrics.{inc, no_metrics, record_request, dispatch}
use trainfer.Metrics.Counts.{requests_total, Labels, Registered, dispatch_all, dispatch_all-counts}

abbrev responses : List (Option String × Result String)
responses =
    (some "/v1/train", ok "200") ∷ (none, ok "404") ∷ (some "/v1/train", raise runtime_error) ∷ []

abbrev routes : List String
routes = "/v1/train" ∷ []

counted_run :
    (dispatch_all (λ status. status) responses no_metrics).requests
    ≡ ("/v1/train", ("200", 1) ∷ ("500", 1) ∷ []) ∷ ("unmatched", ("404", 1) ∷ []) ∷ []
unfolding dispatch record_request inc set_item get
counted_run = refl

dispatch_all-counts_example :
    let m' = dispatch_all (λ status. status) responses no_metrics in
    (requests_total m' ≡ length responses + requests_total no_metrics)
    × Labels (Registered routes) m'.requests
dispatch_all-counts_example =
    dispatch_all-counts (λ status. status) routes responses no_metrics
      (inl refl, (tt, (inl refl, tt))) tt
