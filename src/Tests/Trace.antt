-- ===== src/Tests/Trace.antt =====
-- Runs of src/core/trace.ts.
use cross_tab_worker_databus.Base.{
  ◌≡◌, refl, Bool, true, false, none, some, List, [], ◌∷◌, nat_has_eq,
}
use cross_tab_worker_databus.Base.JsString.{text}
use cross_tab_worker_databus.Trace.Reporter.{
  all, error, TraceEvent, Options, Reporter, created, get_metrics, stop,
}
use cross_tab_worker_databus.Trace.Calls.{
  Call, start_called, event_called, received_called, dispatched_called, flush_called,
  microtask_runs, run, delays_of, DescribesIf,
}
use cross_tab_worker_databus.Trace.Described.{run-created-DescribesIf}
use cross_tab_worker_databus.Trace.Capped.{IsCapped, run-created-IsCapped}
use cross_tab_worker_databus.Trace.Delivery.{run-created-alike}
use cross_tab_worker_databus.Trace.Silence.{IsSilent, run-stop-IsSilent}
use cross_tab_worker_databus.Trace.Reporter.{microtask}

abbrev options : Options
options = record {
  enabled = some true;
  mode = some all;
  metrics_interval_ms = none;
  async_sink = some true;
}

abbrev throws : TraceEvent → Bool
throws event = true

abbrev calls : List Call
calls =
    start_called (some 0)
    ∷ received_called (text "t") (some 10)
    ∷ dispatched_called (text "t") (some 130)
    ∷ event_called (error (text "transport")) (some 140)
    ∷ []

abbrev reporter : Reporter
reporter = run throws (created options 5000) calls

run-created-DescribesIf_example :
    DescribesIf
      (get_metrics reporter.session (some 200))
      (delays_of throws (created options 5000) [] calls)
run-created-DescribesIf_example = run-created-DescribesIf throws options 5000 calls (some 200)

run-created-IsCapped_example : IsCapped reporter.session
run-created-IsCapped_example = run-created-IsCapped throws options 5000 calls

abbrev async : Reporter
async = created (record options { async_sink = some true }) 5000

abbrev direct : Reporter
direct = created (record options { async_sink = some false }) 5000

run-created-alike_example :
    ((run throws async calls).session ≡ (run (λ e. false) direct calls).session)
    × ((microtask throws (run throws async calls).sink).delivered
        ≡ (run (λ e. false) direct calls).sink.delivered)
run-created-alike_example =
    run-created-alike throws (λ e. false) options 5000 calls
      ((λ e. cc), ((λ e. cc), ((λ e. cc), ((λ e. cc), tt))))

run-stop-IsSilent_example :
    IsSilent reporter.sink.delivered
      (run throws (stop reporter) (flush_called (some 300) ∷ microtask_runs ∷ []))
run-stop-IsSilent_example =
    run-stop-IsSilent throws reporter (flush_called (some 300) ∷ microtask_runs ∷ [])
      (refl, (refl, tt))
