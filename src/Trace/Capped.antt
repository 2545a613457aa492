-- ===== src/Trace/Capped.antt =====
-- About src/core/trace.ts: the bounds of the queues and of the counters in every reachable state.
use cross_tab_worker_databus.Base.{◌+◌, ◌≤◌, ◌≡◌, ◌⊎◌, inl, inr, none, true, List, [], Bool, ℕ}
use cross_tab_worker_databus.Trace.Window.{empty_window}
use cross_tab_worker_databus.Trace.Reporter.{TraceEvent, Options, Session, created, metrics_active}
use cross_tab_worker_databus.Trace.Queues.{waiting, AreCapped}
use cross_tab_worker_databus.Trace.Calls.{Call, run, delays_of, IsValid}
use cross_tab_worker_databus.Trace.Valid.{run-created-IsValid}

abbrev pub IsCapped : Session → Type 0
IsCapped c =
    AreCapped c.window.received_at
    × (c.window.latency_samples ≤ c.window.dispatched)
    × (c.window.latency_samples + waiting c.window.received_at ≤ c.window.received)
    × ((metrics_active c ≡ true) ⊎ ((c.window ≡ empty_window) × (c.interval_handle ≡ none)))

IsValid-IsCapped : (c : Session) (delays : List ℕ) → IsValid c delays → IsCapped c
IsValid-IsCapped c delays ((q, b, n, s, d, r), inl a) = (q, d, r, inl a)
IsValid-IsCapped c delays ((q, b, n, s, d, r), inr (w, e, h)) = (q, d, r, inr (w, h))

-- After every sequence of calls from a new reporter, at most 1,000 topics have waiting receive times,
-- each once and with 1 to 256 of them, the latency samples are no more than the dispatches and with
-- the waiting receive times no more than the receives; and a reporter that records nothing has an
-- empty window and no interval.
pub run-created-IsCapped :
    (throws : TraceEvent → Bool) (options : Options) (interval_ms : ℕ) (calls : List Call)
    → IsCapped (run throws (created options interval_ms) calls).session
run-created-IsCapped throws options interval_ms calls =
    IsValid-IsCapped (run throws (created options interval_ms) calls).session
      (delays_of throws (created options interval_ms) [] calls)
      (run-created-IsValid throws options interval_ms calls)
