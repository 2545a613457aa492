-- ===== src/Trace/Calls.antt =====
-- About src/core/trace.ts: the calls, the interval and the microtask of a reporter as one run, and the
-- reference that keeps every measured delay of the window.
use cross_tab_worker_databus.Base.{
  ℕ, ◌≡◌, ◌⊎◌, Bool, true, Option, none, some, List, [], ◌∷◌, if◌then◌else◌, is_some, length,
  nat_has_eq,
}
use cross_tab_worker_databus.Base.JsString.{Text, text_has_eq}
use cross_tab_worker_databus.Trace.Histogram.{p50, p95, p100, Percentile, round_ms, average}
use cross_tab_worker_databus.Trace.Window.{
  Reading, Window, empty_window, receive, discard, dispatch, dispatch_delay, accept, suppress,
  has_activity,
}
use cross_tab_worker_databus.Trace.Reporter.{
  Body, TraceEvent, Session, Reporter, Metrics, metrics_active, start, pause, stop, recorded,
  microtask, event, flush,
}
use cross_tab_worker_databus.Trace.Ranks.{sum, IsPercentile}
use cross_tab_worker_databus.Trace.Sound.{IsSound, with_delay}

pub data Call : Type 0 where
  start_called : Reading → Call
  pause_called stop_called : Call
  event_called : Body → Reading → Call
  received_called dispatched_called : Text → Reading → Call
  discarded_called : Text → Call
  accepted_called suppressed_called : Call
  flush_called interval_fires : Reading → Call
  microtask_runs : Call

-- A call of one of the `record` methods.
abbrev pub record_called : Reporter → (Window → Window) → Reporter
record_called r f = record r { session = recorded f r.session }

module _ (throws : TraceEvent → Bool) where
  abbrev pub step : Reporter → Call → Reporter
  step r (start_called now) = record r { session = start r.session now }
  step r pause_called = record r { session = pause r.session }
  step r stop_called = stop r
  step r (event_called body now) = event throws r body now
  step r (received_called topic now) = record_called r (receive topic now)
  step r (dispatched_called topic now) = record_called r (dispatch topic now)
  step r (discarded_called topic) = record_called r (discard topic)
  step r accepted_called = record_called r accept
  step r suppressed_called = record_called r suppress
  step r (flush_called now) = flush throws r now
  step r (interval_fires now) = if is_some r.session.interval_handle then flush throws r now else r
  step r microtask_runs = record r { sink = microtask throws r.sink }

  abbrev pub run : Reporter → List Call → Reporter
  run r [] = r
  run r (call ∷ calls) = run (step r call) calls

-- The delays of the window after a flush, and after a call.
abbrev pub flushed_delays : Session → List ℕ → List ℕ
flushed_delays c delays =
    if metrics_active c then if has_activity c.window then [] else delays else delays

abbrev pub delays_after : Session → List ℕ → Call → List ℕ
delays_after c delays (start_called now) = delays
delays_after c delays pause_called = []
delays_after c delays stop_called = []
delays_after c delays (event_called body now) = delays
delays_after c delays (received_called topic now) = delays
delays_after c delays (dispatched_called topic now) =
    if metrics_active c then with_delay (dispatch_delay topic now c.window) delays else delays
delays_after c delays (discarded_called topic) = delays
delays_after c delays accepted_called = delays
delays_after c delays suppressed_called = delays
delays_after c delays (flush_called now) = flushed_delays c delays
delays_after c delays (interval_fires now) =
    if is_some c.interval_handle then flushed_delays c delays else delays
delays_after c delays microtask_runs = delays

-- The measured delays of the window, newest first, after a run from a new reporter.
abbrev pub delays_of : (TraceEvent → Bool) → Reporter → List ℕ → List Call → List ℕ
delays_of throws r delays [] = delays
delays_of throws r delays (call ∷ calls) =
    delays_of throws (step throws r call) (delays_after r.session delays call) calls

-- A session that records nothing has an empty window and no interval.
abbrev pub IsIdle : Session → List ℕ → Type 0
IsIdle c delays = (c.window ≡ empty_window) × (delays ≡ []) × (c.interval_handle ≡ none)

abbrev pub IsValid : Session → List ℕ → Type 0
IsValid c delays = IsSound c.window delays × ((metrics_active c ≡ true) ⊎ IsIdle c delays)

-- What a snapshot says of the delays.
abbrev pub Reads : Percentile → List ℕ → ℕ → Type 0
Reads p delays tenths = (ms : ℕ) × IsPercentile p delays ms × (tenths ≡ round_ms ms 1)

abbrev pub Describes : Metrics → List ℕ → Type 0
Describes m delays =
    (m.dispatch_samples ≡ length delays)
    × (m.dispatch_avg ≡ average (sum delays) (length delays))
    × Reads p50 delays m.dispatch_p50
    × Reads p95 delays m.dispatch_p95
    × Reads p100 delays m.dispatch_max

abbrev pub DescribesIf : Option Metrics → List ℕ → Type 0
DescribesIf none delays = delays ≡ []
DescribesIf (some m) delays = Describes m delays
