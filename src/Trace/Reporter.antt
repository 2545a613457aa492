-- ===== src/Trace/Reporter.antt =====
-- src/core/trace.ts: the class `DataBusTraceReporter`. Each call is given the reading of the clock that
-- it may take. The sink is a parameter that says which calls throw, and does not call the reporter;
-- `delivered` is the log of its calls and `warned` that of the warnings, oldest first. The armed
-- interval is its period, and `sink_flush_scheduled` also stands for the microtask, which is queued
-- when the flag is set and clears it. A latency is in tenths of a millisecond.
use cross_tab_worker_databus.Base.{
  ℕ, ◌-◌, Bool, true, false, not, ◌&&◌, ◌||◌, Option, none, some, List, [], ◌∷◌, ◌++◌, ◌==◌,
  if◌then◌else◌, is_some, length, nat_has_eq,
}
use cross_tab_worker_databus.Base.JsString.{Text, text_has_eq}
use cross_tab_worker_databus.Types.{WorkerStatus}
use cross_tab_worker_databus.Trace.Histogram.{p50, p95, p100, percentile_ms, round_ms, average}
use cross_tab_worker_databus.Trace.Window.{Reading, Window, empty_window, has_activity}

pub data Mode : Type 0 where
  events metrics all : Mode

pub record Metrics : Type 0 where
  pub duration_ms : Reading
  pub received : ℕ
  pub dispatched : ℕ
  pub topics : ℕ
  pub dispatch_samples : ℕ
  pub dispatch_avg : ℕ
  pub dispatch_p50 : ℕ
  pub dispatch_p95 : ℕ
  pub dispatch_max : ℕ
  pub dedup_accepted : ℕ
  pub dedup_suppressed : ℕ
  pub timestamp : Reading

-- The variants of the event; the unions of string literals are their strings.
pub data Body : Type 0 where
  lifecycle : Text → Body
  status : WorkerStatus → Body
  subscription : Text → Text → ℕ → Body
  coordination : Bool → ℕ → List Text → List Text → Body
  error : Text → Body
  reliability : Text → Option Text → Option Text → Option ℕ → Option Text → Option ℕ → Body
  message_metrics : Metrics → Body

pub record TraceEvent : Type 0 where
  pub body : Body
  pub timestamp : Reading

-- The value of `metricsIntervalMs` when it is given.
pub data Interval : Type 0 where
  not_finite negative : Interval
  finite : ℕ → Interval

pub record Options : Type 0 where
  pub enabled : Option Bool
  pub mode : Option Mode
  pub metrics_interval_ms : Option Interval
  pub async_sink : Option Bool

-- The fields that do not concern the sink.
pub record Session : Type 0 where
  pub enabled : Bool
  pub mode : Mode
  pub metrics_interval_ms : ℕ
  pub interval_handle : Option ℕ
  pub interval_started_at : Reading
  pub stopped : Bool
  pub window : Window

pub record Sink : Type 0 where
  pub async_sink : Bool
  pub pending_events : List TraceEvent
  pub sink_flush_scheduled : Bool
  pub delivered : List TraceEvent
  pub warned : List TraceEvent

pub record Reporter : Type 0 where
  pub session : Session
  pub sink : Sink

abbrev pub default_metrics_interval_ms : ℕ
default_metrics_interval_ms = 5_000

-- `none` is the thrown `RangeError`.
abbrev pub normalize_interval : Option Interval → Option ℕ
normalize_interval none = some default_metrics_interval_ms
normalize_interval (some not_finite) = none
normalize_interval (some negative) = none
normalize_interval (some (finite value)) = if value == 0 then none else some value

abbrev pub or_else {ℓ} : {A : Type ℓ} → Option A → A → A
or_else none a = a
or_else (some b) a = b

abbrev pub created : Options → ℕ → Reporter
created options interval_ms = record {
  session = record {
    enabled = or_else options.enabled false;
    mode = or_else options.mode all;
    metrics_interval_ms = interval_ms;
    interval_handle = none;
    interval_started_at = some 0;
    stopped = false;
    window = empty_window;
  };
  sink = record {
    async_sink = or_else options.async_sink false;
    pending_events = [];
    sink_flush_scheduled = false;
    delivered = [];
    warned = [];
  };
}

-- The constructor, `none` where it throws.
unfoldable pub create : Options → Option Reporter
create options = elim (normalize_interval options.metrics_interval_ms) [
  | none ↦ none
  | some interval_ms ↦ some (created options interval_ms)
]

abbrev pub is_events : Mode → Bool
is_events events = true
is_events metrics = false
is_events all = false

abbrev pub is_metrics : Mode → Bool
is_metrics events = false
is_metrics metrics = true
is_metrics all = false

abbrev pub metrics_active : Session → Bool
metrics_active c = (c.enabled && not c.stopped) && not (is_events c.mode)

-- `Math.max(0, timestamp - intervalStartedAt)`.
abbrev pub elapsed : Reading → Reading → Reading
elapsed none now = none
elapsed (some at) none = none
elapsed (some at) (some now) = some (now - at)

unfoldable pub snapshot : Session → Reading → Metrics
snapshot c now = record {
  duration_ms = elapsed c.interval_started_at now;
  received = c.window.received;
  dispatched = c.window.dispatched;
  topics = length c.window.topics;
  dispatch_samples = c.window.latency_samples;
  dispatch_avg = average c.window.latency_sum_ms c.window.latency_samples;
  dispatch_p50 = round_ms (percentile_ms c.window.latency_buckets c.window.latency_samples p50) 1;
  dispatch_p95 = round_ms (percentile_ms c.window.latency_buckets c.window.latency_samples p95) 1;
  dispatch_max = round_ms (percentile_ms c.window.latency_buckets c.window.latency_samples p100) 1;
  dedup_accepted = c.window.dedup_accepted;
  dedup_suppressed = c.window.dedup_suppressed;
  timestamp = now;
}

unfoldable pub get_metrics : Session → Reading → Option Metrics
get_metrics c now = if metrics_active c then some (snapshot c now) else none

-- `start`, once it is enabled.
abbrev pub opened : Session → Reading → Session
opened c now =
    if is_some c.interval_handle || is_events c.mode
    then record c { stopped = false }
    else record c {
      stopped = false;
      interval_started_at = now;
      interval_handle = some c.metrics_interval_ms;
    }

unfoldable pub start : Session → Reading → Session
start c now = if c.enabled then opened c now else c

abbrev pub pause : Session → Session
pause c = record c { interval_handle = none; interval_started_at = some 0; window = empty_window }

unfoldable pub stop : Reporter → Reporter
stop r = record {
  session = pause (record r.session { stopped = true });
  sink = record r.sink { pending_events = [] };
}

unfoldable pub get_sink_state : Reporter → Bool × ℕ
get_sink_state r = (r.sink.async_sink, length r.sink.pending_events)

-- The guard of the five `record` methods.
unfoldable pub recorded : (Window → Window) → Session → Session
recorded f c = if metrics_active c then record c { window = f c.window } else c

-- The guard of `event`.
abbrev pub events_active : Session → Bool
events_active c = (c.enabled && not c.stopped) && not (is_metrics c.mode)

-- What `flushNow` leaves of the window.
abbrev pub flushed : Session → Reading → Session
flushed c now = record c {
  window = if has_activity c.window then empty_window else c.window;
  interval_started_at = now;
}

module _ (throws : TraceEvent → Bool) where
  unfoldable pub emit_sync : Sink → TraceEvent → Sink
  emit_sync k event = record k {
    delivered = k.delivered ++ event ∷ [];
    warned = if throws event then k.warned ++ event ∷ [] else k.warned;
  }

  unfoldable pub emit : Sink → TraceEvent → Sink
  emit k event =
      if k.async_sink
      then record k { pending_events = k.pending_events ++ event ∷ []; sink_flush_scheduled = true }
      else emit_sync k event

  -- The loop of the microtask.
  unfoldable pub emit_all : Sink → List TraceEvent → Sink
  emit_all k [] = k
  emit_all k (event ∷ queued) = emit_all (emit_sync k event) queued

  unfoldable pub microtask : Sink → Sink
  microtask k =
      if k.sink_flush_scheduled
      then emit_all (record k { sink_flush_scheduled = false; pending_events = [] })
          k.pending_events
      else k

  unfoldable pub event : Reporter → Body → Reading → Reporter
  event r body now =
      if events_active r.session
      then record r { sink = emit r.sink (record { body = body; timestamp = now }) }
      else r

  unfoldable pub flush_now : Reporter → Reading → Reporter
  flush_now r now = record {
    session = flushed r.session now;
    sink =
        if has_activity r.session.window
        then emit r.sink
            (record { body = message_metrics (snapshot r.session now); timestamp = now })
        else r.sink;
  }

  unfoldable pub flush : Reporter → Reading → Reporter
  flush r now = if metrics_active r.session then flush_now r now else r
