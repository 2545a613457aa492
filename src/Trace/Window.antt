-- ===== src/Trace/Window.antt =====
-- src/core/trace.ts: the fields of `DataBusTraceReporter` that one metrics window accumulates, which
-- `resetMetrics` clears, and what each call does to them. A reading of the clock is a whole number of
-- milliseconds, or `none` where it is NaN.
use cross_tab_worker_databus.Base.{
  ℕ, ◌+◌, ◌-◌, Bool, ◌||◌, Option, none, some, List, [], ◌∷◌, ◌++◌, ltb, leb, ◌==◌, if◌then◌else◌,
  length, drop, nat_has_eq,
}
use cross_tab_worker_databus.Base.JsMap.{JsMap, get, set, delete}
use cross_tab_worker_databus.Base.JsString.{Text, text_has_eq}
use cross_tab_worker_databus.Trace.Histogram.{latency_bucket_count, bucket_index, bump, zeros}

abbrev pub Reading : Type 0
Reading = Option ℕ

abbrev pub max_pending_topics : ℕ
max_pending_topics = 1_000

abbrev pub max_pending_messages_per_topic : ℕ
max_pending_messages_per_topic = 256

pub record Window : Type 0 where
  pub received : ℕ
  pub dispatched : ℕ
  pub latency_samples : ℕ
  pub topics : JsMap Text (Unit {0})
  pub received_at : JsMap Text (List Reading)
  pub latency_buckets : List ℕ
  pub latency_sum_ms : ℕ
  pub dedup_accepted : ℕ
  pub dedup_suppressed : ℕ

-- The fields as they are declared, and after `resetMetrics`.
abbrev pub empty_window : Window
empty_window = record {
  received = 0;
  dispatched = 0;
  latency_samples = 0;
  topics = [];
  received_at = [];
  latency_buckets = zeros latency_bucket_count;
  latency_sum_ms = 0;
  dedup_accepted = 0;
  dedup_suppressed = 0;
}

-- A receive under the two caps.
unfoldable pub admit :
    Text → Reading → JsMap Text (List Reading) → Option (List Reading) → JsMap Text (List Reading)
admit topic now received_at none =
    if leb max_pending_topics (length received_at)
    then received_at
    else set topic (now ∷ []) received_at
admit topic now received_at (some queue) =
    if leb max_pending_messages_per_topic (length queue)
    then received_at
    else set topic (queue ++ now ∷ []) received_at

-- `queue.shift()` on the queue of the topic, which is deleted once it is empty.
unfoldable pub shift :
    Text → JsMap Text (List Reading) → Option (List Reading) → JsMap Text (List Reading)
shift topic received_at none = received_at
shift topic received_at (some queue) =
    let rest = drop 1 queue in
    if length rest == 0 then delete topic received_at else set topic rest received_at

abbrev pub first : List Reading → Reading
first [] = none
first (at ∷ queue) = at

-- What `queue?.shift()` returns: `none` where there is none or where it is NaN, which yields no delay
-- either.
abbrev pub received_timestamp : Option (List Reading) → Reading
received_timestamp none = none
received_timestamp (some queue) = first queue

-- The delay, at least 0, if it is finite.
abbrev pub measured : Reading → Reading → Option ℕ
measured none now = none
measured (some at) none = none
measured (some at) (some now) = some (now - at)

unfoldable pub sample : Window → Option ℕ → Window
sample w none = w
sample w (some measured_ms) = record w {
  latency_samples = w.latency_samples + 1;
  latency_buckets = bump (bucket_index measured_ms) w.latency_buckets;
  latency_sum_ms = w.latency_sum_ms + measured_ms;
}

-- The delay that a dispatch on the topic measures.
unfoldable pub dispatch_delay : Text → Reading → Window → Option ℕ
dispatch_delay topic now w = measured (received_timestamp (get topic w.received_at)) now

unfoldable pub receive : Text → Reading → Window → Window
receive topic now w = record w {
  received = w.received + 1;
  topics = set topic tt w.topics;
  received_at = admit topic now w.received_at (get topic w.received_at);
}

unfoldable pub discard : Text → Window → Window
discard topic w = record w { received_at = shift topic w.received_at (get topic w.received_at) }

unfoldable pub dispatch : Text → Reading → Window → Window
dispatch topic now w =
    sample
      (record w {
        dispatched = w.dispatched + 1;
        topics = set topic tt w.topics;
        received_at = shift topic w.received_at (get topic w.received_at);
      })
      (dispatch_delay topic now w)

abbrev pub accept : Window → Window
accept w = record w { dedup_accepted = w.dedup_accepted + 1 }

abbrev pub suppress : Window → Window
suppress w = record w { dedup_suppressed = w.dedup_suppressed + 1 }

-- The condition under which a flush emits.
abbrev pub has_activity : Window → Bool
has_activity w =
    ltb 0 w.received || ltb 0 w.dispatched || ltb 0 w.dedup_accepted || ltb 0 w.dedup_suppressed
