-- ===== src/Trace/Described.antt =====
-- About src/core/trace.ts: what a snapshot reads is what the measured delays are, in every reachable
-- state.
use cross_tab_worker_databus.Base.{
  ℕ, refl, sym, ap, subst, ◌∙◌, inl, inr, Bool, none, some, List, [], Bool-cases, nat_has_eq,
  if_true, if_false,
}
use cross_tab_worker_databus.Base.JsString.{text_has_eq}
use cross_tab_worker_databus.Trace.Histogram.{
  p50, p95, p100, Percentile, percentile_ms, round_ms, average,
}
use cross_tab_worker_databus.Trace.Window.{Reading, Window}
use cross_tab_worker_databus.Trace.Reporter.{
  TraceEvent, Options, Session, created, metrics_active, snapshot, get_metrics,
}
use cross_tab_worker_databus.Trace.Ranks.{
  tally, sum, IsPercentile, RanksOf, p50-RanksOf, p95-RanksOf, p100-RanksOf,
  percentile_ms-IsPercentile,
}
use cross_tab_worker_databus.Trace.Sound.{IsSound}
use cross_tab_worker_databus.Trace.Calls.{
  Call, run, delays_of, IsValid, Reads, Describes, DescribesIf,
}
use cross_tab_worker_databus.Trace.Valid.{run-created-IsValid}

Reads-of :
    (p : Percentile) (w : Window) (delays : List ℕ)
    → RanksOf p
    → IsSound w delays
    → Reads p delays (round_ms (percentile_ms w.latency_buckets w.latency_samples p) 1)
Reads-of p w delays r (q, b, n, s, d, l) = (
  percentile_ms w.latency_buckets w.latency_samples p,
  subst (λ buckets. IsPercentile p delays (percentile_ms buckets w.latency_samples p)) (sym b)
      (subst (λ k. IsPercentile p delays (percentile_ms (tally delays) k p)) (sym n)
        (percentile_ms-IsPercentile p delays r)),
  refl,
)

snapshot-Describes :
    (c : Session) (delays : List ℕ) (now : Reading)
    → IsSound c.window delays
    → Describes (snapshot c now) delays
unfolding snapshot
snapshot-Describes c delays now v = (
  v.2,
  ap (λ total. average total c.window.latency_samples) v.3 ∙ ap (λ n. average (sum delays) n) v.2,
  Reads-of p50 c.window delays p50-RanksOf v,
  Reads-of p95 c.window delays p95-RanksOf v,
  Reads-of p100 c.window delays p100-RanksOf v,
)

get_metrics-Describes :
    (c : Session) (delays : List ℕ) (now : Reading)
    → IsValid c delays
    → DescribesIf (get_metrics c now) delays
unfolding get_metrics
get_metrics-Describes c delays now (v, inl a) =
    subst (λ o. DescribesIf o delays)
      (sym (if_true (metrics_active c) (some (snapshot c now)) none a))
      (snapshot-Describes c delays now v)
get_metrics-Describes c delays now (v, inr i) = elim (Bool-cases (metrics_active c)) [
  | inl a ↦
      subst (λ o. DescribesIf o delays)
        (sym (if_true (metrics_active c) (some (snapshot c now)) none a))
        (snapshot-Describes c delays now v)
  | inr n ↦
      subst (λ o. DescribesIf o delays)
        (sym (if_false (metrics_active c) (some (snapshot c now)) none n)) i.1
]

-- After every sequence of calls from a new reporter, the metrics that it reads are those of all the
-- delays of the window, kept one by one: their number, their average, and as the percentiles the
-- midpoints of the buckets at which the count of the delays reaches the rank; a reporter that reads
-- none has measured none.
pub run-created-DescribesIf :
    (throws : TraceEvent → Bool) (options : Options) (interval_ms : ℕ) (calls : List Call)
    → (now : Reading)
    → DescribesIf
        (get_metrics (run throws (created options interval_ms) calls).session now)
        (delays_of throws (created options interval_ms) [] calls)
run-created-DescribesIf throws options interval_ms calls now =
    get_metrics-Describes (run throws (created options interval_ms) calls).session
      (delays_of throws (created options interval_ms) [] calls) now
      (run-created-IsValid throws options interval_ms calls)
