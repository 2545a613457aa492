-- ===== src/Routing/Load.antt =====
-- src/core/routing.ts, `effectiveWorkerLoad`: the score by which owners are compared.
use cross_tab_worker_databus.Base.{not, ◌&&◌, ◌||◌, Option, none, some, if◌then◌else◌}
use cross_tab_worker_databus.Base.Number.{Number}
use cross_tab_worker_databus.Types.{WorkerRecord, ThroughputSample, LoadWeightingOptions}

module _ (N : Number) where
  open N use {F, is_finite, is_zero, is_neg, add, mul, div, of_nat}

  -- `options?.field ?? 0`.
  unfoldable pub weight_or_zero :
      (LoadWeightingOptions N → Option F) → Option (LoadWeightingOptions N) → F
  weight_or_zero field none = of_nat 0
  weight_or_zero field (some o) = elim (field o) [ none ↦ of_nat 0 | some w ↦ w ]

  unfoldable pub base_load : WorkerRecord N → F
  base_load worker = if is_finite worker.load then worker.load else of_nat 0

  -- The sum that a usable sample adds to the topic count.
  unfoldable pub weighted_load :
      (base message_rate_weight byte_rate_weight schedule_lag_weight : F) → ThroughputSample N → F
  weighted_load base wm wb wl s =
      let window_seconds = div s.window_ms (of_nat 1000) in
      let message_rate = div s.message_count window_seconds in
      let byte_rate = div s.byte_count window_seconds in
      let schedule_lag_ratio = div s.overrun_ms s.window_ms in
      add (add (add base (mul wm message_rate)) (mul wb byte_rate)) (mul wl schedule_lag_ratio)

  unfoldable pub effective_worker_load : WorkerRecord N → Option (LoadWeightingOptions N) → F
  unfolding weight_or_zero base_load weighted_load
  effective_worker_load worker options = elim worker.throughput [
    | none ↦ base_load worker
    | some sample ↦
        let wm = weight_or_zero (λ o. o.message_rate_weight) options in
        let wb = weight_or_zero (λ o. o.byte_rate_weight) options in
        let wl = weight_or_zero (λ o. o.schedule_lag_weight) options in
        let weighted = weighted_load (base_load worker) wm wb wl sample in
        if not (is_finite sample.window_ms)
          || (is_neg sample.window_ms || is_zero sample.window_ms)
          || (is_zero wm && is_zero wb && is_zero wl)
        then base_load worker
        else if is_finite weighted
        then weighted
        else base_load worker
  ]
