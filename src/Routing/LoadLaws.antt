-- ===== src/Routing/LoadLaws.antt =====
-- About src/core/routing.ts, `effectiveWorkerLoad`.
use cross_tab_worker_databus.Base.{◌≡◌, inl, inr, true, Option, arith, Option-cases}
use cross_tab_worker_databus.Base.Number.{Number}
use cross_tab_worker_databus.Types.{WorkerRecord, LoadWeightingOptions}
use cross_tab_worker_databus.Routing.Load.{base_load, effective_worker_load}

module _ (N : Number) where
  open N use {is_finite, of_nat, finite_of_nat}

  pub base_load-IsFinite : (w : WorkerRecord N) → is_finite (base_load N w) ≡ true
  unfolding base_load
  base_load-IsFinite w = ground (arith, finite_of_nat 0)

  -- The score is always a finite number, whatever a peer's record or the weights hold.
  pub effective_worker_load-IsFinite :
      (w : WorkerRecord N) (o : Option (LoadWeightingOptions N))
      → is_finite (effective_worker_load N w o) ≡ true
  unfolding effective_worker_load
  effective_worker_load-IsFinite w o = elim (Option-cases w.throughput) [
    | inl e ↦ rw (e, effective_worker_load) (base_load-IsFinite w)
    | inr (s, e) ↦ rw (e, effective_worker_load) (ground (arith, base_load-IsFinite w))
  ]
