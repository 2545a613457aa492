-- ===== src/Storage/Live.antt =====
-- About src/core/storage-batch.ts: the calls and the timers of the writer as one run, in which no
-- write is stranded in the queue.
use cross_tab_worker_databus.Base.{
  ◌-◌, ◌≤◌, ◌<◌, ◌≡◌, refl, sym, subst, ◌∙◌, ◌⊎◌, inl, inr, true, false, Option, none, some, List,
  [], ◌∷◌, ◌++◌, arith, ℕ_discrete, is_some, Bool-cases,
}
use cross_tab_worker_databus.Base.JsMap.{UniqueKeys, UniqueKeys-set, UniqueKeys-delete}
use cross_tab_worker_databus.Base.JsString.{Text, text_has_eq}
use cross_tab_worker_databus.Storage.Writer.{
  Storage, BatchingStorageWriter, entered, max_retry_delay_ms, initial_retry_delay_ms, forget, init,
  set_item, remove_item, clear, discard_pending, flush_loop, settle, flush, microtask, retry_fires,
}
use cross_tab_worker_databus.Storage.Reads.{flush_loop-cases}
use cross_tab_worker_databus.Storage.Flushing.{settle-frame, flush_loop-frame, flush-stops}

pub data Event : Type 0 where
  set_called : Text → Text → Event
  remove_called : Text → Event
  clear_called discard_called flush_called microtask_runs timer_fires : Event

module _ {S : Type 0} (backend : Storage S) where
  abbrev pub step : BatchingStorageWriter S → Event → BatchingStorageWriter S
  step w (set_called key value) = set_item w key value
  step w (remove_called key) = remove_item w key
  step w clear_called = (clear backend w).0
  step w discard_called = discard_pending w
  step w flush_called = flush backend w
  step w microtask_runs = microtask backend w
  step w timer_fires = retry_fires backend w

  abbrev pub run : BatchingStorageWriter S → List Event → BatchingStorageWriter S
  run w [] = w
  run w (e ∷ events) = run (step w e) events

  -- A write in the queue has a flush or a retry ahead of it, the gate stands for a queued flush, no
  -- key is queued twice, and the delays lie within their bounds.
  abbrev pub IsLive : BatchingStorageWriter S → Type 0
  IsLive w =
      ((w.pending ≡ []) ⊎ (0 < w.queued) ⊎ (is_some w.retry_handle ≡ true))
      × ((w.flush_scheduled ≡ false) ⊎ (0 < w.queued))
      × UniqueKeys w.pending
      × (initial_retry_delay_ms ≤ w.retry_delay_ms)
      × (w.retry_delay_ms ≤ max_retry_delay_ms)

  -- What the loop keeps of that.
  abbrev Sound : BatchingStorageWriter S → Type 0
  Sound w =
      UniqueKeys w.pending
      × (initial_retry_delay_ms ≤ w.retry_delay_ms)
      × (w.retry_delay_ms ≤ max_retry_delay_ms)

  flush_loop-Sound :
      (rest : List (Text × Option Text)) (w : BatchingStorageWriter S)
      → Sound w
      → Sound (flush_loop backend rest w)
  unfolding flush_loop
  flush_loop-Sound [] w v = v
  flush_loop-Sound ((key, value) ∷ rest) w (u, a, b) =
      let shorter = UniqueKeys-delete key w.pending u in
      elim (flush_loop-cases backend key value rest w) [
        | inl (s, e, q) ↦
            subst Sound (sym q)
              (flush_loop-Sound rest (forget key (record w { storage = s })) (shorter, a, b))
        | inr (inl (l, e, q)) ↦ subst Sound (sym q) (
            flush_loop-Sound rest (forget key (record w { warned = w.warned ++ key ∷ [] }))
              (shorter, a, b))
        | inr (inr (l, e, q)) ↦ subst Sound (sym q) (u, omega arith, omega arith)
      ]

  settle-Sound : (t : BatchingStorageWriter S) → Sound t → Sound (settle backend t)
  settle-Sound t (u, a, b) = (ground arith, ground arith, ground arith)

  flush-IsLive : (w : BatchingStorageWriter S) → Sound w → IsLive (flush backend w)
  unfolding flush
  flush-IsLive w v =
      let t = flush_loop backend w.pending (entered w) in
      let (p, s, r, q, f) = settle-frame backend t in
      let (q', f') = flush_loop-frame backend w.pending (entered w) in
      let (u, a, b) = settle-Sound t (flush_loop-Sound w.pending (entered w) v) in
      (
        elim (flush-stops backend w) [ inl e ↦ inl e | inr armed ↦ inr (inr armed) ],
        inl (f ∙ f'),
        u,
        a,
        b,
      )

  step-IsLive : (w : BatchingStorageWriter S) (e : Event) → IsLive w → IsLive (step w e)
  unfolding microtask retry_fires
  step-IsLive w (set_called key value) (l, f, u, a, b) =
      (ground arith, ground arith, UniqueKeys-set key (some value) w.pending u, a, b)
  step-IsLive w (remove_called key) (l, f, u, a, b) =
      (ground arith, ground arith, UniqueKeys-set key none w.pending u, a, b)
  step-IsLive w clear_called v = ground arith
  step-IsLive w discard_called v = ground arith
  step-IsLive w flush_called v = flush-IsLive w (v.2, v.3, v.4)
  step-IsLive w microtask_runs v = elim (ℕ_discrete w.queued 0) [
    | yes z ↦ let e : microtask backend w ≡ w = ground arith in subst IsLive (sym e) v
    | no p ↦
        let e : microtask backend w ≡ flush backend (record w { queued = w.queued - 1 }) =
          ground arith in
        subst IsLive (sym e) (flush-IsLive (record w { queued = w.queued - 1 }) (v.2, v.3, v.4))
  ]
  step-IsLive w timer_fires v = elim (Bool-cases (is_some w.retry_handle)) [
    | inl t ↦ rw t (flush-IsLive (record w { retry_handle = none }) (v.2, v.3, v.4))
    | inr n ↦ rw n v
  ]

  run-IsLive :
      (w : BatchingStorageWriter S) (events : List Event) → IsLive w → IsLive (run w events)
  run-IsLive w [] v = v
  run-IsLive w (e ∷ events) v = run-IsLive (step w e) events (step-IsLive w e v)

  -- After every sequence of calls, flushes and timers from a new writer, whichever writes the storage
  -- refuses: a queued write has a flush or a retry ahead of it, no key is queued twice, and the delay
  -- of the next retry is between 50 ms and 1,600 ms.
  pub run-init-IsLive : (s : S) (events : List Event) → IsLive (run (init s) events)
  run-init-IsLive s events =
      run-IsLive (init s) events (inl refl, inl refl, tt, omega arith, omega arith)
