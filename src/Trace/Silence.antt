-- ===== src/Trace/Silence.antt =====
-- About src/core/trace.ts: a stopped reporter.
use cross_tab_worker_databus.Base.{
  ◌≡◌, refl, sym, ap, subst, ◌∙◌, Bool, true, false, none, List, [], ◌∷◌, ◌++◌, arith,
  if◌then◌else◌, is_some, All, append-nil, nat_has_eq, if_false,
}
use cross_tab_worker_databus.Trace.Window.{Reading, Window, empty_window}
use cross_tab_worker_databus.Trace.Reporter.{
  Body, TraceEvent, Session, Reporter, metrics_active, events_active, stop, recorded, emit_all,
  microtask, event, flush,
}
use cross_tab_worker_databus.Trace.Calls.{
  Call, start_called, pause_called, stop_called, event_called, received_called, dispatched_called,
  discarded_called, accepted_called, suppressed_called, flush_called, interval_fires,
  microtask_runs, step, run,
}
use cross_tab_worker_databus.Trace.Delivery.{emit_all-Emitted}

abbrev pub is_start : Call → Bool
is_start (start_called now) = true
is_start _ = false

-- Nothing is recorded, queued or armed, and the sink was given the events given.
abbrev pub IsSilent : List TraceEvent → Reporter → Type 0
IsSilent delivered r =
    (r.session.stopped ≡ true)
    × (r.session.window ≡ empty_window)
    × (r.session.interval_handle ≡ none)
    × (r.sink.pending_events ≡ [])
    × (r.sink.delivered ≡ delivered)

stop-IsSilent :
    (r : Reporter) (delivered : List TraceEvent)
    → r.sink.delivered ≡ delivered
    → IsSilent delivered (stop r)
unfolding stop
stop-IsSilent r delivered e = (refl, refl, refl, refl, e)

inactive : (c : Session) → c.stopped ≡ true → metrics_active c ≡ false
inactive c h = ground arith

no_events : (c : Session) → c.stopped ≡ true → events_active c ≡ false
no_events c h = ground arith

module _ (throws : TraceEvent → Bool) (delivered : List TraceEvent) where
  recorded-IsSilent :
      (f : Window → Window) (r : Reporter)
      → IsSilent delivered r
      → IsSilent delivered (record r { session = recorded f r.session })
  unfolding recorded
  recorded-IsSilent f r v =
      subst (λ c. IsSilent delivered (record r { session = c }))
        (sym (if_false (metrics_active r.session) _ r.session (inactive r.session v.0))) v

  event-IsSilent :
      (r : Reporter) (body : Body) (now : Reading)
      → IsSilent delivered r
      → IsSilent delivered (event throws r body now)
  unfolding event
  event-IsSilent r body now v =
      subst (IsSilent delivered)
        (sym (if_false (events_active r.session) _ r (no_events r.session v.0))) v

  flush-IsSilent :
      (r : Reporter) (now : Reading)
      → IsSilent delivered r
      → IsSilent delivered (flush throws r now)
  unfolding flush
  flush-IsSilent r now v =
      subst (IsSilent delivered)
        (sym (if_false (metrics_active r.session) _ r (inactive r.session v.0))) v

  fires-IsSilent :
      (r : Reporter) (now : Reading)
      → IsSilent delivered r
      → (b : Bool) → IsSilent delivered (if b then flush throws r now else r)
  fires-IsSilent r now v true = flush-IsSilent r now v
  fires-IsSilent r now v false = v

  microtask_if-IsSilent :
      (r : Reporter)
      → IsSilent delivered r
      → (b : Bool)
      → IsSilent delivered (record r {
        sink =
            if b
            then emit_all throws
                (record r.sink { sink_flush_scheduled = false; pending_events = [] })
                r.sink.pending_events
            else r.sink;
      })
  microtask_if-IsSilent r (s, w, i, p, d) true =
      let (d', p', s', a') =
        emit_all-Emitted throws
          (record r.sink { sink_flush_scheduled = false; pending_events = [] })
          r.sink.pending_events in
      (s, w, i, p', d' ∙ ap (λ es. r.sink.delivered ++ es) p ∙ append-nil r.sink.delivered ∙ d)
  microtask_if-IsSilent r v false = v

  microtask-IsSilent :
      (r : Reporter)
      → IsSilent delivered r
      → IsSilent delivered (record r { sink = microtask throws r.sink })
  unfolding microtask
  microtask-IsSilent r v = microtask_if-IsSilent r v r.sink.sink_flush_scheduled

  step-IsSilent :
      (r : Reporter) (call : Call)
      → is_start call ≡ false
      → IsSilent delivered r
      → IsSilent delivered (step throws r call)
  step-IsSilent r (start_called now) n v = absurd (ground arith)
  step-IsSilent r pause_called n (s, w, i, p, d) = (s, refl, refl, p, d)
  step-IsSilent r stop_called n v = stop-IsSilent r delivered v.4
  step-IsSilent r (event_called body now) n v = event-IsSilent r body now v
  step-IsSilent r (received_called topic now) n v = recorded-IsSilent _ r v
  step-IsSilent r (dispatched_called topic now) n v = recorded-IsSilent _ r v
  step-IsSilent r (discarded_called topic) n v = recorded-IsSilent _ r v
  step-IsSilent r accepted_called n v = recorded-IsSilent _ r v
  step-IsSilent r suppressed_called n v = recorded-IsSilent _ r v
  step-IsSilent r (flush_called now) n v = flush-IsSilent r now v
  step-IsSilent r (interval_fires now) n v =
      fires-IsSilent r now v (is_some r.session.interval_handle)
  step-IsSilent r microtask_runs n v = microtask-IsSilent r v

  run-IsSilent :
      (r : Reporter) (calls : List Call)
      → All (λ call. is_start call ≡ false) calls
      → IsSilent delivered r
      → IsSilent delivered (run throws r calls)
  run-IsSilent r [] n v = v
  run-IsSilent r (call ∷ calls) n v =
      run-IsSilent (step throws r call) calls n.1 (step-IsSilent r call n.0 v)

-- After a stop, whatever is called but start, and whichever timers and microtasks still run, the sink
-- is given no event, no event waits, no interval is armed and the window stays empty.
pub run-stop-IsSilent :
    (throws : TraceEvent → Bool) (r : Reporter) (calls : List Call)
    → All (λ call. is_start call ≡ false) calls
    → IsSilent r.sink.delivered (run throws (stop r) calls)
run-stop-IsSilent throws r calls n =
    run-IsSilent throws r.sink.delivered (stop r) calls n (stop-IsSilent r r.sink.delivered refl)
