-- ===== src/Trace/Delivery.antt =====
-- About src/core/trace.ts: the events that reach the sink, queued behind a microtask or not, and after
-- a stop.
use cross_tab_worker_databus.Base.{
  ℕ, ◌≡◌, refl, sym, ap, subst, ◌∙◌, ◌≢◌, ◌⊎◌, inl, inr, Bool, true, false, some, List, [], ◌∷◌,
  ◌++◌, arith, if◌then◌else◌, is_some, All, append-nil, append_assoc, nat_has_eq, if_true, if_false,
}
use cross_tab_worker_databus.Trace.Window.{Reading, has_activity}
use cross_tab_worker_databus.Trace.Reporter.{
  Body, message_metrics, TraceEvent, Options, Session, Sink, Reporter, created, metrics_active,
  events_active, snapshot, emit_sync, emit, emit_all, microtask, event, flush_now, flush,
}
use cross_tab_worker_databus.Trace.Calls.{
  Call, start_called, pause_called, stop_called, event_called, received_called, dispatched_called,
  discarded_called, accepted_called, suppressed_called, flush_called, interval_fires,
  microtask_runs, step, run,
}

-- What the loop of the microtask leaves.
abbrev pub Emitted : Sink → List TraceEvent → Sink → Type 0
Emitted k queued k' =
    (k'.delivered ≡ k.delivered ++ queued)
    × (k'.pending_events ≡ k.pending_events)
    × (k'.sink_flush_scheduled ≡ k.sink_flush_scheduled)
    × (k'.async_sink ≡ k.async_sink)

pub emit_all-Emitted :
    (throws : TraceEvent → Bool) (k : Sink) (queued : List TraceEvent)
    → Emitted k queued (emit_all throws k queued)
unfolding emit_all emit_sync
emit_all-Emitted throws k [] = (sym (append-nil k.delivered), refl, refl, refl)
emit_all-Emitted throws k (e ∷ queued) =
    let (d, p, s, a) = emit_all-Emitted throws (emit_sync throws k e) queued in
    (d ∙ append_assoc k.delivered (e ∷ []) queued, p, s, a)

-- The two sinks of a reporter that queues its events and of one that does not.
abbrev pub Matches : Sink → Sink → Type 0
Matches a b =
    (a.delivered ++ a.pending_events ≡ b.delivered)
    × (a.async_sink ≡ true)
    × ((a.pending_events ≡ []) ⊎ (a.sink_flush_scheduled ≡ true))
    × (b.async_sink ≡ false)
    × (b.sink_flush_scheduled ≡ false)

module _ (throws others : TraceEvent → Bool) where
  emit-Matches :
      (a b : Sink) (e : TraceEvent) → Matches a b → Matches (emit throws a e) (emit others b e)
  unfolding emit emit_sync
  emit-Matches a b e (d, on, l, off, n) =
      subst (λ k. Matches k (emit others b e)) (sym (if_true a.async_sink _ _ on))
        (subst
          (λ k.
            Matches
              (record a {
                pending_events = a.pending_events ++ e ∷ [];
                sink_flush_scheduled = true;
              })
              k)
          (sym (if_false b.async_sink _ _ off))
          (
            sym (append_assoc a.delivered a.pending_events (e ∷ [])) ∙ ap (λ es. es ++ e ∷ []) d,
            on,
            inr refl,
            off,
            n,
          ))

  drained :
      (a b : Sink)
      → Matches a b
      → Matches
          (emit_all throws
            (record a { sink_flush_scheduled = false; pending_events = [] })
            a.pending_events)
          b
  drained a b (d, on, l, off, n) =
      let k =
        emit_all throws (record a { sink_flush_scheduled = false; pending_events = [] })
          a.pending_events in
      let (d', p, s, on') =
        emit_all-Emitted throws (record a { sink_flush_scheduled = false; pending_events = [] })
          a.pending_events in
      (ap (λ es. k.delivered ++ es) p ∙ append-nil k.delivered ∙ d' ∙ d, on' ∙ on, inl p, off, n)

  drained_if :
      (a b : Sink)
      → Matches a b
      → (s : Bool)
      → Matches
          (if s
            then emit_all throws
                (record a { sink_flush_scheduled = false; pending_events = [] })
                a.pending_events
            else a)
          b
  drained_if a b m true = drained a b m
  drained_if a b m false = m

  microtask-Matches : (a b : Sink) → Matches a b → Matches (microtask throws a) (microtask others b)
  unfolding microtask
  microtask-Matches a b m =
      subst (Matches (microtask throws a)) (sym (if_false b.sink_flush_scheduled _ b m.4))
        (drained_if a b m a.sink_flush_scheduled)

  emit_if-Matches :
      (a b : Sink) (e : TraceEvent)
      → Matches a b
      → (x : Bool) → Matches (if x then emit throws a e else a) (if x then emit others b e else b)
  emit_if-Matches a b e m true = emit-Matches a b e m
  emit_if-Matches a b e m false = m

-- The two reporters differ in their sinks only.
abbrev pub Agrees : Reporter → Reporter → Type 0
Agrees a b = (a.session ≡ b.session) × Matches a.sink b.sink

abbrev at : Session → Sink → Reporter
at c k = record { session = c; sink = k }

module _ (throws others : TraceEvent → Bool) where
  either :
      (x : Bool) (a b a' b' : Reporter)
      → Agrees a b
      → Agrees a' b'
      → Agrees (if x then a else a') (if x then b else b')
  either true a b a' b' p q = p
  either false a b a' b' p q = q

  event-Agrees :
      (c : Session) (k l : Sink) (body : Body) (now : Reading)
      → Matches k l
      → Agrees (event throws (at c k) body now) (event others (at c l) body now)
  unfolding event
  event-Agrees c k l body now m =
      either (events_active c) _ _ (at c k) (at c l)
        (refl, emit-Matches throws others k l (record { body = body; timestamp = now }) m) (refl, m)

  flush-Agrees :
      (c : Session) (k l : Sink) (now : Reading)
      → Matches k l
      → Agrees (flush throws (at c k) now) (flush others (at c l) now)
  unfolding flush flush_now
  flush-Agrees c k l now m =
      either (metrics_active c) _ _ (at c k) (at c l)
        (
          refl,
          emit_if-Matches throws others k l
              (record { body = message_metrics (snapshot c now); timestamp = now }) m
              (has_activity c.window),
        )
        (refl, m)

  alike :
      (c : Session) (k l : Sink) (call : Call)
      → Matches k l
      → call ≢ stop_called
      → Agrees (step throws (at c k) call) (step others (at c l) call)
  alike c k l (start_called now) m n = (refl, m)
  alike c k l pause_called m n = (refl, m)
  alike c k l stop_called m n = absurd (n refl)
  alike c k l (event_called body now) m n = event-Agrees c k l body now m
  alike c k l (received_called topic now) m n = (refl, m)
  alike c k l (dispatched_called topic now) m n = (refl, m)
  alike c k l (discarded_called topic) m n = (refl, m)
  alike c k l accepted_called m n = (refl, m)
  alike c k l suppressed_called m n = (refl, m)
  alike c k l (flush_called now) m n = flush-Agrees c k l now m
  alike c k l (interval_fires now) m n =
      either (is_some c.interval_handle) _ _ (at c k) (at c l) (flush-Agrees c k l now m) (refl, m)
  alike c k l microtask_runs m n = (refl, microtask-Matches throws others k l m)

  step-Agrees :
      (a b : Reporter) (call : Call)
      → Agrees a b
      → call ≢ stop_called
      → Agrees (step throws a call) (step others b call)
  step-Agrees a b call (e, m) n =
      subst (λ c. Agrees (step throws a call) (step others (at c b.sink) call)) e
        (alike a.session a.sink b.sink call m n)

  run-Agrees :
      (a b : Reporter) (calls : List Call)
      → Agrees a b
      → All (λ call. call ≢ stop_called) calls
      → Agrees (run throws a calls) (run others b calls)
  run-Agrees a b [] m n = m
  run-Agrees a b (call ∷ calls) m n =
      run-Agrees (step throws a call) (step others b call) calls (step-Agrees a b call m n.0) n.1

  -- The microtask leaves nothing waiting.
  caught_up_if :
      (a b : Sink)
      → Matches a b
      → (s : Bool) → a.sink_flush_scheduled ≡ s
      → (if s
          then emit_all throws
              (record a { sink_flush_scheduled = false; pending_events = [] })
              a.pending_events
          else a).delivered
        ≡ b.delivered
  caught_up_if a b (d, on, l, off, n) true e =
      (emit_all-Emitted throws (record a { sink_flush_scheduled = false; pending_events = [] })
        a.pending_events).0
      ∙ d
  caught_up_if a b (d, on, inl p, off, n) false e =
      sym (ap (λ es. a.delivered ++ es) p ∙ append-nil a.delivered) ∙ d
  caught_up_if a b (d, on, inr l, off, n) false e = absurd (ground arith)

  caught_up : (a b : Sink) → Matches a b → (microtask throws a).delivered ≡ b.delivered
  unfolding microtask
  caught_up a b m = caught_up_if a b m a.sink_flush_scheduled refl

  -- A reporter that queues its events behind a microtask and one that does not, given the same calls
  -- without a stop, read the same metrics, and once the microtask has run, their sinks were given the
  -- same events in the same order, whichever of the calls of the sinks throw.
  pub run-created-alike :
      (options : Options) (interval_ms : ℕ) (calls : List Call)
      → All (λ call. call ≢ stop_called) calls
      → ((run throws
            (created (record options { async_sink = some true }) interval_ms)
            calls).session
          ≡ (run others
              (created (record options { async_sink = some false }) interval_ms)
              calls).session)
        × ((microtask throws
              (run throws
                (created (record options { async_sink = some true }) interval_ms)
                calls).sink).delivered
            ≡ (run others
                (created (record options { async_sink = some false }) interval_ms)
                calls).sink.delivered)
  run-created-alike options interval_ms calls n =
      let queued = created (record options { async_sink = some true }) interval_ms in
      let direct = created (record options { async_sink = some false }) interval_ms in
      let (e, m) = run-Agrees queued direct calls (refl, (refl, refl, inl refl, refl, refl)) n in
      (e, caught_up (run throws queued calls).sink (run others direct calls).sink m)
