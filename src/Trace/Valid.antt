-- ===== src/Trace/Valid.antt =====
-- About src/core/trace.ts: the window holds what the measured delays give, after every call.
use cross_tab_worker_databus.Base.{
  ℕ, ◌≡◌, refl, sym, subst, inl, inr, Bool, true, false, ◌||◌, some, List, [], ◌∷◌, arith,
  if◌then◌else◌, is_some, nat_has_eq,
}
use cross_tab_worker_databus.Base.JsString.{text_has_eq}
use cross_tab_worker_databus.Trace.Window.{
  Reading, Window, empty_window, receive, discard, dispatch, dispatch_delay, accept, suppress,
  has_activity,
}
use cross_tab_worker_databus.Trace.Reporter.{
  emit, events_active, Body, TraceEvent, Options, Session, Reporter, created, is_events,
  metrics_active, opened, start, stop, recorded, event, flush_now, flush,
}
use cross_tab_worker_databus.Trace.Sound.{
  IsSound, with_delay, empty_window-IsSound, receive-IsSound, discard-IsSound, dispatch-IsSound,
}
use cross_tab_worker_databus.Trace.Calls.{
  Call, start_called, pause_called, stop_called, event_called, received_called, dispatched_called,
  discarded_called, accepted_called, suppressed_called, flush_called, interval_fires,
  microtask_runs, step, run, flushed_delays, delays_after, delays_of, IsValid,
}

if_same {ℓ} : {A : Type ℓ} (b : Bool) (a : A) → (if b then a else a) ≡ a
if_same true a = refl
if_same false a = refl

-- The calls of the `record` methods, with the reference beside them.
recorded_if-IsValid :
    (f : Window → Window) (c : Session) (delays after : List ℕ)
    → (IsSound c.window delays → IsSound (f c.window) after)
    → IsValid c delays
    → (b : Bool) → metrics_active c ≡ b
    → IsValid (if b then record c { window = f c.window } else c) (if b then after else delays)
recorded_if-IsValid f c delays after g v true a = (g v.0, inl a)
recorded_if-IsValid f c delays after g v false a = v

recorded-IsValid :
    (f : Window → Window) (c : Session) (delays after : List ℕ)
    → (IsSound c.window delays → IsSound (f c.window) after)
    → IsValid c delays
    → IsValid (recorded f c) (if metrics_active c then after else delays)
unfolding recorded
recorded-IsValid f c delays after g v =
    recorded_if-IsValid f c delays after g v (metrics_active c) refl

kept-IsValid :
    (f : Window → Window) (c : Session) (delays : List ℕ)
    → (IsSound c.window delays → IsSound (f c.window) delays)
    → IsValid c delays
    → IsValid (recorded f c) delays
kept-IsValid f c delays g v =
    subst (IsValid (recorded f c)) (if_same (metrics_active c) delays)
      (recorded-IsValid f c delays delays g v)

flushed_if-IsSound :
    (w : Window) (delays : List ℕ)
    → IsSound w delays
    → (b : Bool) → IsSound (if b then empty_window else w) (if b then [] else delays)
flushed_if-IsSound w delays v true = empty_window-IsSound
flushed_if-IsSound w delays v false = v

flush_if-IsValid :
    (throws : TraceEvent → Bool) (r : Reporter) (now : Reading) (delays : List ℕ)
    → IsValid r.session delays
    → (b : Bool) → metrics_active r.session ≡ b
    → IsValid
        (if b then flush_now throws r now else r).session
        (if b then if has_activity r.session.window then [] else delays else delays)
unfolding flush_now
flush_if-IsValid throws r now delays v true a =
    (flushed_if-IsSound r.session.window delays v.0 (has_activity r.session.window), inl a)
flush_if-IsValid throws r now delays v false a = v

flush-IsValid :
    (throws : TraceEvent → Bool) (r : Reporter) (now : Reading) (delays : List ℕ)
    → IsValid r.session delays
    → IsValid (flush throws r now).session (flushed_delays r.session delays)
unfolding flush
flush-IsValid throws r now delays v =
    flush_if-IsValid throws r now delays v (metrics_active r.session) refl

fires-IsValid :
    (throws : TraceEvent → Bool) (r : Reporter) (now : Reading) (delays : List ℕ)
    → IsValid r.session delays
    → (b : Bool)
    → IsValid
        (if b then flush throws r now else r).session
        (if b then flushed_delays r.session delays else delays)
fires-IsValid throws r now delays v true = flush-IsValid throws r now delays v
fires-IsValid throws r now delays v false = v

session-if :
    (throws : TraceEvent → Bool) (r : Reporter) (body : Body) (now : Reading) (b : Bool)
    → (if b
        then record r { sink = emit throws r.sink (record { body = body; timestamp = now }) }
        else r).session
      ≡ r.session
session-if throws r body now true = refl
session-if throws r body now false = refl

event-session :
    (throws : TraceEvent → Bool) (r : Reporter) (body : Body) (now : Reading)
    → (event throws r body now).session ≡ r.session
unfolding event
event-session throws r body now = session-if throws r body now (events_active r.session)

opened_if-IsValid :
    (c : Session) (now : Reading) (delays : List ℕ)
    → IsValid c delays
    → c.enabled ≡ true
    → (h e : Bool) → is_events c.mode ≡ e
    → IsValid
        (if h || e then record c { stopped = false } else record c {
          stopped = false;
          interval_started_at = now;
          interval_handle = some c.metrics_interval_ms;
        })
        delays
opened_if-IsValid c now delays v on true false q = (v.0, inl (ground arith))
opened_if-IsValid c now delays v on false false q = (v.0, inl (ground arith))
opened_if-IsValid c now delays (s, inl a) on true true q = absurd (ground arith)
opened_if-IsValid c now delays (s, inl a) on false true q = absurd (ground arith)
opened_if-IsValid c now delays (s, inr i) on true true q = (s, inr i)
opened_if-IsValid c now delays (s, inr i) on false true q = (s, inr i)

start_if-IsValid :
    (c : Session) (now : Reading) (delays : List ℕ)
    → IsValid c delays
    → (b : Bool) → c.enabled ≡ b
    → IsValid (if b then opened c now else c) delays
start_if-IsValid c now delays v true on =
    opened_if-IsValid c now delays v on (is_some c.interval_handle) (is_events c.mode) refl
start_if-IsValid c now delays v false on = v

start-IsValid :
    (c : Session) (now : Reading) (delays : List ℕ)
    → IsValid c delays
    → IsValid (start c now) delays
unfolding start
start-IsValid c now delays v = start_if-IsValid c now delays v c.enabled refl

stop-IsValid : (r : Reporter) → IsValid (stop r).session []
unfolding stop
stop-IsValid r = (empty_window-IsSound, inr (refl, refl, refl))

step-IsValid :
    (throws : TraceEvent → Bool) (r : Reporter) (call : Call) (delays : List ℕ)
    → IsValid r.session delays
    → IsValid (step throws r call).session (delays_after r.session delays call)
step-IsValid throws r (start_called now) delays v = start-IsValid r.session now delays v
step-IsValid throws r pause_called delays v = (empty_window-IsSound, inr (refl, refl, refl))
step-IsValid throws r stop_called delays v = stop-IsValid r
step-IsValid throws r (event_called body now) delays v =
    subst (λ c. IsValid c delays) (sym (event-session throws r body now)) v
step-IsValid throws r (received_called topic now) delays v =
    kept-IsValid (receive topic now) r.session delays
      (receive-IsSound topic now r.session.window delays) v
step-IsValid throws r (dispatched_called topic now) delays v =
    recorded-IsValid (dispatch topic now) r.session delays
      (with_delay (dispatch_delay topic now r.session.window) delays)
      (dispatch-IsSound topic now r.session.window delays) v
step-IsValid throws r (discarded_called topic) delays v =
    kept-IsValid (discard topic) r.session delays (discard-IsSound topic r.session.window delays) v
step-IsValid throws r accepted_called delays v = kept-IsValid accept r.session delays (λ s. s) v
step-IsValid throws r suppressed_called delays v = kept-IsValid suppress r.session delays (λ s. s) v
step-IsValid throws r (flush_called now) delays v = flush-IsValid throws r now delays v
step-IsValid throws r (interval_fires now) delays v =
    fires-IsValid throws r now delays v (is_some r.session.interval_handle)
step-IsValid throws r microtask_runs delays v = v

run-IsValid :
    (throws : TraceEvent → Bool) (r : Reporter) (calls : List Call) (delays : List ℕ)
    → IsValid r.session delays
    → IsValid (run throws r calls).session (delays_of throws r delays calls)
run-IsValid throws r [] delays v = v
run-IsValid throws r (call ∷ calls) delays v =
    run-IsValid throws (step throws r call) calls (delays_after r.session delays call)
      (step-IsValid throws r call delays v)

pub run-created-IsValid :
    (throws : TraceEvent → Bool) (options : Options) (interval_ms : ℕ) (calls : List Call)
    → IsValid
        (run throws (created options interval_ms) calls).session
        (delays_of throws (created options interval_ms) [] calls)
run-created-IsValid throws options interval_ms calls =
    run-IsValid throws (created options interval_ms) calls []
      (empty_window-IsSound, inr (refl, refl, refl))
