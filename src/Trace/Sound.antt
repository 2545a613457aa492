-- ===== src/Trace/Sound.antt =====
-- About src/core/trace.ts: what each call does to the window, against a reference that keeps every
-- measured delay.
use cross_tab_worker_databus.Base.{
  ℕ, ◌+◌, ◌≤◌, ◌≡◌, refl, ap, Option, none, some, List, [], ◌∷◌, arith, length, nat_has_eq,
}
use cross_tab_worker_databus.Base.JsMap.{get, set}
use cross_tab_worker_databus.Base.JsString.{Text, text_has_eq}
use cross_tab_worker_databus.Trace.Histogram.{bucket_index, bump}
use cross_tab_worker_databus.Trace.Window.{
  Reading, Window, empty_window, shift, received_timestamp, measured, sample, dispatch_delay,
  receive, discard, dispatch,
}
use cross_tab_worker_databus.Trace.Ranks.{tally, sum}
use cross_tab_worker_databus.Trace.Queues.{
  waiting, AreCapped, taken, admit-AreCapped, shift-AreCapped,
}

-- The histogram, the count and the sum are those of the delays; every sample has a dispatch and a
-- receive of its own, and the queues are within their caps.
abbrev pub IsSound : Window → List ℕ → Type 0
IsSound w delays =
    AreCapped w.received_at
    × (w.latency_buckets ≡ tally delays)
    × (w.latency_samples ≡ length delays)
    × (w.latency_sum_ms ≡ sum delays)
    × (w.latency_samples ≤ w.dispatched)
    × (w.latency_samples + waiting w.received_at ≤ w.received)

-- The reference: the delays with the one that is measured, if there is one.
abbrev pub with_delay : Option ℕ → List ℕ → List ℕ
with_delay none delays = delays
with_delay (some d) delays = d ∷ delays

abbrev one_of : Option ℕ → ℕ
one_of none = 0
one_of (some d) = 1

pub empty_window-IsSound : IsSound empty_window []
empty_window-IsSound = ((omega arith, tt, tt), refl, refl, refl, omega arith, omega arith)

pub receive-IsSound :
    (topic : Text) (now : Reading) (w : Window) (delays : List ℕ)
    → IsSound w delays
    → IsSound (receive topic now w) delays
unfolding receive
receive-IsSound topic now w delays (q, b, n, s, d, r) =
    let (q', l) = admit-AreCapped topic now w.received_at (get topic w.received_at) refl q in
    (q', b, n, s, d, omega arith)

pub discard-IsSound :
    (topic : Text) (w : Window) (delays : List ℕ)
    → IsSound w delays
    → IsSound (discard topic w) delays
unfolding discard
discard-IsSound topic w delays (q, b, n, s, d, r) =
    let (q', l) = shift-AreCapped topic w.received_at (get topic w.received_at) refl q in
    (q', b, n, s, d, omega arith)

-- A delay is measured only from a receive time that is taken from its queue.
measured-taken :
    (o : Option (List Reading)) (now : Reading)
    → one_of (measured (received_timestamp o) now) ≤ taken o
measured-taken none now = omega arith
measured-taken (some []) now = omega arith
measured-taken (some (none ∷ queue)) now = omega arith
measured-taken (some (some at ∷ queue)) none = omega arith
measured-taken (some (some at ∷ queue)) (some t) = omega arith

sample-IsSound :
    (w : Window) (delays : List ℕ) (o : Option ℕ)
    → AreCapped w.received_at
    → w.latency_buckets ≡ tally delays
    → w.latency_samples ≡ length delays
    → w.latency_sum_ms ≡ sum delays
    → w.latency_samples + one_of o ≤ w.dispatched
    → w.latency_samples + waiting w.received_at + one_of o ≤ w.received
    → IsSound (sample w o) (with_delay o delays)
unfolding sample
sample-IsSound w delays none q b n s d r = (q, b, n, s, omega arith, omega arith)
sample-IsSound w delays (some m) q b n s d r =
    (q, ap (bump (bucket_index m)) b, omega arith, omega arith, omega arith, omega arith)

one_of-le : (o : Option ℕ) → one_of o ≤ 1
one_of-le none = omega arith
one_of-le (some d) = omega arith

pub dispatch-IsSound :
    (topic : Text) (now : Reading) (w : Window) (delays : List ℕ)
    → IsSound w delays
    → IsSound (dispatch topic now w) (with_delay (dispatch_delay topic now w) delays)
unfolding dispatch dispatch_delay
dispatch-IsSound topic now w delays (q, b, n, s, d, r) =
    let (q', l) = shift-AreCapped topic w.received_at (get topic w.received_at) refl q in
    let t = measured-taken (get topic w.received_at) now in
    let one = one_of-le (dispatch_delay topic now w) in
    sample-IsSound
      (record w {
        dispatched = w.dispatched + 1;
        topics = set topic tt w.topics;
        received_at = shift topic w.received_at (get topic w.received_at);
      })
      delays (dispatch_delay topic now w) q' b n s (omega arith) (omega arith)
