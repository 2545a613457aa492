-- ===== src/Workers/Cadence.antt =====
-- About src/workers/port-reaper.ts: the three maps hold the same ports, and one interval runs at the
-- cadence that the tracked ports ask for.
use cross_tab_worker_databus.Base.{
  ℕ, ◌≡◌, refl, sym, ap, subst, inl, inr, false, List, [], ◌∷◌, arith, ℕ_discrete, Bool-cases,
}
use cross_tab_worker_databus.Base.{nat_has_eq}
use cross_tab_worker_databus.Base.JsMap.{get, has, set, get-set}
use cross_tab_worker_databus.Workers.Reaper.{
  HeartbeatInterval, ReapTarget, PortReaper, init, forget, reap_loop, reap, register, touch,
  set_timeout, remove, dispose, safe_timeout, default_session_timeout_ms,
}
use cross_tab_worker_databus.Workers.Tracking.{
  Event, step, run, IsValid, schedule-OnCadence, schedule-IsTracking, OnCadence-OneTimer,
  forget-IsTracking, reap_loop-IsTracking, reap_loop-frame, set-IsTracking, registered, touched,
  timeout_set, removed, disposed, ticked,
}

register-IsValid :
    (r : PortReaper) (port : ℕ) (target : ReapTarget) (now : ℕ)
    → IsValid r
    → IsValid (register r port target now)
unfolding register
register-IsValid r port target now (v, c) =
    let u = record r {
      targets = set port target r.targets;
      last_seen_at = set port now r.last_seen_at;
      session_timeout_ms = set port default_session_timeout_ms r.session_timeout_ms;
    } in
    (
      schedule-IsTracking u
          (set-IsTracking port now target default_session_timeout_ms r u refl refl refl v),
      schedule-OnCadence u (OnCadence-OneTimer r c),
    )

touch-IsValid : (r : PortReaper) (port now : ℕ) → IsValid r → IsValid (touch r port now)
unfolding touch
touch-IsValid r port now ((u, k), c) = elim (Bool-cases (has port r.targets)) [
  | inl t ↦ rw t (
    (
      u,
      λ p.
          let b = get-set p port now r.last_seen_at in
          let kp = k p in
          elim (ℕ_discrete port p) [
            | yes h ↦ (ground (arith, ap (λ q. has q r.targets) h), kp.1)
            | no h ↦ (ground arith, kp.1)
          ],
    ),
    c,
  )
  | inr f ↦ rw f ((u, k), c)
]

set_timeout-IsValid :
    (r : PortReaper) (port : ℕ) (interval : HeartbeatInterval)
    → IsValid r
    → IsValid (set_timeout r port interval)
unfolding set_timeout
set_timeout-IsValid r port interval ((u, k), c) = elim (Bool-cases (has port r.targets)) [
  | inl t ↦
      let u' = record r {
        session_timeout_ms = set port (safe_timeout interval) r.session_timeout_ms;
      } in
      rw t (
        schedule-IsTracking u' (
          u,
          λ p.
              let b = get-set p port (safe_timeout interval) r.session_timeout_ms in
              let kp = k p in
              elim (ℕ_discrete port p) [
                | yes h ↦ (kp.0, ground (arith, ap (λ q. has q r.targets) h))
                | no h ↦ (kp.0, ground arith)
              ],
        ),
        schedule-OnCadence u' (OnCadence-OneTimer r c),
      )
  | inr f ↦ rw f ((u, k), c)
]

remove-IsValid : (r : PortReaper) (port : ℕ) → IsValid r → IsValid (remove r port)
unfolding remove
remove-IsValid r port (v, c) = elim (Bool-cases (has port r.targets)) [
  | inl t ↦ rw t (
    schedule-IsTracking (forget port r) (forget-IsTracking port r v),
    schedule-OnCadence (forget port r) (OnCadence-OneTimer r c),
  )
  | inr f ↦ rw f (v, c)
]

dispose-IsValid : (r : PortReaper) → IsValid r → IsValid (dispose r)
unfolding dispose get
dispose-IsValid r (v, c) =
    ((tt, λ p. (refl, refl)), inl (refl, refl, ground (arith, OnCadence-OneTimer r c)))

reap-IsValid : (r : PortReaper) (now : ℕ) → IsValid r → IsValid (reap r now)
unfolding reap
reap-IsValid r now (v, c) =
    let u = reap_loop now r.targets r false in
    let (h, i, n, s, b) = reap_loop-frame now r.targets r false in
    elim (Bool-cases u.1) [
      | inl t ↦ rw t (
        schedule-IsTracking u.0 (reap_loop-IsTracking now r.targets r false v),
        schedule-OnCadence u.0 (ground (arith, OnCadence-OneTimer r c)),
      )
      | inr f ↦
          let same : u.0 ≡ r = elim s [ inl t ↦ absurd (ground arith) | inr e ↦ e ] in
          rw f (subst IsValid (sym same) (v, c))
    ]

step-IsValid : (r : PortReaper) (e : Event) → IsValid r → IsValid (step r e)
step-IsValid r (registered port target now) v = register-IsValid r port target now v
step-IsValid r (touched port now) v = touch-IsValid r port now v
step-IsValid r (timeout_set port interval) v = set_timeout-IsValid r port interval v
step-IsValid r (removed port) v = remove-IsValid r port v
step-IsValid r disposed v = dispose-IsValid r v
step-IsValid r (ticked now) v = reap-IsValid r now v

run-IsValid : (r : PortReaper) (events : List Event) → IsValid r → IsValid (run r events)
run-IsValid r [] v = v
run-IsValid r (e ∷ events) v = run-IsValid (step r e) events (step-IsValid r e v)

-- After every sequence of registrations, messages, timeouts, removals, disposals and passes: no port
-- is tracked twice, the three maps hold the same ports, and no interval runs if none is tracked, and
-- else exactly one, set with the least cadence that the tracked timeouts ask for.
pub run-init-IsValid : (events : List Event) → IsValid (run init events)
unfolding get
run-init-IsValid events = run-IsValid init events ((tt, λ p. (refl, refl)), inl (refl, refl, refl))
