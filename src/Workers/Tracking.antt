-- ===== src/Workers/Tracking.antt =====
-- About src/workers/port-reaper.ts: the operations as one run, what a valid reaper is, and what keeps
-- the three maps together.
use cross_tab_worker_databus.Base.{
  ℕ, ◌≡◌, refl, sym, ap, subst, ◌∙◌, ◌≢◌, ◌⊎◌, inl, inr, Bool, true, false, none, some, List, [],
  ◌∷◌, ◌++◌, arith, ℕ_discrete, Bool-cases, length,
}
use cross_tab_worker_databus.Base.{nat_has_eq}
use cross_tab_worker_databus.Base.JsMap.{
  JsMap, get, has, set, get-set, get-delete, UniqueKeys, UniqueKeys-set, UniqueKeys-delete,
}
use cross_tab_worker_databus.Workers.Reaper.{
  Timeout, HeartbeatInterval, ReapTarget, PortReaper, is_silent, forget, teardown, reap_loop, reap,
  schedule, register, touch, set_timeout, remove, dispose, compute_min_heartbeat,
}

pub data Event : Type 0 where
  registered : ℕ → ReapTarget → ℕ → Event
  touched : ℕ → ℕ → Event
  timeout_set : ℕ → HeartbeatInterval → Event
  removed : ℕ → Event
  disposed : Event
  ticked : ℕ → Event

abbrev pub step : PortReaper → Event → PortReaper
step r (registered port target now) = register r port target now
step r (touched port now) = touch r port now
step r (timeout_set port interval) = set_timeout r port interval
step r (removed port) = remove r port
step r disposed = dispose r
step r (ticked now) = reap r now

abbrev pub run : PortReaper → List Event → PortReaper
run r [] = r
run r (e ∷ events) = run (step r e) events

abbrev pub SameKeys : PortReaper → Type 0
SameKeys r =
    (p : ℕ)
    → (has p r.last_seen_at ≡ has p r.targets) × (has p r.session_timeout_ms ≡ has p r.targets)

-- There is no interval, or one, and `handle` is it.
abbrev pub OneTimer : PortReaper → Type 0
OneTimer r =
    ((r.handle ≡ none) × (r.running ≡ 0)) ⊎ ((r.handle ≡ some r.interval_ms) × (r.running ≡ 1))

-- No port, no interval; and else one interval at the least cadence.
abbrev pub OnCadence : PortReaper → Type 0
OnCadence r =
    ((r.session_timeout_ms ≡ []) × (r.handle ≡ none) × (r.running ≡ 0))
    ⊎ ((r.session_timeout_ms ≢ [])
        × (r.handle ≡ some (compute_min_heartbeat r))
        × (r.interval_ms ≡ compute_min_heartbeat r)
        × (r.running ≡ 1))

abbrev pub IsTracking : PortReaper → Type 0
IsTracking r = UniqueKeys r.targets × SameKeys r

abbrev pub IsValid : PortReaper → Type 0
IsValid r = IsTracking r × OnCadence r

pub length_zero : {A : Type 0} (xs : List A) → length xs ≡ 0 → xs ≡ []
length_zero [] h = refl
length_zero (x ∷ xs) h = absurd (omega arith)

pub schedule-OnCadence : (r : PortReaper) → OneTimer r → OnCadence (schedule r)
unfolding schedule
schedule-OnCadence r t = elim (ℕ_discrete (length r.session_timeout_ms) 0) [
  | yes z ↦
      let e = length_zero r.session_timeout_ms z in inl (ground arith, ground arith, ground arith)
  | no p ↦
      let some_left : r.session_timeout_ms ≢ [] = λ h. p (ap (λ m. length m) h) in
      inr (ground arith, ground arith, ground arith, ground arith)
]

pub schedule-IsTracking : (r : PortReaper) → IsTracking r → IsTracking (schedule r)
unfolding schedule
schedule-IsTracking r v = ground arith

pub OnCadence-OneTimer : (r : PortReaper) → OnCadence r → OneTimer r
OnCadence-OneTimer r (inl (e, h, n)) = inl (h, n)
OnCadence-OneTimer r (inr (e, h, i, n)) = inr (h ∙ ap some (sym i), n)

pub forget-IsTracking : (port : ℕ) (r : PortReaper) → IsTracking r → IsTracking (forget port r)
forget-IsTracking port r (u, k) = (
  UniqueKeys-delete port r.targets u,
  λ p.
      let a = get-delete p port r.targets in
      let b = get-delete p port r.last_seen_at in
      let c = get-delete p port r.session_timeout_ms in
      let kp = k p in
      elim (ℕ_discrete port p) [
        | yes h ↦ (ground arith, ground arith)
        | no h ↦ (ground arith, ground arith)
      ],
)

pub reap_loop-IsTracking :
    (now : ℕ) (l : JsMap ℕ ReapTarget) (r : PortReaper) (any : Bool)
    → IsTracking r
    → IsTracking (reap_loop now l r any).0
unfolding reap_loop
reap_loop-IsTracking now [] r any v = v
reap_loop-IsTracking now ((port, target) ∷ l) r any v = elim (Bool-cases (is_silent r now port)) [
  | inl t ↦
      rw (reap_loop, t)
        (reap_loop-IsTracking now l
          (record (forget port r) { calls = r.calls ++ teardown port target }) true
          (forget-IsTracking port r v))
  | inr f ↦ rw (reap_loop, f) (reap_loop-IsTracking now l r any v)
]

-- The pass leaves the interval alone, and a pass that took no port leaves everything.
pub reap_loop-frame :
    (now : ℕ) (l : JsMap ℕ ReapTarget) (r : PortReaper) (any : Bool)
    → let u = reap_loop now l r any in
      (u.0.handle ≡ r.handle)
      × (u.0.interval_ms ≡ r.interval_ms)
      × (u.0.running ≡ r.running)
      × ((u.1 ≡ true) ⊎ (u.0 ≡ r))
      × ((any ≡ false) ⊎ (u.1 ≡ true))
unfolding reap_loop
reap_loop-frame now [] r any = (refl, refl, refl, inr refl, ground arith)
reap_loop-frame now ((port, target) ∷ l) r any = elim (Bool-cases (is_silent r now port)) [
  | inl t ↦
      let ih =
        reap_loop-frame now l (record (forget port r) { calls = r.calls ++ teardown port target })
          true in
      ground (arith, ih)
  | inr f ↦ ground (arith, reap_loop-frame now l r any)
]

pub set-IsTracking :
    (port now : ℕ) (target : ReapTarget) (timeout : Timeout) (r u : PortReaper)
    → u.targets ≡ set port target r.targets
    → u.last_seen_at ≡ set port now r.last_seen_at
    → u.session_timeout_ms ≡ set port timeout r.session_timeout_ms
    → IsTracking r
    → IsTracking u
set-IsTracking port now target timeout r u e f g (v, k) = (
  subst UniqueKeys (sym e) (UniqueKeys-set port target r.targets v),
  λ p.
      let a = ap (get p) e ∙ get-set p port target r.targets in
      let b = ap (get p) f ∙ get-set p port now r.last_seen_at in
      let c = ap (get p) g ∙ get-set p port timeout r.session_timeout_ms in
      let kp = k p in (ground arith, ground arith),
)
