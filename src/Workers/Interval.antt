-- ===== src/Workers/Interval.antt =====
-- About src/workers/port-reaper.ts, `computeMinHeartbeat`: the least of the intervals.
use cross_tab_worker_databus.Base.{
  ℕ, ◌/◌, ◌≤◌, ◌≡◌, refl, ◌⊎◌, inl, inr, [], ◌∷◌, arith, dec_le, All, In, nat_has_eq,
}
use cross_tab_worker_databus.Base.JsMap.{JsMap}
use cross_tab_worker_databus.Workers.Reaper.{
  Timeout, finite, infinite, PortReaper, compute_min_from, compute_min_heartbeat, min_with,
  default_heartbeat_interval_ms, default_session_timeout_multiplier,
}

-- A number that every timeout allows.
abbrev pub Allows : ℕ → Timeout → Type 0
Allows n (finite t) = n ≤ t / default_session_timeout_multiplier
Allows n infinite = Unit

compute_min_from-Allows :
    (n : ℕ) (timeouts : JsMap ℕ Timeout)
    → (compute_min_from n timeouts ≤ n)
      × All (λ e. Allows (compute_min_from n timeouts) e.1) timeouts
compute_min_from-Allows n [] = (omega arith, tt)
compute_min_from-Allows n ((p, infinite) ∷ timeouts) =
    let (a, b) = compute_min_from-Allows n timeouts in (a, (tt, b))
compute_min_from-Allows n ((p, finite t) ∷ timeouts) =
    let (a, b) = compute_min_from-Allows (min_with n (finite t)) timeouts in
    (omega arith, (omega arith, b))

compute_min_from-attained :
    (n : ℕ) (timeouts : JsMap ℕ Timeout)
    → (compute_min_from n timeouts ≡ n)
      ⊎ ((p : ℕ) × (t : ℕ) × In (p, finite t) timeouts
          × (compute_min_from n timeouts ≡ t / default_session_timeout_multiplier))
compute_min_from-attained n [] = inl refl
compute_min_from-attained n ((p, infinite) ∷ timeouts) =
    elim (compute_min_from-attained n timeouts) [
      | inl e ↦ inl e
      | inr (q, t, i, e) ↦ inr (q, t, inr i, e)
    ]
compute_min_from-attained n ((p, finite t) ∷ timeouts) =
    elim (compute_min_from-attained (min_with n (finite t)) timeouts) [
      | inl e ↦ elim (dec_le n (t / default_session_timeout_multiplier)) [
        | yes h ↦ inl (omega arith)
        | no h ↦ inr (p, t, inl refl, omega arith)
      ]
      | inr (q, t', i, e) ↦ inr (q, t', inr i, e)
    ]

-- The cadence is the least of ten seconds and of the intervals of the tracked ports: no more than
-- any of these, and equal to one; a port with an infinite timeout has no say.
pub compute_min_heartbeat-least :
    (r : PortReaper)
    → (compute_min_heartbeat r ≤ default_heartbeat_interval_ms)
      × All (λ e. Allows (compute_min_heartbeat r) e.1) r.session_timeout_ms
      × ((compute_min_heartbeat r ≡ default_heartbeat_interval_ms)
          ⊎ ((p : ℕ) × (t : ℕ) × In (p, finite t) r.session_timeout_ms
              × (compute_min_heartbeat r ≡ t / default_session_timeout_multiplier)))
compute_min_heartbeat-least r =
    let (a, b) = compute_min_from-Allows default_heartbeat_interval_ms r.session_timeout_ms in
    (a, b, compute_min_from-attained default_heartbeat_interval_ms r.session_timeout_ms)
