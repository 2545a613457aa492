-- ===== src/Dedup/Ttl.antt =====
-- About src/core/dedup-manager.ts, `currentTtl`: the bounds of the time to live.
use cross_tab_worker_databus.Base.{
  ℕ, ◌+◌, ◌-◌, ◌*◌, ◌≤◌, ◌<◌, min, max, ◌≡◌, ap, ◌∙◌, inl, inr, Option, none, some, arith,
  Option-cases,
}
use cross_tab_worker_databus.Dedup.Manager.{
  Bounds, DedupManager, Ttl, adaptive_ttl, current_ttl, held,
}

-- The fraction lies between two whole numbers.
abbrev pub Within : ℕ → ℕ → Ttl → Type 0
Within lo hi t = (0 < t.den) × (lo * t.den ≤ t.num) × (t.num ≤ hi * t.den)

interpolate :
    (lo hi span r : ℕ)
    → lo ≤ hi
    → r ≤ span
    → (lo * span ≤ hi * span - (hi - lo) * r) × (hi * span - (hi - lo) * r ≤ hi * span)
interpolate lo hi span r h k =
    let gap : (hi - lo) * r ≤ (hi - lo) * span = grind arith in
    let e : hi ≡ lo + (hi - lo) = omega arith in
    let total : hi * span ≡ lo * span + (hi - lo) * span =
      ap (λ (t : ℕ). t * span) e ∙ grind arith in
    (omega (arith, gap, total), omega arith)

adaptive_ttl-Within :
    (b : Bounds) (accepted elapsed : ℕ)
    → b.min_ms ≤ b.max_ms
    → Within b.min_ms b.max_ms (adaptive_ttl b accepted elapsed)
unfolding adaptive_ttl
adaptive_ttl-Within b accepted elapsed h =
    let (low, high) =
      interpolate b.min_ms b.max_ms (max 1 elapsed) (min (max 1 elapsed) (accepted * 100)) h
        (omega arith) in
    (omega arith, low, high)

-- The bounds that the options give: the adaptive ones, or the fixed time to live twice.
abbrev pub lower : DedupManager → ℕ
lower d = elim d.adaptive_bounds [ none ↦ d.ttl_ms | some b ↦ b.min_ms ]

abbrev pub upper : DedupManager → ℕ
upper d = elim d.adaptive_bounds [ none ↦ d.ttl_ms | some b ↦ b.max_ms ]

-- Whatever the clock reads and however many messages came, the effective time to live lies between
-- the configured bounds; it is the fixed one where no bounds are configured.
pub current_ttl-Within :
    (d : DedupManager) (reading : Option ℕ)
    → lower d ≤ upper d
    → Within (lower d) (upper d) (current_ttl d reading).1
unfolding current_ttl
current_ttl-Within d reading h = elim (Option-cases d.adaptive_bounds) [
  | inl e ↦ ground arith
  | inr (b, e) ↦ ground (
    arith,
    adaptive_ttl-Within b d.window_accepted (held reading d.last_finite_now - d.window_started_at),
  )
]
