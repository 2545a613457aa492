-- ===== src/Trace/Histogram.antt =====
-- src/core/trace.ts: the latency histogram and what is read from it. The percentiles and the averages
-- are exact fractions, where the source computes with doubles.
use cross_tab_worker_databus.Base.{
  ℕ, zero, suc, ◌+◌, ◌-◌, ◌*◌, ◌/◌, min, max, Option, none, some, List, [], ◌∷◌, leb, ◌==◌,
  if◌then◌else◌, length, nat_has_eq,
}

abbrev pub latency_bucket_count : ℕ
latency_bucket_count = 20

abbrev pub latency_bucket_size_ms : ℕ
latency_bucket_size_ms = 50

unfoldable pub bucket_index : ℕ → ℕ
bucket_index measured_ms = min (latency_bucket_count - 1) (measured_ms / latency_bucket_size_ms)

-- One more sample in a bucket.
abbrev pub bump : ℕ → List ℕ → List ℕ
bump i [] = []
bump zero (b ∷ buckets) = suc b ∷ buckets
bump (suc i) (b ∷ buckets) = b ∷ bump i buckets

abbrev pub zeros : ℕ → List ℕ
zeros zero = []
zeros (suc n) = 0 ∷ zeros n

-- A percentile of `num / den`.
pub record Percentile : Type 0 where
  pub num : ℕ
  pub den : ℕ

abbrev pub p50 : Percentile
p50 = record { num = 1; den = 2 }

abbrev pub p95 : Percentile
p95 = record { num = 19; den = 20 }

abbrev pub p100 : Percentile
p100 = record { num = 1; den = 1 }

-- The percentile of the count, rounded up.
unfoldable pub rank : Percentile → ℕ → ℕ
rank p samples = max 1 ((p.num * samples + (p.den - 1)) / p.den)

-- The loop over the buckets: the index of the bucket at which the count reaches the rank.
abbrev pub walk : ℕ → ℕ → ℕ → List ℕ → Option ℕ
walk rank seen index [] = none
walk rank seen index (b ∷ buckets) =
    let rest = walk rank (seen + b) (index + 1) buckets in
    if leb rank (seen + b) then some index else rest

-- `(index + 0.5) * 50`, and the ceiling of the histogram.
abbrev pub midpoint : ℕ → Option ℕ → ℕ
midpoint buckets none = buckets * latency_bucket_size_ms
midpoint buckets (some index) = index * latency_bucket_size_ms + latency_bucket_size_ms / 2

unfoldable pub percentile_ms : List ℕ → ℕ → Percentile → ℕ
percentile_ms buckets samples p =
    if samples == 0 then 0 else midpoint (length buckets) (walk (rank p samples) 0 0 buckets)

-- `roundMs` of `num / den`, in tenths of a millisecond: half a tenth goes up.
unfoldable pub round_ms : ℕ → ℕ → ℕ
round_ms num den = (20 * num + den) / (2 * den)

unfoldable pub average : ℕ → ℕ → ℕ
average sum samples = if samples == 0 then round_ms 0 1 else round_ms sum samples
