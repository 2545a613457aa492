-- ===== src/Trace/Ranks.antt =====
-- About src/core/trace.ts: the percentiles of the histogram are those of the delays that it counts.
use cross_tab_worker_databus.Base.{
  ℕ, zero, suc, ◌+◌, ◌*◌, ◌/◌, ◌≤◌, ◌<◌, ◌≡◌, refl, sym, ap, subst, ◌∙◌, some, List, [], ◌∷◌, arith,
  dec_le, ltb, ◌==◌, if◌then◌else◌, length, take, filterb, nat_has_eq, if_false,
}
use cross_tab_worker_databus.Trace.Histogram.{
  latency_bucket_count, latency_bucket_size_ms, bucket_index, bump, zeros, Percentile, p50, p95,
  p100, rank, walk, midpoint, percentile_ms,
}

-- The histogram of some delays.
abbrev pub tally : List ℕ → List ℕ
tally [] = zeros latency_bucket_count
tally (d ∷ delays) = bump (bucket_index d) (tally delays)

abbrev pub sum : List ℕ → ℕ
sum [] = 0
sum (n ∷ ns) = n + sum ns

-- How many of the delays lie in a bucket below `k`.
abbrev pub below : ℕ → List ℕ → ℕ
below k delays = length (filterb (λ d. ltb (bucket_index d) k) delays)

-- The time that the bucket of the delay of the given rank stands for, if there is a delay.
abbrev pub IsPercentile : Percentile → List ℕ → ℕ → Type 0
IsPercentile p [] ms = ms ≡ 0
IsPercentile p (d ∷ delays) ms =
    (k : ℕ) × (k < latency_bucket_count)
    × (ms ≡ k * latency_bucket_size_ms + latency_bucket_size_ms / 2)
    × (below k (d ∷ delays) < rank p (length (d ∷ delays)))
    × (rank p (length (d ∷ delays)) ≤ below (suc k) (d ∷ delays))

length-bump : (i : ℕ) (buckets : List ℕ) → length (bump i buckets) ≡ length buckets
length-bump i [] = refl
length-bump zero (b ∷ buckets) = refl
length-bump (suc i) (b ∷ buckets) = omega (arith, length-bump i buckets)

pub length-tally : (delays : List ℕ) → length (tally delays) ≡ latency_bucket_count
length-tally [] = refl
length-tally (d ∷ delays) = length-bump (bucket_index d) (tally delays) ∙ length-tally delays

sum-take-bump :
    (k i : ℕ) (buckets : List ℕ)
    → i < length buckets
    → sum (take k (bump i buckets))
      ≡ (if ltb i k then suc (sum (take k buckets)) else sum (take k buckets))
sum-take-bump zero i buckets h = ground arith
sum-take-bump (suc k) i [] h = absurd (omega arith)
sum-take-bump (suc k) zero (b ∷ buckets) h = ground arith
sum-take-bump (suc k) (suc i) (b ∷ buckets) h = ground (arith, sum-take-bump k i buckets)

sum-take-zeros : (k n : ℕ) → sum (take k (zeros n)) ≡ 0
sum-take-zeros zero n = refl
sum-take-zeros (suc k) zero = refl
sum-take-zeros (suc k) (suc n) = omega (arith, sum-take-zeros k n)

bucket_index-lt : (d : ℕ) → bucket_index d < latency_bucket_count
unfolding bucket_index
bucket_index-lt d = omega arith

-- The first buckets of the histogram hold the delays below them.
sum-take-tally : (k : ℕ) (delays : List ℕ) → sum (take k (tally delays)) ≡ below k delays
sum-take-tally k [] = sum-take-zeros k latency_bucket_count
sum-take-tally k (d ∷ delays) =
    let at =
      sum-take-bump k (bucket_index d) (tally delays)
        (subst (λ n. bucket_index d < n) (sym (length-tally delays)) (bucket_index-lt d)) in
    ground (arith, at, sum-take-tally k delays)

take-all {ℓ} : {A : Type ℓ} (n : ℕ) (xs : List A) → length xs ≤ n → take n xs ≡ xs
take-all zero [] h = refl
take-all zero (x ∷ xs) h = absurd (omega arith)
take-all (suc n) [] h = refl
take-all (suc n) (x ∷ xs) h = ap (λ ys. x ∷ ys) (take-all n xs (omega arith))

below-all : (delays : List ℕ) → below latency_bucket_count delays ≡ length delays
below-all [] = refl
below-all (d ∷ delays) = ground (arith, bucket_index-lt d, below-all delays)

pub sum-tally : (delays : List ℕ) → sum (tally delays) ≡ length delays
sum-tally delays =
    ap sum (
      sym (
        take-all latency_bucket_count (tally delays)
          (subst (λ n. n ≤ latency_bucket_count) (sym (length-tally delays)) (omega arith))))
    ∙ sum-take-tally latency_bucket_count delays
    ∙ below-all delays

-- The bucket at which the loop stops.
unfoldable Found : ℕ → ℕ → ℕ → List ℕ → Type 0
Found rank seen index buckets =
    (j : ℕ) × (j < length buckets)
    × (walk rank seen index buckets ≡ some (index + j))
    × (seen + sum (take j buckets) < rank)
    × (rank ≤ seen + sum (take (suc j) buckets))

walk-stops :
    (rank seen index : ℕ) (buckets : List ℕ)
    → seen < rank
    → rank ≤ seen + sum buckets
    → Found rank seen index buckets
unfolding Found
walk-stops rank seen index [] l h = absurd (omega arith)
walk-stops rank seen index (b ∷ buckets) l h = elim (dec_le rank (seen + b)) [
  | yes q ↦ (0, omega arith, ground arith, omega arith, omega arith)
  | no q ↦
      let (j, jl, e, lo, hi) =
        walk-stops rank (seen + b) (index + 1) buckets (omega arith) (omega arith) in
      (suc j, omega arith, ground arith, omega arith, omega arith)
]

-- The ranks of a percentile are those of a sample.
unfoldable pub RanksOf : Percentile → Type 0
RanksOf p = (n : ℕ) → 0 < n → (0 < rank p n) × (rank p n ≤ n)

pub p50-RanksOf : RanksOf p50
unfolding RanksOf rank
p50-RanksOf n l = (omega arith, omega arith)

pub p95-RanksOf : RanksOf p95
unfolding RanksOf rank
p95-RanksOf n l = (omega arith, omega arith)

pub p100-RanksOf : RanksOf p100
unfolding RanksOf rank
p100-RanksOf n l = (omega arith, omega arith)

stopped :
    (p : Percentile) (delays : List ℕ) (j : ℕ)
    → walk (rank p (length delays)) 0 0 (tally delays) ≡ some (0 + j)
    → 0 < length delays
    → percentile_ms (tally delays) (length delays) p
      ≡ j * latency_bucket_size_ms + latency_bucket_size_ms / 2
unfolding percentile_ms
stopped p delays j e l =
    if_false (length delays == 0) 0
      (midpoint (length (tally delays)) (walk (rank p (length delays)) 0 0 (tally delays)))
      (ground arith)
    ∙ ap (midpoint (length (tally delays))) e
    ∙ omega arith

none_read : (p : Percentile) → percentile_ms (tally []) 0 p ≡ 0
unfolding percentile_ms
none_read p = refl

-- What is read from the histogram of some delays is their percentile.
pub percentile_ms-IsPercentile :
    (p : Percentile) (delays : List ℕ)
    → RanksOf p
    → IsPercentile p delays (percentile_ms (tally delays) (length delays) p)
unfolding RanksOf Found
percentile_ms-IsPercentile p [] r = none_read p
percentile_ms-IsPercentile p (d ∷ delays) r =
    let ds = d ∷ delays in
    let (lo, hi) = r (length ds) (omega arith) in
    let total = sum-tally ds in
    let (j, jl, e, before, until) =
      walk-stops (rank p (length ds)) 0 0 (tally ds) (omega arith) (omega arith) in
    (
      j,
      subst (λ n. j < n) (length-tally ds) jl,
      stopped p ds j e (omega arith),
      (let at = sum-take-tally j ds in omega arith),
      (let at = sum-take-tally (suc j) ds in omega arith),
    )
