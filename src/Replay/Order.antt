-- ===== src/Replay/Order.antt =====
-- About src/core/replay-pruning.ts: pruning removes messages and changes nothing else.
use cross_tab_worker_databus.Base.{
  ℕ, zero, suc, ◌-◌, inl, inr, Bool, true, false, not, ◌&&◌, List, [], ◌∷◌, arith, ltb, leb,
  if◌then◌else◌, Bool-cases, Option-cases, length, drop, filterb,
}
use cross_tab_worker_databus.Types.{Message}
use cross_tab_worker_databus.Replay.Pruning.{
  PruningOptions, is_both, cap_newest, is_timestampless, is_expired, scan, drop_timestampless,
  prune_by_age, prune_replay_history,
}

-- The second list without some of its elements.
pub data Subsequence {A : Type 0} : List A → List A → Type 0 where
  nil : Subsequence [] []
  keep : {x : A} {xs ys : List A} → Subsequence xs ys → Subsequence (x ∷ xs) (x ∷ ys)
  skip : {x : A} {xs ys : List A} → Subsequence xs ys → Subsequence xs (x ∷ ys)

module _ {A : Type 0} where
  Subsequence-refl : (xs : List A) → Subsequence xs xs
  Subsequence-refl [] = nil
  Subsequence-refl (x ∷ xs) = keep (Subsequence-refl xs)

  Subsequence-nil : (xs : List A) → Subsequence [] xs
  Subsequence-nil [] = nil
  Subsequence-nil (x ∷ xs) = skip (Subsequence-nil xs)

  Subsequence-drop : (n : ℕ) (xs : List A) → Subsequence (drop n xs) xs
  Subsequence-drop zero xs = Subsequence-refl xs
  Subsequence-drop (suc n) [] = nil
  Subsequence-drop (suc n) (x ∷ xs) = skip (Subsequence-drop n xs)

  Subsequence-filterb : (p : A → Bool) (xs : List A) → Subsequence (filterb p xs) xs
  Subsequence-filterb p [] = nil
  Subsequence-filterb p (x ∷ xs) = elim (Bool-cases (p x)) [
    | inl t ↦ rw t (keep (Subsequence-filterb p xs))
    | inr f ↦ rw f (skip (Subsequence-filterb p xs))
  ]

  Subsequence-cap_newest : (n : ℕ) (xs : List A) → Subsequence (cap_newest n xs) xs
  Subsequence-cap_newest n xs =
      ground (arith, Subsequence-refl xs, Subsequence-drop (length xs - n) xs)

  Subsequence-trans :
      {ys zs : List A} → Subsequence ys zs → {xs : List A} → Subsequence xs ys → Subsequence xs zs
  Subsequence-trans nil s = s
  Subsequence-trans (skip t) s = skip (Subsequence-trans t s)
  Subsequence-trans (keep t) (keep s) = keep (Subsequence-trans t s)
  Subsequence-trans (keep t) (skip s) = skip (Subsequence-trans t s)

  Subsequence-if :
      (b : Bool) {xs ys zs : List A}
      → Subsequence xs zs
      → Subsequence ys zs
      → Subsequence (if b then xs else ys) zs
  Subsequence-if true s t = s
  Subsequence-if false s t = t

module _ {D : Type 0} where
  Subsequence-drop_timestampless :
      (n : ℕ) (ms : List (Message D)) → Subsequence (drop_timestampless n ms) ms
  unfolding drop_timestampless
  Subsequence-drop_timestampless n [] = nil
  Subsequence-drop_timestampless n (m ∷ ms) = elim (Bool-cases (is_timestampless m && ltb 0 n)) [
    | inl t ↦ rw t (skip (Subsequence-drop_timestampless (n - 1) ms))
    | inr f ↦ rw f (keep (Subsequence-drop_timestampless n ms))
  ]

  prune_by_age-Subsequence :
      (n retention now : ℕ) (both : Bool) (ms : List (Message D))
      → Subsequence (prune_by_age n both retention now ms) ms
  unfolding prune_by_age
  prune_by_age-Subsequence n retention now both ms =
      let (b, c) = scan now retention ms false 0 in
      let first =
        Subsequence-if b (Subsequence-filterb (λ m. not (is_expired now retention m)) ms)
          (Subsequence-refl ms) in
      Subsequence-if both (Subsequence-trans first (Subsequence-cap_newest n _)) (
        Subsequence-if (leb c n) first
          (Subsequence-trans first (Subsequence-drop_timestampless (c - n) _)))

  -- Pruning only ever removes messages: what is left stands in the order of the history.
  pub prune_replay_history-Subsequence :
      (ms : List (Message D)) (o : PruningOptions) → Subsequence (prune_replay_history ms o) ms
  unfolding prune_replay_history
  prune_replay_history-Subsequence ms o = elim (Option-cases o.retention_ms) [
    | inl e ↦ rw (e, prune_replay_history) (Subsequence-cap_newest o.max_per_topic ms)
    | inr (r, e) ↦
        rw (e, prune_replay_history)
          (ground (
            arith,
            Subsequence-cap_newest o.max_per_topic ms,
            prune_by_age-Subsequence o.max_per_topic r o.now (is_both o.prune_strategy) ms,
          ))
  ]
