-- ===== src/Replay/PruningLaws.antt =====
-- About src/core/replay-pruning.ts: what each strategy keeps.
use cross_tab_worker_databus.Base.{
  ℕ, zero, suc, ◌+◌, ◌-◌, ◌<◌, ◌≡◌, refl, sym, ap, ◌∙◌, inl, inr, Bool, true, false, not, ◌&&◌,
  ◌||◌, none, some, List, [], ◌∷◌, arith, dec_lt, dec_le, leb, if◌then◌else◌, is_some, Bool-cases,
  length, drop, filterb, anyb, suffix, suffix_short, drop_all,
}
use native.Mathlib.Nat.{zero-add}
use cross_tab_worker_databus.Types.{Message, PruneStrategy}
use cross_tab_worker_databus.Replay.Pruning.{
  PruningOptions, cap_newest, is_timestampless, is_expired, scan, drop_timestampless, prune_by_age,
  prune_replay_history,
}

pub cap_newest-suffix {ℓ} :
    {A : Type ℓ} (n : ℕ) (xs : List A) → 0 < n → cap_newest n xs ≡ suffix n xs
cap_newest-suffix n xs h = elim (dec_lt n (length xs)) [
  | yes long ↦ ground arith
  | no short ↦ ground (arith, suffix_short n xs)
]

abbrev pub strategy : ℕ → PruneStrategy → ℕ → ℕ → PruningOptions
strategy n s retention now = record {
  max_per_topic = n;
  prune_strategy = s;
  retention_ms = some retention;
  now = now;
}

module _ {D : Type 0} where
  abbrev pub fresh : ℕ → ℕ → Message D → Bool
  fresh now retention m = not (is_expired now retention m)

  scan_lem :
      (now retention : ℕ) (ms : List (Message D)) (b : Bool) (n : ℕ)
      → scan now retention ms b n
        ≡ (b || anyb (is_expired now retention) ms, n + length (filterb is_timestampless ms))
  unfolding scan
  scan_lem now retention [] b n = ground arith
  scan_lem now retention (m ∷ ms) b n = ground (
    arith,
    scan_lem now retention ms (b || is_expired now retention m)
        (if is_timestampless m then n + 1 else n),
  )

  -- Without an expired message the filter keeps everything.
  none_expired :
      (now retention : ℕ) (ms : List (Message D))
      → anyb (is_expired now retention) ms ≡ false
      → filterb (fresh now retention) ms ≡ ms
  none_expired now retention [] h = refl
  none_expired now retention (m ∷ ms) h = ground (arith, none_expired now retention ms)

  pub timestampless_count-le :
      (now retention : ℕ) (ms : List (Message D))
      → filterb is_timestampless (filterb (fresh now retention) ms) ≡ filterb is_timestampless ms
  timestampless_count-le now retention [] = refl
  timestampless_count-le now retention (m ∷ ms) =
      ground (arith, timestampless_count-le now retention ms)

  drop_timestampless_stamped :
      (n : ℕ) (ms : List (Message D))
      → filterb (λ m. is_some m.timestamp) (drop_timestampless n ms)
        ≡ filterb (λ m. is_some m.timestamp) ms
  unfolding drop_timestampless
  drop_timestampless_stamped n [] = refl
  drop_timestampless_stamped n (m ∷ ms) =
      ground (arith, drop_timestampless_stamped n ms, drop_timestampless_stamped (n - 1) ms)

  drop_timestampless_unstamped :
      (n : ℕ) (ms : List (Message D))
      → filterb is_timestampless (drop_timestampless n ms) ≡ drop n (filterb is_timestampless ms)
  unfolding drop_timestampless
  drop_timestampless_unstamped n [] = sym (drop_all n [] (omega arith))
  drop_timestampless_unstamped zero (m ∷ ms) = ground (arith, drop_timestampless_unstamped zero ms)
  drop_timestampless_unstamped (suc n) (m ∷ ms) =
      let e : suc n - 1 ≡ n = omega arith in
      ground (
        arith,
        e,
        ap (λ k. drop_timestampless k ms) e,
        drop_timestampless_unstamped n ms,
        drop_timestampless_unstamped (suc n) ms,
      )

  fresh_unstamped :
      (now retention : ℕ) (ms : List (Message D))
      → filterb (λ m. is_some m.timestamp) (filterb (fresh now retention) ms)
        ≡ filterb (λ m. is_some m.timestamp && fresh now retention m) ms
  fresh_unstamped now retention [] = refl
  fresh_unstamped now retention (m ∷ ms) = ground (arith, fresh_unstamped now retention ms)

  -- What the first filter leaves, whether or not it runs.
  kept_fresh :
      (now retention : ℕ) (ms : List (Message D))
      → (if anyb (is_expired now retention) ms then filterb (fresh now retention) ms else ms)
        ≡ filterb (fresh now retention) ms
  kept_fresh now retention ms = elim (Bool-cases (anyb (is_expired now retention) ms)) [
    | inl t ↦ rw t
    | inr f ↦ rw (f, none_expired now retention ms f)
  ]

  prune_by_age_both :
      (n retention now : ℕ) (ms : List (Message D))
      → prune_by_age n true retention now ms ≡ cap_newest n (filterb (fresh now retention) ms)
  unfolding prune_by_age
  prune_by_age_both n retention now ms =
      rw (scan_lem now retention ms false 0) (ap (cap_newest n) (kept_fresh now retention ms))

  abbrev unstamped : List (Message D) → List (Message D)
  unstamped = filterb is_timestampless

  prune_by_age_age :
      (n retention now : ℕ) (ms : List (Message D))
      → prune_by_age n false retention now ms ≡ (
          if leb (length (unstamped ms)) n
          then filterb (fresh now retention) ms
          else drop_timestampless (length (unstamped ms) - n) (filterb (fresh now retention) ms))
  unfolding prune_by_age
  prune_by_age_age n retention now ms =
      rw (scan_lem now retention ms false 0, zero-add, kept_fresh now retention ms)

  -- With a positive cap, `count` keeps the newest messages up to the cap, `both` the newest of those
  -- that have not expired, and without a retention window every strategy is `count`.
  pub prune_replay_history-capped :
      (n retention now : ℕ) (s : PruneStrategy) (ms : List (Message D))
      → 0 < n
      → (prune_replay_history ms (strategy n PruneStrategy.count retention now) ≡ suffix n ms)
        × (prune_replay_history ms (strategy n PruneStrategy.both retention now)
            ≡ suffix n (filterb (fresh now retention) ms))
        × (prune_replay_history ms (record (strategy n s retention now) { retention_ms = none })
            ≡ suffix n ms)
  unfolding prune_replay_history
  prune_replay_history-capped n retention now s ms h = (
    cap_newest-suffix n ms h,
    prune_by_age_both n retention now ms ∙ cap_newest-suffix n (filterb (fresh now retention) ms) h,
    cap_newest-suffix n ms h,
  )

  -- `age` keeps every timestamped message that has not expired, however many they are, and of those
  -- without a timestamp the newest up to the cap.
  pub prune_replay_history-age :
      (n retention now : ℕ) (ms : List (Message D))
      → let kept = prune_replay_history ms (strategy n PruneStrategy.age retention now) in
        (filterb (λ m. is_some m.timestamp) kept
          ≡ filterb (λ m. is_some m.timestamp && fresh now retention m) ms)
        × (filterb is_timestampless kept ≡ suffix n (filterb is_timestampless ms))
  unfolding prune_replay_history
  prune_replay_history-age n retention now ms =
      let all = timestampless_count-le now retention ms in
      elim (dec_le (length (unstamped ms)) n) [
        | yes few ↦ ground (
          arith,
          prune_by_age_age n retention now ms,
          fresh_unstamped now retention ms,
          all,
          suffix_short n (unstamped ms) few,
        )
        | no many ↦ ground (
          arith,
          prune_by_age_age n retention now ms,
          drop_timestampless_stamped (length (unstamped ms) - n) (filterb (fresh now retention) ms),
          drop_timestampless_unstamped (length (unstamped ms) - n)
              (filterb (fresh now retention) ms),
          fresh_unstamped now retention ms,
          ap (drop (length (unstamped ms) - n)) all,
        )
      ]
