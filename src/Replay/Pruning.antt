-- ===== src/Replay/Pruning.antt =====
-- src/core/replay-pruning.ts: `pruneReplayHistory`. A timestamp is expired if it lies before
-- `now - retentionMs`, which is written without the subtraction.
use cross_tab_worker_databus.Base.{
  ℕ, ◌+◌, ◌-◌, Bool, true, false, not, ◌&&◌, ◌||◌, Option, none, some, List, [], ◌∷◌, ltb, leb,
  ◌==◌, if◌then◌else◌, is_some, length, filterb, suffix,
}
use cross_tab_worker_databus.Types.{Message, PruneStrategy}

pub record PruningOptions : Type 0 where
  pub max_per_topic : ℕ
  pub prune_strategy : PruneStrategy
  pub retention_ms : Option ℕ
  pub now : ℕ

abbrev pub is_count : PruneStrategy → Bool
is_count PruneStrategy.count = true
is_count PruneStrategy.age = false
is_count PruneStrategy.both = false

abbrev pub is_both : PruneStrategy → Bool
is_both PruneStrategy.count = false
is_both PruneStrategy.age = false
is_both PruneStrategy.both = true

-- `timestamp < cutoff`.
abbrev pub is_past : ℕ → ℕ → ℕ → Bool
is_past now retention timestamp = ltb (timestamp + retention) now

-- `array.slice(-n)`: at 0 that is `slice(0)`, the whole array.
abbrev pub slice_neg {ℓ} : {A : Type ℓ} → ℕ → List A → List A
slice_neg n xs = if n == 0 then xs else suffix n xs

-- `array.length > n ? array.slice(-n) : array`.
abbrev pub cap_newest {ℓ} : {A : Type ℓ} → ℕ → List A → List A
cap_newest n xs = if ltb n (length xs) then slice_neg n xs else xs

module _ {D : Type 0} where
  abbrev pub is_timestampless : Message D → Bool
  is_timestampless m = not (is_some m.timestamp)

  -- `message.timestamp !== undefined && message.timestamp < cutoff`.
  abbrev pub is_expired : ℕ → ℕ → Message D → Bool
  is_expired now retention m = elim m.timestamp [ none ↦ false | some t ↦ is_past now retention t ]

  -- The counting loop: `hasExpired` and `timestamplessCount`.
  unfoldable pub scan : ℕ → ℕ → List (Message D) → Bool → ℕ → Bool × ℕ
  scan now retention [] has_expired timestampless_count = (has_expired, timestampless_count)
  scan now retention (m ∷ ms) has_expired timestampless_count =
      scan now retention ms (has_expired || is_expired now retention m)
        (if is_timestampless m then timestampless_count + 1 else timestampless_count)

  -- The last filter, with its counter.
  unfoldable pub drop_timestampless : ℕ → List (Message D) → List (Message D)
  drop_timestampless to_drop [] = []
  drop_timestampless to_drop (m ∷ ms) =
      if is_timestampless m && ltb 0 to_drop
      then drop_timestampless (to_drop - 1) ms
      else m ∷ drop_timestampless to_drop ms

  -- The part behind `ageEnabled`.
  unfoldable pub prune_by_age : ℕ → Bool → ℕ → ℕ → List (Message D) → List (Message D)
  prune_by_age max_per_topic both retention now messages =
      let (has_expired, timestampless_count) = scan now retention messages false 0 in
      let pruned =
        if has_expired
        then filterb (λ m. not (is_expired now retention m)) messages
        else messages in
      if both
      then cap_newest max_per_topic pruned
      else if leb timestampless_count max_per_topic
      then pruned
      else drop_timestampless (timestampless_count - max_per_topic) pruned

  unfoldable pub prune_replay_history : List (Message D) → PruningOptions → List (Message D)
  prune_replay_history messages o = elim o.retention_ms [
    | none ↦ cap_newest o.max_per_topic messages
    | some retention ↦
        if is_count o.prune_strategy
        then cap_newest o.max_per_topic messages
        else prune_by_age o.max_per_topic (is_both o.prune_strategy) retention o.now messages
  ]
