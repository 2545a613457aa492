-- ===== src/Replay/Retry.antt =====
-- src/core/replay-manager.ts, `withPersistenceRetry`: one operation of the durable store with its
-- retries. What the store and the lifecycle do is a script: for each attempt its outcome, and the
-- value of `retryGeneration` when it settles and when the delay after it is over.
use cross_tab_worker_databus.Base.{
  ℕ, ◌+◌, ◌*◌, min, not, Option, none, some, List, [], ◌∷◌, ltb, leb, ◌==◌, if◌then◌else◌,
}

abbrev pub max_retry_delay_ms : ℕ
max_retry_delay_ms = 1_600

pub record Attempt (V : Type 0) : Type 0 where
  -- What the operation resolves with; `none` where it rejects.
  pub outcome : Option V
  pub settled_generation : ℕ
  pub delayed_generation : ℕ

-- `waiting`: the script ends before the operation does.
pub data Settlement (V : Type 0) : Type 0 where
  returned : V → Settlement V
  thrown cancelled waiting : Settlement V

pub record RetryRun (V : Type 0) : Type 0 where
  pub settlement : Settlement V
  pub attempts : ℕ
  -- The delays that were waited for.
  pub delays : List ℕ
  -- The attempts that a `persistence_retry` event was traced for.
  pub traced : List ℕ

module _ {V : Type 0} where
  abbrev pub ends : Settlement V → ℕ → RetryRun V
  ends s attempt = record { settlement = s; attempts = attempt; delays = []; traced = [] }

  abbrev pub after_retry : ℕ → ℕ → RetryRun V → RetryRun V
  after_retry attempt delay rest = record rest {
    delays = if ltb 0 delay then delay ∷ rest.delays else rest.delays;
    traced = attempt ∷ rest.traced;
  }

  -- The catch clause: cancelled, given up, or once more after the delay. `rest` is the next round.
  unfoldable pub on_failure : ℕ → ℕ → ℕ → ℕ → Attempt V → RetryRun V → RetryRun V
  on_failure generation max_attempts attempt delay a rest =
      if not (generation == a.settled_generation)
      then ends cancelled attempt
      else if leb max_attempts attempt
      then ends thrown attempt
      else after_retry attempt delay
          (if generation == a.delayed_generation then rest else ends cancelled attempt)

  unfoldable pub retry_loop : ℕ → ℕ → ℕ → ℕ → List (Attempt V) → RetryRun V
  retry_loop generation max_attempts attempts delay [] = ends waiting attempts
  retry_loop generation max_attempts attempts delay (a ∷ script) =
      let rest =
        retry_loop generation max_attempts (attempts + 1) (min (delay * 2) max_retry_delay_ms)
          script in
      elim a.outcome [
        | some v ↦
            if generation == a.settled_generation
            then ends (returned v) (attempts + 1)
            else ends cancelled (attempts + 1)
        | none ↦ on_failure generation max_attempts (attempts + 1) delay a rest
      ]

  unfoldable pub with_persistence_retry : ℕ → ℕ → ℕ → List (Attempt V) → RetryRun V
  with_persistence_retry generation max_attempts backoff_ms script =
      retry_loop generation max_attempts 0 backoff_ms script
