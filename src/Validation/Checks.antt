-- ===== src/Validation/Checks.antt =====
-- src/utils/validation.ts: the checks of the options that the bus and the cluster are given. A value is
-- what untyped code may pass: a finite number is the fraction that it is, and what is not a number has
-- its text. A check gives the error that it throws, which stands for the message.
use cross_tab_worker_databus.Base.{
  ℕ, suc, ◌+◌, ◌-◌, ◌*◌, ◌/◌, ◌%◌, ◌^◌, Bool, true, false, not, ◌&&◌, ◌||◌, Option, none, some, ltb,
  leb, ◌==◌, nat_has_eq,
}
use cross_tab_worker_databus.Base.JsString.{Text, text, text_has_eq, eqb}
use cross_tab_worker_databus.Routing.Topics.{is_empty}

-- `fraction s n d` is `n / (d + 1)`, negated if `s` holds.
pub data Value : Type 0 where
  nan infinity negative_infinity : Value
  fraction : Bool → ℕ → ℕ → Value
  other : Text → Value

pub data Failure : Type 0 where
  not_positive_safe_integer not_positive_finite not_non_negative_finite : Text → Failure
  bad_prune_strategy bad_adaptive_ttl bad_max_attempts bad_heartbeat_interval : Failure
  empty_topic : Text → Failure

-- `none` where nothing is thrown.
abbrev pub Outcome : Type 0
Outcome = Option Failure

-- A statement before another.
infix 4 ◌before◌
abbrev pub ◌before◌ : Outcome → Outcome → Outcome
none before second = second
(some failure) before second = some failure

abbrev pub unless : Bool → Failure → Outcome
unless true failure = none
unless false failure = some failure

abbrev pub max_safe_integer : ℕ
max_safe_integer = 2 ^ 53 - 1

abbrev pub is_safe_integer : Value → Bool
is_safe_integer (fraction s n d) = (n % suc d == 0) && leb (n / suc d) max_safe_integer
is_safe_integer _ = false

abbrev pub is_finite : Value → Bool
is_finite (fraction s n d) = true
is_finite _ = false

-- `value > 0` and `value >= 0` on numbers.
abbrev pub is_positive : Value → Bool
is_positive infinity = true
is_positive (fraction s n d) = not s && ltb 0 n
is_positive _ = false

abbrev pub is_non_negative : Value → Bool
is_non_negative infinity = true
is_non_negative (fraction s n d) = not s || (n == 0)
is_non_negative _ = false

-- `a < b` on finite numbers.
abbrev pub is_less : Value → Value → Bool
is_less (fraction false n d) (fraction false m e) = ltb (n * suc e) (m * suc d)
is_less (fraction true n d) (fraction true m e) = ltb (m * suc d) (n * suc e)
is_less (fraction true n d) (fraction false m e) = ltb 0 (n + m)
is_less _ _ = false

unfoldable pub assert_positive_safe_integer : Text → Value → Outcome
assert_positive_safe_integer name value =
    unless (is_safe_integer value && is_positive value) (not_positive_safe_integer name)

unfoldable pub assert_positive_finite_number : Text → Value → Outcome
assert_positive_finite_number name value =
    unless (is_finite value && is_positive value) (not_positive_finite name)

unfoldable pub assert_non_negative_finite_number : Text → Value → Outcome
assert_non_negative_finite_number name value =
    unless (is_finite value && is_non_negative value) (not_non_negative_finite name)

-- The text of a number is none of the three.
abbrev pub is_strategy : Value → Bool
is_strategy (other t) = eqb t (text "count") || eqb t (text "age") || eqb t (text "both")
is_strategy _ = false

unfoldable pub assert_prune_strategy : Value → Outcome
assert_prune_strategy value = unless (is_strategy value) bad_prune_strategy

-- A check of an option that is not `undefined`, and of options that are given.
abbrev pub given {ℓ} : {A : Type ℓ} → (A → Outcome) → Option A → Outcome
given check none = none
given check (some value) = check value

pub record RetryOptions : Type 0 where
  pub max_attempts : Option Value
  pub backoff_ms : Option Value

pub record ReplayOptions : Type 0 where
  pub max_per_topic : Option Value
  pub prune_strategy : Option Value
  pub retention_ms : Option Value
  pub retention_sweep_ms : Option Value
  pub persistence_retry : Option RetryOptions

pub record AdaptiveTtl : Type 0 where
  pub min_ms : Value
  pub max_ms : Value

pub record DedupOptions : Type 0 where
  pub max_entries : Option Value
  pub ttl_ms : Option Value
  pub sweep_ms : Option Value
  pub adaptive_ttl : Option AdaptiveTtl

pub record RecoveryOptions : Type 0 where
  pub cooldown_ms : Option Value
  pub max_attempts : Option Value

pub record LoadWeighting : Type 0 where
  pub message_rate_weight : Option Value
  pub byte_rate_weight : Option Value
  pub schedule_lag_weight : Option Value

pub record ClusterOptions : Type 0 where
  pub max_active_workers : Option Value
  pub heartbeat_interval_ms : Option Value
  pub worker_ttl_ms : Option Value
  pub route_owner_cache_max : Option Value
  pub load_weighting : Option LoadWeighting

unfoldable pub assert_persistence_retry_options : RetryOptions → Outcome
assert_persistence_retry_options retry =
    given (assert_positive_safe_integer (text "replay.persistenceRetry.maxAttempts"))
      retry.max_attempts
    before given (assert_non_negative_finite_number (text "replay.persistenceRetry.backoffMs"))
        retry.backoff_ms

abbrev pub check_replay : ReplayOptions → Outcome
check_replay replay =
    given (assert_positive_safe_integer (text "replay.maxPerTopic")) replay.max_per_topic before (
      given assert_prune_strategy replay.prune_strategy before (
        given (assert_positive_finite_number (text "replay.retentionMs")) replay.retention_ms
        before (given (assert_positive_finite_number (text "replay.retentionSweepMs"))
              replay.retention_sweep_ms
            before given assert_persistence_retry_options replay.persistence_retry)))

unfoldable pub assert_replay_options : Option ReplayOptions → Outcome
assert_replay_options = given check_replay

-- The condition on the bounds, the first that fails deciding.
abbrev pub are_bounds : AdaptiveTtl → Bool
are_bounds bounds =
    ((is_finite bounds.min_ms && is_finite bounds.max_ms) && is_positive bounds.min_ms)
    && not (is_less bounds.max_ms bounds.min_ms)

unfoldable pub assert_bounds : AdaptiveTtl → Outcome
assert_bounds bounds = unless (are_bounds bounds) bad_adaptive_ttl

abbrev pub check_dedup : DedupOptions → Outcome
check_dedup dedup =
    given (assert_positive_safe_integer (text "dedup.maxEntries")) dedup.max_entries before (
      given (assert_positive_finite_number (text "dedup.ttlMs")) dedup.ttl_ms before (
        given (assert_positive_finite_number (text "dedup.sweepMs")) dedup.sweep_ms
        before given assert_bounds dedup.adaptive_ttl))

unfoldable pub assert_dedup_options : Option DedupOptions → Outcome
assert_dedup_options = given check_dedup

abbrev pub is_infinity : Value → Bool
is_infinity infinity = true
is_infinity _ = false

unfoldable pub assert_max_attempts : Value → Outcome
assert_max_attempts value =
    unless (is_infinity value || (is_safe_integer value && is_positive value)) bad_max_attempts

abbrev pub check_recovery : RecoveryOptions → Outcome
check_recovery recovery =
    given (assert_positive_finite_number (text "recovery.cooldownMs")) recovery.cooldown_ms
    before given assert_max_attempts recovery.max_attempts

unfoldable pub assert_recovery_options : Option RecoveryOptions → Outcome
assert_recovery_options = given check_recovery

-- The loop over the three entries.
abbrev pub check_weights : LoadWeighting → Outcome
check_weights weights =
    given (assert_non_negative_finite_number (text "loadWeighting.messageRateWeight"))
      weights.message_rate_weight
    before (given (assert_non_negative_finite_number (text "loadWeighting.byteRateWeight"))
          weights.byte_rate_weight
        before given (assert_non_negative_finite_number (text "loadWeighting.scheduleLagWeight"))
            weights.schedule_lag_weight)

unfoldable pub assert_load_weighting_options : Option LoadWeighting → Outcome
assert_load_weighting_options = given check_weights

unfoldable pub assert_cluster_options : ClusterOptions → Outcome
assert_cluster_options options =
    given (assert_positive_safe_integer (text "maxActiveWorkers")) options.max_active_workers
    before (given (assert_positive_finite_number (text "heartbeatIntervalMs"))
          options.heartbeat_interval_ms
        before (given (assert_positive_finite_number (text "workerTtlMs")) options.worker_ttl_ms
            before (given (assert_positive_safe_integer (text "routeOwnerCacheMax"))
                  options.route_owner_cache_max
                before assert_load_weighting_options options.load_weighting)))

unfoldable pub assert_heartbeat_interval : Value → Outcome
assert_heartbeat_interval value =
    unless (is_infinity value || (is_finite value && is_positive value)) bad_heartbeat_interval

unfoldable pub assert_public_topic : Text → Text → Outcome
assert_public_topic operation topic = unless (not (is_empty topic)) (empty_topic operation)
