-- ===== src/Validation/Options.antt =====
-- About src/utils/validation.ts: the options that are accepted.
use cross_tab_worker_databus.Base.{◌≡◌, ◌↔◌, Option, none, nat_has_eq}
use cross_tab_worker_databus.Base.JsString.{Text, text}
use cross_tab_worker_databus.Validation.Checks.{
  Value, given, RetryOptions, ReplayOptions, DedupOptions, LoadWeighting, ClusterOptions,
  assert_positive_safe_integer, assert_positive_finite_number, assert_non_negative_finite_number,
  assert_persistence_retry_options, check_replay, assert_replay_options, check_dedup,
  assert_dedup_options, check_weights, assert_load_weighting_options, assert_cluster_options,
}
use cross_tab_worker_databus.Validation.Accepted.{
  PositiveSafe, Positive, NonNegative, Strategy, Ordered, Given, before_iff, given_iff,
  assert_positive_safe_integer_iff, assert_positive_finite_number_iff,
  assert_non_negative_finite_number_iff, assert_prune_strategy_iff, assert_bounds_iff,
}

safe :
    (name : Text) (o : Option Value)
    → (given (assert_positive_safe_integer name) o ≡ none) ↔ Given PositiveSafe o
safe name o = given_iff _ PositiveSafe o (assert_positive_safe_integer_iff name)

positive :
    (name : Text) (o : Option Value)
    → (given (assert_positive_finite_number name) o ≡ none) ↔ Given Positive o
positive name o = given_iff _ Positive o (assert_positive_finite_number_iff name)

non_negative :
    (name : Text) (o : Option Value)
    → (given (assert_non_negative_finite_number name) o ≡ none) ↔ Given NonNegative o
non_negative name o = given_iff _ NonNegative o (assert_non_negative_finite_number_iff name)

-- The domains of the options, each of which may be left out.
abbrev pub RetryDomain : RetryOptions → Type 0
RetryDomain retry = Given PositiveSafe retry.max_attempts × Given NonNegative retry.backoff_ms

abbrev pub ReplayDomain : ReplayOptions → Type 0
ReplayDomain replay =
    Given PositiveSafe replay.max_per_topic
    × (Given Strategy replay.prune_strategy
        × (Given Positive replay.retention_ms
            × (Given Positive replay.retention_sweep_ms
                × Given RetryDomain replay.persistence_retry)))

abbrev pub DedupDomain : DedupOptions → Type 0
DedupDomain dedup =
    Given PositiveSafe dedup.max_entries
    × (Given Positive dedup.ttl_ms
        × (Given Positive dedup.sweep_ms × Given Ordered dedup.adaptive_ttl))

abbrev pub WeightsDomain : LoadWeighting → Type 0
WeightsDomain weights =
    Given NonNegative weights.message_rate_weight
    × (Given NonNegative weights.byte_rate_weight × Given NonNegative weights.schedule_lag_weight)

abbrev pub ClusterDomain : ClusterOptions → Type 0
ClusterDomain options =
    Given PositiveSafe options.max_active_workers
    × (Given Positive options.heartbeat_interval_ms
        × (Given Positive options.worker_ttl_ms
            × (Given PositiveSafe options.route_owner_cache_max
                × Given WeightsDomain options.load_weighting)))

retry_iff : (r : RetryOptions) → (assert_persistence_retry_options r ≡ none) ↔ RetryDomain r
unfolding assert_persistence_retry_options
retry_iff r =
    before_iff _ _ (safe (text "replay.persistenceRetry.maxAttempts") r.max_attempts)
      (non_negative (text "replay.persistenceRetry.backoffMs") r.backoff_ms)

check_replay_iff : (r : ReplayOptions) → (check_replay r ≡ none) ↔ ReplayDomain r
check_replay_iff r = before_iff _ _ (safe (text "replay.maxPerTopic") r.max_per_topic) (
    before_iff _ _ (given_iff _ Strategy r.prune_strategy assert_prune_strategy_iff) (
      before_iff _ _ (positive (text "replay.retentionMs") r.retention_ms) (
        before_iff _ _ (positive (text "replay.retentionSweepMs") r.retention_sweep_ms)
          (given_iff _ RetryDomain r.persistence_retry retry_iff))))

check_dedup_iff : (d : DedupOptions) → (check_dedup d ≡ none) ↔ DedupDomain d
check_dedup_iff d = before_iff _ _ (safe (text "dedup.maxEntries") d.max_entries) (
    before_iff _ _ (positive (text "dedup.ttlMs") d.ttl_ms) (
      before_iff _ _ (positive (text "dedup.sweepMs") d.sweep_ms)
        (given_iff _ Ordered d.adaptive_ttl assert_bounds_iff)))

check_weights_iff : (w : LoadWeighting) → (check_weights w ≡ none) ↔ WeightsDomain w
check_weights_iff w =
    before_iff _ _ (non_negative (text "loadWeighting.messageRateWeight") w.message_rate_weight) (
      before_iff _ _ (non_negative (text "loadWeighting.byteRateWeight") w.byte_rate_weight)
        (non_negative (text "loadWeighting.scheduleLagWeight") w.schedule_lag_weight))

weights_iff :
    (o : Option LoadWeighting) → (assert_load_weighting_options o ≡ none) ↔ Given WeightsDomain o
unfolding assert_load_weighting_options
weights_iff o = given_iff _ WeightsDomain o check_weights_iff

-- The replay options are refused exactly when some option that is given lies outside its domain: the
-- cap per topic and the attempts positive safe integers, the strategy a value whose text is one of the
-- three, the retention window and the sweep positive finite numbers, the backoff a finite number
-- from 0.
pub assert_replay_options_iff :
    (o : Option ReplayOptions) → (assert_replay_options o ≡ none) ↔ Given ReplayDomain o
unfolding assert_replay_options
assert_replay_options_iff o = given_iff _ ReplayDomain o check_replay_iff

-- The deduplication options are refused exactly when some option that is given lies outside its
-- domain: the entries a positive safe integer, the time to live and the sweep positive finite numbers,
-- the bounds positive finite numbers of which the lower is no more than the upper.
pub assert_dedup_options_iff :
    (o : Option DedupOptions) → (assert_dedup_options o ≡ none) ↔ Given DedupDomain o
unfolding assert_dedup_options
assert_dedup_options_iff o = given_iff _ DedupDomain o check_dedup_iff

-- The cluster options are refused exactly when some option that is given lies outside its domain: the
-- active workers and the cache positive safe integers, the heartbeat and the time to live positive
-- finite numbers, the weights finite numbers from 0.
pub assert_cluster_options_iff :
    (o : ClusterOptions) → (assert_cluster_options o ≡ none) ↔ ClusterDomain o
unfolding assert_cluster_options
assert_cluster_options_iff o =
    before_iff _ _ (safe (text "maxActiveWorkers") o.max_active_workers) (
      before_iff _ _ (positive (text "heartbeatIntervalMs") o.heartbeat_interval_ms) (
        before_iff _ _ (positive (text "workerTtlMs") o.worker_ttl_ms) (
          before_iff _ _ (safe (text "routeOwnerCacheMax") o.route_owner_cache_max)
            (weights_iff o.load_weighting))))
