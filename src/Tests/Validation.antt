-- ===== src/Tests/Validation.antt =====
-- Checks of src/utils/validation.ts.
use cross_tab_worker_databus.Base.{◌≡◌, ◌↔◌, false, none, some, nat_has_eq}
use cross_tab_worker_databus.Validation.Checks.{
  nan, fraction, ReplayOptions, DedupOptions, ClusterOptions, assert_replay_options,
  assert_dedup_options, assert_cluster_options,
}
use cross_tab_worker_databus.Validation.Accepted.{Given}
use cross_tab_worker_databus.Validation.Options.{
  ReplayDomain, DedupDomain, ClusterDomain, assert_replay_options_iff, assert_dedup_options_iff,
  assert_cluster_options_iff,
}

abbrev replay : ReplayOptions
replay = record {
  max_per_topic = some (fraction false 100 0);
  prune_strategy = none;
  retention_ms = some nan;
  retention_sweep_ms = none;
  persistence_retry = none;
}

abbrev dedup : DedupOptions
dedup = record {
  max_entries = some (fraction false 1000 0);
  ttl_ms = some (fraction false 3 1);
  sweep_ms = none;
  adaptive_ttl = some (record { min_ms = fraction false 10 0; max_ms = fraction false 5 0 });
}

assert_replay_options_iff_example :
    (assert_replay_options (some replay) ≡ none) ↔ Given ReplayDomain (some replay)
assert_replay_options_iff_example = assert_replay_options_iff (some replay)

assert_dedup_options_iff_example :
    (assert_dedup_options (some dedup) ≡ none) ↔ Given DedupDomain (some dedup)
assert_dedup_options_iff_example = assert_dedup_options_iff (some dedup)

abbrev cluster : ClusterOptions
cluster = record {
  max_active_workers = some (fraction false 3 0);
  heartbeat_interval_ms = some (fraction false 3000 0);
  worker_ttl_ms = some nan;
  route_owner_cache_max = none;
  load_weighting = none;
}

assert_cluster_options_iff_example : (assert_cluster_options cluster ≡ none) ↔ ClusterDomain cluster
assert_cluster_options_iff_example = assert_cluster_options_iff cluster
