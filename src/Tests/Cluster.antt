-- ===== src/Tests/Cluster.antt =====
-- Runs of src/core/cluster.ts.
use cross_tab_worker_databus.Base.{
  ℕ, ◌≤◌, ◌≡◌, none, some, [], ◌∷◌, arith, length, filterb, nat_has_eq,
}
use cross_tab_worker_databus.Base.JsMap.{JsMap, set}
use cross_tab_worker_databus.Base.JsString.{Text, text, text_has_eq}
use cross_tab_worker_databus.Base.Number.{diff, diff_number}
use cross_tab_worker_databus.Types.{
  WorkerRecord, WorkerRoute, WorkerStatus, WorkerRole, TabVisibility,
}
use cross_tab_worker_databus.Cluster.Cache.{OwnerCache, owner_or_self, resolve_publish_target}
use cross_tab_worker_databus.Cluster.CacheLaws.{resolve_publish_target-owner_or_self}
use cross_tab_worker_databus.Cluster.Registry.{
  StoredSubscriber, cleanup_orphaned_routes, build_route_record,
}
use cross_tab_worker_databus.Cluster.RegistryLaws.{is_left, stays, cleanup_orphaned_routes-stays}

abbrev worker : Text → ℕ → WorkerRecord diff_number
worker id at = record {
  protocol_version = some 1;
  worker_id = id;
  tab_id = id;
  load = diff 0 0;
  throughput = none;
  role = WorkerRole.active;
  status = WorkerStatus.connected;
  visibility_state = TabVisibility.visible;
  heartbeat_at = at;
  registered_at = 0;
}

abbrev table : JsMap Text (WorkerRecord diff_number)
table = (text "a", worker (text "a") 0) ∷ (text "b", worker (text "b") 900) ∷ []

abbrev route : WorkerRoute
route = build_route_record (text "t") (text "b") (text "b") none 1 10

abbrev cache : OwnerCache
cache = record {
  route_owner_cache = (text "t", record { worker_id = text "b"; generation = 1 }) ∷ [];
  route_owner_cache_max = 1;
  route_owner_cache_hits = 0;
  route_owner_cache_misses = 0;
}

resolve_publish_target-owner_or_self_example :
    let r =
      resolve_publish_target diff_number cache
        (text "c")
        (text "t")
        (worker (text "b") 0 ∷ [])
        (some route) in
    (r.1 ≡ owner_or_self diff_number (text "c") (some route) (worker (text "b") 0 ∷ []))
    × (length r.0.route_owner_cache ≤ 1)
resolve_publish_target-owner_or_self_example =
    resolve_publish_target-owner_or_self diff_number cache (text "c") (text "t")
      (worker (text "b") 0 ∷ []) (some route) (omega arith)

abbrev assigned : JsMap Text Text
assigned = set (text "k") (text "topic") []

abbrev subscriber : StoredSubscriber
subscriber = record {
  topic_key = text "t";
  owner_id = text "b";
  record_of = record { tab_id = text "b"; worker_id = some (text "b"); updated_at = 0 };
}

abbrev dead_subscriber : StoredSubscriber
dead_subscriber = record {
  topic_key = text "t";
  owner_id = text "c";
  record_of = record { tab_id = text "c"; worker_id = some (text "c"); updated_at = 0 };
}

cleanup_orphaned_routes-stays_example :
    let r =
      cleanup_orphaned_routes diff_number 100 1000
        (worker (text "b") 0 ∷ [])
        ((text "t", route) ∷ [])
        (subscriber ∷ dead_subscriber ∷ []) in
    (r.0
      ≡ filterb
          (stays diff_number 100 1000
            (worker (text "b") 0 ∷ [])
            (subscriber ∷ dead_subscriber ∷ []))
          ((text "t", route) ∷ []))
    × (r.1
        ≡ filterb
            (is_left diff_number 100 1000 (worker (text "b") 0 ∷ []) ((text "t", route) ∷ []))
            (subscriber ∷ dead_subscriber ∷ []))
cleanup_orphaned_routes-stays_example =
    cleanup_orphaned_routes-stays diff_number 100 1000 (worker (text "b") 0 ∷ [])
      ((text "t", route) ∷ []) (subscriber ∷ dead_subscriber ∷ [])
