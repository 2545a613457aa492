-- ===== src/Cluster/Passes.antt =====
-- src/core/cluster.ts: `reconcile` of `WorkerClusterRuntime`, and its passes.
use cross_tab_worker_databus.Base.{
  ℕ, ◌+◌, Bool, true, false, not, ◌&&◌, Option, none, some, List, [], ◌∷◌, if◌then◌else◌, is_some,
  anyb, nat_has_eq,
}
use cross_tab_worker_databus.Base.JsMap.{JsMap, get, has, delete}
use cross_tab_worker_databus.Base.JsString.{Text, text_has_eq, eqb}
use cross_tab_worker_databus.Base.Number.{Number}
use cross_tab_worker_databus.Types.{WorkerRecord, WorkerRoute, ControlAction}
use cross_tab_worker_databus.Codec.Hash.{create_opaque_key}
use cross_tab_worker_databus.Routing.Select.{select_active_workers, has_active_owner}
use cross_tab_worker_databus.Cluster.Registry.{
  cleanup_orphaned_subscribers, cleanup_orphaned_routes, is_stale_handoff,
}
use cross_tab_worker_databus.Cluster.Frames.{Operation, flushed, on_control, on_diagnostic}
use cross_tab_worker_databus.Cluster.Runtime.{
  Runtime, log, live_workers, read_route, write_route, remove_route, write_subscriber,
  subscriber_ids, remember, nonempty, with_routes, with_subscribers,
}
use cross_tab_worker_databus.Cluster.Control.{
  notify_registry, send_control, routed_here, role_changes, refresh_role, write_record, update_load,
  unassign,
}
use cross_tab_worker_databus.Cluster.Claims.{charge, or_record, to_owner, elect, chosen_owner}
use cross_tab_worker_databus.Cluster.Handoff.{Pass, is_id, elect_projected, send_route_released}

module _ {N : Number} {D : Type 0} where
  -- `cleanupOrphanedSubscribers` and `cleanupOrphanedRoutes`.
  unfoldable pub cleanup : List (WorkerRecord N) → Runtime N D → Runtime N D
  cleanup workers s =
      let r =
        cleanup_orphaned_routes N s.config.worker_ttl_ms s.last_finite_now workers s.store.routes
          (cleanup_orphaned_subscribers N workers s.store.subscribers) in
      if s.storage then with_subscribers r.1 (with_routes r.0 s) else s

  abbrev pub renew_role : List (WorkerRecord N) → Runtime N D → Runtime N D
  renew_role workers s =
      if role_changes workers s then write_record false (refresh_role workers s) else s

  unfoldable pub reconcile_workers : Runtime N D → Runtime N D × List (WorkerRecord N)
  reconcile_workers s =
      let read = live_workers s in (renew_role read.1 (cleanup read.1 read.0), read.1)

  abbrev pub local_topic : Runtime N D → Option Text → Option Text
  local_topic s none = none
  local_topic s (some topic) = if has topic s.subscribed_topics then some topic else none

  abbrev pub reclaim_or_remove :
      Text → WorkerRoute → Option Text → Runtime N D × Bool → Runtime N D × Bool
  reclaim_or_remove key route none (s, released) = (remove_route key s, true)
  reclaim_or_remove key route (some topic) (s, released) = (
    send_control s.config.worker_id ControlAction.subscribe topic route.topic_key none none s,
    released,
  )

  abbrev pub is_stranded : WorkerRoute → Runtime N D → Bool
  is_stranded route s =
      is_some route.confirmed_at
      && eqb route.worker_id s.config.worker_id
      && not (has route.topic_key s.assigned_topics)

  -- The loop over the routes that were read first.
  unfoldable pub stranded_loop : JsMap Text WorkerRoute → Runtime N D × Bool → Runtime N D × Bool
  stranded_loop [] p = p
  stranded_loop ((key, route) ∷ routes) p = stranded_loop routes (
      if is_stranded route p.0
      then reclaim_or_remove key route (local_topic p.0 (get route.topic_key p.0.known_topics)) p
      else p)

  unfoldable pub reconcile_stranded_self_routes : Runtime N D → Runtime N D
  reconcile_stranded_self_routes s =
      let r = stranded_loop s.store.routes (s, false) in
      if not s.storage then s else if r.1 then notify_registry (log flushed r.0) else r.0

  unfoldable pub recover_route : Text → ℕ → WorkerRecord N → Runtime N D → Runtime N D
  recover_route topic generation owner s = notify_registry (
      log (on_diagnostic Operation.route_migration_recovery topic)
        (to_owner owner topic (write_route (create_opaque_key topic) owner none generation s)))

  -- Only the elected owner writes, unless it does not subscribe to the topic.
  abbrev pub recover : List (WorkerRecord N) → Text → ℕ → WorkerRecord N → Runtime N D → Runtime N D
  recover workers topic generation owner s =
      let ids = subscriber_ids (create_opaque_key topic) workers s in
      if eqb owner.worker_id s.config.worker_id
      then recover_route topic generation owner s
      else if has owner.worker_id ids.2
      then ids.0
      else recover_route topic generation owner ids.0

  abbrev pub settle_handoff :
      List (WorkerRecord N)
      → List (WorkerRecord N)
      → Text
      → WorkerRoute
      → Option Text
      → JsMap Text N.F
      → Runtime N D
      → Pass N D
  settle_handoff workers active topic route none loads s = (
    send_control route.worker_id ControlAction.subscribe topic (create_opaque_key topic) none none
        s,
    loads,
  )
  settle_handoff workers active topic route (some previous) loads s =
      let owner = or_record s.current_record (elect_projected active loads s) in
      if not (anyb (λ w. eqb w.worker_id previous) workers)
        && is_stale_handoff s.config.worker_ttl_ms s.last_finite_now route
      then (recover workers topic (route.generation + 1) owner s, charge owner loads)
      else (s, loads)

  abbrev pub confirm_or_wait :
      List (WorkerRecord N)
      → List (WorkerRecord N)
      → Text
      → Option WorkerRoute
      → JsMap Text N.F
      → Runtime N D
      → Pass N D
  confirm_or_wait workers active topic none loads s = (s, loads)
  confirm_or_wait workers active topic (some route) loads s =
      if is_some route.confirmed_at
      then (s, loads)
      else settle_handoff workers active topic route (nonempty route.handoff_from_worker_id) loads s

  abbrev pub serve_topic :
      List (WorkerRecord N) → List (WorkerRecord N) → Text → JsMap Text N.F → Runtime N D → Pass N D
  serve_topic workers active topic loads s =
      let route = read_route s (create_opaque_key topic) in
      if has_active_owner N route workers
      then confirm_or_wait workers active topic route loads s
      else (elect topic (chosen_owner active s) s, loads)

  unfoldable pub subscriptions_loop :
      List (WorkerRecord N) → List (WorkerRecord N) → JsMap Text (Unit {0}) → Pass N D → Pass N D
  subscriptions_loop workers active [] p = p
  subscriptions_loop workers active ((topic, u) ∷ topics) p =
      subscriptions_loop workers active topics (
        serve_topic workers active topic p.1
          (write_subscriber (create_opaque_key topic) (remember topic p.0)))

  unfoldable pub reconcile_subscriptions :
      List (WorkerRecord N) → List (WorkerRecord N) → Runtime N D → Runtime N D
  reconcile_subscriptions workers active s =
      (subscriptions_loop workers active s.subscribed_topics (s, [])).0

  abbrev pub release_to : Text → Text → Option WorkerRoute → Runtime N D → Runtime N D
  release_to topic_key topic none s = s
  release_to topic_key topic (some route) s =
      if is_id s.config.worker_id route.handoff_from_worker_id
      then send_route_released route.worker_id topic topic_key route.generation s
      else s

  abbrev pub forget_unsubscribed : Text → Text → Runtime N D → Runtime N D
  forget_unsubscribed topic_key topic s =
      if has topic s.subscribed_topics
      then s
      else record s { known_topics = delete topic_key s.known_topics }

  abbrev pub keep_or_drop : Text → Text → Option WorkerRoute → Runtime N D → Runtime N D
  keep_or_drop topic_key topic route s =
      if routed_here s route
      then s
      else forget_unsubscribed topic_key topic (
          release_to topic_key topic route
            (log (on_control ControlAction.unsubscribe topic none none) (unassign topic_key s)))

  unfoldable pub assigned_loop : JsMap Text Text → Runtime N D → Runtime N D
  assigned_loop [] s = s
  assigned_loop ((topic_key, topic) ∷ assigned) s =
      assigned_loop assigned (keep_or_drop topic_key topic (read_route s topic_key) s)

  unfoldable pub reconcile_assigned_topics : Runtime N D → Runtime N D
  reconcile_assigned_topics s = assigned_loop s.assigned_topics s

  unfoldable pub reconcile : Runtime N D → Runtime N D
  reconcile s =
      let read = reconcile_workers s in
      let active = select_active_workers N read.1 s.config.max_active_workers in
      if s.started
      then update_load (
          reconcile_assigned_topics
            (reconcile_subscriptions read.1 active (reconcile_stranded_self_routes read.0)))
      else s
