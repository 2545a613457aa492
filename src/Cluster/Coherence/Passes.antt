-- ===== src/Cluster/Coherence/Passes.antt =====
-- About src/core/cluster.ts: a reconciliation is an allowed step.
use cross_tab_worker_databus.Base.{
  ℕ, ◌+◌, refl, Option, none, some, List, [], ◌∷◌, is_some, nat_has_eq,
}
use cross_tab_worker_databus.Base.JsMap.{JsMap, has}
use cross_tab_worker_databus.Base.JsString.{Text, text_has_eq, eqb}
use cross_tab_worker_databus.Base.Number.{Number}
use cross_tab_worker_databus.Types.{WorkerRecord, WorkerRoute, ControlAction}
use cross_tab_worker_databus.Codec.Hash.{create_opaque_key}
use cross_tab_worker_databus.Routing.Select.{has_active_owner, select_active_workers}
use cross_tab_worker_databus.Cluster.Frames.{Operation, on_control, on_diagnostic}
use cross_tab_worker_databus.Cluster.Runtime.{
  Runtime, log, read_route, write_route, subscriber_ids, nonempty,
}
use cross_tab_worker_databus.Cluster.Control.{routed_here, unassign}
use cross_tab_worker_databus.Cluster.Claims.{or_record, to_owner, chosen_owner, elect, charge}
use cross_tab_worker_databus.Cluster.Handoff.{Pass, is_id, elect_projected}
use cross_tab_worker_databus.Cluster.Passes.{
  reconcile_workers, recover_route, recover, settle_handoff, confirm_or_wait, serve_topic,
  subscriptions_loop, reconcile_subscriptions, release_to, keep_or_drop, assigned_loop,
  reconcile_assigned_topics, reconcile,
}
use cross_tab_worker_databus.Cluster.Coherence.Defs.{
  Allowed, Allowed-refl, ◌▷◌, Allowed-if, Allowed-if_pair, post-Allowed, subscriber_ids-Allowed,
  write_subscriber-Allowed, write_route-Allowed, remember-Allowed, forget-Allowed, unassign-Allowed,
}
use cross_tab_worker_databus.Cluster.Coherence.Control.{
  notify_registry-Allowed, update_load-Allowed, send_control-Allowed,
}
use cross_tab_worker_databus.Cluster.Coherence.Claims.{to_owner-Allowed, elect-Allowed}
use cross_tab_worker_databus.Cluster.Coherence.Stranded.{
  reconcile_workers-Allowed, reconcile_stranded_self_routes-Allowed,
}

module _ {N : Number} {D : Type 0} where
  recover_route-Allowed :
      (topic : Text) (generation : ℕ) (owner : WorkerRecord N) (s : Runtime N D)
      → Allowed s (recover_route topic generation owner s)
  unfolding recover_route
  recover_route-Allowed topic generation owner s =
      let key = create_opaque_key topic in
      let f = write_route-Allowed key owner none generation s ▷ to_owner-Allowed owner topic _ in
      let told : Allowed s (
          log (on_diagnostic Operation.route_migration_recovery topic)
            (to_owner owner topic (write_route key owner none generation s))) =
        record { step = f.step } in
      told ▷ notify_registry-Allowed _

  recover-Allowed :
      (workers : List (WorkerRecord N)) (topic : Text) (generation : ℕ) (owner : WorkerRecord N)
      (s : Runtime N D)
      → Allowed s (recover workers topic generation owner s)
  recover-Allowed workers topic generation owner s =
      let ids = subscriber_ids (create_opaque_key topic) workers s in
      let f = subscriber_ids-Allowed (create_opaque_key topic) workers s in
      Allowed-if (eqb owner.worker_id s.config.worker_id)
        (recover_route-Allowed topic generation owner s)
        (Allowed-if (has owner.worker_id ids.2) f
          (f ▷ recover_route-Allowed topic generation owner ids.0))

  settle_handoff-Allowed :
      (workers active : List (WorkerRecord N)) (topic : Text) (route : WorkerRoute)
      (previous : Option Text) (loads : JsMap Text N.F) (s : Runtime N D)
      → Allowed s (settle_handoff workers active topic route previous loads s).0
  settle_handoff-Allowed workers active topic route none loads s =
      send_control-Allowed route.worker_id ControlAction.subscribe topic (create_opaque_key topic)
        none none s refl
  settle_handoff-Allowed workers active topic route (some previous) loads s =
      let owner = or_record s.current_record (elect_projected active loads s) in
      Allowed-if_pair _ (recover workers topic (route.generation + 1) owner s, charge owner loads)
        (s, loads) (recover-Allowed workers topic (route.generation + 1) owner s) (Allowed-refl s)

  confirm_or_wait-Allowed :
      (workers active : List (WorkerRecord N)) (topic : Text) (o : Option WorkerRoute)
      (loads : JsMap Text N.F) (s : Runtime N D)
      → Allowed s (confirm_or_wait workers active topic o loads s).0
  confirm_or_wait-Allowed workers active topic none loads s = Allowed-refl s
  confirm_or_wait-Allowed workers active topic (some route) loads s =
      Allowed-if_pair (is_some route.confirmed_at) (s, loads) _ (Allowed-refl s)
        (settle_handoff-Allowed workers active topic route (nonempty route.handoff_from_worker_id)
          loads s)

  serve_topic-Allowed :
      (workers active : List (WorkerRecord N)) (topic : Text) (loads : JsMap Text N.F)
      (s : Runtime N D)
      → Allowed s (serve_topic workers active topic loads s).0
  serve_topic-Allowed workers active topic loads s =
      let o = read_route s (create_opaque_key topic) in
      Allowed-if_pair (has_active_owner N o workers) _
        (elect topic (chosen_owner active s) s, loads)
        (confirm_or_wait-Allowed workers active topic o loads s)
        (elect-Allowed topic (chosen_owner active s) s)

  subscriptions_loop-Allowed :
      (workers active : List (WorkerRecord N)) (topics : JsMap Text (Unit {0})) (p : Pass N D)
      → Allowed p.0 (subscriptions_loop workers active topics p).0
  unfolding subscriptions_loop
  subscriptions_loop-Allowed workers active [] p = Allowed-refl p.0
  subscriptions_loop-Allowed workers active ((topic, u) ∷ topics) p =
      remember-Allowed topic p.0
      ▷ write_subscriber-Allowed (create_opaque_key topic) _
      ▷ serve_topic-Allowed workers active topic p.1 _
      ▷ subscriptions_loop-Allowed workers active topics _

  release_to-Allowed :
      (key topic : Text) (o : Option WorkerRoute) (s : Runtime N D)
      → Allowed s (release_to key topic o s)
  release_to-Allowed key topic none s = Allowed-refl s
  release_to-Allowed key topic (some route) s =
      Allowed-if (is_id s.config.worker_id route.handoff_from_worker_id) (post-Allowed _ s)
        (Allowed-refl s)

  keep_or_drop-Allowed :
      (key topic : Text) (o : Option WorkerRoute) (s : Runtime N D)
      → Allowed s (keep_or_drop key topic o s)
  keep_or_drop-Allowed key topic o s =
      let f = unassign-Allowed key s in
      let told : Allowed s
          (log (on_control ControlAction.unsubscribe topic none none) (unassign key s)) =
        record { step = f.step } in
      let g = told ▷ release_to-Allowed key topic o _ in
      Allowed-if (routed_here s o) (Allowed-refl s) (Allowed-if _ g (g ▷ forget-Allowed key _))

  assigned_loop-Allowed :
      (assigned : JsMap Text Text) (s : Runtime N D) → Allowed s (assigned_loop assigned s)
  unfolding assigned_loop
  assigned_loop-Allowed [] s = Allowed-refl s
  assigned_loop-Allowed ((key, topic) ∷ assigned) s =
      keep_or_drop-Allowed key topic (read_route s key) s ▷ assigned_loop-Allowed assigned _

  pub reconcile-Allowed : (s : Runtime N D) → Allowed s (reconcile s)
  unfolding reconcile reconcile_subscriptions reconcile_assigned_topics
  reconcile-Allowed s =
      let read = reconcile_workers s in
      let active = select_active_workers N read.1 s.config.max_active_workers in
      Allowed-if s.started
        (reconcile_workers-Allowed s
          ▷ reconcile_stranded_self_routes-Allowed read.0
          ▷ subscriptions_loop-Allowed read.1 active _ _
          ▷ assigned_loop-Allowed _ _
          ▷ update_load-Allowed _)
        (Allowed-refl s)
