-- ===== src/Cluster/Coherence/Handoff.antt =====
-- About src/core/cluster.ts: a handoff is an allowed step.
use cross_tab_worker_databus.Base.{
  ℕ, ◌+◌, not, Option, none, some, List, [], ◌∷◌, ◌==◌, length, nat_has_eq,
}
use cross_tab_worker_databus.Base.JsMap.{JsMap}
use cross_tab_worker_databus.Base.JsString.{Text, text_has_eq}
use cross_tab_worker_databus.Base.Number.{Number}
use cross_tab_worker_databus.Types.{WorkerRecord, WorkerRoute, ControlAction}
use cross_tab_worker_databus.Routing.Select.{select_active_workers}
use cross_tab_worker_databus.Cluster.Frames.{Operation, flushed, on_control, on_diagnostic}
use cross_tab_worker_databus.Cluster.Runtime.{
  Runtime, log, live_workers, read_route, write_route, remove_route, subscriber_ids,
}
use cross_tab_worker_databus.Cluster.Control.{routed_here}
use cross_tab_worker_databus.Cluster.Claims.{add_loads}
use cross_tab_worker_databus.Cluster.Handoff.{
  Pass, elect_projected, move_route, move_to, hand_over, hand_over_all, others,
  handoff_assigned_topics,
}
use cross_tab_worker_databus.Cluster.Coherence.Defs.{
  Allowed, Allowed-refl, ◌▷◌, Allowed-if, Allowed-if_pair, post-Allowed, live_workers-Allowed,
  subscriber_ids-Allowed, remove_route-Allowed, write_route-Allowed,
}

module _ {N : Number} {D : Type 0} where
  move_route-Allowed :
      (key topic : Text) (generation : ℕ) (owner : WorkerRecord N) (s : Runtime N D)
      → Allowed s (move_route key topic generation owner s)
  unfolding move_route
  move_route-Allowed key topic generation owner s =
      let self = s.config.worker_id in
      let f = write_route-Allowed key owner (some self) generation s in
      let told : Allowed s (
          log (on_control ControlAction.unsubscribe topic none none) (
            log flushed (
              log (on_diagnostic Operation.route_migration topic)
                (write_route key owner (some self) generation s)))) =
        record { step = f.step } in
      told ▷ post-Allowed _ _

  move_to-Allowed :
      (key topic : Text) (generation : ℕ) (owner : Option (WorkerRecord N)) (loads : JsMap Text N.F)
      (s : Runtime N D)
      → Allowed s (move_to key topic generation owner loads s).0
  move_to-Allowed key topic generation none loads s = Allowed-refl s
  move_to-Allowed key topic generation (some owner) loads s =
      move_route-Allowed key topic generation owner s

  hand_over-Allowed :
      (remaining active : List (WorkerRecord N)) (key topic : Text) (o : Option WorkerRoute)
      (loads : JsMap Text N.F) (s : Runtime N D)
      → Allowed s (hand_over remaining active key topic o loads s).0
  hand_over-Allowed remaining active key topic none loads s = Allowed-refl s
  hand_over-Allowed remaining active key topic (some previous) loads s =
      let ids = subscriber_ids key remaining s in
      let f = subscriber_ids-Allowed key remaining s in
      Allowed-if_pair (not (routed_here s (some previous))) (s, loads) _ (Allowed-refl s)
        (Allowed-if_pair (length ids.1 == 0) (remove_route key ids.0, loads) _
          (f ▷ remove_route-Allowed key ids.0)
          (f
            ▷ move_to-Allowed key topic (previous.generation + 1)
                (elect_projected active loads ids.0) loads ids.0))

  hand_over_all-Allowed :
      (remaining active : List (WorkerRecord N)) (assigned : JsMap Text Text) (p : Pass N D)
      → Allowed p.0 (hand_over_all remaining active assigned p).0
  unfolding hand_over_all
  hand_over_all-Allowed remaining active [] p = Allowed-refl p.0
  hand_over_all-Allowed remaining active ((key, topic) ∷ assigned) p =
      hand_over-Allowed remaining active key topic (read_route p.0 key) p.1 p.0
      ▷ hand_over_all-Allowed remaining active assigned _

  pub handoff_assigned_topics-Allowed : (s : Runtime N D) → Allowed s (handoff_assigned_topics s)
  unfolding handoff_assigned_topics
  handoff_assigned_topics-Allowed s =
      let read = live_workers s in
      let remaining = others s read.1 in
      let active = select_active_workers N remaining s.config.max_active_workers in
      Allowed-if _ (Allowed-refl s) (
        live_workers-Allowed s
        ▷ hand_over_all-Allowed remaining active s.assigned_topics (read.0, add_loads active []))
