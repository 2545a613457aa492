-- ===== src/Cluster/Handoff.antt =====
-- src/core/cluster.ts: `handoffAssignedTopics` of `WorkerClusterRuntime`.
use cross_tab_worker_databus.Base.{
  ℕ, ◌+◌, Bool, false, not, ◌||◌, Option, none, some, List, [], ◌∷◌, ◌==◌, if◌then◌else◌, length,
  filterb, nat_has_eq,
}
use cross_tab_worker_databus.Base.JsMap.{JsMap}
use cross_tab_worker_databus.Base.JsString.{Text, text_has_eq, eqb}
use cross_tab_worker_databus.Base.Number.{Number}
use cross_tab_worker_databus.Types.{WorkerRecord, WorkerRoute, ControlAction}
use cross_tab_worker_databus.Routing.Select.{select_active_workers, select_least_loaded_worker}
use cross_tab_worker_databus.Cluster.Frames.{
  Operation, flushed, route_released, on_control, on_diagnostic,
}
use cross_tab_worker_databus.Cluster.Runtime.{
  Runtime, log, post, live_workers, read_route, write_route, remove_route, subscriber_ids,
}
use cross_tab_worker_databus.Cluster.Control.{routed_here}
use cross_tab_worker_databus.Cluster.Claims.{projected, charge, add_loads}

abbrev pub is_id : Text → Option Text → Bool
is_id id none = false
is_id id (some other) = eqb other id

abbrev pub handed_off_by : Text → Option WorkerRoute → Bool
handed_off_by id none = false
handed_off_by id (some route) = is_id id route.handoff_from_worker_id

-- The state of a loop: the runtime, and the loads projected so far.
abbrev pub Pass : Number → Type 0 → Type 0
Pass N D = Runtime N D × JsMap Text N.F

module _ {N : Number} {D : Type 0} where
  -- `sendRouteReleased`.
  abbrev pub send_route_released : Text → Text → Text → ℕ → Runtime N D → Runtime N D
  send_route_released target topic topic_key generation s =
      post (route_released target topic topic_key generation) s

  abbrev pub elect_projected :
      List (WorkerRecord N) → JsMap Text N.F → Runtime N D → Option (WorkerRecord N)
  elect_projected active loads s =
      select_least_loaded_worker N (projected loads active) none s.config.load_weighting

  unfoldable pub move_route : Text → Text → ℕ → WorkerRecord N → Runtime N D → Runtime N D
  move_route topic_key topic generation owner s =
      send_route_released owner.worker_id topic topic_key generation (
        log (on_control ControlAction.unsubscribe topic none none) (
          log flushed (
            log (on_diagnostic Operation.route_migration topic)
              (write_route topic_key owner (some s.config.worker_id) generation s))))

  abbrev pub move_to :
      Text → Text → ℕ → Option (WorkerRecord N) → JsMap Text N.F → Runtime N D → Pass N D
  move_to topic_key topic generation none loads s = (s, loads)
  move_to topic_key topic generation (some owner) loads s =
      (move_route topic_key topic generation owner s, charge owner loads)

  abbrev pub hand_over :
      List (WorkerRecord N)
      → List (WorkerRecord N)
      → Text
      → Text
      → Option WorkerRoute
      → JsMap Text N.F
      → Runtime N D
      → Pass N D
  hand_over remaining active topic_key topic none loads s = (s, loads)
  hand_over remaining active topic_key topic (some previous) loads s =
      let ids = subscriber_ids topic_key remaining s in
      if not (routed_here s (some previous))
      then (s, loads)
      else if length ids.1 == 0
      then (remove_route topic_key ids.0, loads)
      else move_to topic_key topic (previous.generation + 1) (elect_projected active loads ids.0)
          loads ids.0

  unfoldable pub hand_over_all :
      List (WorkerRecord N) → List (WorkerRecord N) → JsMap Text Text → Pass N D → Pass N D
  hand_over_all remaining active [] p = p
  hand_over_all remaining active ((topic_key, topic) ∷ assigned) p =
      hand_over_all remaining active assigned
        (hand_over remaining active topic_key topic (read_route p.0 topic_key) p.1 p.0)

  -- The workers other than this one.
  abbrev pub others : Runtime N D → List (WorkerRecord N) → List (WorkerRecord N)
  others s = filterb λ w. not (eqb w.worker_id s.config.worker_id)

  unfoldable pub handoff_assigned_topics : Runtime N D → Runtime N D
  handoff_assigned_topics s =
      let read = live_workers s in
      let remaining = others s read.1 in
      let active = select_active_workers N remaining s.config.max_active_workers in
      if not s.storage || (length s.assigned_topics == 0)
      then s
      else (hand_over_all remaining active s.assigned_topics (read.0, add_loads active [])).0
