-- ===== src/Cluster/Inbox.antt =====
-- src/core/cluster.ts: how `WorkerClusterRuntime` handles the frames of the other tabs.
use cross_tab_worker_databus.Base.{
  ℕ, ◌+◌, Bool, true, false, not, ◌&&◌, Option, none, some, List, [], ◌∷◌, ◌==◌, if◌then◌else◌,
  is_some, nat_has_eq,
}
use cross_tab_worker_databus.Base.JsString.{Text, text_has_eq, eqb}
use cross_tab_worker_databus.Base.Number.{Number}
use cross_tab_worker_databus.Types.{WorkerRoute, ControlAction}
use cross_tab_worker_databus.Codec.Hash.{create_opaque_key}
use cross_tab_worker_databus.Cluster.Frames.{
  Frame, Publishing, Item, publication_metadata, control, event, registry, route_released, unknown,
  on_control, on_event, on_unknown_message,
}
use cross_tab_worker_databus.Cluster.Runtime.{Runtime, log, read_route, remember}
use cross_tab_worker_databus.Cluster.Control.{
  routed_here, update_load, unassign, assign, tell_control,
}
use cross_tab_worker_databus.Cluster.Claims.{dispatch_batch}
use cross_tab_worker_databus.Cluster.Handoff.{is_id, send_route_released}
use cross_tab_worker_databus.Cluster.Passes.{reconcile}

abbrev pub is_pending_handoff : WorkerRoute → Bool
is_pending_handoff route = is_some route.handoff_from_worker_id && not (is_some route.confirmed_at)

module _ {N : Number} {D : Type 0} where
  -- The end of `handleControlMessage`.
  abbrev pub dispatch : ControlAction → Text → Publishing D → Runtime N D → Runtime N D
  dispatch action topic p s =
      tell_control action topic p.payload (publication_metadata p.message_id p.timestamp) s

  -- A SUBSCRIBE is dropped where the route names another worker, or waits for a release.
  abbrev pub may_subscribe : Option WorkerRoute → Runtime N D → Bool
  may_subscribe none s = true
  may_subscribe (some route) s = routed_here s (some route) && not (is_pending_handoff route)

  -- `releaseHandoffOnUnsubscribe`, and what follows where it does not answer a handoff.
  abbrev pub release_or_dispatch :
      Text → Text → Publishing D → Option WorkerRoute → Runtime N D → Runtime N D
  release_or_dispatch topic topic_key p none s = dispatch ControlAction.unsubscribe topic p s
  release_or_dispatch topic topic_key p (some route) s =
      if is_id s.config.worker_id route.handoff_from_worker_id
      then update_load (
          send_route_released route.worker_id topic topic_key route.generation
            (log (on_control ControlAction.unsubscribe topic none none) s))
      else dispatch ControlAction.unsubscribe topic p s

  abbrev pub receive_publication :
      Text → Publishing D → Option (List (Item D)) → Runtime N D → Runtime N D
  receive_publication topic p none s = dispatch ControlAction.publish topic p s
  receive_publication topic p (some []) s = s
  receive_publication topic p (some (item ∷ items)) s = dispatch_batch topic (item ∷ items) s

  unfoldable pub obey : ControlAction → Text → Text → Publishing D → Runtime N D → Runtime N D
  obey ControlAction.subscribe topic topic_key p s =
      if may_subscribe (read_route s topic_key) s
      then dispatch ControlAction.subscribe topic p (assign topic_key topic s)
      else s
  obey ControlAction.unsubscribe topic topic_key p s =
      release_or_dispatch topic topic_key p (read_route s topic_key) (unassign topic_key s)
  obey ControlAction.publish topic topic_key p s = receive_publication topic p p.items s

  unfoldable pub handle_control_message :
      Text → ControlAction → Text → Text → Publishing D → Runtime N D → Runtime N D
  handle_control_message target action topic topic_key p s =
      if eqb target s.config.worker_id && eqb (create_opaque_key topic) topic_key
      then obey action topic topic_key p (remember topic s)
      else s

  -- What a release has to match: the route is this worker's, handed off by the sender, in this round.
  abbrev pub is_release_of : Text → ℕ → Option WorkerRoute → Runtime N D → Bool
  is_release_of source generation none s = false
  is_release_of source generation (some route) s =
      eqb route.worker_id s.config.worker_id
      && is_id source route.handoff_from_worker_id
      && (generation == route.generation)

  unfoldable pub handle_route_released_message :
      Text → Text → Text → Text → ℕ → Runtime N D → Runtime N D
  handle_route_released_message source target topic topic_key generation s =
      if eqb target s.config.worker_id
        && eqb (create_opaque_key topic) topic_key
        && is_release_of source generation (read_route s topic_key) s
      then update_load
          (log (on_control ControlAction.subscribe topic none none) (assign topic_key topic s))
      else s

  unfoldable pub handle_frame : Text → Frame D → Runtime N D → Runtime N D
  handle_frame source (control target action topic topic_key p) s =
      handle_control_message target action topic topic_key p s
  handle_frame source (event event_type payload origin) s =
      log (on_event event_type payload source origin) s
  handle_frame source registry s = reconcile s
  handle_frame source (route_released target topic topic_key generation) s =
      handle_route_released_message source target topic topic_key generation s
  handle_frame source (unknown type_of) s = log (on_unknown_message type_of) (record s {
    unknown_message_count = s.unknown_message_count + 1;
    last_unknown_message_type = type_of;
  })

  -- A tab's own frames are ignored.
  unfoldable pub handle_message : Text → Frame D → Runtime N D → Runtime N D
  handle_message source frame s =
      if eqb source s.config.worker_id then s else handle_frame source frame s
