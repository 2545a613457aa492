-- ===== src/Cluster/Claims.antt =====
-- src/core/cluster.ts: `subscribe`, `unsubscribe`, `publish`, and `publishBatch`
-- of `WorkerClusterRuntime`.
use cross_tab_worker_databus.Base.{
  ℕ, ◌+◌, Bool, true, false, not, Option, none, some, List, [], ◌∷◌, ◌==◌, if◌then◌else◌, length,
  nat_has_eq,
}
use cross_tab_worker_databus.Base.JsMap.{JsMap, get, has, set, delete}
use cross_tab_worker_databus.Base.JsString.{Text, text_has_eq, eqb}
use cross_tab_worker_databus.Base.Number.{Number}
use cross_tab_worker_databus.Types.{WorkerRecord, WorkerRoute, ControlAction}
use cross_tab_worker_databus.Codec.Hash.{create_opaque_key}
use cross_tab_worker_databus.Routing.Select.{
  select_active_workers, select_least_loaded_worker, has_active_owner,
}
use cross_tab_worker_databus.Cluster.Cache.{resolve_publish_target}
use cross_tab_worker_databus.Cluster.Frames.{
  Frame, Metadata, Item, publication_metadata, control, on_control, on_publish_batch,
}
use cross_tab_worker_databus.Cluster.Runtime.{
  Runtime, log, sent, post, live_workers, read_route, write_route, remove_route, write_subscriber,
  remove_subscriber, subscriber_ids, remember,
}
use cross_tab_worker_databus.Cluster.Control.{
  notify_registry, send_control, control_sent, routed_here,
}

abbrev pub next_generation : Option WorkerRoute → ℕ
next_generation none = 1
next_generation (some route) = route.generation + 1

module _ {N : Number} where
  open N use {add, of_nat}

  abbrev pub or_record : WorkerRecord N → Option (WorkerRecord N) → WorkerRecord N
  or_record current none = current
  or_record current (some owner) = owner

  abbrev pub or_load : WorkerRecord N → Option N.F → N.F
  or_load worker none = worker.load
  or_load worker (some load) = load

  -- The workers with their projected loads.
  abbrev pub projected : JsMap Text N.F → List (WorkerRecord N) → List (WorkerRecord N)
  projected loads [] = []
  projected loads (w ∷ workers) =
      record w { load = or_load w (get w.worker_id loads) } ∷ projected loads workers

  abbrev pub charge : WorkerRecord N → JsMap Text N.F → JsMap Text N.F
  charge owner loads =
      set owner.worker_id (add (or_load owner (get owner.worker_id loads)) (of_nat 1)) loads

  abbrev pub add_loads : List (WorkerRecord N) → JsMap Text N.F → JsMap Text N.F
  add_loads [] loads = loads
  add_loads (w ∷ workers) loads = add_loads workers (set w.worker_id w.load loads)

module _ {D : Type 0} where
  abbrev pub batch_frame : Text → Text → List (Item D) → Frame D
  batch_frame target topic items =
      control target ControlAction.publish topic (create_opaque_key topic)
        (record { payload = none; message_id = none; timestamp = none; items = some items })

module _ {N : Number} {D : Type 0} where
  abbrev pub to_owner : WorkerRecord N → Text → Runtime N D → Runtime N D
  to_owner owner topic s =
      send_control owner.worker_id ControlAction.subscribe topic (create_opaque_key topic) none none
        s

  -- The election of an owner for a topic that has no live one, and what follows it.
  unfoldable pub elect : Text → WorkerRecord N → Runtime N D → Runtime N D
  elect topic owner s =
      let topic_key = create_opaque_key topic in
      notify_registry (
        to_owner owner topic
          (write_route topic_key owner none (next_generation (read_route s topic_key)) s))

  abbrev pub chosen_owner : List (WorkerRecord N) → Runtime N D → WorkerRecord N
  chosen_owner active s =
      or_record s.current_record (select_least_loaded_worker N active none s.config.load_weighting)

  abbrev pub elected : List (WorkerRecord N) → Runtime N D → WorkerRecord N
  elected workers s = chosen_owner (select_active_workers N workers s.config.max_active_workers) s

  abbrev pub claim : Text → List (WorkerRecord N) → Runtime N D → Runtime N D × Bool
  claim topic workers s =
      let route = read_route s (create_opaque_key topic) in
      let owner = elected workers s in
      let live = has_active_owner N route workers in
      (
        if live then s else elect topic owner s,
        if live then routed_here s route else eqb owner.worker_id s.config.worker_id,
      )

  abbrev pub note_subscription : Text → Runtime N D → Runtime N D
  note_subscription topic s =
      let t = remember topic s in record t { subscribed_topics = set topic tt t.subscribed_topics }

  -- With the result whether this worker is the owner.
  unfoldable pub subscribe : Text → Runtime N D → Runtime N D × Bool
  subscribe topic s =
      let topic_key = create_opaque_key topic in
      let t = note_subscription topic s in
      let read = live_workers (write_subscriber topic_key t) in
      let claimed = claim topic read.1 read.0 in
      if not t.started
      then (t, false)
      else if not t.storage
      then (
        send_control t.config.worker_id ControlAction.subscribe topic topic_key none none t,
        true,
      )
      else claimed

  -- A route without a subscriber is removed, and its owner is told.
  abbrev pub drop_route : Text → Bool → WorkerRoute → Runtime N D → Runtime N D
  drop_route topic notify route s =
      let t = remove_route (create_opaque_key topic) s in
      if notify
      then send_control route.worker_id ControlAction.unsubscribe topic (create_opaque_key topic)
          none none t
      else t

  abbrev pub release_route : Text → Bool → Option WorkerRoute → Runtime N D → Runtime N D
  release_route topic notify none s = s
  release_route topic notify (some route) s =
      let read = live_workers s in
      let ids = subscriber_ids (create_opaque_key topic) read.1 read.0 in
      if length ids.1 == 0 then drop_route topic notify route ids.0 else ids.0

  unfoldable pub release_subscription : Text → Bool → Runtime N D → Runtime N D
  release_subscription topic notify s =
      let t = remove_subscriber (create_opaque_key topic) (remember topic s) in
      release_route topic notify (read_route t (create_opaque_key topic)) t

  abbrev pub forget_unassigned : Text → Runtime N D → Runtime N D
  forget_unassigned topic s =
      if has (create_opaque_key topic) s.assigned_topics
      then s
      else record s { known_topics = delete (create_opaque_key topic) s.known_topics }

  unfoldable pub unsubscribe : Text → Runtime N D → Runtime N D
  unsubscribe topic s = forget_unassigned topic (
      release_subscription topic true
        (record s { subscribed_topics = delete topic s.subscribed_topics }))

  -- The worker that a publication goes to.
  unfoldable pub publish_target : Text → Runtime N D → Runtime N D × Text
  publish_target topic s =
      let topic_key = create_opaque_key topic in
      let read = live_workers s in
      let r =
        resolve_publish_target N read.0.owner_cache read.0.config.worker_id topic_key read.1
          (read_route read.0 topic_key) in
      (record read.0 { owner_cache = r.0 }, r.1)

  abbrev pub route_publication : Text → Runtime N D → Runtime N D × Text
  route_publication topic s =
      if has (create_opaque_key topic) s.assigned_topics
      then (s, s.config.worker_id)
      else publish_target topic s

  -- With the result whether the publication was handed over.
  unfoldable pub publish : Text → D → Option Metadata → Runtime N D → Runtime N D × Bool
  publish topic payload metadata s =
      let topic_key = create_opaque_key topic in
      let r = route_publication topic (remember topic s) in
      (
        send_control r.1 ControlAction.publish topic topic_key (some payload) metadata r.0,
        control_sent r.1 ControlAction.publish topic topic_key (some payload) metadata r.0,
      )

  unfoldable pub dispatch_items : Text → List (Item D) → Runtime N D → Runtime N D
  dispatch_items topic [] s = s
  dispatch_items topic (item ∷ items) s = dispatch_items topic items (
      log
        (on_control ControlAction.publish topic (some item.payload)
          (publication_metadata item.message_id item.timestamp))
        s)

  -- `dispatchLocalPublishBatch`.
  unfoldable pub dispatch_batch : Text → List (Item D) → Runtime N D → Runtime N D
  dispatch_batch topic items s =
      if s.config.batches
      then log (on_publish_batch topic items) s
      else dispatch_items topic items s

  abbrev pub send_batch : Text → List (Item D) → Runtime N D × Text → Runtime N D × Bool
  send_batch topic items (s, target) =
      if eqb target s.config.worker_id
      then (dispatch_batch topic items s, true)
      else (post (batch_frame target topic items) s, sent s (batch_frame target topic items))

  unfoldable pub publish_batch : Text → List (Item D) → Runtime N D → Runtime N D × Bool
  publish_batch topic [] s = (s, true)
  publish_batch topic (item ∷ []) s =
      publish topic item.payload (publication_metadata item.message_id item.timestamp) s
  publish_batch topic (item ∷ other ∷ items) s =
      send_batch topic (item ∷ other ∷ items) (route_publication topic (remember topic s))
