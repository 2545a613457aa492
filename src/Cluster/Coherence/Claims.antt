-- ===== src/Cluster/Coherence/Claims.antt =====
-- About src/core/cluster.ts: the claims and the publications are allowed steps.
use cross_tab_worker_databus.Base.{
  refl, Bool, true, false, not, Option, none, some, List, [], ◌∷◌, ◌==◌, length, nat_has_eq,
}
use cross_tab_worker_databus.Base.JsMap.{delete, has}
use cross_tab_worker_databus.Base.JsString.{Text, text_has_eq, eqb}
use cross_tab_worker_databus.Base.Number.{Number}
use cross_tab_worker_databus.Types.{WorkerRecord, WorkerRoute, ControlAction}
use cross_tab_worker_databus.Codec.Hash.{create_opaque_key}
use cross_tab_worker_databus.Routing.Select.{has_active_owner}
use cross_tab_worker_databus.Cluster.Frames.{Effect, Metadata, Item, publication_metadata}
use cross_tab_worker_databus.Cluster.Runtime.{
  Runtime, log, live_workers, read_route, write_subscriber, subscriber_ids, remember,
}
use cross_tab_worker_databus.Cluster.Control.{send_control}
use cross_tab_worker_databus.Cluster.Claims.{
  next_generation, to_owner, elect, elected, claim, note_subscription, subscribe, drop_route,
  release_route, release_subscription, unsubscribe, publish_target, route_publication, publish,
  dispatch_items, dispatch_batch, send_batch, batch_frame, publish_batch,
}
use cross_tab_worker_databus.Cluster.Coherence.Defs.{
  Allowed, Allowed-refl, ◌▷◌, stay, Allowed-if, Allowed-if_pair, post-Allowed, live_workers-Allowed,
  subscriber_ids-Allowed, write_subscriber-Allowed, remove_subscriber-Allowed, remove_route-Allowed,
  write_route-Allowed, remember-Allowed, forget-Allowed,
}
use cross_tab_worker_databus.Cluster.Coherence.Control.{
  send_control-Allowed, notify_registry-Allowed,
}

module _ {N : Number} {D : Type 0} where
  pub to_owner-Allowed :
      (owner : WorkerRecord N) (topic : Text) (s : Runtime N D) → Allowed s (to_owner owner topic s)
  to_owner-Allowed owner topic s =
      send_control-Allowed owner.worker_id ControlAction.subscribe topic (create_opaque_key topic)
        none none s refl

  pub elect-Allowed :
      (topic : Text) (owner : WorkerRecord N) (s : Runtime N D) → Allowed s (elect topic owner s)
  unfolding elect read_route
  elect-Allowed topic owner s =
      let key = create_opaque_key topic in
      write_route-Allowed key owner none (next_generation (read_route s key)) s
      ▷ to_owner-Allowed owner topic _
      ▷ notify_registry-Allowed _

  claim-Allowed :
      (topic : Text) (workers : List (WorkerRecord N)) (s : Runtime N D)
      → Allowed s (claim topic workers s).0
  claim-Allowed topic workers s =
      Allowed-if (has_active_owner N (read_route s (create_opaque_key topic)) workers)
        (Allowed-refl s) (elect-Allowed topic (elected workers s) s)

  note_subscription-Allowed :
      (topic : Text) (s : Runtime N D) → Allowed s (note_subscription topic s)
  note_subscription-Allowed topic s = let f = remember-Allowed topic s in record { step = f.step }

  pub subscribe-Allowed : (topic : Text) (s : Runtime N D) → Allowed s (subscribe topic s).0
  unfolding subscribe
  subscribe-Allowed topic s =
      let key = create_opaque_key topic in
      let t = note_subscription topic s in
      let f = note_subscription-Allowed topic s in
      let read = live_workers (write_subscriber key t) in
      Allowed-if_pair (not t.started) (t, false) _ f
        (Allowed-if_pair (not t.storage)
          (send_control t.config.worker_id ControlAction.subscribe topic key none none t, true) _
          (f
            ▷ send_control-Allowed t.config.worker_id ControlAction.subscribe topic key none none t
                refl)
          (f
            ▷ write_subscriber-Allowed key t
            ▷ live_workers-Allowed _
            ▷ claim-Allowed topic read.1 read.0))

  drop_route-Allowed :
      (topic : Text) (notify : Bool) (route : WorkerRoute) (s : Runtime N D)
      → Allowed s (drop_route topic notify route s)
  drop_route-Allowed topic notify route s =
      let key = create_opaque_key topic in
      let f = remove_route-Allowed key s in
      Allowed-if notify
        (f
          ▷ send_control-Allowed route.worker_id ControlAction.unsubscribe topic key none none _
              refl)
        f

  release_route-Allowed :
      (topic : Text) (notify : Bool) (route : Option WorkerRoute) (s : Runtime N D)
      → Allowed s (release_route topic notify route s)
  release_route-Allowed topic notify none s = Allowed-refl s
  release_route-Allowed topic notify (some route) s =
      let read = live_workers s in
      let ids = subscriber_ids (create_opaque_key topic) read.1 read.0 in
      let f =
        live_workers-Allowed s ▷ subscriber_ids-Allowed (create_opaque_key topic) read.1 read.0 in
      Allowed-if (length ids.1 == 0) (f ▷ drop_route-Allowed topic notify route ids.0) f

  pub release_subscription-Allowed :
      (topic : Text) (notify : Bool) (s : Runtime N D)
      → Allowed s (release_subscription topic notify s)
  unfolding release_subscription
  release_subscription-Allowed topic notify s =
      remember-Allowed topic s
      ▷ remove_subscriber-Allowed (create_opaque_key topic) _
      ▷ release_route-Allowed topic notify _ _

  pub unsubscribe-Allowed : (topic : Text) (s : Runtime N D) → Allowed s (unsubscribe topic s)
  unfolding unsubscribe
  unsubscribe-Allowed topic s =
      let t = record s { subscribed_topics = delete topic s.subscribed_topics } in
      let f : Allowed s t = record { step = stay s } in
      let g = f ▷ release_subscription-Allowed topic true t in
      Allowed-if _ g (g ▷ forget-Allowed (create_opaque_key topic) _)

  publish_target-Allowed : (topic : Text) (s : Runtime N D) → Allowed s (publish_target topic s).0
  unfolding publish_target
  publish_target-Allowed topic s = let f = live_workers-Allowed s in record { step = f.step }

  route_publication-Allowed :
      (topic : Text) (s : Runtime N D) → Allowed s (route_publication topic s).0
  route_publication-Allowed topic s =
      Allowed-if_pair (has (create_opaque_key topic) s.assigned_topics) (s, s.config.worker_id) _
        (Allowed-refl s) (publish_target-Allowed topic s)

  pub publish-Allowed :
      (topic : Text) (payload : D) (metadata : Option Metadata) (s : Runtime N D)
      → Allowed s (publish topic payload metadata s).0
  unfolding publish
  publish-Allowed topic payload metadata s =
      let r = route_publication topic (remember topic s) in
      remember-Allowed topic s
      ▷ route_publication-Allowed topic _
      ▷ send_control-Allowed r.1 ControlAction.publish topic (create_opaque_key topic)
          (some payload) metadata r.0 refl

  dispatch_items-Allowed :
      (topic : Text) (items : List (Item D)) (s : Runtime N D)
      → Allowed s (dispatch_items topic items s)
  unfolding dispatch_items
  dispatch_items-Allowed topic [] s = Allowed-refl s
  dispatch_items-Allowed topic (item ∷ items) s =
      let f = dispatch_items-Allowed topic items (
        log
          (Effect.on_control ControlAction.publish topic (some item.payload)
            (publication_metadata item.message_id item.timestamp))
          s) in
      record { step = f.step }

  pub dispatch_batch-Allowed :
      (topic : Text) (items : List (Item D)) (s : Runtime N D)
      → Allowed s (dispatch_batch topic items s)
  unfolding dispatch_batch
  dispatch_batch-Allowed topic items s =
      Allowed-if s.config.batches (record { step = stay s }) (dispatch_items-Allowed topic items s)

  send_batch-Allowed :
      (topic : Text) (items : List (Item D)) (p : Runtime N D × Text)
      → Allowed p.0 (send_batch topic items p).0
  send_batch-Allowed topic items (s, target) =
      Allowed-if_pair (eqb target s.config.worker_id) (dispatch_batch topic items s, true) _
        (dispatch_batch-Allowed topic items s) (post-Allowed (batch_frame target topic items) s)

  pub publish_batch-Allowed :
      (topic : Text) (items : List (Item D)) (s : Runtime N D)
      → Allowed s (publish_batch topic items s).0
  unfolding publish_batch
  publish_batch-Allowed topic [] s = Allowed-refl s
  publish_batch-Allowed topic (item ∷ []) s =
      publish-Allowed topic item.payload (publication_metadata item.message_id item.timestamp) s
  publish_batch-Allowed topic (item ∷ other ∷ items) s =
      remember-Allowed topic s
      ▷ route_publication-Allowed topic _
      ▷ send_batch-Allowed topic (item ∷ other ∷ items) (route_publication topic (remember topic s))
