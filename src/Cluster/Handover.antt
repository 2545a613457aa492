-- ===== src/Cluster/Handover.antt =====
-- About src/core/cluster.ts: a topic that is handed off is taken up by its new owner.
use cross_tab_worker_databus.Base.{
  ℕ, ◌≡◌, refl, ap, subst, ◌∙◌, true, false, ◌&&◌, Option, none, some, arith, nat_has_eq, if_true,
  if_false,
}
use cross_tab_worker_databus.Base.JsMap.{get, set}
use cross_tab_worker_databus.Base.JsString.{Text, text_has_eq, eqb}
use cross_tab_worker_databus.Base.Number.{Number}
use cross_tab_worker_databus.Types.{WorkerRecord, WorkerRoute, ControlAction}
use cross_tab_worker_databus.Codec.Hash.{create_opaque_key}
use cross_tab_worker_databus.Cluster.Registry.{build_route_record}
use cross_tab_worker_databus.Cluster.Frames.{Frame, route_released, on_control}
use cross_tab_worker_databus.Cluster.Runtime.{Runtime, log, read_route, write_route}
use cross_tab_worker_databus.Base.JsMap.{get-set_self}
use cross_tab_worker_databus.Base.JsString.{eqb_refl}
use cross_tab_worker_databus.Routing.Topics.{is_empty}
use cross_tab_worker_databus.Cluster.Runtime.{Store, confirm}
use cross_tab_worker_databus.Cluster.Registry.{named}
use cross_tab_worker_databus.Cluster.Control.{assign}
use cross_tab_worker_databus.Cluster.Handoff.{is_id, move_route}
use cross_tab_worker_databus.Cluster.Inbox.{
  is_release_of, handle_route_released_message, handle_frame, handle_message,
}
use cross_tab_worker_databus.Cluster.Release.{accepted_here, accepted-topics}
use cross_tab_worker_databus.Cluster.Posting.{
  post-store, confirm-routes, last_posted, last_posted-post,
}
use cross_tab_worker_databus.Cluster.Settled.Early.{update_load-Shrinks}

module _ {N : Number} {D : Type 0} where
  confirm-at :
      (key : Text) (r : WorkerRoute) (s : Runtime N D)
      → s.storage ≡ true
      → get key s.store.routes ≡ some r
      → r.worker_id ≡ s.config.worker_id
      → r.confirmed_at ≡ none
      → get key (confirm key s).store.routes
        ≡ some (record r { confirmed_at = some s.last_finite_now })
  confirm-at key r s stored at own fresh =
      ap (get key) (confirm-routes key r s stored at own fresh)
      ∙ get-set_self key (record r { confirmed_at = some s.last_finite_now }) s.store.routes

  release_test :
      (source topic key : Text) (generation : ℕ) (r : WorkerRoute) (s : Runtime N D)
      (o : Option WorkerRoute)
      → create_opaque_key topic ≡ key
      → o ≡ some r
      → r.worker_id ≡ s.config.worker_id
      → r.handoff_from_worker_id ≡ some source
      → r.generation ≡ generation
      → (eqb r.worker_id s.config.worker_id
          && eqb (create_opaque_key topic) key
          && is_release_of source generation o s)
        ≡ true
  release_test source topic key generation r s o keyed at own from same =
      let mine : eqb r.worker_id s.config.worker_id ≡ true =
        subst (λ i. eqb r.worker_id i ≡ true) own (eqb_refl r.worker_id) in
      let name : eqb (create_opaque_key topic) key ≡ true =
        subst (λ i. eqb (create_opaque_key topic) i ≡ true) keyed
          (eqb_refl (create_opaque_key topic)) in
      let sender : is_id source r.handoff_from_worker_id ≡ true =
        ap (is_id source) from ∙ eqb_refl source in
      let released : is_release_of source generation o s ≡ true =
        ap (λ p. is_release_of source generation p s) at ∙ ground (arith, mine, sender, same) in
      ground (arith, mine, name, released)

  -- The route after it is handed off.
  handed : Text → WorkerRecord N → ℕ → Runtime N D → WorkerRoute
  handed key owner generation s =
      build_route_record key owner.worker_id owner.tab_id (some s.config.worker_id) generation
        s.last_finite_now

  move_route-at :
      (key topic : Text) (generation : ℕ) (owner : WorkerRecord N) (s : Runtime N D)
      → s.storage ≡ true
      → get key (move_route key topic generation owner s).store.routes
        ≡ some (handed key owner generation s)
  unfolding move_route write_route handed
  move_route-at key topic generation owner s stored =
      ap (λ (x : Store N). get key x.routes) (post-store _ _)
      ∙ ap (λ (u : Runtime N D). get key u.store.routes) (if_true s.storage _ s stored)
      ∙ get-set_self key _ s.store.routes

  released-arrives :
      (key topic : Text) (generation : ℕ) (owner : WorkerRecord N) (s t : Runtime N D)
      → s.storage ≡ true
      → t.storage ≡ true
      → is_empty s.config.worker_id ≡ false
      → eqb s.config.worker_id t.config.worker_id ≡ false
      → create_opaque_key topic ≡ key
      → owner.worker_id ≡ t.config.worker_id
      → t.store ≡ (move_route key topic generation owner s).store
      → let u =
          handle_message s.config.worker_id
            (route_released owner.worker_id topic key generation)
            t in
        (get key u.assigned_topics ≡ some topic)
        × (get key u.store.routes
            ≡ some
                (record (build_route_record key owner.worker_id owner.tab_id
                  (some s.config.worker_id)
                  generation
                  s.last_finite_now) { confirmed_at = some t.last_finite_now }))
  unfolding handle_message handle_frame handle_route_released_message read_route handed assign
  released-arrives key topic generation owner s t stored stored' id other keyed own same =
      let r = handed key owner generation s in
      let source = s.config.worker_id in
      let at : get key t.store.routes ≡ some r =
        ap (λ (x : Store N). get key x.routes) same
        ∙ move_route-at key topic generation owner s stored in
      let read : read_route t key ≡ some r = if_true t.storage _ _ stored' ∙ at in
      let from : named (some source) ≡ some source = if_false (is_empty source) none _ id in
      let test =
        release_test source topic key generation r t (read_route t key) keyed read own from refl in
      let is =
        if_false (eqb source t.config.worker_id) t _ other
        ∙ if_true _ (accepted_here key topic t) t test in
      let told = log (on_control ControlAction.subscribe topic none none) (assign key topic t) in
      (
        ap (λ (u : Runtime N D). get key u.assigned_topics) is
            ∙ ap (get key) (accepted-topics key topic t)
            ∙ get-set_self key topic t.assigned_topics,
        ap (λ (u : Runtime N D). get key u.store.routes) is
            ∙ ap (get key) (update_load-Shrinks told).routes
            ∙ confirm-at key r (record t { assigned_topics = set key topic t.assigned_topics })
                stored' at own refl,
      )

  -- A tab with a storage and a non-empty id hands a topic off, and posts a frame last. The tab of the
  -- new owner, which reads the same records, handles that frame: the topic is then assigned to the
  -- new owner, and the route is the one that was handed off, confirmed.
  pub move_route-arrives :
      (key topic : Text) (generation : ℕ) (owner : WorkerRecord N) (s t : Runtime N D)
      (frame : Frame D)
      → s.storage ≡ true
      → t.storage ≡ true
      → is_empty s.config.worker_id ≡ false
      → eqb s.config.worker_id t.config.worker_id ≡ false
      → create_opaque_key topic ≡ key
      → owner.worker_id ≡ t.config.worker_id
      → t.store ≡ (move_route key topic generation owner s).store
      → last_posted (move_route key topic generation owner s).effects ≡ some frame
      → let u = handle_message s.config.worker_id frame t in
        (get key u.assigned_topics ≡ some topic)
        × (get key u.store.routes
            ≡ some
                (record (build_route_record key owner.worker_id owner.tab_id
                  (some s.config.worker_id)
                  generation
                  s.last_finite_now) { confirmed_at = some t.last_finite_now }))
  unfolding move_route
  move_route-arrives key topic generation owner s t frame stored stored' id other keyed own same
        last =
      let is : route_released owner.worker_id topic key generation ≡ frame =
        last_posted-post (route_released owner.worker_id topic key generation) frame
          (on_control ControlAction.unsubscribe topic none none) _ refl last in
      subst
        (λ (f : Frame D).
          let u = handle_message s.config.worker_id f t in
          (get key u.assigned_topics ≡ some topic)
          × (get key u.store.routes
              ≡ some
                  (record (build_route_record key owner.worker_id owner.tab_id
                    (some s.config.worker_id) generation s.last_finite_now) {
                      confirmed_at = some t.last_finite_now;
                    })))
        is (released-arrives key topic generation owner s t stored stored' id other keyed own same)
