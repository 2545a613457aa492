-- ===== src/Cluster/Settled/Control.antt =====
-- About src/core/cluster.ts: records, control actions and reads leave the owners in place.
use cross_tab_worker_databus.Base.{
  ℕ, ◌≡◌, refl, sym, subst, Bool, true, Option, none, some, List, arith, nat_has_eq, if_true,
}
use cross_tab_worker_databus.Base.JsMap.{get, set}
use cross_tab_worker_databus.Base.JsString.{Text, text_has_eq, eqb}
use cross_tab_worker_databus.Base.Number.{Number}
use cross_tab_worker_databus.Types.{WorkerRecord, ControlAction}
use cross_tab_worker_databus.Cluster.Registry.{build_route_record}
use cross_tab_worker_databus.Cluster.Frames.{
  Frame, Effect, Operation, Metadata, registry, on_control,
}
use cross_tab_worker_databus.Cluster.Runtime.{
  Runtime, log, post, live_workers, write_route, write_subscriber, subscriber_ids, remember,
  nonempty, with_routes,
}
use cross_tab_worker_databus.Base.JsMap.{get-set, get-set_self}
use cross_tab_worker_databus.Cluster.Runtime.{sent, diagnose, confirm}
use cross_tab_worker_databus.Cluster.Registry.{confirm_route}
use cross_tab_worker_databus.Cluster.Control.{
  notify_registry, refresh_record, store_record, write_record, refresh_role, role_changes,
  same_load, with_load, update_load, assign, take_control, tell_control, send_control,
  control_frame,
}
use cross_tab_worker_databus.Cluster.Settled.Live.{
  owner_of, HasId, IsLive, LiveAt, LiveStep, LiveStep-refl, ◌▷◌, LiveStep-if, unmoved,
  LiveStep-owners, confirmed_owner,
}

module _ {N : Number} {D : Type 0} {workers : List (WorkerRecord N)} where
  pub post-LiveStep : (frame : Frame D) (s : Runtime N D) → LiveStep workers s (post frame s)
  unfolding post
  post-LiveStep frame s =
      LiveStep-if (sent s frame) (unmoved refl refl refl refl refl) (LiveStep-refl s)

  pub log-LiveStep : (e : Effect D) (s : Runtime N D) → LiveStep workers s (log e s)
  log-LiveStep e s = unmoved refl refl refl refl refl

  pub notify_registry-LiveStep : (s : Runtime N D) → LiveStep workers s (notify_registry s)
  unfolding notify_registry
  notify_registry-LiveStep s = post-LiveStep registry s

  refresh_record-LiveStep : (s : Runtime N D) → LiveStep workers s (refresh_record s)
  unfolding refresh_record
  refresh_record-LiveStep s = unmoved refl refl refl refl refl

  store_record-LiveStep : (s : Runtime N D) → LiveStep workers s (store_record s)
  unfolding store_record
  store_record-LiveStep s =
      LiveStep-if s.storage (unmoved refl refl refl refl refl) (LiveStep-refl s)

  pub write_record-LiveStep :
      (notify : Bool) (s : Runtime N D) → LiveStep workers s (write_record notify s)
  unfolding write_record
  write_record-LiveStep notify s =
      let f = refresh_record-LiveStep s ▷ store_record-LiveStep _ in
      LiveStep-if notify (f ▷ notify_registry-LiveStep _) f

  pub refresh_role-LiveStep :
      (ws : List (WorkerRecord N)) (s : Runtime N D) → LiveStep workers s (refresh_role ws s)
  unfolding refresh_role
  refresh_role-LiveStep ws s =
      LiveStep-if (role_changes ws s) (unmoved refl refl refl refl refl) (LiveStep-refl s)

  pub update_load-LiveStep : (s : Runtime N D) → LiveStep workers s (update_load s)
  unfolding update_load
  update_load-LiveStep s =
      let loaded : LiveStep workers s (with_load s) = unmoved refl refl refl refl refl in
      LiveStep-if (same_load s) (LiveStep-refl s)
        (LiveStep-if s.started (loaded ▷ write_record-LiveStep true _) loaded)

  diagnose-LiveStep :
      (operation : Operation) (topic : Option Text) (s : Runtime N D)
      → LiveStep workers s (diagnose operation topic s)
  diagnose-LiveStep operation none s = LiveStep-refl s
  diagnose-LiveStep operation (some topic) s = log-LiveStep _ s

  confirm-LiveStep : (key : Text) (s : Runtime N D) → LiveStep workers s (confirm key s)
  unfolding confirm confirm_route
  confirm-LiveStep key s =
      let routes = s.store.routes in
      let r = confirm_route s.config.worker_id s.last_finite_now key routes in
      let same =
        confirmed_owner s.config.worker_id s.last_finite_now key routes (get key routes) refl in
      LiveStep-if s.storage
        (LiveStep-if r.1
          (LiveStep-owners s r.0 same
            ▷ diagnose-LiveStep Operation.route_ack (nonempty (get key s.known_topics)) _)
          (LiveStep-refl s))
        (LiveStep-refl s)

  take_control-LiveStep :
      (action : ControlAction) (topic key : Text) (s : Runtime N D)
      → LiveStep workers s (take_control action topic key s)
  unfolding assign
  take_control-LiveStep ControlAction.subscribe topic key s =
      let t = record s { assigned_topics = set key topic s.assigned_topics } in
      let f : LiveStep workers s t = unmoved refl refl refl refl refl in f ▷ confirm-LiveStep key t
  take_control-LiveStep ControlAction.unsubscribe topic key s = unmoved refl refl refl refl refl
  take_control-LiveStep ControlAction.publish topic key s = LiveStep-refl s

  tell_control-LiveStep :
      (action : ControlAction) (topic : Text) (payload : Option D) (metadata : Option Metadata)
      (s : Runtime N D)
      → LiveStep workers s (tell_control action topic payload metadata s)
  unfolding tell_control
  tell_control-LiveStep action topic payload metadata s =
      let told = log-LiveStep (on_control action topic payload metadata) s in
      LiveStep-if _ told (told ▷ update_load-LiveStep _)

  pub send_control-LiveStep :
      (target : Text) (action : ControlAction) (topic key : Text) (payload : Option D)
      (metadata : Option Metadata) (s : Runtime N D)
      → LiveStep workers s (send_control target action topic key payload metadata s)
  unfolding send_control
  send_control-LiveStep target action topic key payload metadata s =
      LiveStep-if (eqb target s.config.worker_id)
        (take_control-LiveStep action topic key s
          ▷ tell_control-LiveStep action topic payload metadata _)
        (post-LiveStep (control_frame target action topic key payload metadata) s)

  pub live_workers-LiveStep : (s : Runtime N D) → LiveStep workers s (live_workers s).0
  unfolding live_workers
  live_workers-LiveStep s = unmoved refl refl refl refl refl

  pub subscriber_ids-LiveStep :
      (key : Text) (ws : List (WorkerRecord N)) (s : Runtime N D)
      → LiveStep workers s (subscriber_ids key ws s).0
  unfolding subscriber_ids
  subscriber_ids-LiveStep key ws s = unmoved refl refl refl refl refl

  pub remember-LiveStep : (topic : Text) (s : Runtime N D) → LiveStep workers s (remember topic s)
  unfolding remember
  remember-LiveStep topic s = unmoved refl refl refl refl refl

  pub write_subscriber-LiveStep :
      (key : Text) (s : Runtime N D) → LiveStep workers s (write_subscriber key s)
  unfolding write_subscriber
  write_subscriber-LiveStep key s =
      LiveStep-if s.storage (unmoved refl refl refl refl refl) (LiveStep-refl s)

  -- A route that is written for a worker of the list.
  pub write_route-LiveStep :
      (key : Text) (owner : WorkerRecord N) (from : Option Text) (generation : ℕ) (s : Runtime N D)
      → HasId workers owner.worker_id
      → LiveStep workers s (write_route key owner from generation s)
        × (s.storage ≡ true → LiveAt workers key (write_route key owner from generation s))
  unfolding write_route
  write_route-LiveStep key owner from generation s h =
      let r =
        build_route_record key owner.worker_id owner.tab_id from generation s.last_finite_now in
      let written = set key r s.store.routes in
      let at : get key written ≡ some r = get-set_self key r s.store.routes in
      let own : IsLive workers (owner_of (get key written)) =
        subst (λ o. IsLive workers (owner_of o)) (sym at) h in
      let others : ((k : Text)
          → IsLive workers (owner_of (get k s.store.routes))
          → IsLive workers (owner_of (get k written))) =
        λ k l. elim (text_has_eq.dec key k) [
          | yes q ↦ subst (λ i. IsLive workers (owner_of (get i written))) q own
          | no q ↦
              let same : get k written ≡ get k s.store.routes =
                ground (arith, get-set k key r s.store.routes) in
              subst (λ o. IsLive workers (owner_of o)) (sym same) l
        ] in
      (
        LiveStep-if s.storage
            (record {
              fixed = record { storage = refl; subscribed = refl; config = refl; started = refl };
              lives = others;
            })
            (LiveStep-refl s),
        λ e.
            subst (λ t. LiveAt workers key t) (sym (if_true s.storage (with_routes written s) s e))
              own,
      )
