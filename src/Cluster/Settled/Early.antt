-- ===== src/Cluster/Settled/Early.antt =====
-- About src/core/cluster.ts: what the first passes and the last one of a reconciliation leave
-- alone.
use cross_tab_worker_databus.Base.{
  ◌≡◌, refl, sym, subst, Bool, true, false, not, Option, none, some, List, [], ◌∷◌, if◌then◌else◌,
  nat_has_eq,
}
use cross_tab_worker_databus.Base.JsMap.{JsMap, get}
use cross_tab_worker_databus.Base.JsString.{Text, text_has_eq}
use cross_tab_worker_databus.Base.Number.{Number}
use cross_tab_worker_databus.Types.{WorkerRecord, WorkerRoute, ControlAction}
use cross_tab_worker_databus.Cluster.Frames.{Metadata, registry, flushed}
use cross_tab_worker_databus.Cluster.Runtime.{Runtime, log, live_workers, remove_route}
use cross_tab_worker_databus.Cluster.Control.{
  notify_registry, refresh_record, store_record, write_record, refresh_role, role_changes,
  same_load, with_load, update_load, send_control,
}
use cross_tab_worker_databus.Cluster.Settled.Live.{
  owner_of, IsLive, LiveAt, Fixed, LiveStep, Fixed-refl, Fixed-trans, Fixed-if,
}
use cross_tab_worker_databus.Cluster.Settled.Control.{
  notify_registry-LiveStep, write_record-LiveStep, refresh_role-LiveStep, send_control-LiveStep,
  live_workers-LiveStep,
}
use cross_tab_worker_databus.Cluster.Passes.{
  cleanup, reconcile_workers, reclaim_or_remove, is_stranded, stranded_loop,
  reconcile_stranded_self_routes,
}
use cross_tab_worker_databus.Cluster.Control.{routed_to}
use cross_tab_worker_databus.Cluster.Settled.Assigned.{
  Shrinks, Shrinks-trans, Shrinks-if, Shrinks-same, Shrinks-refl, IsRouted, post-Shrinks,
}

module _ {N : Number} {D : Type 0} where
  -- What the first passes leave alone.
  removal-Fixed : (key : Text) (s : Runtime N D) → Fixed s (remove_route key s)
  removal-Fixed key s =
      Fixed-if s.storage
        (record { storage = refl; subscribed = refl; config = refl; started = refl }) (Fixed-refl s)

  cleanup-Fixed : (ws : List (WorkerRecord N)) (s : Runtime N D) → Fixed s (cleanup ws s)
  unfolding cleanup
  cleanup-Fixed ws s =
      Fixed-if s.storage
        (record { storage = refl; subscribed = refl; config = refl; started = refl }) (Fixed-refl s)

  send_control-Fixed :
      (target : Text) (action : ControlAction) (topic key : Text) (payload : Option D)
      (metadata : Option Metadata) (s : Runtime N D)
      → Fixed s (send_control target action topic key payload metadata s)
  send_control-Fixed target action topic key payload metadata s =
      let f : LiveStep [] s (send_control target action topic key payload metadata s) =
        send_control-LiveStep target action topic key payload metadata s in
      f.fixed

  pub reconcile_workers-Fixed : (s : Runtime N D) → Fixed s (reconcile_workers s).0
  unfolding reconcile_workers
  reconcile_workers-Fixed s =
      let read = live_workers s in
      let f : LiveStep [] s read.0 = live_workers-LiveStep s in
      let t = cleanup read.1 read.0 in
      let g : LiveStep [] t (refresh_role read.1 t) = refresh_role-LiveStep read.1 t in
      let h : LiveStep [] (refresh_role read.1 t) (write_record false (refresh_role read.1 t)) =
        write_record-LiveStep false _ in
      Fixed-trans f.fixed (
        Fixed-trans (cleanup-Fixed read.1 read.0)
          (Fixed-if (role_changes read.1 t) (Fixed-trans g.fixed h.fixed) (Fixed-refl t)))

  reclaim_or_remove-Fixed :
      (key : Text) (route : WorkerRoute) (o : Option Text) (p : Runtime N D × Bool)
      → Fixed p.0 (reclaim_or_remove key route o p).0
  reclaim_or_remove-Fixed key route none (s, released) = removal-Fixed key s
  reclaim_or_remove-Fixed key route (some topic) (s, released) =
      send_control-Fixed s.config.worker_id _ topic route.topic_key none none s

  Fixed-if_pair :
      {X : Type 0} (b : Bool) (p q : Runtime N D × X) {s : Runtime N D}
      → Fixed s p.0
      → Fixed s q.0
      → Fixed s (if b then p else q).0
  Fixed-if_pair true p q f g = f
  Fixed-if_pair false p q f g = g

  stranded_loop-Fixed :
      (routes : JsMap Text WorkerRoute) (p : Runtime N D × Bool)
      → Fixed p.0 (stranded_loop routes p).0
  unfolding stranded_loop
  stranded_loop-Fixed [] p = Fixed-refl p.0
  stranded_loop-Fixed ((key, route) ∷ routes) p =
      Fixed-trans
        (Fixed-if_pair (is_stranded route p.0) _ p (reclaim_or_remove-Fixed key route _ p)
          (Fixed-refl p.0))
        (stranded_loop-Fixed routes _)

  pub reconcile_stranded-Fixed : (s : Runtime N D) → Fixed s (reconcile_stranded_self_routes s)
  unfolding reconcile_stranded_self_routes
  reconcile_stranded-Fixed s =
      let r = stranded_loop s.store.routes (s, false) in
      let f = stranded_loop-Fixed s.store.routes (s, false) in
      let g : LiveStep [] (log flushed r.0) (notify_registry (log flushed r.0)) =
        notify_registry-LiveStep _ in
      let flushing : Fixed s (log flushed r.0) = record {
        storage = f.storage;
        subscribed = f.subscribed;
        config = f.config;
        started = f.started;
      } in
      Fixed-if (not s.storage) (Fixed-refl s) (Fixed-if r.1 (Fixed-trans flushing g.fixed) f)

  -- The load is written without a change of routes or assignments.
  write_record-Shrinks : (s : Runtime N D) → Shrinks s (write_record true s)
  unfolding write_record notify_registry refresh_record store_record
  write_record-Shrinks s =
      let t = store_record (refresh_record s) in
      let still : Shrinks s t =
        Shrinks-if s.storage
          (Shrinks-same
            (record { storage = refl; subscribed = refl; config = refl; started = refl }) refl refl)
          (Shrinks-same
            (record { storage = refl; subscribed = refl; config = refl; started = refl }) refl
            refl) in
      Shrinks-trans still (post-Shrinks registry t)

  pub update_load-Shrinks : (s : Runtime N D) → Shrinks s (update_load s)
  unfolding update_load
  update_load-Shrinks s =
      let loaded : Shrinks s (with_load s) =
        Shrinks-same (record { storage = refl; subscribed = refl; config = refl; started = refl })
          refl refl in
      Shrinks-if (same_load s) (Shrinks-refl s)
        (Shrinks-if s.started (Shrinks-trans loaded (write_record-Shrinks (with_load s))) loaded)

  pub IsRouted-later :
      {s t : Runtime N D} (key : Text) → Shrinks s t → IsRouted s key → IsRouted t key
  IsRouted-later {s} {t} key f h =
      subst (λ c. routed_to c.worker_id (get key t.store.routes) ≡ true) (sym f.fixed.config)
        (subst (λ r. routed_to s.config.worker_id (get key r) ≡ true) (sym f.routes) h)

  pub LiveAt-later :
      (workers : List (WorkerRecord N)) {s t : Runtime N D} (key : Text)
      → Shrinks s t
      → LiveAt workers key s
      → LiveAt workers key t
  LiveAt-later workers key f h = subst (λ r. IsLive workers (owner_of (get key r))) (sym f.routes) h
