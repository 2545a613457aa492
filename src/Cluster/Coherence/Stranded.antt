-- ===== src/Cluster/Coherence/Stranded.antt =====
-- About src/core/cluster.ts: the passes of a reconciliation over workers and stranded routes are
-- allowed steps.
use cross_tab_worker_databus.Base.{
  ◌≡◌, refl, sym, subst, inl, inr, Bool, false, not, Option, none, some, List, [], ◌∷◌, arith,
  Bool-cases, filterb, nat_has_eq,
}
use cross_tab_worker_databus.Base.JsMap.{JsMap, get, has}
use cross_tab_worker_databus.Base.JsString.{Text, text_has_eq}
use cross_tab_worker_databus.Base.Number.{Number}
use cross_tab_worker_databus.Types.{WorkerRecord, WorkerRoute, ControlAction}
use cross_tab_worker_databus.Codec.Hash.{create_opaque_key}
use cross_tab_worker_databus.Cluster.Registry.{
  cleanup_orphaned_routes, cleanup_orphaned_subscribers,
}
use cross_tab_worker_databus.Cluster.RegistryLaws.{stays, cleanup_orphaned_routes-stays}
use cross_tab_worker_databus.Cluster.Frames.{flushed}
use cross_tab_worker_databus.Cluster.Runtime.{Runtime, log, live_workers, with_routes}
use cross_tab_worker_databus.Cluster.Control.{role_changes}
use cross_tab_worker_databus.Cluster.Passes.{
  cleanup, renew_role, reconcile_workers, local_topic, reclaim_or_remove, is_stranded,
  stranded_loop, reconcile_stranded_self_routes,
}
use cross_tab_worker_databus.Cluster.Coherence.Defs.{
  filterb-AreRoutes, Keyed, Allowed, Allowed-refl, ◌▷◌, Allowed-if, Allowed-if_pair, Allowed-routes,
  live_workers-Allowed, remove_route-Allowed,
}
use cross_tab_worker_databus.Cluster.Coherence.Control.{
  notify_registry-Allowed, write_record-Allowed, refresh_role-Allowed, send_control-Allowed,
}

-- A topic that a key is remembered for has that key.
remembered_key :
    (key : Text) (known : JsMap Text Text) {topic : Text}
    → Keyed known
    → get key known ≡ some topic
    → create_opaque_key topic ≡ key
unfolding get
remembered_key key [] k e = cc
remembered_key key ((j, w) ∷ known) k e = elim (text_has_eq.dec j key) [
  | yes q ↦ ground (arith, q, k.0)
  | no q ↦ remembered_key key known k.1 (ground arith)
]

module _ {N : Number} {D : Type 0} where
  cleanup-Allowed :
      (workers : List (WorkerRecord N)) (s : Runtime N D) → Allowed s (cleanup workers s)
  unfolding cleanup
  cleanup-Allowed workers s =
      let table = cleanup_orphaned_subscribers N workers s.store.subscribers in
      let ttl = s.config.worker_ttl_ms in
      let now = s.last_finite_now in
      let r = cleanup_orphaned_routes N ttl now workers s.store.routes table in
      let same = sym (cleanup_orphaned_routes-stays N ttl now workers s.store.routes table).0 in
      let p = stays N ttl now workers table in
      let f : Allowed s (with_routes r.0 s) =
        subst (λ routes. Allowed s (with_routes routes s)) same
          (Allowed-routes s (filterb p s.store.routes) (filterb-AreRoutes p s.store.routes)) in
      Allowed-if s.storage (record { step = f.step }) (Allowed-refl s)

  renew_role-Allowed :
      (workers : List (WorkerRecord N)) (s : Runtime N D) → Allowed s (renew_role workers s)
  renew_role-Allowed workers s =
      Allowed-if (role_changes workers s)
        (refresh_role-Allowed workers s ▷ write_record-Allowed false _) (Allowed-refl s)

  pub reconcile_workers-Allowed : (s : Runtime N D) → Allowed s (reconcile_workers s).0
  unfolding reconcile_workers
  reconcile_workers-Allowed s =
      let read = live_workers s in
      live_workers-Allowed s ▷ cleanup-Allowed read.1 read.0 ▷ renew_role-Allowed read.1 _

  local_topic-some :
      (s : Runtime N D) (o : Option Text) {topic : Text}
      → local_topic s o ≡ some topic
      → o ≡ some topic
  local_topic-some s none e = cc
  local_topic-some s (some t) e = elim (Bool-cases (has t s.subscribed_topics)) [
    | inl h ↦ ground (arith, h, e)
    | inr h ↦ ground (arith, h, e)
  ]

  reclaim_or_remove-Allowed :
      (key : Text) (route : WorkerRoute) (o : Option Text) (p : Runtime N D × Bool)
      → local_topic p.0 (get route.topic_key p.0.known_topics) ≡ o
      → Allowed p.0 (reclaim_or_remove key route o p).0
  reclaim_or_remove-Allowed key route none (s, released) e = remove_route-Allowed key s
  reclaim_or_remove-Allowed key route (some topic) (s, released) e = record {
    step = λ c.
        let f =
          send_control-Allowed s.config.worker_id ControlAction.subscribe topic route.topic_key none
            none s (remembered_key route.topic_key s.known_topics c.2 (local_topic-some s _ e)) in
        f.step c;
  }

  stranded_loop-Allowed :
      (routes : JsMap Text WorkerRoute) (p : Runtime N D × Bool)
      → Allowed p.0 (stranded_loop routes p).0
  unfolding stranded_loop
  stranded_loop-Allowed [] p = Allowed-refl p.0
  stranded_loop-Allowed ((key, route) ∷ routes) p =
      let o = local_topic p.0 (get route.topic_key p.0.known_topics) in
      Allowed-if_pair (is_stranded route p.0) (reclaim_or_remove key route o p) p
        (reclaim_or_remove-Allowed key route o p refl) (Allowed-refl p.0)
      ▷ stranded_loop-Allowed routes _

  pub reconcile_stranded_self_routes-Allowed :
      (s : Runtime N D) → Allowed s (reconcile_stranded_self_routes s)
  unfolding reconcile_stranded_self_routes
  reconcile_stranded_self_routes-Allowed s =
      let r = stranded_loop s.store.routes (s, false) in
      let f = stranded_loop-Allowed s.store.routes (s, false) in
      let flushing : Allowed s (log flushed r.0) = record { step = f.step } in
      Allowed-if (not s.storage) (Allowed-refl s)
        (Allowed-if r.1 (flushing ▷ notify_registry-Allowed _) f)
