-- ===== src/Cluster/Settled/Reconciled.antt =====
-- About src/core/cluster.ts: what holds after a reconciliation.
use cross_tab_worker_databus.Base.{
  ℕ, ◌<◌, ◌≡◌, sym, subst, ◌∙◌, inl, inr, Bool, true, Option, none, some, List, [], ◌∷◌, arith,
  Option-cases, length, anyb, In, In-anyb, anyb-In, nat_has_eq, if_true,
}
use cross_tab_worker_databus.Base.JsMap.{JsMap, get, has}
use cross_tab_worker_databus.Base.JsString.{Text, text_has_eq, eqb}
use cross_tab_worker_databus.Base.Number.{Number}
use cross_tab_worker_databus.Types.{WorkerRecord, WorkerRoute}
use cross_tab_worker_databus.Codec.Hash.{create_opaque_key}
use cross_tab_worker_databus.Routing.Select.{has_active_owner, select_active_workers}
use cross_tab_worker_databus.Cluster.Runtime.{Runtime, live_workers}
use cross_tab_worker_databus.Cluster.Control.{update_load}
use cross_tab_worker_databus.Cluster.Settled.Live.{owner_of, IsLive, Fixed-trans}
use cross_tab_worker_databus.Cluster.Passes.{
  reconcile_workers, reconcile_stranded_self_routes, subscriptions_loop, reconcile_subscriptions,
  assigned_loop, reconcile_assigned_topics, reconcile,
}
use cross_tab_worker_databus.Cluster.Control.{routed_here}
use cross_tab_worker_databus.Routing.ActiveLaws.{
  select_active_workers-In, select_active_workers-nonempty,
}
use cross_tab_worker_databus.Base.JsMap.{get-In}
use cross_tab_worker_databus.Cluster.Registry.{read_workers}
use cross_tab_worker_databus.Cluster.RegistryLaws.{read_workers-IsFresh}
use cross_tab_worker_databus.Cluster.Settled.Serving.{AreCandidates, subscriptions_loop-LiveStep}
use cross_tab_worker_databus.Cluster.Settled.Assigned.{Shrinks-trans, assigned_loop-Shrinks}
use cross_tab_worker_databus.Cluster.Settled.Early.{
  reconcile_workers-Fixed, reconcile_stranded-Fixed, update_load-Shrinks, IsRouted-later,
  LiveAt-later,
}

anyb-pos : {A : Type 0} (p : A → Bool) (xs : List A) → anyb p xs ≡ true → 0 < length xs
anyb-pos p [] h = cc
anyb-pos p (x ∷ xs) h = omega arith

pub has-In : (k : Text) (m : JsMap Text Text) → has k m ≡ true → (t : Text) × In (k, t) m
has-In k m h = elim (Option-cases (get k m)) [
  | inl n ↦ absurd (ground (arith, n, h))
  | inr (t, e) ↦ (t, get-In k t m e)
]

module _ {N : Number} where
  pub candidates :
      (ws : List (WorkerRecord N)) (limit : ℕ)
      → 0 < length ws
      → 0 < limit
      → AreCandidates ws (select_active_workers N ws limit)
  candidates ws limit h k = record {
    some_active = select_active_workers-nonempty N ws limit h k;
    registered = λ id a.
        let (w, m, e) = anyb-In (λ v. eqb v.worker_id id) (select_active_workers N ws limit) a in
        In-anyb (λ v. eqb v.worker_id id) w ws (select_active_workers-In N ws limit w m) e;
  }

  owner_live :
      (workers : List (WorkerRecord N)) (o : Option WorkerRoute)
      → IsLive workers (owner_of o)
      → has_active_owner N o workers ≡ true
  unfolding has_active_owner
  owner_live workers none h = absurd h
  owner_live workers (some route) h = h

module _ {N : Number} {D : Type 0} where
  -- A started tab that coordinates finds itself among the workers.
  pub live_workers-pos :
      (s : Runtime N D)
      → s.started ≡ true
      → s.storage ≡ true
      → s.current_record.worker_id ≡ s.config.worker_id
      → 0 < length (live_workers s).1
  unfolding live_workers
  live_workers-pos s on stored own =
      let read = λ (b : Bool).
        read_workers N s.config.worker_id s.config.worker_ttl_ms s.last_finite_now b
          s.current_record s.store.workers in
      let fresh =
        read_workers-IsFresh N s.config.worker_id s.config.worker_ttl_ms s.last_finite_now
          s.current_record s.store.workers own in
      subst (λ ws. 0 < length ws) (sym (if_true s.storage (read s.started).1 _ stored))
        (subst (λ b. 0 < length (read b).1) (sym on) (anyb-pos _ (read true).1 fresh.1))

  reconcile_workers-pos :
      (s : Runtime N D)
      → s.started ≡ true
      → s.storage ≡ true
      → s.current_record.worker_id ≡ s.config.worker_id
      → 0 < length (reconcile_workers s).1
  unfolding reconcile_workers
  reconcile_workers-pos s on stored own = live_workers-pos s on stored own

  -- Live owners for the subscribed topics, and routes for the assigned ones.
  IsSettled : List (WorkerRecord N) → JsMap Text (Unit {0}) → Runtime N D → Type 0
  IsSettled workers subscribed t =
      ((topic : Text)
        → has topic subscribed ≡ true
        → has_active_owner N (get (create_opaque_key topic) t.store.routes) workers ≡ true)
      × ((key : Text)
          → has key t.assigned_topics ≡ true
          → routed_here t (get key t.store.routes) ≡ true)

  passes-IsSettled :
      (ws : List (WorkerRecord N)) (s : Runtime N D)
      → s.storage ≡ true
      → 0 < length ws
      → (limit : ℕ) → 0 < limit
      → IsSettled ws s.subscribed_topics (
          update_load (
            reconcile_assigned_topics
              (reconcile_subscriptions ws (select_active_workers N ws limit) s)))
  unfolding reconcile_subscriptions reconcile_assigned_topics IsSettled
  passes-IsSettled ws s stored some_workers limit limited =
      let active = select_active_workers N ws limit in
      let (f, served) =
        subscriptions_loop-LiveStep (candidates ws limit some_workers limited) s.subscribed_topics
          (s, []) stored in
      let s2 = (subscriptions_loop ws active s.subscribed_topics (s, [])).0 in
      let (fewer, routed) =
        assigned_loop-Shrinks s2.assigned_topics s2 (f.fixed.storage ∙ stored) in
      let s3 = assigned_loop s2.assigned_topics s2 in
      let loaded = update_load-Shrinks s3 in
      let all = Shrinks-trans fewer loaded in
      (
        λ topic h. owner_live ws _ (LiveAt-later ws (create_opaque_key topic) all (served topic h)),
        λ key h.
            let left = loaded.fewer key h in
            let (topic, m) = has-In key s2.assigned_topics (fewer.fewer key left) in
            IsRouted-later key all (routed key topic m left),
      )

  -- After a started tab with a storage reconciles, the route of every topic that it subscribes to
  -- names a live worker, and every topic that is still assigned to it has a route that names it. Its
  -- record has to carry its id, and the number of active workers to be positive.
  pub reconcile-Settled :
      (s : Runtime N D)
      → s.started ≡ true
      → s.storage ≡ true
      → s.current_record.worker_id ≡ s.config.worker_id
      → 0 < s.config.max_active_workers
      → let t = reconcile s in
        let workers = (reconcile_workers s).1 in
        ((topic : Text)
          → has topic s.subscribed_topics ≡ true
          → has_active_owner N (get (create_opaque_key topic) t.store.routes) workers ≡ true)
        × ((key : Text)
            → has key t.assigned_topics ≡ true
            → routed_here t (get key t.store.routes) ≡ true)
  unfolding reconcile IsSettled
  reconcile-Settled s on stored own positive =
      let ws = (reconcile_workers s).1 in
      let s0 = (reconcile_workers s).0 in
      let s1 = reconcile_stranded_self_routes s0 in
      let limit = s.config.max_active_workers in
      let early = Fixed-trans (reconcile_workers-Fixed s) (reconcile_stranded-Fixed s0) in
      let settled =
        passes-IsSettled ws s1 (early.storage ∙ stored) (reconcile_workers-pos s on stored own)
          limit positive in
      let t = update_load (
        reconcile_assigned_topics
          (reconcile_subscriptions ws (select_active_workers N ws limit) s1)) in
      subst (λ r. IsSettled ws s.subscribed_topics r) (sym (if_true s.started t s on))
        (subst (λ m. IsSettled ws m t) early.subscribed settled)
