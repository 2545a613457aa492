-- ===== src/Cluster/Settled/Assigned.antt =====
-- About src/core/cluster.ts: the pass over the assignments keeps those that the routes give to the
-- tab, and a whole reconciliation.
use cross_tab_worker_databus.Base.{
  ◌≡◌, refl, sym, ap, subst, ◌∙◌, inl, inr, Bool, true, false, Option, none, some, [], ◌∷◌, arith,
  if◌then◌else◌, Bool-cases, In, nat_has_eq, if_true, if_false,
}
use cross_tab_worker_databus.Base.JsMap.{JsMap, get, delete, has}
use cross_tab_worker_databus.Base.JsString.{Text, text_has_eq}
use cross_tab_worker_databus.Base.Number.{Number}
use cross_tab_worker_databus.Types.{WorkerRoute, ControlAction}
use cross_tab_worker_databus.Cluster.Frames.{Frame, on_control}
use cross_tab_worker_databus.Cluster.Runtime.{Runtime, log, post, read_route}
use cross_tab_worker_databus.Cluster.Runtime.{sent}
use cross_tab_worker_databus.Cluster.Settled.Live.{Fixed, Fixed-refl, Fixed-trans}
use cross_tab_worker_databus.Cluster.Handoff.{is_id}
use cross_tab_worker_databus.Cluster.Passes.{
  release_to, forget_unsubscribed, keep_or_drop, assigned_loop,
}
use cross_tab_worker_databus.Cluster.Control.{unassign, routed_here, routed_to}
use cross_tab_worker_databus.Base.JsMap.{get-delete}

get-unassigned : (k key : Text) (m : JsMap Text Text) → has k (delete key m) ≡ true → has k m ≡ true
get-unassigned k key m h = ground (arith, h, get-delete k key m)

module _ {N : Number} {D : Type 0} where
  -- A pass that leaves the routes alone, and assigns nothing.
  pub record Shrinks (s t : Runtime N D) : Type 0 where
    pub fixed : Fixed s t
    pub routes : t.store.routes ≡ s.store.routes
    pub fewer : (k : Text) → has k t.assigned_topics ≡ true → has k s.assigned_topics ≡ true

  pub Shrinks-trans : {s t u : Runtime N D} → Shrinks s t → Shrinks t u → Shrinks s u
  Shrinks-trans f g = record {
    fixed = Fixed-trans f.fixed g.fixed;
    routes = g.routes ∙ f.routes;
    fewer = λ k h. f.fewer k (g.fewer k h);
  }

  pub Shrinks-if :
      (b : Bool) {s t u : Runtime N D} → Shrinks s t → Shrinks s u → Shrinks s (if b then t else u)
  Shrinks-if true f g = f
  Shrinks-if false f g = g

  pub Shrinks-refl : (s : Runtime N D) → Shrinks s s
  Shrinks-refl s = record { fixed = Fixed-refl s; routes = refl; fewer = λ k h. h }

  pub Shrinks-same :
      {s t : Runtime N D}
      → Fixed s t
      → t.store.routes ≡ s.store.routes
      → t.assigned_topics ≡ s.assigned_topics
      → Shrinks s t
  Shrinks-same f r e = record {
    fixed = f;
    routes = r;
    fewer = λ k h. subst (λ m. has k m ≡ true) e h;
  }

  pub post-Shrinks : (frame : Frame D) (s : Runtime N D) → Shrinks s (post frame s)
  unfolding post
  post-Shrinks frame s =
      Shrinks-if (sent s frame)
        (Shrinks-same (record { storage = refl; subscribed = refl; config = refl; started = refl })
          refl refl)
        (Shrinks-refl s)

  release_to-Shrinks :
      (key topic : Text) (o : Option WorkerRoute) (s : Runtime N D)
      → Shrinks s (release_to key topic o s)
  release_to-Shrinks key topic none s = Shrinks-refl s
  release_to-Shrinks key topic (some route) s =
      Shrinks-if (is_id s.config.worker_id route.handoff_from_worker_id) (post-Shrinks _ s)
        (Shrinks-refl s)

  dropped : Text → Text → Option WorkerRoute → Runtime N D → Runtime N D
  dropped key topic o s = forget_unsubscribed key topic (
      release_to key topic o
        (log (on_control ControlAction.unsubscribe topic none none) (unassign key s)))

  dropped-Shrinks :
      (key topic : Text) (o : Option WorkerRoute) (s : Runtime N D)
      → Shrinks (unassign key s) (dropped key topic o s)
  unfolding dropped
  dropped-Shrinks key topic o s =
      let t = log (on_control ControlAction.unsubscribe topic none none) (unassign key s) in
      let told : Shrinks (unassign key s) t =
        Shrinks-same (record { storage = refl; subscribed = refl; config = refl; started = refl })
          refl refl in
      let f = Shrinks-trans told (release_to-Shrinks key topic o t) in
      Shrinks-if _ f (
        Shrinks-trans f (
          Shrinks-same (record { storage = refl; subscribed = refl; config = refl; started = refl })
            refl refl))

  keep_or_drop-Shrinks :
      (key topic : Text) (o : Option WorkerRoute) (s : Runtime N D)
      → Shrinks s (keep_or_drop key topic o s)
  unfolding dropped
  keep_or_drop-Shrinks key topic o s =
      let lighter : Shrinks s (unassign key s) = record {
        fixed = record { storage = refl; subscribed = refl; config = refl; started = refl };
        routes = refl;
        fewer = λ k h. get-unassigned k key s.assigned_topics h;
      } in
      Shrinks-if (routed_here s o) (Shrinks-refl s)
        (Shrinks-trans lighter (dropped-Shrinks key topic o s))

  -- Where the route is not this worker's, the assignment is gone.
  keep_or_drop-gone :
      (key topic : Text) (o : Option WorkerRoute) (s : Runtime N D)
      → has key (keep_or_drop key topic o s).assigned_topics ≡ true
      → routed_here s o ≡ true
  unfolding dropped
  keep_or_drop-gone key topic o s h = elim (Bool-cases (routed_here s o)) [
    | inl t ↦ t
    | inr f ↦
        let t = keep_or_drop key topic o s in
        let is : t ≡ dropped key topic o s =
          if_false (routed_here s o) s (dropped key topic o s) f in
        let left =
          (dropped-Shrinks key topic o s).fewer key
            (subst (λ u. has key u.assigned_topics ≡ true) is h) in
        absurd (let e = get-delete key key s.assigned_topics in ground (arith, e, left))
  ]

  abbrev pub IsRouted : Runtime N D → Text → Type 0
  IsRouted s key = routed_here s (get key s.store.routes) ≡ true

  Shrinks-IsRouted :
      {s t : Runtime N D} (key : Text) → Shrinks s t → IsRouted t key → IsRouted s key
  Shrinks-IsRouted {s} {t} key f h =
      subst (λ c. routed_to c.worker_id (get key s.store.routes) ≡ true) f.fixed.config
        (subst (λ r. routed_to t.config.worker_id (get key r) ≡ true) f.routes h)

  pub assigned_loop-Shrinks :
      (assigned : JsMap Text Text) (s : Runtime N D)
      → s.storage ≡ true
      → Shrinks s (assigned_loop assigned s)
        × ((key topic : Text)
            → In (key, topic) assigned
            → has key (assigned_loop assigned s).assigned_topics ≡ true
            → IsRouted s key)
  unfolding assigned_loop read_route
  assigned_loop-Shrinks [] s e = (Shrinks-refl s, λ key topic m h. absurd m)
  assigned_loop-Shrinks ((k, t) ∷ assigned) s e =
      let o = read_route s k in
      let first = keep_or_drop-Shrinks k t o s in
      let s' = keep_or_drop k t o s in
      let (rest, routed) = assigned_loop-Shrinks assigned s' (first.fixed.storage ∙ e) in
      (
        Shrinks-trans first rest,
        λ key topic m h. elim m [
          | inl q ↦
              let same : k ≡ key = ap (λ p. p.0) q in
              let gone = keep_or_drop-gone k t o s (
                rest.fewer k (
                  subst (λ i. has i (assigned_loop assigned s').assigned_topics ≡ true) (sym same)
                    h)) in
              subst (λ i. IsRouted s i) same
                (subst (λ r. routed_here s r ≡ true) (if_true s.storage _ _ e) gone)
          | inr later ↦ Shrinks-IsRouted key first (routed key topic later h)
        ],
      )
