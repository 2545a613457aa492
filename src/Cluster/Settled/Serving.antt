-- ===== src/Cluster/Settled/Serving.antt =====
-- About src/core/cluster.ts: the pass over the subscriptions gives every topic a live owner.
use cross_tab_worker_databus.Base.{
  ℕ, suc, ◌+◌, ◌<◌, ◌≡◌, refl, sym, ap, subst, ◌∙◌, inl, inr, true, ◌||◌, Option, none, some, List,
  [], ◌∷◌, arith, is_some, Bool-cases, length, anyb, In, In-anyb, nat_has_eq, if_true,
}
use cross_tab_worker_databus.Base.JsMap.{JsMap, get, has}
use cross_tab_worker_databus.Base.JsString.{Text, text_has_eq, eqb}
use cross_tab_worker_databus.Base.Number.{Number}
use cross_tab_worker_databus.Types.{WorkerRecord, WorkerRoute}
use cross_tab_worker_databus.Codec.Hash.{create_opaque_key}
use cross_tab_worker_databus.Routing.Select.{has_active_owner}
use cross_tab_worker_databus.Cluster.Runtime.{
  Runtime, read_route, write_subscriber, subscriber_ids, remember, nonempty,
}
use cross_tab_worker_databus.Cluster.Settled.Live.{
  owner_of, HasId, IsLive, LiveAt, LiveStep, LiveStep-refl, ◌▷◌, LiveStep-if, LiveStep-if_pair,
}
use cross_tab_worker_databus.Cluster.Settled.Control.{
  log-LiveStep, notify_registry-LiveStep, send_control-LiveStep, subscriber_ids-LiveStep,
  remember-LiveStep, write_subscriber-LiveStep, write_route-LiveStep,
}
use cross_tab_worker_databus.Cluster.Claims.{
  next_generation, or_record, to_owner, chosen_owner, elect, charge, projected,
}
use cross_tab_worker_databus.Cluster.Handoff.{Pass, elect_projected}
use cross_tab_worker_databus.Cluster.Passes.{
  recover_route, recover, settle_handoff, confirm_or_wait, serve_topic, subscriptions_loop,
}
use cross_tab_worker_databus.Types.{LoadWeightingOptions}
use cross_tab_worker_databus.Routing.SelectLaws.{IsLeastOf, select_least_loaded_worker-IsLeastOf}
use cross_tab_worker_databus.Base.JsString.{eqb_refl}

module _ {N : Number} where
  pub In-HasId : (ws : List (WorkerRecord N)) (w : WorkerRecord N) → In w ws → HasId ws w.worker_id
  In-HasId ws w m = In-anyb (λ v. eqb v.worker_id w.worker_id) w ws m (eqb_refl w.worker_id)

  -- The owner that is elected is one of the candidates, if there are any.
  of_least :
      (options : Option (LoadWeightingOptions N)) (ws : List (WorkerRecord N))
      (current : WorkerRecord N) (o : Option (WorkerRecord N))
      → 0 < length ws
      → IsLeastOf N options ws o
      → HasId ws (or_record current o).worker_id
  of_least options ws current none h e = absurd (omega (arith, ap length e))
  of_least options ws current (some w) h l = In-HasId ws w l.0

  -- The names of the workers do not depend on the loads that are projected.
  pub anyb-projected :
      (loads : JsMap Text N.F) (id : Text) (ws : List (WorkerRecord N))
      → anyb (λ w. eqb w.worker_id id) (projected loads ws) ≡ anyb (λ w. eqb w.worker_id id) ws
  anyb-projected loads id [] = refl
  anyb-projected loads id (w ∷ ws) = ap (λ b. eqb w.worker_id id || b) (anyb-projected loads id ws)

  pub length-projected :
      (loads : JsMap Text N.F) (ws : List (WorkerRecord N))
      → length (projected loads ws) ≡ length ws
  length-projected loads [] = refl
  length-projected loads (w ∷ ws) = ap suc (length-projected loads ws)

  owner_of-IsLive :
      (workers : List (WorkerRecord N)) (o : Option WorkerRoute)
      → has_active_owner N o workers ≡ true
      → IsLive workers (owner_of o)
  unfolding has_active_owner
  owner_of-IsLive workers none h = cc
  owner_of-IsLive workers (some route) h = h

-- The candidates are workers of the list, and there are some.
pub record AreCandidates {N : Number} (workers active : List (WorkerRecord N)) : Type 0 where
  pub some_active : 0 < length active
  pub registered : (id : Text) → HasId active id → HasId workers id

module _ {N : Number} {D : Type 0} {workers active : List (WorkerRecord N)}
    (c : AreCandidates workers active) where
  chosen_owner-HasId : (s : Runtime N D) → HasId workers (chosen_owner active s).worker_id
  chosen_owner-HasId s = c.registered _ (
      of_least s.config.load_weighting active s.current_record _ c.some_active
        (select_least_loaded_worker-IsLeastOf N s.config.load_weighting active))

  elect_projected-HasId :
      (loads : JsMap Text N.F) (s : Runtime N D)
      → HasId workers (or_record s.current_record (elect_projected active loads s)).worker_id
  elect_projected-HasId loads s =
      let options = s.config.load_weighting in
      let owner = or_record s.current_record (elect_projected active loads s) in
      c.registered _ (
        sym (anyb-projected loads owner.worker_id active)
        ∙ of_least options (projected loads active) s.current_record _
            (omega (arith, length-projected loads active, c.some_active))
            (select_least_loaded_worker-IsLeastOf N options (projected loads active)))

  to_owner-LiveStep :
      (owner : WorkerRecord N) (topic : Text) (s : Runtime N D)
      → LiveStep workers s (to_owner owner topic s)
  to_owner-LiveStep owner topic s = send_control-LiveStep owner.worker_id _ topic _ none none s

  elect-LiveStep :
      (topic : Text) (owner : WorkerRecord N) (s : Runtime N D)
      → HasId workers owner.worker_id
      → LiveStep workers s (elect topic owner s)
        × (s.storage ≡ true → LiveAt workers (create_opaque_key topic) (elect topic owner s))
  unfolding elect
  elect-LiveStep topic owner s h =
      let key = create_opaque_key topic in
      let (f, own) = write_route-LiveStep key owner none (next_generation (read_route s key)) s h in
      let g = to_owner-LiveStep owner topic _ ▷ notify_registry-LiveStep _ in
      (f ▷ g, λ e. g.lives key (own e))

  recover_route-LiveStep :
      (topic : Text) (generation : ℕ) (owner : WorkerRecord N) (s : Runtime N D)
      → HasId workers owner.worker_id
      → LiveStep workers s (recover_route topic generation owner s)
  unfolding recover_route
  recover_route-LiveStep topic generation owner s h =
      (write_route-LiveStep (create_opaque_key topic) owner none generation s h).0
      ▷ to_owner-LiveStep owner topic _
      ▷ log-LiveStep _ _
      ▷ notify_registry-LiveStep _

  recover-LiveStep :
      (topic : Text) (generation : ℕ) (owner : WorkerRecord N) (s : Runtime N D)
      → HasId workers owner.worker_id
      → LiveStep workers s (recover workers topic generation owner s)
  recover-LiveStep topic generation owner s h =
      let ids = subscriber_ids (create_opaque_key topic) workers s in
      let f = subscriber_ids-LiveStep (create_opaque_key topic) workers s in
      LiveStep-if (eqb owner.worker_id s.config.worker_id)
        (recover_route-LiveStep topic generation owner s h)
        (LiveStep-if (has owner.worker_id ids.2) f
          (f ▷ recover_route-LiveStep topic generation owner ids.0 h))

  settle_handoff-LiveStep :
      (topic : Text) (route : WorkerRoute) (previous : Option Text) (loads : JsMap Text N.F)
      (s : Runtime N D)
      → LiveStep workers s (settle_handoff workers active topic route previous loads s).0
  settle_handoff-LiveStep topic route none loads s =
      send_control-LiveStep route.worker_id _ topic _ none none s
  settle_handoff-LiveStep topic route (some previous) loads s =
      let owner = or_record s.current_record (elect_projected active loads s) in
      LiveStep-if_pair _ (recover workers topic (route.generation + 1) owner s, charge owner loads)
        (s, loads)
        (recover-LiveStep topic (route.generation + 1) owner s (elect_projected-HasId loads s))
        (LiveStep-refl s)

  confirm_or_wait-LiveStep :
      (topic : Text) (o : Option WorkerRoute) (loads : JsMap Text N.F) (s : Runtime N D)
      → LiveStep workers s (confirm_or_wait workers active topic o loads s).0
  confirm_or_wait-LiveStep topic none loads s = LiveStep-refl s
  confirm_or_wait-LiveStep topic (some route) loads s =
      LiveStep-if_pair (is_some route.confirmed_at) (s, loads) _ (LiveStep-refl s)
        (settle_handoff-LiveStep topic route (nonempty route.handoff_from_worker_id) loads s)

  -- The topic that is served has a live owner, and no other loses its own.
  serve_topic-LiveStep :
      (topic : Text) (loads : JsMap Text N.F) (s : Runtime N D)
      → LiveStep workers s (serve_topic workers active topic loads s).0
        × (s.storage ≡ true
            → LiveAt workers (create_opaque_key topic) (serve_topic workers active topic loads s).0)
  unfolding read_route
  serve_topic-LiveStep topic loads s =
      let key = create_opaque_key topic in
      let o = read_route s key in
      let waiting = confirm_or_wait-LiveStep topic o loads s in
      let (f, own) = elect-LiveStep topic (chosen_owner active s) s (chosen_owner-HasId s) in
      elim (Bool-cases (has_active_owner N o workers)) [
        | inl t ↦ rw t (
          waiting,
          λ e. waiting.lives key (
              subst (λ r. IsLive workers (owner_of r)) (if_true s.storage _ _ e)
                (owner_of-IsLive workers o t)),
        )
        | inr n ↦ rw n (f, own)
      ]

  -- After the pass every topic that it went through has a live owner.
  pub subscriptions_loop-LiveStep :
      (topics : JsMap Text (Unit {0})) (p : Pass N D)
      → p.0.storage ≡ true
      → LiveStep workers p.0 (subscriptions_loop workers active topics p).0
        × ((topic : Text)
            → has topic topics ≡ true
            → LiveAt workers
                (create_opaque_key topic)
                (subscriptions_loop workers active topics p).0)
  unfolding subscriptions_loop get
  subscriptions_loop-LiveStep [] p e = (LiveStep-refl p.0, λ topic h. cc)
  subscriptions_loop-LiveStep ((topic, u) ∷ topics) p e =
      let s = p.0 in
      let f = remember-LiveStep topic s ▷ write_subscriber-LiveStep (create_opaque_key topic) _ in
      let t = write_subscriber (create_opaque_key topic) (remember topic s) in
      let (g, own) = serve_topic-LiveStep topic p.1 t in
      let here = f ▷ g in
      let q = serve_topic workers active topic p.1 t in
      let (rest, found) = subscriptions_loop-LiveStep topics q (here.fixed.storage ∙ e) in
      (
        here ▷ rest,
        λ k h. elim (text_has_eq.dec topic k) [
          | yes same ↦
              subst
                (λ i.
                  LiveAt workers (create_opaque_key i)
                    (subscriptions_loop workers active topics q).0)
                same (rest.lives (create_opaque_key topic) (own (f.fixed.storage ∙ e)))
          | no other ↦ found k (ground (arith, h))
        ],
      )
