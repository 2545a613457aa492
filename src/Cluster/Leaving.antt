-- ===== src/Cluster/Leaving.antt =====
-- About src/core/cluster.ts: the handoff names another worker in the route of each topic that it goes
-- through, or removes it.
use cross_tab_worker_databus.Base.{
  ℕ, ◌+◌, ◌<◌, ◌≡◌, refl, sym, ap, subst, ◌∙◌, inl, inr, true, false, not, Option, none, some, List,
  [], ◌∷◌, arith, ◌==◌, if◌then◌else◌, Bool-cases, length, In, In-anyb, anyb-In, nat_has_eq,
  if_true, if_false,
}
use cross_tab_worker_databus.Base.JsMap.{JsMap, get}
use cross_tab_worker_databus.Base.JsString.{Text, text_has_eq, eqb}
use cross_tab_worker_databus.Base.Number.{Number}
use cross_tab_worker_databus.Types.{WorkerRecord, WorkerRoute}
use cross_tab_worker_databus.Routing.Select.{select_active_workers}
use cross_tab_worker_databus.Cluster.Runtime.{Runtime, read_route, remove_route, subscriber_ids}
use cross_tab_worker_databus.Types.{LoadWeightingOptions}
use cross_tab_worker_databus.Cluster.Registry.{read_subscriber_ids}
use cross_tab_worker_databus.Cluster.Control.{routed_to}
use cross_tab_worker_databus.Cluster.Claims.{projected}
use cross_tab_worker_databus.Cluster.Handoff.{
  Pass, elect_projected, move_to, hand_over, hand_over_all,
}
use cross_tab_worker_databus.Routing.SelectLaws.{IsLeastOf, select_least_loaded_worker-IsLeastOf}
use cross_tab_worker_databus.Routing.ActiveLaws.{
  select_active_workers-In, select_active_workers-nonempty,
}
use cross_tab_worker_databus.Cluster.Settled.Live.{HasId}
use cross_tab_worker_databus.Cluster.Settled.Serving.{In-HasId, anyb-projected, length-projected}
-- A write for another worker, or a removal.
use cross_tab_worker_databus.Cluster.Departure.{
  remaining_pos, AreOthers, IsElsewhere, Leaves, Leaves-refl, Leaves-trans, remove_route-Leaves,
  move_route-Leaves,
}

module _ {N : Number} (remaining : List (WorkerRecord N)) (limit : ℕ) where
  abbrev pub active : List (WorkerRecord N)
  active = select_active_workers N remaining limit

  -- The worker that a topic goes to is not this one, and there is one if there are workers.
  away :
      (self : Text) (options : Option (LoadWeightingOptions N)) (loads : JsMap Text N.F)
      (owner : WorkerRecord N)
      → AreOthers self remaining
      → In owner (projected loads active)
      → eqb owner.worker_id self ≡ false
  away self options loads owner h m =
      let id = owner.worker_id in
      let a : HasId active id =
        sym (anyb-projected loads id active) ∙ In-HasId (projected loads active) owner m in
      let (w, n, e) = anyb-In (λ v. eqb v.worker_id id) active a in
      h id (
        In-anyb (λ v. eqb v.worker_id id) w remaining
          (select_active_workers-In N remaining limit w n) e)

module _ {N : Number} {D : Type 0} (remaining : List (WorkerRecord N)) (limit : ℕ)
    (limited : 0 < limit) where
  move_to-Leaves :
      (key topic : Text) (generation : ℕ) (o : Option (WorkerRecord N)) (loads : JsMap Text N.F)
      (s : Runtime N D)
      → s.storage ≡ true
      → AreOthers s.config.worker_id remaining
      → 0 < length remaining
      → IsLeastOf N s.config.load_weighting (projected loads (active remaining limit)) o
      → Leaves s (move_to key topic generation o loads s).0
        × IsElsewhere key (move_to key topic generation o loads s).0
  move_to-Leaves key topic generation none loads s stored h pos least = absurd (
      omega (
        arith,
        ap length least,
        length-projected loads (active remaining limit),
        select_active_workers-nonempty N remaining limit pos limited,
      ))
  move_to-Leaves key topic generation (some owner) loads s stored h pos least =
      move_route-Leaves key topic generation owner s stored
        (away remaining limit s.config.worker_id s.config.load_weighting loads owner h least.0)

  hand_over-Leaves :
      (key topic : Text) (o : Option WorkerRoute) (loads : JsMap Text N.F) (s : Runtime N D)
      → s.storage ≡ true
      → AreOthers s.config.worker_id remaining
      → get key s.store.routes ≡ o
      → let r = hand_over remaining (active remaining limit) key topic o loads s in
        Leaves s r.0 × IsElsewhere key r.0
  unfolding subscriber_ids
  hand_over-Leaves key topic none loads s stored h at =
      (Leaves-refl s, ap (routed_to s.config.worker_id) at)
  hand_over-Leaves key topic (some previous) loads s stored h at =
      let self = s.config.worker_id in
      let ids = subscriber_ids key remaining s in
      let g = previous.generation + 1 in
      let kept : Leaves s ids.0 = record { storage = refl; config = refl; elsewhere = λ k e. e } in
      let Good = λ (p : Pass N D). Leaves s p.0 × IsElsewhere key p.0 in
      let moved =
        move_to key topic g (elect_projected (active remaining limit) loads ids.0) loads ids.0 in
      let inner = if length ids.1 == 0 then (remove_route key ids.0, loads) else moved in
      let owned = not (routed_to self (some previous)) in
      elim (Bool-cases owned) [
        | inl t ↦
            subst Good (sym (if_true owned (s, loads) inner t))
              (Leaves-refl s, ap (routed_to self) at ∙ ground (arith, t))
        | inr f ↦
            subst Good (sym (if_false owned (s, loads) inner f))
              (elim (Bool-cases (length ids.1 == 0)) [
                | inl t ↦
                    let (l, e) = remove_route-Leaves key ids.0 stored in
                    subst Good
                      (sym (if_true (length ids.1 == 0) (remove_route key ids.0, loads) moved t))
                      (Leaves-trans kept l, e)
                | inr n ↦
                    let some_ids : (length
                            (read_subscriber_ids N key remaining s.store.subscribers).1
                          == 0)
                        ≡ false =
                      ap (λ (m : JsMap Text (Unit {0})). length m == 0)
                        (sym (if_true s.storage _ _ stored))
                      ∙ n in
                    let (l, e) =
                      move_to-Leaves key topic g
                        (elect_projected (active remaining limit) loads ids.0) loads ids.0 stored h
                        (remaining_pos key remaining s.store.subscribers some_ids)
                        (select_least_loaded_worker-IsLeastOf N s.config.load_weighting
                          (projected loads (active remaining limit))) in
                    subst Good
                      (sym (if_false (length ids.1 == 0) (remove_route key ids.0, loads) moved n))
                      (Leaves-trans kept l, e)
              ])
      ]

  pub hand_over_all-Leaves :
      (assigned : JsMap Text Text) (p : Pass N D)
      → p.0.storage ≡ true
      → AreOthers p.0.config.worker_id remaining
      → let r = hand_over_all remaining (active remaining limit) assigned p in
        Leaves p.0 r.0 × ((key topic : Text) → In (key, topic) assigned → IsElsewhere key r.0)
  unfolding hand_over_all read_route
  hand_over_all-Leaves [] p stored h = (Leaves-refl p.0, λ key topic m. absurd m)
  hand_over_all-Leaves ((k, t) ∷ assigned) p stored h =
      let o = read_route p.0 k in
      let (first, gone) =
        hand_over-Leaves k t o p.1 p.0 stored h (sym (if_true p.0.storage _ _ stored)) in
      let q = hand_over remaining (active remaining limit) k t o p.1 p.0 in
      let (rest, all) =
        hand_over_all-Leaves assigned q (first.storage ∙ stored)
          (subst (λ c. AreOthers c.worker_id remaining) (sym first.config) h) in
      (
        Leaves-trans first rest,
        λ key topic m. elim m [
          | inl e ↦
              subst
                (λ i. IsElsewhere i (hand_over_all remaining (active remaining limit) assigned q).0)
                (ap (λ x. x.0) e) (rest.elsewhere k gone)
          | inr later ↦ all key topic later
        ],
      )
