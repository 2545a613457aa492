-- ===== src/Routing/OrderLaws.antt =====
-- About src/core/routing.ts, `selectLeastLoadedWorker` and `selectRebalanceTarget`: what the order
-- in which storage lists the workers has no influence on, sticky owners, and the load gap.
use cross_tab_worker_databus.Base.{
  ◌≡◌, refl, ap, subst, ◌≢◌, ◌↔◌, inl, inr, true, false, Option, none, some, List, [], ◌∷◌, arith,
  Option-cases, anyb, findb, In, All-In, findb-some, findb-none, findb-anyb, nat_has_eq,
}
use cross_tab_worker_databus.Base.JsString.{Text, eqb, eqb_sound, eqb_refl}
use cross_tab_worker_databus.Base.Number.{Number}
use cross_tab_worker_databus.Types.{WorkerRecord, LoadWeightingOptions}
use cross_tab_worker_databus.Routing.Select.{
  select_least_loaded_worker, select_rebalance_target, is_preferred,
}
use cross_tab_worker_databus.Routing.SelectLaws.{
  prefers, prefers_total, IsLeastOf, select_least_loaded_worker-IsLeastOf,
}

module _ (N : Number) (options : Option (LoadWeightingOptions N)) where
  abbrev pub SameWorkers : List (WorkerRecord N) → List (WorkerRecord N) → Type 0
  SameWorkers ws vs = (w : WorkerRecord N) → In w ws ↔ In w vs

  abbrev pub chosen_id : Option (WorkerRecord N) → Option Text
  chosen_id none = none
  chosen_id (some w) = some w.worker_id

  IsLeastOf-unique :
      (ws vs : List (WorkerRecord N)) (a b : Option (WorkerRecord N))
      → SameWorkers ws vs
      → IsLeastOf N options ws a
      → IsLeastOf N options vs b
      → chosen_id a ≡ chosen_id b
  IsLeastOf-unique ws vs none none s p q = refl
  IsLeastOf-unique ws vs none (some b) s p q = absurd (subst (λ l. In b l) p ((s b).1 q.0))
  IsLeastOf-unique ws vs (some a) none s p q = absurd (subst (λ l. In a l) q ((s a).0 p.0))
  IsLeastOf-unique ws vs (some a) (some b) s p q = ap some (
      prefers_total N options a b
        (All-In (λ w. prefers N options w b ≡ false) a vs q.1 ((s a).0 p.0))
        (All-In (λ w. prefers N options w a ≡ false) b ws p.1 ((s b).1 q.0)))

  -- Two tabs that list the same workers, in whatever order, elect the same owner.
  pub select_least_loaded_worker-order :
      (ws vs : List (WorkerRecord N))
      → SameWorkers ws vs
      → chosen_id (select_least_loaded_worker N ws none options)
        ≡ chosen_id (select_least_loaded_worker N vs none options)
  select_least_loaded_worker-order ws vs s =
      IsLeastOf-unique ws vs _ _ s (select_least_loaded_worker-IsLeastOf N options ws)
        (select_least_loaded_worker-IsLeastOf N options vs)

  none_preferred : (vs : List (WorkerRecord N)) → findb (is_preferred N none) vs ≡ none
  none_preferred [] = refl
  none_preferred (v ∷ vs) = none_preferred vs

  -- A preferred owner that is among the workers is kept whatever the loads are.
  pub select_least_loaded_worker-preferred :
      (ws : List (WorkerRecord N)) (id : Text)
      → anyb (λ w. eqb w.worker_id id) ws ≡ true
      → (r : WorkerRecord N) × (select_least_loaded_worker N ws (some id) options ≡ some r)
        × In r ws
        × (r.worker_id ≡ id)
  unfolding select_least_loaded_worker
  select_least_loaded_worker-preferred ws id h =
      let (r, e) = findb-anyb (is_preferred N (some id)) ws h in
      let (m, t) = findb-some (is_preferred N (some id)) ws r e in
      (r, rw (e, select_least_loaded_worker) refl, m, eqb_sound _ _ t)

  -- A preferred owner that is not among the workers has no influence on the selection.
  pub select_least_loaded_worker-absent :
      (ws : List (WorkerRecord N)) (id : Text)
      → anyb (λ w. eqb w.worker_id id) ws ≡ false
      → select_least_loaded_worker N ws (some id) options
        ≡ select_least_loaded_worker N ws none options
  unfolding select_least_loaded_worker
  select_least_loaded_worker-absent ws id h =
      rw (findb-none (is_preferred N (some id)) ws h, select_least_loaded_worker)
        (rw (none_preferred ws, select_least_loaded_worker) refl)

module _ (N : Number) where
  open N use {le, add, of_nat}

  -- A rebalance target is a worker of the list other than the current one, which is in the list too,
  -- and the load of the current one is more than one above the target's.
  pub select_rebalance_target-gap :
      (ws : List (WorkerRecord N)) (id : Text) (t : WorkerRecord N)
      → select_rebalance_target N ws id ≡ some t
      → (c : WorkerRecord N) × In c ws
        × In t ws
        × (c.worker_id ≡ id)
        × (c.worker_id ≢ t.worker_id)
        × (le c.load (add t.load (of_nat 1)) ≡ false)
  unfolding select_rebalance_target
  select_rebalance_target-gap ws id t h =
      let p = λ (w : WorkerRecord N). eqb w.worker_id id in
      elim (Option-cases (findb p ws)) [
        | inl e ↦ absurd (ground arith)
        | inr (c, e) ↦
            let (m, k) = findb-some p ws c e in
            let least = select_least_loaded_worker-IsLeastOf N none ws in
            elim (Option-cases (select_least_loaded_worker N ws none none)) [
              | inl f ↦ absurd (ground arith)
              | inr (l, f) ↦
                  let q : l ≡ t = ground arith in
                  let v = subst (IsLeastOf N none ws) f least in
                  (
                    c,
                    m,
                    subst (λ x. In x ws) q v.0,
                    eqb_sound c.worker_id id k,
                    λ same.
                        let s = ap (eqb c.worker_id) same in
                        ground (
                          arith,
                          eqb_refl c.worker_id,
                          ap (λ (x : WorkerRecord N). eqb c.worker_id x.worker_id) q,
                        ),
                    ground
                        (arith, ap (λ (x : WorkerRecord N). le c.load (add x.load (of_nat 1))) q),
                  )
            ]
      ]
