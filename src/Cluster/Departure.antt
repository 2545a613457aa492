-- ===== src/Cluster/Departure.antt =====
-- About src/core/cluster.ts: a handoff leaves no route of the topics that it goes through with this
-- worker.
use cross_tab_worker_databus.Base.{
  ℕ, ◌<◌, ◌≡◌, refl, sym, ap, subst, ◌∙◌, Bool, true, false, not, none, some, List, [], ◌∷◌, arith,
  ◌==◌, if◌then◌else◌, length, filterb, filterb-In, anyb-In, nat_has_eq, if_true,
}
use cross_tab_worker_databus.Base.JsMap.{JsMap, get, set, delete}
use cross_tab_worker_databus.Base.JsString.{Text, text_has_eq, eqb, eqb_sound}
use cross_tab_worker_databus.Base.Number.{Number}
use cross_tab_worker_databus.Types.{WorkerRecord, WorkerRoute, ControlAction}
use cross_tab_worker_databus.Cluster.Registry.{build_route_record}
use cross_tab_worker_databus.Cluster.Frames.{
  Frame, Operation, route_released, flushed, on_control, on_diagnostic,
}
use cross_tab_worker_databus.Cluster.Runtime.{
  Runtime, log, post, write_route, remove_route, with_routes,
}
use cross_tab_worker_databus.Base.JsMap.{get-set, get-delete, get-set_self}
use cross_tab_worker_databus.Cluster.Runtime.{sent}
use cross_tab_worker_databus.Cluster.Registry.{
  StoredSubscriber, is_live_of, add_ids, read_subscriber_ids,
}
use cross_tab_worker_databus.Cluster.Control.{routed_to}
use cross_tab_worker_databus.Cluster.Handoff.{move_route}
use cross_tab_worker_databus.Cluster.Settled.Live.{HasId}

-- A write for another worker, or a removal.
set-elsewhere :
    (self key k : Text) (r : WorkerRoute) (routes : JsMap Text WorkerRoute)
    → eqb r.worker_id self ≡ false
    → routed_to self (get k routes) ≡ false
    → routed_to self (get k (set key r routes)) ≡ false
set-elsewhere self key k r routes h e = ground (arith, get-set k key r routes, h, e)

pub delete-elsewhere :
    (self key k : Text) (routes : JsMap Text WorkerRoute)
    → routed_to self (get k routes) ≡ false
    → routed_to self (get k (delete key routes)) ≡ false
delete-elsewhere self key k routes e = ground (arith, get-delete k key routes, e)

module _ (N : Number) where
  no_live : (key : Text) (table : List StoredSubscriber) → filterb (is_live_of N [] key) table ≡ []
  no_live key [] = refl
  no_live key (s ∷ table) = ground (arith, no_live key table)

  -- No subscriber is live if there is no worker.
  no_ids :
      (key : Text) (table : List StoredSubscriber) → (read_subscriber_ids N key [] table).1 ≡ []
  unfolding read_subscriber_ids add_ids
  no_ids key table = ap (λ l. (add_ids N l [] []).0) (no_live key table)

module _ {N : Number} where
  pub remaining_pos :
      (key : Text) (remaining : List (WorkerRecord N)) (table : List StoredSubscriber)
      → (length (read_subscriber_ids N key remaining table).1 == 0) ≡ false
      → 0 < length remaining
  remaining_pos key [] table h =
      absurd (let e = no_ids N key table in let n = ap length e in ground (arith, h, n))
  remaining_pos key (w ∷ ws) table h = omega arith

  -- None of the workers is this one.
  abbrev pub AreOthers : Text → List (WorkerRecord N) → Type 0
  AreOthers self ws = (id : Text) → HasId ws id → eqb id self ≡ false

  pub others-AreOthers :
      (self : Text) (ws : List (WorkerRecord N))
      → AreOthers self (filterb (λ w. not (eqb w.worker_id self)) ws)
  others-AreOthers self ws id h =
      let (w, m, e) = anyb-In (λ v. eqb v.worker_id id) _ h in
      let (k, other) = filterb-In (λ v. not (eqb v.worker_id self)) w ws m in
      let same = eqb_sound w.worker_id id e in
      subst (λ i. eqb i self ≡ false) same (ground (arith, other))

module _ {N : Number} {D : Type 0} where
  -- The topic's route does not name this worker.
  abbrev pub IsElsewhere : Text → Runtime N D → Type 0
  IsElsewhere key s = routed_to s.config.worker_id (get key s.store.routes) ≡ false

  pub record Leaves (s t : Runtime N D) : Type 0 where
    pub storage : t.storage ≡ s.storage
    pub config : t.config ≡ s.config
    pub elsewhere : (key : Text) → IsElsewhere key s → IsElsewhere key t

  pub Leaves-refl : (s : Runtime N D) → Leaves s s
  Leaves-refl s = record { storage = refl; config = refl; elsewhere = λ key h. h }

  pub Leaves-trans : {s t u : Runtime N D} → Leaves s t → Leaves t u → Leaves s u
  Leaves-trans f g = record {
    storage = g.storage ∙ f.storage;
    config = g.config ∙ f.config;
    elsewhere = λ key h. g.elsewhere key (f.elsewhere key h);
  }

  pub Leaves-if :
      (b : Bool) {s t u : Runtime N D} → Leaves s t → Leaves s u → Leaves s (if b then t else u)
  Leaves-if true f g = f
  Leaves-if false f g = g

  pub post-Leaves : (frame : Frame D) (s : Runtime N D) → Leaves s (post frame s)
  unfolding post
  post-Leaves frame s =
      Leaves-if (sent s frame) (record { storage = refl; config = refl; elsewhere = λ key h. h })
        (Leaves-refl s)

  pub remove_route-Leaves :
      (key : Text) (s : Runtime N D)
      → s.storage ≡ true
      → Leaves s (remove_route key s) × IsElsewhere key (remove_route key s)
  remove_route-Leaves key s stored =
      let t = with_routes (delete key s.store.routes) s in
      let self = s.config.worker_id in
      let is : remove_route key s ≡ t = if_true s.storage t s stored in
      let gone : routed_to self (get key (delete key s.store.routes)) ≡ false =
        let none_left : get key (delete key s.store.routes) ≡ none =
          ground (arith, get-delete key key s.store.routes) in
        ap (routed_to self) none_left in
      subst (λ u. Leaves s u × IsElsewhere key u) (sym is)
        (
          record {
            storage = refl;
            config = refl;
            elsewhere = λ k h. delete-elsewhere self key k s.store.routes h;
          },
          gone,
        )

  pub move_route-Leaves :
      (key topic : Text) (generation : ℕ) (owner : WorkerRecord N) (s : Runtime N D)
      → s.storage ≡ true
      → eqb owner.worker_id s.config.worker_id ≡ false
      → Leaves s (move_route key topic generation owner s)
        × IsElsewhere key (move_route key topic generation owner s)
  unfolding move_route write_route
  move_route-Leaves key topic generation owner s stored other =
      let self = s.config.worker_id in
      let r =
        build_route_record key owner.worker_id owner.tab_id (some self) generation
          s.last_finite_now in
      let routes = set key r s.store.routes in
      let t = with_routes routes s in
      let is : write_route key owner (some self) generation s ≡ t = if_true s.storage t s stored in
      let told = λ (u : Runtime N D).
        log (on_control ControlAction.unsubscribe topic none none)
          (log flushed (log (on_diagnostic Operation.route_migration topic) u)) in
      let written : Leaves s (told t) = record {
        storage = refl;
        config = refl;
        elsewhere = λ k h. set-elsewhere self key k r s.store.routes other h;
      } in
      let away : IsElsewhere key (told t) =
        ap (routed_to self) (get-set_self key r s.store.routes) ∙ other in
      let sending = post-Leaves (route_released owner.worker_id topic key generation) (told t) in
      subst
        (λ u.
          Leaves s (post (route_released owner.worker_id topic key generation) (told u))
          × IsElsewhere key (post (route_released owner.worker_id topic key generation) (told u)))
        (sym is) (Leaves-trans written sending, sending.elsewhere key away)
