-- ===== src/Cluster/Claiming.antt =====
-- About src/core/cluster.ts: what a subscription to a topic without a live owner claims.
use cross_tab_worker_databus.Base.{
  ℕ, ◌+◌, ◌<◌, length, ◌≡◌, refl, sym, ap, ◌∙◌, inl, inr, Bool, true, false, not, Option, none,
  some, List, arith, if◌then◌else◌, Bool-cases, nat_has_eq, if_true, if_false,
}
use cross_tab_worker_databus.Base.JsMap.{JsMap, get, set, set-set, get-set_self}
use cross_tab_worker_databus.Base.JsString.{Text, text_has_eq, eqb, eqb_sound}
use cross_tab_worker_databus.Base.Number.{Number}
use cross_tab_worker_databus.Types.{WorkerRecord, WorkerRoute, ControlAction}
use cross_tab_worker_databus.Codec.Hash.{create_opaque_key}
use cross_tab_worker_databus.Routing.Select.{has_active_owner, select_active_workers}
use cross_tab_worker_databus.Routing.SelectLaws.{IsLeastOf, select_least_loaded_worker-IsLeastOf}
use cross_tab_worker_databus.Cluster.Registry.{StoredSubscriber, build_route_record}
use cross_tab_worker_databus.Cluster.Frames.{registry, on_control}
use cross_tab_worker_databus.Cluster.Runtime.{
  Runtime, Store, log, live_workers, read_route, write_route, with_routes, with_subscribers,
  put_subscriber, write_subscriber, remember,
}
use cross_tab_worker_databus.Cluster.Control.{assign, tell_control, send_control, notify_registry}
use cross_tab_worker_databus.Cluster.Claims.{
  next_generation, or_record, to_owner, elect, elected, claim, note_subscription, subscribe,
}
use cross_tab_worker_databus.Cluster.Settled.Reconciled.{candidates, live_workers-pos}
use cross_tab_worker_databus.Cluster.Settled.Early.{update_load-Shrinks}
use cross_tab_worker_databus.Cluster.Posting.{post-store, confirm-routes}

-- The rounds that a topic has had, as its route counts them.
abbrev pub rounds : Option WorkerRoute → ℕ
rounds none = 0
rounds (some route) = route.generation

next_generation-rounds : (o : Option WorkerRoute) → next_generation o ≡ rounds o + 1
next_generation-rounds none = refl
next_generation-rounds (some route) = refl

module _ {N : Number} where
  -- The route of a claim, which the owner confirms at once if it is the claimant.
  abbrev pub claimed : Text → ℕ → WorkerRecord N → Text → ℕ → WorkerRoute
  claimed key generation owner self now =
      record (build_route_record key owner.worker_id owner.tab_id none generation now) {
        confirmed_at = if eqb owner.worker_id self then some now else none;
      }

module _ {N : Number} {D : Type 0} where
  to_owner-routes :
      (topic : Text) (generation : ℕ) (owner : WorkerRecord N) (m : JsMap Text WorkerRoute)
      (s : Runtime N D)
      → let key = create_opaque_key topic in
        let now = s.last_finite_now in
        s.storage ≡ true
        → s.store.routes
          ≡ set key (build_route_record key owner.worker_id owner.tab_id none generation now) m
        → (to_owner owner topic s).store.routes
          ≡ set key (claimed key generation owner s.config.worker_id now) m
  unfolding send_control tell_control assign
  to_owner-routes topic generation owner m s stored is =
      let key = create_opaque_key topic in
      let now = s.last_finite_now in
      let self = s.config.worker_id in
      let b = build_route_record key owner.worker_id owner.tab_id none generation now in
      let b' = record b { confirmed_at = some now } in
      let here = record s { assigned_topics = set key topic s.assigned_topics } in
      let put = λ (c : Option ℕ). set key (record b { confirmed_at = c }) m in
      let routes_of = λ (u : Runtime N D). u.store.routes in
      elim (Bool-cases (eqb owner.worker_id self)) [
        | inl own ↦
            ap routes_of (if_true (eqb owner.worker_id self) _ _ own)
            ∙ (update_load-Shrinks (
                log (on_control ControlAction.subscribe topic none none)
                  (assign key topic s))).routes
            ∙ confirm-routes key b here stored (ap (get key) is ∙ get-set_self key b m)
                (eqb_sound owner.worker_id self own) refl
            ∙ ap (set key b') is
            ∙ set-set key b b' m
            ∙ sym (ap put (if_true (eqb owner.worker_id self) (some now) none own))
        | inr other ↦
            ap routes_of (if_false (eqb owner.worker_id self) _ _ other)
            ∙ ap (λ (x : Store N). x.routes) (post-store _ s)
            ∙ is
            ∙ sym (ap put (if_false (eqb owner.worker_id self) (some now) none other))
      ]

  elect-routes :
      (topic : Text) (owner : WorkerRecord N) (s : Runtime N D)
      → let key = create_opaque_key topic in
        s.storage ≡ true
        → (elect topic owner s).store.routes
          ≡ set key
              (claimed key
                (rounds (get key s.store.routes) + 1)
                owner
                s.config.worker_id
                s.last_finite_now)
              s.store.routes
  unfolding elect write_route read_route notify_registry
  elect-routes topic owner s stored =
      let key = create_opaque_key topic in
      let now = s.last_finite_now in
      let put = λ (generation : ℕ).
        with_routes
          (set key (build_route_record key owner.worker_id owner.tab_id none generation now)
            s.store.routes)
          s in
      let generation = rounds (get key s.store.routes) + 1 in
      let next : next_generation (read_route s key) ≡ generation =
        ap next_generation (if_true s.storage _ _ stored)
        ∙ next_generation-rounds (get key s.store.routes) in
      let written : write_route key owner none (next_generation (read_route s key)) s
          ≡ put generation =
        if_true s.storage _ s stored ∙ ap put next in
      ap (λ (x : Store N). x.routes) (post-store registry _)
      ∙ ap (λ (u : Runtime N D). (to_owner owner topic u).store.routes) written
      ∙ to_owner-routes topic generation owner s.store.routes (put generation) stored refl

  -- A claim where no live worker owns the topic.
  claim-routes :
      (topic : Text) (workers : List (WorkerRecord N)) (s : Runtime N D)
      → let key = create_opaque_key topic in
        let old = get key s.store.routes in
        let owner = elected workers s in
        s.storage ≡ true
        → has_active_owner N old workers ≡ false
        → ((claim topic workers s).0.store.routes
            ≡ set key
                (claimed key (rounds old + 1) owner s.config.worker_id s.last_finite_now)
                s.store.routes)
          × ((claim topic workers s).1 ≡ eqb owner.worker_id s.config.worker_id)
  unfolding read_route
  claim-routes topic workers s stored dead =
      let key = create_opaque_key topic in
      let owner = elected workers s in
      let test : has_active_owner N (read_route s key) workers ≡ false =
        ap (λ o. has_active_owner N o workers) (if_true s.storage _ _ stored) ∙ dead in
      (
        ap (λ (u : Runtime N D). u.store.routes) (if_false _ s (elect topic owner s) test)
            ∙ elect-routes topic owner s stored,
        if_false _ _ (eqb owner.worker_id s.config.worker_id) test,
      )

  -- The note of the subscription, and the subscriber that is written, change no route.
  noted : Text → List StoredSubscriber → Runtime N D → Runtime N D
  noted topic subscribers s = with_subscribers subscribers (note_subscription topic s)

  subscribe-routes :
      (topic : Text) (s : Runtime N D)
      → let key = create_opaque_key topic in
        let old = get key s.store.routes in
        let workers = (live_workers s).1 in
        let owner = elected workers s in
        s.started ≡ true
        → s.storage ≡ true
        → has_active_owner N old workers ≡ false
        → ((subscribe topic s).0.store.routes
            ≡ set key
                (claimed key (rounds old + 1) owner s.config.worker_id s.last_finite_now)
                s.store.routes)
          × ((subscribe topic s).1 ≡ eqb owner.worker_id s.config.worker_id)
  unfolding subscribe remember write_subscriber live_workers noted
  subscribe-routes topic s started stored dead =
      let key = create_opaque_key topic in
      let t = note_subscription topic s in
      let subscriber : StoredSubscriber = record {
        topic_key = key;
        owner_id = s.config.worker_id;
        record_of = record {
          tab_id = s.config.tab_id;
          worker_id = some s.config.worker_id;
          updated_at = s.last_finite_now;
        };
      } in
      let u = noted topic (put_subscriber subscriber s.store.subscribers) s in
      let after = λ (w : Runtime N D). claim topic (live_workers w).1 (live_workers w).0 in
      let is : subscribe topic s ≡ after u =
        if_false (not s.started) (t, false) _ (ground (arith, started))
        ∙ if_false (not s.storage) _ _ (ground (arith, stored))
        ∙ ap after (if_true s.storage _ t stored) in
      let c = claim-routes topic (live_workers s).1 (live_workers u).0 stored dead in
      (
        ap (λ (p : Runtime N D × Bool). p.0.store.routes) is ∙ c.0,
        ap (λ (p : Runtime N D × Bool). p.1) is ∙ c.1,
      )

  least-elected :
      (active : List (WorkerRecord N)) (s : Runtime N D) (o : Option (WorkerRecord N))
      → 0 < length active
      → IsLeastOf N s.config.load_weighting active o
      → IsLeastOf N s.config.load_weighting active (some (or_record s.current_record o))
  least-elected active s none pos empty = absurd (omega (arith, ap length empty, pos))
  least-elected active s (some w) pos least = least

  -- A started tab with a storage subscribes to a topic whose route names no live worker. Then of all
  -- the routes only the one of the topic changes: it names an active worker to which no other is
  -- preferred, in the round after the last one, without a previous owner, and it is confirmed at once
  -- exactly if that worker is the tab's own, which the result tells. The record of the tab carries
  -- its id, and the number of active workers is positive.
  pub subscribe-claims :
      (topic : Text) (s : Runtime N D)
      → s.started ≡ true
      → s.storage ≡ true
      → s.current_record.worker_id ≡ s.config.worker_id
      → 0 < s.config.max_active_workers
      → has_active_owner N (get (create_opaque_key topic) s.store.routes) (live_workers s).1 ≡ false
      → (owner : WorkerRecord N) × (IsLeastOf N s.config.load_weighting
            (select_active_workers N (live_workers s).1 s.config.max_active_workers)
            (some owner)
          × ((subscribe topic s).0.store.routes
              ≡ set
                  (create_opaque_key topic)
                  (claimed
                    (create_opaque_key topic)
                    (rounds (get (create_opaque_key topic) s.store.routes) + 1)
                    owner
                    s.config.worker_id
                    s.last_finite_now)
                  s.store.routes)
          × ((subscribe topic s).1 ≡ eqb owner.worker_id s.config.worker_id))
  subscribe-claims topic s started stored own limit dead =
      let workers = (live_workers s).1 in
      let active = select_active_workers N workers s.config.max_active_workers in
      let pos = live_workers-pos s started stored own in
      let c = candidates workers s.config.max_active_workers pos limit in
      (
        elected workers s,
        (
          least-elected active s _ c.some_active
              (select_least_loaded_worker-IsLeastOf N s.config.load_weighting active),
          (subscribe-routes topic s started stored dead).0,
          (subscribe-routes topic s started stored dead).1,
        ),
      )
