-- ===== src/Cluster/CacheLaws.antt =====
-- About src/core/cluster.ts: the route owner cache changes no answer, and stays within its cap.
use cross_tab_worker_databus.Base.{
  ℕ, ◌≤◌, ◌≡◌, refl, ap, inl, inr, true, ◌||◌, Option, none, some, List, [], ◌∷◌, arith, Bool-cases,
  length, anyb, nat_has_eq,
}
use cross_tab_worker_databus.Base.JsMap.{
  JsMap, get, has, set, delete, get-set_self, length-delete-le,
}
use cross_tab_worker_databus.Base.JsString.{Text, text_has_eq, eqb, eqb_sound, eqb_refl}
use cross_tab_worker_databus.Base.Number.{Number}
use cross_tab_worker_databus.Types.{WorkerRecord, WorkerRoute}
use cross_tab_worker_databus.Routing.Select.{has_active_owner}
use cross_tab_worker_databus.Cluster.Cache.{
  CachedOwner, OwnerCache, evict_oldest, touch_route_owner_cache, owner_or_self, chosen_target,
  follow, resolve_publish_target, forget_first, remember_topic,
}

length-evict_oldest-le : (cap : ℕ) (m : JsMap Text CachedOwner) → length (evict_oldest cap m) ≤ cap
unfolding evict_oldest
length-evict_oldest-le cap [] = omega arith
length-evict_oldest-le cap (e ∷ m) = ground (arith, length-evict_oldest-le cap m)

module _ (N : Number) where
  chosen_target_lem :
      (self : Text) (cached : Option CachedOwner) (route : Option WorkerRoute)
      (workers : List (WorkerRecord N))
      → chosen_target N self cached route workers ≡ owner_or_self N self route workers
  unfolding has_active_owner
  chosen_target_lem self none route workers = refl
  chosen_target_lem self (some cached) none workers = refl
  chosen_target_lem self (some cached) (some route) workers =
      let same = eqb_sound route.worker_id cached.worker_id in
      elim (Bool-cases (eqb route.worker_id cached.worker_id)) [
        | inl t ↦
            let e = same t in ground (arith, e, ap (λ i. anyb (λ w. eqb w.worker_id i) workers) e)
        | inr f ↦ ground arith
      ]

  length-follow-le :
      (c : OwnerCache) (topic_key : Text) (route : Option WorkerRoute) (target : Text)
      → length c.route_owner_cache ≤ c.route_owner_cache_max
      → length (follow N c topic_key route target).route_owner_cache ≤ c.route_owner_cache_max
  unfolding touch_route_owner_cache
  length-follow-le c topic_key none target h =
      omega (arith, length-delete-le topic_key c.route_owner_cache)
  length-follow-le c topic_key (some route) target h = ground (
    arith,
    length-delete-le topic_key c.route_owner_cache,
    length-evict_oldest-le c.route_owner_cache_max (
        set topic_key (record { worker_id = route.worker_id; generation = route.generation })
          (delete topic_key c.route_owner_cache)),
  )

  -- The target of a publication is the route's owner if that is a live worker, and else the tab's own
  -- worker, whatever the cache holds; and a cache within its cap stays within it.
  pub resolve_publish_target-owner_or_self :
      (c : OwnerCache) (self topic_key : Text) (workers : List (WorkerRecord N))
      (route : Option WorkerRoute)
      → length c.route_owner_cache ≤ c.route_owner_cache_max
      → let r = resolve_publish_target N c self topic_key workers route in
        (r.1 ≡ owner_or_self N self route workers)
        × (length r.0.route_owner_cache ≤ c.route_owner_cache_max)
  unfolding resolve_publish_target
  resolve_publish_target-owner_or_self c self topic_key workers route h = (
    chosen_target_lem self (get topic_key c.route_owner_cache) route workers,
    length-follow-le _ topic_key route _ h,
  )

get-forget_first :
    (topic_key : Text) (assigned known : JsMap Text Text) (k : Text)
    → (eqb k topic_key || has k assigned) ≡ true
    → get k (forget_first topic_key assigned known) ≡ get k known
unfolding forget_first get
get-forget_first topic_key assigned [] k h = refl
get-forget_first topic_key assigned ((candidate, topic) ∷ known) k h =
    elim (text_has_eq.dec candidate k) [
      | yes q ↦ ground (
        arith,
        get-forget_first topic_key assigned known k h,
        ap (λ i. eqb i topic_key || has i assigned) q,
      )
      | no q ↦ ground (arith, get-forget_first topic_key assigned known k h)
    ]

-- A topic that is remembered can be looked up by its key at once, and remembering it forgets no topic
-- that is assigned to this worker.
pub remember_topic-keeps :
    (assigned known : JsMap Text Text) (topic_key topic k : Text)
    → has k assigned ≡ true
    → (get topic_key (remember_topic assigned known topic_key topic) ≡ some topic)
      × (get k (remember_topic assigned known topic_key topic) ≡ get k (set topic_key topic known))
unfolding remember_topic
remember_topic-keeps assigned known topic_key topic k h =
    let known' = set topic_key topic known in
    (
      ground (
        arith,
        get-forget_first topic_key assigned known' topic_key,
        eqb_refl topic_key,
        get-set_self topic_key topic known,
      ),
      ground (arith, get-forget_first topic_key assigned known' k),
    )
