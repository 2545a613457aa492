-- ===== src/Cluster/Cache.antt =====
-- src/core/cluster.ts: `touchRouteOwnerCache`, `resolvePublishTarget` and `rememberTopic`.
use cross_tab_worker_databus.Base.{
  ℕ, ◌+◌, Bool, false, ◌&&◌, ◌||◌, Option, none, some, List, [], ◌∷◌, ltb, leb, ◌==◌, if◌then◌else◌,
  length, anyb, nat_has_eq,
}
use cross_tab_worker_databus.Base.JsMap.{JsMap, get, has, set, delete}
use cross_tab_worker_databus.Base.JsString.{Text, text_has_eq, eqb}
use cross_tab_worker_databus.Base.Number.{Number}
use cross_tab_worker_databus.Types.{WorkerRecord, WorkerRoute}
use cross_tab_worker_databus.Routing.Select.{has_active_owner}

pub record CachedOwner : Type 0 where
  pub worker_id : Text
  pub generation : ℕ

pub record OwnerCache : Type 0 where
  pub route_owner_cache : JsMap Text CachedOwner
  pub route_owner_cache_max : ℕ
  pub route_owner_cache_hits : ℕ
  pub route_owner_cache_misses : ℕ

-- The loop that deletes the oldest entries while the map is over its cap.
unfoldable pub evict_oldest : ℕ → JsMap Text CachedOwner → JsMap Text CachedOwner
evict_oldest cap [] = []
evict_oldest cap (e ∷ m) =
    let rest = evict_oldest cap m in if leb (length (e ∷ m)) cap then e ∷ m else rest

unfoldable pub touch_route_owner_cache : OwnerCache → Text → CachedOwner → OwnerCache
touch_route_owner_cache c topic_key value = record c {
  route_owner_cache =
      evict_oldest c.route_owner_cache_max
        (set topic_key value (delete topic_key c.route_owner_cache));
}

module _ (N : Number) where
  -- `cachedLive`.
  abbrev pub is_cached_live : Option CachedOwner → Option WorkerRoute → List (WorkerRecord N) → Bool
  is_cached_live none route workers = false
  is_cached_live (some cached) none workers = false
  is_cached_live (some cached) (some route) workers =
      (route.generation == cached.generation)
      && eqb route.worker_id cached.worker_id
      && anyb (λ w. eqb w.worker_id cached.worker_id) workers

  abbrev pub owner_or_self : Text → Option WorkerRoute → List (WorkerRecord N) → Text
  owner_or_self self none workers = self
  owner_or_self self (some route) workers =
      if has_active_owner N (some route) workers then route.worker_id else self

  abbrev pub chosen_target :
      Text → Option CachedOwner → Option WorkerRoute → List (WorkerRecord N) → Text
  chosen_target self none route workers = owner_or_self self route workers
  chosen_target self (some cached) route workers =
      if is_cached_live (some cached) route workers
      then cached.worker_id
      else owner_or_self self route workers

  -- The last statement but one: the cache follows the route that was used.
  abbrev pub follow : OwnerCache → Text → Option WorkerRoute → Text → OwnerCache
  follow c topic_key none target = record c {
    route_owner_cache = delete topic_key c.route_owner_cache;
  }
  follow c topic_key (some route) target =
      if eqb target route.worker_id
      then touch_route_owner_cache c topic_key
          (record { worker_id = route.worker_id; generation = route.generation })
      else record c { route_owner_cache = delete topic_key c.route_owner_cache }

  -- `workers` and `route` are what `readWorkers` and `readRoute` return.
  unfoldable pub resolve_publish_target :
      OwnerCache → Text → Text → List (WorkerRecord N) → Option WorkerRoute → OwnerCache × Text
  resolve_publish_target c self topic_key workers route =
      let cached = get topic_key c.route_owner_cache in
      let live = is_cached_live cached route workers in
      let counted = record c {
        route_owner_cache_hits =
            if live then c.route_owner_cache_hits + 1 else c.route_owner_cache_hits;
        route_owner_cache_misses =
            if live then c.route_owner_cache_misses else c.route_owner_cache_misses + 1;
      } in
      let target = chosen_target self cached route workers in
      (follow counted topic_key route target, target)

abbrev pub max_known_topics : ℕ
max_known_topics = 500

-- The first remembered topic that is neither the new one nor assigned.
unfoldable pub forget_first : Text → JsMap Text Text → JsMap Text Text → JsMap Text Text
forget_first topic_key assigned [] = []
forget_first topic_key assigned ((candidate, topic) ∷ known) =
    let rest = forget_first topic_key assigned known in
    if eqb candidate topic_key || has candidate assigned then (candidate, topic) ∷ rest else known

-- `rememberTopic`, with the key that `createOpaqueKey` gives for the topic.
unfoldable pub remember_topic : JsMap Text Text → JsMap Text Text → Text → Text → JsMap Text Text
remember_topic assigned known topic_key topic =
    let known' = set topic_key topic known in
    if ltb max_known_topics (length known') then forget_first topic_key assigned known' else known'
