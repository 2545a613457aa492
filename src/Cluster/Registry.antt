-- ===== src/Cluster/Registry.antt =====
-- src/core/cluster.ts: the registry that the tabs share through storage, where there is a storage:
-- `readWorkers`, `readSubscriberIds`, `buildRouteRecord`, `confirmRoute` and the cleanups. A record
-- stands in a table under what its storage key ends with; a record that is no JSON is not there.
use cross_tab_worker_databus.Base.{
  ℕ, ◌-◌, Bool, true, false, not, ◌&&◌, ◌||◌, Option, none, some, List, [], ◌∷◌, ◌++◌, map, ltb,
  if◌then◌else◌, is_some, length, filterb, anyb, nat_has_eq,
}
use cross_tab_worker_databus.Base.JsMap.{JsMap, get, set}
use cross_tab_worker_databus.Base.JsString.{Text, text_has_eq, eqb}
use cross_tab_worker_databus.Base.Number.{Number}
use cross_tab_worker_databus.Types.{WorkerRecord, WorkerRoute, TopicSubscriberRecord}
use cross_tab_worker_databus.Routing.Topics.{is_empty}

-- A subscriber record with the topic key and the owner's id of its storage key.
pub record StoredSubscriber : Type 0 where
  pub topic_key : Text
  pub owner_id : Text
  pub record_of : TopicSubscriberRecord

-- `now - stamp > ttl`; a stamp in the future has not expired.
abbrev pub outlives : ℕ → ℕ → ℕ → Bool
outlives ttl now stamp = ltb ttl (now - stamp)

-- `isStaleHandoff`.
abbrev pub is_stale_handoff : ℕ → ℕ → WorkerRoute → Bool
is_stale_handoff ttl now route = outlives ttl now route.updated_at

module _ (N : Number) where
  abbrev pub is_kept : Text → ℕ → ℕ → Text × WorkerRecord N → Bool
  is_kept self ttl now e = eqb e.1.worker_id self || not (outlives ttl now e.1.heartbeat_at)

  -- The table that is left, and the workers; `current` is the tab's own record.
  unfoldable pub read_workers :
      Text
      → ℕ
      → ℕ
      → Bool
      → WorkerRecord N
      → JsMap Text (WorkerRecord N)
      → JsMap Text (WorkerRecord N) × List (WorkerRecord N)
  read_workers self ttl now started current table =
      let kept = filterb (is_kept self ttl now) table in
      let workers = map (λ e. e.1) kept in
      (
        kept,
        if started && not (anyb (λ w. eqb w.worker_id self) workers)
            then workers ++ current ∷ []
            else workers,
      )

  -- `isSubscriberRecordLive`.
  abbrev pub is_subscriber_record_live : List (WorkerRecord N) → TopicSubscriberRecord → Bool
  is_subscriber_record_live workers r = elim r.worker_id [
    | none ↦ anyb (λ w. eqb w.tab_id r.tab_id) workers
    | some id ↦ anyb (λ w. eqb w.worker_id id) workers
  ]

  abbrev pub is_live_of : List (WorkerRecord N) → Text → StoredSubscriber → Bool
  is_live_of workers topic_key s =
      eqb s.topic_key topic_key && is_subscriber_record_live workers s.record_of

  -- What is not a dead record of the topic.
  abbrev pub is_no_dead_of : List (WorkerRecord N) → Text → StoredSubscriber → Bool
  is_no_dead_of workers topic_key s =
      not (eqb s.topic_key topic_key) || is_subscriber_record_live workers s.record_of

  unfoldable pub add_ids :
      List StoredSubscriber
      → JsMap Text (Unit {0})
      → JsMap Text (Unit {0})
      → JsMap Text (Unit {0}) × JsMap Text (Unit {0})
  add_ids [] tab_ids worker_ids = (tab_ids, worker_ids)
  add_ids (s ∷ subscribers) tab_ids worker_ids =
      add_ids subscribers (set s.record_of.tab_id tt tab_ids)
        (elim s.record_of.worker_id [ none ↦ worker_ids | some id ↦ set id tt worker_ids ])

  -- The table that is left, and the ids of the topic's live subscribers.
  unfoldable pub read_subscriber_ids :
      Text
      → List (WorkerRecord N)
      → List StoredSubscriber
      → List StoredSubscriber × JsMap Text (Unit {0}) × JsMap Text (Unit {0})
  read_subscriber_ids topic_key workers table =
      let (tab_ids, worker_ids) = add_ids (filterb (is_live_of workers topic_key) table) [] [] in
      (filterb (is_no_dead_of workers topic_key) table, tab_ids, worker_ids)

  unfoldable pub cleanup_orphaned_subscribers :
      List (WorkerRecord N) → List StoredSubscriber → List StoredSubscriber
  cleanup_orphaned_subscribers workers = filterb λ s. is_subscriber_record_live workers s.record_of

  -- The loop over the routes of `cleanupOrphanedRoutes`: the routes and the subscribers that are left.
  unfoldable pub cleanup_orphaned_routes :
      ℕ
      → ℕ
      → List (WorkerRecord N)
      → JsMap Text WorkerRoute
      → List StoredSubscriber
      → JsMap Text WorkerRoute × List StoredSubscriber
  cleanup_orphaned_routes ttl now workers [] table = ([], table)
  cleanup_orphaned_routes ttl now workers (e ∷ routes) table =
      elim (outlives ttl now e.1.updated_at) [
        | false ↦
            let (rest, table') = cleanup_orphaned_routes ttl now workers routes table in
            (e ∷ rest, table')
        | true ↦
            let (left, tab_ids, worker_ids) = read_subscriber_ids e.1.topic_key workers table in
            let (rest, table') = cleanup_orphaned_routes ttl now workers routes left in
            (if ltb 0 (length tab_ids) then e ∷ rest else rest, table')
      ]

-- `handoffFromWorkerId ? { handoffFromWorkerId } : {}`.
abbrev pub named : Option Text → Option Text
named none = none
named (some id) = if is_empty id then none else some id

-- `buildRouteRecord`, from the owner's ids.
abbrev pub build_route_record : Text → Text → Text → Option Text → ℕ → ℕ → WorkerRoute
build_route_record topic_key worker_id tab_id handoff_from generation now = record {
  topic_key = topic_key;
  worker_id = worker_id;
  tab_id = tab_id;
  updated_at = now;
  generation = generation;
  handoff_from_worker_id = named handoff_from;
  confirmed_at = none;
}

abbrev pub confirm_found :
    Text → ℕ → Text → JsMap Text WorkerRoute → Option WorkerRoute → JsMap Text WorkerRoute × Bool
confirm_found self now topic_key routes none = (routes, false)
confirm_found self now topic_key routes (some route) =
    if not (eqb route.worker_id self) || is_some route.confirmed_at
    then (routes, false)
    else (set topic_key (record route { confirmed_at = some now }) routes, true)

-- `confirmRoute`, with the flag whether the route was confirmed now.
unfoldable pub confirm_route :
    Text → ℕ → Text → JsMap Text WorkerRoute → JsMap Text WorkerRoute × Bool
confirm_route self now topic_key routes =
    confirm_found self now topic_key routes (get topic_key routes)
