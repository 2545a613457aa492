-- ===== src/Cluster/Runtime.antt =====
-- src/core/cluster.ts: the state of `WorkerClusterRuntime`, and its reads and writes of the shared
-- records. A task of the event loop runs at one instant, the last finite reading of the clock.
use cross_tab_worker_databus.Base.{
  ℕ, Bool, not, ◌&&◌, Option, none, some, List, [], ◌∷◌, ◌++◌, if◌then◌else◌, filterb, nat_has_eq,
}
use cross_tab_worker_databus.Base.JsMap.{JsMap, get, has, set, delete}
use cross_tab_worker_databus.Base.JsString.{Text, text_has_eq, eqb}
use cross_tab_worker_databus.Base.Number.{Number}
use cross_tab_worker_databus.Types.{WorkerRecord, WorkerRoute, LoadWeightingOptions}
use cross_tab_worker_databus.Codec.Hash.{create_opaque_key}
use cross_tab_worker_databus.Routing.Topics.{is_empty}
use cross_tab_worker_databus.Cluster.Cache.{OwnerCache, remember_topic}
use cross_tab_worker_databus.Cluster.Registry.{
  StoredSubscriber, read_workers, read_subscriber_ids, build_route_record, confirm_route,
}
use cross_tab_worker_databus.Cluster.Frames.{Frame, Effect, Operation, posted, on_diagnostic}

module _ (N : Number) where
  -- What reads of the storage see.
  pub record Store : Type 0 where
    pub workers : JsMap Text (WorkerRecord N)
    pub routes : JsMap Text WorkerRoute
    pub subscribers : List StoredSubscriber

  module _ (D : Type 0) where
    -- `posts` says whether the channel takes a frame, after what has happened before. `discards` gives
    -- what reads see once the batching writer has dropped the writes that it could not flush.
    pub record Config : Type 0 where
      pub tab_id : Text
      pub worker_id : Text
      pub max_active_workers : ℕ
      pub heartbeat_interval_ms : ℕ
      pub worker_ttl_ms : ℕ
      pub load_weighting : Option (LoadWeightingOptions N)
      pub batches : Bool
      pub posts : List (Effect D) → Frame D → Bool
      pub discards : List (Effect D) → Store → Store

pub record Window : Type 0 where
  pub started_at : ℕ
  pub message_count : ℕ
  pub byte_count : ℕ

pub record Runtime (N : Number) (D : Type 0) : Type 0 where
  pub config : Config N D
  pub storage : Bool
  pub store : Store N
  pub last_finite_now : ℕ
  pub throughput_window : Window
  pub subscribed_topics : JsMap Text (Unit {0})
  pub assigned_topics : JsMap Text Text
  pub owner_cache : OwnerCache
  pub unknown_message_count : ℕ
  pub last_unknown_message_type : Option Text
  pub known_topics : JsMap Text Text
  pub channel : Bool
  pub heartbeat : Bool
  pub started : Bool
  pub suspended : Bool
  pub lifecycle_listening : Bool
  pub lifecycle_generation : ℕ
  pub current_record : WorkerRecord N
  pub effects : List (Effect D)

-- `if (topic)`.
abbrev pub nonempty : Option Text → Option Text
nonempty none = none
nonempty (some topic) = if is_empty topic then none else some topic

abbrev pub is_record_of : Text → Text → StoredSubscriber → Bool
is_record_of topic_key owner_id r = eqb r.topic_key topic_key && eqb r.owner_id owner_id

-- `setItem` keeps the place of a key that is there.
unfoldable pub put_subscriber : StoredSubscriber → List StoredSubscriber → List StoredSubscriber
put_subscriber r [] = r ∷ []
put_subscriber r (x ∷ xs) =
    if is_record_of r.topic_key r.owner_id x then r ∷ xs else x ∷ put_subscriber r xs

module _ {N : Number} {D : Type 0} where
  open N use {of_nat, is_zero, sub}

  -- `nowMs`, at the start of a task: a reading that is not finite is no reading.
  unfoldable pub now_ms : Option ℕ → Runtime N D → Runtime N D
  now_ms none s = s
  now_ms (some reading) s = record s { last_finite_now = reading }

  abbrev pub log : Effect D → Runtime N D → Runtime N D
  log e s = record s { effects = s.effects ++ e ∷ [] }

  abbrev pub sent : Runtime N D → Frame D → Bool
  sent s frame = s.channel && s.config.posts s.effects frame

  -- `send`, whose result is `sent`.
  unfoldable pub post : Frame D → Runtime N D → Runtime N D
  post frame s = if sent s frame then log (posted frame) s else s

  abbrev pub with_routes : JsMap Text WorkerRoute → Runtime N D → Runtime N D
  with_routes routes s = record s { store = record s.store { routes = routes } }

  abbrev pub with_workers : JsMap Text (WorkerRecord N) → Runtime N D → Runtime N D
  with_workers workers s = record s { store = record s.store { workers = workers } }

  abbrev pub with_subscribers : List StoredSubscriber → Runtime N D → Runtime N D
  with_subscribers subscribers s = record s { store = record s.store { subscribers = subscribers } }

  -- The workers, and the runtime with the expired records removed.
  unfoldable pub live_workers : Runtime N D → Runtime N D × List (WorkerRecord N)
  live_workers s =
      let r =
        read_workers N s.config.worker_id s.config.worker_ttl_ms s.last_finite_now s.started
          s.current_record s.store.workers in
      (
        with_workers (if s.storage then r.0 else s.store.workers) s,
        if s.storage then r.1 else s.current_record ∷ [],
      )

  abbrev pub local_route : Runtime N D → Text → Option Text → Option WorkerRoute
  local_route s topic_key none = none
  local_route s topic_key (some topic) =
      if not (has topic s.subscribed_topics) && not (has topic_key s.assigned_topics)
      then none
      else some
          (build_route_record topic_key s.config.worker_id s.config.tab_id none 1 s.last_finite_now)

  abbrev pub build_local_route : Runtime N D → Text → Option WorkerRoute
  build_local_route s topic_key = local_route s topic_key (nonempty (get topic_key s.known_topics))

  unfoldable pub read_route : Runtime N D → Text → Option WorkerRoute
  read_route s topic_key =
      if s.storage then get topic_key s.store.routes else build_local_route s topic_key

  unfoldable pub write_route : Text → WorkerRecord N → Option Text → ℕ → Runtime N D → Runtime N D
  write_route topic_key owner handoff_from generation s =
      if s.storage
      then with_routes
          (set topic_key
            (build_route_record topic_key owner.worker_id owner.tab_id handoff_from generation
              s.last_finite_now)
            s.store.routes)
          s
      else s

  abbrev pub remove_route : Text → Runtime N D → Runtime N D
  remove_route topic_key s =
      if s.storage then with_routes (delete topic_key s.store.routes) s else s

  abbrev pub diagnose : Operation → Option Text → Runtime N D → Runtime N D
  diagnose operation none s = s
  diagnose operation (some topic) s = log (on_diagnostic operation topic) s

  -- `confirmRoute`.
  unfoldable pub confirm : Text → Runtime N D → Runtime N D
  confirm topic_key s =
      let r = confirm_route s.config.worker_id s.last_finite_now topic_key s.store.routes in
      if s.storage
      then (if r.1
          then diagnose Operation.route_ack (nonempty (get topic_key s.known_topics))
              (with_routes r.0 s)
          else s)
      else s

  unfoldable pub write_subscriber : Text → Runtime N D → Runtime N D
  write_subscriber topic_key s =
      if s.storage
      then with_subscribers
          (put_subscriber
            (record {
              topic_key = topic_key;
              owner_id = s.config.worker_id;
              record_of = record {
                tab_id = s.config.tab_id;
                worker_id = some s.config.worker_id;
                updated_at = s.last_finite_now;
              };
            })
            s.store.subscribers)
          s
      else s

  unfoldable pub remove_subscriber : Text → Runtime N D → Runtime N D
  remove_subscriber topic_key s =
      if s.storage
      then with_subscribers
          (filterb (λ r. not (is_record_of topic_key s.config.worker_id r)) s.store.subscribers) s
      else s

  abbrev pub local_ids : Runtime N D → Option Text → JsMap Text (Unit {0}) × JsMap Text (Unit {0})
  local_ids s none = ([], [])
  local_ids s (some topic) =
      if has topic s.subscribed_topics
      then (set s.config.tab_id tt [], set s.config.worker_id tt [])
      else ([], [])

  -- The runtime without the dead records, the tabs and the workers that subscribe.
  unfoldable pub subscriber_ids :
      Text
      → List (WorkerRecord N)
      → Runtime N D
      → Runtime N D × JsMap Text (Unit {0}) × JsMap Text (Unit {0})
  subscriber_ids topic_key workers s =
      let r = read_subscriber_ids N topic_key workers s.store.subscribers in
      let alone = local_ids s (nonempty (get topic_key s.known_topics)) in
      (
        with_subscribers (if s.storage then r.0 else s.store.subscribers) s,
        if s.storage then r.1 else alone.0,
        if s.storage then r.2 else alone.1,
      )

  -- `rememberTopic`; the key is `createOpaqueKey` of the topic.
  unfoldable pub remember : Text → Runtime N D → Runtime N D
  remember topic s = record s {
    known_topics = remember_topic s.assigned_topics s.known_topics (create_opaque_key topic) topic;
  }
