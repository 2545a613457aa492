-- ===== src/Tests/Runtime.antt =====
-- Runs of the runtime of src/core/cluster.ts.
use cross_tab_worker_databus.Base.{
  ℕ, ◌+◌, ◌≡◌, refl, ap, ◌⊎◌, true, false, none, some, [], ◌∷◌, arith, nat_has_eq,
}
use cross_tab_worker_databus.Base.JsMap.{get, has, set, get-set_self}
use cross_tab_worker_databus.Base.JsString.{Text, text, text_has_eq, eqb}
use cross_tab_worker_databus.Base.Number.{diff_number}
use cross_tab_worker_databus.Types.{WorkerRecord, WorkerRoute, TabVisibility, ControlAction}
use cross_tab_worker_databus.Codec.Hash.{create_opaque_key}
use cross_tab_worker_databus.Routing.Select.{has_active_owner, select_active_workers}
use cross_tab_worker_databus.Cluster.Frames.{control}
use cross_tab_worker_databus.Cluster.Runtime.{
  Config, Store, Runtime, live_workers, post, write_route,
}
use cross_tab_worker_databus.Cluster.Control.{routed_here}
use cross_tab_worker_databus.Cluster.Frames.{no_publishing}
use cross_tab_worker_databus.Cluster.Passes.{reconcile, reconcile_workers}
use cross_tab_worker_databus.Cluster.Tasks.{Task, run_task, message_task, init}
use cross_tab_worker_databus.Cluster.Coherence.{IsCoherent}
use cross_tab_worker_databus.Cluster.Coherence.Tasks.{run_task-IsCoherent}
use cross_tab_worker_databus.Cluster.Registry.{build_route_record, read_workers}
use cross_tab_worker_databus.Cluster.Frames.{route_released}
use cross_tab_worker_databus.Cluster.Runtime.{with_routes}
use cross_tab_worker_databus.Cluster.Control.{routed_to}
use cross_tab_worker_databus.Cluster.Handoff.{move_route}
use cross_tab_worker_databus.Cluster.Inbox.{
  handle_control_message, handle_route_released_message, handle_message,
}
use cross_tab_worker_databus.Cluster.Lifecycle.{pause}
use cross_tab_worker_databus.Cluster.Authority.{Assignment, handle_control_message-Assignment}
use cross_tab_worker_databus.Cluster.Release.{IsReleased, handle_route_released_message-IsReleased}
use cross_tab_worker_databus.Cluster.Handover.{move_route-arrives}
use cross_tab_worker_databus.Cluster.Claiming.{claimed, rounds, subscribe-claims}
use cross_tab_worker_databus.Cluster.Claims.{subscribe}
use cross_tab_worker_databus.Routing.SelectLaws.{IsLeastOf}
use cross_tab_worker_databus.Cluster.Pausing.{pause-Departed}
use cross_tab_worker_databus.Cluster.Settled.Reconciled.{reconcile-Settled}

abbrev config : Config diff_number ℕ
config = record {
  tab_id = text "t1";
  worker_id = text "w1";
  max_active_workers = 3;
  heartbeat_interval_ms = 3000;
  worker_ttl_ms = 10000;
  load_weighting = none;
  batches = false;
  posts = λ before frame. true;
  discards = λ before store. store;
}

abbrev empty_store : Store diff_number
empty_store = record { workers = []; routes = []; subscribers = [] }

-- A started tab that subscribes to a topic.
abbrev tab : Runtime diff_number ℕ
tab = record (init config true empty_store TabVisibility.visible 256 (some 1000)) {
  started = true;
  channel = true;
  subscribed_topics = (text "news", tt) ∷ [];
}

-- A frame that some script posts.
abbrev forged : Task diff_number ℕ
forged =
    message_task (text "w2")
      (control (text "w1") ControlAction.subscribe (text "news") (text "other") no_publishing)

run_task-IsCoherent_example : IsCoherent (run_task (some 2000) forged tab)
unfolding init
run_task-IsCoherent_example =
    run_task-IsCoherent (some 2000) forged tab (λ before store v. v) ((tt, tt), tt, tt)

reconcile-Settled_example :
    let t = reconcile tab in
    let workers = (reconcile_workers tab).1 in
    ((topic : Text)
      → has topic tab.subscribed_topics ≡ true
      → has_active_owner diff_number (get (create_opaque_key topic) t.store.routes) workers ≡ true)
    × ((key : Text)
        → has key t.assigned_topics ≡ true
        → routed_here t (get key t.store.routes) ≡ true)
unfolding init
reconcile-Settled_example = reconcile-Settled tab refl refl refl (omega arith)

abbrev news_key : Text
news_key = create_opaque_key (text "news")

handle_control_message-Assignment_example :
    Assignment
      (text "w1")
      (text "w1")
      ControlAction.subscribe
      (text "news")
      news_key
      (get news_key [])
      []
      (handle_control_message
        (text "w1")
        ControlAction.subscribe
        (text "news")
        news_key
        no_publishing
        tab).assigned_topics
unfolding init
handle_control_message-Assignment_example =
    handle_control_message-Assignment (text "w1") ControlAction.subscribe (text "news") news_key
      no_publishing tab refl

handle_route_released_message-IsReleased_example :
    let t = handle_route_released_message (text "w2") (text "w1") (text "news") news_key 2 tab in
    (t ≡ tab)
    ⊎ ((text "w1" ≡ tab.config.worker_id)
        × (create_opaque_key (text "news") ≡ news_key)
        × IsReleased tab.config.worker_id (text "w2") 2 (get news_key tab.store.routes)
        × (t.assigned_topics ≡ set news_key (text "news") tab.assigned_topics))
unfolding init
handle_route_released_message-IsReleased_example =
    handle_route_released_message-IsReleased (text "w2") (text "w1") (text "news") news_key 2 tab
      refl

-- The tab of another worker, which reads the records of the first after it has handed a topic off.
abbrev other_config : Config diff_number ℕ
other_config = record config { tab_id = text "t2"; worker_id = text "w2" }

abbrev new_owner : WorkerRecord diff_number
new_owner =
    (init other_config true empty_store TabVisibility.visible 256 (some 1000)).current_record

other_tab : Runtime diff_number ℕ
other_tab = record (init other_config true empty_store TabVisibility.visible 256 (some 1500)) {
  store = (move_route news_key (text "news") 2 new_owner tab).store;
}

move_route-arrives_example :
    let u =
      handle_message (text "w1") (route_released (text "w2") (text "news") news_key 2) other_tab in
    (get news_key u.assigned_topics ≡ some (text "news"))
    × (get news_key u.store.routes
        ≡ some
            (record (build_route_record news_key
              (text "w2")
              (text "t2")
              (some (text "w1"))
              2
              1000) { confirmed_at = some 1500 }))
unfolding init other_tab move_route post write_route
move_route-arrives_example =
    move_route-arrives news_key (text "news") 2 new_owner tab other_tab
      (route_released (text "w2") (text "news") news_key 2) refl refl refl refl refl refl refl refl

-- A tab that owns its topic.
abbrev owning : Runtime diff_number ℕ
owning =
    let route = build_route_record news_key (text "w1") (text "t1") none 1 500 in
    record (with_routes ((news_key, route) ∷ []) tab) {
      assigned_topics = (news_key, text "news") ∷ [];
    }

pause-Departed_example :
    let t = pause owning in
    (t.channel ≡ false)
    × (t.assigned_topics ≡ [])
    × (get (text "w1") t.store.workers ≡ none)
    × ((key : Text)
        → has key owning.assigned_topics ≡ true
        → routed_to (text "w1") (get key t.store.routes) ≡ false)
unfolding init
pause-Departed_example = pause-Departed owning refl refl (omega arith) (λ before store. refl)

-- A tab that finds the route of a worker that has gone.
abbrev gone : WorkerRoute
gone = build_route_record news_key (text "w9") (text "t9") none 7 500

abbrev rejoining : Runtime diff_number ℕ
rejoining = with_routes (set news_key gone []) tab

rejoining-dead :
    has_active_owner diff_number (get news_key rejoining.store.routes) (live_workers rejoining).1
    ≡ false
unfolding init live_workers read_workers has_active_owner
rejoining-dead =
    ap (λ o. has_active_owner diff_number o (live_workers rejoining).1)
      (get-set_self news_key gone [])

subscribe-claims_example :
    (owner : WorkerRecord diff_number) × (IsLeastOf diff_number none
        (select_active_workers diff_number (live_workers rejoining).1 3)
        (some owner)
      × ((subscribe (text "news") rejoining).0.store.routes
          ≡ set news_key
              (claimed news_key
                (rounds (get news_key (set news_key gone [])) + 1)
                owner
                (text "w1")
                1000)
              (set news_key gone []))
      × ((subscribe (text "news") rejoining).1 ≡ eqb owner.worker_id (text "w1")))
unfolding init
subscribe-claims_example =
    subscribe-claims (text "news") rejoining refl refl refl (omega arith) rejoining-dead
