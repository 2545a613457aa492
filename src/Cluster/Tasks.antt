-- ===== src/Cluster/Tasks.antt =====
-- src/core/cluster.ts: the tasks of a `WorkerClusterRuntime`, and a new one.
use cross_tab_worker_databus.Base.{
  ℕ, Bool, false, Option, none, some, List, [], if◌then◌else◌, nat_has_eq,
}
use cross_tab_worker_databus.Base.JsString.{Text, text_has_eq}
use cross_tab_worker_databus.Base.Number.{Number}
use cross_tab_worker_databus.Types.{WorkerRole, WorkerStatus, TabVisibility}
use cross_tab_worker_databus.Cluster.Frames.{Frame, Item, Metadata}
use cross_tab_worker_databus.Cluster.Runtime.{Config, Store, Runtime, now_ms}
use cross_tab_worker_databus.Cluster.Control.{broadcast_event, set_status}
use cross_tab_worker_databus.Cluster.Claims.{subscribe, unsubscribe, publish, publish_batch}
use cross_tab_worker_databus.Cluster.Inbox.{handle_message}
use cross_tab_worker_databus.Cluster.Lifecycle.{
  start, stop, pause, handle_page_show, handle_visibility_change, tick,
}

module _ {N : Number} {D : Type 0} where
  -- A page event reaches a runtime that listens, a frame one whose channel is open.
  abbrev pub heard : Bool → Runtime N D → Runtime N D → Runtime N D
  heard listening t s = if listening then t else s

-- The tasks: calls of the public methods, page events, heartbeats, and frames that arrive.
pub data Task (N : Number) (D : Type 0) : Type 0 where
  start_task : Bool → TabVisibility → Task N D
  stop_task page_hide : Task N D
  page_show : Bool → TabVisibility → Task N D
  visibility_change : TabVisibility → Task N D
  heartbeat_task : Task N D
  status_task : WorkerStatus → Task N D
  subscribe_task unsubscribe_task : Text → Task N D
  publish_task : Text → D → Option Metadata → Task N D
  publish_batch_task : Text → List (Item D) → Task N D
  broadcast_task : Text → D → ℕ → Option Text → Task N D
  message_task : Text → Frame D → Task N D

abbrev or_zero : Option ℕ → ℕ
or_zero none = 0
or_zero (some n) = n

module _ {N : Number} {D : Type 0} where
  open N use {of_nat}

  unfoldable pub perform : Task N D → Runtime N D → Runtime N D
  perform (start_task opens visibility) s = start opens visibility s
  perform stop_task s = stop s
  perform page_hide s = heard s.lifecycle_listening (pause s) s
  perform (page_show opens visibility) s =
      heard s.lifecycle_listening (handle_page_show opens visibility s) s
  perform (visibility_change visibility) s =
      heard s.lifecycle_listening (handle_visibility_change visibility s) s
  perform heartbeat_task s = tick s
  perform (status_task status) s = set_status status s
  perform (subscribe_task topic) s = (subscribe topic s).0
  perform (unsubscribe_task topic) s = unsubscribe topic s
  perform (publish_task topic payload metadata) s = (publish topic payload metadata s).0
  perform (publish_batch_task topic items) s = (publish_batch topic items s).0
  perform (broadcast_task event_type payload bytes origin) s =
      broadcast_event event_type payload bytes origin s
  perform (message_task source frame) s = heard s.channel (handle_message source frame s) s

  -- A task at its reading of the clock.
  unfoldable pub run_task : Option ℕ → Task N D → Runtime N D → Runtime N D
  run_task reading task s = perform task (now_ms reading s)

  -- The constructor's state; the ids are what the environment gives.
  unfoldable pub init : Config N D → Bool → Store N → TabVisibility → ℕ → Option ℕ → Runtime N D
  init config storage store visibility cap reading =
      let now = or_zero reading in
      record {
        config = config;
        storage = storage;
        store = store;
        last_finite_now = now;
        throughput_window = record { started_at = 0; message_count = 0; byte_count = 0 };
        subscribed_topics = [];
        assigned_topics = [];
        owner_cache = record {
          route_owner_cache = [];
          route_owner_cache_max = cap;
          route_owner_cache_hits = 0;
          route_owner_cache_misses = 0;
        };
        unknown_message_count = 0;
        last_unknown_message_type = none;
        known_topics = [];
        channel = false;
        heartbeat = false;
        started = false;
        suspended = false;
        lifecycle_listening = false;
        lifecycle_generation = 0;
        current_record = record {
          protocol_version = some 1;
          worker_id = config.worker_id;
          tab_id = config.tab_id;
          load = of_nat 0;
          throughput = none;
          role = WorkerRole.standby;
          status = WorkerStatus.connecting;
          visibility_state = visibility;
          heartbeat_at = now;
          registered_at = now;
        };
        effects = [];
      }
