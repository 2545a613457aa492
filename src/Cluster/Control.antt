-- ===== src/Cluster/Control.antt =====
-- src/core/cluster.ts: `writeRecord`, `sampleThroughput`, `recordTraffic`, `refreshRole`,
-- `updateLoad`, `sendControl`, `broadcastEvent` and the public queries of `WorkerClusterRuntime`.
use cross_tab_worker_databus.Base.{
  ℕ, ◌+◌, ◌-◌, Bool, true, false, not, ◌&&◌, ◌||◌, Option, none, some, List, leb, ◌==◌,
  if◌then◌else◌, is_some, length, anyb, nat_has_eq,
}
use cross_tab_worker_databus.Base.JsMap.{has, set, delete}
use cross_tab_worker_databus.Base.JsString.{Text, text_has_eq, eqb}
use cross_tab_worker_databus.Base.Number.{Number}
use cross_tab_worker_databus.Types.{
  WorkerRecord, WorkerRoute, WorkerRole, ThroughputSample, WorkerStatus, ControlAction,
}
use cross_tab_worker_databus.Codec.Hash.{create_opaque_key}
use cross_tab_worker_databus.Routing.Select.{select_active_workers}
use cross_tab_worker_databus.Routing.Topics.{topic_matches_pattern}
use cross_tab_worker_databus.Cluster.Frames.{
  Frame, Metadata, publishing, control, event, registry, on_control,
}
use cross_tab_worker_databus.Cluster.Runtime.{
  Runtime, Window, log, sent, post, with_workers, read_route, confirm,
}

abbrev is_publish : ControlAction → Bool
is_publish ControlAction.publish = true
is_publish ControlAction.subscribe = false
is_publish ControlAction.unsubscribe = false

abbrev pub role_eqb : WorkerRole → WorkerRole → Bool
role_eqb WorkerRole.active WorkerRole.active = true
role_eqb WorkerRole.standby WorkerRole.standby = true
role_eqb _ _ = false

abbrev pub status_eqb : WorkerStatus → WorkerStatus → Bool
status_eqb WorkerStatus.connecting WorkerStatus.connecting = true
status_eqb WorkerStatus.connected WorkerStatus.connected = true
status_eqb WorkerStatus.disconnected WorkerStatus.disconnected = true
status_eqb WorkerStatus.error WorkerStatus.error = true
status_eqb _ _ = false

abbrev pub routed_to : Text → Option WorkerRoute → Bool
routed_to self none = false
routed_to self (some route) = eqb route.worker_id self

module _ {D : Type 0} where
  abbrev pub control_frame :
      Text → ControlAction → Text → Text → Option D → Option Metadata → Frame D
  control_frame target action topic topic_key payload metadata =
      control target action topic topic_key (publishing payload metadata)

module _ {N : Number} where
  open N use {of_nat}

  -- `sampleThroughput`: the window that is left, and the sample.
  unfoldable pub sample_throughput : ℕ → ℕ → Window → Window × Option (ThroughputSample N)
  sample_throughput interval now w =
      if w.started_at == 0
      then (record w { started_at = now }, none)
      else if leb now w.started_at
      then (w, none)
      else (
        record { started_at = now; message_count = 0; byte_count = 0 },
        some (record {
          window_ms = of_nat (now - w.started_at);
          message_count = of_nat w.message_count;
          byte_count = of_nat w.byte_count;
          overrun_ms = of_nat (now - w.started_at - interval);
          sampled_at = of_nat now;
        }),
      )

  abbrev pub with_sample : Option (ThroughputSample N) → WorkerRecord N → WorkerRecord N
  with_sample none r = r
  with_sample (some sample) r = record r { throughput = some sample }

abbrev pub matches_other : Text → Text → Bool
matches_other topic pattern = not (eqb pattern topic) && topic_matches_pattern pattern topic

module _ {N : Number} {D : Type 0} where
  open N use {of_nat, is_zero, sub}

  unfoldable pub notify_registry : Runtime N D → Runtime N D
  notify_registry s = post registry s

  -- `recordTraffic`, where `bytes` is what `approximatePayloadBytes` gives for the payload.
  unfoldable pub record_traffic : ℕ → Runtime N D → Runtime N D
  record_traffic bytes s =
      if is_some s.config.load_weighting
      then record s {
        throughput_window = record s.throughput_window {
          message_count = s.throughput_window.message_count + 1;
          byte_count = s.throughput_window.byte_count + bytes;
        };
      }
      else s

  -- The record with its heartbeat, and the sample if loads are weighted.
  unfoldable pub refresh_record : Runtime N D → Runtime N D
  refresh_record s =
      let w =
        sample_throughput s.config.heartbeat_interval_ms s.last_finite_now s.throughput_window in
      let weighted = is_some s.config.load_weighting in
      let beating = record s.current_record { heartbeat_at = s.last_finite_now } in
      record s {
        throughput_window = if weighted then w.0 else s.throughput_window;
        current_record = if weighted then with_sample w.1 beating else beating;
      }

  unfoldable pub store_record : Runtime N D → Runtime N D
  store_record s =
      if s.storage
      then with_workers (set s.config.worker_id s.current_record s.store.workers) s
      else s

  unfoldable pub write_record : Bool → Runtime N D → Runtime N D
  write_record notify s =
      let t = store_record (refresh_record s) in if notify then notify_registry t else t

  abbrev pub is_active_among : Runtime N D → List (WorkerRecord N) → Bool
  is_active_among s workers =
      anyb (λ w. eqb w.worker_id s.config.worker_id)
        (select_active_workers N workers s.config.max_active_workers)

  abbrev pub role_among : Runtime N D → List (WorkerRecord N) → WorkerRole
  role_among s workers = if is_active_among s workers then WorkerRole.active else WorkerRole.standby

  -- `refreshRole`, whose result is whether the role changes.
  abbrev pub role_changes : List (WorkerRecord N) → Runtime N D → Bool
  role_changes workers s = not (role_eqb (role_among s workers) s.current_record.role)

  unfoldable pub refresh_role : List (WorkerRecord N) → Runtime N D → Runtime N D
  refresh_role workers s =
      if role_changes workers s
      then record s { current_record = record s.current_record { role = role_among s workers } }
      else s

  -- `load === this.currentRecord.load`.
  abbrev pub same_load : Runtime N D → Bool
  same_load s = is_zero (sub (of_nat (length s.assigned_topics)) s.current_record.load)

  abbrev pub with_load : Runtime N D → Runtime N D
  with_load s = record s {
    current_record = record s.current_record { load = of_nat (length s.assigned_topics) };
  }

  unfoldable pub update_load : Runtime N D → Runtime N D
  update_load s =
      if same_load s then s else if s.started then write_record true (with_load s) else with_load s

  -- The assignment that a control action makes where it arrives.
  unfoldable pub assign : Text → Text → Runtime N D → Runtime N D
  assign topic_key topic s =
      confirm topic_key (record s { assigned_topics = set topic_key topic s.assigned_topics })

  abbrev pub unassign : Text → Runtime N D → Runtime N D
  unassign topic_key s = record s { assigned_topics = delete topic_key s.assigned_topics }

  abbrev pub take_control : ControlAction → Text → Text → Runtime N D → Runtime N D
  take_control ControlAction.subscribe topic topic_key s = assign topic_key topic s
  take_control ControlAction.unsubscribe topic topic_key s = unassign topic_key s
  take_control ControlAction.publish topic topic_key s = s

  -- The call of the handler, and the load that follows it.
  unfoldable pub tell_control :
      ControlAction → Text → Option D → Option Metadata → Runtime N D → Runtime N D
  tell_control action topic payload metadata s =
      let told = log (on_control action topic payload metadata) s in
      if is_publish action then told else update_load told

  unfoldable pub send_control :
      Text → ControlAction → Text → Text → Option D → Option Metadata → Runtime N D → Runtime N D
  send_control target action topic topic_key payload metadata s =
      if eqb target s.config.worker_id
      then tell_control action topic payload metadata (take_control action topic topic_key s)
      else post (control_frame target action topic topic_key payload metadata) s

  -- The result of `sendControl`.
  abbrev pub control_sent :
      Text → ControlAction → Text → Text → Option D → Option Metadata → Runtime N D → Bool
  control_sent target action topic topic_key payload metadata s =
      eqb target s.config.worker_id
      || sent s (control_frame target action topic topic_key payload metadata)

  abbrev pub or_own : Runtime N D → Option Text → Text
  or_own s none = s.config.tab_id
  or_own s (some tab_id) = tab_id

  unfoldable pub broadcast_event : Text → D → ℕ → Option Text → Runtime N D → Runtime N D
  broadcast_event event_type payload bytes origin s =
      post (event event_type payload (some (or_own s origin))) (record_traffic bytes s)

  abbrev pub routed_here : Runtime N D → Option WorkerRoute → Bool
  routed_here s route = routed_to s.config.worker_id route

  unfoldable pub is_assigned : Runtime N D → Text → Bool
  is_assigned s topic =
      has (create_opaque_key topic) s.assigned_topics
      || anyb (λ e. matches_other topic e.1) s.assigned_topics
      || routed_here s (read_route s (create_opaque_key topic))

  unfoldable pub has_local_subscriber : Runtime N D → Text → Bool
  has_local_subscriber s topic =
      has topic s.subscribed_topics || anyb (λ e. matches_other topic e.0) s.subscribed_topics

  unfoldable pub set_status : WorkerStatus → Runtime N D → Runtime N D
  set_status status s =
      let t = record s { current_record = record s.current_record { status = status } } in
      if status_eqb s.current_record.status status
      then s
      else if s.started
      then write_record true t
      else t
