-- ===== src/Cluster/Lifecycle.antt =====
-- src/core/cluster.ts: the life of a `WorkerClusterRuntime`, and its tasks. A handler that is called
-- does not call back into the runtime within the task.
use cross_tab_worker_databus.Base.{
  ◌+◌, Bool, true, false, ◌&&◌, ◌||◌, none, [], ◌∷◌, if◌then◌else◌, nat_has_eq,
}
use cross_tab_worker_databus.Base.JsMap.{JsMap, delete}
use cross_tab_worker_databus.Base.JsString.{Text, text_has_eq}
use cross_tab_worker_databus.Base.Number.{Number}
use cross_tab_worker_databus.Types.{TabVisibility, ControlAction}
use cross_tab_worker_databus.Codec.Hash.{create_opaque_key}
use cross_tab_worker_databus.Routing.Select.{is_visible}
use cross_tab_worker_databus.Cluster.Frames.{flushed, closed, on_suspend, on_resume}
use cross_tab_worker_databus.Cluster.Runtime.{
  Runtime, log, live_workers, with_workers, write_subscriber, remember,
}
use cross_tab_worker_databus.Cluster.Control.{
  notify_registry, send_control, write_record, refresh_role,
}
use cross_tab_worker_databus.Cluster.Claims.{release_subscription}
use cross_tab_worker_databus.Cluster.Handoff.{handoff_assigned_topics}
use cross_tab_worker_databus.Cluster.Passes.{reconcile}

abbrev pub same_visibility : TabVisibility → TabVisibility → Bool
same_visibility TabVisibility.visible TabVisibility.visible = true
same_visibility TabVisibility.hidden TabVisibility.hidden = true
same_visibility _ _ = false

module _ {N : Number} {D : Type 0} where
  open N use {of_nat}

  -- Without a channel there is no coordination.
  abbrev pub open_channel : Bool → Runtime N D → Runtime N D
  open_channel opens s = record s { channel = s.storage && opens; storage = s.storage && opens }

  abbrev pub register : TabVisibility → Runtime N D → Runtime N D
  register visibility s =
      let t = record s {
        current_record = record s.current_record {
          heartbeat_at = s.last_finite_now;
          registered_at = s.last_finite_now;
          visibility_state = visibility;
        };
      } in
      let read = live_workers t in write_record true (refresh_role read.1 read.0)

  unfoldable pub resubscribe_loop : JsMap Text (Unit {0}) → Runtime N D → Runtime N D
  resubscribe_loop [] s = s
  resubscribe_loop ((topic, u) ∷ topics) s =
      let t = remember topic s in
      let topic_key = create_opaque_key topic in
      resubscribe_loop topics (
        if t.storage
        then write_subscriber topic_key t
        else send_control t.config.worker_id ControlAction.subscribe topic topic_key none none t)

  abbrev pub resubscribe : Runtime N D → Runtime N D
  resubscribe s = resubscribe_loop s.subscribed_topics s

  -- `opens` says whether the environment gives a channel.
  unfoldable pub activate : Bool → TabVisibility → Runtime N D → Runtime N D
  activate opens visibility s =
      let t =
        reconcile
          (resubscribe (register visibility (open_channel opens (record s { started = true })))) in
      if s.started then s else record t { heartbeat = true }

  unfoldable pub start : Bool → TabVisibility → Runtime N D → Runtime N D
  start opens visibility s =
      let t = record s {
        lifecycle_generation = s.lifecycle_generation + 1;
        lifecycle_listening = true;
      } in
      if s.started
      then s
      else if is_visible visibility
      then activate opens visibility (record t { suspended = false })
      else log on_suspend (record t { suspended = true })

  unfoldable pub release_all : JsMap Text (Unit {0}) → Runtime N D → Runtime N D
  release_all [] s = s
  release_all ((topic, u) ∷ topics) s = release_all topics (release_subscription topic false s)

  -- The maps that are cleared.
  abbrev pub drop_assignments : Runtime N D → Runtime N D
  drop_assignments s = record s {
    assigned_topics = [];
    owner_cache = record s.owner_cache { route_owner_cache = [] };
  }

  abbrev pub remove_worker : Runtime N D → Runtime N D
  remove_worker s =
      if s.storage then with_workers (delete s.config.worker_id s.store.workers) s else s

  abbrev pub flush_storage : Runtime N D → Runtime N D
  flush_storage s = if s.storage then log flushed s else s

  -- `discardPending` of the writer, at the end of a pause.
  unfoldable pub discard_pending : Runtime N D → Runtime N D
  discard_pending s =
      if s.storage then record s { store = s.config.discards s.effects s.store } else s

  -- The close itself is queued behind the frames that were posted.
  abbrev pub close_channel : Runtime N D → Runtime N D
  close_channel s =
      let t = log on_suspend (record s { channel = false }) in if s.channel then log closed t else t

  unfoldable pub leave : Runtime N D → Runtime N D
  leave s = close_channel (
      discard_pending (
        notify_registry (
          flush_storage (
            remove_worker
              (drop_assignments (handoff_assigned_topics (release_all s.subscribed_topics s)))))))

  unfoldable pub pause : Runtime N D → Runtime N D
  pause s =
      let t = record s { lifecycle_generation = s.lifecycle_generation + 1 } in
      if s.started
      then leave (record t { started = false; suspended = true; heartbeat = false })
      else record t { suspended = s.suspended || s.lifecycle_listening }

  abbrev pub clear_all : Runtime N D → Runtime N D
  clear_all s = record s {
    lifecycle_listening = false;
    subscribed_topics = [];
    assigned_topics = [];
    owner_cache = record s.owner_cache { route_owner_cache = [] };
    known_topics = [];
    suspended = false;
  }

  unfoldable pub stop : Runtime N D → Runtime N D
  stop s =
      let t = record s { lifecycle_generation = s.lifecycle_generation + 1 } in
      if s.started || s.suspended || s.lifecycle_listening
      then clear_all (flush_storage (pause t))
      else t

  unfoldable pub handle_page_show : Bool → TabVisibility → Runtime N D → Runtime N D
  handle_page_show opens visibility s =
      let t = record s { lifecycle_generation = s.lifecycle_generation + 1; suspended = false } in
      if s.suspended then activate opens visibility (log on_resume t) else s

  unfoldable pub handle_visibility_change : TabVisibility → Runtime N D → Runtime N D
  handle_visibility_change visibility s =
      let t = record s {
        current_record = record s.current_record { visibility_state = visibility };
      } in
      if same_visibility visibility s.current_record.visibility_state
      then s
      else if s.started
      then reconcile (write_record true t)
      else t

  unfoldable pub tick : Runtime N D → Runtime N D
  tick s = if s.heartbeat then reconcile (write_record false s) else s
