-- ===== src/Cluster/Coherence/Tasks.antt =====
-- About src/core/cluster.ts: every task of a runtime keeps it coherent.
use cross_tab_worker_databus.Base.{
  ℕ, ◌+◌, refl, Bool, true, false, Option, none, some, [], ◌∷◌, nat_has_eq,
}
use cross_tab_worker_databus.Base.JsMap.{JsMap}
use cross_tab_worker_databus.Base.JsString.{Text, text_has_eq}
use cross_tab_worker_databus.Base.Number.{Number}
use cross_tab_worker_databus.Types.{TabVisibility, ControlAction}
use cross_tab_worker_databus.Codec.Hash.{create_opaque_key}
use cross_tab_worker_databus.Routing.Select.{is_visible}
use cross_tab_worker_databus.Cluster.Frames.{on_resume}
use cross_tab_worker_databus.Cluster.Runtime.{Runtime, log, remember, now_ms}
use cross_tab_worker_databus.Cluster.Lifecycle.{
  open_channel, register, resubscribe_loop, activate, start, release_all, drop_assignments,
  remove_worker, flush_storage, discard_pending, close_channel, leave, pause, clear_all, stop,
  handle_page_show, same_visibility, handle_visibility_change, tick,
}
use cross_tab_worker_databus.Cluster.Tasks.{
  Task, heard, perform, run_task, start_task, stop_task, page_hide, page_show, visibility_change,
  heartbeat_task, status_task, subscribe_task, unsubscribe_task, publish_task, publish_batch_task,
  broadcast_task, message_task,
}
use cross_tab_worker_databus.Cluster.Coherence.Defs.{
  IsCoherent, Restores, Allowed, stay, Allowed-refl, ◌▷◌, Allowed-if, live_workers-Allowed,
  write_subscriber-Allowed, remember-Allowed,
}
use cross_tab_worker_databus.Cluster.Coherence.Control.{
  notify_registry-Allowed, write_record-Allowed, refresh_role-Allowed, send_control-Allowed,
  broadcast_event-Allowed, set_status-Allowed,
}
use cross_tab_worker_databus.Cluster.Coherence.Claims.{
  subscribe-Allowed, release_subscription-Allowed, unsubscribe-Allowed, publish-Allowed,
  publish_batch-Allowed,
}
use cross_tab_worker_databus.Cluster.Coherence.Handoff.{handoff_assigned_topics-Allowed}
use cross_tab_worker_databus.Cluster.Coherence.Passes.{reconcile-Allowed}
use cross_tab_worker_databus.Cluster.Coherence.Inbox.{handle_message-Allowed}

module _ {N : Number} {D : Type 0} where
  register-Allowed :
      (visibility : TabVisibility) (s : Runtime N D) → Allowed s (register visibility s)
  register-Allowed visibility s =
      let t = record s {
        current_record = record s.current_record {
          heartbeat_at = s.last_finite_now;
          registered_at = s.last_finite_now;
          visibility_state = visibility;
        };
      } in
      let f : Allowed s t = record { step = stay s } in
      f ▷ live_workers-Allowed t ▷ refresh_role-Allowed _ _ ▷ write_record-Allowed true _

  resubscribe_loop-Allowed :
      (topics : JsMap Text (Unit {0})) (s : Runtime N D) → Allowed s (resubscribe_loop topics s)
  unfolding resubscribe_loop
  resubscribe_loop-Allowed [] s = Allowed-refl s
  resubscribe_loop-Allowed ((topic, u) ∷ topics) s =
      let t = remember topic s in
      remember-Allowed topic s
      ▷ Allowed-if t.storage (write_subscriber-Allowed (create_opaque_key topic) t) (
          send_control-Allowed t.config.worker_id ControlAction.subscribe topic
            (create_opaque_key topic) none none t refl)
      ▷ resubscribe_loop-Allowed topics _

  activate-Allowed :
      (opens : Bool) (visibility : TabVisibility) (s : Runtime N D)
      → Allowed s (activate opens visibility s)
  unfolding activate
  activate-Allowed opens visibility s =
      let opening : Allowed s (open_channel opens (record s { started = true })) = record {
        step = stay s;
      } in
      let f =
        opening
        ▷ register-Allowed visibility _
        ▷ resubscribe_loop-Allowed _ _
        ▷ reconcile-Allowed _ in
      Allowed-if s.started (Allowed-refl s) (record { step = f.step })

  start-Allowed :
      (opens : Bool) (visibility : TabVisibility) (s : Runtime N D)
      → Allowed s (start opens visibility s)
  unfolding start
  start-Allowed opens visibility s =
      let t = record s {
        lifecycle_generation = s.lifecycle_generation + 1;
        lifecycle_listening = true;
        suspended = false;
      } in
      let f : Allowed s t = record { step = stay s } in
      Allowed-if s.started (Allowed-refl s) (
        Allowed-if (is_visible visibility) (f ▷ activate-Allowed opens visibility t)
          (record { step = stay s }))

  release_all-Allowed :
      (topics : JsMap Text (Unit {0})) (s : Runtime N D) → Allowed s (release_all topics s)
  unfolding release_all
  release_all-Allowed [] s = Allowed-refl s
  release_all-Allowed ((topic, u) ∷ topics) s =
      release_subscription-Allowed topic false s ▷ release_all-Allowed topics _

  drop_assignments-Allowed : (s : Runtime N D) → Allowed s (drop_assignments s)
  drop_assignments-Allowed s = record { step = λ c. (c.0, tt, c.2, c.3) }

  remove_worker-Allowed : (s : Runtime N D) → Allowed s (remove_worker s)
  remove_worker-Allowed s = Allowed-if s.storage (record { step = stay s }) (Allowed-refl s)

  flush_storage-Allowed : (s : Runtime N D) → Allowed s (flush_storage s)
  flush_storage-Allowed s = Allowed-if s.storage (record { step = stay s }) (Allowed-refl s)

  discard_pending-Allowed : (s : Runtime N D) → Allowed s (discard_pending s)
  unfolding discard_pending
  discard_pending-Allowed s =
      Allowed-if s.storage (record { step = λ c. (c.3 s.effects s.store c.0, c.1, c.2, c.3) })
        (Allowed-refl s)

  close_channel-Allowed : (s : Runtime N D) → Allowed s (close_channel s)
  close_channel-Allowed s =
      Allowed-if s.channel (record { step = stay s }) (record { step = stay s })

  leave-Allowed : (s : Runtime N D) → Allowed s (leave s)
  unfolding leave
  leave-Allowed s =
      release_all-Allowed s.subscribed_topics s
      ▷ handoff_assigned_topics-Allowed _
      ▷ drop_assignments-Allowed _
      ▷ remove_worker-Allowed _
      ▷ flush_storage-Allowed _
      ▷ notify_registry-Allowed _
      ▷ discard_pending-Allowed _
      ▷ close_channel-Allowed _

  pause-Allowed : (s : Runtime N D) → Allowed s (pause s)
  unfolding pause
  pause-Allowed s =
      let t = record s {
        lifecycle_generation = s.lifecycle_generation + 1;
        started = false;
        suspended = true;
        heartbeat = false;
      } in
      let f : Allowed s t = record { step = stay s } in
      Allowed-if s.started (f ▷ leave-Allowed t) (record { step = stay s })

  clear_all-Allowed : (s : Runtime N D) → Allowed s (clear_all s)
  clear_all-Allowed s = record { step = λ c. (c.0, tt, tt, c.3) }

  stop-Allowed : (s : Runtime N D) → Allowed s (stop s)
  unfolding stop
  stop-Allowed s =
      let t = record s { lifecycle_generation = s.lifecycle_generation + 1 } in
      let f : Allowed s t = record { step = stay s } in
      Allowed-if _ (f ▷ pause-Allowed t ▷ flush_storage-Allowed _ ▷ clear_all-Allowed _) f

  handle_page_show-Allowed :
      (opens : Bool) (visibility : TabVisibility) (s : Runtime N D)
      → Allowed s (handle_page_show opens visibility s)
  unfolding handle_page_show
  handle_page_show-Allowed opens visibility s =
      let t =
        log on_resume
          (record s { lifecycle_generation = s.lifecycle_generation + 1; suspended = false }) in
      let f : Allowed s t = record { step = stay s } in
      Allowed-if s.suspended (f ▷ activate-Allowed opens visibility t) (Allowed-refl s)

  handle_visibility_change-Allowed :
      (visibility : TabVisibility) (s : Runtime N D)
      → Allowed s (handle_visibility_change visibility s)
  unfolding handle_visibility_change
  handle_visibility_change-Allowed visibility s =
      let t = record s {
        current_record = record s.current_record { visibility_state = visibility };
      } in
      let f : Allowed s t = record { step = stay s } in
      Allowed-if (same_visibility visibility s.current_record.visibility_state) (Allowed-refl s)
        (Allowed-if s.started (f ▷ write_record-Allowed true t ▷ reconcile-Allowed _) f)

  tick-Allowed : (s : Runtime N D) → Allowed s (tick s)
  unfolding tick
  tick-Allowed s =
      Allowed-if s.heartbeat (write_record-Allowed false s ▷ reconcile-Allowed _) (Allowed-refl s)

  heard-Allowed : (b : Bool) {s t : Runtime N D} → Allowed s t → Allowed s (heard b t s)
  heard-Allowed b {s} f = Allowed-if b f (Allowed-refl s)

  perform-Allowed : (task : Task N D) (s : Runtime N D) → Allowed s (perform task s)
  unfolding perform
  perform-Allowed (start_task opens visibility) s = start-Allowed opens visibility s
  perform-Allowed stop_task s = stop-Allowed s
  perform-Allowed page_hide s = heard-Allowed s.lifecycle_listening (pause-Allowed s)
  perform-Allowed (page_show opens visibility) s =
      heard-Allowed s.lifecycle_listening (handle_page_show-Allowed opens visibility s)
  perform-Allowed (visibility_change visibility) s =
      heard-Allowed s.lifecycle_listening (handle_visibility_change-Allowed visibility s)
  perform-Allowed heartbeat_task s = tick-Allowed s
  perform-Allowed (status_task status) s = set_status-Allowed status s
  perform-Allowed (subscribe_task topic) s = subscribe-Allowed topic s
  perform-Allowed (unsubscribe_task topic) s = unsubscribe-Allowed topic s
  perform-Allowed (publish_task topic payload metadata) s = publish-Allowed topic payload metadata s
  perform-Allowed (publish_batch_task topic items) s = publish_batch-Allowed topic items s
  perform-Allowed (broadcast_task event_type payload bytes origin) s =
      broadcast_event-Allowed event_type payload bytes origin s
  perform-Allowed (message_task source frame) s =
      heard-Allowed s.channel (handle_message-Allowed source frame s)

  now_ms-Allowed : (reading : Option ℕ) (s : Runtime N D) → Allowed s (now_ms reading s)
  unfolding now_ms
  now_ms-Allowed none s = Allowed-refl s
  now_ms-Allowed (some n) s = record { step = stay s }

  -- If what reads see after a discard of unflushed writes are routes again, every task of a coherent
  -- tab leaves a coherent one, whatever frames arrive: every shared route carries the key that it
  -- stands under, a topic has one route at most, and every assigned or remembered topic stands under
  -- its own key.
  pub run_task-IsCoherent :
      (reading : Option ℕ) (task : Task N D) (s : Runtime N D)
      → Restores s.config
      → IsCoherent s
      → IsCoherent (run_task reading task s)
  unfolding run_task
  run_task-IsCoherent reading task s restores (routes, assigned, known) =
      let f = now_ms-Allowed reading s ▷ perform-Allowed task _ in
      let after = f.step (routes, assigned, known, restores) in (after.0, after.1, after.2)
