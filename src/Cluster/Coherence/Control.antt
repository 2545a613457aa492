-- ===== src/Cluster/Coherence/Control.antt =====
-- About src/core/cluster.ts: the control actions are allowed steps.
use cross_tab_worker_databus.Base.{ℕ, ◌≡◌, Bool, true, Option, some, List, is_some, nat_has_eq}
use cross_tab_worker_databus.Base.JsString.{Text, text_has_eq, eqb}
use cross_tab_worker_databus.Base.Number.{Number}
use cross_tab_worker_databus.Types.{WorkerRecord, WorkerStatus, ControlAction}
use cross_tab_worker_databus.Codec.Hash.{create_opaque_key}
use cross_tab_worker_databus.Cluster.Frames.{Effect, Metadata, registry, event}
use cross_tab_worker_databus.Cluster.Runtime.{Runtime, log}
use cross_tab_worker_databus.Cluster.Control.{
  notify_registry, record_traffic, refresh_record, store_record, write_record, refresh_role,
  role_changes, same_load, with_load, update_load, assign, take_control, tell_control, send_control,
  control_frame, broadcast_event, or_own, set_status, status_eqb,
}
use cross_tab_worker_databus.Cluster.Coherence.Defs.{
  Allowed, Allowed-refl, ◌▷◌, stay, Allowed-if, post-Allowed, confirm-Allowed, unassign-Allowed,
  take-Allowed,
}

module _ {N : Number} {D : Type 0} where
  refresh_record-Allowed : (s : Runtime N D) → Allowed s (refresh_record s)
  unfolding refresh_record
  refresh_record-Allowed s = record { step = stay s }

  store_record-Allowed : (s : Runtime N D) → Allowed s (store_record s)
  unfolding store_record
  store_record-Allowed s = Allowed-if s.storage (record { step = stay s }) (Allowed-refl s)

  pub notify_registry-Allowed : (s : Runtime N D) → Allowed s (notify_registry s)
  unfolding notify_registry
  notify_registry-Allowed s = post-Allowed registry s

  pub write_record-Allowed : (notify : Bool) (s : Runtime N D) → Allowed s (write_record notify s)
  unfolding write_record
  write_record-Allowed notify s =
      let f = refresh_record-Allowed s ▷ store_record-Allowed _ in
      Allowed-if notify (f ▷ notify_registry-Allowed _) f

  pub refresh_role-Allowed :
      (workers : List (WorkerRecord N)) (s : Runtime N D) → Allowed s (refresh_role workers s)
  unfolding refresh_role
  refresh_role-Allowed workers s =
      Allowed-if (role_changes workers s) (record { step = stay s }) (Allowed-refl s)

  pub update_load-Allowed : (s : Runtime N D) → Allowed s (update_load s)
  unfolding update_load
  update_load-Allowed s =
      let loaded : Allowed s (with_load s) = record { step = stay s } in
      Allowed-if (same_load s) (Allowed-refl s)
        (Allowed-if s.started (loaded ▷ write_record-Allowed true _) loaded)

  pub assign-Allowed :
      (key topic : Text) (s : Runtime N D)
      → create_opaque_key topic ≡ key
      → Allowed s (assign key topic s)
  unfolding assign
  assign-Allowed key topic s e = take-Allowed key topic s e ▷ confirm-Allowed key _

  take_control-Allowed :
      (action : ControlAction) (topic key : Text) (s : Runtime N D)
      → create_opaque_key topic ≡ key
      → Allowed s (take_control action topic key s)
  take_control-Allowed ControlAction.subscribe topic key s e = assign-Allowed key topic s e
  take_control-Allowed ControlAction.unsubscribe topic key s e = unassign-Allowed key s
  take_control-Allowed ControlAction.publish topic key s e = Allowed-refl s

  pub tell_control-Allowed :
      (action : ControlAction) (topic : Text) (payload : Option D) (metadata : Option Metadata)
      (s : Runtime N D)
      → Allowed s (tell_control action topic payload metadata s)
  unfolding tell_control
  tell_control-Allowed action topic payload metadata s =
      let told : Allowed s (log (Effect.on_control action topic payload metadata) s) = record {
        step = stay s;
      } in
      Allowed-if _ told (told ▷ update_load-Allowed _)

  pub send_control-Allowed :
      (target : Text) (action : ControlAction) (topic key : Text) (payload : Option D)
      (metadata : Option Metadata) (s : Runtime N D)
      → create_opaque_key topic ≡ key
      → Allowed s (send_control target action topic key payload metadata s)
  unfolding send_control
  send_control-Allowed target action topic key payload metadata s e =
      Allowed-if (eqb target s.config.worker_id)
        (take_control-Allowed action topic key s e
          ▷ tell_control-Allowed action topic payload metadata _)
        (post-Allowed (control_frame target action topic key payload metadata) s)

  record_traffic-Allowed : (bytes : ℕ) (s : Runtime N D) → Allowed s (record_traffic bytes s)
  unfolding record_traffic
  record_traffic-Allowed bytes s =
      Allowed-if (is_some s.config.load_weighting) (record { step = stay s }) (Allowed-refl s)

  pub broadcast_event-Allowed :
      (event_type : Text) (payload : D) (bytes : ℕ) (origin : Option Text) (s : Runtime N D)
      → Allowed s (broadcast_event event_type payload bytes origin s)
  unfolding broadcast_event
  broadcast_event-Allowed event_type payload bytes origin s =
      record_traffic-Allowed bytes s
      ▷ post-Allowed (event event_type payload (some (or_own s origin))) _

  pub set_status-Allowed :
      (status : WorkerStatus) (s : Runtime N D) → Allowed s (set_status status s)
  unfolding set_status
  set_status-Allowed status s =
      let t = record s { current_record = record s.current_record { status = status } } in
      let f : Allowed s t = record { step = stay s } in
      Allowed-if (status_eqb s.current_record.status status) (Allowed-refl s)
        (Allowed-if s.started (f ▷ write_record-Allowed true t) f)
