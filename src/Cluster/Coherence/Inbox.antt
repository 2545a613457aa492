-- ===== src/Cluster/Coherence/Inbox.antt =====
-- About src/core/cluster.ts: handling a frame is an allowed step, whoever posted it.
use cross_tab_worker_databus.Base.{
  ℕ, ◌≡◌, Bool, true, ◌&&◌, Option, none, some, List, [], ◌∷◌, arith, nat_has_eq,
}
use cross_tab_worker_databus.Base.JsString.{Text, text_has_eq, eqb, eqb_sound}
use cross_tab_worker_databus.Base.Number.{Number}
use cross_tab_worker_databus.Types.{WorkerRoute, ControlAction}
use cross_tab_worker_databus.Codec.Hash.{create_opaque_key}
use cross_tab_worker_databus.Cluster.Frames.{
  Frame, Item, Publishing, control, event, registry, route_released, unknown, on_control,
}
use cross_tab_worker_databus.Cluster.Runtime.{Runtime, log, read_route}
use cross_tab_worker_databus.Cluster.Control.{assign}
use cross_tab_worker_databus.Cluster.Handoff.{is_id}
use cross_tab_worker_databus.Cluster.Inbox.{
  may_subscribe, release_or_dispatch, receive_publication, obey, handle_control_message,
  handle_route_released_message, handle_frame, handle_message,
}
use cross_tab_worker_databus.Cluster.Coherence.Defs.{
  Allowed, stay, Allowed-refl, ◌▷◌, Allowed-if, Allowed-if_at, post-Allowed, remember-Allowed,
  unassign-Allowed,
}
use cross_tab_worker_databus.Cluster.Coherence.Control.{
  update_load-Allowed, assign-Allowed, tell_control-Allowed,
}
use cross_tab_worker_databus.Cluster.Coherence.Claims.{dispatch_batch-Allowed}
use cross_tab_worker_databus.Cluster.Coherence.Passes.{reconcile-Allowed}

and_left : (a b : Bool) → (a && b) ≡ true → a ≡ true
and_left a b h = ground arith

and_right : (a b : Bool) → (a && b) ≡ true → b ≡ true
and_right a b h = ground arith

module _ {N : Number} {D : Type 0} where
  release_or_dispatch-Allowed :
      (topic key : Text) (p : Publishing D) (o : Option WorkerRoute) (s : Runtime N D)
      → Allowed s (release_or_dispatch topic key p o s)
  release_or_dispatch-Allowed topic key p none s = tell_control-Allowed _ topic _ _ s
  release_or_dispatch-Allowed topic key p (some route) s =
      let told : Allowed s (log (on_control ControlAction.unsubscribe topic none none) s) = record {
        step = stay s;
      } in
      Allowed-if (is_id s.config.worker_id route.handoff_from_worker_id)
        (told ▷ post-Allowed _ _ ▷ update_load-Allowed _) (tell_control-Allowed _ topic _ _ s)

  receive_publication-Allowed :
      (topic : Text) (p : Publishing D) (items : Option (List (Item D))) (s : Runtime N D)
      → Allowed s (receive_publication topic p items s)
  receive_publication-Allowed topic p none s = tell_control-Allowed _ topic _ _ s
  receive_publication-Allowed topic p (some []) s = Allowed-refl s
  receive_publication-Allowed topic p (some (item ∷ items)) s =
      dispatch_batch-Allowed topic (item ∷ items) s

  obey-Allowed :
      (action : ControlAction) (topic key : Text) (p : Publishing D) (s : Runtime N D)
      → create_opaque_key topic ≡ key
      → Allowed s (obey action topic key p s)
  unfolding obey
  obey-Allowed ControlAction.subscribe topic key p s e =
      Allowed-if (may_subscribe (read_route s key) s)
        (assign-Allowed key topic s e ▷ tell_control-Allowed _ topic _ _ _) (Allowed-refl s)
  obey-Allowed ControlAction.unsubscribe topic key p s e =
      unassign-Allowed key s ▷ release_or_dispatch-Allowed topic key p (read_route s key) _
  obey-Allowed ControlAction.publish topic key p s e = receive_publication-Allowed topic p p.items s

  handle_control_message-Allowed :
      (target : Text) (action : ControlAction) (topic key : Text) (p : Publishing D)
      (s : Runtime N D)
      → Allowed s (handle_control_message target action topic key p s)
  unfolding handle_control_message
  handle_control_message-Allowed target action topic key p s =
      Allowed-if_at (eqb target s.config.worker_id && eqb (create_opaque_key topic) key)
        (λ h.
          remember-Allowed topic s
          ▷ obey-Allowed action topic key p _ (eqb_sound _ key (and_right (eqb target _) _ h)))
        (λ h. Allowed-refl s)

  handle_route_released_message-Allowed :
      (source target topic key : Text) (generation : ℕ) (s : Runtime N D)
      → Allowed s (handle_route_released_message source target topic key generation s)
  unfolding handle_route_released_message
  handle_route_released_message-Allowed source target topic key generation s =
      Allowed-if_at _
        (λ h.
          let f = assign-Allowed key topic s (
            eqb_sound _ key (
              and_right (eqb target s.config.worker_id) (eqb (create_opaque_key topic) key)
                (and_left _ _ h))) in
          let told : Allowed s
              (log (on_control ControlAction.subscribe topic none none) (assign key topic s)) =
            record { step = f.step } in
          told ▷ update_load-Allowed _)
        (λ h. Allowed-refl s)

  handle_frame-Allowed :
      (source : Text) (frame : Frame D) (s : Runtime N D) → Allowed s (handle_frame source frame s)
  unfolding handle_frame
  handle_frame-Allowed source (control target action topic key p) s =
      handle_control_message-Allowed target action topic key p s
  handle_frame-Allowed source (event event_type payload origin) s = record { step = stay s }
  handle_frame-Allowed source registry s = reconcile-Allowed s
  handle_frame-Allowed source (route_released target topic key generation) s =
      handle_route_released_message-Allowed source target topic key generation s
  handle_frame-Allowed source (unknown type_of) s = record { step = stay s }

  pub handle_message-Allowed :
      (source : Text) (frame : Frame D) (s : Runtime N D)
      → Allowed s (handle_message source frame s)
  unfolding handle_message
  handle_message-Allowed source frame s =
      Allowed-if (eqb source s.config.worker_id) (Allowed-refl s)
        (handle_frame-Allowed source frame s)
