-- ===== src/Cluster/Authority.antt =====
-- About src/core/cluster.ts: what a frame of another tab may assign.
use cross_tab_worker_databus.Base.{
  ◌≡◌, refl, sym, ap, subst, ◌∙◌, ◌⊎◌, inl, inr, Bool, true, false, ◌&&◌, Option, none, some, List,
  [], ◌∷◌, arith, if◌then◌else◌, is_some, Bool-cases, Option-cases, nat_has_eq, if_true, if_false,
}
use cross_tab_worker_databus.Base.JsMap.{JsMap, get, set, delete}
use cross_tab_worker_databus.Base.JsString.{Text, text_has_eq, eqb, eqb_sound, eqb_refl}
use cross_tab_worker_databus.Base.Number.{Number}
use cross_tab_worker_databus.Types.{WorkerRoute, ControlAction}
use cross_tab_worker_databus.Codec.Hash.{create_opaque_key}
use cross_tab_worker_databus.Cluster.Frames.{
  Frame, Operation, Metadata, Item, Publishing, publication_metadata, registry, on_control,
}
use cross_tab_worker_databus.Cluster.Runtime.{
  Runtime, log, post, read_route, remember, nonempty, with_routes,
}
use cross_tab_worker_databus.Cluster.Runtime.{sent, diagnose, confirm}
use cross_tab_worker_databus.Cluster.Registry.{confirm_route}
use cross_tab_worker_databus.Cluster.Control.{
  notify_registry, refresh_record, store_record, write_record, same_load, with_load, update_load,
  assign, unassign, tell_control,
}
use cross_tab_worker_databus.Cluster.Claims.{dispatch_items, dispatch_batch}
use cross_tab_worker_databus.Cluster.Handoff.{is_id}
use cross_tab_worker_databus.Cluster.Inbox.{
  may_subscribe, is_pending_handoff, release_or_dispatch, receive_publication, obey,
  handle_control_message,
}

-- A route lets a SUBSCRIBE through: there is none, or it is this worker's and is no handoff that
-- waits for its release.
abbrev pub Admits : Text → Option WorkerRoute → Type 0
Admits self none = Unit
Admits self (some route) =
    (route.worker_id ≡ self)
    × ((route.handoff_from_worker_id ≡ none) ⊎ (is_some route.confirmed_at ≡ true))

-- What a control frame does to the assignments, exactly one of these: it is ignored by a worker that
-- it is not for, or where its key is not the topic's; a SUBSCRIBE assigns the topic if the route
-- admits it, and else changes nothing; an UNSUBSCRIBE drops it; a PUBLISH changes nothing.
pub data Assignment (self target : Text) (action : ControlAction) (topic key : Text)
    (route : Option WorkerRoute) (old : JsMap Text Text) : JsMap Text Text → Type 0 where
  ignored :
      ((target ≡ self) → (create_opaque_key topic ≡ key) → ⊥)
      → Assignment self target action topic key route old old
  taken :
      action ≡ ControlAction.subscribe
      → target ≡ self
      → create_opaque_key topic ≡ key
      → Admits self route
      → Assignment self target action topic key route old (set key topic old)
  refused :
      action ≡ ControlAction.subscribe
      → target ≡ self
      → create_opaque_key topic ≡ key
      → (Admits self route → ⊥)
      → Assignment self target action topic key route old old
  dropped :
      action ≡ ControlAction.unsubscribe
      → target ≡ self
      → create_opaque_key topic ≡ key
      → Assignment self target action topic key route old (delete key old)
  published :
      action ≡ ControlAction.publish
      → target ≡ self
      → create_opaque_key topic ≡ key
      → Assignment self target action topic key route old old

pub and_left : (a b : Bool) → (a && b) ≡ true → a ≡ true
and_left a b h = ground arith

pub and_right : (a b : Bool) → (a && b) ≡ true → b ≡ true
and_right a b h = ground arith

module _ {N : Number} {D : Type 0} where
  -- What the steps after an assignment leave alone.
  Keeps : Runtime N D → Runtime N D → Type 0
  Keeps s t = t.assigned_topics ≡ s.assigned_topics

  Keeps-if : (b : Bool) (s t u : Runtime N D) → Keeps s t → Keeps s u → Keeps s (if b then t else u)
  Keeps-if true s t u f g = f
  Keeps-if false s t u f g = g

  post-Keeps : (frame : Frame D) (s : Runtime N D) → Keeps s (post frame s)
  unfolding post Keeps
  post-Keeps frame s = Keeps-if (sent s frame) s _ s refl refl

  write_record-Keeps : (s : Runtime N D) → Keeps s (write_record true s)
  unfolding write_record notify_registry refresh_record store_record Keeps
  write_record-Keeps s =
      let u = refresh_record s in
      post-Keeps registry (store_record u) ∙ Keeps-if s.storage s _ u refl refl

  update_load-Keeps : (s : Runtime N D) → Keeps s (update_load s)
  unfolding update_load Keeps
  update_load-Keeps s =
      Keeps-if (same_load s) s s _ refl
        (Keeps-if s.started s _ _ (write_record-Keeps (with_load s)) refl)

  diagnose-Keeps :
      (operation : Operation) (topic : Option Text) (s : Runtime N D)
      → Keeps s (diagnose operation topic s)
  unfolding Keeps
  diagnose-Keeps operation none s = refl
  diagnose-Keeps operation (some topic) s = refl

  confirm-Keeps : (key : Text) (s : Runtime N D) → Keeps s (confirm key s)
  unfolding confirm Keeps
  confirm-Keeps key s =
      let r = confirm_route s.config.worker_id s.last_finite_now key s.store.routes in
      Keeps-if s.storage s _ s
        (Keeps-if r.1 s _ s
          (diagnose-Keeps Operation.route_ack (nonempty (get key s.known_topics))
            (with_routes r.0 s))
          refl)
        refl

  tell_control-Keeps :
      (action : ControlAction) (topic : Text) (payload : Option D) (metadata : Option Metadata)
      (s : Runtime N D)
      → Keeps s (tell_control action topic payload metadata s)
  unfolding tell_control Keeps
  tell_control-Keeps action topic payload metadata s =
      let t = log (on_control action topic payload metadata) s in
      Keeps-if _ s t _ refl (update_load-Keeps t)

  dispatch_items-Keeps :
      (topic : Text) (items : List (Item D)) (s : Runtime N D)
      → Keeps s (dispatch_items topic items s)
  unfolding dispatch_items Keeps
  dispatch_items-Keeps topic [] s = refl
  dispatch_items-Keeps topic (item ∷ items) s = dispatch_items-Keeps topic items _

  receive_publication-Keeps :
      (topic : Text) (p : Publishing D) (items : Option (List (Item D))) (s : Runtime N D)
      → Keeps s (receive_publication topic p items s)
  unfolding dispatch_batch Keeps
  receive_publication-Keeps topic p none s = tell_control-Keeps _ topic _ _ s
  receive_publication-Keeps topic p (some []) s = refl
  receive_publication-Keeps topic p (some (item ∷ items)) s =
      Keeps-if s.config.batches s _ _ refl (dispatch_items-Keeps topic (item ∷ items) s)

  release_or_dispatch-Keeps :
      (topic key : Text) (p : Publishing D) (o : Option WorkerRoute) (s : Runtime N D)
      → Keeps s (release_or_dispatch topic key p o s)
  unfolding Keeps
  release_or_dispatch-Keeps topic key p none s = tell_control-Keeps _ topic _ _ s
  release_or_dispatch-Keeps topic key p (some route) s =
      Keeps-if (is_id s.config.worker_id route.handoff_from_worker_id) s _ _
        (update_load-Keeps _ ∙ post-Keeps _ _) (tell_control-Keeps _ topic _ _ s)

  pub update_load-topics : (s : Runtime N D) → (update_load s).assigned_topics ≡ s.assigned_topics
  unfolding Keeps
  update_load-topics s = update_load-Keeps s

  -- The topics after an assignment.
  pub assign-topics :
      (key topic : Text) (s : Runtime N D)
      → (assign key topic s).assigned_topics ≡ set key topic s.assigned_topics
  unfolding assign Keeps
  assign-topics key topic s = confirm-Keeps key _

  may_subscribe-Admits :
      (o : Option WorkerRoute) (s : Runtime N D)
      → may_subscribe o s ≡ true
      → Admits s.config.worker_id o
  may_subscribe-Admits none s h = tt
  may_subscribe-Admits (some route) s h =
      let here : eqb route.worker_id s.config.worker_id ≡ true = ground arith in
      let clear : is_pending_handoff route ≡ false = ground arith in
      (
        eqb_sound route.worker_id s.config.worker_id here,
        elim (Option-cases route.handoff_from_worker_id) [
          | inl n ↦ inl n
          | inr (id, e) ↦ inr (ground (arith, e, clear))
        ],
      )

  Admits-may_subscribe :
      (o : Option WorkerRoute) (s : Runtime N D)
      → Admits s.config.worker_id o
      → may_subscribe o s ≡ true
  Admits-may_subscribe none s h = refl
  Admits-may_subscribe (some route) s (own, inl fresh) =
      let here : eqb route.worker_id s.config.worker_id ≡ true =
        subst (λ i. eqb route.worker_id i ≡ true) own (eqb_refl route.worker_id) in
      ground (arith, here, fresh)
  Admits-may_subscribe (some route) s (own, inr done) =
      let here : eqb route.worker_id s.config.worker_id ≡ true =
        subst (λ i. eqb route.worker_id i ≡ true) own (eqb_refl route.worker_id) in
      ground (arith, here, done)

  obey-Assignment :
      (target : Text) (action : ControlAction) (topic key : Text) (p : Publishing D)
      (s : Runtime N D)
      → target ≡ s.config.worker_id
      → create_opaque_key topic ≡ key
      → Assignment s.config.worker_id target action topic key
          (read_route s key)
          s.assigned_topics
          (obey action topic key p s).assigned_topics
  unfolding obey Keeps
  obey-Assignment target ControlAction.subscribe topic key p s mine keyed =
      let self = s.config.worker_id in
      let o = read_route s key in
      let after = λ (new : JsMap Text Text).
        Assignment self target ControlAction.subscribe topic key o s.assigned_topics new in
      let t =
        tell_control ControlAction.subscribe topic p.payload
          (publication_metadata p.message_id p.timestamp) (assign key topic s) in
      elim (Bool-cases (may_subscribe o s)) [
        | inl h ↦
            let is =
              ap (λ (u : Runtime N D). u.assigned_topics) (if_true (may_subscribe o s) t s h) in
            let set_to = is ∙ tell_control-Keeps _ topic _ _ _ ∙ assign-topics key topic s in
            subst after (sym set_to) (taken refl mine keyed (may_subscribe-Admits o s h))
        | inr h ↦
            subst after
              (sym
                (ap (λ (u : Runtime N D). u.assigned_topics) (if_false (may_subscribe o s) t s h)))
              (refused refl mine keyed
                λ a. let yes = Admits-may_subscribe o s a in ground (arith, yes, h))
      ]
  obey-Assignment target ControlAction.unsubscribe topic key p s mine keyed =
      subst
        (λ new.
          Assignment s.config.worker_id target ControlAction.unsubscribe topic key
            (read_route s key) s.assigned_topics new)
        (sym (release_or_dispatch-Keeps topic key p (read_route s key) (unassign key s)))
        (dropped refl mine keyed)
  obey-Assignment target ControlAction.publish topic key p s mine keyed =
      subst
        (λ new.
          Assignment s.config.worker_id target ControlAction.publish topic key (read_route s key)
            s.assigned_topics new)
        (sym (receive_publication-Keeps topic p p.items s)) (published refl mine keyed)

  -- With a storage, a control frame for another worker, or with a key that is not its topic's, leaves
  -- the assignments alone. Else a SUBSCRIBE assigns the topic if it has no route, or a route that names
  -- this worker and does not wait for the release of a previous owner, and leaves the assignments alone
  -- if it has another; an UNSUBSCRIBE drops the topic; a PUBLISH leaves the assignments alone.
  pub handle_control_message-Assignment :
      (target : Text) (action : ControlAction) (topic key : Text) (p : Publishing D)
      (s : Runtime N D)
      → s.storage ≡ true
      → Assignment s.config.worker_id target action topic key
          (get key s.store.routes)
          s.assigned_topics
          (handle_control_message target action topic key p s).assigned_topics
  unfolding handle_control_message read_route remember
  handle_control_message-Assignment target action topic key p s stored =
      let self = s.config.worker_id in
      let b = eqb target self && eqb (create_opaque_key topic) key in
      let after = λ (new : JsMap Text Text).
        Assignment self target action topic key (get key s.store.routes) s.assigned_topics new in
      let t = obey action topic key p (remember topic s) in
      elim (Bool-cases b) [
        | inl h ↦
            let done =
              obey-Assignment target action topic key p (remember topic s)
                (eqb_sound target self (and_left (eqb target self) _ h))
                (eqb_sound _ key (and_right (eqb target self) _ h)) in
            subst after (sym (ap (λ (u : Runtime N D). u.assigned_topics) (if_true b t s h))) (
              subst
                (λ o. Assignment self target action topic key o s.assigned_topics t.assigned_topics)
                (if_true s.storage _ _ stored) done)
        | inr h ↦
            subst after (sym (ap (λ (u : Runtime N D). u.assigned_topics) (if_false b t s h))) (
              ignored λ mine keyed.
                let for_me = subst (λ i. eqb target i ≡ true) mine (eqb_refl target) in
                let named =
                  subst (λ i. eqb (create_opaque_key topic) i ≡ true) keyed
                    (eqb_refl (create_opaque_key topic)) in
                ground (arith, for_me, named, h))
      ]
