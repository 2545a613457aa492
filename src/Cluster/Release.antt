-- ===== src/Cluster/Release.antt =====
-- About src/core/cluster.ts: what a release of a route does, and that a handoff arrives.
use cross_tab_worker_databus.Base.{
  ℕ, ◌≡◌, ap, subst, ◌∙◌, ◌⊎◌, inl, inr, true, ◌&&◌, Option, none, some, arith, Bool-cases,
  nat_has_eq, if_true, if_false,
}
use cross_tab_worker_databus.Base.JsMap.{get, set}
use cross_tab_worker_databus.Base.JsString.{Text, text_has_eq, eqb, eqb_sound}
use cross_tab_worker_databus.Base.Number.{Number}
use cross_tab_worker_databus.Types.{WorkerRoute, ControlAction}
use cross_tab_worker_databus.Codec.Hash.{create_opaque_key}
use cross_tab_worker_databus.Cluster.Frames.{on_control}
use cross_tab_worker_databus.Cluster.Runtime.{Runtime, log, read_route}
use cross_tab_worker_databus.Cluster.Control.{update_load, assign}
use cross_tab_worker_databus.Cluster.Handoff.{is_id}
use cross_tab_worker_databus.Cluster.Inbox.{is_release_of, handle_route_released_message}
use cross_tab_worker_databus.Cluster.Authority.{
  update_load-topics, assign-topics, and_left, and_right,
}

-- The route is this worker's, handed off by the sender, in the round of the release.
abbrev pub IsReleased : Text → Text → ℕ → Option WorkerRoute → Type 0
IsReleased self source generation none = ⊥
IsReleased self source generation (some route) =
    (route.worker_id ≡ self)
    × (route.handoff_from_worker_id ≡ some source)
    × (generation ≡ route.generation)

of_is_id : (id : Text) (o : Option Text) → is_id id o ≡ true → o ≡ some id
of_is_id id none h = cc
of_is_id id (some other) h = ap some (eqb_sound other id h)

module _ {N : Number} {D : Type 0} where
  -- The state after a release is accepted.
  abbrev pub accepted_here : Text → Text → Runtime N D → Runtime N D
  accepted_here key topic s =
      update_load (log (on_control ControlAction.subscribe topic none none) (assign key topic s))

  of_is_release :
      (source : Text) (generation : ℕ) (o : Option WorkerRoute) (s : Runtime N D)
      → is_release_of source generation o s ≡ true
      → IsReleased s.config.worker_id source generation o
  of_is_release source generation none s h = cc
  of_is_release source generation (some route) s h =
      let front =
        and_left
          (eqb route.worker_id s.config.worker_id && is_id source route.handoff_from_worker_id) _
          h in
      (
        eqb_sound route.worker_id _ (and_left _ _ front),
        of_is_id source _ (and_right (eqb route.worker_id s.config.worker_id) _ front),
        ground arith,
      )

  pub accepted-topics :
      (key topic : Text) (s : Runtime N D)
      → (accepted_here key topic s).assigned_topics ≡ set key topic s.assigned_topics
  accepted-topics key topic s = update_load-topics _ ∙ assign-topics key topic s

  -- A release either changes nothing, or it is for this worker, its key is the topic's, and the route
  -- names this worker, the sender as the previous owner, and the generation of the release; then it
  -- assigns the topic.
  pub handle_route_released_message-IsReleased :
      (source target topic key : Text) (generation : ℕ) (s : Runtime N D)
      → s.storage ≡ true
      → let t = handle_route_released_message source target topic key generation s in
        (t ≡ s)
        ⊎ ((target ≡ s.config.worker_id)
            × (create_opaque_key topic ≡ key)
            × IsReleased s.config.worker_id source generation (get key s.store.routes)
            × (t.assigned_topics ≡ set key topic s.assigned_topics))
  unfolding handle_route_released_message read_route
  handle_route_released_message-IsReleased source target topic key generation s stored =
      let self = s.config.worker_id in
      let o = read_route s key in
      let b =
        eqb target self
        && eqb (create_opaque_key topic) key
        && is_release_of source generation o s in
      elim (Bool-cases b) [
        | inr h ↦ inl (if_false b (accepted_here key topic s) s h)
        | inl h ↦
            let front = and_left (eqb target self && eqb (create_opaque_key topic) key) _ h in
            inr (
              eqb_sound target self (and_left _ _ front),
              eqb_sound _ key (and_right (eqb target self) _ front),
              subst (IsReleased self source generation) (if_true s.storage _ _ stored)
                  (of_is_release source generation o s (and_right _ _ h)),
              ap (λ (u : Runtime N D). u.assigned_topics)
                    (if_true b (accepted_here key topic s) s h)
                  ∙ accepted-topics key topic s,
            )
      ]
