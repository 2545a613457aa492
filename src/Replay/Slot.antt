-- ===== src/Replay/Slot.antt =====
-- About src/core/replay-manager.ts: the slot of the hydration in flight, and the loads that a
-- `suspend` or a `resetBuffers` supersedes.
use cross_tab_worker_databus.Base.{
  ℕ, ◌≤◌, ◌<◌, ◌≡◌, refl, sym, subst, ◌⊎◌, inl, inr, true, false, ◌&&◌, Option, none, some, List,
  [], ◌∷◌, arith, is_some,
}
use cross_tab_worker_databus.Base.JsString.{text_has_eq}
use cross_tab_worker_databus.Types.{Message}
use cross_tab_worker_databus.Replay.Manager.{
  Deps, Hydration, ReplayManager, persist, schedule_retention_cleanup, retention_settled,
  record_message, flush_persistence, clear_topic_state, clear_all, clear_before_state, suspend,
  reset_buffers,
}
use cross_tab_worker_databus.Replay.Manager
use cross_tab_worker_databus.Replay.Hydration.{
  owns, request_hydration, begin_hydration, release_slot, hydration_error, load_settled,
  clear_settled, start, sweep,
}
use cross_tab_worker_databus.Replay.Events.{
  Event, recorded, microtask, topic_cleared, all_cleared, before_cleared, stopped, suspended,
  buffers_reset, hydration_requested, load_finished, hydration_clear_finished, started, swept,
  cleanup_finished, fields, init, step, run,
}
use cross_tab_worker_databus.Replay.Frame.{Keeps, load_settled-Keeps, load_failed-Keeps}

module _ {D : Type 0} where
  -- The generation and the epoch only grow.
  abbrev pub Later : ReplayManager D → ReplayManager D → Type 0
  Later s t = (s.retry_generation ≤ t.retry_generation) × (s.hydration_epoch ≤ t.hydration_epoch)

  -- A hydration in flight owns the slot, and history is not complete yet.
  abbrev pub SlotIsCurrent : ReplayManager D → Type 0
  SlotIsCurrent s = elim s.hydration [
    | none ↦ Unit
    | some h ↦
        (owns h s ≡ true)
        × (s.hydration_complete ≡ false)
        × (is_some s.buffers && is_some s.persistence ≡ true)
  ]

  step-Later : (s : ReplayManager D) (e : Event D) → Later s (step s e)
  unfolding record_message persist schedule_retention_cleanup retention_settled flush_persistence
      clear_topic_state clear_all clear_before_state suspend reset_buffers Manager.stop
      request_hydration begin_hydration release_slot hydration_error load_settled clear_settled
      start sweep
  step-Later s (recorded m now later) = ground arith
  step-Later s microtask = ground arith
  step-Later s (topic_cleared t) = ground arith
  step-Later s all_cleared = ground arith
  step-Later s (before_cleared cutoff) = ground arith
  step-Later s stopped = ground arith
  step-Later s suspended = ground arith
  step-Later s buffers_reset = ground arith
  step-Later s (hydration_requested now) = ground arith
  step-Later s (load_finished h none now) = ground arith
  step-Later s (load_finished h (some loaded) now) = ground arith
  step-Later s (hydration_clear_finished h failed) = ground arith
  step-Later s (started now) = ground arith
  step-Later s (swept now) = ground arith
  step-Later s (cleanup_finished failed) = ground arith

  run-Later : (s : ReplayManager D) (events : List (Event D)) → Later s (run s events)
  run-Later s [] = (omega arith, omega arith)
  run-Later s (e ∷ events) =
      let (g, p) = step-Later s e in
      let (g', p') = run-Later (step s e) events in (omega arith, omega arith)

  -- A load that was requested before a `suspend` or a `resetBuffers`, with a generation and an epoch
  -- no later than the state's, changes neither the buffers nor the settings when it settles, whatever
  -- it settles with and whatever happens in between.
  pub load_settled-superseded :
      (s : ReplayManager D) (events : List (Event D)) (h : Hydration)
      (loaded : Option (List (Message D))) (now : ℕ)
      → h.generation ≤ s.retry_generation
      → h.epoch ≤ s.hydration_epoch
      → let suspended_run = run (suspend s) events in
        let reset_run = run (reset_buffers s) events in
        Keeps suspended_run (load_settled suspended_run h loaded now)
        × Keeps reset_run (load_settled reset_run h loaded now)
  unfolding suspend reset_buffers Manager.stop
  load_settled-superseded s events h loaded now g p =
      let (g1, p1) = run-Later (suspend s) events in
      let (g2, p2) = run-Later (reset_buffers s) events in
      (
        foreign (run (suspend s) events) loaded (inl (omega arith)),
        foreign (run (reset_buffers s) events) loaded (inr (omega arith)),
      )
    where
      foreign :
          (t : ReplayManager D) (l : Option (List (Message D)))
          → (h.generation < t.retry_generation) ⊎ (h.epoch < t.hydration_epoch)
          → Keeps t (load_settled t h l now)
      foreign t none o = load_failed-Keeps t h now
      foreign t (some l) o = load_settled-Keeps t h l now (ground arith)

  step-SlotIsCurrent :
      (s : ReplayManager D) (e : Event D) → SlotIsCurrent s → SlotIsCurrent (step s e)
  unfolding record_message persist schedule_retention_cleanup retention_settled flush_persistence
      clear_topic_state clear_all clear_before_state suspend reset_buffers Manager.stop
      request_hydration begin_hydration release_slot hydration_error load_settled clear_settled
      start sweep
  step-SlotIsCurrent s (recorded m now later) v = ground arith
  step-SlotIsCurrent s microtask v = ground arith
  step-SlotIsCurrent s (topic_cleared t) v = ground arith
  step-SlotIsCurrent s all_cleared v = ground arith
  step-SlotIsCurrent s (before_cleared cutoff) v = ground arith
  step-SlotIsCurrent s stopped v = ground arith
  step-SlotIsCurrent s suspended v = ground arith
  step-SlotIsCurrent s buffers_reset v = ground arith
  step-SlotIsCurrent s (hydration_requested now) v = ground arith
  step-SlotIsCurrent s (load_finished h none now) v = ground arith
  step-SlotIsCurrent s (load_finished h (some loaded) now) v = ground arith
  step-SlotIsCurrent s (hydration_clear_finished h failed) v = ground arith
  step-SlotIsCurrent s (started now) v = ground arith
  step-SlotIsCurrent s (swept now) v = ground arith
  step-SlotIsCurrent s (cleanup_finished failed) v = ground arith

  run-SlotIsCurrent :
      (s : ReplayManager D) (events : List (Event D))
      → SlotIsCurrent s
      → SlotIsCurrent (run s events)
  run-SlotIsCurrent s [] v = v
  run-SlotIsCurrent s (e ∷ events) v =
      run-SlotIsCurrent (step s e) events (step-SlotIsCurrent s e v)

  init-SlotIsCurrent :
      (deps : Deps) (now : ℕ) (s : ReplayManager D) → s ≡ init deps now → SlotIsCurrent s
  unfolding request_hydration begin_hydration
  init-SlotIsCurrent deps now s e =
      subst SlotIsCurrent (sym e) (step-SlotIsCurrent (fields deps) (hydration_requested now) tt)

  accepted :
      (h : Hydration) (loaded : List (Message D)) (now : ℕ) (s : ReplayManager D)
      → s.hydration ≡ some h
      → SlotIsCurrent s
      → let t = load_settled s h (some loaded) now in
        (t.hydration_complete ≡ true)
        × (t.hydration_failed ≡ false)
        × (t.hydration ≡ none)
        × (request_hydration s now ≡ s)
  unfolding load_settled release_slot request_hydration
  accepted h loaded now s e v = (ground arith, ground arith, ground arith, ground arith)

  -- In every state that calls, timers and settlements lead to, a load that is in flight for the
  -- current slot is accepted: when it resolves, the history is complete and not failed, and the slot
  -- is free; and until it settles, a request for a hydration starts no other.
  pub load_settled-accepted :
      (deps : Deps) (start_at : ℕ) (events : List (Event D)) (h : Hydration)
      (loaded : List (Message D)) (now : ℕ)
      → let s : ReplayManager D = run (init deps start_at) events in
        s.hydration ≡ some h
        → let t = load_settled s h (some loaded) now in
          (t.hydration_complete ≡ true)
          × (t.hydration_failed ≡ false)
          × (t.hydration ≡ none)
          × (request_hydration s now ≡ s)
  load_settled-accepted deps start_at events h loaded now e =
      accepted h loaded now (run (init deps start_at) events) e (
        run-SlotIsCurrent (init deps start_at) events
          (init-SlotIsCurrent deps start_at (init deps start_at) refl))
