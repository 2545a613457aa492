-- ===== src/Replay/Frame.antt =====
-- About src/core/replay-manager.ts: what each operation does to the buffers.
use cross_tab_worker_databus.Base.{
  ℕ, ◌≡◌, inl, inr, Bool, true, false, none, some, List, [], ◌∷◌, ◌++◌, arith, Option-cases,
}
use cross_tab_worker_databus.Base.JsMap.{JsMap, get, set, delete}
use cross_tab_worker_databus.Base.JsString.{Text, text_has_eq}
use cross_tab_worker_databus.Types.{Message}
use cross_tab_worker_databus.Replay.Manager.{
  Hydration, ReplayManager, pruned, or_empty, keep_from, record_message, clear_topic_state,
  clear_all, clear_before_state, reset_buffers, schedule_retention_cleanup, retention_settled,
  persist, flush_persistence, suspend, stop,
}
use cross_tab_worker_databus.Replay.Hydration.{
  begin_hydration, request_hydration, owns, hydrated, load_settled, release_slot, hydration_error,
  clear_settled, start, sweep,
}
use cross_tab_worker_databus.Replay.Hydration

module _ {D : Type 0} where
  abbrev pub Keeps : ReplayManager D → ReplayManager D → Type 0
  Keeps s t = (t.deps ≡ s.deps) × (t.buffers ≡ s.buffers)

  pub schedule_retention_cleanup-Keeps :
      (s : ReplayManager D) (cutoff : ℕ) → Keeps s (schedule_retention_cleanup s cutoff)
  unfolding schedule_retention_cleanup
  schedule_retention_cleanup-Keeps s cutoff = ground arith

  pub retention_settled-Keeps :
      (s : ReplayManager D) (failed : Bool) → Keeps s (retention_settled s failed)
  unfolding retention_settled schedule_retention_cleanup
  retention_settled-Keeps s failed = ground arith

  pub persist-Keeps : (s : ReplayManager D) (m : Message D) (now : ℕ) → Keeps s (persist s m now)
  unfolding persist schedule_retention_cleanup
  persist-Keeps s m now = ground arith

  pub flush_persistence-Keeps : (s : ReplayManager D) → Keeps s (flush_persistence s)
  unfolding flush_persistence
  flush_persistence-Keeps s = ground arith

  pub request_hydration-Keeps : (s : ReplayManager D) (now : ℕ) → Keeps s (request_hydration s now)
  unfolding request_hydration begin_hydration
  request_hydration-Keeps s now = ground arith

  pub release_slot-Keeps : (h : Hydration) (s : ReplayManager D) → Keeps s (release_slot h s)
  unfolding release_slot
  release_slot-Keeps h s = ground arith

  pub hydration_error-Keeps :
      (h : Hydration) (s : ReplayManager D) → Keeps s (release_slot h (hydration_error h s))
  unfolding hydration_error release_slot
  hydration_error-Keeps h s = ground arith

  pub clear_settled-Keeps :
      (s : ReplayManager D) (h : Hydration) (failed : Bool) → Keeps s (clear_settled s h failed)
  unfolding clear_settled release_slot hydration_error
  clear_settled-Keeps s h failed = ground arith

  pub start-Keeps : (s : ReplayManager D) (now : ℕ) → Keeps s (Hydration.start s now)
  unfolding start request_hydration begin_hydration
  start-Keeps s now = ground arith

  pub sweep-Keeps : (s : ReplayManager D) (now : ℕ) → Keeps s (sweep s now)
  unfolding sweep schedule_retention_cleanup
  sweep-Keeps s now = ground arith

  pub suspend-Keeps : (s : ReplayManager D) → Keeps s (suspend s)
  unfolding suspend stop
  suspend-Keeps s = ground arith

  -- An operation that works on the buffers, where there are any.
  abbrev pub Changes :
      ReplayManager D
      → ReplayManager D
      → (JsMap Text (List (Message D)) → JsMap Text (List (Message D)))
      → Type 0
  Changes s t f =
      (t.deps ≡ s.deps) × (t.buffers ≡ elim s.buffers [ none ↦ none | some b ↦ some (f b) ])

  pub record_message-Changes :
      (s : ReplayManager D) (m : Message D) (now later : ℕ)
      → Changes s
          (record_message s m now later)
          (λ b. set m.topic (pruned s now (or_empty (get m.topic b) ++ m ∷ [])) b)
  unfolding record_message
  record_message-Changes s m now later = elim (Option-cases s.buffers) [
    | inl e ↦ ground (arith, e)
    | inr (b, e) ↦
        let kept =
          persist-Keeps
            (record s {
              buffers = some (set m.topic (pruned s now (or_empty (get m.topic b) ++ m ∷ [])) b);
            })
            m later in
        ground (arith, e, kept)
  ]

  pub clear_topic_state-Changes :
      (s : ReplayManager D) (topic : Text) → Changes s (clear_topic_state s topic) (delete topic)
  unfolding clear_topic_state
  clear_topic_state-Changes s topic = ground arith

  pub clear_all-Changes : (s : ReplayManager D) → Changes s (clear_all s) (λ b. [])
  unfolding clear_all
  clear_all-Changes s = ground arith

  pub clear_before_state-Changes :
      (s : ReplayManager D) (cutoff : ℕ)
      → Changes s (clear_before_state s cutoff) (keep_from cutoff)
  unfolding clear_before_state
  clear_before_state-Changes s cutoff = ground arith

  pub reset_buffers-Changes : (s : ReplayManager D) → Changes s (reset_buffers s) (λ b. [])
  unfolding reset_buffers
  reset_buffers-Changes s = ground arith

  pub load_settled-Changes :
      (s : ReplayManager D) (h : Hydration) (loaded : List (Message D)) (now : ℕ)
      → owns h s ≡ true
      → Changes s (load_settled s h (some loaded) now) (hydrated s loaded now)
  unfolding load_settled release_slot
  load_settled-Changes s h loaded now o = ground arith

  pub load_settled-Keeps :
      (s : ReplayManager D) (h : Hydration) (loaded : List (Message D)) (now : ℕ)
      → owns h s ≡ false
      → Keeps s (load_settled s h (some loaded) now)
  unfolding load_settled
  load_settled-Keeps s h loaded now o =
      ground (arith, hydration_error-Keeps h s, release_slot-Keeps h s)

  pub load_failed-Keeps :
      (s : ReplayManager D) (h : Hydration) (now : ℕ) → Keeps s (load_settled s h none now)
  unfolding load_settled
  load_failed-Keeps s h now = hydration_error-Keeps h s
