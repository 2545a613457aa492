-- ===== src/Replay/Capped.antt =====
-- About src/core/replay-manager.ts: the buffers stay within their cap, whatever happens.
use cross_tab_worker_databus.Base.{
  ℕ, ◌≤◌, refl, sym, subst, ◌∙◌, inl, inr, Option, none, some, List, [], ◌∷◌, ◌++◌, Bool-cases,
  length, nat_has_eq,
}
use cross_tab_worker_databus.Base.JsMap.{JsMap, get}
use cross_tab_worker_databus.Base.JsString.{Text, text_has_eq}
use cross_tab_worker_databus.Types.{Message}
use cross_tab_worker_databus.Replay.Manager.{
  Deps, Hydration, ReplayManager, not_before, pruned, or_empty, keep_from, retention_settled,
  record_message, persist, flush_persistence, clear_topic_state, clear_all, clear_before_state,
  suspend, reset_buffers,
}
use cross_tab_worker_databus.Replay.Manager
use cross_tab_worker_databus.Replay.Hydration.{
  request_hydration, load_settled, owns, clear_settled, start, sweep, merge_loaded, group_by_topic,
  hydrated,
}
use cross_tab_worker_databus.Replay.Events.{
  Event, recorded, microtask, topic_cleared, all_cleared, before_cleared, stopped, suspended,
  buffers_reset, hydration_requested, load_finished, hydration_clear_finished, started, swept,
  cleanup_finished, fields, init, step, run,
}
use cross_tab_worker_databus.Replay.Frame.{
  Keeps, retention_settled-Keeps, flush_persistence-Keeps, request_hydration-Keeps,
  clear_settled-Keeps, start-Keeps, sweep-Keeps, suspend-Keeps, Changes, record_message-Changes,
  clear_topic_state-Changes, clear_all-Changes, clear_before_state-Changes, reset_buffers-Changes,
  load_settled-Changes, load_settled-Keeps, load_failed-Keeps,
}
use cross_tab_worker_databus.Replay.Buffers.{
  Capped, ValidBuffers, IsBounded, IsValid, length-pruned-le, set-ValidBuffers, delete-ValidBuffers,
  keep_from-ValidBuffers, merge_loaded-UniqueKeys, prune_all-ValidBuffers,
}

module _ {D : Type 0} where
  Keeps-IsValid :
      (deps : Deps) (s t : ReplayManager D) → Keeps s t → IsValid deps s → IsValid deps t
  Keeps-IsValid deps s t (d, b) (e, v) = (d ∙ e, subst (IsBounded deps.max_per_topic) (sym b) v)

  Changes-IsValid :
      (deps : Deps) (s t : ReplayManager D)
      (f : JsMap Text (List (Message D)) → JsMap Text (List (Message D)))
      → Changes s t f
      → ((b : JsMap Text (List (Message D)))
          → ValidBuffers deps.max_per_topic b
          → ValidBuffers deps.max_per_topic (f b))
      → IsValid deps s
      → IsValid deps t
  Changes-IsValid deps s t f (d, b) k (e, v) =
      (d ∙ e, subst (IsBounded deps.max_per_topic) (sym b) (go s.buffers v))
    where
      go :
          (o : Option (JsMap Text (List (Message D))))
          → IsBounded deps.max_per_topic o
          → IsBounded deps.max_per_topic (elim o [ none ↦ none | some b ↦ some (f b) ])
      go none w = tt
      go (some c) w = k c w

  load_settled-IsValid :
      (deps : Deps) (s : ReplayManager D) (h : Hydration) (loaded : Option (List (Message D)))
      (now : ℕ)
      → Capped deps
      → IsValid deps s
      → IsValid deps (load_settled s h loaded now)
  load_settled-IsValid deps s h none now c v =
      Keeps-IsValid deps s (load_settled s h none now) (load_failed-Keeps s h now) v
  load_settled-IsValid deps s h (some loaded) now c v = elim (Bool-cases (owns h s)) [
    | inl own ↦
        Changes-IsValid deps s (load_settled s h (some loaded) now) _
          (load_settled-Changes s h loaded now own)
          (λ b w.
            subst (λ d. ValidBuffers d.max_per_topic (hydrated s loaded now b)) v.0
              (prune_all-ValidBuffers s now (merge_loaded (group_by_topic s loaded []) b)
                (subst Capped (sym v.0) c) (merge_loaded-UniqueKeys _ b w.0)))
          v
    | inr other ↦
        Keeps-IsValid deps s (load_settled s h (some loaded) now)
          (load_settled-Keeps s h loaded now other) v
  ]

  record_message-IsValid :
      (deps : Deps) (s : ReplayManager D) (m : Message D) (now later : ℕ)
      → Capped deps
      → IsValid deps s
      → IsValid deps (record_message s m now later)
  record_message-IsValid deps s m now later c v =
      Changes-IsValid deps s (record_message s m now later) _ (record_message-Changes s m now later)
        (λ b w. set-ValidBuffers deps.max_per_topic m.topic _ b w (
          subst (λ d. length (pruned s now (or_empty (get m.topic b) ++ m ∷ [])) ≤ d.max_per_topic)
            v.0
            (length-pruned-le s now (or_empty (get m.topic b) ++ m ∷ [])
              (subst Capped (sym v.0) c))))
        v

  pub step-IsValid :
      (deps : Deps) (s : ReplayManager D) (e : Event D)
      → Capped deps
      → IsValid deps s
      → IsValid deps (step s e)
  unfolding Manager.stop
  step-IsValid deps s (recorded m now later) c v = record_message-IsValid deps s m now later c v
  step-IsValid deps s microtask c v =
      Keeps-IsValid deps s (flush_persistence s) (flush_persistence-Keeps s) v
  step-IsValid deps s (topic_cleared t) c v =
      Changes-IsValid deps s (clear_topic_state s t) _ (clear_topic_state-Changes s t)
        (delete-ValidBuffers deps.max_per_topic t) v
  step-IsValid deps s all_cleared c v =
      Changes-IsValid deps s (clear_all s) _ (clear_all-Changes s) (λ b w. (tt, tt)) v
  step-IsValid deps s (before_cleared cutoff) c v =
      Changes-IsValid deps s (clear_before_state s cutoff) _ (clear_before_state-Changes s cutoff)
        (keep_from-ValidBuffers deps.max_per_topic cutoff) v
  step-IsValid deps s stopped c v = v
  step-IsValid deps s suspended c v = Keeps-IsValid deps s (suspend s) (suspend-Keeps s) v
  step-IsValid deps s buffers_reset c v =
      Changes-IsValid deps s (reset_buffers s) _ (reset_buffers-Changes s) (λ b w. (tt, tt)) v
  step-IsValid deps s (hydration_requested now) c v =
      Keeps-IsValid deps s (request_hydration s now) (request_hydration-Keeps s now) v
  step-IsValid deps s (load_finished h loaded now) c v =
      load_settled-IsValid deps s h loaded now c v
  step-IsValid deps s (hydration_clear_finished h failed) c v =
      Keeps-IsValid deps s (clear_settled s h failed) (clear_settled-Keeps s h failed) v
  step-IsValid deps s (started now) c v = Keeps-IsValid deps s (start s now) (start-Keeps s now) v
  step-IsValid deps s (swept now) c v = Keeps-IsValid deps s (sweep s now) (sweep-Keeps s now) v
  step-IsValid deps s (cleanup_finished failed) c v =
      Keeps-IsValid deps s (retention_settled s failed) (retention_settled-Keeps s failed) v

pub init-IsValid : (D : Type 0) (deps : Deps) (now : ℕ) → IsValid deps (init {D = D} deps now)
init-IsValid D deps now =
    Keeps-IsValid deps (fields deps) (request_hydration (fields {D = D} deps) now)
      (request_hydration-Keeps (fields deps) now)
      (refl, elim (Bool-cases deps.enabled) [ inl t ↦ rw t (tt, tt) | inr f ↦ rw f tt ])

module _ {D : Type 0} where
  run-IsValid :
      (deps : Deps) (s : ReplayManager D) (events : List (Event D))
      → Capped deps
      → IsValid deps s
      → IsValid deps (run s events)
  run-IsValid deps s [] c v = v
  run-IsValid deps s (e ∷ events) c v =
      run-IsValid deps (step s e) events c (step-IsValid deps s e c v)

  -- If the cap is positive, and the strategy is not `age` or there is no retention window, then after
  -- every sequence of calls, timers and settlements of store operations, whatever they settle with,
  -- the settings are as they were, a topic has one buffer at most, and no buffer holds more messages
  -- than the cap.
  pub run-init-IsCapped :
      (deps : Deps) (now : ℕ) (events : List (Event D))
      → Capped deps
      → IsValid deps (run (init deps now) events)
  run-init-IsCapped deps now events c =
      run-IsValid deps (init deps now) events c (init-IsValid D deps now)
