-- ===== src/Replay/Hydration.antt =====
-- src/core/replay-manager.ts: `requestHydration`, `hydrate`, `start` and `deliverReplay`. A hydration
-- runs in two rounds, each the settlement of a store operation after its retries: the optional
-- `clearBefore`, then the load. Every round names the epoch and the generation that it captured.
use cross_tab_worker_databus.Base.{
  ℕ, ◌-◌, min, Bool, true, false, not, ◌&&◌, ◌||◌, Option, none, some, List, [], ◌∷◌, ◌++◌, map,
  ltb, ◌==◌, if◌then◌else◌, is_some,
}
use cross_tab_worker_databus.Base.JsMap.{JsMap, get, has, set}
use cross_tab_worker_databus.Base.JsString.{Text, text_has_eq}
use cross_tab_worker_databus.Types.{Message}
use cross_tab_worker_databus.Replay.Manager.{
  Persistence, PersistenceOperation, Reported, Hydration, ReplayManager, can, issue, report, pruned,
  or_empty, deliver, schedule_retention_cleanup,
}

-- `replay: true` or a number, rounded down and at least 0.
pub data ReplayOption : Type 0 where
  flag : ReplayOption
  amount : ℕ → ReplayOption

module _ {D : Type 0} where
  -- The synchronous part of `hydrate`: its first operation. `now` is read for the cutoff.
  unfoldable pub begin_hydration : ReplayManager D → Persistence → ℕ → ReplayManager D
  begin_hydration s p now =
      let s1 = record s {
        hydration = some (record { epoch = s.hydration_epoch; generation = s.retry_generation });
      } in
      elim s.retention_ms [
        | none ↦ issue PersistenceOperation.load s1
        | some retention ↦
            if p.clear_before
            then issue (PersistenceOperation.clear_before (now - retention)) s1
            else issue PersistenceOperation.load s1
      ]

  unfoldable pub request_hydration : ReplayManager D → ℕ → ReplayManager D
  request_hydration s now = elim s.buffers [
    | none ↦ record s { hydration_complete = true }
    | some buffers ↦ elim s.persistence [
      | none ↦ record s { hydration_complete = true }
      | some p ↦ if is_some s.hydration || s.hydration_complete then s else begin_hydration s p now
    ]
  ]

  -- The finally clause: only the hydration that owns the current slot clears it.
  abbrev pub owns : Hydration → ReplayManager D → Bool
  owns h s = (s.hydration_epoch == h.epoch) && (s.retry_generation == h.generation)

  unfoldable pub release_slot : Hydration → ReplayManager D → ReplayManager D
  release_slot h s = record s { hydration = if owns h s then none else s.hydration }

  -- The catch clause.
  unfoldable pub hydration_error : Hydration → ReplayManager D → ReplayManager D
  hydration_error h s =
      if not (h.generation == s.retry_generation)
      then report Reported.retry_cancelled s
      else if not (h.epoch == s.hydration_epoch)
      then s
      else record (report Reported.backend_error s) {
        hydration_complete = true;
        hydration_failed = true;
      }

  -- A message of the snapshot that was cleared while the load was in flight.
  abbrev pub cleared : ReplayManager D → Message D → Bool
  cleared s m =
      s.hydration_clear_all
      || has m.topic s.hydration_cleared_topics
      || elim s.hydration_clear_before [
        | none ↦ false
        | some cutoff ↦ elim m.timestamp [ none ↦ false | some t ↦ ltb t cutoff ]
      ]

  -- The loop that groups the snapshot by topic.
  unfoldable pub group_by_topic :
      ReplayManager D
      → List (Message D)
      → JsMap Text (List (Message D))
      → JsMap Text (List (Message D))
  group_by_topic s [] grouped = grouped
  group_by_topic s (m ∷ loaded) grouped = group_by_topic s loaded (
      if cleared s m
      then grouped
      else set m.topic (or_empty (get m.topic grouped) ++ m ∷ []) grouped)

  -- Durable history goes ahead of the live tail.
  unfoldable pub merge_loaded :
      JsMap Text (List (Message D)) → JsMap Text (List (Message D)) → JsMap Text (List (Message D))
  merge_loaded [] buffers = buffers
  merge_loaded ((topic, durable) ∷ grouped) buffers =
      merge_loaded grouped (set topic (durable ++ or_empty (get topic buffers)) buffers)

  abbrev pub prune_all :
      ReplayManager D → ℕ → JsMap Text (List (Message D)) → JsMap Text (List (Message D))
  prune_all s now = map λ e. (e.0, pruned s now e.1)

  abbrev pub hydrated :
      ReplayManager D
      → List (Message D)
      → ℕ
      → JsMap Text (List (Message D))
      → JsMap Text (List (Message D))
  hydrated s loaded now buffers =
      prune_all s now (merge_loaded (group_by_topic s loaded []) buffers)

  -- The load resolves with a snapshot, or rejects after its retries.
  unfoldable pub load_settled :
      ReplayManager D → Hydration → Option (List (Message D)) → ℕ → ReplayManager D
  load_settled s h none now = release_slot h (hydration_error h s)
  load_settled s h (some loaded) now =
      if not (h.generation == s.retry_generation)
      then release_slot h (hydration_error h s)
      else if not (h.epoch == s.hydration_epoch)
      then release_slot h s
      else release_slot h (record s {
        buffers = elim s.buffers [ none ↦ none | some b ↦ some (hydrated s loaded now b) ];
        hydration_complete = true;
        hydration_failed = false;
      })

  -- The `clearBefore` of a hydration settles; a retry that finds another generation is cancelled.
  unfoldable pub clear_settled : ReplayManager D → Hydration → Bool → ReplayManager D
  clear_settled s h failed =
      if failed || not (h.generation == s.retry_generation)
      then release_slot h (hydration_error h s)
      else issue PersistenceOperation.load s

  unfoldable pub start : ReplayManager D → ℕ → ReplayManager D
  start s now =
      let s1 = record s {
        hydration_complete = if s.hydration_failed then false else s.hydration_complete;
        hydration_failed = false;
      } in
      let s2 = request_hydration s1 now in
      record s2 {
        retention_timer =
            if is_some s2.retention_timer || not (can (λ p. p.clear_before) s2.persistence)
            then s2.retention_timer
            else elim s2.retention_ms [
              | none ↦ none
              | some retention ↦ elim s2.retention_sweep_ms [
                | none ↦ none
                | some sweep ↦ if (retention == 0) || (sweep == 0) then none else some sweep
              ]
            ];
      }

  -- The interval of `start` fires.
  unfoldable pub sweep : ReplayManager D → ℕ → ReplayManager D
  sweep s now = elim s.retention_ms [
    | none ↦ s
    | some retention ↦ schedule_retention_cleanup s (now - retention)
  ]

  abbrev pub replay_limit : ReplayManager D → ReplayOption → ℕ
  replay_limit s flag = s.max_per_topic
  replay_limit s (amount n) = min n s.max_per_topic

  -- The state, and what is delivered in the task of the call: with a persistence nothing is, since the
  -- delivery waits for the hydration and is then `deliver` of the state that it finds.
  unfoldable pub deliver_replay :
      ReplayManager D → Text → ReplayOption → ℕ → ReplayManager D × List (Message D)
  deliver_replay s topic option now = elim s.buffers [
    | none ↦ (s, [])
    | some buffers ↦
        if is_some s.persistence
        then (request_hydration s now, [])
        else (s, deliver s topic (replay_limit s option))
  ]
