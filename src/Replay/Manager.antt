-- ===== src/Replay/Manager.antt =====
-- src/core/replay-manager.ts: the class `ReplayManager`, but for `withPersistenceRetry` (Retry) and
-- the hydration (Hydration). An operation of the durable store is issued in the task of the call and
-- settles in a later one: the calls append it to `issued`.
use cross_tab_worker_databus.Base.{
  ℕ, ◌+◌, ◌-◌, max, Bool, true, false, not, ◌&&◌, Option, none, some, List, [], ◌∷◌, ◌++◌, map, ltb,
  leb, ◌==◌, if◌then◌else◌, is_some, length, filterb, suffix,
}
use cross_tab_worker_databus.Base.JsMap.{JsMap, get, set, delete}
use cross_tab_worker_databus.Base.JsString.{Text, text_has_eq, eqb}
use cross_tab_worker_databus.Types.{Message, PruneStrategy}
use cross_tab_worker_databus.Routing.Topics.{is_wildcard_topic, topic_matches_pattern}
use cross_tab_worker_databus.Replay.Pruning.{prune_replay_history}

-- The optional methods that a backend has.
pub record Persistence : Type 0 where
  pub append_batch : Bool
  pub clear : Bool
  pub clear_topic : Bool
  pub clear_before : Bool

pub record Deps : Type 0 where
  pub enabled : Bool
  pub max_per_topic : ℕ
  pub persistence : Option Persistence
  pub retention_ms : Option ℕ
  pub prune_strategy : PruneStrategy
  pub retention_sweep_ms : Option ℕ

pub data PersistenceOperation (D : Type 0) : Type 0 where
  load clear : PersistenceOperation D
  append : Message D → PersistenceOperation D
  append_batch : List (Message D) → PersistenceOperation D
  clear_topic : Text → PersistenceOperation D
  clear_before : ℕ → PersistenceOperation D

-- What `onPersistenceError` is called with: the backend's error, or a cancelled retry.
pub data Reported : Type 0 where
  backend_error retry_cancelled : Reported

-- The hydration that owns the slot, by the epoch and the generation that it captured.
pub record Hydration : Type 0 where
  pub epoch : ℕ
  pub generation : ℕ

pub record ReplayManager (D : Type 0) : Type 0 where
  pub deps : Deps
  pub open deps use *
  pub buffers : Option (JsMap Text (List (Message D)))
  pub retry_generation : ℕ
  pub pending_replay_persistence : List (Message D)
  pub persistence_flush_scheduled : Bool
  pub hydration : Option Hydration
  pub hydration_epoch : ℕ
  pub hydration_complete : Bool
  pub hydration_failed : Bool
  pub hydration_clear_all : Bool
  pub hydration_cleared_topics : JsMap Text (Unit {0})
  pub hydration_clear_before : Option ℕ
  -- The generation of the cleanup pass that is in flight.
  pub retention_cleanup : Option ℕ
  pub retention_cutoff : Option ℕ
  pub retention_timer : Option ℕ
  pub issued : List (PersistenceOperation D)
  pub reported : List Reported

abbrev pub can : (Persistence → Bool) → Option Persistence → Bool
can method none = false
can method (some p) = method p

module _ {D : Type 0} where
  abbrev pub issue : PersistenceOperation D → ReplayManager D → ReplayManager D
  issue op s = record s { issued = s.issued ++ op ∷ [] }

  abbrev pub issue_if : Bool → PersistenceOperation D → ReplayManager D → ReplayManager D
  issue_if b op s = record s { issued = if b then s.issued ++ op ∷ [] else s.issued }

  abbrev pub report : Reported → ReplayManager D → ReplayManager D
  report r s = record s { reported = s.reported ++ r ∷ [] }

  abbrev pub pruned : ReplayManager D → ℕ → List (Message D) → List (Message D)
  pruned s now ms = prune_replay_history ms (record {
    max_per_topic = s.max_per_topic;
    prune_strategy = s.prune_strategy;
    retention_ms = s.retention_ms;
    now = now;
  })

  abbrev pub or_empty : Option (List (Message D)) → List (Message D)
  or_empty none = []
  or_empty (some ms) = ms

  -- `scheduleRetentionCleanup`, and the first round of the pass that it starts, which runs before the
  -- call returns.
  unfoldable pub schedule_retention_cleanup : ReplayManager D → ℕ → ReplayManager D
  schedule_retention_cleanup s cutoff =
      if not (can (λ p. p.clear_before) s.persistence)
      then s
      else let newest : ℕ = elim s.retention_cutoff [ none ↦ cutoff | some c ↦ max c cutoff ] in
        if is_some s.retention_cleanup
        then record s { retention_cutoff = some newest }
        else issue (clear_before newest)
            (record s { retention_cutoff = none; retention_cleanup = some s.retry_generation })

  -- A `clearBefore` of the cleanup pass settles: the loop goes on in the same generation, and else
  -- the pass ends and hands a cutoff that is left to a fresh one.
  unfoldable pub retention_settled : ReplayManager D → Bool → ReplayManager D
  retention_settled s failed = elim s.retention_cleanup [
    | none ↦ s
    | some generation ↦
        let same = generation == s.retry_generation in
        let s1 = if failed && same then report backend_error s else s in
        let ended = record s1 { retention_cleanup = none } in
        elim s1.retention_cutoff [
          | none ↦ ended
          | some cutoff ↦
              if same
              then issue (clear_before cutoff) (record s1 { retention_cutoff = none })
              else schedule_retention_cleanup ended cutoff
        ]
  ]

  -- The end of `record`, with a persistence: the append, and the retention cleanup.
  unfoldable pub persist : ReplayManager D → Message D → ℕ → ReplayManager D
  persist s message later =
      let s1 =
        if can (λ p. p.append_batch) s.persistence
        then record s {
          pending_replay_persistence = s.pending_replay_persistence ++ message ∷ [];
          persistence_flush_scheduled = true;
        }
        else issue_if (is_some s.persistence) (append message) s in
      elim s.retention_ms [
        | none ↦ s1
        | some retention ↦
            if can (λ p. p.clear_before) s.persistence
            then schedule_retention_cleanup s1 (later - retention)
            else s1
      ]

  -- `now` is read for the pruning, `later` for the cleanup.
  unfoldable pub record_message : ReplayManager D → Message D → ℕ → ℕ → ReplayManager D
  record_message s message now later = elim s.buffers [
    | none ↦ s
    | some buffers ↦
        let buffer = or_empty (get message.topic buffers) ++ message ∷ [] in
        persist (record s { buffers = some (set message.topic (pruned s now buffer) buffers) })
          message later
  ]

  -- The queued microtask of `schedulePersistenceFlush`.
  unfoldable pub flush_persistence : ReplayManager D → ReplayManager D
  flush_persistence s =
      let batch = s.pending_replay_persistence in
      let s1 = record s { persistence_flush_scheduled = false; pending_replay_persistence = [] } in
      issue_if (ltb 0 (length batch) && is_some s.persistence) (append_batch batch) s1

  abbrev pub mark_replayed : Message D → Message D
  mark_replayed m = record m { replayed = true }

  -- `deliverBuffer`: the messages that a handler is called with. Whether a call throws only decides
  -- whether `onDispatchError` is called, so the handler's answers are no argument.
  abbrev pub deliver_buffer : ℕ → List (Message D) → List (Message D)
  deliver_buffer limit buffer = map mark_replayed (suffix limit buffer)

  unfoldable pub deliver_matching : Text → ℕ → JsMap Text (List (Message D)) → List (Message D)
  deliver_matching pattern limit [] = []
  deliver_matching pattern limit ((topic, buffer) ∷ buffers) =
      if topic_matches_pattern pattern topic
      then deliver_buffer limit buffer ++ deliver_matching pattern limit buffers
      else deliver_matching pattern limit buffers

  unfoldable pub deliver : ReplayManager D → Text → ℕ → List (Message D)
  deliver s topic limit = elim s.buffers [
    | none ↦ []
    | some buffers ↦
        if limit == 0
        then []
        else if is_wildcard_topic topic
        then deliver_matching topic limit buffers
        else deliver_buffer limit (or_empty (get topic buffers))
  ]

  abbrev pub other_topic : Text → Message D → Bool
  other_topic topic m = not (eqb m.topic topic)

  -- What `onTopicUnsubscribed` and `clearTopic` do to the state; they differ in who sees a failure.
  unfoldable pub clear_topic_state : ReplayManager D → Text → ReplayManager D
  clear_topic_state s topic = elim s.buffers [
    | none ↦ s
    | some buffers ↦
        issue_if (can (λ p. p.clear_topic) s.persistence) (clear_topic topic) (record s {
          hydration_cleared_topics = set topic tt s.hydration_cleared_topics;
          buffers = some (delete topic buffers);
          pending_replay_persistence = filterb (other_topic topic) s.pending_replay_persistence;
        })
  ]

  unfoldable pub clear_all : ReplayManager D → ReplayManager D
  clear_all s = elim s.buffers [
    | none ↦ s
    | some buffers ↦ issue_if (can (λ p. p.clear) s.persistence) clear (record s {
      hydration_clear_all = true;
      buffers = some [];
      pending_replay_persistence = [];
    })
  ]

  -- `timestamp === undefined || timestamp >= cutoff`.
  abbrev pub not_before : ℕ → Message D → Bool
  not_before cutoff m = elim m.timestamp [ none ↦ true | some t ↦ leb cutoff t ]

  unfoldable pub keep_from : ℕ → JsMap Text (List (Message D)) → JsMap Text (List (Message D))
  keep_from cutoff [] = []
  keep_from cutoff ((topic, messages) ∷ buffers) =
      let kept = filterb (not_before cutoff) messages in
      if ltb 0 (length kept)
      then (topic, kept) ∷ keep_from cutoff buffers
      else keep_from cutoff buffers

  unfoldable pub clear_before_state : ReplayManager D → ℕ → ReplayManager D
  clear_before_state s cutoff =
      let s1 = issue_if (can (λ p. p.clear_before) s.persistence) (clear_before cutoff) s in
      let s2 : ReplayManager D = elim s.buffers [
        | none ↦ s1
        | some buffers ↦ record s1 {
          hydration_clear_before =
              some (elim s.hydration_clear_before [ none ↦ cutoff | some c ↦ max c cutoff ]);
          buffers = some (keep_from cutoff buffers);
        }
      ] in
      record s2 {
        pending_replay_persistence = filterb (not_before cutoff) s2.pending_replay_persistence;
      }

  unfoldable pub stop : ReplayManager D → ReplayManager D
  stop s = record s { retention_timer = none }

  unfoldable pub suspend : ReplayManager D → ReplayManager D
  suspend s = stop (record s {
    retry_generation = s.retry_generation + 1;
    hydration_epoch = if is_some s.hydration then s.hydration_epoch + 1 else s.hydration_epoch;
    hydration_complete = if is_some s.hydration then false else s.hydration_complete;
    hydration = none;
    pending_replay_persistence = [];
    retention_cutoff = none;
  })

  unfoldable pub reset_buffers : ReplayManager D → ReplayManager D
  reset_buffers s = record s {
    buffers = elim s.buffers [ none ↦ none | some b ↦ some [] ];
    hydration_epoch = s.hydration_epoch + 1;
    hydration = none;
    hydration_complete = false;
    hydration_failed = false;
    hydration_clear_all = false;
    hydration_cleared_topics = [];
    hydration_clear_before = none;
  }
