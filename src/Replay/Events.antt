-- ===== src/Replay/Events.antt =====
-- src/core/replay-manager.ts: the calls of `ReplayManager` and the settlements of its store
-- operations as the events of one run, in the order in which their tasks run.
use cross_tab_worker_databus.Base.{ℕ, Bool, false, Option, none, some, List, [], ◌∷◌, if◌then◌else◌}
use cross_tab_worker_databus.Base.JsString.{Text}
use cross_tab_worker_databus.Types.{Message}
use cross_tab_worker_databus.Replay.Manager.{
  Deps, Hydration, ReplayManager, retention_settled, record_message, flush_persistence,
  clear_topic_state, clear_all, clear_before_state, suspend, reset_buffers,
}
use cross_tab_worker_databus.Replay.Manager
use cross_tab_worker_databus.Replay.Hydration.{
  request_hydration, load_settled, clear_settled, start, sweep,
}

pub data Event (D : Type 0) : Type 0 where
  recorded : Message D → ℕ → ℕ → Event D
  microtask : Event D
  topic_cleared : Text → Event D
  all_cleared : Event D
  before_cleared : ℕ → Event D
  stopped suspended buffers_reset : Event D
  hydration_requested : ℕ → Event D
  load_finished : Hydration → Option (List (Message D)) → ℕ → Event D
  hydration_clear_finished : Hydration → Bool → Event D
  started swept : ℕ → Event D
  cleanup_finished : Bool → Event D

module _ {D : Type 0} where
  abbrev pub fields : Deps → ReplayManager D
  fields deps = record {
    deps = deps;
    buffers = if deps.enabled then some [] else none;
    retry_generation = 0;
    pending_replay_persistence = [];
    persistence_flush_scheduled = false;
    hydration = none;
    hydration_epoch = 0;
    hydration_complete = false;
    hydration_failed = false;
    hydration_clear_all = false;
    hydration_cleared_topics = [];
    hydration_clear_before = none;
    retention_cleanup = none;
    retention_cutoff = none;
    retention_timer = none;
    issued = [];
    reported = [];
  }

  -- The constructor: the buffers are a map only if replay is enabled.
  abbrev pub init : Deps → ℕ → ReplayManager D
  init deps now = request_hydration (fields deps) now

  abbrev pub step : ReplayManager D → Event D → ReplayManager D
  step s (recorded m now later) = record_message s m now later
  step s microtask = flush_persistence s
  step s (topic_cleared topic) = clear_topic_state s topic
  step s all_cleared = clear_all s
  step s (before_cleared cutoff) = clear_before_state s cutoff
  step s stopped = Manager.stop s
  step s suspended = suspend s
  step s buffers_reset = reset_buffers s
  step s (hydration_requested now) = request_hydration s now
  step s (load_finished h loaded now) = load_settled s h loaded now
  step s (hydration_clear_finished h failed) = clear_settled s h failed
  step s (started now) = start s now
  step s (swept now) = sweep s now
  step s (cleanup_finished failed) = retention_settled s failed

  abbrev pub run : ReplayManager D → List (Event D) → ReplayManager D
  run s [] = s
  run s (e ∷ events) = run (step s e) events
