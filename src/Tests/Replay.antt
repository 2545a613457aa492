-- ===== src/Tests/Replay.antt =====
-- Runs of src/core/replay-pruning.ts and src/core/replay-manager.ts.
use cross_tab_worker_databus.Base.{
  ℕ, ◌≤◌, min, ◌≡◌, refl, ap, ◌≢◌, ◌⊎◌, inl, true, false, ◌&&◌, Option, none, some, List, [], ◌∷◌,
  ◌++◌, map, arith, is_some, filterb, suffix,
}
use cross_tab_worker_databus.Base.JsMap.{get}
use cross_tab_worker_databus.Base.JsString.{text, text_has_eq, eqb}
use cross_tab_worker_databus.Types.{Message, PruneStrategy}
use cross_tab_worker_databus.Routing.Topics.{is_wildcard_topic}
use cross_tab_worker_databus.Replay.Pruning.{prune_replay_history, is_timestampless}
use cross_tab_worker_databus.Replay.PruningLaws.{strategy, fresh, prune_replay_history-age}
use cross_tab_worker_databus.Replay.Retry.{Attempt, thrown, with_persistence_retry}
use cross_tab_worker_databus.Replay.RetryLaws.{Ends, with_persistence_retry-Ends}
use cross_tab_worker_databus.Replay.Manager.{
  Persistence, Deps, Hydration, ReplayManager, pruned, deliver, mark_replayed, other_topic, suspend,
  reset_buffers, clear_topic_state,
}
use cross_tab_worker_databus.Replay.Hydration.{load_settled, request_hydration, begin_hydration}
use cross_tab_worker_databus.Replay.Events.{
  Event, recorded, topic_cleared, suspended, load_finished, fields, init, run,
}
use cross_tab_worker_databus.Replay.Frame.{Keeps}
use cross_tab_worker_databus.Replay.Buffers.{IsValid}
use cross_tab_worker_databus.Replay.Capped.{run-init-IsCapped}
use cross_tab_worker_databus.Replay.Slot.{load_settled-superseded, load_settled-accepted}
use cross_tab_worker_databus.Replay.Delivery.{buffer_of, record_all, of_topic, deliver-record_all}
use cross_tab_worker_databus.Replay.Merge.{taken, load_settled-buffer_of, clear_topic_state-lasts}

abbrev message : ℕ → Option ℕ → Message ℕ
message n at = record {
  topic = text "t";
  payload = n;
  message_id = none;
  timestamp = at;
  replayed = false;
  origin_tab_id = none;
}

abbrev history : List (Message ℕ)
history = message 1 (some 5) ∷ message 2 none ∷ message 3 (some 90) ∷ message 4 none ∷ []

prune_replay_history-age_example :
    let kept = prune_replay_history history (strategy 1 PruneStrategy.age 20 100) in
    (filterb (λ m. is_some m.timestamp) kept
      ≡ filterb (λ m. is_some m.timestamp && fresh 100 20 m) history)
    × (filterb is_timestampless kept ≡ suffix 1 (filterb is_timestampless history))
prune_replay_history-age_example = prune_replay_history-age 1 20 100 history

abbrev failing : Attempt ℕ
failing = record { outcome = none; settled_generation = 0; delayed_generation = 0 }

with_persistence_retry-Ends_example :
    let r = with_persistence_retry 0 2 50 (failing ∷ failing ∷ []) in
    (n : ℕ) × Ends 0 n (failing ∷ failing ∷ []) r.settlement
    × (r.attempts ≡ n)
    × (n ≤ 2)
    × ((r.settlement ≢ thrown) ⊎ (n ≡ 2))
with_persistence_retry-Ends_example =
    with_persistence_retry-Ends 0 2 50 (failing ∷ failing ∷ []) (omega arith) (omega arith)

abbrev backend : Persistence
backend = record { append_batch = true; clear = true; clear_topic = true; clear_before = true }

abbrev deps : Deps
deps = record {
  enabled = true;
  max_per_topic = 2;
  persistence = some backend;
  retention_ms = none;
  prune_strategy = PruneStrategy.count;
  retention_sweep_ms = none;
}

abbrev flying : Hydration
flying = record { epoch = 0; generation = 0 }

abbrev events : List (Event ℕ)
events =
    recorded (message 1 none) 0 0
    ∷ load_finished flying (some history) 0
    ∷ topic_cleared (text "t")
    ∷ suspended
    ∷ []

run-init-IsCapped_example : IsValid deps (run (init deps 0) events)
run-init-IsCapped_example = run-init-IsCapped deps 0 events (omega arith, inl refl)

-- A manager whose load is in flight, with one live message.
abbrev loading : ReplayManager ℕ
loading = record (fields deps) {
  buffers = some ((text "t", message 7 none ∷ []) ∷ []);
  hydration = some flying;
}

load_settled-superseded_example :
    Keeps
      (run (suspend loading) events)
      (load_settled (run (suspend loading) events) flying (some history) 9)
    × Keeps
        (run (reset_buffers loading) events)
        (load_settled (run (reset_buffers loading) events) flying (some history) 9)
load_settled-superseded_example =
    load_settled-superseded loading events flying (some history) 9 (omega arith) (omega arith)

load_settled-accepted_example :
    let s : ReplayManager ℕ = run (init deps 0) [] in
    let t = load_settled s flying (some history) 9 in
    (t.hydration_complete ≡ true)
    × (t.hydration_failed ≡ false)
    × (t.hydration ≡ none)
    × (request_hydration s 9 ≡ s)
unfolding request_hydration begin_hydration
load_settled-accepted_example = load_settled-accepted deps 0 [] flying history 9 refl

load_settled-buffer_of_example :
    buffer_of (text "t") (load_settled loading flying (some history) 9)
    ≡ pruned loading 9 (taken loading (text "t") history ++ buffer_of (text "t") loading)
load_settled-buffer_of_example =
    load_settled-buffer_of loading flying history 9 (text "t") refl refl

clear_topic_state-lasts_example :
    let t = clear_topic_state loading (text "t") in
    (buffer_of (text "t") t ≡ [])
    × (t.pending_replay_persistence
        ≡ filterb (other_topic (text "t")) loading.pending_replay_persistence)
    × (buffer_of (text "t") (load_settled t flying (some history) 9) ≡ [])
    × (buffer_of (text "u") t ≡ buffer_of (text "u") loading)
clear_topic_state-lasts_example =
    clear_topic_state-lasts loading (text "t") (text "u") flying (some history) 9 refl (λ e.
      let f : eqb (text "u") (text "u") ≡ eqb (text "u") (text "t") = ap (eqb (text "u")) e in cc)

abbrev calls : List (Message ℕ × ℕ × ℕ)
calls = (message 1 none, 0, 0) ∷ (message 2 none, 1, 1) ∷ (message 3 none, 2, 2) ∷ []

deliver-record_all_example :
    deliver (record_all (fields deps) calls) (text "t") 5
    ≡ map mark_replayed (suffix (min 5 2) (of_topic (text "t") calls))
unfolding get is_wildcard_topic
deliver-record_all_example =
    deliver-record_all (fields deps) (text "t") 5 calls (omega arith, inl refl) refl refl refl
