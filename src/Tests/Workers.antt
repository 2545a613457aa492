-- ===== src/Tests/Workers.antt =====
-- A run of src/workers/port-reaper.ts.
use cross_tab_worker_databus.Base.{◌≡◌, refl, true, false, List, [], ◌∷◌, ◌++◌, ℕ_discrete}
use cross_tab_worker_databus.Base.{nat_has_eq}
use cross_tab_worker_databus.Base.JsMap.{get}
use cross_tab_worker_databus.Workers.Reaper.{
  HeartbeatInterval, ReapTarget, PortReaper, init, reap, finite,
}
use cross_tab_worker_databus.Workers.Reaping.{Passed, teardowns, reap-Passed}
use cross_tab_worker_databus.Workers.Cadence.{run-init-IsValid}
use cross_tab_worker_databus.Workers.Tracking.{
  Event, registered, touched, timeout_set, removed, ticked, run, IsValid,
}

abbrev target : ReapTarget
target = record { notify_throws = false; close_throws = true; stop_throws = false }

abbrev events : List Event
events =
    registered 1 target 0
    ∷ registered 2 target 5
    ∷ timeout_set 2 (HeartbeatInterval.amount 100)
    ∷ touched 1 400
    ∷ ticked 500
    ∷ removed 1
    ∷ []

run-init-IsValid_example : IsValid (run init events)
run-init-IsValid_example = run-init-IsValid events

abbrev tracked : PortReaper
tracked = record init {
  targets = (1, target) ∷ (2, target) ∷ [];
  last_seen_at = (1, 400) ∷ (2, 5) ∷ [];
  session_timeout_ms = (1, finite 30000) ∷ (2, finite 300) ∷ [];
}

reap-Passed_example :
    Passed 500 tracked.targets tracked (reap tracked 500) 2
    × ((reap tracked 500).calls ≡ tracked.calls ++ teardowns 500 tracked tracked.targets)
unfolding get ℕ_discrete
reap-Passed_example = reap-Passed tracked 500 2 (refl, (refl, tt))
