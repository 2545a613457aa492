-- ===== src/Tests/Dedup.antt =====
-- Runs of src/core/dedup-manager.ts.
use cross_tab_worker_databus.Base.{
  ℕ, ◌≤◌, ◌≡◌, refl, true, none, some, List, [], ◌∷◌, arith, length,
}
use cross_tab_worker_databus.Base.JsMap.{UniqueKeys}
use cross_tab_worker_databus.Base.JsString.{Text, text, text_has_eq}
use cross_tab_worker_databus.Dedup.Manager.{Options, init}
use cross_tab_worker_databus.Dedup.Bounded.{Call, is_duplicate_call, sweep, run, run-init-bounded}
use cross_tab_worker_databus.Dedup.History.{
  Publication, suppressions, verdicts, suppressions-verdicts,
}

abbrev options : Options
options = record {
  enabled = true;
  max_entries = 2;
  ttl_ms = 100;
  adaptive_bounds = none;
  sweep_ms = none;
}

abbrev publication : Text → ℕ → Publication
publication id at = record { id = id; topic = text "t"; at = at }

abbrev publications : List Publication
publications = publication (text "x") 1 ∷ publication (text "x") 5 ∷ publication (text "x") 200 ∷ []

suppressions-verdicts_example :
    suppressions (init options (some 0)) publications ≡ verdicts 2 100 [] publications
suppressions-verdicts_example =
    suppressions-verdicts options 0 publications refl refl (omega arith)
      (refl, omega arith, (refl, omega arith, (refl, omega arith, tt)))

abbrev calls : List Call
calls =
    is_duplicate_call (some 1) (some 1) (text "x") (text "t")
    ∷ sweep (some 300) none
    ∷ is_duplicate_call none (some 301) (text "y") (text "t")
    ∷ []

run-init-bounded_example :
    (length (run (init options (some 0)) calls).seen_message_ids ≤ 2)
    × UniqueKeys (run (init options (some 0)) calls).seen_message_ids
run-init-bounded_example = run-init-bounded options (some 0) calls
