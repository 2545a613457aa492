-- ===== src/Tests/Routing.antt =====
-- Runs of src/core/routing.ts.
use cross_tab_worker_databus.Base.{
  ℕ, ◌≤◌, ◌≡◌, refl, sym, subst, ◌↔◌, ◌⊎◌, inl, inr, true, false, none, some, List, [], ◌∷◌, length,
  In, nat_has_eq,
}
use cross_tab_worker_databus.Base.JsString.{Text, text}
use cross_tab_worker_databus.Base.Number.{diff, diff_number}
use cross_tab_worker_databus.Types.{WorkerRecord, WorkerStatus, WorkerRole, TabVisibility}
use cross_tab_worker_databus.Routing.Select.{
  select_least_loaded_worker, select_active_workers, active_candidates, before, sort, insert_sorted,
  is_visible,
}
use cross_tab_worker_databus.Routing.Topics.{is_empty, topic_matches_pattern}
use cross_tab_worker_databus.Routing.SelectLaws.{IsLeastOf, select_least_loaded_worker-IsLeastOf}
use cross_tab_worker_databus.Routing.OrderLaws.{chosen_id, select_least_loaded_worker-order}
use cross_tab_worker_databus.Routing.ActiveLaws.{
  IsAvailable, select_active_workers-earliest, select_active_workers-eligible,
}
use cross_tab_worker_databus.Routing.TopicsLaws.{Covers, topic_matches_pattern-Covers}

abbrev worker : Text → ℕ → ℕ → TabVisibility → WorkerRecord diff_number
worker id load at v = record {
  protocol_version = some 1;
  worker_id = id;
  tab_id = id;
  load = diff load 0;
  throughput = none;
  role = WorkerRole.active;
  status = WorkerStatus.connected;
  visibility_state = v;
  heartbeat_at = 0;
  registered_at = at;
}

abbrev busy : WorkerRecord diff_number
busy = worker (text "a") 5 10 TabVisibility.visible

abbrev idle : WorkerRecord diff_number
idle = worker (text "b") 1 20 TabVisibility.hidden

abbrev both : List (WorkerRecord diff_number)
both = busy ∷ idle ∷ []

select_least_loaded_worker-IsLeastOf_example :
    IsLeastOf diff_number none both (select_least_loaded_worker diff_number both none none)
select_least_loaded_worker-IsLeastOf_example =
    select_least_loaded_worker-IsLeastOf diff_number none both

swap : (w : WorkerRecord diff_number) → In w (busy ∷ idle ∷ []) ↔ In w (idle ∷ busy ∷ [])
swap w = (there, back)
  where
    there : In w (busy ∷ idle ∷ []) → In w (idle ∷ busy ∷ [])
    there (inl e) = inr (inl e)
    there (inr (inl e)) = inl e
    there (inr (inr e)) = inr (inr e)

    back : In w (idle ∷ busy ∷ []) → In w (busy ∷ idle ∷ [])
    back (inl e) = inr (inl e)
    back (inr (inl e)) = inl e
    back (inr (inr e)) = inr (inr e)

select_least_loaded_worker-order_example :
    chosen_id diff_number none (select_least_loaded_worker diff_number both none none)
    ≡ chosen_id diff_number none
        (select_least_loaded_worker diff_number (idle ∷ busy ∷ []) none none)
select_least_loaded_worker-order_example =
    select_least_loaded_worker-order diff_number none both (idle ∷ busy ∷ []) swap

chosen : select_active_workers diff_number both 2 ≡ busy ∷ []
unfolding select_active_workers active_candidates sort insert_sorted
chosen = refl

candidates : active_candidates diff_number both ≡ busy ∷ []
unfolding active_candidates
candidates = refl

select_active_workers-earliest_example :
    (length (select_active_workers diff_number both 2) ≤ 2)
    × (In busy (select_active_workers diff_number both 2) ⊎ (before diff_number busy busy ≡ false))
select_active_workers-earliest_example =
    select_active_workers-earliest diff_number both 2 busy busy
      (subst (In busy) (sym chosen) (inl refl)) (subst (In busy) (sym candidates) (inl refl))

select_active_workers-eligible_example :
    IsAvailable diff_number both busy
    × ((is_visible busy.visibility_state ≡ true) ⊎ (is_visible idle.visibility_state ≡ false))
select_active_workers-eligible_example =
    select_active_workers-eligible diff_number both 2 busy idle
      (subst (In busy) (sym chosen) (inl refl)) (inr (inl refl), inl refl)

topic_matches_pattern-Covers_example : (topic_matches_pattern (text "a.*") (text "a.b") ≡ true) ↔ (
    (is_empty (text "a.*") ≡ false)
    × (is_empty (text "a.b") ≡ false)
    × Covers (text "a.*") (text "a.b"))
topic_matches_pattern-Covers_example = topic_matches_pattern-Covers (text "a.*") (text "a.b")
