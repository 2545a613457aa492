-- ===== src/Replay/Buffers.antt =====
-- About src/core/replay-manager.ts: the functions on the buffers against the cap.
use cross_tab_worker_databus.Base.{
  ℕ, ◌≤◌, ◌<◌, ◌≡◌, refl, sym, subst, ◌∙◌, ◌⊎◌, inl, inr, Bool, true, false, Option, none, some,
  List, [], ◌∷◌, ◌++◌, arith, length, All, length-filterb-le, length-suffix,
}
use cross_tab_worker_databus.Base.JsMap.{
  JsMap, get, set, delete, UniqueKeys, UniqueKeys-set, UniqueKeys-delete, All-set, All-delete,
}
use cross_tab_worker_databus.Base.JsString.{Text, text_has_eq}
use cross_tab_worker_databus.Types.{Message, PruneStrategy}
use cross_tab_worker_databus.Replay.Pruning.{prune_replay_history, prune_by_age, cap_newest}
use cross_tab_worker_databus.Replay.PruningLaws.{cap_newest-suffix}
use cross_tab_worker_databus.Replay.Manager.{
  Deps, ReplayManager, not_before, pruned, or_empty, keep_from,
}
use cross_tab_worker_databus.Replay.Hydration.{merge_loaded, prune_all}

abbrev pub is_age : PruneStrategy → Bool
is_age PruneStrategy.count = false
is_age PruneStrategy.age = true
is_age PruneStrategy.both = false

-- The settings under which the cap holds: every one but `age` with a retention window.
abbrev pub Capped : Deps → Type 0
Capped deps =
    (0 < deps.max_per_topic) × ((deps.retention_ms ≡ none) ⊎ (is_age deps.prune_strategy ≡ false))

module _ {D : Type 0} where
  abbrev pub Fits : ℕ → Text × List (Message D) → Type 0
  Fits n e = length e.1 ≤ n

  abbrev pub ValidBuffers : ℕ → JsMap Text (List (Message D)) → Type 0
  ValidBuffers n b = UniqueKeys b × All (Fits n) b

  -- One buffer for a topic at most, and none of them longer than the cap.
  abbrev pub IsBounded : ℕ → Option (JsMap Text (List (Message D))) → Type 0
  IsBounded n none = Unit
  IsBounded n (some b) = ValidBuffers n b

  abbrev pub IsValid : Deps → ReplayManager D → Type 0
  IsValid deps s = (s.deps ≡ deps) × IsBounded deps.max_per_topic s.buffers

  length-cap_newest-le : (n : ℕ) (ms : List (Message D)) → 0 < n → length (cap_newest n ms) ≤ n
  length-cap_newest-le n ms h =
      subst (λ l. length l ≤ n) (sym (cap_newest-suffix n ms h)) (omega (arith, length-suffix n ms))

  length-prune-le :
      (n now : ℕ) (p : PruneStrategy) (r : Option ℕ) (ms : List (Message D))
      → 0 < n
      → (r ≡ none) ⊎ (is_age p ≡ false)
      → length (
          prune_replay_history ms
            (record { max_per_topic = n; prune_strategy = p; retention_ms = r; now = now }))
        ≤ n
  unfolding prune_replay_history prune_by_age
  length-prune-le n now p none ms h c = length-cap_newest-le n ms h
  length-prune-le n now PruneStrategy.count (some r) ms h c = length-cap_newest-le n ms h
  length-prune-le n now PruneStrategy.age (some r) ms h (inl e) = cc
  length-prune-le n now PruneStrategy.age (some r) ms h (inr e) = cc
  length-prune-le n now PruneStrategy.both (some r) ms h c = length-cap_newest-le n _ h

  pub length-pruned-le :
      (s : ReplayManager D) (now : ℕ) (ms : List (Message D))
      → Capped s.deps
      → length (pruned s now ms) ≤ s.max_per_topic
  length-pruned-le s now ms (pos, c) =
      length-prune-le s.max_per_topic now s.prune_strategy s.retention_ms ms pos c

  pub set-ValidBuffers :
      (n : ℕ) (topic : Text) (ms : List (Message D)) (b : JsMap Text (List (Message D)))
      → ValidBuffers n b
      → length ms ≤ n
      → ValidBuffers n (set topic ms b)
  set-ValidBuffers n topic ms b (u, f) h =
      (UniqueKeys-set topic ms b u, All-set (Fits n) topic ms b f (λ j. h))

  pub delete-ValidBuffers :
      (n : ℕ) (topic : Text) (b : JsMap Text (List (Message D)))
      → ValidBuffers n b
      → ValidBuffers n (delete topic b)
  delete-ValidBuffers n topic b (u, f) =
      (UniqueKeys-delete topic b u, All-delete (Fits n) topic b f)

  get-keep_from-none :
      (cutoff : ℕ) (t : Text) (b : JsMap Text (List (Message D)))
      → get t b ≡ none
      → get t (keep_from cutoff b) ≡ none
  unfolding get keep_from
  get-keep_from-none cutoff t [] h = refl
  get-keep_from-none cutoff t ((k, ms) ∷ b) h = ground (arith, get-keep_from-none cutoff t b)

  pub keep_from-ValidBuffers :
      (n cutoff : ℕ) (b : JsMap Text (List (Message D)))
      → ValidBuffers n b
      → ValidBuffers n (keep_from cutoff b)
  unfolding keep_from
  keep_from-ValidBuffers n cutoff [] v = (tt, tt)
  keep_from-ValidBuffers n cutoff ((k, ms) ∷ b) (u, f) =
      let short = length-filterb-le (not_before cutoff) ms in
      ground
        (arith, get-keep_from-none cutoff k b, short, keep_from-ValidBuffers n cutoff b (u.1, f.1))

  pub merge_loaded-UniqueKeys :
      (grouped b : JsMap Text (List (Message D)))
      → UniqueKeys b
      → UniqueKeys (merge_loaded grouped b)
  unfolding merge_loaded
  merge_loaded-UniqueKeys [] b u = u
  merge_loaded-UniqueKeys ((topic, durable) ∷ grouped) b u =
      merge_loaded-UniqueKeys grouped (set topic (durable ++ or_empty (get topic b)) b)
        (UniqueKeys-set topic (durable ++ or_empty (get topic b)) b u)

  pub get-prune_all :
      (s : ReplayManager D) (now : ℕ) (t : Text) (b : JsMap Text (List (Message D)))
      → get t (prune_all s now b)
        ≡ elim (get t b) [ none ↦ none | some ms ↦ some (pruned s now ms) ]
  unfolding get
  get-prune_all s now t [] = refl
  get-prune_all s now t ((k, ms) ∷ b) = ground (arith, get-prune_all s now t b)

  pub prune_all-ValidBuffers :
      (s : ReplayManager D) (now : ℕ) (b : JsMap Text (List (Message D)))
      → Capped s.deps
      → UniqueKeys b
      → ValidBuffers s.max_per_topic (prune_all s now b)
  prune_all-ValidBuffers s now [] c u = (tt, tt)
  prune_all-ValidBuffers s now ((k, ms) ∷ b) c u =
      let (v, f) = prune_all-ValidBuffers s now b c u.1 in
      ((get-prune_all s now k b ∙ rw u.0 refl, v), (length-pruned-le s now ms c, f))
