-- ===== src/Routing/Select.antt =====
-- src/core/routing.ts: `selectLeastLoadedWorker`, `selectActiveWorkers`, `selectRebalanceTarget` and
-- `hasActiveOwner`. `Array.prototype.sort` is the stable sort of the language.
use cross_tab_worker_databus.Base.{
  ℕ, Bool, true, false, not, ◌||◌, Option, none, some, List, [], ◌∷◌, ltb, ◌==◌, if◌then◌else◌,
  take, filterb, anyb, findb,
}
use cross_tab_worker_databus.Base.JsString.{Text, eqb, lessb}
use cross_tab_worker_databus.Base.Number.{Number}
use cross_tab_worker_databus.Types.{
  WorkerRecord, LoadWeightingOptions, WorkerRoute, WorkerStatus, TabVisibility,
}
use cross_tab_worker_databus.Routing.Load.{effective_worker_load}

abbrev pub default_max_active_workers : ℕ
default_max_active_workers = 3

-- `status === 'connecting' || status === 'connected'`.
abbrev pub is_healthy : WorkerStatus → Bool
is_healthy WorkerStatus.connecting = true
is_healthy WorkerStatus.connected = true
is_healthy WorkerStatus.disconnected = false
is_healthy WorkerStatus.error = false

abbrev pub is_visible : TabVisibility → Bool
is_visible TabVisibility.visible = true
is_visible TabVisibility.hidden = false

-- `array.length > 0 ? array : other`.
abbrev pub nonempty_or {ℓ} : {A : Type ℓ} → List A → List A → List A
nonempty_or [] other = other
nonempty_or (x ∷ xs) other = x ∷ xs

module _ (N : Number) where
  open N use {is_zero, is_neg, le, add, sub, of_nat}

  -- The callback of the reduction: the better of the least worker so far and the next one.
  unfoldable pub lesser :
      Option (LoadWeightingOptions N) → WorkerRecord N → WorkerRecord N → WorkerRecord N
  lesser options least worker =
      let by_load =
        sub (effective_worker_load N worker options) (effective_worker_load N least options) in
      if not (is_zero by_load)
      then (if is_neg by_load then worker else least)
      else if lessb worker.worker_id least.worker_id
      then worker
      else least

  unfoldable pub least_from :
      Option (LoadWeightingOptions N) → WorkerRecord N → List (WorkerRecord N) → WorkerRecord N
  least_from options least [] = least
  least_from options least (worker ∷ workers) =
      least_from options (lesser options least worker) workers

  unfoldable pub least_loaded :
      Option (LoadWeightingOptions N) → List (WorkerRecord N) → Option (WorkerRecord N)
  least_loaded options [] = none
  least_loaded options (worker ∷ workers) = some (least_from options worker workers)

  -- `worker.workerId === preferredWorkerId`, where the preferred id may be undefined.
  abbrev pub is_preferred : Option Text → WorkerRecord N → Bool
  is_preferred none worker = false
  is_preferred (some id) worker = eqb worker.worker_id id

  unfoldable pub select_least_loaded_worker :
      List (WorkerRecord N)
      → Option Text
      → Option (LoadWeightingOptions N)
      → Option (WorkerRecord N)
  select_least_loaded_worker workers preferred_worker_id options =
      elim (findb (is_preferred preferred_worker_id) workers) [
        | some preferred ↦ some preferred
        | none ↦ least_loaded options workers
      ]

  -- `left.registeredAt - right.registeredAt || (by workerId)` is negative.
  abbrev pub before : WorkerRecord N → WorkerRecord N → Bool
  before left right =
      if left.registered_at == right.registered_at
      then lessb left.worker_id right.worker_id
      else ltb left.registered_at right.registered_at

  unfoldable pub insert_sorted : WorkerRecord N → List (WorkerRecord N) → List (WorkerRecord N)
  insert_sorted w [] = w ∷ []
  insert_sorted w (x ∷ xs) = if before x w then x ∷ insert_sorted w xs else w ∷ x ∷ xs

  unfoldable pub sort : List (WorkerRecord N) → List (WorkerRecord N)
  sort [] = []
  sort (x ∷ xs) = insert_sorted x (sort xs)

  -- The candidates before they are sorted and cut.
  unfoldable pub active_candidates : List (WorkerRecord N) → List (WorkerRecord N)
  active_candidates workers =
      let healthy = filterb (λ w. is_healthy w.status) workers in
      let available = nonempty_or healthy workers in
      let visible = filterb (λ w. is_visible w.visibility_state) available in
      nonempty_or visible available

  unfoldable pub select_active_workers : List (WorkerRecord N) → ℕ → List (WorkerRecord N)
  select_active_workers workers max_active_workers =
      take max_active_workers (sort (active_candidates workers))

  unfoldable pub select_rebalance_target : List (WorkerRecord N) → Text → Option (WorkerRecord N)
  select_rebalance_target workers current_worker_id =
      elim (findb (λ w. eqb w.worker_id current_worker_id) workers) [
        | none ↦ none
        | some current ↦ elim (select_least_loaded_worker workers none none) [
          | none ↦ none
          | some least ↦
              if eqb current.worker_id least.worker_id
                || le current.load (add least.load (of_nat 1))
              then none
              else some least
        ]
      ]

  unfoldable pub has_active_owner : Option WorkerRoute → List (WorkerRecord N) → Bool
  has_active_owner none workers = false
  has_active_owner (some route) workers = anyb (λ w. eqb w.worker_id route.worker_id) workers
