-- ===== src/Routing/SelectLaws.antt =====
-- About src/core/routing.ts, `selectLeastLoadedWorker`: the order that it minimises.
use cross_tab_worker_databus.Base.{
  ◌≡◌, refl, sym, ◌∙◌, ◌⊎◌, inl, inr, Bool, true, false, not, ◌&&◌, ◌||◌, Option, none, some, List,
  [], ◌∷◌, arith, if◌then◌else◌, Bool-cases, findb, All, In,
}
use cross_tab_worker_databus.Base.JsString.{lessb, lessb_asym, lessb_cotrans, lessb_total}
use cross_tab_worker_databus.Base.Number.{Number}
use cross_tab_worker_databus.Types.{WorkerRecord, LoadWeightingOptions}
use cross_tab_worker_databus.Routing.Load.{effective_worker_load}
use cross_tab_worker_databus.Routing.LoadLaws.{effective_worker_load-IsFinite}
use cross_tab_worker_databus.Routing.Select.{
  lesser, least_from, least_loaded, select_least_loaded_worker, is_preferred,
}

module _ (N : Number) (options : Option (LoadWeightingOptions N)) where
  open N use {F, is_zero, is_neg, sub, sub_asym, sub_cotrans, sub_zero}

  abbrev score : WorkerRecord N → F
  score w = effective_worker_load N w options

  -- `a` is less loaded than `b`, or as loaded and of a smaller id.
  pub prefers : WorkerRecord N → WorkerRecord N → Bool
  prefers a b =
      is_neg (sub (score a) (score b))
      || (not (is_neg (sub (score b) (score a))) && lessb a.worker_id b.worker_id)

  neg_asym :
      (a b : WorkerRecord N)
      → is_neg (sub (score a) (score b)) ≡ true
      → is_neg (sub (score b) (score a)) ≡ false
  neg_asym a b =
      sub_asym _ _ (effective_worker_load-IsFinite N a options)
        (effective_worker_load-IsFinite N b options)

  neg_cotrans :
      (a b c : WorkerRecord N)
      → is_neg (sub (score a) (score c)) ≡ true
      → (is_neg (sub (score a) (score b)) ≡ true) ⊎ (is_neg (sub (score b) (score c)) ≡ true)
  neg_cotrans a b c =
      sub_cotrans _ _ _ (effective_worker_load-IsFinite N a options)
        (effective_worker_load-IsFinite N b options) (effective_worker_load-IsFinite N c options)

  zero_lem :
      (a b : WorkerRecord N)
      → is_zero (sub (score a) (score b))
        ≡ not (is_neg (sub (score a) (score b)) || is_neg (sub (score b) (score a)))
  zero_lem a b =
      sub_zero _ _ (effective_worker_load-IsFinite N a options)
        (effective_worker_load-IsFinite N b options)

  lesser_lem : (a b : WorkerRecord N) → lesser N options a b ≡ (if prefers b a then b else a)
  unfolding lesser prefers
  lesser_lem a b = ground (arith, zero_lem b a, neg_asym a b)

  prefers_asym : (a b : WorkerRecord N) → prefers a b ≡ true → prefers b a ≡ false
  unfolding prefers
  prefers_asym a b h =
      ground (arith, neg_asym a b, neg_asym b a, lessb_asym a.worker_id b.worker_id)

  prefers_cotrans :
      (a b c : WorkerRecord N) → prefers a c ≡ true → (prefers a b ≡ true) ⊎ (prefers b c ≡ true)
  unfolding prefers
  prefers_cotrans a b c h = ground (
    arith,
    neg_cotrans a b c,
    neg_cotrans b c a,
    neg_cotrans c a b,
    neg_cotrans c b a,
    neg_cotrans b a c,
    lessb_cotrans a.worker_id b.worker_id c.worker_id,
  )

  -- Workers that are not preferred to one another have one id.
  pub prefers_total :
      (a b : WorkerRecord N) → prefers a b ≡ false → prefers b a ≡ false → a.worker_id ≡ b.worker_id
  unfolding prefers
  prefers_total a b h k = ground (arith, lessb_total a.worker_id b.worker_id)

  -- Nobody in the list is preferred to the worker.
  abbrev pub IsLeast : WorkerRecord N → List (WorkerRecord N) → Type 0
  IsLeast r ws = All (λ w. prefers w r ≡ false) ws

  least_from-IsLeast :
      (a : WorkerRecord N) (ws : List (WorkerRecord N))
      → (prefers a (least_from N options a ws) ≡ false) × IsLeast (least_from N options a ws) ws
  unfolding least_from
  least_from-IsLeast a [] = (ground (arith, prefers_asym a a), tt)
  least_from-IsLeast a (w ∷ ws) =
      let (h, k) = least_from-IsLeast (lesser N options a w) ws in
      let r = least_from N options (lesser N options a w) ws in
      (
        ground (arith, h, lesser_lem a w, prefers_cotrans a w r, prefers_asym w a),
        (ground (arith, h, lesser_lem a w, prefers_cotrans w a r), k),
      )

  lesser_cases : (a w : WorkerRecord N) → (lesser N options a w ≡ a) ⊎ (lesser N options a w ≡ w)
  lesser_cases a w = elim (Bool-cases (prefers w a)) [
    | inl t ↦ inr (rw (lesser_lem a w, t))
    | inr f ↦ inl (rw (lesser_lem a w, f))
  ]

  In-widen :
      {r x a w : WorkerRecord N} (ws : List (WorkerRecord N))
      → (x ≡ a) ⊎ (x ≡ w)
      → In r (x ∷ ws)
      → In r (a ∷ w ∷ ws)
  In-widen ws (inl e) (inl h) = inl (sym e ∙ h)
  In-widen ws (inr e) (inl h) = inr (inl (sym e ∙ h))
  In-widen ws c (inr m) = inr (inr m)

  least_from-In :
      (a : WorkerRecord N) (ws : List (WorkerRecord N)) → In (least_from N options a ws) (a ∷ ws)
  unfolding least_from
  least_from-In a [] = inl refl
  least_from-In a (w ∷ ws) =
      In-widen ws (lesser_cases a w) (least_from-In (lesser N options a w) ws)

  -- What the reduction returns: nothing for no workers, else the least of them.
  abbrev pub IsLeastOf : List (WorkerRecord N) → Option (WorkerRecord N) → Type 0
  IsLeastOf ws none = ws ≡ []
  IsLeastOf ws (some r) = In r ws × IsLeast r ws

  least_loaded-IsLeastOf : (ws : List (WorkerRecord N)) → IsLeastOf ws (least_loaded N options ws)
  unfolding least_loaded
  least_loaded-IsLeastOf [] = refl
  least_loaded-IsLeastOf (w ∷ ws) = (least_from-In w ws, least_from-IsLeast w ws)

  -- With no preferred owner the selection is empty only for no workers, and otherwise returns one of
  -- the workers, to which no other is preferred: by effective load first, then by the id.
  pub select_least_loaded_worker-IsLeastOf :
      (ws : List (WorkerRecord N)) → IsLeastOf ws (select_least_loaded_worker N ws none options)
  unfolding select_least_loaded_worker
  select_least_loaded_worker-IsLeastOf ws =
      rw (find_none ws, select_least_loaded_worker) (least_loaded-IsLeastOf ws)
    where
      find_none : (ws : List (WorkerRecord N)) → findb (is_preferred N none) ws ≡ none
      find_none [] = refl
      find_none (w ∷ ws) = find_none ws
