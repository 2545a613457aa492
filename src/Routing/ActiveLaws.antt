-- ===== src/Routing/ActiveLaws.antt =====
-- About src/core/routing.ts, `selectActiveWorkers`: which workers are chosen.
use cross_tab_worker_databus.Base.{
  ℕ, suc, ◌≤◌, ◌<◌, ◌≡◌, refl, sym, subst, ◌↔◌, ◌⊎◌, inl, inr, Bool, true, false, List, [], ◌∷◌,
  arith, Bool-cases, length, length-take, filterb, anyb, In, In-filterb, filterb-In, In-anyb,
  take-drop-In, take-In, nat_has_eq,
}
use cross_tab_worker_databus.Base.Number.{Number}
use cross_tab_worker_databus.Types.{WorkerRecord}
use cross_tab_worker_databus.Routing.Select.{
  is_healthy, is_visible, nonempty_or, before, insert_sorted, sort, active_candidates,
  select_active_workers,
}
use cross_tab_worker_databus.Routing.SortLaws.{sort-IsSorted, sort-In, cut-before}

module _ (N : Number) where
  -- No more workers are chosen than the limit allows, and a candidate that is left out does not come
  -- before one that is chosen, by registration time and then by the id.
  pub select_active_workers-earliest :
      (ws : List (WorkerRecord N)) (limit : ℕ) (w v : WorkerRecord N)
      → In w (select_active_workers N ws limit)
      → In v (active_candidates N ws)
      → (length (select_active_workers N ws limit) ≤ limit)
        × (In v (select_active_workers N ws limit) ⊎ (before N v w ≡ false))
  unfolding select_active_workers
  select_active_workers-earliest ws limit w v h k = (
    omega (arith, length-take limit (sort N (active_candidates N ws))),
    elim (take-drop-In limit v (sort N (active_candidates N ws))
        ((sort-In N v (active_candidates N ws)).1 k)) [
          | inl l ↦ inl l
          | inr r ↦ inr (
              cut-before N limit (sort N (active_candidates N ws)) w v
                (sort-IsSorted N (active_candidates N ws)) h r)
        ],
  )

  nonempty_or-cases :
      (xs ys : List (WorkerRecord N))
      → ((xs ≡ []) × (nonempty_or xs ys ≡ ys))
        ⊎ ((x : WorkerRecord N) × In x xs × (nonempty_or xs ys ≡ xs))
  nonempty_or-cases [] ys = inl (refl, refl)
  nonempty_or-cases (x ∷ xs) ys = inr (x, inl refl, refl)

  module _ (ws : List (WorkerRecord N)) where
    abbrev healthy_ones : List (WorkerRecord N)
    healthy_ones = filterb (λ w. is_healthy w.status) ws

    abbrev available_ones : List (WorkerRecord N)
    available_ones = nonempty_or healthy_ones ws

    -- A worker is available if it is healthy, or if nobody is.
    abbrev pub IsAvailable : WorkerRecord N → Type 0
    IsAvailable w =
        In w ws × ((is_healthy w.status ≡ true) ⊎ (anyb (λ v. is_healthy v.status) ws ≡ false))

    filter_nil :
        (p : WorkerRecord N → Bool) (xs : List (WorkerRecord N))
        → filterb p xs ≡ []
        → anyb p xs ≡ false
    filter_nil p [] h = refl
    filter_nil p (x ∷ xs) h = ground (arith, filter_nil p xs)

    IsAvailable-iff : (w : WorkerRecord N) → In w available_ones ↔ IsAvailable w
    IsAvailable-iff w = elim (nonempty_or-cases healthy_ones ws) [
      | inl (e, k) ↦ (
        λ h. (subst (λ l. In w l) k h, inr (filter_nil (λ v. is_healthy v.status) ws e)),
        λ h. subst (λ l. In w l) (sym k) h.0,
      )
      | inr (x, m, k) ↦
          let (mx, tx) = filterb-In (λ v. is_healthy v.status) x ws m in
          let some_healthy = In-anyb (λ v. is_healthy v.status) x ws mx tx in
          (
            λ h.
                let (a, t) = filterb-In (λ v. is_healthy v.status) w ws (subst (λ l. In w l) k h) in
                (a, inl t),
            λ h.
                subst (λ l. In w l) (sym k)
                  (In-filterb (λ v. is_healthy v.status) w ws h.0 (ground (arith, some_healthy))),
          )
    ]

    visible_iff :
        (w : WorkerRecord N)
        → In w (active_candidates N ws)
        → IsAvailable w
          × ((v : WorkerRecord N)
              → IsAvailable v
              → is_visible v.visibility_state ≡ true
              → is_visible w.visibility_state ≡ true)
    unfolding active_candidates
    visible_iff w h =
        elim (nonempty_or-cases (filterb (λ v. is_visible v.visibility_state) available_ones)
          available_ones) [
            | inl (e, k) ↦
                let nobody = filter_nil (λ v. is_visible v.visibility_state) available_ones e in
                (
                  (IsAvailable-iff w).0 (subst (λ l. In w l) k h),
                  λ v a t. absurd (
                      ground (
                        arith,
                        nobody,
                        In-anyb (λ v. is_visible v.visibility_state) v available_ones
                            ((IsAvailable-iff v).1 a) t,
                      )),
                )
            | inr (x, m, k) ↦
                let (a, t) =
                  filterb-In (λ v. is_visible v.visibility_state) w available_ones
                    (subst (λ l. In w l) k h) in
                ((IsAvailable-iff w).0 a, λ v b u. t)
          ]

    -- A worker that is chosen is registered, it is connecting or connected unless no worker is, and
    -- it is visible unless the other worker, which may be chosen as well, is hidden too.
    pub select_active_workers-eligible :
        (limit : ℕ) (w v : WorkerRecord N)
        → In w (select_active_workers N ws limit)
        → IsAvailable v
        → IsAvailable w
          × ((is_visible w.visibility_state ≡ true) ⊎ (is_visible v.visibility_state ≡ false))
    unfolding select_active_workers
    select_active_workers-eligible limit w v h a =
        let (b, f) =
          visible_iff w ((sort-In N w (active_candidates N ws)).0 (take-In limit w _ h)) in
        (
          b,
          elim (Bool-cases (is_visible v.visibility_state)) [
            | inl t ↦ inl (f v a t)
            | inr n ↦ inr n
          ],
        )

  length-insert_sorted :
      (w : WorkerRecord N) (xs : List (WorkerRecord N))
      → length (insert_sorted N w xs) ≡ suc (length xs)
  unfolding insert_sorted
  length-insert_sorted w [] = refl
  length-insert_sorted w (x ∷ xs) = ground (arith, length-insert_sorted w xs)

  length-sort : (xs : List (WorkerRecord N)) → length (sort N xs) ≡ length xs
  unfolding sort
  length-sort [] = refl
  length-sort (x ∷ xs) = omega (arith, length-insert_sorted x (sort N xs), length-sort xs)

  nonempty_or-pos : (xs ys : List (WorkerRecord N)) → 0 < length ys → 0 < length (nonempty_or xs ys)
  nonempty_or-pos [] ys h = h
  nonempty_or-pos (x ∷ xs) ys h = omega arith

  active_candidates-pos :
      (ws : List (WorkerRecord N)) → 0 < length ws → 0 < length (active_candidates N ws)
  unfolding active_candidates
  active_candidates-pos ws h =
      nonempty_or-pos _ _ (nonempty_or-pos (filterb (λ w. is_healthy w.status) ws) ws h)

  -- The cluster is never left without an eligible owner while some worker is registered.
  pub select_active_workers-nonempty :
      (ws : List (WorkerRecord N)) (limit : ℕ)
      → 0 < length ws
      → 0 < limit
      → 0 < length (select_active_workers N ws limit)
  unfolding select_active_workers
  select_active_workers-nonempty ws limit h k = omega (
    arith,
    active_candidates-pos ws h,
    length-sort (active_candidates N ws),
    length-take limit (sort N (active_candidates N ws)),
  )

  nonempty_or-In :
      (w : WorkerRecord N) (xs ys : List (WorkerRecord N))
      → In w (nonempty_or xs ys)
      → In w xs ⊎ In w ys
  nonempty_or-In w [] ys h = inr h
  nonempty_or-In w (x ∷ xs) ys h = inl h

  -- Only registered workers are chosen.
  pub select_active_workers-In :
      (ws : List (WorkerRecord N)) (limit : ℕ) (w : WorkerRecord N)
      → In w (select_active_workers N ws limit)
      → In w ws
  unfolding select_active_workers active_candidates
  select_active_workers-In ws limit w h =
      let healthy = filterb (λ v. is_healthy v.status) ws in
      let available = nonempty_or healthy ws in
      let of_available : (In w available → In w ws) = λ m. elim (nonempty_or-In w healthy ws m) [
        | inl a ↦ (filterb-In (λ v. is_healthy v.status) w ws a).0
        | inr b ↦ b
      ] in
      let m = (sort-In N w (active_candidates N ws)).0 (take-In limit w _ h) in
      elim (nonempty_or-In w (filterb (λ v. is_visible v.visibility_state) available) available m) [
        | inl a ↦ of_available (filterb-In (λ v. is_visible v.visibility_state) w available a).0
        | inr b ↦ of_available b
      ]
