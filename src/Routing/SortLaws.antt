-- ===== src/Routing/SortLaws.antt =====
-- About src/core/routing.ts, `selectActiveWorkers`: the order of the candidates.
use cross_tab_worker_databus.Base.{
  ℕ, zero, suc, ◌≡◌, subst, ◌↔◌, ◌⊎◌, inl, inr, true, false, List, [], ◌∷◌, arith, Bool-cases, take,
  drop, All, In, All-In, drop-In, nat_has_eq,
}
use cross_tab_worker_databus.Base.JsString.{lessb_asym, lessb_cotrans}
use cross_tab_worker_databus.Base.Number.{Number}
use cross_tab_worker_databus.Types.{WorkerRecord}
use cross_tab_worker_databus.Routing.Select.{before, insert_sorted, sort}

module _ (N : Number) where
  before_asym : (a b : WorkerRecord N) → before N a b ≡ true → before N b a ≡ false
  before_asym a b h = ground (arith, lessb_asym a.worker_id b.worker_id)

  before_cotrans :
      (a b c : WorkerRecord N) → before N a c ≡ true → (before N a b ≡ true) ⊎ (before N b c ≡ true)
  before_cotrans a b c h = ground (arith, lessb_cotrans a.worker_id b.worker_id c.worker_id)

  -- No later worker registered before an earlier one.
  abbrev pub IsSorted : List (WorkerRecord N) → Type 0
  IsSorted [] = Unit
  IsSorted (x ∷ xs) = All (λ y. before N y x ≡ false) xs × IsSorted xs

  All-before :
      (x w : WorkerRecord N) (xs : List (WorkerRecord N))
      → before N x w ≡ false
      → All (λ y. before N y x ≡ false) xs
      → All (λ y. before N y w ≡ false) xs
  All-before x w [] h a = tt
  All-before x w (y ∷ ys) h a = (ground (arith, a.0, before_cotrans y x w), All-before x w ys h a.1)

  All-insert_sorted :
      (P : WorkerRecord N → Type 0) (w : WorkerRecord N) (xs : List (WorkerRecord N))
      → P w
      → All P xs
      → All P (insert_sorted N w xs)
  unfolding insert_sorted
  All-insert_sorted P w [] p a = (p, tt)
  All-insert_sorted P w (x ∷ xs) p a = elim (Bool-cases (before N x w)) [
    | inl t ↦ rw t (a.0, All-insert_sorted P w xs p a.1)
    | inr f ↦ rw f (p, a)
  ]

  insert_sorted-IsSorted :
      (w : WorkerRecord N) (xs : List (WorkerRecord N))
      → IsSorted xs
      → IsSorted (insert_sorted N w xs)
  unfolding insert_sorted
  insert_sorted-IsSorted w [] s = (tt, tt)
  insert_sorted-IsSorted w (x ∷ xs) s = elim (Bool-cases (before N x w)) [
    | inl t ↦ rw t (
      All-insert_sorted (λ y. before N y x ≡ false) w xs (before_asym x w t) s.0,
      insert_sorted-IsSorted w xs s.1,
    )
    | inr f ↦ rw f ((f, All-before x w xs f s.0), s)
  ]

  pub sort-IsSorted : (xs : List (WorkerRecord N)) → IsSorted (sort N xs)
  unfolding sort
  sort-IsSorted [] = tt
  sort-IsSorted (x ∷ xs) = insert_sorted-IsSorted x (sort N xs) (sort-IsSorted xs)

  insert_sorted-In :
      (w v : WorkerRecord N) (xs : List (WorkerRecord N))
      → In v (insert_sorted N w xs) ↔ In v (w ∷ xs)
  unfolding insert_sorted
  insert_sorted-In w v [] = (λ h. h, λ h. h)
  insert_sorted-In w v (x ∷ xs) = elim (Bool-cases (before N x w)) [
    | inl t ↦ rw t (to (insert_sorted-In w v xs).0, back (insert_sorted-In w v xs).1)
    | inr f ↦ rw f (λ h. h, λ h. h)
  ]
    where
      to :
          (In v (insert_sorted N w xs) → In v (w ∷ xs))
          → In v (x ∷ insert_sorted N w xs)
          → In v (w ∷ x ∷ xs)
      to ih (inl e) = inr (inl e)
      to ih (inr m) = elim (ih m) [ inl e ↦ inl e | inr k ↦ inr (inr k) ]

      back :
          (In v (w ∷ xs) → In v (insert_sorted N w xs))
          → In v (w ∷ x ∷ xs)
          → In v (x ∷ insert_sorted N w xs)
      back ih (inl e) = inr (ih (inl e))
      back ih (inr (inl e)) = inl e
      back ih (inr (inr m)) = inr (ih (inr m))

  In-under :
      {v x : WorkerRecord N} (xs ys : List (WorkerRecord N))
      → (In v xs → In v ys)
      → In v (x ∷ xs)
      → In v (x ∷ ys)
  In-under xs ys f (inl e) = inl e
  In-under xs ys f (inr m) = inr (f m)

  pub sort-In : (v : WorkerRecord N) (xs : List (WorkerRecord N)) → In v (sort N xs) ↔ In v xs
  unfolding sort
  sort-In v [] = (λ h. h, λ h. h)
  sort-In v (x ∷ xs) = (
    λ h. In-under {x = x} _ _ (sort-In v xs).0 ((insert_sorted-In x v (sort N xs)).0 h),
    λ h. (insert_sorted-In x v (sort N xs)).1 (In-under {x = x} _ _ (sort-In v xs).1 h),
  )

  -- In a sorted list nobody after the cut comes before one that the cut keeps.
  pub cut-before :
      (n : ℕ) (xs : List (WorkerRecord N)) (w v : WorkerRecord N)
      → IsSorted xs
      → In w (take n xs)
      → In v (drop n xs)
      → before N v w ≡ false
  cut-before zero xs w v s h k = absurd h
  cut-before (suc n) [] w v s h k = absurd h
  cut-before (suc n) (x ∷ xs) w v s (inl e) k =
      subst (λ a. before N v a ≡ false) e
        (All-In (λ y. before N y x ≡ false) v xs s.0 (drop-In n v xs k))
  cut-before (suc n) (x ∷ xs) w v s (inr m) k = cut-before n xs w v s.1 m k
