-- ===== src/Storage/Attempts.antt =====
-- About src/core/storage-batch.ts: the attempts that the queued writes have left.
use cross_tab_worker_databus.Base.{
  ℕ, zero, suc, ◌+◌, ◌-◌, ◌*◌, ◌≤◌, ◌<◌, max, ◌≡◌, refl, ap, ◌∙◌, ◌⊎◌, inl, inr, Option, List, [],
  ◌∷◌, ◌++◌, arith, ℕ_discrete, length,
}
use cross_tab_worker_databus.Base.JsMap.{JsMap, get, set, delete, get-set, get-delete}
use cross_tab_worker_databus.Base.JsString.{Text, text_has_eq}
use cross_tab_worker_databus.Storage.Writer.{
  Storage, BatchingStorageWriter, entered, or_zero, max_retry_attempts, forget, flush_loop, flush,
}
use cross_tab_worker_databus.Storage.Reads.{flush_loop-cases}
use cross_tab_worker_databus.Storage.Flushing.{emptied, settle-frame}

-- What is left to do for the queue: for each key the attempts that it has left, and at least one.
abbrev weight : JsMap Text ℕ → Text → ℕ
weight counts key = max 1 (max_retry_attempts - or_zero (get key counts))

abbrev pub work : JsMap Text ℕ → JsMap Text (Option Text) → ℕ
work counts [] = 0
work counts ((key, value) ∷ pending) = weight counts key + work counts pending

work-le :
    (counts : JsMap Text ℕ) (pending : JsMap Text (Option Text))
    → work counts pending ≤ max_retry_attempts * length pending
work-le counts [] = omega arith
work-le counts ((key, value) ∷ pending) = omega (arith, work-le counts pending)

work-delete-le :
    (counts : JsMap Text ℕ) (key : Text) (pending : JsMap Text (Option Text))
    → work (delete key counts) (delete key pending) ≤ work counts pending
unfolding delete
work-delete-le counts key [] = omega arith
work-delete-le counts key ((j, v) ∷ pending) =
    ground (arith, get-delete j key counts, work-delete-le counts key pending)

work-delete_lt :
    (counts : JsMap Text ℕ) (key : Text) (value : Option Text) (pending : JsMap Text (Option Text))
    → work (delete key counts) (delete key ((key, value) ∷ pending))
      < work counts ((key, value) ∷ pending)
unfolding delete
work-delete_lt counts key value pending = ground (arith, work-delete-le counts key pending)

work-set-le :
    (counts : JsMap Text ℕ) (key : Text) (pending : JsMap Text (Option Text))
    → work (set key (or_zero (get key counts) + 1) counts) pending ≤ work counts pending
work-set-le counts key [] = omega arith
work-set-le counts key ((j, v) ∷ pending) =
    let at = get-set j key (or_zero (get key counts) + 1) counts in
    let rest = work-set-le counts key pending in
    elim (text_has_eq.dec key j) [
      | yes h ↦ ground (arith, at, rest, ap (λ k. get k counts) h)
      | no h ↦ ground (arith, at, rest)
    ]

work-set_lt :
    (counts : JsMap Text ℕ) (key : Text) (value : Option Text) (pending : JsMap Text (Option Text))
    → or_zero (get key counts) + 1 < max_retry_attempts
    → work (set key (or_zero (get key counts) + 1) counts) ((key, value) ∷ pending)
      < work counts ((key, value) ∷ pending)
work-set_lt counts key value pending h =
    let at = get-set key key (or_zero (get key counts) + 1) counts in
    ground (arith, at, work-set-le counts key pending)

work-zero :
    (counts : JsMap Text ℕ) (pending : JsMap Text (Option Text))
    → work counts pending ≡ 0
    → pending ≡ []
work-zero counts [] h = refl
work-zero counts ((key, value) ∷ pending) h = absurd (omega arith)

list_cases {ℓ} : {A : Type ℓ} (xs : List A) → (xs ≡ []) ⊎ ((x : A) × (ys : List A) × (xs ≡ x ∷ ys))
list_cases [] = inl refl
list_cases (x ∷ xs) = inr (x, xs, refl)

length-zero {ℓ} : {A : Type ℓ} (xs : List A) → length xs ≡ 0 → xs ≡ []
length-zero [] h = refl
length-zero (x ∷ xs) h = absurd (omega arith)

module _ {S : Type 0} (backend : Storage S) where
  abbrev left : BatchingStorageWriter S → ℕ
  left w = work w.retry_count w.pending

  left-flush_loop-le :
      (rest : List (Text × Option Text)) (w : BatchingStorageWriter S)
      → left (flush_loop backend rest w) ≤ left w
  unfolding flush_loop
  left-flush_loop-le [] w = omega arith
  left-flush_loop-le ((key, value) ∷ rest) w = elim (flush_loop-cases backend key value rest w) [
    | inl (s, e, q) ↦ ground (
      arith,
      ap left q,
      left-flush_loop-le rest (forget key (record w { storage = s })),
      work-delete-le w.retry_count key w.pending,
    )
    | inr (inl (l, e, q)) ↦ ground (
      arith,
      ap left q,
      left-flush_loop-le rest (forget key (record w { warned = w.warned ++ key ∷ [] })),
      work-delete-le w.retry_count key w.pending,
    )
    | inr (inr (l, e, q)) ↦ ground (arith, ap left q, work-set-le w.retry_count key w.pending)
  ]

  left-flush_loop_lt :
      (key : Text) (value : Option Text) (rest : List (Text × Option Text))
      (w : BatchingStorageWriter S)
      → w.pending ≡ (key, value) ∷ rest
      → left (flush_loop backend ((key, value) ∷ rest) w) < left w
  left-flush_loop_lt key value rest w p =
      let c = w.retry_count in
      let at = ap (work c) p in
      elim (flush_loop-cases backend key value rest w) [
        | inl (s, e, q) ↦ ground (
          arith,
          ap left q,
          left-flush_loop-le rest (forget key (record w { storage = s })),
          work-delete_lt c key value rest,
          at,
          ap (λ m. work (delete key c) (delete key m)) p,
        )
        | inr (inl (l, e, q)) ↦ ground (
          arith,
          ap left q,
          left-flush_loop-le rest (forget key (record w { warned = w.warned ++ key ∷ [] })),
          work-delete_lt c key value rest,
          at,
          ap (λ m. work (delete key c) (delete key m)) p,
        )
        | inr (inr (l, e, q)) ↦ ground (
          arith,
          ap left q,
          work-set_lt c key value rest l,
          at,
          ap (work (set key (or_zero (get key c) + 1) c)) p,
        )
      ]

  flush-left :
      (w : BatchingStorageWriter S)
      → ((flush backend w).pending ≡ []) ⊎ (left (flush backend w) < left w)
  unfolding flush get
  flush-left w =
      let t = flush_loop backend w.pending (entered w) in
      let (p, s, r, q, f) = settle-frame backend t in
      elim (list_cases w.pending) [
        | inl e ↦
            inl (
              p ∙ emptied backend w (entered w) refl (λ j h. absurd (ground (arith, ap (get j) e))))
        | inr ((key, value), rest, e) ↦
            let less = left-flush_loop_lt key value rest (entered w) e in
            let same = ap (λ l. left (flush_loop backend l (entered w))) e in
            elim (ℕ_discrete (length t.pending) 0) [
              | yes none_left ↦ inl (ground (arith, length-zero t.pending))
              | no some_left ↦ inr (ground (arith, less, same))
            ]
      ]

  abbrev pub flush_times : ℕ → BatchingStorageWriter S → BatchingStorageWriter S
  flush_times zero w = w
  flush_times (suc n) w = flush_times n (flush backend w)

  flush_times-left :
      (n : ℕ) (w : BatchingStorageWriter S) → left w ≤ n → (flush_times n w).pending ≡ []
  flush_times-left zero w h = work-zero w.retry_count w.pending (omega arith)
  flush_times-left (suc n) w h = flush_times-left n (flush backend w) (elim (flush-left w) [
    | inl e ↦ omega (arith, ap (work (flush backend w).retry_count) e)
    | inr l ↦ omega arith
  ])

  -- After five flushes for each queued key the queue is empty, whatever the storage does with the
  -- writes: each is written, or is given up.
  pub flush_times-pending_empty :
      (n : ℕ) (w : BatchingStorageWriter S)
      → max_retry_attempts * length w.pending ≤ n
      → (flush_times n w).pending ≡ []
  flush_times-pending_empty n w h =
      flush_times-left n w (omega (arith, work-le w.retry_count w.pending))
