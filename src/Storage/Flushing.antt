-- ===== src/Storage/Flushing.antt =====
-- About src/core/storage-batch.ts: the queue empties, and no write is stranded in it.
use cross_tab_worker_databus.Base.{
  ◌≡◌, refl, sym, ap, subst, ◌∙◌, ◌⊎◌, inl, inr, true, Option, none, some, List, [], ◌∷◌, ◌++◌,
  arith, is_some, Option-cases,
}
use cross_tab_worker_databus.Base.JsMap.{get, has, delete, get-delete, UniqueKeys, no_keys}
use cross_tab_worker_databus.Base.JsString.{Text, text_has_eq}
use cross_tab_worker_databus.Storage.Writer.{
  Storage, BatchingStorageWriter, initial_retry_delay_ms, forget, entered, get_item, write,
  flush_loop, settle, flush,
}
use cross_tab_worker_databus.Storage.Reads.{
  StorageLaws, flush_loop-cases, flush_loop-pending_none, flush-KeptOrGivenUp,
}

module _ {S : Type 0} (backend : Storage S) where
  pub flush_loop-frame :
      (rest : List (Text × Option Text)) (w : BatchingStorageWriter S)
      → ((flush_loop backend rest w).queued ≡ w.queued)
        × ((flush_loop backend rest w).flush_scheduled ≡ w.flush_scheduled)
  unfolding flush_loop
  flush_loop-frame [] w = (refl, refl)
  flush_loop-frame ((key, value) ∷ rest) w = elim (flush_loop-cases backend key value rest w) [
    | inl (s, e, q) ↦
        ground (arith, q, flush_loop-frame rest (forget key (record w { storage = s })))
    | inr (inl (l, e, q)) ↦
        ground (
          arith,
          q,
          flush_loop-frame rest (forget key (record w { warned = w.warned ++ key ∷ [] })),
        )
    | inr (inr (l, e, q)) ↦ ground (arith, q)
  ]

  -- The loop arms the retry timer, or every key of the snapshot has left the queue.
  abbrev Stops : List (Text × Option Text) → BatchingStorageWriter S → Type 0
  Stops rest t =
      (is_some t.retry_handle ≡ true) ⊎ ((j : Text) → has j rest ≡ true → get j t.pending ≡ none)

  Stops-back :
      (key : Text) (value : Option Text) (rest : List (Text × Option Text))
      (w u : BatchingStorageWriter S)
      → u.pending ≡ delete key w.pending
      → Stops rest (flush_loop backend rest u)
      → Stops ((key, value) ∷ rest) (flush_loop backend rest u)
  unfolding get
  Stops-back key value rest w u p (inl armed) = inl armed
  Stops-back key value rest w u p (inr gone) = inr (λ j h. elim (text_has_eq.dec key j) [
    | yes k ↦
        flush_loop-pending_none backend rest u j
          (ap (get j) p ∙ get-delete j key w.pending ∙ ground arith)
    | no k ↦ gone j (ground arith)
  ])

  flush_loop-Stops :
      (rest : List (Text × Option Text)) (w : BatchingStorageWriter S)
      → Stops rest (flush_loop backend rest w)
  unfolding flush_loop get
  flush_loop-Stops [] w = inr (λ j h. absurd (ground arith))
  flush_loop-Stops ((key, value) ∷ rest) w = elim (flush_loop-cases backend key value rest w) [
    | inl (s, e, q) ↦
        let u = forget key (record w { storage = s }) in
        subst (Stops ((key, value) ∷ rest)) (sym q)
          (Stops-back key value rest w u refl (flush_loop-Stops rest u))
    | inr (inl (l, e, q)) ↦
        let u = forget key (record w { warned = w.warned ++ key ∷ [] }) in
        subst (Stops ((key, value) ∷ rest)) (sym q)
          (Stops-back key value rest w u refl (flush_loop-Stops rest u))
    | inr (inr (l, e, q)) ↦ inl (ground (arith, q))
  ]

  pub settle-frame :
      (t : BatchingStorageWriter S)
      → ((settle backend t).pending ≡ t.pending)
        × ((settle backend t).storage ≡ t.storage)
        × ((settle backend t).retry_handle ≡ t.retry_handle)
        × ((settle backend t).queued ≡ t.queued)
        × ((settle backend t).flush_scheduled ≡ t.flush_scheduled)
  settle-frame t = (ground arith, ground arith, ground arith, ground arith, ground arith)

  -- A key that is not in the snapshot leaves the queue no later than one that is.
  pub emptied :
      (w u : BatchingStorageWriter S)
      → u.pending ≡ w.pending
      → ((j : Text)
          → has j w.pending ≡ true
          → get j (flush_loop backend w.pending u).pending ≡ none)
      → (flush_loop backend w.pending u).pending ≡ []
  emptied w u e h = no_keys (flush_loop backend w.pending u).pending (λ j.
      elim (Option-cases (get j w.pending)) [
        | inr (v, q) ↦ h j (ground arith)
        | inl q ↦ flush_loop-pending_none backend w.pending u j (ap (get j) e ∙ q)
      ])

  pub flush-stops :
      (w : BatchingStorageWriter S)
      → ((flush backend w).pending ≡ []) ⊎ (is_some (flush backend w).retry_handle ≡ true)
  unfolding flush
  flush-stops w =
      let t = flush_loop backend w.pending (entered w) in
      let (p, s, r, q, f) = settle-frame t in
      elim (flush_loop-Stops w.pending (entered w)) [
        | inl armed ↦ inr (ap is_some r ∙ armed)
        | inr gone ↦ inl (p ∙ emptied w (entered w) refl gone)
      ]

  -- The storage takes every write.
  abbrev pub Accepts : Type 0
  Accepts = (key : Text) (value : Option Text) (s : S) → is_some (write backend key value s) ≡ true

  flush_loop-accepted :
      Accepts
      → (rest : List (Text × Option Text)) (w : BatchingStorageWriter S)
      → (flush_loop backend rest w).retry_handle ≡ w.retry_handle
  unfolding flush_loop
  flush_loop-accepted a [] w = refl
  flush_loop-accepted a ((key, value) ∷ rest) w = elim (flush_loop-cases backend key value rest w) [
    | inl (s, e, q) ↦
        ap (λ (t : BatchingStorageWriter S). t.retry_handle) q
        ∙ flush_loop-accepted a rest (forget key (record w { storage = s }))
    | inr (inl (l, e, q)) ↦
        ap (λ (t : BatchingStorageWriter S). t.retry_handle) q
        ∙ flush_loop-accepted a rest (forget key (record w { warned = w.warned ++ key ∷ [] }))
    | inr (inr (l, e, q)) ↦ absurd (ground (arith, a key value w.storage))
  ]

  -- With an empty queue a read goes to the storage.
  read_through :
      (w : BatchingStorageWriter S) (j : Text)
      → w.pending ≡ []
      → get_item backend w j ≡ backend.get_item j w.storage
  unfolding get
  read_through w j e =
      ap (λ m. elim (get j m) [ some v ↦ v | none ↦ backend.get_item j w.storage ]) e

  -- If the storage takes every write and obeys the Web Storage API, and no key is queued twice, a
  -- flush empties the queue, the retry counters and the timer and resets the delay, and the storage
  -- then holds for every key what a read of it saw before.
  pub flush-drains :
      Accepts
      → StorageLaws backend
      → (w : BatchingStorageWriter S) (j : Text) → UniqueKeys w.pending
      → ((flush backend w).pending ≡ [])
        × ((flush backend w).retry_count ≡ [])
        × ((flush backend w).retry_handle ≡ none)
        × ((flush backend w).retry_delay_ms ≡ initial_retry_delay_ms)
        × (backend.get_item j (flush backend w).storage ≡ get_item backend w j)
  unfolding flush get
  flush-drains a laws w j u =
      let t = flush_loop backend w.pending (entered w) in
      let unarmed = flush_loop-accepted a w.pending (entered w) in
      let (p, s, r, q, f) = settle-frame t in
      let empty : t.pending ≡ [] = elim (flush_loop-Stops w.pending (entered w)) [
        | inl armed ↦ absurd (ground (arith, unarmed))
        | inr gone ↦ emptied w (entered w) refl gone
      ] in
      (
        p ∙ empty,
        ground (arith, empty),
        r ∙ unarmed,
        ground (arith, empty),
        elim (flush-KeptOrGivenUp backend laws w j u) [
          | inl e ↦ sym (read_through (flush backend w) j (p ∙ empty)) ∙ e
          | inr (h, k, (v, s, n), g) ↦ absurd (ground (arith, a j v s))
        ],
      )
