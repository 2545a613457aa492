-- ===== src/Storage/Reads.antt =====
-- About src/core/storage-batch.ts: a flush against what reads see.
use cross_tab_worker_databus.Base.{
  ◌≤◌, ◌<◌, ◌≡◌, refl, sym, ap, subst, ◌∙◌, ◌⊎◌, inl, inr, ite, true, false, Option, none, some,
  List, [], ◌∷◌, ◌++◌, arith, dec_le, Option-cases,
}
use cross_tab_worker_databus.Base.JsMap.{get, has, set, delete, get-delete, UniqueKeys}
use cross_tab_worker_databus.Base.JsString.{Text, text_has_eq}
use cross_tab_worker_databus.Storage.Writer.{
  Storage, BatchingStorageWriter, or_zero, max_retry_attempts, attempts, forget, schedule_retry,
  get_item, write, flush_loop, settle, flush,
}

-- What the Web Storage API says of reads after a write that did not throw.
pub record StorageLaws {S : Type 0} (backend : Storage S) : Type 0 where
  pub get-set_item :
      (j key value : Text) (s s' : S)
      → backend.set_item key value s ≡ some s'
      → backend.get_item j s' ≡ ite (text_has_eq.dec key j) (some value) (backend.get_item j s)
  pub get-remove_item :
      (j key : Text) (s s' : S)
      → backend.remove_item key s ≡ some s'
      → backend.get_item j s' ≡ ite (text_has_eq.dec key j) none (backend.get_item j s)

module _ {S : Type 0} (backend : Storage S) where
  -- What a write that did not throw leaves in the storage.
  write_lem :
      StorageLaws backend
      → (j key : Text) (value : Option Text) (s s' : S) → write backend key value s ≡ some s'
      → backend.get_item j s' ≡ ite (text_has_eq.dec key j) value (backend.get_item j s)
  write_lem laws j key none s s' h = laws.get-remove_item j key s s' h
  write_lem laws j key (some value) s s' h = laws.get-set_item j key value s s' h

  -- One round of the loop: written, given up after the last attempt, or left for a retry.
  pub flush_loop-cases :
      (key : Text) (value : Option Text) (rest : List (Text × Option Text))
      (w : BatchingStorageWriter S)
      → ((s : S) × (write backend key value w.storage ≡ some s)
          × (flush_loop backend ((key, value) ∷ rest) w
              ≡ flush_loop backend rest (forget key (record w { storage = s }))))
        ⊎ ((max_retry_attempts ≤ attempts w key)
            × (write backend key value w.storage ≡ none)
            × (flush_loop backend ((key, value) ∷ rest) w
                ≡ flush_loop backend rest
                    (forget key (record w { warned = w.warned ++ key ∷ [] }))))
        ⊎ ((attempts w key < max_retry_attempts)
            × (write backend key value w.storage ≡ none)
            × (flush_loop backend ((key, value) ∷ rest) w
                ≡ schedule_retry
                    (record w { retry_count = set key (attempts w key) w.retry_count })))
  unfolding flush_loop
  flush_loop-cases key value rest w = elim (Option-cases (write backend key value w.storage)) [
    | inr (s, e) ↦ inl (s, e, rw (flush_loop, e) refl)
    | inl e ↦ elim (dec_le max_retry_attempts (attempts w key)) [
      | yes last ↦ inr (inl (last, e, ground arith))
      | no more ↦ inr (inr (omega arith, e, ground arith))
    ]
  ]

  -- The queue only shrinks during the loop.
  pub flush_loop-pending_none :
      (rest : List (Text × Option Text)) (w : BatchingStorageWriter S) (j : Text)
      → get j w.pending ≡ none
      → get j (flush_loop backend rest w).pending ≡ none
  unfolding flush_loop
  flush_loop-pending_none [] w j h = h
  flush_loop-pending_none ((key, value) ∷ rest) w j h =
      let gone : get j (delete key w.pending) ≡ none = get-delete j key w.pending ∙ ground arith in
      elim (flush_loop-cases key value rest w) [
        | inl (s, e, q) ↦
            ap (λ (u : BatchingStorageWriter S). get j u.pending) q
            ∙ flush_loop-pending_none rest (forget key (record w { storage = s })) j gone
        | inr (inl (l, e, q)) ↦
            ap (λ (u : BatchingStorageWriter S). get j u.pending) q
            ∙ flush_loop-pending_none rest (forget key (record w { warned = w.warned ++ key ∷ [] }))
                j gone
        | inr (inr (l, e, q)) ↦ ap (λ (u : BatchingStorageWriter S). get j u.pending) q ∙ h
      ]

  -- The snapshot that is left agrees with the queue.
  abbrev pub Agrees : List (Text × Option Text) → BatchingStorageWriter S → Type 0
  Agrees rest w = (j : Text) (v : Option Text) → get j rest ≡ some v → get j w.pending ≡ some v

  forget-Agrees :
      (key : Text) (value : Option Text) (rest : List (Text × Option Text))
      (w u : BatchingStorageWriter S)
      → get key rest ≡ none
      → Agrees ((key, value) ∷ rest) w
      → u.pending ≡ w.pending
      → Agrees rest (forget key u)
  unfolding get
  forget-Agrees key value rest w u n a e j v h =
      let there = a j v in
      elim (text_has_eq.dec key j) [
        | yes q ↦ absurd (ground (arith, ap (λ k. get k rest) q))
        | no q ↦ ground (arith, get-delete j key u.pending, ap (get j) e, there)
      ]

  -- The storage refuses a write of the key.
  abbrev pub Refuses : Text → Type 0
  Refuses j = (value : Option Text) × (s : S) × (write backend j value s ≡ none)

  -- The read of a key as before, or the key was queued, had failed four times, is refused once more,
  -- and is given up.
  abbrev pub KeptOrGivenUp : BatchingStorageWriter S → BatchingStorageWriter S → Text → Type 0
  KeptOrGivenUp w u j =
      (get_item backend u j ≡ get_item backend w j)
      ⊎ ((has j w.pending ≡ true)
          × (max_retry_attempts ≤ attempts w j)
          × Refuses j
          × (get j u.pending ≡ none))

  KeptOrGivenUp-back :
      (w w' u : BatchingStorageWriter S) (j : Text)
      → get_item backend w' j ≡ get_item backend w j
      → (get j w'.pending ≡ none)
        ⊎ ((get j w'.pending ≡ get j w.pending) × (get j w'.retry_count ≡ get j w.retry_count))
      → KeptOrGivenUp w' u j
      → KeptOrGivenUp w u j
  KeptOrGivenUp-back w w' u j e c (inl k) = inl (k ∙ e)
  KeptOrGivenUp-back w w' u j e (inl n) (inr (h, l, f, g)) = absurd (ground arith)
  KeptOrGivenUp-back w w' u j e (inr (p, r)) (inr (h, l, f, g)) =
      inr (ground arith, ground (arith, ap or_zero r), f, g)

  flush_loop-KeptOrGivenUp :
      StorageLaws backend
      → (rest : List (Text × Option Text)) (w : BatchingStorageWriter S) (j : Text)
      → UniqueKeys rest
      → Agrees rest w
      → KeptOrGivenUp w (flush_loop backend rest w) j
  unfolding flush_loop get
  flush_loop-KeptOrGivenUp laws [] w j u a = inl refl
  flush_loop-KeptOrGivenUp laws ((key, value) ∷ rest) w j u a =
      let there : get key w.pending ≡ some value = a key value (ground arith) in
      let gone = get-delete j key w.pending in
      let less = get-delete j key w.retry_count in
      elim (flush_loop-cases key value rest w) [
        | inl (s, e, q) ↦
            let w' = forget key (record w { storage = s }) in
            subst (λ t. KeptOrGivenUp w t j) (sym q)
              (KeptOrGivenUp-back w w' (flush_loop backend rest w') j
                (elim (text_has_eq.dec key j) [
                  | yes h ↦ ground (
                    arith,
                    gone,
                    write_lem laws j key value w.storage s e,
                    ap (λ k. get k w.pending) h,
                  )
                  | no h ↦ ground (arith, gone, write_lem laws j key value w.storage s e)
                ])
                (elim (text_has_eq.dec key j) [
                  | yes h ↦ inl (ground (arith, gone))
                  | no h ↦ inr (ground (arith, gone), ground (arith, less))
                ])
                (flush_loop-KeptOrGivenUp laws rest w' j u.1
                  (forget-Agrees key value rest w (record w { storage = s }) u.0 a refl)))
        | inr (inl (l, e, q)) ↦
            let w0 = record w { warned = w.warned ++ key ∷ [] } in
            let w' = forget key w0 in
            subst (λ t. KeptOrGivenUp w t j) (sym q)
              (elim (text_has_eq.dec key j) [
                | yes h ↦ inr (
                  ground (arith, ap (λ k. get k w.pending) h),
                  subst (λ k. max_retry_attempts ≤ attempts w k) h l,
                  subst Refuses h (value, w.storage, e),
                  flush_loop-pending_none rest w' j (gone ∙ ground arith),
                )
                | no h ↦
                    KeptOrGivenUp-back w w' (flush_loop backend rest w') j (ground (arith, gone))
                      (inr (ground (arith, gone), ground (arith, less)))
                      (flush_loop-KeptOrGivenUp laws rest w' j u.1
                        (forget-Agrees key value rest w w0 u.0 a refl))
              ])
        | inr (inr (l, e, q)) ↦ subst (λ t. KeptOrGivenUp w t j) (sym q) (inl refl)
      ]

  -- If reads and writes of the wrapped storage obey the Web Storage API and no key is queued twice, a
  -- flush does not change what a read of any key sees, whichever writes the storage refuses: unless
  -- the key was queued, had already failed four times, is refused once more, and leaves the queue in
  -- this flush.
  pub flush-KeptOrGivenUp :
      StorageLaws backend
      → (w : BatchingStorageWriter S) (j : Text) → UniqueKeys w.pending
      → KeptOrGivenUp w (flush backend w) j
  unfolding flush
  flush-KeptOrGivenUp laws w j u =
      let w' = record w { flush_scheduled = false; retry_handle = none } in
      settled (flush_loop backend w.pending w')
        (flush_loop-KeptOrGivenUp laws w.pending w' j u (λ k v h. h))
    where
      settled :
          (t : BatchingStorageWriter S) → KeptOrGivenUp w t j → KeptOrGivenUp w (settle backend t) j
      settled t (inl e) = inl (ground arith)
      settled t (inr (h, l, f, g)) = inr (h, l, f, ground arith)
