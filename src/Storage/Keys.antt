-- ===== src/Storage/Keys.antt =====
-- About src/core/storage-batch.ts: the keys that the writer lists are those that it can read.
use cross_tab_worker_databus.Base.{
  ℕ, zero, suc, ◌+◌, ◌≤◌, ◌<◌, ◌≡◌, refl, sym, ap, ◌∙◌, ◌⊎◌, inl, inr, true, Option, none, some, [],
  ◌∷◌, arith, ℕ_discrete, is_some, Bool-cases, Option-cases, nat_has_eq,
}
use cross_tab_worker_databus.Base.JsMap.{
  JsMap, get, has, set, delete, get-set, get-delete, UniqueKeys,
}
use cross_tab_worker_databus.Base.JsString.{Text, text_has_eq}
use cross_tab_worker_databus.Storage.Writer.{
  Storage, BatchingStorageWriter, get_item, stored_keys, pending_keys, keys,
}

-- What the Web Storage API says of `length` and `key`: they list the keys that have an item.
pub record KeyLaws {S : Type 0} (backend : Storage S) : Type 0 where
  pub listed :
      (s : S) (index : ℕ) (key : Text)
      → index < backend.length s
      → backend.key index s ≡ some key
      → is_some (backend.get_item key s) ≡ true
  pub found :
      (s : S) (key : Text)
      → is_some (backend.get_item key s) ≡ true
      → (index : ℕ) × (index < backend.length s) × (backend.key index s ≡ some key)

has-set : (j k : Text) (m : JsMap Text (Unit {0})) → has j m ≡ true → has j (set k tt m) ≡ true
has-set j k m h = ground (arith, get-set j k tt m)

module _ {S : Type 0} (backend : Storage S) where
  -- One round of the loop over the storage.
  abbrev added : S → ℕ → JsMap Text (Unit {0}) → JsMap Text (Unit {0})
  added s index m = elim (backend.key index s) [ none ↦ m | some k ↦ set k tt m ]

  has-added :
      (s : S) (index : ℕ) (m : JsMap Text (Unit {0})) (j : Text)
      → has j (added s index m) ≡ true
      → (has j m ≡ true) ⊎ (backend.key index s ≡ some j)
  has-added s index m j h = elim (Option-cases (backend.key index s)) [
    | inl e ↦ inl (ground arith)
    | inr (k, e) ↦ elim (text_has_eq.dec k j) [
      | yes q ↦ inr (e ∙ ap some q)
      | no q ↦ inl (ground (arith, get-set j k tt m))
    ]
  ]

  has-stored_keys_sound :
      (s : S) (n index : ℕ) (m : JsMap Text (Unit {0})) (j : Text)
      → has j (stored_keys backend s index n m) ≡ true
      → (has j m ≡ true) ⊎ ((i : ℕ) × (i < index + n) × (backend.key i s ≡ some j))
  unfolding stored_keys
  has-stored_keys_sound s zero index m j h = inl h
  has-stored_keys_sound s (suc n) index m j h =
      elim (has-stored_keys_sound s n (index + 1) (added s index m) j h) [
        | inr (i, l, e) ↦ inr (i, omega arith, e)
        | inl t ↦ elim (has-added s index m j t) [
          | inl k ↦ inl k
          | inr e ↦ inr (index, omega arith, e)
        ]
      ]

  has-stored_keys_mono :
      (s : S) (n index : ℕ) (m : JsMap Text (Unit {0})) (j : Text)
      → has j m ≡ true
      → has j (stored_keys backend s index n m) ≡ true
  unfolding stored_keys
  has-stored_keys_mono s zero index m j h = h
  has-stored_keys_mono s (suc n) index m j h =
      has-stored_keys_mono s n (index + 1) (added s index m) j
        (elim (Option-cases (backend.key index s)) [
          | inl e ↦ ground arith
          | inr (k, e) ↦ ground (arith, has-set j k m h)
        ])

  has-stored_keys_complete :
      (s : S) (n index : ℕ) (m : JsMap Text (Unit {0})) (j : Text) (i : ℕ)
      → index ≤ i
      → i < index + n
      → backend.key i s ≡ some j
      → has j (stored_keys backend s index n m) ≡ true
  unfolding stored_keys
  has-stored_keys_complete s zero index m j i a b e = absurd (omega arith)
  has-stored_keys_complete s (suc n) index m j i a b e = elim (ℕ_discrete index i) [
    | no q ↦
        has-stored_keys_complete s n (index + 1) (added s index m) j i (omega arith) (omega arith) e
    | yes q ↦
        let here = ap (λ k. backend.key k s) q ∙ e in
        has-stored_keys_mono s n (index + 1) (added s index m) j
          (ground (arith, here, get-set j j tt m))
  ]

  has-pending_keys :
      (pending : JsMap Text (Option Text)) (m : JsMap Text (Unit {0})) (j : Text)
      → UniqueKeys pending
      → has j (pending_keys backend pending m)
        ≡ elim (get j pending) [ none ↦ has j m | some value ↦ is_some value ]
  unfolding pending_keys get
  has-pending_keys [] m j u = refl
  has-pending_keys ((key, none) ∷ pending) m j u =
      let ih = has-pending_keys pending (delete key m) j u.1 in
      let at = get-delete j key m in
      elim (text_has_eq.dec key j) [
        | yes q ↦ ground (arith, ih, at, ap (λ k. get k pending) q)
        | no q ↦ ground (arith, ih, at)
      ]
  has-pending_keys ((key, some value) ∷ pending) m j u =
      let ih = has-pending_keys pending (set key tt m) j u.1 in
      let at = get-set j key tt m in
      elim (text_has_eq.dec key j) [
        | yes q ↦ ground (arith, ih, at, ap (λ k. get k pending) q)
        | no q ↦ ground (arith, ih, at)
      ]

  has-stored_keys :
      KeyLaws backend
      → (s : S) (j : Text)
      → has j (stored_keys backend s 0 (backend.length s) []) ≡ is_some (backend.get_item j s)
  unfolding get
  has-stored_keys laws s j = elim (Bool-cases (is_some (backend.get_item j s))) [
    | inl t ↦
        let (i, l, e) = laws.found s j t in
        has-stored_keys_complete s (backend.length s) 0 [] j i (omega arith) (omega arith) e ∙ sym t
    | inr f ↦ elim (Bool-cases (has j (stored_keys backend s 0 (backend.length s) []))) [
      | inr g ↦ g ∙ sym f
      | inl g ↦ elim (has-stored_keys_sound s (backend.length s) 0 [] j g) [
        | inl h ↦ absurd (ground arith)
        | inr (i, l, e) ↦ absurd (ground (arith, laws.listed s i j (omega arith) e))
      ]
    ]
  ]

  -- If the storage lists the keys that have an item, and no key is queued twice, the writer lists
  -- exactly the keys for which a read finds a value: the stored and the queued ones, without those
  -- whose removal is queued.
  pub has-keys :
      KeyLaws backend
      → (w : BatchingStorageWriter S) (j : Text) → UniqueKeys w.pending
      → has j (keys backend w) ≡ is_some (get_item backend w j)
  has-keys laws w j u =
      has-pending_keys w.pending (stored_keys backend w.storage 0 (backend.length w.storage) []) j u
      ∙ elim (Option-cases (get j w.pending)) [
        | inl e ↦ ground (arith, has-stored_keys laws w.storage j)
        | inr (v, e) ↦ ground arith
      ]
