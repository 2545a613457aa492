-- ===== src/Cluster/RegistryLaws.antt =====
-- About src/core/cluster.ts: which records the reads return, and which the cleanups remove.
use cross_tab_worker_databus.Base.{
  ℕ, ◌-◌, ◌≤◌, ◌<◌, ◌≡◌, refl, sym, ap, ◌∙◌, ◌⊎◌, inl, inr, Bool, true, false, not, ◌&&◌, ◌||◌,
  none, some, List, [], ◌∷◌, ◌++◌, map, arith, ltb, Bool-cases, length, filterb, anyb, All,
  All-append, In-append_right, In-anyb, nat_has_eq,
}
use cross_tab_worker_databus.Base.JsMap.{JsMap, set}
use cross_tab_worker_databus.Base.JsString.{Text, text_has_eq, eqb, eqb_sound, eqb_refl}
use cross_tab_worker_databus.Base.Number.{Number}
use cross_tab_worker_databus.Types.{WorkerRecord, WorkerRoute}
use cross_tab_worker_databus.Cluster.Registry.{
  StoredSubscriber, outlives, is_kept, read_workers, is_live_of, is_no_dead_of, add_ids,
  read_subscriber_ids, cleanup_orphaned_routes, is_subscriber_record_live,
}

module _ (N : Number) where
  -- A worker that is the tab's own or has a fresh heartbeat.
  abbrev pub IsFresh : Text → ℕ → ℕ → WorkerRecord N → Type 0
  IsFresh self ttl now w = (w.worker_id ≡ self) ⊎ (now - w.heartbeat_at ≤ ttl)

  kept-IsFresh :
      (self : Text) (ttl now : ℕ) (table : JsMap Text (WorkerRecord N))
      → All (IsFresh self ttl now) (map (λ e. e.1) (filterb (is_kept N self ttl now) table))
  kept-IsFresh self ttl now [] = tt
  kept-IsFresh self ttl now ((k, w) ∷ table) =
      let rest = kept-IsFresh self ttl now table in
      elim (Bool-cases (eqb w.worker_id self)) [
        | inl t ↦ rw t (inl (eqb_sound w.worker_id self t), rest)
        | inr f ↦ elim (Bool-cases (outlives ttl now w.heartbeat_at)) [
          | inl late ↦ rw (f, late) rest
          | inr fresh ↦ rw (f, fresh) (inr (ground arith), rest)
        ]
      ]

  filterb_twice :
      {A : Type 0} (p : A → Bool) (xs : List A) → filterb p (filterb p xs) ≡ filterb p xs
  filterb_twice p [] = refl
  filterb_twice p (x ∷ xs) = ground (arith, filterb_twice p xs)

  -- Every worker that `readWorkers` returns is the tab's own or has a heartbeat no older than the
  -- bound; a tab that has started finds its own worker among them, if its record carries its id; and
  -- reading once more at the same time finds the same.
  pub read_workers-IsFresh :
      (self : Text) (ttl now : ℕ) (current : WorkerRecord N) (table : JsMap Text (WorkerRecord N))
      → current.worker_id ≡ self
      → let r = read_workers N self ttl now true current table in
        All (IsFresh self ttl now) r.1
        × (anyb (λ w. eqb w.worker_id self) r.1 ≡ true)
        × (read_workers N self ttl now true current r.0 ≡ r)
  unfolding read_workers
  read_workers-IsFresh self ttl now current table e =
      let kept = filterb (is_kept N self ttl now) table in
      let workers = map (λ x. x.1) kept in
      let fresh = kept-IsFresh self ttl now table in
      let mine : eqb current.worker_id self ≡ true =
        ap (eqb current.worker_id) (sym e) ∙ eqb_refl current.worker_id in
      let again = filterb_twice (is_kept N self ttl now) table in
      (
        elim (Bool-cases (anyb (λ w. eqb w.worker_id self) workers)) [
          | inl t ↦ rw t fresh
          | inr f ↦
              rw f (All-append (IsFresh self ttl now) workers (current ∷ []) fresh (inl e, tt))
        ],
        elim (Bool-cases (anyb (λ w. eqb w.worker_id self) workers)) [
          | inl t ↦ rw t t
          | inr f ↦ rw f (
              In-anyb (λ w. eqb w.worker_id self) current (workers ++ current ∷ [])
                (In-append_right current workers (current ∷ []) (inl refl)) mine)
        ],
        rw again refl,
      )

  abbrev pub has_live : List (WorkerRecord N) → Text → List StoredSubscriber → Bool
  has_live workers topic_key table = anyb (is_live_of N workers topic_key) table

  length-set-pos : (k : Text) (m : JsMap Text (Unit {0})) → 0 < length (set k tt m)
  unfolding set
  length-set-pos k [] = omega arith
  length-set-pos k (e ∷ m) = ground arith

  add_ids-pos :
      (l : List StoredSubscriber) (tabs workers : JsMap Text (Unit {0}))
      → ltb 0 (length (add_ids N l tabs workers).0) ≡ (ltb 0 (length l) || ltb 0 (length tabs))
  unfolding add_ids
  add_ids-pos [] tabs workers = ground arith
  add_ids-pos (s ∷ l) tabs workers = ground (
    arith,
    length-set-pos s.record_of.tab_id tabs,
    add_ids-pos l (set s.record_of.tab_id tt tabs)
        (elim s.record_of.worker_id [ none ↦ workers | some id ↦ set id tt workers ]),
  )

  anyb-filterb :
      (p : StoredSubscriber → Bool) (xs : List StoredSubscriber)
      → ltb 0 (length (filterb p xs)) ≡ anyb p xs
  anyb-filterb p [] = ground arith
  anyb-filterb p (x ∷ xs) = ground (arith, anyb-filterb p xs)

  -- To drop dead records does not change which topics have live ones.
  has_live-drop_dead :
      (workers : List (WorkerRecord N)) (k j : Text) (table : List StoredSubscriber)
      → has_live workers k (filterb (is_no_dead_of N workers j) table) ≡ has_live workers k table
  has_live-drop_dead workers k j [] = refl
  has_live-drop_dead workers k j (s ∷ table) = ground (arith, has_live-drop_dead workers k j table)

  -- A route that is due stays if its topic has a live subscriber.
  abbrev pub stays :
      ℕ → ℕ → List (WorkerRecord N) → List StoredSubscriber → Text × WorkerRoute → Bool
  stays ttl now workers table e =
      not (outlives ttl now e.1.updated_at) || has_live workers e.1.topic_key table

  filterb_same :
      (p q : Text × WorkerRoute → Bool) (xs : JsMap Text WorkerRoute)
      → ((x : Text × WorkerRoute) → p x ≡ q x)
      → filterb p xs ≡ filterb q xs
  filterb_same p q [] h = refl
  filterb_same p q (x ∷ xs) h = ground (arith, h x, filterb_same p q xs h)

  -- A subscriber goes if it is dead and the route of its topic was due.
  abbrev pub is_left :
      ℕ → ℕ → List (WorkerRecord N) → JsMap Text WorkerRoute → StoredSubscriber → Bool
  is_left ttl now workers routes s =
      is_subscriber_record_live N workers s.record_of
      || not (anyb (λ e. outlives ttl now e.1.updated_at && eqb s.topic_key e.1.topic_key) routes)

  filterb_step :
      (p q r : StoredSubscriber → Bool) (xs : List StoredSubscriber)
      → ((x : StoredSubscriber) → (q x && p x) ≡ r x)
      → filterb p (filterb q xs) ≡ filterb r xs
  filterb_step p q r [] h = refl
  filterb_step p q r (x ∷ xs) h = ground (arith, h x, filterb_step p q r xs h)

  filterb_all :
      (p : StoredSubscriber → Bool) (xs : List StoredSubscriber)
      → ((x : StoredSubscriber) → p x ≡ true)
      → xs ≡ filterb p xs
  filterb_all p [] h = refl
  filterb_all p (x ∷ xs) h = ground (arith, h x, filterb_all p xs h)

  left_late :
      (due live same more : Bool)
      → due ≡ true
      → ((not same || live) && (live || not more)) ≡ (live || not ((due && same) || more))
  left_late due live same more h = ground (arith, h)

  left_fresh :
      (due live same more : Bool)
      → due ≡ false
      → (live || not more) ≡ (live || not ((due && same) || more))
  left_fresh due live same more h = ground (arith, h)

  left_none : (live : Bool) → (live || not false) ≡ true
  left_none true = refl
  left_none false = refl

  filterb_eq :
      (p q : StoredSubscriber → Bool) (xs : List StoredSubscriber)
      → ((x : StoredSubscriber) → p x ≡ q x)
      → filterb p xs ≡ filterb q xs
  filterb_eq p q [] h = refl
  filterb_eq p q (x ∷ xs) h = ground (arith, h x, filterb_eq p q xs h)

  -- What the first route of the loop does to the subscribers.
  first_fresh :
      (ttl now : ℕ) (workers : List (WorkerRecord N)) (e : Text × WorkerRoute)
      (routes : JsMap Text WorkerRoute) (table : List StoredSubscriber)
      → outlives ttl now e.1.updated_at ≡ false
      → (cleanup_orphaned_routes N ttl now workers (e ∷ routes) table).1
        ≡ (cleanup_orphaned_routes N ttl now workers routes table).1
  unfolding cleanup_orphaned_routes
  first_fresh ttl now workers e routes table h = ground (arith, h)

  first_late :
      (ttl now : ℕ) (workers : List (WorkerRecord N)) (e : Text × WorkerRoute)
      (routes : JsMap Text WorkerRoute) (table : List StoredSubscriber)
      → outlives ttl now e.1.updated_at ≡ true
      → (cleanup_orphaned_routes N ttl now workers (e ∷ routes) table).1
        ≡ (cleanup_orphaned_routes N ttl now workers routes
            (filterb (is_no_dead_of N workers e.1.topic_key) table)).1
  unfolding cleanup_orphaned_routes read_subscriber_ids
  first_late ttl now workers e routes table h = ground (arith, h)

  -- The cleanup removes exactly the routes that were not renewed within the bound and whose topic has
  -- no live subscriber, and exactly those subscribers that are not live and whose topic has a route
  -- that was not renewed within the bound.
  pub cleanup_orphaned_routes-stays :
      (ttl now : ℕ) (workers : List (WorkerRecord N)) (routes : JsMap Text WorkerRoute)
      (table : List StoredSubscriber)
      → let r = cleanup_orphaned_routes N ttl now workers routes table in
        (r.0 ≡ filterb (stays ttl now workers table) routes)
        × (r.1 ≡ filterb (is_left ttl now workers routes) table)
  unfolding cleanup_orphaned_routes read_subscriber_ids
  cleanup_orphaned_routes-stays ttl now workers [] table =
      (refl, filterb_all (is_left ttl now workers []) table λ s. left_none _)
  cleanup_orphaned_routes-stays ttl now workers (e ∷ routes) table =
      let left = filterb (is_no_dead_of N workers e.1.topic_key) table in
      let live = filterb (is_live_of N workers e.1.topic_key) table in
      elim (Bool-cases (outlives ttl now e.1.updated_at)) [
        | inr fresh ↦
            let (a, b) = cleanup_orphaned_routes-stays ttl now workers routes table in
            (
              ground (arith, a),
              first_fresh ttl now workers e routes table fresh
                  ∙ b
                  ∙ filterb_eq _ _ table (λ s. left_fresh _ _ _ _ fresh),
            )
        | inl late ↦
            let (a, b) = cleanup_orphaned_routes-stays ttl now workers routes left in
            let same =
              filterb_same (stays ttl now workers left) (stays ttl now workers table) routes (λ x.
                ap (λ l. not (outlives ttl now x.1.updated_at) || l)
                  (has_live-drop_dead workers x.1.topic_key e.1.topic_key table)) in
            (
              ground (
                arith,
                a,
                same,
                add_ids-pos live [] [],
                anyb-filterb (is_live_of N workers e.1.topic_key) table,
              ),
              first_late ttl now workers e routes table late
                  ∙ b
                  ∙ filterb_step (is_left ttl now workers routes)
                      (is_no_dead_of N workers e.1.topic_key) _ table (λ s. left_late _ _ _ _ late),
            )
      ]
