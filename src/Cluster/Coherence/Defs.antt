-- ===== src/Cluster/Coherence/Defs.antt =====
-- About src/core/cluster.ts: what a coherent tab is, and the reads and writes of the records.
use cross_tab_worker_databus.Base.{
  ℕ, ◌≡◌, refl, inl, inr, Bool, true, false, not, ◌||◌, Option, none, some, List, [], ◌∷◌, arith,
  ltb, if◌then◌else◌, is_some, Bool-cases, length, filterb, All, All-filterb, All-In, nat_has_eq,
}
use cross_tab_worker_databus.Base.JsMap.{
  JsMap, get, set, delete, UniqueKeys, get-In, UniqueKeys-filterb, All-delete, UniqueKeys-set,
  UniqueKeys-delete,
}
use cross_tab_worker_databus.Base.JsString.{Text, text_has_eq, eqb}
use cross_tab_worker_databus.Base.Number.{Number}
use cross_tab_worker_databus.Types.{WorkerRecord, WorkerRoute}
use cross_tab_worker_databus.Codec.Hash.{create_opaque_key}
use cross_tab_worker_databus.Cluster.Cache.{max_known_topics, forget_first, remember_topic}
use cross_tab_worker_databus.Cluster.Registry.{build_route_record, confirm_route, confirm_found}
use cross_tab_worker_databus.Cluster.Frames.{Frame, Operation, Effect}
use cross_tab_worker_databus.Cluster.Runtime.{
  Config, Store, Runtime, post, sent, live_workers, write_route, remove_route, confirm, diagnose,
  nonempty, with_routes, write_subscriber, remove_subscriber, subscriber_ids, remember,
}

-- Every topic stands under its own key.
abbrev pub Keyed : JsMap Text Text → Type 0
Keyed = All λ e. create_opaque_key e.1 ≡ e.0

-- An entry that is as it should be, put into a map of such.
placed :
    (key : Text) (r : WorkerRoute) (m : JsMap Text WorkerRoute)
    → r.topic_key ≡ key
    → All (λ e. e.1.topic_key ≡ e.0) m
    → All (λ e. e.1.topic_key ≡ e.0) (set key r m)
unfolding set
placed key r [] e h = (e, tt)
placed key r ((j, w) ∷ m) e h = elim (text_has_eq.dec j key) [
  | yes q ↦ ground (arith, e, q)
  | no q ↦ ground (arith, placed key r m e h.1)
]

-- A topic has one route, which carries the key that it stands under.
abbrev pub AreRoutes : JsMap Text WorkerRoute → Type 0
AreRoutes routes = UniqueKeys routes × All (λ e. e.1.topic_key ≡ e.0) routes

set-AreRoutes :
    (key : Text) (r : WorkerRoute) (routes : JsMap Text WorkerRoute)
    → r.topic_key ≡ key
    → AreRoutes routes
    → AreRoutes (set key r routes)
set-AreRoutes key r routes e (u, a) = (UniqueKeys-set key r routes u, placed key r routes e a)

delete-AreRoutes :
    (key : Text) (routes : JsMap Text WorkerRoute)
    → AreRoutes routes
    → AreRoutes (delete key routes)
delete-AreRoutes key routes (u, a) = (UniqueKeys-delete key routes u, All-delete _ key routes a)

pub filterb-AreRoutes :
    (p : Text × WorkerRoute → Bool) (routes : JsMap Text WorkerRoute)
    → AreRoutes routes
    → AreRoutes (filterb p routes)
filterb-AreRoutes p routes (u, a) = (UniqueKeys-filterb p routes u, All-filterb _ p routes a)

AreRoutes-if :
    (b : Bool) (p q : JsMap Text WorkerRoute × Bool)
    → AreRoutes p.0
    → AreRoutes q.0
    → AreRoutes (if b then p else q).0
AreRoutes-if true p q v w = v
AreRoutes-if false p q v w = w

-- The confirmation of the route that is found.
confirm_found-AreRoutes :
    (self : Text) (now : ℕ) (key : Text) (routes : JsMap Text WorkerRoute) (o : Option WorkerRoute)
    → get key routes ≡ o
    → AreRoutes routes
    → AreRoutes (confirm_found self now key routes o).0
confirm_found-AreRoutes self now key routes none e v = v
confirm_found-AreRoutes self now key routes (some r) e v =
    let r' = record r { confirmed_at = some now } in
    let own : r.topic_key ≡ key = All-In _ (key, r) routes v.1 (get-In key r routes e) in
    AreRoutes-if (not (eqb r.worker_id self) || is_some r.confirmed_at) (routes, false)
      (set key r' routes, true) v (set-AreRoutes key r' routes own v)

confirm_route-AreRoutes :
    (self : Text) (now : ℕ) (key : Text) (routes : JsMap Text WorkerRoute)
    → AreRoutes routes
    → AreRoutes (confirm_route self now key routes).0
unfolding confirm_route
confirm_route-AreRoutes self now key routes v =
    confirm_found-AreRoutes self now key routes (get key routes) refl v

module _ {N : Number} {D : Type 0} where
  -- What reads see after a discard are routes again, if they were.
  abbrev pub Restores : Config N D → Type 0
  Restores c =
      (before : List (Effect D)) (store : Store N)
      → AreRoutes store.routes
      → AreRoutes (c.discards before store).routes

  -- The routes and the topics of the tab stand under their own keys.
  abbrev pub IsCoherent : Runtime N D → Type 0
  IsCoherent s = AreRoutes s.store.routes × Keyed s.assigned_topics × Keyed s.known_topics

  -- The same, with what a step needs of a discard.
  abbrev pub IsGuarded : Runtime N D → Type 0
  IsGuarded s =
      AreRoutes s.store.routes × Keyed s.assigned_topics × Keyed s.known_topics × Restores s.config

  abbrev pub Stays : Runtime N D → Runtime N D → Type 0
  Stays s t = IsGuarded s → IsGuarded t

  -- From a coherent state to one.
  pub record Allowed (s t : Runtime N D) : Type 0 where
    pub step : Stays s t

  -- For a step that leaves the configuration, the routes and the topics alone.
  pub stay : (s : Runtime N D) → Stays s s
  stay s c = c

  pub Allowed-refl : (s : Runtime N D) → Allowed s s
  Allowed-refl s = record { step = stay s }

  infixr 5 ◌▷◌
  pub ◌▷◌ : {s t u : Runtime N D} → Allowed s t → Allowed t u → Allowed s u
  ◌▷◌ f g = record { step = λ c. g.step (f.step c) }

  pub Allowed-if :
      (b : Bool) {s t u : Runtime N D} → Allowed s t → Allowed s u → Allowed s (if b then t else u)
  Allowed-if true f g = f
  Allowed-if false f g = g

  -- The same, where a branch needs its test, or a result comes with the state.
  pub Allowed-if_at :
      (b : Bool) {s t u : Runtime N D}
      → (b ≡ true → Allowed s t)
      → (b ≡ false → Allowed s u)
      → Allowed s (if b then t else u)
  Allowed-if_at true f g = f refl
  Allowed-if_at false f g = g refl

  pub Allowed-if_pair :
      {X : Type 0} (b : Bool) (p q : Runtime N D × X) {s : Runtime N D}
      → Allowed s p.0
      → Allowed s q.0
      → Allowed s (if b then p else q).0
  Allowed-if_pair true p q f g = f
  Allowed-if_pair false p q f g = g

  -- A step with other routes only.
  pub Allowed-routes :
      (s : Runtime N D) (routes : JsMap Text WorkerRoute)
      → (AreRoutes s.store.routes → AreRoutes routes)
      → Allowed s (with_routes routes s)
  Allowed-routes s routes h = record { step = λ c. (h c.0, c.1, c.2, c.3) }

  pub post-Allowed : (frame : Frame D) (s : Runtime N D) → Allowed s (post frame s)
  unfolding post
  post-Allowed frame s = Allowed-if (sent s frame) (record { step = stay s }) (Allowed-refl s)

  pub live_workers-Allowed : (s : Runtime N D) → Allowed s (live_workers s).0
  unfolding live_workers
  live_workers-Allowed s = record { step = stay s }

  pub subscriber_ids-Allowed :
      (key : Text) (workers : List (WorkerRecord N)) (s : Runtime N D)
      → Allowed s (subscriber_ids key workers s).0
  unfolding subscriber_ids
  subscriber_ids-Allowed key workers s = record { step = stay s }

  pub write_subscriber-Allowed : (key : Text) (s : Runtime N D) → Allowed s (write_subscriber key s)
  unfolding write_subscriber
  write_subscriber-Allowed key s = Allowed-if s.storage (record { step = stay s }) (Allowed-refl s)

  pub remove_subscriber-Allowed :
      (key : Text) (s : Runtime N D) → Allowed s (remove_subscriber key s)
  unfolding remove_subscriber
  remove_subscriber-Allowed key s = Allowed-if s.storage (record { step = stay s }) (Allowed-refl s)

  pub remove_route-Allowed : (key : Text) (s : Runtime N D) → Allowed s (remove_route key s)
  remove_route-Allowed key s =
      Allowed-if s.storage
        (Allowed-routes s (delete key s.store.routes) (delete-AreRoutes key s.store.routes))
        (Allowed-refl s)

  pub write_route-Allowed :
      (key : Text) (owner : WorkerRecord N) (from : Option Text) (generation : ℕ) (s : Runtime N D)
      → Allowed s (write_route key owner from generation s)
  unfolding write_route
  write_route-Allowed key owner from generation s =
      let r =
        build_route_record key owner.worker_id owner.tab_id from generation s.last_finite_now in
      Allowed-if s.storage
        (Allowed-routes s (set key r s.store.routes) (set-AreRoutes key r s.store.routes refl))
        (Allowed-refl s)

  diagnose-Allowed :
      (operation : Operation) (topic : Option Text) (s t : Runtime N D)
      → Allowed s t
      → Allowed s (diagnose operation topic t)
  diagnose-Allowed operation none s t f = f
  diagnose-Allowed operation (some topic) s t f = record { step = f.step }

  pub confirm-Allowed : (key : Text) (s : Runtime N D) → Allowed s (confirm key s)
  unfolding confirm
  confirm-Allowed key s =
      let r = confirm_route s.config.worker_id s.last_finite_now key s.store.routes in
      let kept = confirm_route-AreRoutes s.config.worker_id s.last_finite_now key s.store.routes in
      Allowed-if s.storage
        (Allowed-if r.1
          (diagnose-Allowed Operation.route_ack (nonempty (get key s.known_topics)) s
            (with_routes r.0 s) (Allowed-routes s r.0 kept))
          (Allowed-refl s))
        (Allowed-refl s)

  -- A step with other topics only.
  Allowed-topics :
      (s : Runtime N D) (assigned known : JsMap Text Text)
      → (Keyed s.assigned_topics → Keyed assigned)
      → (Keyed s.known_topics → Keyed known)
      → Allowed s (record s { assigned_topics = assigned; known_topics = known })
  Allowed-topics s assigned known f g = record { step = λ c. (c.0, f c.1, g c.2, c.3) }

All-set_at :
    (key topic : Text) (m : JsMap Text Text)
    → create_opaque_key topic ≡ key
    → Keyed m
    → Keyed (set key topic m)
unfolding set
All-set_at key topic [] e h = (e, tt)
All-set_at key topic ((j, w) ∷ m) e h = elim (text_has_eq.dec j key) [
  | yes q ↦ ground (arith, e, q)
  | no q ↦ ground (arith, All-set_at key topic m e h.1)
]

Keyed-forget_first :
    (key : Text) (assigned known : JsMap Text Text)
    → Keyed known
    → Keyed (forget_first key assigned known)
unfolding forget_first
Keyed-forget_first key assigned [] h = tt
Keyed-forget_first key assigned ((j, w) ∷ known) h =
    ground (arith, Keyed-forget_first key assigned known h.1)

Keyed-remember :
    (assigned known : JsMap Text Text) (topic : Text)
    → Keyed known
    → Keyed (remember_topic assigned known (create_opaque_key topic) topic)
unfolding remember_topic
Keyed-remember assigned known topic h =
    let key = create_opaque_key topic in
    let added = All-set_at key topic known refl h in
    elim (Bool-cases (ltb max_known_topics (length (set key topic known)))) [
      | inl t ↦ rw t (Keyed-forget_first key assigned (set key topic known) added)
      | inr f ↦ rw f added
    ]

module _ {N : Number} {D : Type 0} where
  pub remember-Allowed : (topic : Text) (s : Runtime N D) → Allowed s (remember topic s)
  unfolding remember
  remember-Allowed topic s =
      Allowed-topics s s.assigned_topics _ (λ h. h)
        (Keyed-remember s.assigned_topics s.known_topics topic)

  pub forget-Allowed :
      (key : Text) (s : Runtime N D)
      → Allowed s (record s { known_topics = delete key s.known_topics })
  forget-Allowed key s =
      Allowed-topics s s.assigned_topics _ (λ h. h) (All-delete _ key s.known_topics)

  pub unassign-Allowed :
      (key : Text) (s : Runtime N D)
      → Allowed s (record s { assigned_topics = delete key s.assigned_topics })
  unassign-Allowed key s =
      Allowed-topics s _ s.known_topics (All-delete _ key s.assigned_topics) (λ h. h)

  pub take-Allowed :
      (key topic : Text) (s : Runtime N D)
      → create_opaque_key topic ≡ key
      → Allowed s (record s { assigned_topics = set key topic s.assigned_topics })
  take-Allowed key topic s e =
      Allowed-topics s _ s.known_topics (All-set_at key topic s.assigned_topics e) (λ h. h)
