-- ===== src/Cluster/Pausing.antt =====
-- About src/core/cluster.ts: what a tab that pauses leaves in the worker records and in the routes of
-- its assigned topics, where the storage takes its last writes.
use cross_tab_worker_databus.Base.{
  List, ◌+◌, ◌<◌, ◌≡◌, refl, sym, ap, subst, ◌∙◌, inl, inr, Bool, true, false, not, ◌||◌, Option,
  none, some, [], ◌∷◌, arith, ◌==◌, if◌then◌else◌, Bool-cases, length, nat_has_eq, if_true,
  if_false,
}
use cross_tab_worker_databus.Base.JsMap.{JsMap, get, delete, has}
use cross_tab_worker_databus.Base.JsString.{Text, text_has_eq}
use cross_tab_worker_databus.Base.Number.{Number}
use cross_tab_worker_databus.Types.{WorkerRoute}
use cross_tab_worker_databus.Codec.Hash.{create_opaque_key}
use cross_tab_worker_databus.Cluster.Frames.{Effect, registry, flushed, closed, on_suspend}
use cross_tab_worker_databus.Cluster.Runtime.{
  Runtime, log, post, live_workers, read_route, remove_route, subscriber_ids, remember,
  with_workers,
}
use cross_tab_worker_databus.Base.JsMap.{get-delete}
use cross_tab_worker_databus.Cluster.Runtime.{Store, sent}
use cross_tab_worker_databus.Cluster.Control.{routed_to}
use cross_tab_worker_databus.Cluster.Claims.{add_loads}
use cross_tab_worker_databus.Cluster.Handoff.{Pass, hand_over_all, others, handoff_assigned_topics}
-- A write for another worker, or a removal.
use cross_tab_worker_databus.Cluster.Departure.{
  others-AreOthers, IsElsewhere, Leaves, Leaves-refl, Leaves-trans, Leaves-if, delete-elsewhere,
}
use cross_tab_worker_databus.Cluster.Control.{notify_registry}
use cross_tab_worker_databus.Cluster.Claims.{release_route, release_subscription}
use cross_tab_worker_databus.Cluster.Runtime.{remove_subscriber}
use cross_tab_worker_databus.Cluster.Settled.Reconciled.{has-In}
use cross_tab_worker_databus.Cluster.Lifecycle.{
  release_all, drop_assignments, remove_worker, flush_storage, discard_pending, close_channel,
  leave, pause,
}
use cross_tab_worker_databus.Cluster.Leaving.{active, hand_over_all-Leaves}

has_some : (key : Text) (m : JsMap Text Text) → has key m ≡ true → (length m == 0) ≡ false
unfolding get
has_some key [] h = cc
has_some key (e ∷ m) h = ground arith

deleted : {V : Type 0} (key : Text) (m : JsMap Text V) → get key (delete key m) ≡ none
deleted key m = ground (arith, get-delete key key m)

module _ {N : Number} {D : Type 0} where
  -- A step that also keeps the assignments.
  Releases : Runtime N D → Runtime N D → Type 0
  Releases s t = Leaves s t × (t.assigned_topics ≡ s.assigned_topics)

  Releases-trans : (s t u : Runtime N D) → Releases s t → Releases t u → Releases s u
  unfolding Releases
  Releases-trans s t u f g = (Leaves-trans f.0 g.0, g.1 ∙ f.1)

  Releases-if :
      (b : Bool) (s t u : Runtime N D)
      → Releases s t
      → Releases s u
      → Releases s (if b then t else u)
  Releases-if true s t u f g = f
  Releases-if false s t u f g = g

  Releases-refl : (s : Runtime N D) → Releases s s
  unfolding Releases
  Releases-refl s = (Leaves-refl s, refl)

  remove_route-Releases : (key : Text) (s : Runtime N D) → Releases s (remove_route key s)
  unfolding Releases
  remove_route-Releases key s =
      Releases-if s.storage s _ s
        (
          record {
            storage = refl;
            config = refl;
            elsewhere = λ k h. delete-elsewhere s.config.worker_id key k s.store.routes h;
          },
          refl,
        )
        (Releases-refl s)

  release_route-Releases :
      (topic : Text) (o : Option WorkerRoute) (s : Runtime N D)
      → Releases s (release_route topic false o s)
  unfolding live_workers subscriber_ids Releases
  release_route-Releases topic none s = Releases-refl s
  release_route-Releases topic (some route) s =
      let read = live_workers s in
      let ids = subscriber_ids (create_opaque_key topic) read.1 read.0 in
      let f : Releases s ids.0 =
        (record { storage = refl; config = refl; elsewhere = λ k h. h }, refl) in
      Releases-if (length ids.1 == 0) s _ ids.0
        (Releases-trans s ids.0 _ f (remove_route-Releases (create_opaque_key topic) ids.0)) f

  release_subscription-Releases :
      (topic : Text) (s : Runtime N D) → Releases s (release_subscription topic false s)
  unfolding release_subscription remember remove_subscriber Releases
  release_subscription-Releases topic s =
      let t = remember topic s in
      let u = remove_subscriber (create_opaque_key topic) t in
      let f : Releases s t =
        (record { storage = refl; config = refl; elsewhere = λ k h. h }, refl) in
      let g : Releases t u =
        Releases-if t.storage t _ t
          (record { storage = refl; config = refl; elsewhere = λ k h. h }, refl)
          (Releases-refl t) in
      Releases-trans s t _ f (
        Releases-trans t u _ g
          (release_route-Releases topic (read_route u (create_opaque_key topic)) u))

  release_all-Releases :
      (topics : JsMap Text (Unit {0})) (s : Runtime N D) → Releases s (release_all topics s)
  unfolding release_all
  release_all-Releases [] s = Releases-refl s
  release_all-Releases ((topic, u) ∷ topics) s =
      Releases-trans s (release_subscription topic false s) _
        (release_subscription-Releases topic s) (release_all-Releases topics _)

  -- After the handoff no route of an assigned topic names this worker.
  handoff-Leaves :
      (s : Runtime N D)
      → s.storage ≡ true
      → 0 < s.config.max_active_workers
      → Leaves s (handoff_assigned_topics s)
        × ((key : Text)
            → has key s.assigned_topics ≡ true
            → IsElsewhere key (handoff_assigned_topics s))
  unfolding handoff_assigned_topics live_workers
  handoff-Leaves s stored limited =
      let read = live_workers s in
      let remaining = others s read.1 in
      let limit = s.config.max_active_workers in
      let p : Pass N D = (read.0, add_loads (active remaining limit) []) in
      let (leaves, all) =
        hand_over_all-Leaves remaining limit limited s.assigned_topics p stored
          (others-AreOthers s.config.worker_id read.1) in
      let quiet = not s.storage || (length s.assigned_topics == 0) in
      let done = (hand_over_all remaining (active remaining limit) s.assigned_topics p).0 in
      (
        Leaves-if quiet (Leaves-refl s) (record {
          storage = leaves.storage;
          config = leaves.config;
          elsewhere = leaves.elsewhere;
        }),
        λ key h.
            let (topic, m) = has-In key s.assigned_topics h in
            let some_topics = has_some key s.assigned_topics h in
            let busy : quiet ≡ false = ground (arith, stored, some_topics) in
            subst (λ u. IsElsewhere key u) (sym (if_false quiet s done busy)) (all key topic m),
      )

  noted : Runtime N D → Runtime N D
  noted s = notify_registry (flush_storage s)

  closing : Runtime N D → Runtime N D
  closing s = close_channel (discard_pending (noted s))

  -- The storage has taken the writes that are pending when the writer drops them.
  abbrev pub TakesWrites : Runtime N D → Type 0
  TakesWrites s =
      (before : List (Effect D)) (store : Store N) → s.config.discards before store ≡ store

  discard-same : (s : Runtime N D) → TakesWrites s → discard_pending s ≡ s
  unfolding discard_pending
  discard-same s kept = elim (Bool-cases s.storage) [
    | inl t ↦
        if_true s.storage (record s { store = s.config.discards s.effects s.store }) s t
        ∙ ap (λ x. record s { store = x }) (kept s.effects s.store)
    | inr n ↦ if_false s.storage (record s { store = s.config.discards s.effects s.store }) s n
  ]

  noted-field :
      {X : Type 0} (f : Runtime N D → X) (s : Runtime N D)
      → ((e : Effect D) (u : Runtime N D) → f (log e u) ≡ f u)
      → f (noted s) ≡ f s
  unfolding notify_registry post noted
  noted-field f s logged =
      let flush = flush_storage s in
      let flushing : f flush ≡ f s = elim (Bool-cases s.storage) [
        | inl t ↦ ap f (if_true s.storage (log flushed s) s t) ∙ logged flushed s
        | inr n ↦ ap f (if_false s.storage (log flushed s) s n)
      ] in
      let posting : f (post registry flush) ≡ f flush = elim (Bool-cases (sent flush registry)) [
        | inl t ↦
            ap f (if_true (sent flush registry) (log (Effect.posted registry) flush) flush t)
            ∙ logged (Effect.posted registry) flush
        | inr n ↦ ap f (if_false (sent flush registry) (log (Effect.posted registry) flush) flush n)
      ] in
      posting ∙ flushing

  -- What the last steps leave alone: all that logging and closing the channel do.
  closing-field :
      {X : Type 0} (f : Runtime N D → X) (s : Runtime N D)
      → TakesWrites s
      → ((e : Effect D) (u : Runtime N D) → f (log e u) ≡ f u)
      → ((u : Runtime N D) → f (record u { channel = false }) ≡ f u)
      → f (closing s) ≡ f s
  unfolding closing
  closing-field f s kept logged shut =
      let config : (noted s).config ≡ s.config = noted-field (λ u. u.config) s (λ e u. refl) in
      let dropped =
        discard-same (noted s)
          (λ before store. ap (λ c. c.discards before store) config ∙ kept before store) in
      let p = discard_pending (noted s) in
      let quiet = log on_suspend (record p { channel = false }) in
      let off : f quiet ≡ f p = logged on_suspend (record p { channel = false }) ∙ shut p in
      let ending : f (close_channel p) ≡ f quiet = elim (Bool-cases p.channel) [
        | inl t ↦ ap f (if_true p.channel (log closed quiet) quiet t) ∙ logged closed quiet
        | inr n ↦ ap f (if_false p.channel (log closed quiet) quiet n)
      ] in
      ending ∙ off ∙ ap f dropped ∙ noted-field f s logged

  closing-channel : (s : Runtime N D) → (closing s).channel ≡ false
  unfolding closing
  closing-channel s =
      let p = discard_pending (noted s) in
      let quiet = log on_suspend (record p { channel = false }) in
      elim (Bool-cases p.channel) [
        | inl t ↦ ap (λ (u : Runtime N D). u.channel) (if_true p.channel (log closed quiet) quiet t)
        | inr n ↦
            ap (λ (u : Runtime N D). u.channel) (if_false p.channel (log closed quiet) quiet n)
      ]

  -- After a started tab with a storage pauses, where the storage takes the writes that are pending at
  -- its end, its channel is closed, it has no assignments and no worker record, and no route of a
  -- topic that was assigned to it names it: the topic was handed to another worker, or its route was
  -- removed. The number of active workers has to be positive.
  pub pause-Departed :
      (s : Runtime N D)
      → s.started ≡ true
      → s.storage ≡ true
      → 0 < s.config.max_active_workers
      → TakesWrites s
      → let t = pause s in
        (t.channel ≡ false)
        × (t.assigned_topics ≡ [])
        × (get s.config.worker_id t.store.workers ≡ none)
        × ((key : Text)
            → has key s.assigned_topics ≡ true
            → routed_to s.config.worker_id (get key t.store.routes) ≡ false)
  unfolding pause leave Releases closing noted
  pause-Departed s on stored limited kept =
      let s0 = record s {
        lifecycle_generation = s.lifecycle_generation + 1;
        started = false;
        suspended = true;
        heartbeat = false;
      } in
      let released = release_all-Releases s.subscribed_topics s0 in
      let s1 = release_all s.subscribed_topics s0 in
      let self = s.config.worker_id in
      let stored1 = released.0.storage ∙ stored in
      let (left, away) =
        handoff-Leaves s1 stored1
          (subst (λ c. 0 < c.max_active_workers) (sym released.0.config) limited) in
      let h = handoff_assigned_topics s1 in
      let same_config = left.config ∙ released.0.config in
      let dropped = drop_assignments h in
      let gone = with_workers (delete h.config.worker_id h.store.workers) dropped in
      let removed : remove_worker dropped ≡ gone =
        if_true h.storage gone dropped (left.storage ∙ stored1) in
      let config : (remove_worker dropped).config ≡ s.config =
        ap (λ (u : Runtime N D). u.config) removed ∙ same_config in
      let takes : TakesWrites (remove_worker dropped) =
        λ before store. ap (λ c. c.discards before store) config ∙ kept before store in
      let is : pause s ≡ closing (remove_worker dropped) = if_true s.started _ _ on in
      let store_is : (pause s).store ≡ gone.store =
        ap (λ (u : Runtime N D). u.store) is
        ∙ closing-field (λ u. u.store) (remove_worker dropped) takes (λ e u. refl) (λ u. refl)
        ∙ ap (λ (u : Runtime N D). u.store) removed in
      (
        ap (λ (u : Runtime N D). u.channel) is ∙ closing-channel (remove_worker dropped),
        ap (λ (u : Runtime N D). u.assigned_topics) is
            ∙ closing-field (λ u. u.assigned_topics) (remove_worker dropped) takes (λ e u. refl)
                (λ u. refl)
            ∙ ap (λ (u : Runtime N D). u.assigned_topics) removed,
        ap (λ (x : Store N). get self x.workers) store_is
            ∙ subst (λ i. get self (delete i h.store.workers) ≡ none)
                (ap (λ c. c.worker_id) (sym same_config)) (deleted self h.store.workers),
        λ key was.
            let off : IsElsewhere key h =
              away key (subst (λ m. has key m ≡ true) (sym released.1) was) in
            ap (λ (x : Store N). routed_to self (get key x.routes)) store_is
            ∙ subst (λ c. routed_to c.worker_id (get key h.store.routes) ≡ false) same_config off,
      )
