-- ===== src/Cluster/Settled/Live.antt =====
-- About src/core/cluster.ts: steps that leave every live owner in place.
use cross_tab_worker_databus.Base.{
  ℕ, ◌≡◌, refl, sym, ap, subst, ◌∙◌, inl, inr, Bool, true, false, not, ◌||◌, Option, none, some,
  List, arith, if◌then◌else◌, is_some, Bool-cases, anyb, nat_has_eq,
}
use cross_tab_worker_databus.Base.JsMap.{JsMap, get}
use cross_tab_worker_databus.Base.JsString.{Text, text_has_eq, eqb}
use cross_tab_worker_databus.Base.Number.{Number}
use cross_tab_worker_databus.Types.{WorkerRecord, WorkerRoute}
use cross_tab_worker_databus.Cluster.Runtime.{Runtime, with_routes}
use cross_tab_worker_databus.Base.JsMap.{get-set}
use cross_tab_worker_databus.Cluster.Registry.{confirm_found}

abbrev pub owner_of : Option WorkerRoute → Option Text
owner_of none = none
owner_of (some route) = some route.worker_id

module _ {N : Number} where
  -- A worker of the list has the id.
  abbrev pub HasId : List (WorkerRecord N) → Text → Type 0
  HasId workers id = anyb (λ w. eqb w.worker_id id) workers ≡ true

  abbrev pub IsLive : List (WorkerRecord N) → Option Text → Type 0
  IsLive workers none = ⊥
  IsLive workers (some id) = HasId workers id

  module _ {D : Type 0} where
    -- The topic's route names a worker of the list.
    abbrev pub LiveAt : List (WorkerRecord N) → Text → Runtime N D → Type 0
    LiveAt workers key s = IsLive workers (owner_of (get key s.store.routes))

    pub record Fixed (s t : Runtime N D) : Type 0 where
      pub storage : t.storage ≡ s.storage
      pub subscribed : t.subscribed_topics ≡ s.subscribed_topics
      pub config : t.config ≡ s.config
      pub started : t.started ≡ s.started

    pub record LiveStep (workers : List (WorkerRecord N)) (s t : Runtime N D) : Type 0 where
      pub fixed : Fixed s t
      pub lives : (key : Text) → LiveAt workers key s → LiveAt workers key t

module _ {N : Number} {D : Type 0} where
  pub Fixed-refl : (s : Runtime N D) → Fixed s s
  Fixed-refl s = record { storage = refl; subscribed = refl; config = refl; started = refl }

  pub Fixed-trans : {s t u : Runtime N D} → Fixed s t → Fixed t u → Fixed s u
  Fixed-trans f g = record {
    storage = g.storage ∙ f.storage;
    subscribed = g.subscribed ∙ f.subscribed;
    config = g.config ∙ f.config;
    started = g.started ∙ f.started;
  }

  pub Fixed-if :
      (b : Bool) {s t u : Runtime N D} → Fixed s t → Fixed s u → Fixed s (if b then t else u)
  Fixed-if true f g = f
  Fixed-if false f g = g

module _ {N : Number} {D : Type 0} {workers : List (WorkerRecord N)} where
  pub LiveStep-refl : (s : Runtime N D) → LiveStep workers s s
  LiveStep-refl s = record { fixed = Fixed-refl s; lives = λ key h. h }

  infixr 5 ◌▷◌
  pub ◌▷◌ :
      {s t u : Runtime N D} → LiveStep workers s t → LiveStep workers t u → LiveStep workers s u
  f ▷ g = record {
    fixed = Fixed-trans f.fixed g.fixed;
    lives = λ key h. g.lives key (f.lives key h);
  }

  pub LiveStep-if :
      (b : Bool) {s t u : Runtime N D}
      → LiveStep workers s t
      → LiveStep workers s u
      → LiveStep workers s (if b then t else u)
  LiveStep-if true f g = f
  LiveStep-if false f g = g

  pub LiveStep-if_pair :
      {X : Type 0} (b : Bool) (p q : Runtime N D × X) {s : Runtime N D}
      → LiveStep workers s p.0
      → LiveStep workers s q.0
      → LiveStep workers s (if b then p else q).0
  LiveStep-if_pair true p q f g = f
  LiveStep-if_pair false p q f g = g

  -- A step that leaves all this alone.
  pub unmoved :
      {s t : Runtime N D}
      → t.storage ≡ s.storage
      → t.subscribed_topics ≡ s.subscribed_topics
      → t.config ≡ s.config
      → t.started ≡ s.started
      → t.store.routes ≡ s.store.routes
      → LiveStep workers s t
  unmoved a b c d e = record {
    fixed = record { storage = a; subscribed = b; config = c; started = d };
    lives = λ key h. subst (λ r. IsLive workers (owner_of (get key r))) (sym e) h;
  }

  -- A step with other routes, whose owners are the same.
  pub LiveStep-owners :
      (s : Runtime N D) (routes : JsMap Text WorkerRoute)
      → ((key : Text) → owner_of (get key routes) ≡ owner_of (get key s.store.routes))
      → LiveStep workers s (with_routes routes s)
  LiveStep-owners s routes h = record {
    fixed = record { storage = refl; subscribed = refl; config = refl; started = refl };
    lives = λ key l. subst (IsLive workers) (sym (h key)) l;
  }

pub confirmed_owner :
    (self : Text) (now : ℕ) (at : Text) (routes : JsMap Text WorkerRoute) (o : Option WorkerRoute)
    → get at routes ≡ o
    → (key : Text)
    → owner_of (get key (confirm_found self now at routes o).0) ≡ owner_of (get key routes)
confirmed_owner self now at routes none e key = refl
confirmed_owner self now at routes (some r) e key =
    let kept = not (eqb r.worker_id self) || is_some r.confirmed_at in
    elim (Bool-cases kept) [
      | inl t ↦ rw t refl
      | inr f ↦ rw f (elim (text_has_eq.dec at key) [
        | yes q ↦ ground (
          arith,
          get-set key at (record r { confirmed_at = some now }) routes,
          ap (λ i. owner_of (get i routes)) q,
          ap owner_of e,
        )
        | no q ↦
            ground
              (arith, ap owner_of (get-set key at (record r { confirmed_at = some now }) routes))
      ])
    ]
