-- ===== src/Cluster/Posting.antt =====
-- About src/core/cluster.ts: what a post and a confirmation do to the records.
use cross_tab_worker_databus.Base.{
  ◌≡◌, refl, ap, subst, ◌∙◌, inl, inr, Bool, true, not, ◌||◌, Option, none, some, arith,
  if◌then◌else◌, is_some, Bool-cases, nat_has_eq, if_true, if_false, List, [], ◌∷◌, ◌++◌, sym,
}
use cross_tab_worker_databus.Base.JsMap.{JsMap, get, set}
use cross_tab_worker_databus.Base.JsString.{Text, text_has_eq, eqb}
use cross_tab_worker_databus.Base.Number.{Number}
use cross_tab_worker_databus.Types.{WorkerRoute}
use cross_tab_worker_databus.Cluster.Frames.{Frame, Effect, Operation, posted}
use cross_tab_worker_databus.Cluster.Runtime.{Runtime, log, post, nonempty, with_routes}
use cross_tab_worker_databus.Base.JsString.{eqb_refl}
use cross_tab_worker_databus.Cluster.Runtime.{Store, sent, diagnose, confirm}
use cross_tab_worker_databus.Cluster.Registry.{confirm_route, confirm_found}

module _ {D : Type 0} where
  -- The frame of an effect, if it is a post.
  abbrev pub frame_of : Effect D → Option (Frame D)
  frame_of (posted frame) = some frame
  frame_of e = none

  abbrev last_from : Effect D → List (Effect D) → Option (Frame D)
  last_from e [] = frame_of e
  last_from e (f ∷ effects) = last_from f effects

  -- The frame that the last effect posts, if that is a post.
  abbrev pub last_posted : List (Effect D) → Option (Frame D)
  last_posted [] = none
  last_posted (e ∷ effects) = last_from e effects

  last_from-snoc :
      (e f : Effect D) (effects : List (Effect D)) → last_from e (effects ++ f ∷ []) ≡ frame_of f
  last_from-snoc e f [] = refl
  last_from-snoc e f (g ∷ effects) = last_from-snoc g f effects

  last_posted-snoc :
      (e : Effect D) (effects : List (Effect D)) → last_posted (effects ++ e ∷ []) ≡ frame_of e
  last_posted-snoc e [] = refl
  last_posted-snoc e (f ∷ effects) = last_from-snoc f e effects

module _ {N : Number} {D : Type 0} where
  diagnose-store :
      (operation : Operation) (topic : Option Text) (s : Runtime N D)
      → (diagnose operation topic s).store ≡ s.store
  diagnose-store operation none s = refl
  diagnose-store operation (some topic) s = refl

  pub post-store : (frame : Frame D) (s : Runtime N D) → (post frame s).store ≡ s.store
  unfolding post
  post-store frame s = elim (Bool-cases (sent s frame)) [
    | inl t ↦ ap (λ (u : Runtime N D). u.store) (if_true (sent s frame) _ s t)
    | inr f ↦ ap (λ (u : Runtime N D). u.store) (if_false (sent s frame) _ s f)
  ]

  -- The owner's confirmation of an unconfirmed route.
  pub confirm-routes :
      (key : Text) (r : WorkerRoute) (s : Runtime N D)
      → s.storage ≡ true
      → get key s.store.routes ≡ some r
      → r.worker_id ≡ s.config.worker_id
      → r.confirmed_at ≡ none
      → (confirm key s).store.routes
        ≡ set key (record r { confirmed_at = some s.last_finite_now }) s.store.routes
  unfolding confirm confirm_route
  confirm-routes key r s stored at own fresh =
      let self = s.config.worker_id in
      let routes = s.store.routes in
      let now = s.last_finite_now in
      let r' = record r { confirmed_at = some now } in
      let mine : eqb r.worker_id self ≡ true =
        subst (λ i. eqb r.worker_id i ≡ true) own (eqb_refl r.worker_id) in
      let found : confirm_found self now key routes (get key routes) ≡ (set key r' routes, true) =
        ap (confirm_found self now key routes) at
        ∙ if_false (not (eqb r.worker_id self) || is_some r.confirmed_at) _ _
            (ground (arith, mine, fresh)) in
      let settle = λ (q : JsMap Text WorkerRoute × Bool).
        if q.1
        then diagnose Operation.route_ack (nonempty (get key s.known_topics)) (with_routes q.0 s)
        else s in
      ap (λ (u : Runtime N D). u.store.routes) (if_true s.storage _ s stored)
      ∙ ap (λ q. (settle q).store.routes) found
      ∙ ap (λ (x : Store N). x.routes)
          (diagnose-store Operation.route_ack (nonempty (get key s.known_topics))
            (with_routes (set key r' routes) s))

  last_posted-log : (e : Effect D) (s : Runtime N D) → last_posted (log e s).effects ≡ frame_of e
  last_posted-log e s = last_posted-snoc e s.effects

  -- A post that comes after another effect was sent, if its frame is the last one.
  pub last_posted-post :
      (frame sent_frame : Frame D) (e : Effect D) (s : Runtime N D)
      → frame_of e ≡ none
      → last_posted (post frame (log e s)).effects ≡ some sent_frame
      → frame ≡ sent_frame
  unfolding post
  last_posted-post frame sent_frame e s silent last =
      let t = log e s in
      elim (Bool-cases (sent t frame)) [
        | inl t' ↦
            let is : some frame ≡ some sent_frame =
              sym (last_posted-log (posted frame) t)
              ∙ sym
                  (ap (λ (u : Runtime N D). last_posted u.effects) (if_true (sent t frame) _ t t'))
              ∙ last in
            cc
        | inr f' ↦
            let is : none ≡ some sent_frame =
              sym silent
              ∙ sym (last_posted-log e s)
              ∙ sym
                  (ap (λ (u : Runtime N D). last_posted u.effects) (if_false (sent t frame) _ t f'))
              ∙ last in
            cc
      ]
