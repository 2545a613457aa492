-- ===== src/Replay/Merge.antt =====
-- About src/core/replay-manager.ts: what a hydration leaves in the buffers, and what a clear does to
-- them, to the queued appends and to a load that is in flight.
use cross_tab_worker_databus.Base.{
  ℕ, ◌≡◌, refl, sym, ap, ◌∙◌, ◌≢◌, inl, inr, ite, true, not, ◌&&◌, Option, none, some, List, [],
  ◌∷◌, ◌++◌, arith, if◌then◌else◌, is_some, Bool-cases, Option-cases, filterb, filterb-append,
  drop_all, append-nil, append_assoc,
}
use cross_tab_worker_databus.Base.JsMap.{
  JsMap, get, has, set, get-set, get-set_self, get-delete, UniqueKeys, UniqueKeys-set,
}
use cross_tab_worker_databus.Base.JsString.{Text, text_has_eq, eqb, eqb_sound, eqb_refl}
use cross_tab_worker_databus.Types.{Message}
use cross_tab_worker_databus.Replay.Pruning.{
  prune_replay_history, prune_by_age, scan, drop_timestampless,
}
use cross_tab_worker_databus.Replay.Manager.{
  Hydration, ReplayManager, pruned, or_empty, other_topic, clear_topic_state,
}
use cross_tab_worker_databus.Replay.Hydration.{
  owns, cleared, group_by_topic, merge_loaded, hydrated, load_settled,
}
use cross_tab_worker_databus.Replay.Frame.{
  clear_topic_state-Changes, load_settled-Changes, load_settled-Keeps, load_failed-Keeps,
}
use cross_tab_worker_databus.Replay.Buffers.{get-prune_all}
use cross_tab_worker_databus.Replay.Delivery.{buffer_of}

module _ {D : Type 0} where
  -- The messages of a snapshot that a hydration takes over for a topic.
  abbrev pub taken : ReplayManager D → Text → List (Message D) → List (Message D)
  taken s topic = filterb (λ m. eqb m.topic topic && not (cleared s m))

  group_by_topic-UniqueKeys :
      (s : ReplayManager D) (loaded : List (Message D)) (grouped : JsMap Text (List (Message D)))
      → UniqueKeys grouped
      → UniqueKeys (group_by_topic s loaded grouped)
  unfolding group_by_topic
  group_by_topic-UniqueKeys s [] grouped u = u
  group_by_topic-UniqueKeys s (m ∷ loaded) grouped u =
      group_by_topic-UniqueKeys s loaded _ (elim (Bool-cases (cleared s m)) [
        | inl t ↦ rw t u
        | inr f ↦ rw f (UniqueKeys-set m.topic (or_empty (get m.topic grouped) ++ m ∷ []) grouped u)
      ])

  group_step :
      (s : ReplayManager D) (m : Message D) (topic : Text) (grouped : JsMap Text (List (Message D)))
      → or_empty (
          get topic (
            if cleared s m
            then grouped
            else set m.topic (or_empty (get m.topic grouped) ++ m ∷ []) grouped))
        ≡ or_empty (get topic grouped) ++ taken s topic (m ∷ [])
  group_step s m topic grouped =
      let at = get-set topic m.topic (or_empty (get m.topic grouped) ++ m ∷ []) grouped in
      elim (text_has_eq.dec m.topic topic) [
        | yes q ↦ ground (
          arith,
          at,
          ap (λ t. get t grouped) q,
          ap (eqb m.topic) q,
          eqb_refl m.topic,
          append-nil (or_empty (get topic grouped)),
        )
        | no q ↦
            ground (arith, at, eqb_sound m.topic topic, append-nil (or_empty (get topic grouped)))
      ]

  get-group_by_topic :
      (s : ReplayManager D) (topic : Text) (loaded : List (Message D))
      (grouped : JsMap Text (List (Message D)))
      → or_empty (get topic (group_by_topic s loaded grouped))
        ≡ or_empty (get topic grouped) ++ taken s topic loaded
  unfolding group_by_topic
  get-group_by_topic s topic [] grouped = sym (append-nil (or_empty (get topic grouped)))
  get-group_by_topic s topic (m ∷ loaded) grouped =
      get-group_by_topic s topic loaded _
      ∙ ap (λ l. l ++ taken s topic loaded) (group_step s m topic grouped)
      ∙ append_assoc (or_empty (get topic grouped)) (taken s topic (m ∷ [])) (taken s topic loaded)
      ∙ ap (λ l. or_empty (get topic grouped) ++ l)
          (sym (filterb-append (λ x. eqb x.topic topic && not (cleared s x)) (m ∷ []) loaded))

  get-merge_loaded :
      (topic : Text) (grouped b : JsMap Text (List (Message D)))
      → UniqueKeys grouped
      → or_empty (get topic (merge_loaded grouped b))
        ≡ or_empty (get topic grouped) ++ or_empty (get topic b)
  unfolding merge_loaded get
  get-merge_loaded topic [] b u = refl
  get-merge_loaded topic ((k, durable) ∷ grouped) b u =
      let ih = get-merge_loaded topic grouped (set k (durable ++ or_empty (get k b)) b) u.1 in
      let at = get-set topic k (durable ++ or_empty (get k b)) b in
      elim (text_has_eq.dec k topic) [
        | yes q ↦ ground (arith, ih, at, ap (λ t. get t b) q, ap (λ t. get t grouped) q)
        | no q ↦ ground (arith, ih, at)
      ]

  pruned_nil : (s : ReplayManager D) (now : ℕ) → pruned s now [] ≡ []
  unfolding prune_replay_history prune_by_age scan drop_timestampless
  pruned_nil s now = ground (arith, drop_all {A = Message D} s.max_per_topic [] (omega arith))

  get-hydrated :
      (s : ReplayManager D) (topic : Text) (loaded : List (Message D)) (now : ℕ)
      (b : JsMap Text (List (Message D)))
      → or_empty (get topic (hydrated s loaded now b))
        ≡ pruned s now (taken s topic loaded ++ or_empty (get topic b))
  unfolding get
  get-hydrated s topic loaded now b =
      let grouped = group_by_topic s loaded [] in
      let at = get-prune_all s now topic (merge_loaded grouped b) in
      let whole : or_empty (get topic (hydrated s loaded now b))
          ≡ pruned s now (or_empty (get topic (merge_loaded grouped b))) =
        ground (arith, at, pruned_nil s now) in
      whole
      ∙ ap (pruned s now) (
          get-merge_loaded topic grouped b (group_by_topic-UniqueKeys s loaded [] tt)
          ∙ ap (λ l. l ++ or_empty (get topic b)) (get-group_by_topic s topic loaded []))

  -- When the load of the current hydration resolves and replay is enabled, the buffer of every topic
  -- is what pruning leaves of the topic's messages in the snapshot, without those that were cleared
  -- while the load was in flight, followed by the topic's buffer before.
  pub load_settled-buffer_of :
      (s : ReplayManager D) (h : Hydration) (loaded : List (Message D)) (now : ℕ) (topic : Text)
      → owns h s ≡ true
      → is_some s.buffers ≡ true
      → buffer_of topic (load_settled s h (some loaded) now)
        ≡ pruned s now (taken s topic loaded ++ buffer_of topic s)
  load_settled-buffer_of s h loaded now topic o p = elim (Option-cases s.buffers) [
    | inl e ↦ ground arith
    | inr (b, e) ↦
        ground (arith, load_settled-Changes s h loaded now o, get-hydrated s topic loaded now b)
  ]

  taken_cleared :
      (s : ReplayManager D) (topic : Text) (loaded : List (Message D))
      → has topic s.hydration_cleared_topics ≡ true
      → taken s topic loaded ≡ []
  taken_cleared s topic [] h = refl
  taken_cleared s topic (m ∷ loaded) h = ground (
    arith,
    taken_cleared s topic loaded h,
    eqb_sound m.topic topic,
    ap (λ t. has t s.hydration_cleared_topics),
  )

  clear_topic_state-buffer_of :
      (s : ReplayManager D) (topic other : Text)
      → buffer_of other (clear_topic_state s topic)
        ≡ ite (text_has_eq.dec topic other) [] (buffer_of other s)
  clear_topic_state-buffer_of s topic other = elim (Option-cases s.buffers) [
    | inl e ↦ ground (arith, clear_topic_state-Changes s topic)
    | inr (b, e) ↦ ground (arith, clear_topic_state-Changes s topic, get-delete other topic b)
  ]

  -- A topic that is cleared stays empty whatever a load settles with.
  load_settled-cleared :
      (t : ReplayManager D) (topic : Text) (h : Hydration) (loaded : Option (List (Message D)))
      (now : ℕ)
      → is_some t.buffers ≡ true
      → has topic t.hydration_cleared_topics ≡ true
      → buffer_of topic t ≡ []
      → buffer_of topic (load_settled t h loaded now) ≡ []
  load_settled-cleared t topic h none now p c e = ground (arith, load_failed-Keeps t h now)
  load_settled-cleared t topic h (some loaded) now p c e = elim (Bool-cases (owns h t)) [
    | inl o ↦
        load_settled-buffer_of t h loaded now topic o p
        ∙ ap (pruned t now) (ap (λ l. l ++ buffer_of topic t) (taken_cleared t topic loaded c) ∙ e)
        ∙ pruned_nil t now
    | inr f ↦ ground (arith, load_settled-Keeps t h loaded now f)
  ]

  pending_lem :
      (s : ReplayManager D) (topic : Text)
      → is_some s.buffers ≡ true
      → (clear_topic_state s topic).pending_replay_persistence
        ≡ filterb (other_topic topic) s.pending_replay_persistence
  unfolding clear_topic_state
  pending_lem s topic p = ground arith

  clear_topic_state-marks :
      (s : ReplayManager D) (topic : Text)
      → is_some s.buffers ≡ true
      → (is_some (clear_topic_state s topic).buffers ≡ true)
        × (has topic (clear_topic_state s topic).hydration_cleared_topics ≡ true)
  unfolding clear_topic_state
  clear_topic_state-marks s topic p =
      ground (arith, get-set_self topic tt s.hydration_cleared_topics)

  -- After `clearTopic`, with replay enabled: the topic's buffer is empty, the queued appends are
  -- those of the other topics, and a load that settles next brings none of its messages back, whichever hydration it
  -- belongs to and whatever it settles with; the buffers of the other topics are as before.
  pub clear_topic_state-lasts :
      (s : ReplayManager D) (topic other : Text) (h : Hydration)
      (loaded : Option (List (Message D))) (now : ℕ)
      → is_some s.buffers ≡ true
      → other ≢ topic
      → let t = clear_topic_state s topic in
        (buffer_of topic t ≡ [])
        × (t.pending_replay_persistence ≡ filterb (other_topic topic) s.pending_replay_persistence)
        × (buffer_of topic (load_settled t h loaded now) ≡ [])
        × (buffer_of other t ≡ buffer_of other s)
  clear_topic_state-lasts s topic other h loaded now p n =
      let (b, c) = clear_topic_state-marks s topic p in
      let e : buffer_of topic (clear_topic_state s topic) ≡ [] =
        ground (arith, clear_topic_state-buffer_of s topic topic) in
      (
        e,
        pending_lem s topic p,
        load_settled-cleared (clear_topic_state s topic) topic h loaded now b c e,
        ground (arith, clear_topic_state-buffer_of s topic other),
      )
