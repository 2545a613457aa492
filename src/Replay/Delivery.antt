-- ===== src/Replay/Delivery.antt =====
-- About src/core/replay-manager.ts: what `deliver` gives after `record`, and after a clear.
use cross_tab_worker_databus.Base.{
  ℕ, ◌-◌, ◌<◌, min, ◌≡◌, refl, sym, ap, subst, ◌∙◌, ◌⊎◌, inl, inr, true, false, none, some, List,
  [], ◌∷◌, ◌++◌, map, arith, ℕ_discrete, if◌then◌else◌, is_some, Bool-cases, Option-cases, length,
  suffix, drop_all, suffix-append-suffix, suffix-suffix, append-nil, append_assoc,
}
use cross_tab_worker_databus.Base.JsMap.{get, get-set}
use cross_tab_worker_databus.Base.JsString.{Text, text_has_eq, eqb, eqb_sound, eqb_refl}
use cross_tab_worker_databus.Types.{Message}
use cross_tab_worker_databus.Routing.Topics.{is_wildcard_topic}
use cross_tab_worker_databus.Replay.Pruning.{is_count, prune_replay_history}
use cross_tab_worker_databus.Replay.PruningLaws.{cap_newest-suffix}
use cross_tab_worker_databus.Replay.Manager.{
  Deps, ReplayManager, pruned, or_empty, record_message, mark_replayed, deliver,
}
use cross_tab_worker_databus.Replay.Frame.{record_message-Changes}

-- The settings under which a buffer holds the newest messages up to the cap.
abbrev pub CountsOnly : Deps → Type 0
CountsOnly deps =
    (0 < deps.max_per_topic) × ((deps.retention_ms ≡ none) ⊎ (is_count deps.prune_strategy ≡ true))

module _ {D : Type 0} where
  abbrev pub buffer_of : Text → ReplayManager D → List (Message D)
  buffer_of topic s = elim s.buffers [ none ↦ [] | some b ↦ or_empty (get topic b) ]

  -- The calls of `record`, each with the clock's two readings.
  abbrev pub record_all : ReplayManager D → List (Message D × ℕ × ℕ) → ReplayManager D
  record_all s [] = s
  record_all s ((m, now, later) ∷ calls) = record_all (record_message s m now later) calls

  abbrev pub of_topic : Text → List (Message D × ℕ × ℕ) → List (Message D)
  of_topic topic [] = []
  of_topic topic ((m, now, later) ∷ calls) =
      if eqb m.topic topic then m ∷ of_topic topic calls else of_topic topic calls

  pub pruned-suffix :
      (s : ReplayManager D) (now : ℕ) (ms : List (Message D))
      → CountsOnly s.deps
      → pruned s now ms ≡ suffix s.max_per_topic ms
  unfolding prune_replay_history
  pruned-suffix s now ms (pos, c) =
      let short = cap_newest-suffix s.max_per_topic ms pos in ground (arith, short)

  buffer_of-record_message :
      (s : ReplayManager D) (topic : Text) (m : Message D) (now later : ℕ)
      → CountsOnly s.deps
      → is_some s.buffers ≡ true
      → buffer_of topic (record_message s m now later) ≡ (
          if eqb m.topic topic
          then suffix s.max_per_topic (buffer_of topic s ++ m ∷ [])
          else buffer_of topic s)
  buffer_of-record_message s topic m now later c p = elim (Option-cases s.buffers) [
    | inl e ↦ ground arith
    | inr (b, e) ↦ elim (text_has_eq.dec m.topic topic) [
      | yes q ↦ ground (
        arith,
        record_message-Changes s m now later,
        get-set topic m.topic (pruned s now (or_empty (get m.topic b) ++ m ∷ [])) b,
        pruned-suffix s now (or_empty (get m.topic b) ++ m ∷ []) c,
        ap (λ t. get t b) q,
        ap (eqb m.topic) q,
        eqb_refl m.topic,
      )
      | no q ↦ ground (
        arith,
        record_message-Changes s m now later,
        get-set topic m.topic (pruned s now (or_empty (get m.topic b) ++ m ∷ [])) b,
        eqb_sound m.topic topic,
      )
    ]
  ]

  -- The history of a topic after one more call.
  abbrev extended : Text → Message D → List (Message D) → List (Message D)
  extended topic m before = if eqb m.topic topic then before ++ m ∷ [] else before

  extended-suffix :
      (s : ReplayManager D) (topic : Text) (m : Message D) (now later : ℕ)
      (before : List (Message D))
      → CountsOnly s.deps
      → is_some s.buffers ≡ true
      → buffer_of topic s ≡ suffix s.max_per_topic before
      → buffer_of topic (record_message s m now later)
        ≡ suffix s.max_per_topic (extended topic m before)
  extended-suffix s topic m now later before c p e =
      buffer_of-record_message s topic m now later c p ∙ elim (Bool-cases (eqb m.topic topic)) [
        | inl t ↦ rw (t, e) (suffix-append-suffix s.max_per_topic before m c.0)
        | inr f ↦ rw f e
      ]

  extended-append :
      (topic : Text) (m : Message D) (now later : ℕ) (before : List (Message D))
      (calls : List (Message D × ℕ × ℕ))
      → extended topic m before ++ of_topic topic calls
        ≡ before ++ of_topic topic ((m, now, later) ∷ calls)
  extended-append topic m now later before calls = elim (Bool-cases (eqb m.topic topic)) [
    | inl t ↦ rw t (append_assoc before (m ∷ []) (of_topic topic calls))
    | inr f ↦ rw f refl
  ]

  record_all-suffix :
      (s : ReplayManager D) (topic : Text) (calls : List (Message D × ℕ × ℕ))
      (before : List (Message D)) (deps : Deps)
      → CountsOnly deps
      → s.deps ≡ deps
      → is_some s.buffers ≡ true
      → buffer_of topic s ≡ suffix deps.max_per_topic before
      → (buffer_of topic (record_all s calls)
          ≡ suffix deps.max_per_topic (before ++ of_topic topic calls))
        × (is_some (record_all s calls).buffers ≡ true)
  record_all-suffix s topic [] before deps c d p e =
      (e ∙ ap (suffix deps.max_per_topic) (sym (append-nil before)), p)
  record_all-suffix s topic ((m, now, later) ∷ calls) before deps c d p e =
      let (d', b) = record_message-Changes s m now later in
      let cap = ap (λ (x : Deps). x.max_per_topic) d in
      let (f, q) =
        record_all-suffix (record_message s m now later) topic calls (extended topic m before) deps
          c (d' ∙ d) (ground arith)
          (extended-suffix s topic m now later before (subst CountsOnly (sym d) c) p
              (e ∙ ap (λ n. suffix n before) (sym cap))
            ∙ ap (λ n. suffix n (extended topic m before)) cap) in
      (f ∙ ap (suffix deps.max_per_topic) (extended-append topic m now later before calls), q)

  deliver_lem :
      (s : ReplayManager D) (topic : Text) (limit : ℕ)
      → is_wildcard_topic topic ≡ false
      → is_some s.buffers ≡ true
      → deliver s topic limit ≡ map mark_replayed (suffix limit (buffer_of topic s))
  unfolding deliver
  deliver_lem s topic limit w p = elim (Option-cases s.buffers) [
    | inl e ↦ ground arith
    | inr (b, e) ↦ elim (ℕ_discrete limit 0) [
      | yes z ↦ ground (
        arith,
        e,
        z,
        ap (λ n. suffix n (or_empty (get topic b))) z,
        drop_all (length (or_empty (get topic b))) (or_empty (get topic b)) (omega arith),
      )
      | no pos ↦ ground arith
    ]
  ]

  -- If history is trimmed by count, the cap is positive, replay is enabled and a topic that is no
  -- wildcard has an empty buffer, then after any sequence of `record` calls `deliver` gives the newest
  -- messages of the topic in their order and marked as replayed: as many as the limit and the cap
  -- allow.
  pub deliver-record_all :
      (s : ReplayManager D) (topic : Text) (limit : ℕ) (calls : List (Message D × ℕ × ℕ))
      → CountsOnly s.deps
      → is_some s.buffers ≡ true
      → buffer_of topic s ≡ []
      → is_wildcard_topic topic ≡ false
      → deliver (record_all s calls) topic limit
        ≡ map mark_replayed (suffix (min limit s.max_per_topic) (of_topic topic calls))
  deliver-record_all s topic limit calls c p e w =
      let (f, q) =
        record_all-suffix s topic calls [] s.deps c refl p
          (e ∙ sym (drop_all (length {A = Message D} [] - s.max_per_topic) [] (omega arith))) in
      deliver_lem (record_all s calls) topic limit w q
      ∙ ap (λ b. map mark_replayed (suffix limit b)) f
      ∙ ap (map mark_replayed) (suffix-suffix limit s.max_per_topic (of_topic topic calls))
