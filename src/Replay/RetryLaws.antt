-- ===== src/Replay/RetryLaws.antt =====
-- About src/core/replay-manager.ts, `withPersistenceRetry`: its end, and the bounds of its retries.
use cross_tab_worker_databus.Base.{
  ℕ, suc, ◌+◌, ◌*◌, ◌≤◌, ◌<◌, min, max, ◌≡◌, refl, sym, subst, ◌∙◌, ◌≢◌, ◌⊎◌, inl, inr, none, some,
  List, [], ◌∷◌, arith, dec_le, ℕ_discrete, Option-cases, length, All, All-weaken,
}
use cross_tab_worker_databus.Replay.Retry.{
  Attempt, Settlement, returned, thrown, cancelled, waiting, RetryRun, on_failure, retry_loop, ends,
  max_retry_delay_ms, with_persistence_retry,
}

module _ {V : Type 0} where
  -- The lifecycle stayed in one generation through the attempt and its delay.
  abbrev pub Stays : ℕ → Attempt V → Type 0
  Stays generation a = (generation ≡ a.settled_generation) × (generation ≡ a.delayed_generation)

  -- How an operation may end after `n` more attempts of a script.
  pub data Ends (generation : ℕ) : ℕ → List (Attempt V) → Settlement V → Type 0 where
    success :
        {v : V} {a : Attempt V} {script : List (Attempt V)}
        → a.outcome ≡ some v
        → generation ≡ a.settled_generation
        → Ends generation 1 (a ∷ script) (returned v)
    failure :
        {a : Attempt V} {script : List (Attempt V)}
        → a.outcome ≡ none
        → generation ≡ a.settled_generation
        → Ends generation 1 (a ∷ script) thrown
    superseded :
        {a : Attempt V} {script : List (Attempt V)}
        → ¬ Stays generation a
        → Ends generation 1 (a ∷ script) cancelled
    again :
        {n : ℕ} {a : Attempt V} {script : List (Attempt V)} {s : Settlement V}
        → a.outcome ≡ none
        → Stays generation a
        → Ends generation n script s
        → Ends generation (suc n) (a ∷ script) s

  -- The script ends first, or the operation ends as it should, within the attempts that are left.
  abbrev pub EndsWithin : ℕ → ℕ → ℕ → List (Attempt V) → RetryRun V → Type 0
  EndsWithin generation max_attempts attempts script r =
      ((r.settlement ≡ waiting) × (attempts + length script < max_attempts))
      ⊎ ((n : ℕ) × Ends generation n script r.settlement
          × (r.attempts ≡ attempts + n)
          × (attempts + n ≤ max_attempts)
          × (r.settlement ≡ thrown → attempts + n ≡ max_attempts))

  step_back :
      (generation max_attempts attempts delay : ℕ) (a : Attempt V) (script : List (Attempt V))
      (r : RetryRun V)
      → a.outcome ≡ none
      → Stays generation a
      → EndsWithin generation max_attempts (attempts + 1) script r
      → EndsWithin generation max_attempts attempts (a ∷ script) r
  step_back generation max_attempts attempts delay a script r e st (inl (w, l)) =
      inl (w, omega arith)
  step_back generation max_attempts attempts delay a script r e st (inr (n, end, k, b, t)) =
      inr (suc n, again e st end, omega arith, omega arith, λ h. omega (arith, t h))

  -- What an operation ends with depends on no more than the settlement and the attempts.
  same_end :
      (generation max_attempts attempts : ℕ) (script : List (Attempt V)) (r q : RetryRun V)
      → q.settlement ≡ r.settlement
      → q.attempts ≡ r.attempts
      → EndsWithin generation max_attempts attempts script r
      → EndsWithin generation max_attempts attempts script q
  same_end generation max_attempts attempts script r q e f (inl (w, l)) = inl (e ∙ w, l)
  same_end generation max_attempts attempts script r q e f (inr (n, end, k, b, t)) =
      inr (n, subst (Ends generation n script) (sym e) end, f ∙ k, b, λ h. t (sym e ∙ h))

  at_once :
      (generation max_attempts attempts : ℕ) (a : Attempt V) (script : List (Attempt V))
      (s : Settlement V)
      → attempts < max_attempts
      → Ends generation 1 (a ∷ script) s
      → (s ≡ thrown → max_attempts ≤ attempts + 1)
      → EndsWithin generation max_attempts attempts (a ∷ script) (ends s (attempts + 1))
  at_once generation max_attempts attempts a script s h end t =
      inr (1, end, refl, omega arith, λ k. omega (arith, t k))

  retry_loop-EndsWithin :
      (script : List (Attempt V)) (generation max_attempts attempts delay : ℕ)
      → attempts < max_attempts
      → EndsWithin generation max_attempts attempts script
          (retry_loop generation max_attempts attempts delay script)
  unfolding retry_loop on_failure
  retry_loop-EndsWithin [] generation max_attempts attempts delay h = inl (refl, omega arith)
  retry_loop-EndsWithin (a ∷ script) generation max_attempts attempts delay h =
      let next = min (delay * 2) max_retry_delay_ms in
      let q : RetryRun V = retry_loop generation max_attempts attempts delay (a ∷ script) in
      let rest : RetryRun V = retry_loop generation max_attempts (attempts + 1) next script in
      let same = λ (r : RetryRun V) (e : q.settlement ≡ r.settlement) (f : q.attempts ≡ r.attempts).
        same_end generation max_attempts attempts (a ∷ script) r q e f in
      let finish = λ (s : Settlement V). at_once generation max_attempts attempts a script s h in
      elim (ℕ_discrete generation a.settled_generation) [
        | no moved ↦
            same (ends cancelled (attempts + 1)) (ground arith) (ground arith)
              (finish cancelled (superseded (λ st. moved st.0)) (λ k. absurd (ground arith)))
        | yes stays ↦ elim (Option-cases a.outcome) [
          | inr (v, e) ↦
              same (ends (returned v) (attempts + 1)) (ground arith) (ground arith)
                (finish (returned v) (success e stays) (λ k. absurd (ground arith)))
          | inl e ↦ elim (dec_le max_attempts (attempts + 1)) [
            | yes last ↦
                same (ends thrown (attempts + 1)) (ground arith) (ground arith)
                  (finish thrown (failure e stays) (λ k. last))
            | no more ↦ elim (ℕ_discrete generation a.delayed_generation) [
              | no later ↦
                  same (ends cancelled (attempts + 1)) (ground arith) (ground arith)
                    (finish cancelled (superseded (λ st. later st.1)) (λ k. absurd (ground arith)))
              | yes still ↦ same rest (ground arith) (ground arith) (
                  step_back generation max_attempts attempts next a script rest e (stays, still)
                    (retry_loop-EndsWithin script generation max_attempts (attempts + 1) next
                      (omega arith)))
            ]
          ]
        ]
      ]

  -- With a positive bound on the attempts and a script that is at least as long, the operation comes
  -- to an end: after `n` attempts, no more than the bound, it returns what an attempt resolved with in
  -- the generation that it began in, or is cancelled because the generation moved on, or throws; and
  -- it throws after exactly as many attempts as the bound.
  pub with_persistence_retry-Ends :
      (generation max_attempts backoff_ms : ℕ) (script : List (Attempt V))
      → 0 < max_attempts
      → max_attempts ≤ length script
      → let r = with_persistence_retry generation max_attempts backoff_ms script in
        (n : ℕ) × Ends generation n script r.settlement
        × (r.attempts ≡ n)
        × (n ≤ max_attempts)
        × ((r.settlement ≢ thrown) ⊎ (n ≡ max_attempts))
  unfolding with_persistence_retry
  with_persistence_retry-Ends generation max_attempts backoff_ms script h k =
      elim (retry_loop-EndsWithin script generation max_attempts 0 backoff_ms h) [
        | inl (w, l) ↦ absurd (omega arith)
        | inr (n, end, e, b, t) ↦ (
          n,
          end,
          omega arith,
          omega arith,
          elim (ℕ_discrete n max_attempts) [
            | yes q ↦ inr q
            | no q ↦ inl (λ k. q (omega (arith, t k)))
          ],
        )
      ]

  retry_loop-delays :
      (script : List (Attempt V)) (generation max_attempts attempts delay : ℕ)
      → All
          (λ d. d ≤ max delay max_retry_delay_ms)
          (retry_loop generation max_attempts attempts delay script).delays
  unfolding retry_loop on_failure
  retry_loop-delays [] generation max_attempts attempts delay = tt
  retry_loop-delays (a ∷ script) generation max_attempts attempts delay =
      let next = min (delay * 2) max_retry_delay_ms in
      let rest =
        All-weaken {P = λ d. d ≤ max next max_retry_delay_ms}
          {Q = λ d. d ≤ max delay max_retry_delay_ms}
          (λ d (h : d ≤ max next max_retry_delay_ms). omega arith)
          (retry_loop generation max_attempts (attempts + 1) next script).delays
          (retry_loop-delays script generation max_attempts (attempts + 1) next) in
      ground (arith, rest)
