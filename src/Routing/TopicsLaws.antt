-- ===== src/Routing/TopicsLaws.antt =====
-- About src/core/routing.ts, `topicMatchesPattern`: what a pattern means.
use cross_tab_worker_databus.Base.{
  ℕ, zero, suc, ◌-◌, ◌≡◌, refl, sym, ap, subst, ◌∙◌, ◌↔◌, inl, inr, true, false, [], ◌∷◌, ◌++◌,
  arith, Bool-cases, length, take, length-append,
}
use mathlib.Core.List.{reverse, reverse-append, reverse-reverse}
use cross_tab_worker_databus.Base.JsString.{
  Text, text, eqb, eqb_sound, eqb_refl, starts_with, ends_with,
}
use cross_tab_worker_databus.Routing.Topics.{is_empty, slice_last, topic_matches_pattern}

starts_with_sound : (s t : Text) → starts_with s t ≡ true → (rest : Text) × (s ≡ t ++ rest)
starts_with_sound s [] h = (s, refl)
starts_with_sound [] (d ∷ t) h = cc
starts_with_sound (c ∷ s) (d ∷ t) h =
    let (rest, e) = starts_with_sound s t (ground arith) in (rest, ground (arith, e))

starts_with-append : (t rest : Text) → starts_with (t ++ rest) t ≡ true
starts_with-append [] rest = starts_with-nil rest
  where
    starts_with-nil : (s : Text) → starts_with s [] ≡ true
    starts_with-nil s = refl
starts_with-append (d ∷ t) rest = ground (arith, starts_with-append t rest)

ends_with_sound : (s t : Text) → ends_with s t ≡ true → (stem : Text) × (s ≡ stem ++ t)
ends_with_sound s t h =
    let (rest, e) = starts_with_sound (reverse s) (reverse t) h in
    (
      reverse rest,
      sym (reverse-reverse s)
          ∙ ap reverse e
          ∙ reverse-append (reverse t) rest
          ∙ ap (λ u. reverse rest ++ u) (reverse-reverse t),
    )

ends_with-append : (stem t : Text) → ends_with (stem ++ t) t ≡ true
ends_with-append stem t = rw (reverse-append stem t) (starts_with-append (reverse t) (reverse stem))

take-stem :
    (n : ℕ) (stem : Text) → n ≡ suc (length stem) → take n (stem ++ text ".*") ≡ stem ++ text "."
take-stem zero stem h = absurd (omega arith)
take-stem (suc zero) [] h = refl
take-stem (suc (suc n)) [] h = absurd (omega arith)
take-stem (suc n) (c ∷ stem) h = ap (◌∷◌ c) (take-stem n stem (omega arith))

slice_last-star : (stem : Text) → slice_last (stem ++ text ".*") ≡ stem ++ text "."
slice_last-star stem =
    take-stem (length (stem ++ text ".*") - 1) stem (omega (arith, length-append stem (text ".*")))

-- What a subscription's pattern stands for: itself, everything, or everything below a prefix.
pub data Covers (pattern topic : Text) : Type 0 where
  exact : pattern ≡ topic → Covers pattern topic
  everything : pattern ≡ text "*" → Covers pattern topic
  below :
      (stem rest : Text)
      → pattern ≡ stem ++ text ".*"
      → topic ≡ (stem ++ text ".") ++ rest
      → Covers pattern topic

matches_below :
    (pattern topic : Text)
    → ends_with pattern (text ".*") ≡ true
    → starts_with topic (slice_last pattern) ≡ true
    → Covers pattern topic
matches_below pattern topic h k =
    let (stem, e) = ends_with_sound pattern (text ".*") h in
    let (rest, f) = starts_with_sound topic (slice_last pattern) k in
    below stem rest e (f ∙ ap (λ u. u ++ rest) (ap slice_last e ∙ slice_last-star stem))

Covers-sound :
    (pattern topic : Text)
    → is_empty pattern ≡ false
    → is_empty topic ≡ false
    → topic_matches_pattern pattern topic ≡ true
    → Covers pattern topic
unfolding topic_matches_pattern
Covers-sound pattern topic p t h = elim (Bool-cases (eqb pattern topic)) [
  | inl e ↦ exact (eqb_sound pattern topic e)
  | inr ne ↦ elim (Bool-cases (eqb pattern (text "*"))) [
    | inl s ↦ everything (eqb_sound pattern (text "*") s)
    | inr ns ↦
        matches_below pattern topic (ground (arith, h, p, t, ne, ns))
          (ground (arith, h, p, t, ne, ns))
  ]
]

Covers-complete :
    (pattern topic : Text)
    → is_empty pattern ≡ false
    → is_empty topic ≡ false
    → Covers pattern topic
    → topic_matches_pattern pattern topic ≡ true
unfolding topic_matches_pattern
Covers-complete pattern topic p t (exact e) =
    ground (arith, subst (λ u. eqb pattern u ≡ true) e (eqb_refl pattern))
Covers-complete pattern topic p t (everything e) =
    ground (arith, subst (λ u. eqb pattern u ≡ true) e (eqb_refl pattern))
Covers-complete pattern topic p t (below stem rest e f) =
    let ends : ends_with pattern (text ".*") ≡ true =
      subst (λ u. ends_with u (text ".*") ≡ true) (sym e) (ends_with-append stem (text ".*")) in
    let starts : starts_with topic (slice_last pattern) ≡ true =
      subst (λ u. starts_with topic (slice_last u) ≡ true) (sym e)
        (subst (λ u. starts_with topic u ≡ true) (sym (slice_last-star stem))
          (subst (λ u. starts_with u (stem ++ text ".") ≡ true) (sym f)
            (starts_with-append (stem ++ text ".") rest))) in
    ground (arith, ends, starts)

-- A publication is delivered to a subscription exactly when neither name is empty and the pattern is
-- the topic, is `*`, or is a prefix followed by `.*` and the topic goes on below that prefix.
pub topic_matches_pattern-Covers :
    (pattern topic : Text)
    → (topic_matches_pattern pattern topic ≡ true)
      ↔ ((is_empty pattern ≡ false) × (is_empty topic ≡ false) × Covers pattern topic)
unfolding topic_matches_pattern
topic_matches_pattern-Covers pattern topic = (
  λ h.
      let p : is_empty pattern ≡ false = ground arith in
      let t : is_empty topic ≡ false = ground arith in (p, t, Covers-sound pattern topic p t h),
  λ h. Covers-complete pattern topic h.0 h.1 h.2,
)
