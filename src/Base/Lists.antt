-- ===== src/Base/Lists.antt =====
-- Lists measured by native numbers, and the array operations that the program uses.
use Prim.Native.Nat.{ℕ, zero, suc, ◌+◌, ◌-◌, ◌≤◌, min}
use mathlib.Core.Path.{◌≡◌, refl, ap, sym, subst, ◌∙◌}
use mathlib.Core.Bool.{Bool, true, false, ◌||◌}
use mathlib.Core.List.{List, [], ◌∷◌, ◌++◌}
use mathlib.Core.Option.{Option, none, some}
use mathlib.Core.Logic.{◌⊎◌, inl, inr}
use native.Mathlib.Omega.{arith}
use cross_tab_worker_databus.Base.Tests.{if◌then◌else◌, Bool-cases}

module _ {ℓ} {A : Type ℓ} where
  abbrev pub length : List A → ℕ
  length [] = 0
  length (x ∷ xs) = suc (length xs)

  abbrev pub take : ℕ → List A → List A
  take zero xs = []
  take (suc n) [] = []
  take (suc n) (x ∷ xs) = x ∷ take n xs

  abbrev pub drop : ℕ → List A → List A
  drop zero xs = xs
  drop (suc n) [] = []
  drop (suc n) (x ∷ xs) = drop n xs

  pub length-append : (xs ys : List A) → length (xs ++ ys) ≡ length xs + length ys
  length-append [] ys = omega arith
  length-append (x ∷ xs) ys = omega (arith, length-append xs ys)

  pub length-take : (n : ℕ) (xs : List A) → length (take n xs) ≡ min n (length xs)
  length-take zero xs = omega arith
  length-take (suc n) [] = omega arith
  length-take (suc n) (x ∷ xs) = omega (arith, length-take n xs)

  pub length-drop : (n : ℕ) (xs : List A) → length (drop n xs) ≡ length xs - n
  length-drop zero xs = omega arith
  length-drop (suc n) [] = omega arith
  length-drop (suc n) (x ∷ xs) = omega (arith, length-drop n xs)

module _ {ℓ} {A : Type ℓ} where
  -- `Array.prototype.filter` with a Boolean callback.
  abbrev pub filterb : (A → Bool) → List A → List A
  filterb p [] = []
  filterb p (x ∷ xs) = if p x then x ∷ filterb p xs else filterb p xs

  abbrev pub anyb : (A → Bool) → List A → Bool
  anyb p [] = false
  anyb p (x ∷ xs) = p x || anyb p xs

  -- `Array.prototype.find`.
  abbrev pub findb : (A → Bool) → List A → Option A
  findb p [] = none
  findb p (x ∷ xs) = if p x then some x else findb p xs

  abbrev pub All {κ} : (A → Type κ) → List A → Type κ
  All P [] = Unit
  All P (x ∷ xs) = P x × All P xs

  pub length-filterb-le : (p : A → Bool) (xs : List A) → length (filterb p xs) ≤ length xs
  length-filterb-le p [] = omega arith
  length-filterb-le p (x ∷ xs) = ground (arith, length-filterb-le p xs)

  pub filterb-append :
      (p : A → Bool) (xs ys : List A) → filterb p (xs ++ ys) ≡ filterb p xs ++ filterb p ys
  filterb-append p [] ys = refl
  filterb-append p (x ∷ xs) ys = ground (arith, filterb-append p xs ys)

  -- A filter after one that lets more through.
  pub filterb-filterb :
      (p q : A → Bool) (xs : List A)
      → ((x : A) → p x ≡ true → q x ≡ true)
      → filterb p (filterb q xs) ≡ filterb p xs
  filterb-filterb p q [] h = refl
  filterb-filterb p q (x ∷ xs) h = ground (arith, h x, filterb-filterb p q xs h)

  pub All-append {κ} : (P : A → Type κ) (xs ys : List A) → All P xs → All P ys → All P (xs ++ ys)
  All-append P [] ys hx hy = hy
  All-append P (x ∷ xs) ys hx hy = (hx.0, All-append P xs ys hx.1 hy)

  pub All-weaken {κ ι} :
      {P : A → Type κ} {Q : A → Type ι}
      → ((a : A) → P a → Q a)
      → (xs : List A) → All P xs
      → All Q xs
  All-weaken f [] h = tt
  All-weaken f (x ∷ xs) h = (f x h.0, All-weaken f xs h.1)

module _ {A : Type 0} where
  -- Membership with its evidence.
  abbrev pub In : A → List A → Type 0
  In a [] = ⊥
  In a (x ∷ xs) = (x ≡ a) ⊎ In a xs

  pub In-append_left : (a : A) (xs ys : List A) → In a xs → In a (xs ++ ys)
  In-append_left a [] ys h = absurd h
  In-append_left a (x ∷ xs) ys (inl e) = inl e
  In-append_left a (x ∷ xs) ys (inr h) = inr (In-append_left a xs ys h)

  pub In-append_right : (a : A) (xs ys : List A) → In a ys → In a (xs ++ ys)
  In-append_right a [] ys h = h
  In-append_right a (x ∷ xs) ys h = inr (In-append_right a xs ys h)

  pub In-append : (a : A) (xs ys : List A) → In a (xs ++ ys) → In a xs ⊎ In a ys
  In-append a [] ys h = inr h
  In-append a (x ∷ xs) ys (inl e) = inl (inl e)
  In-append a (x ∷ xs) ys (inr h) = elim (In-append a xs ys h) [
    | inl l ↦ inl (inr l)
    | inr r ↦ inr r
  ]

  pub All-In {κ} : (P : A → Type κ) (a : A) (xs : List A) → All P xs → In a xs → P a
  All-In P a [] h m = absurd m
  All-In P a (x ∷ xs) h (inl e) = subst P e h.0
  All-In P a (x ∷ xs) h (inr m) = All-In P a xs h.1 m

  pub All-filterb : (P : A → Type 0) (p : A → Bool) (xs : List A) → All P xs → All P (filterb p xs)
  All-filterb P p [] h = tt
  All-filterb P p (x ∷ xs) h = elim (Bool-cases (p x)) [
    | inl t ↦ rw t (h.0, All-filterb P p xs h.1)
    | inr f ↦ rw f (All-filterb P p xs h.1)
  ]

  pub In-filterb : (p : A → Bool) (a : A) (xs : List A) → In a xs → p a ≡ true → In a (filterb p xs)
  In-filterb p a [] h e = absurd h
  In-filterb p a (x ∷ xs) (inl eq) e = rw (ap p eq ∙ e) (inl eq)
  In-filterb p a (x ∷ xs) (inr h) e = elim (Bool-cases (p x)) [
    | inl t ↦ rw t (inr (In-filterb p a xs h e))
    | inr f ↦ rw f (In-filterb p a xs h e)
  ]

  In-kept :
      (p : A → Bool) (a x : A) (xs : List A)
      → (In a (filterb p xs) → In a xs × (p a ≡ true))
      → p x ≡ true
      → (x ≡ a) ⊎ In a (filterb p xs)
      → In a (x ∷ xs) × (p a ≡ true)
  In-kept p a x xs ih t (inl e) = (inl e, ap p (sym e) ∙ t)
  In-kept p a x xs ih t (inr m) = let (m', e) = ih m in (inr m', e)

  pub filterb-In :
      (p : A → Bool) (a : A) (xs : List A) → In a (filterb p xs) → In a xs × (p a ≡ true)
  filterb-In p a [] h = absurd h
  filterb-In p a (x ∷ xs) h = elim (Bool-cases (p x)) [
    | inl t ↦ In-kept p a x xs (filterb-In p a xs) t (rw t at h)
    | inr f ↦ let (m, e) = filterb-In p a xs (rw f at h) in (inr m, e)
  ]

  pub findb-some :
      (p : A → Bool) (xs : List A) (r : A) → findb p xs ≡ some r → In r xs × (p r ≡ true)
  findb-some p [] r h = cc
  findb-some p (x ∷ xs) r h = elim (Bool-cases (p x)) [
    | inl t ↦ let e : x ≡ r = ground arith in (inl e, ap p (sym e) ∙ t)
    | inr f ↦ let (m, t) = findb-some p xs r (rw f at h) in (inr m, t)
  ]

  pub findb-none : (p : A → Bool) (xs : List A) → anyb p xs ≡ false → findb p xs ≡ none
  findb-none p [] h = refl
  findb-none p (x ∷ xs) h = ground (arith, findb-none p xs)

  pub findb-anyb : (p : A → Bool) (xs : List A) → anyb p xs ≡ true → (r : A) × (findb p xs ≡ some r)
  findb-anyb p [] h = cc
  findb-anyb p (x ∷ xs) h = elim (Bool-cases (p x)) [
    | inl t ↦ (x, rw t)
    | inr f ↦ let (r, e) = findb-anyb p xs (rw f at h) in (r, rw (f, e))
  ]

  pub In-anyb : (p : A → Bool) (a : A) (xs : List A) → In a xs → p a ≡ true → anyb p xs ≡ true
  In-anyb p a [] h t = absurd h
  In-anyb p a (x ∷ xs) (inl e) t = rw (ap p e ∙ t)
  In-anyb p a (x ∷ xs) (inr m) t = ground (arith, In-anyb p a xs m t)

  pub anyb-In : (p : A → Bool) (xs : List A) → anyb p xs ≡ true → (a : A) × In a xs × (p a ≡ true)
  anyb-In p xs h = let (r, e) = findb-anyb p xs h in let (m, t) = findb-some p xs r e in (r, m, t)

  pub take-drop-In : (n : ℕ) (a : A) (xs : List A) → In a xs → In a (take n xs) ⊎ In a (drop n xs)
  take-drop-In zero a xs h = inr h
  take-drop-In (suc n) a [] h = absurd h
  take-drop-In (suc n) a (x ∷ xs) (inl e) = inl (inl e)
  take-drop-In (suc n) a (x ∷ xs) (inr m) = elim (take-drop-In n a xs m) [
    | inl l ↦ inl (inr l)
    | inr r ↦ inr r
  ]

  pub take-In : (n : ℕ) (a : A) (xs : List A) → In a (take n xs) → In a xs
  take-In zero a xs h = absurd h
  take-In (suc n) a [] h = absurd h
  take-In (suc n) a (x ∷ xs) (inl e) = inl e
  take-In (suc n) a (x ∷ xs) (inr m) = inr (take-In n a xs m)

  pub drop-In : (n : ℕ) (a : A) (xs : List A) → In a (drop n xs) → In a xs
  drop-In zero a xs h = h
  drop-In (suc n) a [] h = absurd h
  drop-In (suc n) a (x ∷ xs) h = inr (drop-In n a xs h)
