-- ===== src/Validation/Accepted.antt =====
-- About src/utils/validation.ts: what a value is like that a check lets pass.
use cross_tab_worker_databus.Base.{
  ℕ, zero, suc, ◌+◌, ◌*◌, ◌/◌, ◌%◌, ◌≤◌, ◌<◌, ◌≡◌, refl, sym, ap, ◌∙◌, ◌↔◌, ◌⊎◌, inl, inr, Bool,
  true, false, not, ◌&&◌, ◌||◌, Option, none, some, arith, lt→ltb, Bool-cases, nat_has_eq,
}
use native.Mathlib.Nat.{suc-mul, mod-add-div', mul-mod_left, mul-div_cancel}
use cross_tab_worker_databus.Base.JsString.{Text, text, eqb, eqb_sound}
use cross_tab_worker_databus.Validation.Checks.{
  Value, nan, infinity, negative_infinity, fraction, other, Failure, Outcome, ◌before◌, unless,
  given, max_safe_integer, is_safe_integer, is_finite, is_positive, is_non_negative, is_less,
  is_strategy, AdaptiveTtl, are_bounds, assert_positive_safe_integer, assert_positive_finite_number,
  assert_non_negative_finite_number, assert_prune_strategy, assert_bounds,
}

-- The whole numbers from 1 to the last safe integer, the positive fractions, and those from 0.
abbrev pub PositiveSafe : Value → Type 0
PositiveSafe v =
    (k : ℕ) × (d : ℕ) × (n : ℕ) × (v ≡ fraction false n d)
    × (n ≡ k * suc d)
    × (0 < k)
    × (k ≤ max_safe_integer)

abbrev pub Positive : Value → Type 0
Positive v = (n : ℕ) × (d : ℕ) × (v ≡ fraction false n d) × (0 < n)

abbrev pub NonNegative : Value → Type 0
NonNegative v = (s : Bool) × (n : ℕ) × (d : ℕ) × (v ≡ fraction s n d) × ((s ≡ false) ⊎ (n ≡ 0))

abbrev pub Strategy : Value → Type 0
Strategy v =
    (t : Text) × (v ≡ other t) × ((t ≡ text "count") ⊎ (t ≡ text "age") ⊎ (t ≡ text "both"))

-- Two positive fractions in their order.
abbrev pub Ordered : AdaptiveTtl → Type 0
Ordered bounds =
    (n : ℕ) × (d : ℕ) × (m : ℕ) × (e : ℕ) × (bounds.min_ms ≡ fraction false n d)
    × (bounds.max_ms ≡ fraction false m e)
    × (0 < n)
    × (n * suc e ≤ m * suc d)

abbrev pub Attempts : Value → Type 0
Attempts v = (v ≡ infinity) ⊎ PositiveSafe v

-- A condition on an option where it is given.
abbrev pub Given {ℓ} : {A : Type ℓ} → (A → Type 0) → Option A → Type 0
Given P none = Unit
Given P (some value) = P value

-- A check that lets pass exactly what is as it should be.
abbrev pub Decides {ℓ} : {A : Type ℓ} → (A → Outcome) → (A → Type 0) → Type ℓ
Decides check P = (value : _) → (check value ≡ none) ↔ P value

pub unless_iff : (b : Bool) (f : Failure) → (unless b f ≡ none) ↔ (b ≡ true)
unless_iff true f = ((λ h. refl), λ h. refl)
unless_iff false f = ((λ h. ground arith), λ h. ground arith)

pub before_iff :
    {P Q : Type 0} (a b : Outcome)
    → (a ≡ none) ↔ P
    → (b ≡ none) ↔ Q
    → ((a before b) ≡ none) ↔ (P × Q)
before_iff none b p q = ((λ h. (p.0 refl, q.0 h)), λ h. q.1 h.1)
before_iff (some f) b p q = ((λ h. absurd (ground arith)), λ h. p.1 h.0)

pub given_iff {ℓ} :
    {A : Type ℓ} (check : A → Outcome) (P : A → Type 0) (o : Option A)
    → ((value : A) → (check value ≡ none) ↔ P value)
    → (given check o ≡ none) ↔ Given P o
given_iff check P none i = ((λ h. tt), λ h. refl)
given_iff check P (some value) i = i value

chained : {P Q R : Type 0} → P ↔ Q → Q ↔ R → P ↔ R
chained (f, g) (h, k) = ((λ p. h (f p)), λ r. g (k r))

finite_sound : (v : Value) → (is_finite v && is_positive v) ≡ true → Positive v
finite_sound nan h = absurd (ground arith)
finite_sound infinity h = absurd (ground arith)
finite_sound negative_infinity h = absurd (ground arith)
finite_sound (other t) h = absurd (ground arith)
finite_sound (fraction true n d) h = absurd (ground arith)
finite_sound (fraction false n d) h = (n, d, refl, ground arith)

finite_complete : (v : Value) → Positive v → (is_finite v && is_positive v) ≡ true
finite_complete v (n, d, e, l) = ap (λ u. is_finite u && is_positive u) e ∙ lt→ltb 0 n l

quotient-positive : (q d n : ℕ) → n ≡ q * suc d → 0 < n → 0 < q
quotient-positive zero d n e l = absurd (omega arith)
quotient-positive (suc q) d n e l = omega arith

product-positive : (k d n : ℕ) → n ≡ k * suc d → 0 < k → 0 < n
product-positive zero d n e l = absurd (omega arith)
product-positive (suc k) d n e l = omega (arith, suc-mul k (suc d))

safe_sound : (v : Value) → (is_safe_integer v && is_positive v) ≡ true → PositiveSafe v
safe_sound nan h = absurd (ground arith)
safe_sound infinity h = absurd (ground arith)
safe_sound negative_infinity h = absurd (ground arith)
safe_sound (other t) h = absurd (ground arith)
safe_sound (fraction true n d) h = absurd (ground arith)
safe_sound (fraction false n d) h =
    let e = mod-add-div' n (suc d) in
    let whole : n % suc d ≡ 0 = ground arith in
    let n' : n ≡ n / suc d * suc d = sym e ∙ ap (λ r. r + n / suc d * suc d) whole ∙ omega arith in
    (n / suc d, d, n, refl, n', quotient-positive (n / suc d) d n n' (ground arith), ground arith)

safe_complete : (v : Value) → PositiveSafe v → (is_safe_integer v && is_positive v) ≡ true
safe_complete v (k, d, n, e, w, l, b) =
    let whole : n % suc d ≡ 0 = ap (λ i. i % suc d) w ∙ mul-mod_left k (suc d) in
    let quotient : n / suc d ≡ k = ap (λ i. i / suc d) w ∙ mul-div_cancel k (omega arith) in
    let l' : 0 < n = product-positive k d n w l in
    ap (λ u. is_safe_integer u && is_positive u) e ∙ ground arith

from_zero_sound : (v : Value) → (is_finite v && is_non_negative v) ≡ true → NonNegative v
from_zero_sound nan h = absurd (ground arith)
from_zero_sound infinity h = absurd (ground arith)
from_zero_sound negative_infinity h = absurd (ground arith)
from_zero_sound (other t) h = absurd (ground arith)
from_zero_sound (fraction true n d) h = (true, n, d, refl, inr (ground arith))
from_zero_sound (fraction false n d) h = (false, n, d, refl, inl refl)

from_zero_complete : (v : Value) → NonNegative v → (is_finite v && is_non_negative v) ≡ true
from_zero_complete v (s, n, d, e, inl h) =
    ap (λ u. is_finite u && is_non_negative u) e ∙ ground arith
from_zero_complete v (s, n, d, e, inr h) =
    ap (λ u. is_finite u && is_non_negative u) e ∙ ground arith

last_of : (a b c : Bool) → (a || b || c) ≡ true → a ≡ false → b ≡ false → c ≡ true
last_of a b c h p q = ground arith

prune_sound : (v : Value) → is_strategy v ≡ true → Strategy v
prune_sound nan h = absurd (ground arith)
prune_sound infinity h = absurd (ground arith)
prune_sound negative_infinity h = absurd (ground arith)
prune_sound (fraction s n d) h = absurd (ground arith)
prune_sound (other t) h = (
  t,
  refl,
  elim (Bool-cases (eqb t (text "count"))) [
    | inl a ↦ inl (eqb_sound t (text "count") a)
    | inr a ↦ elim (Bool-cases (eqb t (text "age"))) [
      | inl b ↦ inr (inl (eqb_sound t (text "age") b))
      | inr b ↦ inr (inr (eqb_sound t (text "both") (last_of _ _ _ h a b)))
    ]
  ],
)

prune_complete : (v : Value) → Strategy v → is_strategy v ≡ true
prune_complete v (t, e, inl h) = ap is_strategy (e ∙ ap other h)
prune_complete v (t, e, inr (inl h)) = ap is_strategy (e ∙ ap other h)
prune_complete v (t, e, inr (inr h)) = ap is_strategy (e ∙ ap other h)

-- A finite number that is not below a positive fraction.
not_below :
    (n d : ℕ) (v : Value)
    → is_finite v ≡ true
    → is_less v (fraction false n d) ≡ false
    → 0 < n
    → (m : ℕ) × (e : ℕ) × (v ≡ fraction false m e) × (n * suc e ≤ m * suc d)
not_below n d nan f h l = absurd (ground arith)
not_below n d infinity f h l = absurd (ground arith)
not_below n d negative_infinity f h l = absurd (ground arith)
not_below n d (other t) f h l = absurd (ground arith)
not_below n d (fraction true m e) f h l = absurd (ground arith)
not_below n d (fraction false m e) f h l = (m, e, refl, ground arith)

conjuncts :
    (a b c d : Bool)
    → (((a && b) && c) && not d) ≡ true
    → ((a && c) ≡ true) × (b ≡ true) × (d ≡ false)
conjuncts a b c d h = (ground arith, ground arith, ground arith)

bounds_sound : (b : AdaptiveTtl) → are_bounds b ≡ true → Ordered b
bounds_sound b h =
    let (u, f, o) =
      conjuncts (is_finite b.min_ms) (is_finite b.max_ms) (is_positive b.min_ms)
        (is_less b.max_ms b.min_ms) h in
    let (n, d, p, l) = finite_sound b.min_ms u in
    let (m, e, q, le) = not_below n d b.max_ms f (ap (is_less b.max_ms) (sym p) ∙ o) l in
    (n, d, m, e, p, q, l, le)

bounds_complete : (b : AdaptiveTtl) → Ordered b → are_bounds b ≡ true
bounds_complete b (n, d, m, e, p, q, l, o) =
    ap (λ u. are_bounds (record { min_ms = u; max_ms = b.max_ms })) p
    ∙ ap (λ v. are_bounds (record { min_ms = fraction false n d; max_ms = v })) q
    ∙ ground arith

-- The checks.
pub assert_positive_safe_integer_iff :
    (name : Text) (v : Value) → (assert_positive_safe_integer name v ≡ none) ↔ PositiveSafe v
unfolding assert_positive_safe_integer
assert_positive_safe_integer_iff name v = chained (unless_iff _ _) (safe_sound v, safe_complete v)

pub assert_positive_finite_number_iff :
    (name : Text) (v : Value) → (assert_positive_finite_number name v ≡ none) ↔ Positive v
unfolding assert_positive_finite_number
assert_positive_finite_number_iff name v =
    chained (unless_iff _ _) (finite_sound v, finite_complete v)

pub assert_non_negative_finite_number_iff :
    (name : Text) (v : Value) → (assert_non_negative_finite_number name v ≡ none) ↔ NonNegative v
unfolding assert_non_negative_finite_number
assert_non_negative_finite_number_iff name v =
    chained (unless_iff _ _) (from_zero_sound v, from_zero_complete v)

pub assert_prune_strategy_iff : (v : Value) → (assert_prune_strategy v ≡ none) ↔ Strategy v
unfolding assert_prune_strategy
assert_prune_strategy_iff v = chained (unless_iff _ _) (prune_sound v, prune_complete v)

pub assert_bounds_iff : (b : AdaptiveTtl) → (assert_bounds b ≡ none) ↔ Ordered b
unfolding assert_bounds
assert_bounds_iff b = chained (unless_iff _ _) (bounds_sound b, bounds_complete b)
