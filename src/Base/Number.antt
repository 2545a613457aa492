-- ===== src/Base/Number.antt =====
-- JavaScript's numbers (IEEE 754 doubles), where the program computes with fractions: a type and
-- the operations that the source uses, with the laws of the standard that its comparisons rely on.
use Prim.Native.Nat.{ℕ, ◌+◌, ◌-◌, ◌*◌, ◌/◌}
use mathlib.Core.Path.{◌≡◌, refl}
use mathlib.Core.Logic.{◌⊎◌}
use mathlib.Core.Bool.{Bool, true, false, not, ◌||◌}
use native.Mathlib.Omega.{arith}
use cross_tab_worker_databus.Base.Tests.{if◌then◌else◌, ltb, leb, ◌==◌}

pub record Number : Type 1 where
  pub F : Type 0
  pub is_finite : F → Bool
  pub is_zero : F → Bool
  pub is_neg : F → Bool
  pub le : F → F → Bool
  pub add : F → F → F
  pub sub : F → F → F
  pub mul : F → F → F
  pub div : F → F → F
  pub of_nat : ℕ → F
  pub finite_of_nat : (n : ℕ) → is_finite (of_nat n) ≡ true
  -- The sign of `a - b` orders the finite numbers: gradual underflow makes it exact.
  pub sub_asym :
      (a b : F)
      → is_finite a ≡ true
      → is_finite b ≡ true
      → is_neg (sub a b) ≡ true
      → is_neg (sub b a) ≡ false
  pub sub_cotrans :
      (a b c : F)
      → is_finite a ≡ true
      → is_finite b ≡ true
      → is_finite c ≡ true
      → is_neg (sub a c) ≡ true
      → (is_neg (sub a b) ≡ true) ⊎ (is_neg (sub b c) ≡ true)
  pub sub_zero :
      (a b : F)
      → is_finite a ≡ true
      → is_finite b ≡ true
      → is_zero (sub a b) ≡ not (is_neg (sub a b) || is_neg (sub b a))

-- A concrete instance: differences of natural numbers, with one value that is not finite.
pub data Diff : Type 0 where
  not_finite : Diff
  diff : ℕ → ℕ → Diff

abbrev Diff_finite : Diff → Bool
Diff_finite not_finite = false
Diff_finite (diff a b) = true

abbrev Diff_zero : Diff → Bool
Diff_zero not_finite = false
Diff_zero (diff a b) = a == b

abbrev Diff_neg : Diff → Bool
Diff_neg not_finite = false
Diff_neg (diff a b) = ltb a b

abbrev Diff_le : Diff → Diff → Bool
Diff_le (diff a b) (diff c d) = leb (a + d) (c + b)
Diff_le _ _ = false

abbrev Diff_add : Diff → Diff → Diff
Diff_add (diff a b) (diff c d) = diff (a + c) (b + d)
Diff_add _ _ = not_finite

abbrev Diff_sub : Diff → Diff → Diff
Diff_sub (diff a b) (diff c d) = diff (a + d) (b + c)
Diff_sub _ _ = not_finite

abbrev Diff_mul : Diff → Diff → Diff
Diff_mul (diff a b) (diff c d) = diff (a * c + b * d) (a * d + b * c)
Diff_mul _ _ = not_finite

-- Rounded down, and only for what is not negative.
abbrev Diff_div : Diff → Diff → Diff
Diff_div (diff a b) (diff c d) = if leb c d then not_finite else diff ((a - b) / (c - d)) 0
Diff_div _ _ = not_finite

pub Diff_asym :
    (x y : Diff)
    → Diff_finite x ≡ true
    → Diff_finite y ≡ true
    → Diff_neg (Diff_sub x y) ≡ true
    → Diff_neg (Diff_sub y x) ≡ false
Diff_asym not_finite y f g h = cc
Diff_asym (diff a b) not_finite f g h = cc
Diff_asym (diff a b) (diff c d) f g h = ground arith

pub Diff_cotrans :
    (x y z : Diff)
    → Diff_finite x ≡ true
    → Diff_finite y ≡ true
    → Diff_finite z ≡ true
    → Diff_neg (Diff_sub x z) ≡ true
    → (Diff_neg (Diff_sub x y) ≡ true) ⊎ (Diff_neg (Diff_sub y z) ≡ true)
Diff_cotrans not_finite y z f g k h = cc
Diff_cotrans (diff a b) not_finite z f g k h = cc
Diff_cotrans (diff a b) (diff c d) not_finite f g k h = cc
Diff_cotrans (diff a b) (diff c d) (diff m n) f g k h = ground arith

pub Diff_zero_lem :
    (x y : Diff)
    → Diff_finite x ≡ true
    → Diff_finite y ≡ true
    → Diff_zero (Diff_sub x y) ≡ not (Diff_neg (Diff_sub x y) || Diff_neg (Diff_sub y x))
Diff_zero_lem not_finite y f g = cc
Diff_zero_lem (diff a b) not_finite f g = cc
Diff_zero_lem (diff a b) (diff c d) f g = ground arith

abbrev pub diff_number : Number
diff_number = record {
  F = Diff;
  is_finite = Diff_finite;
  is_zero = Diff_zero;
  is_neg = Diff_neg;
  le = Diff_le;
  add = Diff_add;
  sub = Diff_sub;
  mul = Diff_mul;
  div = Diff_div;
  of_nat = λ n. diff n 0;
  finite_of_nat = λ n. refl;
  sub_asym = Diff_asym;
  sub_cotrans = Diff_cotrans;
  sub_zero = Diff_zero_lem;
}
