-- ===== src/Base/Eq.antt =====
-- Keys with a decidable equality: what `===` and the keys of a Map rely on.
use Prim.Native.Nat.{ℕ}
use native.Mathlib.Decide.{ℕ_discrete}

pub record HasEq {ℓ} (K : Type ℓ) : Type ℓ where
  pub dec : Discrete K

instance abbrev pub nat_has_eq : HasEq ℕ
nat_has_eq = record { dec = ℕ_discrete }
