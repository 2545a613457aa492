-- ===== src/Base/JsString.antt =====
-- JavaScript's strings as the lists of UTF-16 code units that they are.
use Prim.Native.Nat.{ℕ}
use Prim.Native.Char.{code}
use Prim.Native.String.{String}
use mathlib.Core.Path.{◌≡◌, refl}
use mathlib.Core.Logic.{◌⊎◌, inl, inr}
use mathlib.Core.Bool.{Bool, true, false, ◌&&◌}
use mathlib.Core.List.{List, [], ◌∷◌, reverse}
use native.Mathlib.Omega.{arith}
use native.Mathlib.Decide.{ℕ_discrete}
use cross_tab_worker_databus.Base.Tests.{if◌then◌else◌, ltb, ◌==◌}
use cross_tab_worker_databus.Base.Eq.{HasEq}

abbrev pub Text : Type 0
Text = List ℕ

-- A literal of the source; every one that is used is ASCII.
abbrev pub text : String → Text
text String.[] = []
text (String.◌∷◌ c s) = code c ∷ text s

-- `===` on strings.
abbrev pub eqb : Text → Text → Bool
eqb [] [] = true
eqb [] (d ∷ t) = false
eqb (c ∷ s) [] = false
eqb (c ∷ s) (d ∷ t) = (c == d) && eqb s t

-- `<` on strings, which compares code units.
abbrev pub lessb : Text → Text → Bool
lessb s [] = false
lessb [] (d ∷ t) = true
lessb (c ∷ s) (d ∷ t) = if c == d then lessb s t else ltb c d

unfoldable pub Text-discrete : Discrete Text
Text-discrete = hlevel ℕ_discrete

instance abbrev pub text_has_eq : HasEq Text
text_has_eq = record { dec = Text-discrete }

-- `String.prototype.startsWith` and `endsWith`.
abbrev pub starts_with : Text → Text → Bool
starts_with s [] = true
starts_with [] (d ∷ t) = false
starts_with (c ∷ s) (d ∷ t) = (c == d) && starts_with s t

abbrev pub ends_with : Text → Text → Bool
ends_with s t = starts_with (reverse s) (reverse t)

pub eqb_sound : (s t : Text) → eqb s t ≡ true → s ≡ t
eqb_sound [] [] h = refl
eqb_sound [] (d ∷ t) h = cc
eqb_sound (c ∷ s) [] h = cc
eqb_sound (c ∷ s) (d ∷ t) h = ground (arith, eqb_sound s t)

pub eqb_refl : (s : Text) → eqb s s ≡ true
eqb_refl [] = refl
eqb_refl (c ∷ s) = ground (arith, eqb_refl s)

pub lessb_irrefl : (s : Text) → lessb s s ≡ false
lessb_irrefl [] = refl
lessb_irrefl (c ∷ s) = ground (arith, lessb_irrefl s)

pub lessb_asym : (s t : Text) → lessb s t ≡ true → lessb t s ≡ false
lessb_asym s [] h = cc
lessb_asym [] (d ∷ t) h = refl
lessb_asym (c ∷ s) (d ∷ t) h = ground (arith, lessb_asym s t)

pub lessb_cotrans : (s t u : Text) → lessb s u ≡ true → (lessb s t ≡ true) ⊎ (lessb t u ≡ true)
lessb_cotrans s t [] h = cc
lessb_cotrans s [] (e ∷ u) h = inr refl
lessb_cotrans [] (d ∷ t) (e ∷ u) h = inl refl
lessb_cotrans (c ∷ s) (d ∷ t) (e ∷ u) h = ground (arith, lessb_cotrans s t u)

pub lessb_total : (s t : Text) → lessb s t ≡ false → lessb t s ≡ false → s ≡ t
lessb_total [] [] h k = refl
lessb_total [] (d ∷ t) h k = cc
lessb_total (c ∷ s) [] h k = cc
lessb_total (c ∷ s) (d ∷ t) h k = ground (arith, lessb_total s t)
