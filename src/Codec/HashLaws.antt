-- ===== src/Codec/HashLaws.antt =====
-- About src/core/hash.ts: the form of the keys.
use cross_tab_worker_databus.Base.{
  ℕ, zero, suc, ◌+◌, ◌-◌, ◌*◌, ◌/◌, ◌%◌, ◌≤◌, ◌<◌, ◌≡◌, refl, ap, ◌∙◌, ◌⊎◌, inl, [], ◌∷◌, ◌++◌,
  arith, dec_lt, ℕ_discrete, ltb, if◌then◌else◌, length, length-append, All, All-append, nat_has_eq,
}
use cross_tab_worker_databus.Base.JsString.{Text}
use cross_tab_worker_databus.Codec.Hash.{
  word, hex_digit, to_hex, zeros, lane_text, avalanche, mix, start_lanes, create_opaque_key,
}

-- A lowercase hexadecimal digit.
abbrev pub IsHex : ℕ → Type 0
IsHex c = ((48 ≤ c) × (c ≤ 57)) ⊎ ((97 ≤ c) × (c ≤ 102))

hex_digit-IsHex : (d : ℕ) → d < 16 → IsHex (hex_digit d)
hex_digit-IsHex d h = ground arith

to_hex-IsHex : (fuel n : ℕ) → All IsHex (to_hex fuel n)
unfolding to_hex
to_hex-IsHex zero n = tt
to_hex-IsHex (suc fuel) n = elim (dec_lt n 16) [
  | yes h ↦ ground (arith, hex_digit-IsHex n h)
  | no h ↦
      let last : All IsHex (hex_digit (n % 16) ∷ []) =
        (hex_digit-IsHex (n % 16) (omega arith), tt) in
      let all =
        All-append IsHex (to_hex fuel (n / 16)) (hex_digit (n % 16) ∷ [])
          (to_hex-IsHex fuel (n / 16)) last in
      ground (arith, all)
]

-- A value has no more digits than the fuel.
length-to_hex-le : (fuel n : ℕ) → length (to_hex fuel n) ≤ fuel
unfolding to_hex
length-to_hex-le zero n = omega arith
length-to_hex-le (suc fuel) n = ground (
  arith,
  length-to_hex-le fuel (n / 16),
  length-append (to_hex fuel (n / 16)) (hex_digit (n % 16) ∷ []),
)

zeros-IsHex : (n : ℕ) → All IsHex (zeros n)
unfolding zeros
zeros-IsHex zero = tt
zeros-IsHex (suc n) = (inl (omega arith, omega arith), zeros-IsHex n)

length-zeros : (n : ℕ) → length (zeros n) ≡ n
unfolding zeros
length-zeros zero = refl
length-zeros (suc n) = omega (arith, length-zeros n)

-- What the digits stand for.
abbrev pub digit_value : ℕ → ℕ
digit_value c = if ltb c 58 then c - 48 else c - 87

unfoldable pub hex_value : Text → ℕ → ℕ
hex_value [] n = n
hex_value (c ∷ s) n = hex_value s (n * 16 + digit_value c)

hex_value-append :
    (s : Text) (c n : ℕ) → hex_value (s ++ c ∷ []) n ≡ hex_value s n * 16 + digit_value c
unfolding hex_value
hex_value-append [] c n = refl
hex_value-append (d ∷ s) c n = hex_value-append s c (n * 16 + digit_value d)

digit_value-hex_digit : (d : ℕ) → d < 16 → digit_value (hex_digit d) ≡ d
digit_value-hex_digit d h = ground arith

abbrev power_of_16 : ℕ → ℕ
power_of_16 zero = 1
power_of_16 (suc n) = power_of_16 n * 16

-- With as much fuel as the value has digits nothing is cut off.
hex_value-to_hex : (fuel n : ℕ) → n < power_of_16 fuel → 0 < fuel → hex_value (to_hex fuel n) 0 ≡ n
unfolding to_hex hex_value
hex_value-to_hex zero n h f = absurd (omega arith)
hex_value-to_hex (suc fuel) n h f = elim (dec_lt n 16) [
  | yes l ↦ ground (arith, digit_value-hex_digit n l)
  | no l ↦
      let more : 0 < fuel = elim (ℕ_discrete fuel 0) [
        | yes z ↦ absurd (let e = ap power_of_16 z in omega arith)
        | no p ↦ omega arith
      ] in
      let ih = hex_value-to_hex fuel (n / 16) (omega arith) more in
      ground (
        arith,
        ih,
        hex_value-append (to_hex fuel (n / 16)) (hex_digit (n % 16)) 0,
        digit_value-hex_digit (n % 16) (omega arith),
      )
]

hex_value-zeros : (n : ℕ) (s : Text) → hex_value (zeros n ++ s) 0 ≡ hex_value s 0
unfolding hex_value zeros
hex_value-zeros zero s = refl
hex_value-zeros (suc n) s = hex_value-zeros n s

-- The text of a lane: eight hexadecimal digits that stand for its 32 bits.
abbrev pub Spells : ℕ → Text → Type 0
Spells hash s = (length s ≡ 8) × All IsHex s × (hex_value s 0 ≡ hash % word)

lane_text-Spells : (hash : ℕ) → Spells hash (lane_text hash)
unfolding lane_text
lane_text-Spells hash =
    let s = to_hex 8 (hash % word) in
    (
      omega (
        arith,
        length-append (zeros (8 - length s)) s,
        length-zeros (8 - length s),
        length-to_hex-le 8 (hash % word),
      ),
      All-append IsHex (zeros (8 - length s)) s (zeros-IsHex (8 - length s))
          (to_hex-IsHex 8 (hash % word)),
      hex_value-zeros (8 - length s) s
          ∙ hex_value-to_hex 8 (hash % word) (omega arith) (omega arith),
    )

-- A key is 32 lowercase hexadecimal digits, whatever the string: four blocks of eight that stand
-- for the 32 bits of the four lanes in order.
pub create_opaque_key-Spells :
    (value : Text)
    → let l = avalanche (mix value (start_lanes value)) in
      (a : Text) × (b : Text) × (c : Text) × (d : Text) × (create_opaque_key value
        ≡ a ++ b ++ c ++ d)
      × Spells l.h1 a
      × Spells l.h2 b
      × Spells l.h3 c
      × Spells l.h4 d
unfolding create_opaque_key
create_opaque_key-Spells value =
    let l = avalanche (mix value (start_lanes value)) in
    (
      lane_text l.h1,
      lane_text l.h2,
      lane_text l.h3,
      lane_text l.h4,
      refl,
      lane_text-Spells l.h1,
      lane_text-Spells l.h2,
      lane_text-Spells l.h3,
      lane_text-Spells l.h4,
    )
