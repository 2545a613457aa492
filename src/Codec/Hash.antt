-- ===== src/Codec/Hash.antt =====
-- src/core/hash.ts: `createOpaqueKey`. A 32-bit value is its residue modulo 2 ^ 32, whichever sign
-- JavaScript gives it: `^`, `>>>` and `Math.imul` depend on nothing else, and `>>> 0` prints it.
use Prim.Native.Nat.{bit_xor}
use cross_tab_worker_databus.Base.{
  ℕ, zero, suc, ◌+◌, ◌-◌, ◌*◌, ◌/◌, ◌%◌, ◌^◌, [], ◌∷◌, ◌++◌, ltb, if◌then◌else◌, length, nat_has_eq,
}
use cross_tab_worker_databus.Base.JsString.{Text}

abbrev pub word : ℕ
word = 4_294_967_296

abbrev seed_h1 : ℕ
seed_h1 = 3_735_928_559

abbrev seed_h2 : ℕ
seed_h2 = 1_103_547_991

abbrev seed_h3 : ℕ
seed_h3 = 3_235_826_430

abbrev seed_h4 : ℕ
seed_h4 = 2_654_435_769

abbrev prime_h1 : ℕ
prime_h1 = 2_654_435_761

abbrev prime_h2 : ℕ
prime_h2 = 1_597_334_677

abbrev prime_h3 : ℕ
prime_h3 = 2_246_822_519

abbrev prime_h4 : ℕ
prime_h4 = 3_266_489_917

abbrev avalanche_prime : ℕ
avalanche_prime = 2_246_822_507

abbrev avalanche_cross : ℕ
avalanche_cross = 3_266_489_909

-- `Math.imul`.
unfoldable pub imul : ℕ → ℕ → ℕ
imul a b = (a * b) % word

-- `a >>> k` on a residue.
abbrev pub shift_right : ℕ → ℕ → ℕ
shift_right a k = a / 2 ^ k

unfoldable pub avalanche_mix : ℕ → ℕ → ℕ
avalanche_mix self neighbor =
    bit_xor (imul (bit_xor self (shift_right self 16)) avalanche_prime)
      (imul (bit_xor neighbor (shift_right neighbor 13)) avalanche_cross)

pub record Lanes : Type 0 where
  pub h1 : ℕ
  pub h2 : ℕ
  pub h3 : ℕ
  pub h4 : ℕ

-- `SEED ^ value.length` in every lane.
unfoldable pub start_lanes : Text → Lanes
start_lanes value =
    let n = length value % word in
    record {
      h1 = bit_xor seed_h1 n;
      h2 = bit_xor seed_h2 n;
      h3 = bit_xor seed_h3 n;
      h4 = bit_xor seed_h4 n;
    }

-- The loop over the code units.
unfoldable pub mix : Text → Lanes → Lanes
mix [] l = l
mix (code ∷ value) l = mix value (record {
  h1 = imul (bit_xor l.h1 code) prime_h1;
  h2 = imul (bit_xor l.h2 code) prime_h2;
  h3 = imul (bit_xor l.h3 code) prime_h3;
  h4 = imul (bit_xor l.h4 code) prime_h4;
})

-- The four statements after the loop: each reads the lanes as those before it left them.
unfoldable pub avalanche : Lanes → Lanes
avalanche l =
    let m1 = avalanche_mix l.h1 l.h2 in
    let m2 = avalanche_mix l.h2 l.h3 in
    let m3 = avalanche_mix l.h3 l.h4 in
    record { h1 = m1; h2 = m2; h3 = m3; h4 = avalanche_mix l.h4 m1 }

-- The digit's code unit: `0` to `9`, then `a` to `f`.
abbrev pub hex_digit : ℕ → ℕ
hex_digit d = if ltb d 10 then 48 + d else 87 + d

-- `toString(16)`: `fuel` is the number of digits that there may be, which is 8 for a 32-bit value.
unfoldable pub to_hex : ℕ → ℕ → Text
to_hex zero n = []
to_hex (suc fuel) n =
    let higher = to_hex fuel (n / 16) in
    if ltb n 16 then hex_digit n ∷ [] else higher ++ hex_digit (n % 16) ∷ []

-- `padStart(width, '0')`.
unfoldable pub zeros : ℕ → Text
zeros zero = []
zeros (suc n) = 48 ∷ zeros n

abbrev pub pad_start : ℕ → Text → Text
pad_start width s = zeros (width - length s) ++ s

-- `(hash >>> 0).toString(16).padStart(8, '0')`.
unfoldable pub lane_text : ℕ → Text
lane_text hash = pad_start 8 (to_hex 8 (hash % word))

unfoldable pub create_opaque_key : Text → Text
create_opaque_key value =
    let l = avalanche (mix value (start_lanes value)) in
    lane_text l.h1 ++ lane_text l.h2 ++ lane_text l.h3 ++ lane_text l.h4
