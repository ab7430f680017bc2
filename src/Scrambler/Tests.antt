-- ===== src/Scrambler/Tests.antt =====
-- The scrambler over integers with their negation.
use open_vlsnr.Prelude.{ℕ, ◌≡◌, refl, false, some, List, [], ◌∷◌, arith, ◌==◌}
use open_vlsnr.Scrambler.{Scrambler, Complex, init, seek, scramble_field, descramble_field}
use open_vlsnr.Scrambler.Registers.{IsRegister, init_lem}
use open_vlsnr.Scrambler.RoundTrip.{descramble_field-scramble_field}

-- A number with a sign.
data Signed : Type 0 where
  plus minus : ℕ → Signed

negate : Signed → Signed
negate (plus n) = minus n
negate (minus n) = plus n

negate-negate : (a : Signed) → negate (negate a) ≡ a
unfolding negate
negate-negate (plus n) = refl
negate-negate (minus n) = refl

abbrev symbols : List (Complex Signed)
symbols =
    record { i = plus 1; q = plus 2 }
    ∷ record { i = minus 3; q = plus 4 }
    ∷ record { i = plus 5; q = minus 6 }
    ∷ []

abbrev all_ones : Scrambler
all_ones = record { x_reg = 1; y_reg = 0x3FFFF; gold_idx = 0 }

all_ones-IsRegister : IsRegister all_ones
all_ones-IsRegister = omega arith

init_lem_example :
    ((init 3).x_reg ≡ (seek 3 (init 0)).x_reg) × ((init 3).y_reg ≡ 0x3FFFF) × IsRegister (init 3)
init_lem_example = init_lem 3

descramble_field-scramble_field_example :
    let (end, out) = scramble_field negate false (some (λ n. n == 1)) 0 all_ones symbols in
    descramble_field negate false (some (λ n. n == 1)) 0 all_ones out ≡ (end, symbols)
descramble_field-scramble_field_example =
    descramble_field-scramble_field negate negate-negate false (some (λ n. n == 1)) 0 all_ones
      symbols
