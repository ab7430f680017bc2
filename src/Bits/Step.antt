-- ===== src/Bits/Step.antt =====
-- One equation for the lowest digit of `&`, `|` and `^`. The native operations stand for a
-- recursion on binary digits with fuel; here the fuel is dropped.
use Prim.Native.Nat.{
  min, max, digits, differ, bitwise, bit_and-bitwise, bit_or-bitwise, bit_xor-bitwise,
}
use open_vlsnr.Prelude.{
  ℕ, zero, suc, ◌+◌, ◌*◌, ◌/◌, ◌%◌, ◌≤◌, ◌<◌, bit_and, bit_or, bit_xor, ◌≡◌, refl, arith,
}

-- The digits of `x` and `y` under the operation `op` on digits, with `low` once `x` has run out.
module _ (low : ℕ → ℕ) (op : ℕ → ℕ → ℕ) where
  -- Any two amounts of fuel that suffice agree.
  same_fuel :
      (x y : ℕ) {fuel spare : ℕ}
      → (x ≤ fuel) × (x ≤ spare)
      → digits low op fuel x y ≡ digits low op spare x y
  same_fuel zero y {fuel = zero} {spare = zero} enough = refl
  same_fuel zero y {fuel = zero} {spare = suc t} enough = refl
  same_fuel zero y {fuel = suc s} {spare = zero} enough = refl
  same_fuel zero y {fuel = suc s} {spare = suc t} enough = refl
  same_fuel (suc x) y {fuel = zero} {spare = t} (h, k) = absurd (omega (arith, h))
  same_fuel (suc x) y {fuel = suc s} {spare = zero} (h, k) = absurd (omega (arith, k))
  same_fuel (suc x) y {fuel = suc s} {spare = suc t} (h, k) =
      let smaller : (suc x / 2 ≤ s) × (suc x / 2 ≤ t) = (omega (arith, h), omega (arith, k)) in
      rw (same_fuel (suc x / 2) (y / 2) {fuel = s} {spare = t} smaller)

  -- One digit is split off.
  split_digit :
      (x y : ℕ)
      → let rest = bitwise low op (suc x / 2) (y / 2) in
        bitwise low op (suc x) y ≡ rest * 2 + op (suc x % 2) (y % 2)
  split_digit x y =
      let enough : (suc x / 2 ≤ x) × (suc x / 2 ≤ suc x / 2) = (omega arith, omega arith) in
      omega (arith, same_fuel (suc x / 2) (y / 2) enough)

pub bit_and_step : (x y : ℕ) → bit_and x y ≡ bit_and (x / 2) (y / 2) * 2 + min (x % 2) (y % 2)
bit_and_step zero y = simp bit_and-bitwise (omega arith)
bit_and_step (suc x) y = simp bit_and-bitwise (split_digit (λ t. 0) min x y)

differ_digits : (x y : ℕ) → x < 2 → y < 2 → differ x y ≡ (x + y) % 2
differ_digits zero y p q = omega arith
differ_digits (suc zero) zero p q = refl
differ_digits (suc zero) (suc zero) p q = refl
differ_digits (suc zero) (suc (suc y)) p q = absurd (omega arith)
differ_digits (suc (suc x)) y p q = absurd (omega arith)

pub zero-bit_xor : (b : ℕ) → bit_xor 0 b ≡ b
zero-bit_xor b = bit_xor-bitwise 0 b

bit_xor-differ : (a b : ℕ) → bit_xor a b ≡ bit_xor (a / 2) (b / 2) * 2 + differ (a % 2) (b % 2)
bit_xor-differ zero b = omega (
  arith,
  zero-bit_xor b,
  zero-bit_xor (b / 2),
  differ_digits 0 (b % 2) (omega arith) (omega arith),
)
bit_xor-differ (suc a) b = simp bit_xor-bitwise (split_digit (λ t. t) differ a b)

pub bit_or_step : (x y : ℕ) → bit_or x y ≡ bit_or (x / 2) (y / 2) * 2 + max (x % 2) (y % 2)
bit_or_step zero y = simp bit_or-bitwise (omega arith)
bit_or_step (suc x) y = simp bit_or-bitwise (split_digit (λ t. t) max x y)

pub bit_xor_step : (a b : ℕ) → bit_xor a b ≡ bit_xor (a / 2) (b / 2) * 2 + (a % 2 + b % 2) % 2
bit_xor_step a b =
    omega (arith, bit_xor-differ a b, differ_digits (a % 2) (b % 2) (omega arith) (omega arith))
