-- ===== src/Bits/Fields.antt =====
-- `|` of disjoint fields and `&` with a low mask, as arithmetic.
use native.Mathlib.Nat.{pow-suc, one-le-pow}
use open_vlsnr.Prelude.{
  ℕ, zero, suc, ◌+◌, ◌-◌, ◌*◌, ◌/◌, ◌%◌, ◌^◌, ◌≤◌, ◌<◌, bit_and, bit_or, ◌≡◌, refl, ap, arith,
  ◌<<<◌,
}
use open_vlsnr.Bits.Step.{bit_or_step, bit_and_step}

-- Nothing set on the right: both operations at once, halving down to a bound of nothing.
right_zero : (bound : ℕ) {x : ℕ} → x ≤ bound → (bit_or x 0 ≡ x) × (bit_and x 0 ≡ 0)
right_zero bound {x = zero} small = (refl, refl)
right_zero zero {x = suc x} small = absurd (omega (arith, small))
right_zero (suc bound) {x = suc x} small =
    let (ors, ands) = right_zero bound {x = suc x / 2} (omega (arith, small)) in
    (omega (arith, ors, bit_or_step (suc x) 0), omega (arith, ands, bit_and_step (suc x) 0))

bit_and-zero : (x : ℕ) → bit_and x 0 ≡ 0
bit_and-zero x = (right_zero x {x = x} (omega arith)).1

pub mul-two-pow-suc : (x n : ℕ) → x * 2 ^ suc n ≡ 2 * (x * 2 ^ n)
mul-two-pow-suc x n = omega (arith, ap (λ (m : ℕ). x * m) (pow-suc 2 n))

bit_or_comm_fuel : (n a b : ℕ) → a ≤ n → b ≤ n → bit_or a b ≡ bit_or b a
bit_or_comm_fuel zero zero zero p q = refl
bit_or_comm_fuel zero zero (suc b) p q = absurd (omega arith)
bit_or_comm_fuel zero (suc a) b p q = absurd (omega arith)
bit_or_comm_fuel (suc n) a b p q = omega (
  arith,
  bit_or_step a b,
  bit_or_step b a,
  bit_or_comm_fuel n (a / 2) (b / 2) (omega arith) (omega arith),
)

pub bit_or_comm : (a b : ℕ) → bit_or a b ≡ bit_or b a
bit_or_comm a b = bit_or_comm_fuel (a + b) a b (omega arith) (omega arith)

-- A low field of `w` bits is put beside a high one by a sum.
pub bit_or_fields : (w high low : ℕ) → low < 2 ^ w → bit_or (high <<< w) low ≡ high * 2 ^ w + low
bit_or_fields zero high low small = ground (arith, (right_zero high {x = high} (omega arith)).0)
bit_or_fields (suc w) high low small =
    let rest = bit_or_fields w high (low / 2) (omega (arith, pow-suc 2 w)) in
    ground (arith, rest, mul-two-pow-suc high w, bit_or_step (high * 2 ^ suc w) low)

low_field : (w high low : ℕ) → low < 2 ^ w → bit_and (high * 2 ^ w + low) (2 ^ w - 1) ≡ low
low_field zero high low small = rw bit_and-zero (omega arith)
low_field (suc w) high low small =
    let rest = low_field w high (low / 2) (omega (arith, pow-suc 2 w)) in
    let doubled = mul-two-pow-suc high w in
    ground
      (arith, rest, pow-suc 2 w, doubled, bit_and_step (high * 2 ^ suc w + low) (2 ^ suc w - 1))

-- `w` ones as a mask take the remainder.
pub bit_and_mask : (w x : ℕ) → bit_and x (2 ^ w - 1) ≡ x % 2 ^ w
bit_and_mask w x =
    let parts = low_field w (x / 2 ^ w) (x % 2 ^ w) in ground (arith, parts, one-le-pow w 2)

pub bit_and_one : (a : ℕ) → bit_and a 1 ≡ a % 2
bit_and_one a = bit_and_mask 1 a
