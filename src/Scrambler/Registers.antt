-- ===== src/Scrambler/Registers.antt =====
-- src/scrambler.c: the two registers and the ways to step them.
use open_vlsnr.Prelude.{
  ℕ, zero, suc, ◌+◌, ◌*◌, ◌/◌, ◌%◌, ◌^◌, ◌<◌, bit_and, bit_or, bit_xor, ◌≡◌, refl, sym, ap, ◌∙◌,
  arith,
}
use open_vlsnr.Bits.{bit_and_one, bit_and_step, bit_or_comm, bit_or_fields}
use open_vlsnr.Bits.Xor.{xor-mod-two, xor-lt}
use open_vlsnr.Scrambler.{
  Scrambler, parity_chk, shift_in, next_rn, advance_x, advance_x_by, init, seek,
}
use open_vlsnr.Scrambler.Parity.{parity_chk_lem, ones}

pub record IsRegister (scr : Scrambler) : Type 0 where
  pub x_fits : scr.x_reg < 2 ^ 18
  pub y_fits : scr.y_reg < 2 ^ 18

shift_in_sum : (reg bit : ℕ) → reg < 2 ^ 18 → bit < 2 → shift_in reg bit ≡ bit * 2 ^ 17 + reg / 2
unfolding shift_in
shift_in_sum reg zero h b = omega arith
shift_in_sum reg (suc zero) h b =
    bit_or_comm (reg / 2) 0x20000 ∙ bit_or_fields 17 1 (reg / 2) (omega arith)
shift_in_sum reg (suc (suc n)) h b = absurd (omega arith)

parity_chk-lt : (a b : ℕ) → parity_chk a b < 2
parity_chk-lt a b = omega (arith, parity_chk_lem a b)

-- A step keeps both registers within 18 bits, and returns a value from 0 to 3.
pub next_rn-IsRegister :
    {scr : Scrambler} → IsRegister scr → IsRegister (next_rn scr).1 × ((next_rn scr).0 < 4)
unfolding next_rn
next_rn-IsRegister {scr} v = omega (
  arith,
  parity_chk-lt scr.x_reg 0x0081,
  parity_chk-lt scr.y_reg 0x04A1,
  shift_in_sum scr.x_reg (parity_chk scr.x_reg 0x0081) v.x_fits (parity_chk-lt _ _),
  shift_in_sum scr.y_reg (parity_chk scr.y_reg 0x04A1) v.y_fits (parity_chk-lt _ _),
  xor-lt 1 (parity_chk scr.x_reg 0x8050) (parity_chk scr.y_reg 0xFF60) (parity_chk-lt _ _)
      (parity_chk-lt _ _),
  xor-lt 1 (bit_and scr.x_reg 1) (bit_and scr.y_reg 1) (omega (arith, bit_and_one scr.x_reg))
      (omega (arith, bit_and_one scr.y_reg)),
)

bit_and_even : (x m : ℕ) → bit_and x (m * 2) ≡ bit_and (x / 2) m * 2
bit_and_even x m =
    let half : m * 2 / 2 ≡ m = omega arith in
    let low : m * 2 % 2 ≡ 0 = omega arith in
    omega (arith, bit_and_step x (m * 2), ap (bit_and (x / 2)) half, low)

bit_and_64 : (x : ℕ) → bit_and x 64 ≡ x / 2 / 2 / 2 / 2 / 2 / 2 % 2 * 64
bit_and_64 x =
    bit_and_even x 32
    ∙ ap (λ (t : ℕ). t * 2) (bit_and_even (x / 2) 16)
    ∙ ap (λ (t : ℕ). t * 2 * 2) (bit_and_even (x / 2 / 2) 8)
    ∙ ap (λ (t : ℕ). t * 2 * 2 * 2) (bit_and_even (x / 2 / 2 / 2) 4)
    ∙ ap (λ (t : ℕ). t * 2 * 2 * 2 * 2) (bit_and_even (x / 2 / 2 / 2 / 2) 2)
    ∙ ap (λ (t : ℕ). t * 2 * 2 * 2 * 2 * 2) (bit_and_even (x / 2 / 2 / 2 / 2 / 2) 1)
    ∙ ap (λ (t : ℕ). t * 2 * 2 * 2 * 2 * 2 * 2) (bit_and_one (x / 2 / 2 / 2 / 2 / 2 / 2))
    ∙ omega arith

div_64 : (x : ℕ) → x / 2 / 2 / 2 / 2 / 2 / 2 ≡ x / 64
div_64 x = omega arith

-- The mask 0x0081 picks the bits 0 and 7.
mask_0x81 : (x : ℕ) → bit_and x 0x81 ≡ x % 2 + x / 128 % 2 * 128
mask_0x81 x =
    let high : bit_and (x / 2) 64 ≡ x / 2 / 64 % 2 * 64 =
      bit_and_64 (x / 2) ∙ ap (λ (t : ℕ). t % 2 * 64) (div_64 (x / 2)) in
    omega (arith, bit_and_step x 129, high)

two_ones : (p q : ℕ) → p < 2 → q < 2 → ones 32 (p + q * 128) % 2 ≡ (p + q) % 2
unfolding ones
two_ones zero zero a b = refl
two_ones zero (suc zero) a b = refl
two_ones (suc zero) zero a b = refl
two_ones (suc zero) (suc zero) a b = refl
two_ones p (suc (suc q)) a b = absurd (omega arith)
two_ones (suc (suc p)) q a b = absurd (omega arith)

parity_chk-0x81 : (x : ℕ) → parity_chk x 0x81 ≡ (x + x / 128) % 2
parity_chk-0x81 x = omega (
  arith,
  parity_chk_lem x 0x81,
  ap (λ (t : ℕ). ones 32 t % 2) (mask_0x81 x),
  two_ones (x % 2) (x / 128 % 2) (omega arith) (omega arith),
)

advance_x-eq-shift_in : (x : ℕ) → x < 2 ^ 18 → advance_x x ≡ shift_in x (parity_chk x 0x0081)
unfolding advance_x
advance_x-eq-shift_in x h =
    let b = bit_and (bit_xor x (x / 128)) 1 in
    let b_eq : b ≡ parity_chk x 0x81 =
      omega
        (arith, bit_and_one (bit_xor x (x / 128)), xor-mod-two x (x / 128), parity_chk-0x81 x) in
    let narrow : b * 2 ^ 17 % 2 ^ 32 ≡ parity_chk x 0x81 * 2 ^ 17 =
      omega (arith, parity_chk-lt x 0x81, b_eq) in
    ap (λ (t : ℕ). bit_or t (x / 2)) narrow
    ∙ bit_or_fields 17 (parity_chk x 0x81) (x / 2) (omega arith)
    ∙ sym (shift_in_sum x (parity_chk x 0x81) h (parity_chk-lt x 0x81))

-- Stepping the x register first, or seeking first, is the same.
seek-x_reg :
    (n : ℕ) (scr : Scrambler) → IsRegister scr → (seek n scr).x_reg ≡ advance_x_by n scr.x_reg
unfolding seek advance_x_by
seek-x_reg zero scr v = refl
seek-x_reg (suc n) scr v =
    seek-x_reg n (next_rn scr).1 (next_rn-IsRegister v).0
    ∙ ap (advance_x_by n) (unfold next_rn in sym (advance_x-eq-shift_in scr.x_reg v.x_fits))

init-zero : IsRegister (init 0)
unfolding init advance_x_by
init-zero = omega arith

-- However far a scrambler is moved on, its registers stay within 18 bits.
pub seek-IsRegister : (n : ℕ) {scr : Scrambler} → IsRegister scr → IsRegister (seek n scr)
unfolding seek
seek-IsRegister zero v = v
seek-IsRegister (suc n) v = seek-IsRegister n (next_rn-IsRegister v).0

-- The x register that `dvbs2x_scrambler_init` computes for a gold code is the one that a scrambler
-- of code 0 reaches by that many steps of `dvbs2x_scrambler_next_rn`; the y register starts at all
-- ones, and both registers are 18 bits wide.
pub init_lem :
    (gold_idx : ℕ)
    → ((init gold_idx).x_reg ≡ (seek gold_idx (init 0)).x_reg)
      × ((init gold_idx).y_reg ≡ 0x3FFFF)
      × IsRegister (init gold_idx)
unfolding init advance_x_by
init_lem gold_idx =
    let moved : (seek gold_idx (init 0)).x_reg ≡ advance_x_by gold_idx 1 =
      seek-x_reg gold_idx (init 0) init-zero in
    let wide : IsRegister (seek gold_idx (init 0)) = seek-IsRegister gold_idx init-zero in
    (sym moved, refl, record { x_fits = rw (← moved) wide.x_fits; y_fits = omega arith })
