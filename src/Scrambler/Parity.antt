-- ===== src/Scrambler/Parity.antt =====
-- src/scrambler.c: `parity_chk` and the number of set bits.
use native.Mathlib.Nat.{pow-suc, div-div-eq-div-mul}
use open_vlsnr.Prelude.{
  ℕ, zero, suc, ◌+◌, ◌/◌, ◌%◌, ◌^◌, bit_and, bit_xor, ◌≡◌, refl, ap, ◌∙◌, arith,
}
use open_vlsnr.Bits.{bit_and_one}
use open_vlsnr.Bits.Xor.{xor-div-two, xor-mod-two}
use open_vlsnr.Scrambler.{parity_chk, fold_bits}

-- The number of ones among the lowest n bits.
unfoldable pub ones : ℕ → ℕ → ℕ
ones zero a = 0
ones (suc n) a = a % 2 + ones n (a / 2)

halve_by : ℕ → ℕ → ℕ
halve_by zero a = a
halve_by (suc n) a = halve_by n (a / 2)

halve_by-eq-div : (k a : ℕ) → halve_by k a ≡ a / 2 ^ k
unfolding halve_by
halve_by-eq-div zero a = omega arith
halve_by-eq-div (suc k) a =
    halve_by-eq-div k (a / 2)
    ∙ div-div-eq-div-mul a 2 (2 ^ k)
    ∙ ap (λ (t : ℕ). a / t) (omega (arith, pow-suc 2 k))

ones-add : (n m a : ℕ) → ones (n + m) a ≡ ones n a + ones m (halve_by n a)
unfolding ones halve_by
ones-add zero m a = let e : 0 + m ≡ m = omega arith in rw e (omega arith)
ones-add (suc n) m a =
    let shift : suc n + m ≡ suc (n + m) = omega arith in
    rw shift (omega (arith, ones-add n m (a / 2)))

ones-xor : (n a b : ℕ) → ones n (bit_xor a b) % 2 ≡ (ones n a + ones n b) % 2
unfolding ones
ones-xor zero a b = refl
ones-xor (suc n) a b =
    let ih : ones n (bit_xor a b / 2) % 2 ≡ (ones n (a / 2) + ones n (b / 2)) % 2 =
      ap (λ (t : ℕ). ones n t % 2) (xor-div-two a b) ∙ ones-xor n (a / 2) (b / 2) in
    omega (arith, xor-mod-two a b, ih)

-- Folding a word onto its lowest n bits keeps the parity of the lowest 2n.
ones-fold_bits : (n a : ℕ) → ones n (fold_bits n a) % 2 ≡ ones (n + n) a % 2
ones-fold_bits n a =
    omega (arith, ones-xor n a (a / 2 ^ n), ones-add n n a, ap (ones n) (halve_by-eq-div n a))

one_bit : (a : ℕ) → bit_and a 1 ≡ ones 1 a % 2
unfolding ones
one_bit a = omega (arith, bit_and_one a)

-- `parity_chk` is 1 when the lowest 32 bits of `a & b` hold an odd number of ones, and 0 when
-- they hold an even number.
pub parity_chk_lem : (a b : ℕ) → parity_chk a b ≡ ones 32 (bit_and a b) % 2
unfolding parity_chk
parity_chk_lem a b =
    let x16 = fold_bits 16 (bit_and a b) in
    let x8 = fold_bits 8 x16 in
    let x4 = fold_bits 4 x8 in
    let x2 = fold_bits 2 x4 in
    one_bit (fold_bits 1 x2)
    ∙ ones-fold_bits 1 x2
    ∙ ones-fold_bits 2 x4
    ∙ ones-fold_bits 4 x8
    ∙ ones-fold_bits 8 x16
    ∙ ones-fold_bits 16 (bit_and a b)
