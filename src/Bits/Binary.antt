-- ===== src/Bits/Binary.antt =====
-- The values 0 and 1.
use open_vlsnr.Prelude.{ℕ, ◌≤◌, bit_xor, arith}
use open_vlsnr.Bits.Xor.{xor-lt}

abbrev pub IsBinary : ℕ → Type 0
IsBinary b = b ≤ 1

pub bit_xor-IsBinary : (a b : ℕ) → IsBinary a → IsBinary b → IsBinary (bit_xor a b)
bit_xor-IsBinary a b h k = omega (arith, xor-lt 1 a b (omega (arith, h)) (omega (arith, k)))
