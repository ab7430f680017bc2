-- ===== src/Streaming/Crc32/Tests.antt =====
-- The check value of CRC-32, and the theorems on its input.
use open_vlsnr.Prelude.{ℕ, ◌≡◌, refl, List, [], ◌∷◌, arith, bit_xor}
use open_vlsnr.Streaming.Crc32.{crc32, crc32_loop, crc32_step}
use open_vlsnr.Streaming.Crc32.Reference.{divide_bytes, crc32-eq-divide}

abbrev digits : List ℕ
digits = b'1' ∷ b'2' ∷ b'3' ∷ b'4' ∷ b'5' ∷ b'6' ∷ b'7' ∷ b'8' ∷ b'9' ∷ []

crc32-digits : crc32 digits ≡ 0xCBF43926
unfolding crc32 crc32_loop crc32_step
crc32-digits = refl

crc32-eq-divide_example : crc32 digits ≡ bit_xor (divide_bytes 0xFFFFFFFF digits) 0xFFFFFFFF
crc32-eq-divide_example = crc32-eq-divide digits (omega arith)
