-- ===== src/VlsnrHeader/Tests.antt =====
-- Two patterns, and a byte of the first.
use open_vlsnr.Prelude.{◌≡◌, refl, [], ◌∷◌, length, arith}
use open_vlsnr.VlsnrHeader.{
  plus_one, minus_one, chip_product, chip, byte_chips, vlsnr_generate_pattern,
}
use open_vlsnr.VlsnrHeader.Patterns.{agree, vlsnr_generate_pattern-orthogonal}

-- 0xFB, kept.
first_byte :
    byte_chips plus_one 8 0xFB
    ≡ minus_one ∷ minus_one ∷ minus_one ∷ minus_one ∷ minus_one ∷ plus_one ∷ minus_one ∷ minus_one
      ∷ []
unfolding byte_chips chip chip_product
first_byte = refl

vlsnr_generate_pattern-orthogonal_example :
    (length (vlsnr_generate_pattern 4) ≡ 896)
    × (agree (vlsnr_generate_pattern 4) (vlsnr_generate_pattern 9) ≡ 448)
vlsnr_generate_pattern-orthogonal_example =
    vlsnr_generate_pattern-orthogonal 4 9 (omega arith) (omega arith) (omega arith)
