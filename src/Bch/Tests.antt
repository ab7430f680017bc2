-- ===== src/Bch/Tests.antt =====
-- The encoder of src/bch_encode.c on the Hamming code of x^3 + x + 1.
use open_vlsnr.Prelude.{
  ℕ, ◌≤◌, ◌≡◌, refl, true, some, List, [], ◌∷◌, ◌++◌, arith, length, take, reverse,
}
use open_vlsnr.Bch.{
  BchEncoder, bch_encode, bch_register, bch_loop, bch_round, shift_register, last_or, gf2_poly_mul,
  poly_mul_loop, add_shifted,
}
use open_vlsnr.Types.{short_frame}
use open_vlsnr.Modcod.{get_modcod, bpsk_1_5_short}
use open_vlsnr.Bch.Init.{bch_encoder_init}
use open_vlsnr.Bch.Generator.{IsRoot, bch_encoder_init-IsBchEncoder}
use open_vlsnr.Bch.Polynomial.{mul}
use open_vlsnr.Bch.Codeword.{IsBchEncoder, bch_encode-IsMultiple}

abbrev hamming : BchEncoder
hamming = record { t = 1; n = 7; k = 4; parity_len = 3; gf_m = 3; gen_poly = 1 ∷ 1 ∷ 0 ∷ 1 ∷ [] }

abbrev message : List ℕ
message = 1 ∷ 0 ∷ 1 ∷ 1 ∷ []

hamming-IsBchEncoder : IsBchEncoder hamming (1 ∷ 1 ∷ 0 ∷ [])
hamming-IsBchEncoder = record {
  generator = refl;
  degree = refl;
  binary = omega arith;
  lengths = refl;
}

-- x^6 + x^4 + x^3 leaves the remainder 1 after the division.
hamming_word : bch_encode hamming message ≡ 1 ∷ 0 ∷ 1 ∷ 1 ∷ 0 ∷ 0 ∷ 0 ∷ []
unfolding bch_encode bch_register bch_loop bch_round shift_register last_or
hamming_word = refl

-- (1 + x) (1 + x + x^2)
product : gf2_poly_mul (1 ∷ 1 ∷ []) 1 7 2 ≡ 1 ∷ 0 ∷ 0 ∷ 1 ∷ []
unfolding gf2_poly_mul poly_mul_loop add_shifted
product = refl

bch_encode-IsMultiple_example :
    let codeword = bch_encode hamming message in
    (length codeword ≡ 7)
    × (take 4 codeword ≡ message)
    × ((quotient : List ℕ) × (mul quotient (1 ∷ 1 ∷ 0 ∷ 1 ∷ []) ≡ reverse codeword ++ (0 ∷ [])))
bch_encode-IsMultiple_example =
    bch_encode-IsMultiple hamming (1 ∷ 1 ∷ 0 ∷ []) message hamming-IsBchEncoder refl

bch_encoder_init-IsBchEncoder_example :
    (enc : BchEncoder) × (low : List ℕ) × (bch_encoder_init true bpsk_1_5_short ≡ some enc)
    × IsBchEncoder enc low
    × (enc.k ≡ 3072)
    × (enc.n ≡ 3240)
    × ((k : ℕ) → 1 ≤ k → k ≤ 24 → IsRoot short_frame enc.gen_poly k)
unfolding get_modcod
bch_encoder_init-IsBchEncoder_example = bch_encoder_init-IsBchEncoder 7 refl
