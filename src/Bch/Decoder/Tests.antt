-- ===== src/Bch/Decoder/Tests.antt =====
-- The decoder of src/bch_decode.c on codewords of length 15 that correct two errors, and on one
-- of the library.
use open_vlsnr.Prelude.{
  ℕ, ◌≡◌, refl, true, none, some, List, ◌∷◌, ◌++◌, arith, All, All-replicate, replicate,
}
use open_vlsnr.Bits.Binary.{IsBinary}
use open_vlsnr.Modcod.{get_modcod, bpsk_1_5_short}
use open_vlsnr.Bch.{BchEncoder, bch_encode}
use open_vlsnr.Bch.Init.{bch_encoder_init, exp_loop}
use open_vlsnr.Bch.Decoder.{
  BchDecoder, gf_init, gf_mul, gf_inv, log_loop, syndrome_loop, syndromes_from, all_zero,
  discrepancy, shift_b, add_product, locator_round, locator_loop, eval_loop, chien_loop, flip_all,
  correct, decode_with, bch_decode, bch_decoder_init,
}
use open_vlsnr.Bch.Decoder.Flips.{Answered, bch_decode-Answered}
use open_vlsnr.Bch.Decoder.Single.{turned, bch_decode-turned}

abbrev fifteen : BchDecoder
fifteen = record { t = 2; n = 15; k = 7; parity_len = 8; gf_m = 4 }

abbrev zeros : ℕ → List ℕ
zeros n = replicate n 0

-- No error, one error and two errors in the word of zeros.
corrected :
    (decode_with (gf_init 4 0x13) fifteen (zeros 15) ≡ (some 0, zeros 15))
    × (decode_with (gf_init 4 0x13) fifteen (zeros 4 ++ 1 ∷ zeros 10) ≡ (some 1, zeros 15))
    × (decode_with (gf_init 4 0x13) fifteen (1 ∷ zeros 6 ++ 1 ∷ zeros 7) ≡ (some 2, zeros 15))
unfolding gf_init gf_mul gf_inv log_loop syndrome_loop syndromes_from all_zero discrepancy shift_b
    add_product locator_round locator_loop eval_loop chien_loop flip_all correct decode_with
    exp_loop
corrected = (refl, refl, refl)

-- Three errors are more than the code corrects; here the decoder notices.
noticed :
    decode_with (gf_init 4 0x13) fifteen (1 ∷ zeros 4 ++ 1 ∷ zeros 4 ++ 1 ∷ zeros 4)
    ≡ (none, 1 ∷ zeros 4 ++ 1 ∷ zeros 4 ++ 1 ∷ zeros 4)
unfolding gf_init gf_mul gf_inv log_loop syndrome_loop syndromes_from all_zero discrepancy shift_b
    add_product locator_round locator_loop eval_loop chien_loop flip_all correct decode_with
    exp_loop
noticed = refl

abbrev input : List ℕ
input = 1 ∷ zeros 3071

input-IsBinary : All IsBinary input
input-IsBinary = (omega arith, All-replicate IsBinary 3071 0 (omega arith))

bch_decode-Answered_example :
    let (ret, after) = bch_decode (bch_decoder_init bpsk_1_5_short) (1 ∷ zeros 3239) in
    Answered (bch_decoder_init bpsk_1_5_short) (1 ∷ zeros 3239) ret after
bch_decode-Answered_example = bch_decode-Answered bpsk_1_5_short (1 ∷ zeros 3239) (omega arith) refl

bch_decode-turned_example :
    (enc : BchEncoder) × (bch_encoder_init true bpsk_1_5_short ≡ some enc)
    × (bch_decode (bch_decoder_init bpsk_1_5_short) (turned 7 (bch_encode enc input))
        ≡ (some 1, bch_encode enc input))
unfolding get_modcod
bch_decode-turned_example = bch_decode-turned 7 input 7 refl refl input-IsBinary (omega arith)
