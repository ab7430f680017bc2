-- ===== src/Demodulator/Tests.antt =====
-- A frame received as it was sent, with signs in place of doubles.
use open_vlsnr.Prelude.{
  ℕ, ◌≡◌, refl, true, none, some, List, [], ◌++◌, arith, drop, take, slice, map, replicate,
}
use open_vlsnr.Modcod.{get_modcod, bpsk_1_5_short}
use open_vlsnr.Layout.{VlsnrLayout, build_layout}
use open_vlsnr.Scrambler.{Complex}
use open_vlsnr.Ldpc.{ldpc_encode}
use open_vlsnr.Mapping.RoundTrip.{hard}
use open_vlsnr.Mapping.Signs.{
  Sign, above, nought, signs, is_below, signs-SignLaws, opposite-opposite,
}
use open_vlsnr.Puncture.RoundTrip.{marked}
use open_vlsnr.Modulator.{all_given, Modulated, ldpc_info, modulate_bbframe_symbols_ex}
use open_vlsnr.Modulator.Example.{set_up, ones, length-ones, ones-IsBinary}
use open_vlsnr.Demodulator.{descramble_data, field_llr}
use open_vlsnr.Demodulator.Frame.{field_llr-modulate_bbframe_symbols_ex}

abbrev pilot : Complex Sign
pilot = record { i = above; q = above }

field_llr-modulate_bbframe_symbols_ex_example :
    (out : Modulated Sign) × (lay : VlsnrLayout) × (llr : List Sign) × (modulate_bbframe_symbols_ex
        signs pilot all_given set_up.0 ones [] 16686
      ≡ some out)
    × (out.error ≡ none)
    × (build_layout bpsk_1_5_short true ≡ some lay)
    × (field_llr signs above above above nought bpsk_1_5_short lay
          (descramble_data signs bpsk_1_5_short lay set_up.0.scrambler
            (slice 990 lay.field_len out.symbols)).1
        ≡ some llr)
    × (let codeword = ldpc_encode set_up.0.ldpc_enc (ldpc_info set_up.0 bpsk_1_5_short ones) in
        map (hard is_below) llr
        ≡ replicate 0 (hard is_below above)
          ++ (take 3240 (drop 0 codeword)
              ++ marked (hard is_below nought) (λ (b : ℕ). b) 1224 10 0 (drop 3240 codeword)))
unfolding get_modcod
field_llr-modulate_bbframe_symbols_ex_example =
    field_llr-modulate_bbframe_symbols_ex signs is_below above above above nought (λ x. x ≡ above)
      signs-SignLaws opposite-opposite pilot 7 set_up.0 set_up.1 ones [] 16686 set_up.0.scrambler
      refl set_up.3 length-ones ones-IsBinary (omega arith) refl
