-- ===== src/PlHeader/Tests.antt =====
-- A PL header made and recovered over whole numbers in place of doubles.
use open_vlsnr.Prelude.{
  ℕ, ◌+◌, ◌*◌, ◌≤◌, ◌<◌, ◌≡◌, refl, Bool, List, bit_and, take, drop, length, ltb, arith,
}
use open_vlsnr.Types.{set1}
use open_vlsnr.Modcod.Consistency.{set_code}
use open_vlsnr.Scrambler.{Complex}
use open_vlsnr.Mapping.{Doubles}
use open_vlsnr.PlHeader.{
  Comparison, pls_encode, select_rows, spread_word, scramble_bits, pl_const, header_symbols,
  plheader_generate, plsc_soft, correlate, code_corr, best_loop, plheader_recover, sof_len,
  plsc_len,
}
use open_vlsnr.PlHeader.Decision.{OrderLaws, IsBest, plheader_recover-IsBest}
use open_vlsnr.PlHeader.Distance.{distance, pls_encode-distance}

-- A whole number as a difference.
record Difference : Type 0 where
  gain : ℕ
  loss : ℕ

times : Difference → Difference → Difference
times x y = record {
  gain = x.gain * y.gain + x.loss * y.loss;
  loss = x.gain * y.loss + x.loss * y.gain;
}

abbrev whole : Doubles Difference
whole = record {
  neg = λ x. record { gain = x.loss; loss = x.gain };
  plus = λ x y. record { gain = x.gain + y.gain; loss = x.loss + y.loss };
  minus = λ x y. record { gain = x.gain + y.loss; loss = x.loss + y.gain };
  times = times;
  root_half = record { gain = 1; loss = 0 };
}

greater : Difference → Difference → Bool
greater x y = ltb (y.gain + x.loss) (x.gain + y.loss)

abbrev by_size : Comparison Difference
by_size = record {
  gt = greater;
  nought = record { gain = 0; loss = 0 };
  one = record { gain = 1; loss = 0 };
  lowest = record { gain = 0; loss = 1000 };
}

greater-OrderLaws : OrderLaws greater
unfolding greater
greater-OrderLaws = record { gt_trans = λ a b c. ground arith; gt_irrefl = λ a. ground arith }

abbrev header : List (Complex Difference)
header = plheader_generate whole 129

header_len : length header ≡ 90
unfolding plheader_generate header_symbols pls_encode select_rows spread_word scramble_bits
header_len = refl

recovered : plheader_recover whole by_size header ≡ 1
unfolding plheader_recover plsc_soft correlate code_corr best_loop greater times plheader_generate
    header_symbols pl_const pls_encode select_rows spread_word scramble_bits
recovered = refl

plheader_recover-IsBest_example :
    (best : ℕ) × (best < 256)
    × IsBest whole by_size
        (plsc_soft whole by_size sof_len (take plsc_len (drop sof_len header)))
        256
        best
    × (plheader_recover whole by_size header ≡ bit_and best 0x7F)
unfolding plsc_soft correlate code_corr greater times plheader_generate header_symbols pl_const
    pls_encode select_rows spread_word scramble_bits
plheader_recover-IsBest_example =
    plheader_recover-IsBest whole by_size greater-OrderLaws header refl

pls_encode-distance_example : 24 ≤ distance (pls_encode (set_code set1)) (pls_encode 131)
pls_encode-distance_example = pls_encode-distance set1 131 (omega arith) (omega arith)
