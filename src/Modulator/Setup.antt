-- ===== src/Modulator/Setup.antt =====
-- `dvbs2x_modulator_init` of src/modulator_top.c.
use open_vlsnr.Prelude.{ℕ, ◌≤◌, ◌≡◌, refl, true, false, ◌||◌, some, List, arith, ltb}
use open_vlsnr.Bits.{all_below, all_below_sound}
use open_vlsnr.Types.{Modcod}
use open_vlsnr.Modcod.{get_modcod}
use open_vlsnr.Scrambler.{init}
use open_vlsnr.BbFrame.{gs, bb_frame_init}
use open_vlsnr.Bch.Generator.{bch_encoder_init-IsBchEncoder}
use open_vlsnr.Ldpc.{Tables}
use open_vlsnr.Ldpc.Codes.{encoder_init-IsEncoderOf}
use open_vlsnr.Modulator.{Modulator, modulator_init, filter_fits, gold_code_max}
use open_vlsnr.Modulator.Frame.{IsModulator}

fits_checked : all_below 8 (λ s. ltb s 2 || filter_fits s 16) ≡ true
unfolding all_below filter_fits
fits_checked = refl

filter_fits_lem : (sps : ℕ) → 2 ≤ sps → sps ≤ 7 → filter_fits sps 16 ≡ true
filter_fits_lem sps low high =
    let h =
      all_below_sound 8 (λ s. ltb s 2 || filter_fits s 16) sps fits_checked (omega (arith, high)) in
    ground (arith, h, low)

-- For an index of the table, 2 to 7 samples a symbol, a roll-off in range and a Gold code up to the
-- largest, `dvbs2x_modulator_init` succeeds once the memory is there: the modulator is set up for
-- that MODCOD, its BB frames carry a generic stream and its scrambler starts from the Gold code.
pub modulator_init-IsModulator :
    (tables : Tables) (i ro sps gold : ℕ) {mc : Modcod}
    → get_modcod i ≡ some mc
    → 2 ≤ sps
    → sps ≤ 7
    → gold ≤ gold_code_max
    → (tx : Modulator) × (low : List ℕ) × (modulator_init tables true i true ro sps gold ≡ some tx)
      × IsModulator tx mc low
      × (tx.bb_ctx ≡ bb_frame_init mc gs)
      × (tx.scrambler ≡ init gold)
unfolding modulator_init
modulator_init-IsModulator tables i ro sps gold {mc} e low_sps high_sps small =
    let (bch_enc, low, made_bch, bch, bch_k, bch_n, roots) = bch_encoder_init-IsBchEncoder i e in
    let (ldpc_enc, made_ldpc, ldpc) = encoder_init-IsEncoderOf tables i e in
    let inside : (ltb sps 2 || false || ltb gold_code_max gold) ≡ false =
      ground (arith, low_sps, small) in
    let fits = filter_fits_lem sps low_sps high_sps in
    (
      record {
        modcod = some mc;
        ro = ro;
        sps = sps;
        pl_scrambling_idx = gold;
        bb_ctx = bb_frame_init mc gs;
        bch_enc = bch_enc;
        ldpc_enc = ldpc_enc;
        scrambler = init gold;
      },
      low,
      simp (e, inside, made_bch, made_ldpc, fits, modulator_init),
      record { modcod = refl; bch = bch; bch_k = bch_k; bch_n = bch_n; ldpc = ldpc },
      refl,
      refl,
    )
