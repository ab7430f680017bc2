-- ===== src/Modulator/Example.antt =====
-- A modulator for BPSK 1/5 of the short frame, and a BB frame for it.
use open_vlsnr.Prelude.{
  ℕ, ◌≡◌, refl, true, some, List, [], arith, All, All-replicate, replicate, length,
  length-replicate,
}
use open_vlsnr.Bits.Binary.{IsBinary}
use open_vlsnr.Modcod.{get_modcod, bpsk_1_5_short}
use open_vlsnr.Scrambler.{init}
use open_vlsnr.BbFrame.{gs, bb_frame_init}
use open_vlsnr.Ldpc.{Tables}
use open_vlsnr.Modulator.{Modulator, modulator_init}
use open_vlsnr.Modulator.Frame.{IsModulator}
use open_vlsnr.Modulator.Setup.{modulator_init-IsModulator}

abbrev pub no_addresses : Tables
no_addresses = record {
  n64800_r2_9 = [];
  n32400_r1_5 = [];
  n32400_r11_45 = [];
  n32400_r1_3 = [];
  n16200_r1_5 = [];
  n16200_r11_45 = [];
  n16200_r4_15 = [];
  n16200_r1_3 = [];
}

-- The modulator that this set-up gives, and its generator polynomial.
abbrev pub set_up :
    (tx : Modulator) × (low : List ℕ) × (modulator_init no_addresses true 7 true 2 4 100 ≡ some tx)
    × IsModulator tx bpsk_1_5_short low
    × (tx.bb_ctx ≡ bb_frame_init bpsk_1_5_short gs)
    × (tx.scrambler ≡ init 100)
unfolding get_modcod
set_up =
    modulator_init-IsModulator no_addresses 7 2 4 100 refl (omega arith) (omega arith) (omega arith)

abbrev pub ones : List ℕ
ones = replicate 3072 1

pub length-ones : length ones ≡ 3072
length-ones = length-replicate {A = ℕ} 3072 1

pub ones-IsBinary : All IsBinary ones
ones-IsBinary = All-replicate IsBinary 3072 1 (omega arith)
