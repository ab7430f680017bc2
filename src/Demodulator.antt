-- ===== src/Demodulator.antt =====
-- src/demodulator_top.c: from the symbols of a located data field to soft values, and its children.
-- The search for the header and the carrier recovery are not here.
pub mod Frame
pub mod Decode
pub mod User
pub mod Lock
pub mod Stream
mod Tests
use open_vlsnr.Prelude.{ℕ, Bool, false, Option, none, some, List, get_or}
use open_vlsnr.Types.{Modcod, vlsnr_hdr_len}
use open_vlsnr.Layout.{VlsnrLayout}
use open_vlsnr.Pilot.{pilot_extract}
use open_vlsnr.Scrambler.{Scrambler, Complex, reset, seek, descramble_field}
use open_vlsnr.Mapping.{Doubles, demap_symbols, deinterleave}
use open_vlsnr.Puncture.{full_llr}
use open_vlsnr.Modulator.{is_qpsk}

module _ {ℓ} {A : Type ℓ} (ops : Doubles A) where
  -- The descrambling in `dvbs2x_demodulate_bbframe_symbols_ex`.
  pub descramble_data :
      Modcod → VlsnrLayout → Scrambler → List (Complex A) → Scrambler × List (Complex A)
  descramble_data mc lay descrambler field =
      descramble_field ops.neg (is_qpsk mc.modulation) (some (λ n. get_or lay.is_pilot n false)) 0
        (seek vlsnr_hdr_len (reset descrambler)) field

  -- From the descrambled field to `full_llr`, with the value 40.0 for the shortening zeros and 0.0 for
  -- the punctured bits; `none` is a read out of range. Each demapper's scale comes from the noise
  -- variance.
  pub field_llr : A → A → A → A → Modcod → VlsnrLayout → List (Complex A) → Option (List A)
  field_llr bpsk_scale qpsk_scale certain erased mc lay field =
      elim (pilot_extract field lay.is_pilot) [
        | none ↦ none
        | some (data_sym, pilots) ↦ some (
            full_llr certain erased mc
              (deinterleave mc (demap_symbols ops mc bpsk_scale qpsk_scale data_sym)))
      ]
