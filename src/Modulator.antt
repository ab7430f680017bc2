-- ===== src/Modulator.antt =====
-- src/modulator_top.c: the modulator up to the symbols of a frame. The pulse shaping that
-- `dvbs2x_modulate_ex` applies to them is not here.
pub mod Frame
pub mod Setup
pub mod Outcomes
pub mod User
pub mod Example
mod Tests
use open_vlsnr.Prelude.{
  ℕ, zero, suc, ◌+◌, ◌-◌, ◌*◌, ◌/◌, Bool, true, false, not, ◌&&◌, ◌||◌, Option, none, some, List,
  [], ◌∷◌, ◌++◌, length, take, drop, replicate, get_or, slice, ltb, ◌==◌, if◌then◌else◌,
}
use open_vlsnr.Types.{
  Error, nomem, param, short, Modcod, Modulation, bpsk, qpsk, plheader_len, vlsnr_hdr_len,
  tx_coded_bits,
}
use open_vlsnr.Modcod.{get_modcod}
use open_vlsnr.Layout.{VlsnrLayout, build_layout}
use open_vlsnr.Pilot.{pilot_insert}
use open_vlsnr.Scrambler.{Scrambler, Complex, init, reset, seek, scramble_field}
use open_vlsnr.BbFrame.{BbFrameCtx, gs, bb_frame_init, bb_frame_build}
use open_vlsnr.Bch.{BchEncoder, bch_encode}
use open_vlsnr.Bch.Init.{bch_encoder_init}
use open_vlsnr.Ldpc.{Tables, LdpcEncoder, encoder_init, ldpc_encode}
use open_vlsnr.Mapping.{Doubles, map_bits}
use open_vlsnr.Puncture.{sent_bits}
use open_vlsnr.PlHeader.{plheader_generate}
use open_vlsnr.VlsnrHeader.{vlsnr_header_generate}

-- DVBS2X_GOLD_CODE_MAX
abbrev pub gold_code_max : ℕ
gold_code_max = 262141

-- `struct dvbs2x_modulator` without its filter; `ro` is the code that `dvbs2x_ro_from_rolloff`
-- gives for the configured roll-off.
pub record Modulator : Type 0 where
  pub modcod : Option Modcod
  pub ro : ℕ
  pub sps : ℕ
  pub pl_scrambling_idx : ℕ
  pub bb_ctx : BbFrameCtx
  pub bch_enc : BchEncoder
  pub ldpc_enc : LdpcEncoder
  pub scrambler : Scrambler

-- The checks of `dvbs2x_rrc_filter_init` on the number of taps, for DVBS2X_FILTER_MAX_TAPS.
abbrev pub filter_max_taps : ℕ
filter_max_taps = 256

pub filter_fits : ℕ → ℕ → Bool
filter_fits sps span = not (
    ltb sps 2
    || span == 0
    || ltb ((filter_max_taps - 1) / 2 / sps) span
    || ltb filter_max_taps (2 * span * sps + 1))

-- `dvbs2x_modulator_init`; `none` is DVBS2X_ERR_PARAM, the only error. `in_range` tells whether the
-- roll-off lies between 0.05 and 0.35.
pub modulator_init : Tables → Bool → ℕ → Bool → ℕ → ℕ → ℕ → Option Modulator
modulator_init tables allocated modcod_idx in_range ro sps pl_scrambling_idx =
    elim (get_modcod modcod_idx) [
      | none ↦ none
      | some mc ↦
          if ltb sps 2 || not in_range || ltb gold_code_max pl_scrambling_idx
          then none
          else elim (bch_encoder_init allocated mc) [
            | none ↦ none
            | some bch_enc ↦ elim (encoder_init tables mc) [
              | none ↦ none
              | some ldpc_enc ↦
                  if filter_fits sps 16
                  then some (record {
                    modcod = some mc;
                    ro = ro;
                    sps = sps;
                    pl_scrambling_idx = pl_scrambling_idx;
                    bb_ctx = bb_frame_init mc gs;
                    bch_enc = bch_enc;
                    ldpc_enc = ldpc_enc;
                    scrambler = init pl_scrambling_idx;
                  })
                  else none
            ]
          ]
    ]

abbrev pub is_qpsk : Modulation → Bool
is_qpsk qpsk = true
is_qpsk bpsk = false

-- `num_tx_sym`
abbrev pub num_tx_sym : Modcod → ℕ
num_tx_sym mc =
    if is_qpsk mc.modulation
    then tx_coded_bits mc / 2
    else if mc.has_spread
    then tx_coded_bits mc * 2
    else tx_coded_bits mc

abbrev pub hdr_len : ℕ
hdr_len = plheader_len + vlsnr_hdr_len

-- The LDPC information word: shortening zeros, then the BCH codeword.
pub ldpc_info : Modulator → Modcod → List ℕ → List ℕ
ldpc_info tx mc bbframe = replicate mc.xs 0 ++ take mc.n_bch (bch_encode tx.bch_enc bbframe)

-- `tx_bits`
unfoldable pub tx_bits : Modulator → Modcod → List ℕ → List ℕ
tx_bits tx mc bbframe = sent_bits mc (ldpc_encode tx.ldpc_enc (ldpc_info tx mc bbframe))

-- Which of the calls of `malloc` for a frame give their memory; `is_pilot` is the layout's map.
pub record FrameMemory : Type 0 where
  pub bch_out : Bool
  pub ldpc_info : Bool
  pub ldpc_cw : Bool
  pub tx_bits : Bool
  pub is_pilot : Bool
  pub spread_bits : Bool
  pub tx_sym : Bool

-- All of them.
abbrev pub all_given : FrameMemory
all_given = record {
  bch_out = true;
  ldpc_info = true;
  ldpc_cw = true;
  tx_bits = true;
  is_pilot = true;
  spread_bits = true;
  tx_sym = true;
}

-- The memory that the mapping of a MODCOD asks for.
pub symbol_memory : Modcod → FrameMemory → Bool
symbol_memory mc given =
    if is_qpsk mc.modulation
    then given.tx_sym
    else if mc.has_spread
    then given.spread_bits && given.tx_sym
    else given.tx_sym

-- What a call leaves behind: its error, `*sym_len`, the memory of `symbols` and the modulator.
pub record Modulated {ℓ} (A : Type ℓ) : Type ℓ where
  pub error : Option Error
  pub sym_len : ℕ
  pub symbols : List (Complex A)
  pub modulator : Modulator

module _ {ℓ} {A : Type ℓ} (ops : Doubles A) (pilot : Complex A) where
  -- The scrambled data field, `tx_sym` and the pilots in it; `none` is a read out of range.
  pub data_field :
      Modulator → Modcod → VlsnrLayout → List (Complex A) → Option (Scrambler × List (Complex A))
  data_field tx mc lay tx_sym = elim (pilot_insert pilot tx_sym lay.is_pilot) [
    | none ↦ none
    | some field ↦ some (
        scramble_field ops.neg (is_qpsk mc.modulation) (some (λ n. get_or lay.is_pilot n false)) 0
          (seek vlsnr_hdr_len (reset tx.scrambler)) field)
  ]

  -- The memory of the VL-SNR header after the call for it, which may write nothing.
  abbrev pub header_memory : Modcod → List (Complex A) → List (Complex A)
  header_memory mc symbols = elim (vlsnr_header_generate ops mc) [
    | none ↦ slice plheader_len vlsnr_hdr_len symbols
    | some header ↦ header
  ]

  abbrev failed : Modulator → List (Complex A) → Error → ℕ → Option (Modulated A)
  failed tx symbols e len =
      some (record { error = some e; sym_len = len; symbols = symbols; modulator = tx })

  -- The body behind the layout, once the lengths agree and the output has room.
  pub write_frame :
      Modulator → Modcod → VlsnrLayout → List (Complex A) → List (Complex A) → Option (Modulated A)
  write_frame tx mc lay tx_sym symbols = elim (data_field tx mc lay tx_sym) [
    | none ↦ none
    | some (scrambler, field) ↦ some (record {
      error = none;
      sym_len = hdr_len + lay.field_len;
      symbols =
          plheader_generate ops mc.pls_code
          ++ (header_memory mc symbols ++ (field ++ drop (hdr_len + lay.field_len) symbols));
      modulator = record tx { scrambler = scrambler };
    })
  ]

  -- The body behind the layout: the memory for the symbols, the check of the lengths and of the room.
  pub send_frame :
      FrameMemory
      → Modulator
      → Modcod
      → List ℕ
      → List (Complex A)
      → ℕ
      → VlsnrLayout
      → Option (Modulated A)
  send_frame given tx mc bbframe symbols symbol_capacity lay =
      if not (symbol_memory mc given)
      then failed tx symbols nomem 0
      else if not (num_tx_sym mc == lay.num_data)
      then failed tx symbols param 0
      else if ltb symbol_capacity (hdr_len + lay.field_len)
      then failed tx symbols short (hdr_len + lay.field_len)
      else write_frame tx mc lay (map_bits ops mc (tx_bits tx mc bbframe)) symbols

  -- `dvbs2x_modulate_bbframe_symbols_ex`, its pointers not NULL; the outer `none` is a read out of
  -- range.
  pub modulate_bbframe_symbols_ex :
      FrameMemory → Modulator → List ℕ → List (Complex A) → ℕ → Option (Modulated A)
  modulate_bbframe_symbols_ex given tx bbframe symbols symbol_capacity = elim tx.modcod [
    | none ↦ failed tx symbols param 0
    | some mc ↦
        if not given.bch_out || (not given.ldpc_info || (not given.ldpc_cw || not given.tx_bits))
        then failed tx symbols nomem 0
        else elim (build_layout mc given.is_pilot) [
          | none ↦ failed tx symbols nomem 0
          | some lay ↦ send_frame given tx mc bbframe symbols symbol_capacity lay
        ]
  ]

  -- `dvbs2x_modulate_symbols_ex`, its pointers not NULL; `allocated` tells whether `malloc` gives the
  -- memory for `bbframe`, and `memory` is what it holds.
  pub modulate_symbols_ex :
      Bool → FrameMemory → Modulator → List ℕ → List ℕ → List (Complex A) → ℕ → Option (Modulated A)
  modulate_symbols_ex allocated given tx user_data memory symbols symbol_capacity = elim tx.modcod [
    | none ↦ failed tx symbols param 0
    | some mc ↦
        if ltb tx.bb_ctx.dfl (length user_data)
        then failed tx symbols param 0
        else if not allocated
        then failed tx symbols nomem 0
        else let tx' = record tx { bb_ctx = record tx.bb_ctx { ro = tx.ro } } in
          let (error, bbframe) = bb_frame_build tx'.bb_ctx user_data memory in
          elim error [
            | some e ↦ failed tx' symbols e 0
            | none ↦ modulate_bbframe_symbols_ex given tx' bbframe symbols symbol_capacity
          ]
  ]
