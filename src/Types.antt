-- ===== src/Types.antt =====
-- include/dvbs2x_types.h: the error codes, the frame constants and the MODCOD record.
use open_vlsnr.Prelude.{ℕ, ◌+◌, ◌-◌, ◌%◌, ◌^◌, Bool}

-- The negative results of the API.
pub data Error : Type 0 where
  nomem param nosync fec crc short cancelled : Error

pub data Result {ℓ} (A : Type ℓ) : Type ℓ where
  ok : A → Result A
  err : Error → Result A

abbrev pub ldpc_normal : ℕ
ldpc_normal = 64800

abbrev pub ldpc_medium : ℕ
ldpc_medium = 32400

abbrev pub ldpc_short : ℕ
ldpc_short = 16200

abbrev pub ldpc_parallel : ℕ
ldpc_parallel = 360

abbrev pub num_modcods : ℕ
num_modcods = 9

-- The lengths that the header declares for the symbols of a whole VL-SNR frame.
abbrev pub frame_long : ℕ
frame_long = 33282

abbrev pub frame_short : ℕ
frame_short = 16686

abbrev pub plheader_len : ℕ
plheader_len = 90

abbrev pub vlsnr_hdr_len : ℕ
vlsnr_hdr_len = 900

abbrev pub pls_vlsnr_set1 : ℕ
pls_vlsnr_set1 = 129

abbrev pub pls_vlsnr_set2 : ℕ
pls_vlsnr_set2 = 131

pub data Modulation : Type 0 where
  bpsk qpsk : Modulation

pub data FrameType : Type 0 where
  normal medium short_frame : FrameType

pub data VlsnrSet : Type 0 where
  set1 set2 : VlsnrSet

-- `struct dvbs2x_modcod`
pub record Modcod : Type 0 where
  pub index : ℕ
  pub modulation : Modulation
  pub frame_type : FrameType
  pub fec_len : ℕ
  pub code_rate_num : ℕ
  pub code_rate_den : ℕ
  pub has_spread : Bool
  pub vlsnr_set : VlsnrSet
  pub pls_code : ℕ
  pub k_bch : ℕ
  pub n_bch : ℕ
  pub bch_t : ℕ
  pub k_ldpc : ℕ
  pub q_ldpc : ℕ
  pub xs : ℕ
  pub xp : ℕ
  pub p_period : ℕ
  pub nbch_eff : ℕ

-- `dvbs2x_tx_coded_bits`. The C subtraction wraps; every entry of the table has
-- `xs + xp ≤ fec_len`.
abbrev pub tx_coded_bits : Modcod → ℕ
tx_coded_bits mc = (mc.fec_len + 2 ^ 32 - mc.xs + 2 ^ 32 - mc.xp) % 2 ^ 32
