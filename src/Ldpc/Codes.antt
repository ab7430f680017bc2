-- ===== src/Ldpc/Codes.antt =====
-- `dvbs2x_ldpc_encoder_init` for the entries of the MODCOD table of src/modcod.c.
use open_vlsnr.Prelude.{
  ℕ, ◌+◌, ◌-◌, ◌*◌, ◌^◌, ◌<◌, ◌≡◌, refl, some, AllFrom, AllFrom-get_elem?, arith,
}
use open_vlsnr.Types.{Modcod, ldpc_parallel}
use open_vlsnr.Modcod.{modcod_table, get_modcod}
use open_vlsnr.Modcod.Consistency.{get_modcod_table}
use open_vlsnr.Ldpc.{Tables, LdpcEncoder, get_table, medium_table, short_table, encoder_init}

-- The encoder is set up for the code of the entry, and its sizes fit one another.
pub record IsEncoderOf (mc : Modcod) (enc : LdpcEncoder) : Type 0 where
  pub codeword : enc.code.n ≡ mc.fec_len
  pub bch_codeword : enc.code.k ≡ mc.nbch_eff + mc.xs
  pub groups : ldpc_parallel * enc.code.num_groups ≡ enc.code.k
  pub shifts : ldpc_parallel * enc.code.q ≡ enc.code.n - enc.code.k
  pub step : 0 < enc.code.q
  pub info : enc.code.k < enc.code.n
  pub bounded : enc.code.n < 2 ^ 32

module _ (tables : Tables) where
  abbrev Ready : ℕ → Modcod → Type 0
  Ready i mc = (enc : LdpcEncoder) × (encoder_init tables mc ≡ some enc) × IsEncoderOf mc enc

  table-Ready : AllFrom Ready 1 modcod_table
  unfolding encoder_init get_table medium_table short_table
  table-Ready = (
    (_, refl, omega arith),
    (
      (_, refl, omega arith),
      (
        (_, refl, omega arith),
        (
          (_, refl, omega arith),
          (
            (_, refl, omega arith),
            (
              (_, refl, omega arith),
              ((_, refl, omega arith), ((_, refl, omega arith), ((_, refl, omega arith), _))),
            ),
          ),
        ),
      ),
    ),
  )

  -- For every MODCOD of the table the switch finds an address table, and the encoder gets the
  -- codeword length and the information length of the entry; the groups of 360 bits use up the
  -- information part and the shifts of a group the parity part.
  pub encoder_init-IsEncoderOf :
      (i : ℕ) {mc : Modcod}
      → get_modcod i ≡ some mc
      → (enc : LdpcEncoder) × (encoder_init tables mc ≡ some enc) × IsEncoderOf mc enc
  encoder_init-IsEncoderOf i e =
      AllFrom-get_elem? Ready 1 modcod_table (i - 1) table-Ready (get_modcod_table i e)

  -- The code depends on the sizes, the rate and the shift only.
  pub same_code :
      (mc other : Modcod) {enc enc' : LdpcEncoder}
      → mc.fec_len ≡ other.fec_len
      → mc.k_ldpc ≡ other.k_ldpc
      → mc.code_rate_den ≡ other.code_rate_den
      → mc.q_ldpc ≡ other.q_ldpc
      → encoder_init tables mc ≡ some enc
      → encoder_init tables other ≡ some enc'
      → enc.code ≡ enc'.code
  unfolding encoder_init get_table medium_table short_table
  same_code mc other n k den q made made' = ground arith

  pub encoder_init_sizes :
      (mc : Modcod) {enc : LdpcEncoder}
      → encoder_init tables mc ≡ some enc
      → (enc.code.n ≡ mc.fec_len) × (enc.code.k ≡ mc.k_ldpc)
  unfolding encoder_init get_table medium_table short_table
  encoder_init_sizes mc made = ground arith
