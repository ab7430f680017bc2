-- ===== src/Demodulator/Decode/Reuse.antt =====
-- The LDPC decoder that src/demodulator_top.c keeps from frame to frame.
use open_vlsnr.Prelude.{
  ℕ, ◌-◌, ◌≡◌, sym, ap, ◌∙◌, true, Option, none, some, AllFrom, AllFrom-get_elem?, arith, length,
  Bool-cases, inl, inr,
}
use open_vlsnr.Types.{Modcod}
use open_vlsnr.Modcod.{modcod_table, get_modcod}
use open_vlsnr.Modcod.Consistency.{get_modcod_table}
use open_vlsnr.Ldpc.Decoder.Built.{IsBuilt, decoder_of-IsBuilt, decoder_init_built}
use open_vlsnr.Ldpc.{Tables, LdpcCode, LdpcEncoder, encoder_init}
use open_vlsnr.Ldpc.Codes.{IsEncoderOf, encoder_init-IsEncoderOf, encoder_init_sizes, same_code}
use open_vlsnr.Ldpc.Decoder.{LdpcDecoder, Memory, decoder_init}
use open_vlsnr.Demodulator.Decode.{decoder_fits, decoder_for, ldpc_max_iter}

-- Two MODCODs with the same sizes of the LDPC code have the same rate and the same shift.
abbrev SameSizes : Modcod → ℕ → Modcod → Type 0
SameSizes mc j other =
    mc.fec_len ≡ other.fec_len
    → mc.k_ldpc ≡ other.k_ldpc
    → (mc.code_rate_den ≡ other.code_rate_den) × (mc.q_ldpc ≡ other.q_ldpc)

table-SameSizes : AllFrom (λ i mc. AllFrom (SameSizes mc) 1 modcod_table) 1 modcod_table
table-SameSizes = omega arith

get_modcod-SameSizes :
    (i j : ℕ) {mc other : Modcod}
    → get_modcod i ≡ some mc
    → get_modcod j ≡ some other
    → SameSizes mc j other
get_modcod-SameSizes i j {mc} e f =
    AllFrom-get_elem? (SameSizes mc) 1 modcod_table (j - 1)
      (AllFrom-get_elem? (λ i mc. AllFrom (SameSizes mc) 1 modcod_table) 1 modcod_table (i - 1)
        table-SameSizes (get_modcod_table i e))
      (get_modcod_table j f)

module _ (tables : Tables) where
  -- The decoder holds the matrix of the code of this MODCOD.
  abbrev pub IsDecoderOf : Modcod → LdpcDecoder → Type 0
  IsDecoderOf mc dec =
      (enc : LdpcEncoder) × (encoder_init tables mc ≡ some enc)
      × IsEncoderOf mc enc
      × IsBuilt enc.code dec

  -- What is kept between frames: nothing, or the decoder of some MODCOD of the table.
  abbrev pub IsKept : Option LdpcDecoder → Type 0
  IsKept none = Unit {0}
  IsKept (some dec) =
      (j : ℕ) × (other : Modcod) × (get_modcod j ≡ some other) × IsDecoderOf other dec

  decoder_init-IsDecoderOf :
      (i max_iter : ℕ) (memory : Memory) (dec : LdpcDecoder) {mc : Modcod}
      → get_modcod i ≡ some mc
      → ((n : ℕ) → length (memory.content n) ≡ n)
      → decoder_init tables mc max_iter memory ≡ some dec
      → IsDecoderOf mc dec
  decoder_init-IsDecoderOf i max_iter memory dec {mc} e given made =
      let (enc, ready, v) = encoder_init-IsEncoderOf tables i e in
      (
        enc,
        ready,
        v,
        rw (← decoder_init_built tables mc max_iter memory dec ready made)
            (decoder_of-IsBuilt enc max_iter memory v.info given),
      )

  kept_fits :
      (i : ℕ) (old dec : LdpcDecoder) {mc : Modcod}
      → get_modcod i ≡ some mc
      → IsKept (some old)
      → decoder_fits mc old ≡ true
      → some old ≡ some dec
      → IsDecoderOf mc dec
  unfolding decoder_fits
  kept_fits i old dec {mc} e (j, other, f, (enc', ready', v', built')) fits made =
      let (enc, ready, v) = encoder_init-IsEncoderOf tables i e in
      let (n, k) = encoder_init_sizes tables other ready' in
      let old_n : old.code.n ≡ other.fec_len = ap (λ (c : LdpcCode). c.n) built'.same ∙ n in
      let old_k : old.code.k ≡ other.k_ldpc = ap (λ (c : LdpcCode). c.k) built'.same ∙ k in
      let same_n : mc.fec_len ≡ other.fec_len = ground (arith, fits, old_n) in
      let same_k : mc.k_ldpc ≡ other.k_ldpc = ground (arith, fits, old_k) in
      let (den, q) = get_modcod-SameSizes i j e f same_n same_k in
      let code : enc'.code ≡ enc.code =
        sym (same_code tables mc other same_n same_k den q ready ready') in
      let same : old ≡ dec = cc in (enc, ready, v, rw (← same, ← code) built')

  -- For a MODCOD of the table, memory of the sizes asked for and a decoder that was kept from a frame
  -- of any MODCOD of the table, or none: the decoder that dvbs2x_demodulate_bbframe_symbols_ex uses
  -- holds the parity-check matrix of this MODCOD's own code, whether it was kept or is new.
  pub decoder_for-IsDecoderOf :
      (i : ℕ) (memory : Memory) (kept : Option LdpcDecoder) (dec : LdpcDecoder) {mc : Modcod}
      → get_modcod i ≡ some mc
      → ((n : ℕ) → length (memory.content n) ≡ n)
      → IsKept kept
      → decoder_for tables mc memory kept ≡ some dec
      → IsDecoderOf mc dec
  unfolding decoder_for
  decoder_for-IsDecoderOf i memory none dec e given before made =
      decoder_init-IsDecoderOf i ldpc_max_iter memory dec e given made
  decoder_for-IsDecoderOf i memory (some old) dec {mc} e given before made =
      elim (Bool-cases (decoder_fits mc old)) [
        | inl fits ↦ kept_fits i old dec e before fits (rw fits at made)
        | inr other ↦ decoder_init-IsDecoderOf i ldpc_max_iter memory dec e given (rw other at made)
      ]
