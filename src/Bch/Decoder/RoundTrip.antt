-- ===== src/Bch/Decoder/RoundTrip.antt =====
-- `dvbs2x_bch_decode` (src/bch_decode.c) on what `dvbs2x_bch_encode` gives.
use native.Mathlib.Nat.{mul-le-mul}
use open_vlsnr.Prelude.{
  ℕ, ◌+◌, ◌-◌, ◌*◌, ◌^◌, ◌≤◌, ◌<◌, ◌≡◌, refl, sym, ap, ◌∙◌, true, some, List, [], ◌∷◌, length,
  length-append, reverse, arith, All, drop, take, All-append,
}
use mathlib.Core.Path.{subst}
use open_vlsnr.Bits.Binary.{IsBinary}
use open_vlsnr.Types.{FrameType, normal, medium, short_frame, Modcod}
use open_vlsnr.Modcod.{get_modcod}
use open_vlsnr.Modcod.Consistency.{get_modcod-IsConsistent, bch_parity, code_length}
use open_vlsnr.Bch.{BchEncoder, bch_encode, field_degree, prim_poly}
use open_vlsnr.Bch.Init.{exp_loop, exp_table, bch_encoder_init}
use open_vlsnr.Bch.Generator.{IsRoot, value_at, bch_encoder_init-IsBchEncoder}
use open_vlsnr.Bch.Codeword.{bch_encode-IsMultiple}
use open_vlsnr.Bch.Binary.{bch_encode-IsBinary}
use open_vlsnr.Bch.Decoder.{
  GfTables, BchDecoder, gf_init, gf_prim_poly, syndromes_from, syndrome_loop, all_zero, decode_with,
  bch_decode, bch_decoder_init,
}
use open_vlsnr.Bch.Decoder.Evaluation.{value, value_at-value}
use open_vlsnr.Bch.Decoder.Syndromes.{
  multiple_value, whole_syndrome, all_zero-syndromes_from, field_repeats,
}

-- Both files name the same polynomial for a field.
pub same_poly : (ft : FrameType) → gf_prim_poly (field_degree ft) ≡ prim_poly ft
unfolding gf_prim_poly field_degree prim_poly
same_poly normal = refl
same_poly medium = refl
same_poly short_frame = refl

-- The field is large enough for the 24 roots of a generator polynomial and for the codewords.
pub field_room :
    (ft : FrameType)
    → (bch_parity ft ≤ 192)
      × (24 * 193 < 2 ^ field_degree ft - 1)
      × (code_length ft ≤ 64800)
      × (code_length ft ≤ 2 ^ field_degree ft - 1)
unfolding field_degree
field_room normal = (omega arith, omega arith, omega arith, omega arith)
field_room medium = (omega arith, omega arith, omega arith, omega arith)
field_room short_frame = (omega arith, omega arith, omega arith, omega arith)

IsRoot-value :
    (ft : FrameType) (gen : List ℕ) (i : ℕ)
    → All IsBinary gen
    → length gen ≤ 193
    → i ≤ 24
    → IsRoot ft gen i
    → value (field_degree ft) (prim_poly ft) i 0 gen ≡ 0
unfolding exp_table
IsRoot-value ft gen i bits len high root =
    let m : ℕ = field_degree ft in
    let n : ℕ = 2 ^ m - 1 in
    let (few, room, short, wide) = field_room ft in
    let fits : i * (0 + length gen) < n =
      omega
        (arith, mul-le-mul high (let le : 0 + length gen ≤ 193 = omega (arith, len) in le), room) in
    sym (value_at-value m (prim_poly ft) i n 0 gen bits fits)
    ∙ ap (λ (k : ℕ). value_at i gen (drop k (exp_loop n m (prim_poly ft) 1)))
        (let z : i * 0 ≡ 0 = omega arith in z)
    ∙ root

decode_clean :
    (gf : GfTables) (dec : BchDecoder) (codeword : List ℕ)
    → all_zero (syndromes_from gf dec.n codeword (2 * dec.t) 1) ≡ true
    → decode_with gf dec codeword ≡ (some 0, codeword)
unfolding decode_with
decode_clean gf dec codeword h = rw (h, decode_with) refl

-- The codewords of an encoder that `dvbs2x_bch_encoder_init` has set up, and the field of their
-- decoder.
pub record IsBchWord (mc : Modcod) (codeword : List ℕ) : Type 0 where
  pub size : length codeword ≡ mc.n_bch
  pub binary : All IsBinary codeword
  pub roots :
      (j : ℕ)
      → 1 ≤ j
      → j ≤ 24
      → value (field_degree mc.frame_type) (prim_poly mc.frame_type) j 0 (reverse codeword) ≡ 0
  pub small : mc.n_bch ≤ 64800
  pub inside : mc.n_bch ≤ 2 ^ field_degree mc.frame_type - 1
  pub power : mc.bch_t ≡ 12

pub bch_encode-IsBchWord :
    (i : ℕ) {mc : Modcod} (input : List ℕ)
    → get_modcod i ≡ some mc
    → length input ≡ mc.k_bch
    → All IsBinary input
    → (enc : BchEncoder) × (bch_encoder_init true mc ≡ some enc)
      × IsBchWord mc (bch_encode enc input)
bch_encode-IsBchWord i {mc} input e size bits =
    let (low_i, high_i, at, v) = get_modcod-IsConsistent i e in
    let (enc, low, made, good, k_at, n_at, roots) = bch_encoder_init-IsBchEncoder i e in
    let (len, front, (q, multiple)) = bch_encode-IsMultiple enc low input good (size ∙ sym k_at) in
    let ft = mc.frame_type in
    let (few, room, short, wide) = field_room ft in
    let gen_bits : All IsBinary enc.gen_poly =
      subst (All IsBinary) (sym good.generator)
        (All-append IsBinary low (1 ∷ []) good.binary (omega arith, _)) in
    let gen_len : length enc.gen_poly ≤ 193 = omega (
      arith,
      ap length good.generator,
      length-append low (1 ∷ []),
      good.degree,
      good.lengths,
      k_at,
      n_at,
      v.bch,
      few,
    ) in
    (
      enc,
      made,
      record {
        size = len ∙ n_at;
        binary = bch_encode-IsBinary enc input bits;
        roots = λ j from high.
            multiple_value (field_degree ft) (prim_poly ft) (field_repeats ft) (omega (arith, room))
              j q enc.gen_poly (bch_encode enc input)
              (IsRoot-value ft enc.gen_poly j gen_bits gen_len high (roots j from high)) multiple;
        small = omega (arith, v.shortening, v.circulant, v.frame, short);
        inside = omega (arith, v.shortening, v.circulant, v.frame, wide);
        power = v.bch_power;
      },
    )

-- For every MODCOD of the table the encoder is set up, and dvbs2x_bch_decode of a codeword that
-- dvbs2x_bch_encode makes of k bits tells 0 errors and leaves the codeword as it is.
pub bch_decode-bch_encode :
    (i : ℕ) {mc : Modcod} (input : List ℕ)
    → get_modcod i ≡ some mc
    → length input ≡ mc.k_bch
    → All IsBinary input
    → (enc : BchEncoder) × (bch_encoder_init true mc ≡ some enc)
      × (bch_decode (bch_decoder_init mc) (bch_encode enc input) ≡ (some 0, bch_encode enc input))
unfolding bch_decode bch_decoder_init
bch_decode-bch_encode i {mc} input e size bits =
    let (enc, made, v) = bch_encode-IsBchWord i input e size bits in
    let codeword = bch_encode enc input in
    let ft = mc.frame_type in
    let (few, room, short, wide) = field_room ft in
    let gf = gf_init (field_degree ft) (prim_poly ft) in
    let clean : (j : ℕ)
        → 1 ≤ j
        → j < 1 + 2 * mc.bch_t
        → syndrome_loop gf mc.n_bch j 0 (take mc.n_bch codeword) 0 ≡ 0 =
      λ j from below.
        let high : j ≤ 24 = omega (arith, below, v.power) in
        whole_syndrome (field_degree ft) (prim_poly ft) (field_repeats ft) (omega (arith, room))
          mc.n_bch j codeword v.binary v.size (omega (arith, mul-le-mul high v.small))
        ∙ v.roots j from high in
    (
      enc,
      made,
      ap (λ (p : ℕ). decode_with (gf_init (field_degree ft) p) (bch_decoder_init mc) codeword)
            (same_poly ft)
          ∙ decode_clean gf (bch_decoder_init mc) codeword
              (all_zero-syndromes_from gf mc.n_bch codeword (2 * mc.bch_t) 1 clean),
    )
