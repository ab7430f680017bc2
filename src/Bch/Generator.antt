-- ===== src/Bch/Generator.antt =====
-- src/bch_encode.c: the generator polynomials of the three fields.
use mathlib.Core.Path.{subst}
use open_vlsnr.Prelude.{
  ℕ, zero, suc, ◌-◌, ◌*◌, ◌≤◌, ◌≡◌, refl, ap, ◌∙◌, bit_xor, Option, some, List, [], ◌∷◌, ◌++◌,
  length, drop, get_or, All, Bool, true, ◌&&◌, arith, ltb, ◌==◌, sub_u32,
}
use open_vlsnr.Bits.{all_below, all_below_sound}
use open_vlsnr.Types.{Modcod, FrameType, normal, medium, short_frame}
use open_vlsnr.Modcod.{get_modcod}
use open_vlsnr.Modcod.Consistency.{bch_parity, get_modcod-IsConsistent}
use open_vlsnr.Bch.{BchEncoder, gf2_poly_mul, poly_mul_loop, add_shifted, prim_poly, field_degree}
use open_vlsnr.Bch.Polynomial.{IsBit}
use open_vlsnr.Bch.Codeword.{IsBchEncoder}
use open_vlsnr.Bch.Init.{
  exp_loop, exp_table, reduce_vec, add_pivot, dependency, compute_min_poly, is_visited,
  mark_conjugates, root_loop, Generator, bch_encoder_init,
}

-- The value of a polynomial at the k-th power of the field's generator: its terms are read from
-- the table of powers at steps of k.
unfoldable pub value_at : ℕ → List ℕ → List ℕ → ℕ
value_at k [] powers = 0
value_at k (zero ∷ coeffs) powers = value_at k coeffs (drop k powers)
value_at k (suc c ∷ coeffs) powers = bit_xor (get_or powers 0 0) (value_at k coeffs (drop k powers))

abbrev pub field_powers : FrameType → List ℕ
field_powers ft = exp_table (field_degree ft) (prim_poly ft)

abbrev pub IsRoot : FrameType → List ℕ → ℕ → Type 0
IsRoot ft coeffs k = value_at k coeffs (field_powers ft) ≡ 0

abbrev root_run : FrameType → Option Generator
root_run ft =
    root_loop (field_degree ft) (field_powers ft) 24 1 [] (record { coeffs = 1 ∷ []; degree = 0 })

bits : List ℕ → Bool
bits [] = true
bits (c ∷ coeffs) = ltb c 2 && bits coeffs

All-bits : (coeffs : List ℕ) → bits coeffs ≡ true → All IsBit coeffs
unfolding bits
All-bits [] h = _
All-bits (c ∷ coeffs) h =
    let (small, rest) : (ltb c 2 ≡ true) × (bits coeffs ≡ true) = ground (arith, h) in
    let bit : c ≤ 1 = ground (arith, small) in (bit, All-bits coeffs rest)

-- The generator polynomials below their leading coefficients.
abbrev normal_low : List ℕ
normal_low =
    1 ∷ 1 ∷ 1 ∷ 0 ∷ 0 ∷ 1 ∷ 1 ∷ 1 ∷ 1 ∷ 0 ∷ 1 ∷ 0 ∷ 1 ∷ 0 ∷ 1 ∷ 0 ∷ 0 ∷ 1 ∷ 0 ∷ 0 ∷ 0 ∷ 0 ∷ 0 ∷ 0
    ∷ 0 ∷ 1 ∷ 1 ∷ 0 ∷ 0 ∷ 1 ∷ 1 ∷ 0 ∷ 1 ∷ 1 ∷ 1 ∷ 0 ∷ 1 ∷ 1 ∷ 1 ∷ 1 ∷ 1 ∷ 0 ∷ 1 ∷ 0 ∷ 0 ∷ 0 ∷ 0 ∷ 1
    ∷ 1 ∷ 1 ∷ 1 ∷ 0 ∷ 0 ∷ 0 ∷ 1 ∷ 0 ∷ 1 ∷ 1 ∷ 0 ∷ 0 ∷ 0 ∷ 0 ∷ 0 ∷ 0 ∷ 1 ∷ 0 ∷ 0 ∷ 1 ∷ 0 ∷ 0 ∷ 0 ∷ 1
    ∷ 0 ∷ 0 ∷ 0 ∷ 1 ∷ 0 ∷ 0 ∷ 0 ∷ 0 ∷ 1 ∷ 0 ∷ 1 ∷ 0 ∷ 1 ∷ 1 ∷ 0 ∷ 0 ∷ 0 ∷ 0 ∷ 1 ∷ 1 ∷ 1 ∷ 0 ∷ 1 ∷ 1
    ∷ 0 ∷ 0 ∷ 0 ∷ 1 ∷ 1 ∷ 0 ∷ 1 ∷ 1 ∷ 0 ∷ 0 ∷ 1 ∷ 1 ∷ 0 ∷ 1 ∷ 0 ∷ 0 ∷ 1 ∷ 1 ∷ 1 ∷ 1 ∷ 0 ∷ 0 ∷ 1 ∷ 1
    ∷ 0 ∷ 0 ∷ 0 ∷ 0 ∷ 1 ∷ 0 ∷ 1 ∷ 0 ∷ 0 ∷ 0 ∷ 1 ∷ 1 ∷ 1 ∷ 0 ∷ 0 ∷ 0 ∷ 1 ∷ 0 ∷ 0 ∷ 0 ∷ 1 ∷ 0 ∷ 1 ∷ 0
    ∷ 0 ∷ 0 ∷ 1 ∷ 1 ∷ 1 ∷ 0 ∷ 1 ∷ 0 ∷ 0 ∷ 0 ∷ 1 ∷ 0 ∷ 0 ∷ 0 ∷ 0 ∷ 1 ∷ 1 ∷ 1 ∷ 0 ∷ 0 ∷ 0 ∷ 0 ∷ 0 ∷ 1
    ∷ 0 ∷ 1 ∷ 1 ∷ 1 ∷ 0 ∷ 0 ∷ 0 ∷ 0 ∷ 0 ∷ 1 ∷ 1 ∷ 0 ∷ 0 ∷ 1 ∷ 0 ∷ 0 ∷ 0 ∷ 1 ∷ 1 ∷ 1 ∷ 0 ∷ 0 ∷ 1 ∷ 0
    ∷ []

abbrev medium_low : List ℕ
medium_low =
    1 ∷ 1 ∷ 0 ∷ 1 ∷ 0 ∷ 0 ∷ 0 ∷ 0 ∷ 1 ∷ 0 ∷ 0 ∷ 0 ∷ 0 ∷ 0 ∷ 1 ∷ 0 ∷ 0 ∷ 0 ∷ 0 ∷ 1 ∷ 1 ∷ 0 ∷ 1 ∷ 1
    ∷ 1 ∷ 1 ∷ 0 ∷ 0 ∷ 0 ∷ 0 ∷ 1 ∷ 1 ∷ 1 ∷ 1 ∷ 1 ∷ 1 ∷ 0 ∷ 1 ∷ 0 ∷ 0 ∷ 0 ∷ 0 ∷ 1 ∷ 0 ∷ 1 ∷ 1 ∷ 1 ∷ 0
    ∷ 1 ∷ 0 ∷ 1 ∷ 0 ∷ 1 ∷ 1 ∷ 0 ∷ 0 ∷ 0 ∷ 1 ∷ 1 ∷ 0 ∷ 1 ∷ 0 ∷ 1 ∷ 0 ∷ 1 ∷ 1 ∷ 0 ∷ 0 ∷ 1 ∷ 1 ∷ 0 ∷ 0
    ∷ 1 ∷ 0 ∷ 1 ∷ 0 ∷ 0 ∷ 0 ∷ 0 ∷ 1 ∷ 0 ∷ 0 ∷ 0 ∷ 0 ∷ 0 ∷ 1 ∷ 0 ∷ 1 ∷ 0 ∷ 1 ∷ 1 ∷ 0 ∷ 1 ∷ 1 ∷ 1 ∷ 1
    ∷ 1 ∷ 1 ∷ 0 ∷ 1 ∷ 1 ∷ 0 ∷ 0 ∷ 1 ∷ 1 ∷ 1 ∷ 0 ∷ 0 ∷ 0 ∷ 0 ∷ 0 ∷ 0 ∷ 0 ∷ 1 ∷ 0 ∷ 0 ∷ 0 ∷ 0 ∷ 0 ∷ 1
    ∷ 1 ∷ 0 ∷ 0 ∷ 1 ∷ 0 ∷ 0 ∷ 0 ∷ 0 ∷ 1 ∷ 0 ∷ 1 ∷ 1 ∷ 0 ∷ 0 ∷ 0 ∷ 1 ∷ 1 ∷ 0 ∷ 0 ∷ 0 ∷ 0 ∷ 0 ∷ 0 ∷ 0
    ∷ 0 ∷ 0 ∷ 0 ∷ 0 ∷ 1 ∷ 1 ∷ 0 ∷ 1 ∷ 1 ∷ 0 ∷ 1 ∷ 1 ∷ 1 ∷ 1 ∷ 1 ∷ 0 ∷ 1 ∷ 1 ∷ 0 ∷ 1 ∷ 1 ∷ 1 ∷ 0 ∷ 1
    ∷ 0 ∷ 0 ∷ 1 ∷ 0 ∷ 0 ∷ 0 ∷ 0 ∷ 1 ∷ 0 ∷ 1 ∷ 0 ∷ 1 ∷ []

abbrev short_low : List ℕ
short_low =
    1 ∷ 0 ∷ 1 ∷ 0 ∷ 0 ∷ 1 ∷ 0 ∷ 1 ∷ 1 ∷ 0 ∷ 1 ∷ 0 ∷ 0 ∷ 0 ∷ 0 ∷ 0 ∷ 1 ∷ 0 ∷ 0 ∷ 1 ∷ 1 ∷ 0 ∷ 0 ∷ 0
    ∷ 1 ∷ 0 ∷ 0 ∷ 0 ∷ 1 ∷ 0 ∷ 1 ∷ 1 ∷ 1 ∷ 1 ∷ 1 ∷ 0 ∷ 1 ∷ 0 ∷ 1 ∷ 1 ∷ 1 ∷ 1 ∷ 1 ∷ 0 ∷ 0 ∷ 1 ∷ 1 ∷ 1
    ∷ 1 ∷ 1 ∷ 1 ∷ 1 ∷ 0 ∷ 0 ∷ 0 ∷ 1 ∷ 0 ∷ 1 ∷ 0 ∷ 0 ∷ 1 ∷ 0 ∷ 1 ∷ 0 ∷ 1 ∷ 0 ∷ 0 ∷ 1 ∷ 0 ∷ 1 ∷ 1 ∷ 0
    ∷ 0 ∷ 0 ∷ 0 ∷ 0 ∷ 1 ∷ 0 ∷ 0 ∷ 1 ∷ 1 ∷ 1 ∷ 0 ∷ 0 ∷ 0 ∷ 1 ∷ 0 ∷ 1 ∷ 1 ∷ 1 ∷ 0 ∷ 0 ∷ 0 ∷ 1 ∷ 0 ∷ 0
    ∷ 1 ∷ 0 ∷ 1 ∷ 1 ∷ 0 ∷ 0 ∷ 1 ∷ 1 ∷ 0 ∷ 1 ∷ 0 ∷ 0 ∷ 0 ∷ 1 ∷ 1 ∷ 0 ∷ 0 ∷ 1 ∷ 0 ∷ 0 ∷ 1 ∷ 1 ∷ 0 ∷ 1
    ∷ 1 ∷ 0 ∷ 0 ∷ 1 ∷ 0 ∷ 1 ∷ 1 ∷ 0 ∷ 0 ∷ 0 ∷ 0 ∷ 1 ∷ 1 ∷ 0 ∷ 0 ∷ 1 ∷ 0 ∷ 1 ∷ 0 ∷ 1 ∷ 0 ∷ 1 ∷ 1 ∷ 1
    ∷ 1 ∷ 1 ∷ 0 ∷ 1 ∷ 1 ∷ 0 ∷ 1 ∷ 1 ∷ 0 ∷ 1 ∷ 0 ∷ 0 ∷ 0 ∷ 1 ∷ 1 ∷ 0 ∷ 0 ∷ 0 ∷ 0 ∷ 0 ∷ 0 ∷ 0 ∷ 1 ∷ 0
    ∷ []

abbrev generator_low : FrameType → List ℕ
generator_low normal = normal_low
generator_low medium = medium_low
generator_low short_frame = short_low

abbrev generator : FrameType → Generator
generator ft = record { coeffs = generator_low ft ++ (1 ∷ []); degree = bch_parity ft }

runs : (ft : FrameType) → root_run ft ≡ some (generator ft)
unfolding field_degree prim_poly gf2_poly_mul poly_mul_loop add_shifted exp_loop exp_table
    reduce_vec add_pivot dependency compute_min_poly is_visited mark_conjugates root_loop
runs normal = refl
runs medium = refl
runs short_frame = refl

abbrev root_test : FrameType → ℕ → Bool
root_test ft k = value_at (suc k) (generator_low ft ++ (1 ∷ [])) (field_powers ft) == 0

roots_checked : (ft : FrameType) → all_below 24 (root_test ft) ≡ true
unfolding value_at all_below field_degree prim_poly exp_loop exp_table
roots_checked normal = refl
roots_checked medium = refl
roots_checked short_frame = refl

sizes :
    (ft : FrameType)
    → (length (generator_low ft) ≡ bch_parity ft) × (bits (generator_low ft) ≡ true)
unfolding bits
sizes normal = (refl, refl)
sizes medium = (refl, refl)
sizes short_frame = (refl, refl)

roots_lem : (ft : FrameType) (k : ℕ) → 1 ≤ k → k ≤ 24 → IsRoot ft (generator_low ft ++ (1 ∷ [])) k
roots_lem ft k low high =
    let h =
      all_below_sound 24 (root_test ft) (k - 1) (roots_checked ft) (omega (arith, low, high)) in
    let at : suc (k - 1) ≡ k = omega (arith, low) in
    subst (λ (j : ℕ). IsRoot ft (generator_low ft ++ (1 ∷ [])) j) at (ground (arith, h))

parity_small : (ft : FrameType) → bch_parity ft ≤ 192
parity_small normal = omega arith
parity_small medium = omega arith
parity_small short_frame = omega arith

abbrev encoder_of : Modcod → BchEncoder
encoder_of mc = record {
  t = mc.bch_t;
  n = mc.n_bch;
  k = mc.k_bch;
  parity_len = sub_u32 mc.n_bch mc.k_bch;
  gf_m = field_degree mc.frame_type;
  gen_poly = generator_low mc.frame_type ++ (1 ∷ []);
}

init_lem :
    (mc : Modcod)
    → mc.bch_t ≡ 12
    → bch_parity mc.frame_type ≡ sub_u32 mc.n_bch mc.k_bch
    → bch_encoder_init true mc ≡ some (encoder_of mc)
unfolding bch_encoder_init
init_lem mc power degree =
    let twice : 2 * mc.bch_t ≡ 24 = omega (arith, power) in
    let good =
      ap
        (λ (n : ℕ).
          root_loop (field_degree mc.frame_type) (field_powers mc.frame_type) n 1 []
            (record { coeffs = 1 ∷ []; degree = 0 }))
        twice
      ∙ runs mc.frame_type in
    let fits : (bch_parity mc.frame_type == sub_u32 mc.n_bch mc.k_bch) ≡ true =
      ground (arith, degree) in
    rw (good, fits, bch_encoder_init) refl

-- For every MODCOD of the table, once the memory of the power table is there, the encoder is set
-- up: its generator polynomial has the degree n - k and the leading coefficient 1, and the first
-- 2 t = 24 powers of the field's generator are among its roots.
pub bch_encoder_init-IsBchEncoder :
    (i : ℕ) {mc : Modcod}
    → get_modcod i ≡ some mc
    → (enc : BchEncoder) × (low : List ℕ) × (bch_encoder_init true mc ≡ some enc)
      × IsBchEncoder enc low
      × (enc.k ≡ mc.k_bch)
      × (enc.n ≡ mc.n_bch)
      × ((k : ℕ) → 1 ≤ k → k ≤ 24 → IsRoot mc.frame_type enc.gen_poly k)
bch_encoder_init-IsBchEncoder i {mc} e =
    let (low, high, at, v) = get_modcod-IsConsistent i e in
    let ft = mc.frame_type in
    let (size, binary) = sizes ft in
    let degree : bch_parity ft ≡ sub_u32 mc.n_bch mc.k_bch =
      omega (arith, v.bch, parity_small ft) in
    (
      encoder_of mc,
      generator_low ft,
      init_lem mc v.bch_power degree,
      record {
        generator = refl;
        degree = size ∙ degree;
        binary = All-bits (generator_low ft) binary;
        lengths = omega (arith, v.bch, degree);
      },
      refl,
      refl,
      roots_lem ft,
    )
