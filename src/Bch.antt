-- ===== src/Bch.antt =====
-- src/bch_encode.c: the product of binary polynomials and the systematic encoder.
pub mod Polynomial
pub mod Codeword
pub mod Init
pub mod Generator
pub mod Decoder
pub mod Binary
mod Tests
use open_vlsnr.Prelude.{
  ℕ, zero, suc, ◌+◌, ◌-◌, bit_and, bit_xor, Bool, true, false, List, [], ◌∷◌, ◌++◌, take, drop,
  get_or, replicate, set, sub_u32, ◌>>>◌, ◌==◌, if◌then◌else◌, reverse,
}
use open_vlsnr.Types.{Modcod, FrameType, normal, medium, short_frame}

-- DVBS2X_BCH_MAX_PARITY
abbrev pub bch_max_parity : ℕ
bch_max_parity = 192

-- `struct dvbs2x_bch_encoder`; the coefficient of x^j is entry j of `gen_poly`.
pub record BchEncoder : Type 0 where
  pub t : ℕ
  pub n : ℕ
  pub k : ℕ
  pub parity_len : ℕ
  pub gf_m : ℕ
  pub gen_poly : List ℕ

-- The degree of the field by frame type, and `prim_polys`.
pub field_degree : FrameType → ℕ
field_degree normal = 16
field_degree medium = 15
field_degree short_frame = 14

pub prim_poly : FrameType → ℕ
prim_poly normal = 0x1002D
prim_poly medium = 0x802D
prim_poly short_frame = 0x402B

-- The inner loop of `gf2_poly_mul`, from `j` on: `temp[i + j] ^= 1` for each set bit.
pub add_shifted : ℕ → ℕ → ℕ → ℕ → List ℕ → List ℕ
add_shifted zero i j b temp = temp
add_shifted (suc left) i j b temp =
    let next =
      if bit_and (b >>> j) 1 == 0
      then temp
      else set temp (i + j) (bit_xor (get_or temp (i + j) 0) 1) in
    add_shifted left i (j + 1) b next

-- The outer loop, over the coefficients of `a` from the `i`-th on.
pub poly_mul_loop : ℕ → List ℕ → ℕ → ℕ → List ℕ → List ℕ
poly_mul_loop i [] b deg_b temp = temp
poly_mul_loop i (zero ∷ a) b deg_b temp = poly_mul_loop (i + 1) a b deg_b temp
poly_mul_loop i (suc c ∷ a) b deg_b temp =
    poly_mul_loop (i + 1) a b deg_b (add_shifted (suc deg_b) i 0 b temp)

-- `gf2_poly_mul`: the coefficients of the product; its degree is `deg_a + deg_b`.
pub gf2_poly_mul : List ℕ → ℕ → ℕ → ℕ → List ℕ
gf2_poly_mul a deg_a b deg_b =
    let temp = replicate (bch_max_parity + 1) 0 in
    take (deg_a + deg_b + 1) (poly_mul_loop 0 (take (deg_a + 1) a) b deg_b temp)

-- `if (enc->gen_poly[j]) lfsr[j] = lfsr[j - 1] ^ fb; else lfsr[j] = lfsr[j - 1];`
abbrev pub feed : ℕ → ℕ → ℕ → ℕ
feed zero fb before = before
feed (suc g) fb before = bit_xor before fb

-- The register after a shift: each place takes the one before it. The loop of the code runs
-- downwards, so it reads the old values.
pub shift_register : ℕ → ℕ → List ℕ → List ℕ → List ℕ
shift_register fb before [] lfsr = []
shift_register fb before (g ∷ gen) [] = []
shift_register fb before (g ∷ gen) (r ∷ lfsr) = feed g fb before ∷ shift_register fb r gen lfsr

-- The last place of the register, `lfsr[parity_len - 1]`.
pub last_or : ℕ → List ℕ → ℕ
last_or d [] = d
last_or d (r ∷ lfsr) = last_or r lfsr

-- One round of the encoder: nothing comes before place 0.
pub bch_round : List ℕ → ℕ → List ℕ → List ℕ
bch_round gen bit lfsr = shift_register (bit_xor bit (last_or 0 lfsr)) 0 gen lfsr

pub bch_loop : List ℕ → List ℕ → List ℕ → List ℕ
bch_loop gen [] lfsr = lfsr
bch_loop gen (bit ∷ input) lfsr = bch_loop gen input (bch_round gen bit lfsr)

-- The register when the whole input has gone through it.
pub bch_register : BchEncoder → List ℕ → List ℕ
bch_register enc input =
    bch_loop (take enc.parity_len enc.gen_poly) (take enc.k input) (replicate enc.parity_len 0)

-- `dvbs2x_bch_encode`: the input, then the register from its last place down.
pub bch_encode : BchEncoder → List ℕ → List ℕ
bch_encode enc input = take enc.k input ++ reverse (bch_register enc input)
