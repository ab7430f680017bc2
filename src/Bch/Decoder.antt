-- ===== src/Bch/Decoder.antt =====
-- src/bch_decode.c: the decoder of BCH codewords.

pub mod Powers
pub mod Evaluation
pub mod Syndromes
pub mod Tables
pub mod RoundTrip
pub mod SingleLocator
pub mod SingleSearch
pub mod Single
pub mod Places
pub mod Flips
mod Tests
use open_vlsnr.Prelude.{
  ℕ, zero, suc, ◌+◌, ◌-◌, ◌*◌, ◌%◌, ◌^◌, bit_and, bit_xor, Bool, true, false, ◌&&◌, Option, none,
  some, List, [], ◌∷◌, ◌++◌, map, length, take, drop, get_or, set, replicate, ltb, leb, ◌==◌,
  if◌then◌else◌, sub_u32, u32, ◌<<<◌,
}
use open_vlsnr.Types.{Modcod}
use open_vlsnr.Bch.{field_degree}
use open_vlsnr.Bch.Init.{exp_loop}

-- `struct gf_tables`, less the degree and the polynomial that only `gf_init` reads.
pub record GfTables : Type 0 where
  pub n : ℕ
  pub exp_table : List ℕ
  pub log_table : List ℕ

-- `gf_prim_polys`
pub gf_prim_poly : ℕ → ℕ
gf_prim_poly m =
    if m == 14 then 0x402B else if m == 15 then 0x802D else if m == 16 then 0x1002D else 0

-- The stores of the loop of `gf_init` into `log_table`, from power i on; those into `exp_table` are
-- the loop of the encoder.
pub log_loop : ℕ → ℕ → ℕ → ℕ → ℕ → List ℕ → List ℕ
log_loop zero m poly i reg log = log
log_loop (suc left) m poly i reg log =
    let doubled = reg <<< 1 in
    log_loop left m poly (i + 1)
      (if bit_and doubled (2 ^ m) == 0 then doubled else bit_xor doubled poly) (set log reg i)

-- `gf_init` for a polynomial. `log_table[0]`, set to -1, is never read.
pub gf_init : ℕ → ℕ → GfTables
gf_init m poly =
    let powers = exp_loop (2 ^ m - 1) m poly 1 in
    record {
      n = 2 ^ m - 1;
      exp_table = powers ++ powers;
      log_table = log_loop (2 ^ m - 1) m poly 0 1 (replicate (2 ^ m) 0);
    }

-- `gf_mul`
pub gf_mul : GfTables → ℕ → ℕ → ℕ
gf_mul gf zero b = 0
gf_mul gf (suc a) zero = 0
gf_mul gf (suc a) (suc b) =
    get_or gf.exp_table (get_or gf.log_table (suc a) 0 + get_or gf.log_table (suc b) 0) 0

-- `gf_inv`
pub gf_inv : GfTables → ℕ → ℕ
gf_inv gf zero = 0
gf_inv gf (suc a) = get_or gf.exp_table (gf.n - get_or gf.log_table (suc a) 0) 0

-- `struct dvbs2x_bch_decoder`; nothing sets or reads its `gen_poly`.
pub record BchDecoder : Type 0 where
  pub t : ℕ
  pub n : ℕ
  pub k : ℕ
  pub parity_len : ℕ
  pub gf_m : ℕ

-- `dvbs2x_bch_decoder_init`; there is no other frame type.
pub bch_decoder_init : Modcod → BchDecoder
bch_decoder_init mc = record {
  t = mc.bch_t;
  n = mc.n_bch;
  k = mc.k_bch;
  parity_len = sub_u32 mc.n_bch mc.k_bch;
  gf_m = field_degree mc.frame_type;
}

-- The inner loop over the codeword that computes syndrome i, from bit n on.
pub syndrome_loop : GfTables → ℕ → ℕ → ℕ → List ℕ → ℕ → ℕ
syndrome_loop gf size i n [] acc = acc
syndrome_loop gf size i n (zero ∷ codeword) acc = syndrome_loop gf size i (n + 1) codeword acc
syndrome_loop gf size i n (suc c ∷ codeword) acc =
    syndrome_loop gf size i (n + 1) codeword
      (bit_xor acc (get_or gf.exp_table (u32 (i * (size - 1 - n)) % gf.n) 0))

-- Syndromes i, i + 1, ...
pub syndromes_from : GfTables → ℕ → List ℕ → ℕ → ℕ → List ℕ
syndromes_from gf size codeword zero i = []
syndromes_from gf size codeword (suc left) i =
    syndrome_loop gf size i 0 (take size codeword) 0 ∷ syndromes_from gf size codeword left (i + 1)

-- The test that all syndromes are zero.
pub all_zero : List ℕ → Bool
all_zero [] = true
all_zero (zero ∷ syndromes) = all_zero syndromes
all_zero (suc s ∷ syndromes) = false

-- The variables of the Berlekamp-Massey loop.
pub record Locator : Type 0 where
  pub sigma : List ℕ
  pub b : List ℕ
  pub l : ℕ

-- The discrepancy loop, from term i on; entry j of the list is syndrome j.
pub discrepancy : GfTables → List ℕ → List ℕ → ℕ → ℕ → ℕ → ℕ → ℕ
discrepancy gf sigma syndromes n zero i d = d
discrepancy gf sigma syndromes n (suc left) i d =
    discrepancy gf sigma syndromes n left (i + 1)
      (bit_xor d (gf_mul gf (get_or sigma i 0) (get_or syndromes (n - i) 0)))

-- `x * b(x)`, in the entries up to 2 t.
pub shift_b : ℕ → List ℕ → List ℕ
shift_b t b = 0 ∷ (take (2 * t) b ++ drop (2 * t + 1) b)

-- The loop `sigma_new[i + 1] ^= d * b[i]`, from i on.
pub add_product : GfTables → ℕ → List ℕ → ℕ → ℕ → List ℕ → List ℕ
add_product gf d b zero i sigma_new = sigma_new
add_product gf d b (suc left) i sigma_new =
    let v = gf_mul gf d (get_or b i 0) in
    let next =
      if get_or b i 0 == 0
      then sigma_new
      else set sigma_new (i + 1) (bit_xor (get_or sigma_new (i + 1) 0) v) in
    add_product gf d b left (i + 1) next

-- One round of Berlekamp-Massey.
pub locator_round : GfTables → ℕ → List ℕ → ℕ → Locator → Locator
locator_round gf t syndromes n s =
    let d = discrepancy gf s.sigma syndromes n s.l 1 (get_or syndromes n 0) in
    let sigma_new = add_product gf d s.b (2 * t) 0 s.sigma in
    let scaled =
      map (λ (c : ℕ). gf_mul gf c (gf_inv gf d)) (take (2 * t + 1) s.sigma)
      ++ drop (2 * t + 1) s.b in
    if d == 0
    then record s { b = shift_b t s.b }
    else if leb (2 * s.l) (n - 1)
    then record { sigma = sigma_new; b = scaled; l = n - s.l }
    else record s { sigma = sigma_new; b = shift_b t s.b }

-- The loop, from round n on. The arrays `syndromes`, `sigma` and `b` have 25 entries, room for t up
-- to 12, as for every MODCOD of the table; the lists have no bound of their own.
pub locator_loop : GfTables → ℕ → List ℕ → ℕ → ℕ → Locator → Locator
locator_loop gf t syndromes zero n s = s
locator_loop gf t syndromes (suc left) n s =
    locator_loop gf t syndromes left (n + 1) (locator_round gf t syndromes n s)

-- Before the loop.
abbrev pub first_locator : Locator
first_locator = record { sigma = 1 ∷ replicate 24 0; b = 1 ∷ replicate 24 0; l = 0 }

-- The value of `sigma` at the i-th power, from term k on.
pub eval_loop : GfTables → List ℕ → ℕ → ℕ → ℕ → ℕ → ℕ
eval_loop gf sigma i zero k eval = eval
eval_loop gf sigma i (suc left) k eval =
    let c = get_or sigma k 0 in
    let term = get_or gf.exp_table (u32 (get_or gf.log_table c 0 + k * i) % gf.n) 0 in
    eval_loop gf sigma i left (k + 1) (if c == 0 then eval else bit_xor eval term)

-- The places that the Chien search finds from power i on, when it has found j: at most num_errors,
-- for which `error_locs` has 12 entries.
pub chien_loop : GfTables → ℕ → List ℕ → ℕ → ℕ → ℕ → ℕ → List ℕ
chien_loop gf size sigma num_errors zero i j = []
chien_loop gf size sigma num_errors (suc left) i j =
    let poly_pos = (gf.n - i) % gf.n in
    elim (eval_loop gf sigma i num_errors 1 (get_or sigma 0 0) == 0 && ltb poly_pos size) [
      | true ↦ (size - 1 - poly_pos) ∷ elim (leb num_errors (j + 1)) [
        | true ↦ []
        | false ↦ chien_loop gf size sigma num_errors left (i + 1) (j + 1)
      ]
      | false ↦ chien_loop gf size sigma num_errors left (i + 1) j
    ]

-- The loop that corrects the errors.
pub flip_all : List ℕ → List ℕ → List ℕ
flip_all [] codeword = codeword
flip_all (p ∷ places) codeword = flip_all places (set codeword p (bit_xor (get_or codeword p 0) 1))

-- What follows the Berlekamp-Massey loop: the result, -1 as `none`, and the codeword.
pub correct : GfTables → BchDecoder → Locator → List ℕ → Option ℕ × List ℕ
correct gf dec s codeword =
    let places = chien_loop gf dec.n s.sigma s.l gf.n 0 0 in
    if ltb dec.t s.l
    then (none, codeword)
    else if length places == s.l
    then (some s.l, flip_all places codeword)
    else (none, codeword)

-- `dvbs2x_bch_decode` behind its call of `gf_init`.
pub decode_with : GfTables → BchDecoder → List ℕ → Option ℕ × List ℕ
decode_with gf dec codeword =
    let syndromes = syndromes_from gf dec.n codeword (2 * dec.t) 1 in
    if all_zero syndromes
    then (some 0, codeword)
    else correct gf dec (locator_loop gf dec.t (0 ∷ syndromes) (2 * dec.t) 1 first_locator) codeword

-- `dvbs2x_bch_decode`
pub bch_decode : BchDecoder → List ℕ → Option ℕ × List ℕ
bch_decode dec codeword = decode_with (gf_init dec.gf_m (gf_prim_poly dec.gf_m)) dec codeword
