-- ===== src/PlHeader.antt =====
-- src/plheader_gen.c: the 90 symbols of a PL header, start of frame and signalling code, and the
-- decision for a code.
pub mod Decision
pub mod Distance
mod Tests
use open_vlsnr.Prelude.{
  ℕ, zero, suc, ◌+◌, ◌*◌, ◌%◌, bit_and, bit_xor, Bool, true, false, List, [], ◌∷◌, ◌++◌, ◌==◌,
  if◌then◌else◌, ◌>>>◌, ltb, not, drop, take,
}
use open_vlsnr.Types.{plheader_len}
use open_vlsnr.Scrambler.{Complex}
use open_vlsnr.Mapping.{Doubles, signed, opposed}

-- DVBS2X_SOF_LEN and DVBS2X_PLSC_LEN
abbrev pub sof_len : ℕ
sof_len = 26

abbrev pub plsc_len : ℕ
plsc_len = 64

abbrev pub sof_sequence : List ℕ
sof_sequence =
    0 ∷ 1 ∷ 1 ∷ 0 ∷ 0 ∷ 0 ∷ 1 ∷ 1 ∷ 0 ∷ 1 ∷ 0 ∷ 0 ∷ 1 ∷ 0 ∷ 1 ∷ 1 ∷ 1 ∷ 0 ∷ 1 ∷ 0 ∷ 0 ∷ 0 ∷ 0 ∷ 0
    ∷ 1 ∷ 0 ∷ []

abbrev pub pls_gen : List ℕ
pls_gen =
    0x90AC2DDD ∷ 0x55555555 ∷ 0x33333333 ∷ 0x0F0F0F0F ∷ 0x00FF00FF ∷ 0x0000FFFF ∷ 0xFFFFFFFF ∷ []

abbrev pub pls_scram : List ℕ
pls_scram =
    0 ∷ 1 ∷ 1 ∷ 1 ∷ 0 ∷ 0 ∷ 0 ∷ 1 ∷ 1 ∷ 0 ∷ 0 ∷ 1 ∷ 1 ∷ 1 ∷ 0 ∷ 1 ∷ 1 ∷ 0 ∷ 0 ∷ 0 ∷ 0 ∷ 0 ∷ 1 ∷ 1
    ∷ 1 ∷ 1 ∷ 0 ∷ 0 ∷ 1 ∷ 0 ∷ 0 ∷ 1 ∷ 0 ∷ 1 ∷ 0 ∷ 1 ∷ 0 ∷ 0 ∷ 1 ∷ 1 ∷ 0 ∷ 1 ∷ 0 ∷ 0 ∷ 0 ∷ 0 ∷ 1 ∷ 0
    ∷ 0 ∷ 0 ∷ 1 ∷ 0 ∷ 1 ∷ 1 ∷ 0 ∷ 1 ∷ 1 ∷ 1 ∷ 1 ∷ 1 ∷ 1 ∷ 0 ∷ 1 ∷ 0 ∷ []

-- The tests of the seven high bits, `mask` going from 0x80 to 0x02.
pub select_rows : ℕ → ℕ → List ℕ → ℕ → ℕ
select_rows code mask [] temp = temp
select_rows code mask (g ∷ gen) temp =
    select_rows code (mask >>> 1) gen (if bit_and code mask == 0 then temp else bit_xor temp g)

-- The loop over the 32 bits of `temp`, two outputs a round.
pub spread_word : ℕ → ℕ → ℕ → ℕ → List ℕ
spread_word zero code temp mask = []
spread_word (suc left) code temp mask =
    let even = if bit_and temp mask == 0 then 0 else 1 in
    even ∷ bit_xor even (bit_and code 1) ∷ spread_word left code temp (mask >>> 1)

pub scramble_bits : List ℕ → List ℕ → List ℕ
scramble_bits [] scram = []
scramble_bits (b ∷ bits) [] = b ∷ bits
scramble_bits (b ∷ bits) (s ∷ scram) = bit_xor b s ∷ scramble_bits bits scram

-- `pls_encode`
pub pls_encode : ℕ → List ℕ
pls_encode code =
    scramble_bits (spread_word 32 code (select_rows code 0x80 pls_gen 0) 0x80000000) pls_scram

module _ {ℓ} {A : Type ℓ} (ops : Doubles A) where
  -- `pl_const`
  pub pl_const : ℕ → ℕ → Complex A
  pl_const phase b =
      if phase == 0
      then record { i = signed ops b; q = signed ops b }
      else if phase == 3
      then record { i = opposed ops b; q = opposed ops b }
      else record { i = opposed ops b; q = signed ops b }

  -- The symbol loop of `dvbs2x_plheader_generate` from index n on; `vlsnr` is the code's bit 7.
  pub header_symbols : Bool → ℕ → List ℕ → List (Complex A)
  header_symbols vlsnr n [] = []
  header_symbols vlsnr n (b ∷ bits) =
      let shift = if vlsnr then 2 else 0 in
      let phase = if ltb n sof_len then bit_and n 1 else bit_and n 1 + shift in
      pl_const phase (bit_and b 1) ∷ header_symbols vlsnr (n + 1) bits

  -- `dvbs2x_plheader_generate`
  pub plheader_generate : ℕ → List (Complex A)
  plheader_generate pls_code =
      header_symbols (not (bit_and pls_code 0x80 == 0)) 0
        (sof_sequence ++ pls_encode (bit_and pls_code 0xFF))

-- What the decision for a code needs besides.
pub record Comparison {ℓ} (A : Type ℓ) : Type ℓ where
  pub gt : A → A → Bool
  pub nought : A
  pub one : A
  pub lowest : A

module _ {ℓ} {A : Type ℓ} (ops : Doubles A) (cmp : Comparison A) where
  -- The soft values of the 64 code symbols, from index i of the header on.
  pub plsc_soft : ℕ → List (Complex A) → List A
  plsc_soft i [] = []
  plsc_soft i (s ∷ symbols) =
      let point = pl_const ops (bit_and i 1 + 2) 0 in
      ops.plus (ops.times s.i point.i) (ops.times s.q point.q) ∷ plsc_soft (i + 1) symbols

  pub correlate : A → List A → List ℕ → A
  correlate corr [] enc = corr
  correlate corr (v ∷ soft) [] = corr
  correlate corr (v ∷ soft) (b ∷ enc) =
      correlate (ops.plus corr (ops.times v (if b == 0 then cmp.one else ops.neg cmp.one))) soft enc

  -- The correlation with the codeword of one code.
  pub code_corr : List A → ℕ → A
  code_corr soft code = correlate cmp.nought soft (pls_encode code)

  -- The loop over the codes, with `best_corr` and `best_code`.
  pub best_loop : List A → ℕ → ℕ → A → ℕ → ℕ
  best_loop soft zero code best_corr best_code = best_code
  best_loop soft (suc left) code best_corr best_code =
      elim (cmp.gt (code_corr soft code) best_corr) [
        | true ↦ best_loop soft left (code + 1) (code_corr soft code) code
        | false ↦ best_loop soft left (code + 1) best_corr best_code
      ]

  -- `dvbs2x_plheader_recover` on the symbols of a header: the code it stores.
  pub plheader_recover : List (Complex A) → ℕ
  plheader_recover symbols =
      let soft = plsc_soft sof_len (take plsc_len (drop sof_len symbols)) in
      bit_and (best_loop soft 256 0 cmp.lowest 0) 0x7F
