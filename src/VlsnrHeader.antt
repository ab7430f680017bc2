-- ===== src/VlsnrHeader.antt =====
-- src/vlsnr_header_gen.c: the 900 symbols of the VL-SNR header, from the base matrix and the
-- Walsh-Hadamard signs. The correlation search of the receiver is not here.
pub mod Patterns
pub mod Symbols
mod Tests
use open_vlsnr.Prelude.{
  ℕ, zero, suc, ◌+◌, ◌-◌, ◌%◌, bit_and, Bool, true, false, ◌||◌, Option, none, some, List, [], ◌∷◌,
  ◌++◌, ◌==◌, if◌then◌else◌, ◌>>>◌, ltb, leb, get_or,
}
use open_vlsnr.Types.{Modcod, num_modcods}
use open_vlsnr.Scrambler.{Complex}
use open_vlsnr.Mapping.{Doubles, signed, opposed}

-- The two values of a chip and of a sign, +1 and -1.
pub data Chip : Type 0 where
  plus_one minus_one : Chip

-- Their product in C.
pub chip_product : Chip → Chip → Chip
chip_product plus_one y = y
chip_product minus_one plus_one = minus_one
chip_product minus_one minus_one = plus_one

abbrev pub vlsnr_rows : ℕ
vlsnr_rows = 16

abbrev pub vlsnr_base_matrix : List (List ℕ)
vlsnr_base_matrix =
    (0xFB ∷ 0xF2 ∷ 0x3E ∷ 0x83 ∷ 0x7F ∷ 0x9B ∷ 0xC4 ∷ [])
    ∷ (0x98 ∷ 0x70 ∷ 0x8E ∷ 0x0B ∷ 0x39 ∷ 0x34 ∷ 0x5E ∷ [])
    ∷ (0xF6 ∷ 0xA2 ∷ 0xC9 ∷ 0xFE ∷ 0x1B ∷ 0x17 ∷ 0x37 ∷ [])
    ∷ (0x84 ∷ 0x18 ∷ 0xD9 ∷ 0x5A ∷ 0x6F ∷ 0x99 ∷ 0x7A ∷ [])
    ∷ (0x7B ∷ 0x7D ∷ 0x7B ∷ 0x3E ∷ 0x9F ∷ 0xC9 ∷ 0xEA ∷ [])
    ∷ (0x5E ∷ 0x78 ∷ 0xBA ∷ 0x03 ∷ 0xA6 ∷ 0xD5 ∷ 0x1A ∷ [])
    ∷ (0x27 ∷ 0x9C ∷ 0xC2 ∷ 0x65 ∷ 0x43 ∷ 0xEC ∷ 0xD0 ∷ [])
    ∷ (0x34 ∷ 0x2B ∷ 0x04 ∷ 0x98 ∷ 0xBF ∷ 0x3D ∷ 0x7D ∷ [])
    ∷ (0xAD ∷ 0xD0 ∷ 0x36 ∷ 0xE9 ∷ 0xD5 ∷ 0x31 ∷ 0x2F ∷ [])
    ∷ (0x10 ∷ 0x61 ∷ 0xC6 ∷ 0xDF ∷ 0x82 ∷ 0x62 ∷ 0x37 ∷ [])
    ∷ (0x72 ∷ 0xD3 ∷ 0xE0 ∷ 0x90 ∷ 0x73 ∷ 0x84 ∷ 0xC7 ∷ [])
    ∷ (0x3B ∷ 0xD5 ∷ 0xAC ∷ 0xEE ∷ 0x25 ∷ 0xE2 ∷ 0xC9 ∷ [])
    ∷ (0x59 ∷ 0x08 ∷ 0x7D ∷ 0x82 ∷ 0x61 ∷ 0x5A ∷ 0xDA ∷ [])
    ∷ (0xE9 ∷ 0xAF ∷ 0x01 ∷ 0x72 ∷ 0xCF ∷ 0x9D ∷ 0xA7 ∷ [])
    ∷ (0x3F ∷ 0x48 ∷ 0x35 ∷ 0xA4 ∷ 0x06 ∷ 0x3F ∷ 0x07 ∷ [])
    ∷ (0x23 ∷ 0xC9 ∷ 0xAE ∷ 0xEC ∷ 0xF2 ∷ 0xED ∷ 0x41 ∷ [])
    ∷ []

abbrev p : Chip
p = plus_one

abbrev m : Chip
m = minus_one

abbrev pub vlsnr_wh_signs : List (List Chip)
vlsnr_wh_signs =
    (p ∷ p ∷ p ∷ p ∷ p ∷ p ∷ p ∷ p ∷ p ∷ p ∷ p ∷ p ∷ p ∷ p ∷ p ∷ p ∷ [])
    ∷ (p ∷ m ∷ p ∷ m ∷ p ∷ m ∷ p ∷ m ∷ p ∷ m ∷ p ∷ m ∷ p ∷ m ∷ p ∷ m ∷ [])
    ∷ (p ∷ p ∷ m ∷ m ∷ p ∷ p ∷ m ∷ m ∷ p ∷ p ∷ m ∷ m ∷ p ∷ p ∷ m ∷ m ∷ [])
    ∷ (p ∷ m ∷ m ∷ p ∷ p ∷ m ∷ m ∷ p ∷ p ∷ m ∷ m ∷ p ∷ p ∷ m ∷ m ∷ p ∷ [])
    ∷ (p ∷ p ∷ p ∷ p ∷ m ∷ m ∷ m ∷ m ∷ p ∷ p ∷ p ∷ p ∷ m ∷ m ∷ m ∷ m ∷ [])
    ∷ (p ∷ m ∷ m ∷ p ∷ m ∷ p ∷ p ∷ m ∷ p ∷ m ∷ m ∷ p ∷ m ∷ p ∷ p ∷ m ∷ [])
    ∷ (p ∷ p ∷ m ∷ m ∷ p ∷ p ∷ m ∷ m ∷ m ∷ m ∷ p ∷ p ∷ m ∷ m ∷ p ∷ p ∷ [])
    ∷ (p ∷ m ∷ m ∷ p ∷ p ∷ m ∷ m ∷ p ∷ m ∷ p ∷ p ∷ m ∷ m ∷ p ∷ p ∷ m ∷ [])
    ∷ (p ∷ p ∷ p ∷ p ∷ m ∷ m ∷ m ∷ m ∷ m ∷ m ∷ m ∷ m ∷ p ∷ p ∷ p ∷ p ∷ [])
    ∷ (p ∷ p ∷ m ∷ m ∷ m ∷ m ∷ p ∷ p ∷ p ∷ p ∷ m ∷ m ∷ m ∷ m ∷ p ∷ p ∷ [])
    ∷ (p ∷ m ∷ p ∷ m ∷ m ∷ p ∷ m ∷ p ∷ p ∷ m ∷ p ∷ m ∷ m ∷ p ∷ m ∷ p ∷ [])
    ∷ (m ∷ m ∷ m ∷ m ∷ m ∷ m ∷ m ∷ m ∷ p ∷ p ∷ p ∷ p ∷ p ∷ p ∷ p ∷ p ∷ [])
    ∷ (p ∷ m ∷ p ∷ m ∷ p ∷ m ∷ p ∷ m ∷ m ∷ p ∷ m ∷ p ∷ m ∷ p ∷ m ∷ p ∷ [])
    ∷ (p ∷ m ∷ p ∷ m ∷ m ∷ p ∷ m ∷ p ∷ m ∷ p ∷ m ∷ p ∷ p ∷ m ∷ p ∷ m ∷ [])
    ∷ (p ∷ p ∷ m ∷ m ∷ m ∷ m ∷ p ∷ p ∷ m ∷ m ∷ p ∷ p ∷ p ∷ p ∷ m ∷ m ∷ [])
    ∷ (p ∷ m ∷ m ∷ p ∷ m ∷ p ∷ p ∷ m ∷ m ∷ p ∷ p ∷ m ∷ p ∷ m ∷ m ∷ p ∷ [])
    ∷ []

abbrev pub modcod_to_annex_i : List ℕ
modcod_to_annex_i = 0 ∷ 1 ∷ 2 ∷ 3 ∷ 4 ∷ 5 ∷ 9 ∷ 10 ∷ 11 ∷ []

-- `(bit ? -1 : +1)`
pub chip : ℕ → Chip
chip bit = if bit == 0 then plus_one else minus_one

-- The columns of one byte, `bit_idx` going down from 7.
pub byte_chips : Chip → ℕ → ℕ → List Chip
byte_chips sign zero byte = []
byte_chips sign (suc bit_idx) byte =
    chip_product (chip (bit_and (byte >>> bit_idx) 1)) sign ∷ byte_chips sign bit_idx byte

-- The columns of one row, 8 for each byte.
pub row_chips : Chip → List ℕ → List Chip
row_chips sign [] = []
row_chips sign (byte ∷ bytes) = byte_chips sign 8 byte ++ row_chips sign bytes

-- The loop over the rows.
pub pattern_rows : List (List ℕ) → List Chip → List Chip
pattern_rows [] signs = []
pattern_rows (row ∷ rows) [] = []
pattern_rows (row ∷ rows) (sign ∷ signs) = row_chips sign row ++ pattern_rows rows signs

-- `vlsnr_generate_pattern`, which is `dvbs2x_wh_generate`
pub vlsnr_generate_pattern : ℕ → List Chip
vlsnr_generate_pattern annex_idx =
    let annex_idx = if leb 16 annex_idx then 0 else annex_idx in
    pattern_rows vlsnr_base_matrix (get_or vlsnr_wh_signs annex_idx [])

-- The chips of `dvbs2x_vlsnr_header_generate`; `none` where it returns without a header.
pub header_chips : Modcod → Option (List Chip)
header_chips mc =
    if ltb mc.index 1 || ltb num_modcods mc.index
    then none
    else some (
        plus_one
        ∷ plus_one
        ∷ (vlsnr_generate_pattern (get_or modcod_to_annex_i (mc.index - 1) 0)
            ++ (plus_one ∷ plus_one ∷ [])))

-- `chips[n] < 0`
abbrev pub chip_bit : Chip → ℕ
chip_bit plus_one = 0
chip_bit minus_one = 1

module _ {ℓ} {A : Type ℓ} (ops : Doubles A) where
  -- `chips_to_symbols`, with `idx` for `sym_offset + n`.
  pub chips_to_symbols : ℕ → List Chip → List (Complex A)
  chips_to_symbols idx [] = []
  chips_to_symbols idx (c ∷ chips) =
      let b = chip_bit c in
      (if bit_and idx 1 == 0
        then record { i = signed ops b; q = signed ops b }
        else record { i = opposed ops b; q = signed ops b })
      ∷ chips_to_symbols (idx + 1) chips

  -- `dvbs2x_vlsnr_header_generate`
  pub vlsnr_header_generate : Modcod → Option (List (Complex A))
  vlsnr_header_generate mc = elim (header_chips mc) [
    | none ↦ none
    | some chips ↦ some (chips_to_symbols 0 chips)
  ]
