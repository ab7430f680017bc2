-- ===== src/PlHeader/Distance.antt =====
-- src/plheader_gen.c: the signalling codewords against one another, and the length of a header.
use open_vlsnr.Prelude.{
  suc, ◌%◌, ap, ◌++◌, ◌∙◌, bit_and, not, length-append, ℕ, ◌+◌, ◌≤◌, ◌<◌, ◌≡◌, ◌≢◌, refl, Bool,
  true, List, [], ◌∷◌, ◌||◌, leb, ◌==◌, if◌then◌else◌, length, arith,
}
use open_vlsnr.Bits.{bit_and_mask, all_below, all_below_sound}
use open_vlsnr.Types.{VlsnrSet, set1, set2}
use open_vlsnr.Modcod.Consistency.{set_code}
use open_vlsnr.Types.{plheader_len}
use open_vlsnr.Mapping.{Doubles}
use open_vlsnr.PlHeader.{
  header_symbols, plheader_generate, sof_sequence, pls_encode, select_rows, spread_word,
  scramble_bits,
}

-- The places where two words differ.
pub distance : List ℕ → List ℕ → ℕ
distance [] ys = 0
distance (x ∷ xs) [] = 0
distance (x ∷ xs) (y ∷ ys) = (if x == y then 0 else 1) + distance xs ys

abbrev far : ℕ → ℕ → Bool
far code other = other == code || leb 24 (distance (pls_encode code) (pls_encode other))

abbrev full : ℕ → Bool
full code = length (pls_encode code) == 64

checked1 : all_below 256 (far 129) ≡ true
unfolding all_below distance pls_encode select_rows spread_word scramble_bits
checked1 = refl

checked2 : all_below 256 (far 131) ≡ true
unfolding all_below distance pls_encode select_rows spread_word scramble_bits
checked2 = refl

checked_length : all_below 256 full ≡ true
unfolding all_below pls_encode select_rows spread_word scramble_bits
checked_length = refl

pub length-pls_encode : (code : ℕ) → code < 256 → length (pls_encode code) ≡ 64
length-pls_encode code small =
    let h = all_below_sound 256 full code checked_length small in ground (arith, h)

-- The codeword of a VL-SNR set differs from that of any other 8-bit code in 24 places at least.
pub pls_encode-distance :
    (set : VlsnrSet) (other : ℕ)
    → other < 256
    → other ≢ set_code set
    → 24 ≤ distance (pls_encode (set_code set)) (pls_encode other)
pls_encode-distance set1 other small ne =
    let h = all_below_sound 256 (far 129) other checked1 small in ground (arith, h, ne)
pls_encode-distance set2 other small ne =
    let h = all_below_sound 256 (far 131) other checked2 small in ground (arith, h, ne)

module _ {ℓ} {A : Type ℓ} (ops : Doubles A) where
  length-header_symbols :
      (vlsnr : Bool) (n : ℕ) (bits : List ℕ)
      → length (header_symbols ops vlsnr n bits) ≡ length bits
  unfolding header_symbols
  length-header_symbols vlsnr n [] = refl
  length-header_symbols vlsnr n (b ∷ bits) = ap suc (length-header_symbols vlsnr (n + 1) bits)

  -- A PL header has 90 symbols, whatever the code.
  pub length-plheader_generate : (code : ℕ) → length (plheader_generate ops code) ≡ plheader_len
  unfolding plheader_generate
  length-plheader_generate code =
      let word = pls_encode (bit_and code 0xFF) in
      let size : length word ≡ 64 =
        length-pls_encode (bit_and code 0xFF)
          (let m : bit_and code 255 ≡ code % 256 = bit_and_mask 8 code in omega (arith, m)) in
      length-header_symbols (not (bit_and code 0x80 == 0)) 0 (sof_sequence ++ word)
      ∙ omega (arith, length-append sof_sequence word, size)
