-- ===== src/VlsnrHeader/Symbols.antt =====
-- The lengths of the two headers of a frame.
use open_vlsnr.Prelude.{
  false, ℕ, suc, ◌+◌, ◌-◌, ◌<◌, ◌≡◌, refl, ap, ◌∙◌, Bool, true, ◌||◌, some, List, [], ◌∷◌, ◌++◌,
  ltb, length, length-append, arith, get_or,
}
use open_vlsnr.Bits.{all_below, all_below_sound}
use open_vlsnr.Types.{Modcod, vlsnr_hdr_len}
use open_vlsnr.Modcod.{get_modcod}
use open_vlsnr.Modcod.Consistency.{get_modcod-IsConsistent}
use open_vlsnr.Scrambler.{Complex}
use open_vlsnr.Mapping.{Doubles}
use open_vlsnr.VlsnrHeader.{
  Chip, plus_one, header_chips, chips_to_symbols, vlsnr_header_generate, vlsnr_generate_pattern,
  modcod_to_annex_i,
}
use open_vlsnr.VlsnrHeader.Patterns.{length-vlsnr_generate_pattern}

abbrev annex_small : ℕ → Bool
annex_small k = ltb (get_or modcod_to_annex_i k 0) 16

annex_checked : all_below 9 annex_small ≡ true
unfolding all_below
annex_checked = refl

annex_bound : (k : ℕ) → k < 9 → get_or modcod_to_annex_i k 0 < 16
annex_bound k small =
    let h = all_below_sound 9 annex_small k annex_checked small in ground (arith, h)

module _ {ℓ} {A : Type ℓ} (ops : Doubles A) where
  length-chips_to_symbols :
      (idx : ℕ) (chips : List Chip) → length (chips_to_symbols ops idx chips) ≡ length chips
  unfolding chips_to_symbols
  length-chips_to_symbols idx [] = refl
  length-chips_to_symbols idx (c ∷ chips) = ap suc (length-chips_to_symbols (idx + 1) chips)

  -- Every MODCOD of the table has a VL-SNR header, of 900 symbols.
  pub length-vlsnr_header_generate :
      (i : ℕ) {mc : Modcod}
      → get_modcod i ≡ some mc
      → (header : List (Complex A)) × (vlsnr_header_generate ops mc ≡ some header)
        × (length header ≡ vlsnr_hdr_len)
  unfolding vlsnr_header_generate header_chips
  length-vlsnr_header_generate i {mc} e =
      let (low, high, at, v) = get_modcod-IsConsistent i e in
      let body = vlsnr_generate_pattern (get_or modcod_to_annex_i (mc.index - 1) 0) in
      let chips = plus_one ∷ plus_one ∷ (body ++ (plus_one ∷ plus_one ∷ [])) in
      let inside : (ltb mc.index 1 || ltb 9 mc.index) ≡ false = ground (arith, low, high, at) in
      let size : length body ≡ 896 =
        length-vlsnr_generate_pattern _
          (annex_bound (mc.index - 1) (omega (arith, low, high, at))) in
      let count : length chips ≡ 900 =
        omega (arith, length-append body (plus_one ∷ plus_one ∷ []), size) in
      (
        chips_to_symbols ops 0 chips,
        rw (inside, vlsnr_header_generate, header_chips) refl,
        length-chips_to_symbols 0 chips ∙ count,
      )
