-- ===== src/Mapping/Lengths.antt =====
-- How many symbols src/modulate.c makes of the coded bits.
use open_vlsnr.Prelude.{ℕ, ◌*◌, ◌/◌, ◌≡◌, refl, Bool, true, false, List, [], ◌∷◌, arith, length}
use open_vlsnr.Types.{Modcod, Modulation, bpsk, qpsk}
use open_vlsnr.Mapping.{Doubles, mod_spread_bits, mod_pi2bpsk, mod_qpsk, map_bits}

length-mod_spread_bits : (bits : List ℕ) → length (mod_spread_bits bits) ≡ length bits * 2
unfolding mod_spread_bits
length-mod_spread_bits [] = refl
length-mod_spread_bits (b ∷ bits) = omega (arith, length-mod_spread_bits bits)

-- The symbols of so many bits, by modulation and spreading.
abbrev pub symbol_count : Modulation → Bool → ℕ → ℕ
symbol_count qpsk spread n = n / 2
symbol_count bpsk true n = n * 2
symbol_count bpsk false n = n

module _ {ℓ} {A : Type ℓ} (ops : Doubles A) where
  length-mod_pi2bpsk : (bits : List ℕ) → length (mod_pi2bpsk ops bits) ≡ length bits
  unfolding mod_pi2bpsk
  length-mod_pi2bpsk [] = refl
  length-mod_pi2bpsk (b ∷ []) = refl
  length-mod_pi2bpsk (b ∷ c ∷ bits) = omega (arith, length-mod_pi2bpsk bits)

  length-mod_qpsk : (bits : List ℕ) → length (mod_qpsk ops bits) ≡ length bits / 2
  unfolding mod_qpsk
  length-mod_qpsk [] = refl
  length-mod_qpsk (b ∷ []) = omega arith
  length-mod_qpsk (b ∷ c ∷ bits) = omega (arith, length-mod_qpsk bits)

  length-map_bits_cases :
      (modulation : Modulation) (spread : Bool) (mc : Modcod) (bits : List ℕ)
      → mc.modulation ≡ modulation
      → mc.has_spread ≡ spread
      → length (map_bits ops mc bits) ≡ symbol_count modulation spread (length bits)
  unfolding map_bits
  length-map_bits_cases qpsk spread mc bits e f = rw (e, map_bits) (length-mod_qpsk bits)
  length-map_bits_cases bpsk true mc bits e f =
      rw (e, f, map_bits)
        (omega (arith, length-mod_pi2bpsk (mod_spread_bits bits), length-mod_spread_bits bits))
  length-map_bits_cases bpsk false mc bits e f = rw (e, f, map_bits) (length-mod_pi2bpsk bits)

  pub length-map_bits :
      (mc : Modcod) (bits : List ℕ)
      → length (map_bits ops mc bits) ≡ symbol_count mc.modulation mc.has_spread (length bits)
  length-map_bits mc bits = length-map_bits_cases mc.modulation mc.has_spread mc bits refl refl
