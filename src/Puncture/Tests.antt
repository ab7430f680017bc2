-- ===== src/Puncture/Tests.antt =====
-- src/modulator_top.c and src/demodulator_top.c: puncturing a short parity part.
use open_vlsnr.Prelude.{ℕ, ◌≡◌, refl, List, [], ◌∷◌}
use open_vlsnr.Puncture.{is_punctured, puncture, depuncture}

abbrev parity : List ℕ
parity = 10 ∷ 11 ∷ 12 ∷ 13 ∷ 14 ∷ 15 ∷ 16 ∷ []

-- Of seven places 0 and 3 are left out, and filled with 99 again.
punctured : puncture 2 3 0 0 parity ≡ 11 ∷ 12 ∷ 14 ∷ 15 ∷ 16 ∷ []
unfolding puncture is_punctured
punctured = refl

filled : depuncture 99 2 3 7 0 0 (puncture 2 3 0 0 parity) ≡ 99 ∷ 11 ∷ 12 ∷ 99 ∷ 14 ∷ 15 ∷ 16 ∷ []
unfolding puncture depuncture is_punctured
filled = refl
