-- ===== src/Bits/Tables.antt =====
-- Facts about small numbers, checked value by value.
use open_vlsnr.Prelude.{ℕ, zero, suc, ◌<◌, ◌≡◌, Bool, true, ◌&&◌, arith}

unfoldable pub all_below : ℕ → (ℕ → Bool) → Bool
all_below zero test = true
all_below (suc bound) test = test bound && all_below bound test

pub all_below_sound :
    (bound : ℕ) (test : ℕ → Bool) (v : ℕ) → all_below bound test ≡ true → v < bound → test v ≡ true
unfolding all_below
all_below_sound zero test v checked small = absurd (omega arith)
all_below_sound (suc bound) test v checked small = grind (arith, all_below_sound bound test v)
