-- ===== src/Mapping/Signs.antt =====
-- Signs in place of doubles, to run src/modulate.c and src/demodulate.c on.
use open_vlsnr.Prelude.{◌≡◌, refl, Bool, true, false, arith}
use open_vlsnr.Mapping.{Doubles}
use open_vlsnr.Mapping.RoundTrip.{SignLaws}

pub data Sign : Type 0 where
  below above nought : Sign

unfoldable pub opposite : Sign → Sign
opposite below = above
opposite above = below
opposite nought = nought

unfoldable pub sum : Sign → Sign → Sign
sum nought y = y
sum below above = nought
sum below y = below
sum above below = nought
sum above y = above

unfoldable pub product : Sign → Sign → Sign
product nought y = nought
product above y = y
product below y = opposite y

unfoldable pub is_below : Sign → Bool
is_below below = true
is_below x = false

abbrev pub signs : Doubles Sign
signs = record {
  neg = opposite;
  plus = sum;
  minus = λ x y. sum x (opposite y);
  times = product;
  root_half = above;
}

pub signs-SignLaws : SignLaws signs is_below above above (λ x. x ≡ above)
unfolding opposite sum product is_below
signs-SignLaws = record {
  plus-neg = λ x y. ground arith;
  minus-neg_right = λ x y. ground arith;
  minus-neg_left = λ x y. ground arith;
  times-neg = λ s x. ground arith;
  positive_kept = λ x p. ground arith;
  positive_flipped = λ x p. ground arith;
  plus-Positive = λ x y p q. ground arith;
  bpsk_metric = refl;
  qpsk_metric = refl;
}

pub opposite-opposite : (a : Sign) → opposite (opposite a) ≡ a
unfolding opposite
opposite-opposite a = ground arith
