-- ===== src/Scrambler/RoundTrip.antt =====
-- src/scrambler.c: descrambling against scrambling.
use open_vlsnr.Prelude.{
  ℕ, ◌+◌, ◌≡◌, refl, ap, suc, length, Bool, true, false, Option, List, [], ◌∷◌, arith,
}
use open_vlsnr.Scrambler.{
  Scrambler, Complex, next_rn, rot_fwd, rot_inv, four_phase, scramble_symbol, descramble_symbol,
  scramble_field, descramble_field, scramble, descramble,
}

-- Of the doubles only this is used: a negation is undone by a negation.
module _ {ℓ} {A : Type ℓ} (neg : A → A) (neg-neg : (a : A) → neg (neg a) ≡ a) where
  rot_inv-rot_fwd : (s : Complex A) (rn : ℕ) → rot_inv neg (rot_fwd neg s rn) rn ≡ s
  unfolding rot_inv rot_fwd
  rot_inv-rot_fwd s rn = ground (arith, neg-neg s.i, neg-neg s.q)

  descramble_symbol-scramble_symbol :
      (four : Bool) (s : Complex A) (rn : ℕ)
      → descramble_symbol neg four (scramble_symbol neg four s rn) rn ≡ s
  unfolding scramble_symbol descramble_symbol
  descramble_symbol-scramble_symbol true s rn = rot_inv-rot_fwd s rn
  descramble_symbol-scramble_symbol false s rn = ground (arith, neg-neg s.i, neg-neg s.q)

  -- Descrambling a scrambled field from the same registers, with the same pilot map and modulation,
  -- gives the symbols back, and leaves the registers where scrambling left them.
  pub descramble_field-scramble_field :
      (is_qpsk : Bool) (is_pilot : Option (ℕ → Bool)) (n : ℕ) (scr : Scrambler)
      (symbols : List (Complex A))
      → let (end, out) = scramble_field neg is_qpsk is_pilot n scr symbols in
        descramble_field neg is_qpsk is_pilot n scr out ≡ (end, symbols)
  unfolding scramble_field descramble_field
  descramble_field-scramble_field is_qpsk is_pilot n scr [] = refl
  descramble_field-scramble_field is_qpsk is_pilot n scr (s ∷ symbols) =
      let (rn, scr') = next_rn scr in
      rw (
        descramble_field-scramble_field is_qpsk is_pilot (n + 1) scr' symbols,
        descramble_symbol-scramble_symbol (four_phase is_qpsk is_pilot n) s rn,
      )

  -- Descrambling a whole frame from the registers that `dvbs2x_scramble` started from gives the
  -- symbols back, and leaves the registers where scrambling left them.
  pub descramble-scramble :
      (scr : Scrambler) (symbols : List (Complex A))
      → let (end, out) = scramble neg scr symbols in descramble neg scr out ≡ (end, symbols)
  unfolding scramble descramble
  descramble-scramble scr [] = refl
  descramble-scramble scr (s ∷ symbols) =
      let (rn, scr') = next_rn scr in rw (descramble-scramble scr' symbols, rot_inv-rot_fwd s rn)

  pub length-scramble_field :
      (is_qpsk : Bool) (is_pilot : Option (ℕ → Bool)) (n : ℕ) (scr : Scrambler)
      (symbols : List (Complex A))
      → length (scramble_field neg is_qpsk is_pilot n scr symbols).1 ≡ length symbols
  unfolding scramble_field
  length-scramble_field is_qpsk is_pilot n scr [] = refl
  length-scramble_field is_qpsk is_pilot n scr (s ∷ symbols) =
      ap suc (length-scramble_field is_qpsk is_pilot (n + 1) (next_rn scr).1 symbols)
