-- ===== src/Mapping.antt =====
-- src/modulate.c, src/demodulate.c and src/interleaver.c: coded bits to symbols, and soft values
-- from symbols; with the choice by MODCOD that src/modulator_top.c and src/demodulator_top.c make.
pub mod RoundTrip
pub mod Lengths
pub mod Signs
use open_vlsnr.Prelude.{ℕ, zero, suc, ◌+◌, bit_and, Bool, true, false, List, [], ◌∷◌, take, length}
use open_vlsnr.Types.{Modcod, bpsk, qpsk, tx_coded_bits}
use open_vlsnr.Scrambler.{Complex}

-- `dvbs2x_interleave`: a copy of the coded bits.
pub interleave : Modcod → List ℕ → List ℕ
interleave mc input = take (tx_coded_bits mc) input

-- `dvbs2x_deinterleave`: the same on soft values.
unfoldable pub deinterleave {ℓ} : {A : Type ℓ} → Modcod → List A → List A
deinterleave mc input = take (tx_coded_bits mc) input

-- `dvbs2x_mod_spread_bits`
pub mod_spread_bits : List ℕ → List ℕ
mod_spread_bits [] = []
mod_spread_bits (b ∷ bits) = b ∷ b ∷ mod_spread_bits bits

-- The operations on doubles that the mapping and the demapping use.
pub record Doubles {ℓ} (A : Type ℓ) : Type ℓ where
  pub neg : A → A
  pub plus : A → A → A
  pub minus : A → A → A
  pub times : A → A → A
  pub root_half : A

module _ {ℓ} {A : Type ℓ} (ops : Doubles A) where
  -- `b ? -M_SQRT1_2 : M_SQRT1_2`
  abbrev pub signed : ℕ → A
  signed zero = ops.root_half
  signed (suc b) = ops.neg ops.root_half

  -- `b ? M_SQRT1_2 : -M_SQRT1_2`
  abbrev pub opposed : ℕ → A
  opposed zero = ops.neg ops.root_half
  opposed (suc b) = ops.root_half

  -- The body of the loop of `dvbs2x_mod_pi2bpsk` at an even and at an odd index.
  pub even_symbol : ℕ → Complex A
  even_symbol bit = let b = bit_and bit 1 in record { i = signed b; q = signed b }

  pub odd_symbol : ℕ → Complex A
  odd_symbol bit = let b = bit_and bit 1 in record { i = opposed b; q = signed b }

  -- `dvbs2x_mod_pi2bpsk`, two rounds at a time.
  pub mod_pi2bpsk : List ℕ → List (Complex A)
  mod_pi2bpsk [] = []
  mod_pi2bpsk (b ∷ []) = even_symbol b ∷ []
  mod_pi2bpsk (b ∷ c ∷ bits) = even_symbol b ∷ odd_symbol c ∷ mod_pi2bpsk bits

  -- `dvbs2x_mod_qpsk`, for half as many symbols as there are bits.
  pub mod_qpsk : List ℕ → List (Complex A)
  mod_qpsk [] = []
  mod_qpsk (b ∷ []) = []
  mod_qpsk (b ∷ c ∷ bits) = record { i = signed b; q = signed c } ∷ mod_qpsk bits

  -- The constellation mapping of `dvbs2x_modulate_bbframe_symbols_ex`.
  pub map_bits : Modcod → List ℕ → List (Complex A)
  map_bits mc tx_bits = elim mc.modulation [
    | qpsk ↦ mod_qpsk tx_bits
    | bpsk ↦ elim mc.has_spread [
      | true ↦ mod_pi2bpsk (mod_spread_bits tx_bits)
      | false ↦ mod_pi2bpsk tx_bits
    ]
  ]

  -- `dvbs2x_demod_pi2bpsk` with `scale` computed, two rounds at a time.
  pub demod_pi2bpsk : A → List (Complex A) → List A
  demod_pi2bpsk scale [] = []
  demod_pi2bpsk scale (s ∷ []) = ops.times scale (ops.plus s.i s.q) ∷ []
  demod_pi2bpsk scale (s ∷ t ∷ symbols) =
      ops.times scale (ops.plus s.i s.q)
      ∷ ops.times scale (ops.minus t.q t.i)
      ∷ demod_pi2bpsk scale symbols

  -- `dvbs2x_demod_qpsk` with `scale` computed.
  pub demod_qpsk : A → List (Complex A) → List A
  demod_qpsk scale [] = []
  demod_qpsk scale (s ∷ symbols) =
      ops.times scale s.i ∷ ops.times scale s.q ∷ demod_qpsk scale symbols

  -- `dvbs2x_demod_despread_llr`, for half as many values as there are symbols.
  pub despread_llr : List A → List A
  despread_llr [] = []
  despread_llr (a ∷ []) = []
  despread_llr (a ∷ b ∷ llr) = ops.plus a b ∷ despread_llr llr

  -- The demapping of `dvbs2x_demodulate_bbframe_symbols_ex`; each demapper computes its own scale
  -- from the noise variance.
  pub demap_symbols : Modcod → A → A → List (Complex A) → List A
  demap_symbols mc bpsk_scale qpsk_scale symbols = elim mc.modulation [
    | qpsk ↦ elim mc.has_spread [
      | true ↦ despread_llr (take (length symbols) (demod_qpsk qpsk_scale symbols))
      | false ↦ demod_qpsk qpsk_scale symbols
    ]
    | bpsk ↦ elim mc.has_spread [
      | true ↦ despread_llr (demod_pi2bpsk bpsk_scale symbols)
      | false ↦ demod_pi2bpsk bpsk_scale symbols
    ]
  ]
