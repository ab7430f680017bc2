-- ===== src/Puncture.antt =====
-- Shortening and puncturing in src/modulator_top.c, and their reverse in src/demodulator_top.c.
pub mod Places
pub mod RoundTrip
pub mod Values
mod Tests
use open_vlsnr.Prelude.{
  ℕ, zero, suc, ◌+◌, ◌-◌, ◌*◌, Bool, true, false, ◌&&◌, List, [], ◌∷◌, ◌++◌, take, drop, replicate,
  ltb, ◌==◌,
}
use open_vlsnr.Types.{Modcod}

-- The test of both loops: position `i` of the parity bits is punctured, `p_idx` being punctured
-- already.
pub is_punctured : ℕ → ℕ → ℕ → ℕ → Bool
is_punctured xp p_period p_idx i = ltb 0 xp && ltb p_idx xp && i == p_idx * p_period

-- The loop over the parity bits in `dvbs2x_modulate_bbframe_symbols_ex`, from position `i` on.
pub puncture {ℓ} : {A : Type ℓ} → ℕ → ℕ → ℕ → ℕ → List A → List A
puncture xp p_period p_idx i [] = []
puncture xp p_period p_idx i (b ∷ parity) = elim (is_punctured xp p_period p_idx i) [
  | true ↦ puncture xp p_period (p_idx + 1) (i + 1) parity
  | false ↦ b ∷ puncture xp p_period p_idx (i + 1) parity
]

-- `tx_bits`: the information bits behind the shortening zeros, then the parity bits that are kept.
pub sent_bits {ℓ} : {A : Type ℓ} → Modcod → List A → List A
sent_bits mc codeword =
    take (mc.k_ldpc - mc.xs) (drop mc.xs codeword)
    ++ puncture mc.xp mc.p_period 0 0 (take (mc.fec_len - mc.k_ldpc) (drop mc.k_ldpc codeword))

-- The loop over the parity part of `full_llr` in `dvbs2x_demodulate_bbframe_symbols_ex`, for `left`
-- positions from `i` on; `received` is `deint` from `d_idx` on. A read past its end gives `erased`.
pub depuncture {ℓ} : {A : Type ℓ} → A → ℕ → ℕ → ℕ → ℕ → ℕ → List A → List A
depuncture erased xp p_period zero p_idx i received = []
depuncture erased xp p_period (suc left) p_idx i received =
    elim (is_punctured xp p_period p_idx i) [
      | true ↦ erased ∷ depuncture erased xp p_period left (p_idx + 1) (i + 1) received
      | false ↦ elim received [
        | [] ↦ erased ∷ depuncture erased xp p_period left p_idx (i + 1) []
        | a ∷ received ↦ a ∷ depuncture erased xp p_period left p_idx (i + 1) received
      ]
    ]

-- `full_llr`: certain values for the shortening zeros, the information values, the parity values.
pub full_llr {ℓ} : {A : Type ℓ} → A → A → Modcod → List A → List A
full_llr certain erased mc deint =
    replicate mc.xs certain
    ++ (take (mc.k_ldpc - mc.xs) deint
        ++ depuncture erased mc.xp mc.p_period (mc.fec_len - mc.k_ldpc) 0 0
            (drop (mc.k_ldpc - mc.xs) deint))
