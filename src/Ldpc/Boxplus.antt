-- ===== src/Ldpc/Boxplus.antt =====
-- src/ldpc_decode.c: the sum of two messages of the LDPC decoder, over any arithmetic of doubles.
use open_vlsnr.Prelude.{ℕ, zero, suc, ◌+◌, Bool, List, [], ◌∷◌, get_or, if◌then◌else◌}

-- The operations on doubles; `exp` and `log1p` are the mathematical library's.
pub record SoftOps {ℓ} (A : Type ℓ) : Type ℓ where
  pub of_nat : ℕ → A
  pub to_nat : A → ℕ
  pub neg : A → A
  pub fabs : A → A
  pub plus : A → A → A
  pub minus : A → A → A
  pub times : A → A → A
  pub over : A → A → A
  pub lt : A → A → Bool
  pub le : A → A → Bool
  pub exp : A → A
  pub log1p : A → A

-- `BOXPLUS_LUT_SIZE`
abbrev pub boxplus_lut_size : ℕ
boxplus_lut_size = 512

module _ {ℓ} {A : Type ℓ} (ops : SoftOps A) where
  open ops use {of_nat, to_nat, neg, fabs, plus, minus, times, over, lt, le, exp, log1p}

  abbrev pub soft_zero : A
  soft_zero = of_nat 0

  -- `LLR_CLAMP`
  abbrev pub llr_clamp : A
  llr_clamp = of_nat 40

  -- `init_boxplus_lut`, from entry i on.
  unfoldable pub lut_entries : A → ℕ → ℕ → List A
  lut_entries step zero i = []
  lut_entries step (suc left) i =
      log1p (exp (times (neg (of_nat i)) step)) ∷ lut_entries step left (i + 1)

  unfoldable pub boxplus_lut : List A
  boxplus_lut = lut_entries (over llr_clamp (of_nat boxplus_lut_size)) (boxplus_lut_size + 1) 0

  unfoldable pub lut_log1pexp : A → A
  lut_log1pexp x =
      if le llr_clamp x
      then soft_zero
      else let idx_f = times x (over (of_nat boxplus_lut_size) llr_clamp) in
        let idx = to_nat idx_f in
        let here = get_or boxplus_lut idx soft_zero in
        plus here
          (times (minus idx_f (of_nat idx)) (minus (get_or boxplus_lut (idx + 1) soft_zero) here))

  unfoldable pub clamped : A → A
  clamped a =
      if lt llr_clamp a then llr_clamp else if lt a (neg llr_clamp) then neg llr_clamp else a

  unfoldable pub sign_of : A → A
  sign_of a = if lt a soft_zero then neg (of_nat 1) else of_nat 1

  unfoldable pub boxplus : A → A → A
  boxplus a b =
      let a = clamped a in
      let b = clamped b in
      let sgn = times (sign_of a) (sign_of b) in
      let mn = if lt (fabs a) (fabs b) then fabs a else fabs b in
      let corr = minus (lut_log1pexp (fabs (plus a b))) (lut_log1pexp (fabs (minus a b))) in
      plus (times sgn mn) corr
