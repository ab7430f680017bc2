-- ===== src/PlHeader/Decision.antt =====
-- src/plheader_gen.c: the decision for a code.
use open_vlsnr.Prelude.{
  ℕ, zero, suc, ◌+◌, ◌<◌, ◌≡◌, refl, sym, ap, ◌∙◌, Bool, true, false, List, inl, inr, bit_and, take,
  drop, arith, Bool-cases, lt_cases,
}
use mathlib.Core.Path.{subst}
use open_vlsnr.Scrambler.{Complex}
use open_vlsnr.Mapping.{Doubles}
use open_vlsnr.PlHeader.{
  Comparison, plsc_soft, code_corr, best_loop, plheader_recover, sof_len, plsc_len,
}

-- What is used of `>` on doubles; it holds with NaN too.
pub record OrderLaws {ℓ} {A : Type ℓ} (gt : A → A → Bool) : Type ℓ where
  pub gt_trans : (a b c : A) → gt a b ≡ true → gt b c ≡ true → gt a c ≡ true
  pub gt_irrefl : (a : A) → gt a a ≡ false

module _ {ℓ} {A : Type ℓ} (ops : Doubles A) (cmp : Comparison A) where
  -- No code below `bound` correlates better than `best`.
  pub IsBest : List A → ℕ → ℕ → Type 0
  IsBest soft bound best =
      (code : ℕ)
      → code < bound
      → cmp.gt (code_corr ops cmp soft code) (code_corr ops cmp soft best) ≡ false

  -- The round of the loop at a code that correlates better.
  best_loop_better :
      (soft : List A) (left code best : ℕ) (best_corr : A)
      → cmp.gt (code_corr ops cmp soft code) best_corr ≡ true
      → best_loop ops cmp soft (suc left) code best_corr best
        ≡ best_loop ops cmp soft left (code + 1) (code_corr ops cmp soft code) code
  unfolding best_loop
  best_loop_better soft left code best best_corr better = rw (better, best_loop) refl

  module _ (laws : OrderLaws cmp.gt) where
    not-gt : (a b : A) → (cmp.gt a b ≡ true → cmp.gt a b ≡ false) → cmp.gt a b ≡ false
    not-gt a b h = elim (Bool-cases (cmp.gt a b)) [ inl beats ↦ h beats | inr not_more ↦ not_more ]

    -- A code that beats the best so far is the best of all up to itself.
    IsBest-better :
        (soft : List A) (code best : ℕ)
        → IsBest soft code best
        → cmp.gt (code_corr ops cmp soft code) (code_corr ops cmp soft best) ≡ true
        → IsBest soft (code + 1) code
    unfolding IsBest
    IsBest-better soft code best v better other h = elim (lt_cases other code) [
      | inl below ↦
          not-gt _ _
            (λ beats. absurd (let e = sym (v other below) ∙ laws.gt_trans _ _ _ beats better in cc))
      | inr last ↦
          (let same : code ≡ other = omega (arith, last, h) in
            subst
              (λ (k : ℕ). cmp.gt (code_corr ops cmp soft k) (code_corr ops cmp soft code) ≡ false)
              same (laws.gt_irrefl _))
    ]

    IsBest-worse :
        (soft : List A) (code best : ℕ)
        → IsBest soft code best
        → cmp.gt (code_corr ops cmp soft code) (code_corr ops cmp soft best) ≡ false
        → IsBest soft (code + 1) best
    unfolding IsBest
    IsBest-worse soft code best v worse other h = elim (lt_cases other code) [
      | inl below ↦ v other below
      | inr last ↦
          (let same : code ≡ other = omega (arith, last, h) in
            subst
              (λ (k : ℕ). cmp.gt (code_corr ops cmp soft k) (code_corr ops cmp soft best) ≡ false)
              same worse)
    ]

    best_loop-IsBest :
        (soft : List A) (left code best : ℕ)
        → best < code
        → IsBest soft code best
        → (best_loop ops cmp soft left code (code_corr ops cmp soft best) best < code + left)
          × IsBest soft
              (code + left)
              (best_loop ops cmp soft left code (code_corr ops cmp soft best) best)
    unfolding best_loop
    best_loop-IsBest soft zero code best h v = (
      omega (arith, h),
      subst (λ (k : ℕ). IsBest soft k best) (let e : code ≡ code + 0 = omega arith in e) v,
    )
    best_loop-IsBest soft (suc left) code best h v =
        let next : (code + 1) + left ≡ code + suc left = omega arith in
        elim (Bool-cases (cmp.gt (code_corr ops cmp soft code) (code_corr ops cmp soft best))) [
          | inl better ↦
              (let w = IsBest-better soft code best v better in
                rw (better, best_loop, sym next)
                  (best_loop-IsBest soft left (code + 1) code (omega arith) w))
          | inr worse ↦
              (let w = IsBest-worse soft code best v worse in
                rw (worse, best_loop, sym next)
                  (best_loop-IsBest soft left (code + 1) best (omega (arith, h)) w))
        ]

    -- When the correlation with code 0 is above the loop's start value, the code that
    -- `dvbs2x_plheader_recover` stores is the low seven bits of a code that correlates best of all 256.
    pub plheader_recover-IsBest :
        (symbols : List (Complex A))
        → cmp.gt
            (code_corr ops cmp (plsc_soft ops cmp sof_len (take plsc_len (drop sof_len symbols))) 0)
            cmp.lowest
          ≡ true
        → (best : ℕ) × (best < 256)
          × IsBest (plsc_soft ops cmp sof_len (take plsc_len (drop sof_len symbols))) 256 best
          × (plheader_recover ops cmp symbols ≡ bit_and best 0x7F)
    unfolding plheader_recover IsBest
    plheader_recover-IsBest symbols start =
        let soft = plsc_soft ops cmp sof_len (take plsc_len (drop sof_len symbols)) in
        let first : IsBest soft 1 0 = λ code h.
          (let zeroth : 0 ≡ code = omega (arith, h) in
            subst (λ (k : ℕ). cmp.gt (code_corr ops cmp soft k) (code_corr ops cmp soft 0) ≡ false)
              zeroth (laws.gt_irrefl _)) in
        let (low, v) = best_loop-IsBest soft 255 1 0 (omega arith) first in
        (
          best_loop ops cmp soft 255 1 (code_corr ops cmp soft 0) 0,
          low,
          v,
          ap (λ (t : ℕ). bit_and t 0x7F) (best_loop_better soft 255 0 0 cmp.lowest start),
        )
