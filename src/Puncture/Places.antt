-- ===== src/Puncture/Places.antt =====
-- src/modulator_top.c and src/demodulator_top.c: the positions of the parity bits that the loops leave
-- out.
use native.Mathlib.Nat.{
  suc-mul, add-mul, div-add-mod', mul-mod_left, mul-div_cancel, lt_of_mul-lt-mul_right,
  le_of_mul-le-mul_right,
}
use open_vlsnr.Prelude.{
  ℕ, suc, ◌+◌, ◌-◌, ◌*◌, ◌/◌, ◌%◌, ◌≤◌, ◌<◌, ◌≡◌, ◌≢◌, sym, ap, ◌∙◌, Bool, true, false, ◌&&◌, List,
  [], ◌∷◌, arith, length, ltb, ◌==◌, Bool-cases, inl, inr, eq_cases, lt_cases,
}
use open_vlsnr.Puncture.{is_punctured, puncture}

-- Position `i` is one of the punctured ones.
pub hits : ℕ → ℕ → ℕ → Bool
hits xp p_period i = i % p_period == 0 && ltb (i / p_period) xp

module _ (xp p_period : ℕ) (pos : 0 < p_period) where
  -- `p_idx` punctured positions lie below `i`.
  pub record Places (p_idx i : ℕ) : Type 0 where
    pub few : p_idx ≤ xp
    pub near : p_idx * p_period < i + p_period
    pub ahead : p_idx < xp → i ≤ p_idx * p_period

  hit_place : (p_idx i : ℕ) → i ≡ p_idx * p_period → (i % p_period ≡ 0) × (i / p_period ≡ p_idx)
  hit_place p_idx i e = (
    ap (λ (t : ℕ). t % p_period) e ∙ mul-mod_left p_idx p_period,
    ap (λ (t : ℕ). t / p_period) e ∙ mul-div_cancel p_idx pos,
  )

  -- A position that the loop passes over is no multiple of the period below the last one.
  missed :
      (p_idx i : ℕ)
      → Places p_idx i
      → (p_idx < xp → i ≢ p_idx * p_period)
      → i % p_period ≡ 0
      → xp ≤ i / p_period
  missed p_idx i v ne whole =
      let d = i / p_period in
      let i_eq : i ≡ d * p_period = omega (arith, div-add-mod' i p_period, whole) in
      let near : p_idx ≤ d =
        let n : p_idx * p_period < suc d * p_period =
          omega (arith, v.near, i_eq, suc-mul d p_period) in
        omega (arith, lt_of_mul-lt-mul_right p_period n) in
      elim (lt_cases p_idx xp) [
        | inl more ↦
            (let back : d ≤ p_idx =
                le_of_mul-le-mul_right {k = p_period}
                  (let b : d * p_period ≤ p_idx * p_period = omega (arith, v.ahead more, i_eq) in b)
                  pos in
              let same : p_idx ≡ d = omega (arith, back, near) in
              absurd (ne more (i_eq ∙ ap (λ (t : ℕ). t * p_period) (sym same))))
        | inr last ↦ omega (arith, last, near)
      ]

  pub is_punctured-eq-hits :
      (p_idx i : ℕ) → Places p_idx i → is_punctured xp p_period p_idx i ≡ hits xp p_period i
  unfolding is_punctured hits
  is_punctured-eq-hits p_idx i v = elim (eq_cases i (p_idx * p_period)) [
    | inl e ↦ (let (whole, at) = hit_place p_idx i e in ground (arith, e, whole, at))
    | inr ne ↦ elim (eq_cases (i % p_period) 0) [
      | inl whole ↦ (let past = missed p_idx i v (λ _. ne) whole in ground (arith, ne, whole, past))
      | inr part ↦ ground (arith, ne, part)
    ]
  ]

  pub Places-hit :
      (p_idx i : ℕ)
      → Places p_idx i
      → is_punctured xp p_period p_idx i ≡ true
      → Places (p_idx + 1) (i + 1)
  unfolding is_punctured
  Places-hit p_idx i v h =
      let (more, e) : (p_idx < xp) × (i ≡ p_idx * p_period) = ground (arith, h) in
      let next : (p_idx + 1) * p_period ≡ p_idx * p_period + p_period =
        omega (arith, add-mul p_idx 1 p_period) in
      record {
        few = omega (arith, more);
        near = omega (arith, e, next);
        ahead = λ _. omega (arith, e, next, pos);
      }

  pub Places-miss :
      (p_idx i : ℕ)
      → Places p_idx i
      → is_punctured xp p_period p_idx i ≡ false
      → Places p_idx (i + 1)
  unfolding is_punctured
  Places-miss p_idx i v h = record {
    few = v.few;
    near = omega (arith, v.near);
    ahead = λ more.
        (let apart : i ≢ p_idx * p_period = λ e. ground (arith, h, more, e) in
          omega (arith, v.ahead more, apart));
  }

module _ {ℓ} {A : Type ℓ} (xp p_period : ℕ) (pos : 0 < p_period) where
  pub length-puncture :
      (p_idx i : ℕ) (parity : List A)
      → Places xp p_period pos p_idx i
      → xp * p_period ≤ i + length parity
      → length (puncture xp p_period p_idx i parity) + (xp - p_idx) ≡ length parity
  unfolding puncture
  length-puncture p_idx i [] v fits = elim (lt_cases p_idx xp) [
    | inl more ↦
        (let back : xp ≤ p_idx =
            le_of_mul-le-mul_right {k = p_period}
              (let b : xp * p_period ≤ p_idx * p_period = omega (arith, v.ahead more, fits) in b)
              pos in
          absurd (omega (arith, more, back)))
    | inr last ↦ omega (arith, last)
  ]
  length-puncture p_idx i (b ∷ parity) v fits =
      elim (Bool-cases (is_punctured xp p_period p_idx i)) [
        | inl hit ↦
            (let w = Places-hit xp p_period pos p_idx i v hit in
              rw (hit, puncture)
                (omega (
                  arith,
                  w.few,
                  length-puncture (p_idx + 1) (i + 1) parity w (omega (arith, fits)),
                )))
        | inr miss ↦
            (let w = Places-miss xp p_period pos p_idx i v miss in
              rw (miss, puncture)
                (omega (arith, length-puncture p_idx (i + 1) parity w (omega (arith, fits)))))
      ]
