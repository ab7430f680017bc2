-- ===== src/Ldpc/Decoder/Checks.antt =====
-- The convergence check of dvbs2x_ldpc_decode (src/ldpc_decode.c) against the rows of the code.
use open_vlsnr.Prelude.{
  ℕ, zero, suc, ◌+◌, ◌-◌, ◌≤◌, ◌<◌, bit_xor, ◌≡◌, ◌↔◌, refl, sym, ap, ◌∙◌, Bool, true, ◌&&◌, inl,
  inr, List, [], ◌∷◌, map, arith, All, length, get_or, Bool-cases, eq_cases, ◌==◌, if◌then◌else◌,
}
use open_vlsnr.Bits.Xor.{xor-zero, xor_assoc}
use open_vlsnr.Bits.{zero-bit_xor}
use open_vlsnr.Ldpc.Boxplus.{SoftOps}
use open_vlsnr.Ldpc.{LdpcCode}
use open_vlsnr.Ldpc.Csr.Columns.{row_columns}
use open_vlsnr.Ldpc.Decoder.{LdpcDecoder, hard_bit, parity_of, checks}
use open_vlsnr.Ldpc.Decoder.Sums.{column_sum, Satisfies, Groups, row_columns-All}
use open_vlsnr.Ldpc.Decoder.Built.{IsBuilt}

even_and : (p : ℕ) (b : Bool) → ((p == 0) && b) ≡ true → (p ≡ 0) × (b ≡ true)
even_and p b h = ground arith

and_even : (p : ℕ) (b : Bool) → p ≡ 0 → b ≡ true → ((p == 0) && b) ≡ true
and_even p b e h = ground arith

module _ {ℓ} {A : Type ℓ} (ops : SoftOps A) where
  get_or-map_hard :
      (vn_llr : List A) (c : ℕ) (d : A)
      → c < length vn_llr
      → get_or (map (hard_bit ops) vn_llr) c 0 ≡ hard_bit ops (get_or vn_llr c d)
  get_or-map_hard [] c d h = absurd (omega arith)
  get_or-map_hard (x ∷ xs) zero d h = refl
  get_or-map_hard (x ∷ xs) (suc c) d h = get_or-map_hard xs c d (omega arith)

  flipped :
      (parity : ℕ) (v : A)
      → (if ops.lt v (ops.of_nat 0) then bit_xor parity 1 else parity)
        ≡ bit_xor parity (hard_bit ops v)
  unfolding hard_bit
  flipped parity v = elim (Bool-cases (ops.lt v (ops.of_nat 0))) [
    | inl negative ↦ rw negative refl
    | inr other ↦ rw other (sym (xor-zero parity))
  ]

  -- The parity of a row is the sum of the hard decisions at its columns.
  parity_of_lem :
      (col_idx : List ℕ) (vn_llr : List A) (columns : List ℕ) (j parity : ℕ)
      → ((i : ℕ) → i < length columns → get_or col_idx (j + i) 0 ≡ get_or columns i 0)
      → All (λ (c : ℕ). c < length vn_llr) columns
      → parity_of ops col_idx vn_llr (length columns) j parity
        ≡ bit_xor parity (column_sum (map (hard_bit ops) vn_llr) columns)
  unfolding parity_of column_sum
  parity_of_lem col_idx vn_llr [] j parity same fits = sym (xor-zero parity)
  parity_of_lem col_idx vn_llr (c ∷ columns) j parity same fits =
      let word = map (hard_bit ops) vn_llr in
      let soft_zero = ops.of_nat 0 in
      let at = get_or col_idx j 0 in
      let here : at ≡ c =
        ap (λ (i : ℕ). get_or col_idx i 0) (let e : j ≡ j + 0 = omega arith in e)
        ∙ same 0 (omega arith) in
      let flip = λ (v : A). if ops.lt v soft_zero then bit_xor parity 1 else parity in
      let bit : flip (get_or vn_llr at soft_zero) ≡ bit_xor parity (get_or word c 0) =
        ap (λ (i : ℕ). flip (get_or vn_llr i soft_zero)) here
        ∙ flipped parity (get_or vn_llr c soft_zero)
        ∙ ap (bit_xor parity) (sym (get_or-map_hard vn_llr c soft_zero fits.0)) in
      parity_of_lem col_idx vn_llr columns (j + 1) (flip (get_or vn_llr at soft_zero))
        (λ i h.
          ap (λ (i : ℕ). get_or col_idx i 0) (let e : j + 1 + i ≡ j + suc i = omega arith in e)
          ∙ same (suc i) (omega arith))
        fits.1
      ∙ ap (λ (p : ℕ). bit_xor p (column_sum word columns)) bit
      ∙ xor_assoc parity (get_or word c 0) (column_sum word columns)

  module _ (code : LdpcCode) (dec : LdpcDecoder) (built : IsBuilt code dec) (groups : Groups code)
      (vn_llr : List A) (size : length vn_llr ≡ code.n) where
    row_parity :
        (r : ℕ)
        → r < code.n - code.k
        → parity_of ops dec.csr_col_idx vn_llr
            (get_or dec.csr_row_ptr (r + 1) 0 - get_or dec.csr_row_ptr r 0)
            (get_or dec.csr_row_ptr r 0)
            0
          ≡ column_sum (map (hard_bit ops) vn_llr) (row_columns code r)
    row_parity r below =
        let columns = row_columns code r in
        let start = get_or dec.csr_row_ptr r 0 in
        let count : get_or dec.csr_row_ptr (r + 1) 0 - start ≡ length columns =
          omega (arith, built.degree r below) in
        rw count (
          parity_of_lem dec.csr_col_idx vn_llr columns start 0 (λ i h. built.column r i below h)
            (rw size (row_columns-All code r groups below))
          ∙ zero-bit_xor (column_sum (map (hard_bit ops) vn_llr) columns))

    -- From row i on: the check holds exactly when these rows sum to zero.
    checks_iff :
        (left i : ℕ)
        → i + left ≡ code.n - code.k
        → (checks ops dec vn_llr left i ≡ true) ↔ (
            (r : ℕ)
            → i ≤ r
            → r < code.n - code.k
            → column_sum (map (hard_bit ops) vn_llr) (row_columns code r) ≡ 0)
    unfolding checks
    checks_iff zero i total = (λ _ r low high. absurd (omega arith), λ _. refl)
    checks_iff (suc left) i total =
        let rest = checks_iff left (i + 1) (omega arith) in
        let parity = row_parity i (omega arith) in
        (
          (λ h r low high.
              let (even, more) = even_and _ _ h in
              elim (eq_cases r i) [
                | inl e ↦ rw e (sym parity ∙ even)
                | inr ne ↦ rest.0 more r (omega arith) high
              ]),
          λ h.
              and_even _ _ (parity ∙ h i (omega arith) (omega arith))
                (rest.1 (λ r low high. h r (omega arith) high)),
        )

    pub checks-Satisfies :
        (checks ops dec vn_llr (code.n - code.k) 0 ≡ true)
        ↔ Satisfies code (map (hard_bit ops) vn_llr)
    checks-Satisfies =
        let all = checks_iff (code.n - code.k) 0 (omega arith) in
        (λ h r below. all.0 h r (omega arith) below, λ h. all.1 (λ r low high. h r high))
