-- ===== src/Ldpc/Decoder/Loop.antt =====
-- The loop of dvbs2x_ldpc_decode (src/ldpc_decode.c) against the plain rounds of message passing.
use open_vlsnr.Prelude.{
  ℕ, zero, suc, ◌+◌, ◌-◌, ◌%◌, ◌≤◌, ◌<◌, ◌≡◌, refl, sym, ap, ap₂, ◌∙◌, ◌⊎◌, inl, inr, Bool, true,
  false, ◌&&◌, ◌==◌, List, length, length-set, get_or, arith, Bool-cases, eq_cases,
}
use open_vlsnr.Ldpc.Boxplus.{SoftOps}
use open_vlsnr.Ldpc.Decoder.{
  LdpcDecoder, Soft, Ending, cancelled, settled, exhausted, degree_of, gather_row, forward,
  backward, send, scatter, update_row, update_rows, checks, check_due, iterate,
}

-- The iterations, counted from 0, whose result is checked: the first ten, every fifth one, and the
-- last.
abbrev pub Due : ℕ → ℕ → Type 0
Due max_iter u = (u < 10) ⊎ (((u + 1) % 5 ≡ 0) ⊎ (max_iter ≤ u + 1))

check_due-Due : (max_iter u : ℕ) → Due max_iter u → check_due max_iter u ≡ true
unfolding check_due
check_due-Due max_iter u (inl early) = ground arith
check_due-Due max_iter u (inr (inl fifth)) = ground arith
check_due-Due max_iter u (inr (inr last)) = ground arith

&&-true : (a b : Bool) → (a && b) ≡ true → (a ≡ true) × (b ≡ true)
&&-true a b h = ground arith

&&-false : (a b : Bool) → (a && b) ≡ false → a ≡ true → b ≡ false
&&-false a b h k = ground arith

module _ {ℓ} {A : Type ℓ} (ops : SoftOps A) (dec : LdpcDecoder) where
  abbrev rows : ℕ
  rows = dec.code.n - dec.code.k

  -- The messages and values after so many rounds over all rows.
  unfoldable pub after : ℕ → Soft A → Soft A
  after zero s = s
  after (suc t) s = update_rows ops dec rows 0 (after t s)

  pub length-scatter :
      (col_idx : List ℕ) (fwd bwd : List A) (row_start degree left d : ℕ) (s : Soft A)
      → length (scatter ops col_idx fwd bwd row_start degree left d s).vn_llr ≡ length s.vn_llr
  unfolding scatter send
  length-scatter col_idx fwd bwd row_start degree zero d s = refl
  length-scatter col_idx fwd bwd row_start degree (suc left) d s =
      length-scatter col_idx fwd bwd row_start degree left (d + 1) _
      ∙ length-set s.vn_llr (get_or col_idx (row_start + d) 0) _

  length-update_row :
      (i : ℕ) (s : Soft A) → length (update_row ops dec i s).vn_llr ≡ length s.vn_llr
  unfolding update_row
  length-update_row i s =
      let row_start = get_or dec.csr_row_ptr i 0 in
      let degree = degree_of dec.csr_row_ptr i in
      let v2c = gather_row ops dec.csr_col_idx s degree row_start in
      elim (Bool-cases (degree == 0)) [
        | inl none ↦ rw none refl
        | inr some ↦ rw some (
            length-scatter dec.csr_col_idx (forward ops v2c) (backward ops v2c) row_start degree
              degree 0 s)
      ]

  length-update_rows :
      (left i : ℕ) (s : Soft A) → length (update_rows ops dec left i s).vn_llr ≡ length s.vn_llr
  unfolding update_rows
  length-update_rows zero i s = refl
  length-update_rows (suc left) i s =
      length-update_rows left (i + 1) (update_row ops dec i s) ∙ length-update_row i s

  pub length-after : (t : ℕ) (s : Soft A) → length (after t s).vn_llr ≡ length s.vn_llr
  unfolding after
  length-after zero s = refl
  length-after (suc t) s = length-update_rows rows 0 (after t s) ∙ length-after t s

  module _ (cancel : ℕ → Bool) (start : Soft A) where
    -- Whether all checks hold after iteration u.
    abbrev pub holds : ℕ → Bool
    holds u = checks ops dec (after (suc u) start).vn_llr rows 0

    -- Before iteration `iter` nothing was cancelled, and no check that was due held.
    abbrev pub Silent : ℕ → Type 0
    Silent iter = (u : ℕ) → u < iter → (cancel u ≡ false) × (Due dec.max_iter u → holds u ≡ false)

    -- The three ways to end.
    abbrev pub Ends : Ending A → Type ℓ
    Ends e =
        ((iter : ℕ) × (e ≡ cancelled iter)
          × (iter < dec.max_iter)
          × (cancel iter ≡ true)
          × Silent iter)
        ⊎ (((u : ℕ) × (e ≡ settled (suc u) (after (suc u) start))
              × (u < dec.max_iter)
              × (holds u ≡ true)
              × Silent u)
            ⊎ ((e ≡ exhausted (after dec.max_iter start)) × Silent dec.max_iter))

    Silent-suc :
        (iter : ℕ)
        → Silent iter
        → cancel iter ≡ false
        → (Due dec.max_iter iter → holds iter ≡ false)
        → Silent (suc iter)
    Silent-suc iter before quiet fails u h = elim (eq_cases u iter) [
      | inl e ↦ rw e (quiet, fails)
      | inr ne ↦ before u (omega arith)
    ]

    pub iterate-Ends :
        (left iter : ℕ) (s : Soft A)
        → iter + left ≡ dec.max_iter
        → s ≡ after iter start
        → Silent iter
        → Ends (iterate ops dec cancel left iter s)
    unfolding iterate after
    iterate-Ends zero iter s total here before =
        let all : iter ≡ dec.max_iter = omega arith in
        inr (
          inr (
            ap exhausted (here ∙ ap (λ (t : ℕ). after t start) all),
            λ u h. before u (omega arith),
          ))
    iterate-Ends (suc left) iter s total here before =
        let s' = update_rows ops dec rows 0 s in
        let next : s' ≡ after (suc iter) start = ap (update_rows ops dec rows 0) here in
        let count : iter + 1 ≡ suc iter = omega arith in
        let result : checks ops dec s'.vn_llr rows 0 ≡ holds iter =
          ap (λ (t : Soft A). checks ops dec t.vn_llr rows 0) next in
        elim (Bool-cases (cancel iter)) [
          | inl stop ↦ rw stop (inl (iter, refl, omega arith, stop, before))
          | inr quiet ↦
              elim (Bool-cases (check_due dec.max_iter iter && checks ops dec s'.vn_llr rows 0)) [
                | inl both ↦
                    rw (quiet, both)
                      (inr (
                        inl (
                          iter,
                          ap₂ settled count next,
                          omega arith,
                          sym result ∙ (&&-true _ _ both).1,
                          before,
                        )))
                | inr fails ↦
                    rw (quiet, fails)
                      (iterate-Ends left (iter + 1) s' (omega arith)
                        (next ∙ ap (λ (t : ℕ). after t start) (sym count))
                        (rw count (
                          Silent-suc iter before quiet λ due.
                            sym result
                            ∙ &&-false (check_due dec.max_iter iter) _ fails
                                (check_due-Due dec.max_iter iter due))))
              ]
        ]
