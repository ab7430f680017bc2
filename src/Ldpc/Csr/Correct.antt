-- ===== src/Ldpc/Csr/Correct.antt =====
-- The matrix of `build_csr` (src/ldpc_decode.c) against the rows of the code.
use open_vlsnr.Prelude.{
  ℕ, zero, suc, ◌+◌, ◌-◌, ◌≤◌, ◌<◌, ◌≡◌, refl, ap, ◌∙◌, List, [], ◌∷◌, arith, length,
  length-replicate, get_or, replicate,
}
use open_vlsnr.Ldpc.{LdpcCode}
use open_vlsnr.Ldpc.Csr.{row_counts, row_ptrs, Fill, build_csr}
use open_vlsnr.Ldpc.Csr.Buckets.{of_row, place_all, HasRoom, place_all_lem}
use open_vlsnr.Ldpc.Csr.Columns.{all_edges, row_columns, columns-place_all}
use open_vlsnr.Ldpc.Csr.Starts.{
  of_row-all_edges, all_edges-All, row_counts_lem, row_ptrs-step, row_ptrs-le,
}

row_ptrs_head : (start : ℕ) (count : List ℕ) → get_or (row_ptrs start count) 0 0 ≡ start
unfolding row_ptrs
row_ptrs_head start [] = refl
row_ptrs_head start (c ∷ count) = refl

zero_entry : (m r : ℕ) → get_or {A = ℕ} (replicate m 0) r 0 ≡ 0
zero_entry zero r = refl
zero_entry (suc m) zero = refl
zero_entry (suc m) (suc r) = zero_entry m r

module _ (code : LdpcCode) (proper : code.k < code.n) where
  abbrev height : ℕ
  height = code.n - code.k

  abbrev starts : List ℕ
  starts = row_ptrs 0 (row_counts code)

  counts_length : length (row_counts code) ≡ height
  counts_length = (row_counts_lem code 0 (omega arith)).0

  starts_step :
      (r : ℕ)
      → r < height
      → get_or starts (suc r) 0 ≡ get_or starts r 0 + length (of_row r (all_edges code))
  starts_step r h = omega (
    arith,
    row_ptrs-step 0 (row_counts code) r (omega (arith, counts_length)),
    (row_counts_lem code r h).1,
  )

  starts_ordered : (r r' : ℕ) → r ≤ r' → r' ≤ height → get_or starts r 0 ≤ get_or starts r' 0
  starts_ordered r r' le high = omega (
    arith,
    row_ptrs-le 0 (row_counts code) r (r' - r) (omega (arith, counts_length)),
    ap (λ (n : ℕ). get_or starts n 0) (let e : r + (r' - r) ≡ r' = omega arith in e),
  )

  starts_apart : (r r' : ℕ) → r < r' → r' < height → get_or starts (suc r) 0 ≤ get_or starts r' 0
  starts_apart r r' lt below = starts_ordered (suc r) r' lt (omega arith)

  abbrev empty : List ℕ → Fill
  empty memory = record { count = replicate height 0; col_idx = memory }

  empty-HasRoom :
      (memory : List ℕ)
      → length memory ≡ get_or starts height 0
      → HasRoom height starts starts_apart (all_edges code) (empty memory)
  empty-HasRoom memory len = record {
    rows = length-replicate {A = ℕ} height 0;
    known = all_edges-All code proper;
    room = λ r h. omega (arith, starts_step r h, zero_entry height r);
    stored = λ r h. omega (arith, starts_ordered (suc r) height h (omega arith), len);
  }

-- For a code with fewer information bits than bits, and memory of the size asked for: in the matrix
-- that build_csr makes, row_ptr[0] is 0, row_ptr[r + 1] is row_ptr[r] and the number of columns of
-- row r, and entry k of row r in col_idx is its k-th column: each information bit once for each of
-- its addresses that meets the row, in order, and then the one or two parity bits of the staircase.
pub build_csr-row_columns :
    (code : LdpcCode) (memory : ℕ → List ℕ) (r k : ℕ)
    → code.k < code.n
    → ((n : ℕ) → length (memory n) ≡ n)
    → r < code.n - code.k
    → k < length (row_columns code r)
    → let csr = build_csr code memory in
      (get_or csr.row_ptr 0 0 ≡ 0)
      × (get_or csr.row_ptr (suc r) 0 ≡ get_or csr.row_ptr r 0 + length (row_columns code r))
      × (get_or csr.col_idx (get_or csr.row_ptr r 0 + k) 0 ≡ get_or (row_columns code r) k 0)
unfolding build_csr
build_csr-row_columns code memory r k proper given below inside =
    let m : ℕ = code.n - code.k in
    let ptr : List ℕ = row_ptrs 0 (row_counts code) in
    let row = of_row-all_edges code r below in
    let edges = get_or ptr m 0 in
    let start = empty code proper (memory edges) in
    let at : get_or ptr r 0 + k ≡ get_or ptr r 0 + get_or (start.count) r 0 + k =
      omega (arith, zero_entry m r) in
    (
      row_ptrs_head 0 (row_counts code),
      starts_step code proper r below ∙ ap (λ (t : List ℕ). get_or ptr r 0 + length t) row,
      ap (λ (t : List ℕ). get_or t (get_or ptr r 0 + k) 0)
            (columns-place_all code ptr (memory edges))
          ∙ ap (λ (x : ℕ). get_or (place_all ptr (all_edges code) start).col_idx x 0) at
          ∙ place_all_lem m ptr (starts_apart code proper) (all_edges code) start r k
              (empty-HasRoom code proper (memory edges) (given edges)) below
              (omega (arith, inside, ap length row))
          ∙ ap (λ (t : List ℕ). get_or t k 0) row,
    )
