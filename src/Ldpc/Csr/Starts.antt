-- ===== src/Ldpc/Csr/Starts.antt =====
-- The number of columns of each row in `build_csr` (src/ldpc_decode.c), and where a row starts.
use open_vlsnr.Prelude.{
  ℕ, zero, suc, ◌+◌, ◌-◌, ◌≤◌, ◌<◌, ◌≡◌, refl, sym, ap, ◌∙◌, List, [], ◌∷◌, ◌++◌, All, All-append,
  arith, length, length-append, length-replicate, get_or, take, replicate, ◌==◌, if◌then◌else◌,
  Bool, false,
}
use open_vlsnr.Ldpc.{TableEntry, LdpcCode}
use open_vlsnr.Ldpc.Csr.{add_count, count_groups, row_counts, row_ptrs}
use open_vlsnr.Ldpc.Csr.Buckets.{
  Edge, of_row, of_row_at, of_row-ne, of_row-append, length-add_count, add_count_at, add_count-ne,
}
use open_vlsnr.Ldpc.Csr.Columns.{info_edges, stair_edges, all_edges, row_columns}
use open_vlsnr.Ldpc.Csr.Counts.{
  length-tally, get_or-tally, count_groups-tally, info_edges-All, stair_edges-All, of_row-below,
  of_row-stair_edges, length-count_stairs, get_or-count_stairs,
}

-- The columns of a row, among all edges.
pub of_row-all_edges :
    (code : LdpcCode) (r : ℕ) → r < code.n - code.k → of_row r (all_edges code) ≡ row_columns code r
unfolding all_edges row_columns
of_row-all_edges code r below =
    let m : ℕ = code.n - code.k in
    let info : List Edge = info_edges m code.q 0 (take code.num_groups code.table) in
    let stairs : List Edge = stair_edges code.k (m - 1) 1 in
    of_row-append r info ((0, code.k + 0) ∷ stairs)
    ∙ ap (λ (t : List ℕ). of_row r info ++ t) (last_part m r below)
  where
    last_part :
        (m r : ℕ)
        → r < m
        → of_row r ((0, code.k + 0) ∷ stair_edges code.k (m - 1) 1)
          ≡ (if r == 0 then (code.k + 0) ∷ [] else (code.k + r - 1) ∷ (code.k + r) ∷ [])
    last_part m zero below =
        ap (λ (t : List ℕ). (code.k + 0) ∷ t) (of_row-below code.k (m - 1) 1 0 (omega arith))
    last_part m (suc r) below =
        of_row-ne (suc r) 0 (code.k + 0) (stair_edges code.k (m - 1) 1) (omega arith)
        ∙ of_row-stair_edges code.k (m - 1) 1 (suc r) (omega arith) (omega arith)
        ∙ ap
            (λ (b : Bool).
              if b then (code.k + 0) ∷ [] else (code.k + suc r - 1) ∷ (code.k + suc r) ∷ [])
            (let other : false ≡ (suc r == 0) = ground arith in other)

pub all_edges-All :
    (code : LdpcCode) → code.k < code.n → All (λ e. e.0 < code.n - code.k) (all_edges code)
unfolding all_edges
all_edges-All code h =
    let m : ℕ = code.n - code.k in
    All-append (λ (e : Edge). e.0 < m) (info_edges m code.q 0 (take code.num_groups code.table))
      ((0, code.k + 0) ∷ stair_edges code.k (m - 1) 1)
      (info_edges-All m code.q (omega arith) 0 (take code.num_groups code.table))
      (omega arith, stair_edges-All m code.k (m - 1) 1 (omega arith))

-- The first pass counts the columns of each row.
pub row_counts_lem :
    (code : LdpcCode) (r : ℕ)
    → r < code.n - code.k
    → (length (row_counts code) ≡ code.n - code.k)
      × (get_or (row_counts code) r 0 ≡ length (of_row r (all_edges code)))
unfolding row_counts all_edges
row_counts_lem code r below =
    let m : ℕ = code.n - code.k in
    let table : List TableEntry = take code.num_groups code.table in
    let zeros : List ℕ = replicate m 0 in
    let edges : List Edge = info_edges m code.q 0 table in
    let stairs : List Edge = stair_edges code.k (m - 1) 1 in
    let info = count_groups m code.q table zeros in
    let len : length info ≡ m =
      ap length (count_groups-tally m code.q 0 table zeros)
      ∙ length-tally edges zeros
      ∙ length-replicate {A = ℕ} m 0 in
    let first : get_or info r 0 ≡ get_or zeros r 0 + length (of_row r edges) =
      ap (λ (t : List ℕ). get_or t r 0) (count_groups-tally m code.q 0 table zeros)
      ∙ get_or-tally m r edges zeros (length-replicate {A = ℕ} m 0)
          (info_edges-All m code.q (omega arith) 0 table) in
    let enough : m - 1 + 1 ≤ length (add_count 0 1 info) =
      omega (arith, length-add_count 0 1 info, len, below) in
    (
      length-count_stairs (m - 1) 1 (add_count 0 1 info) ∙ length-add_count 0 1 info ∙ len,
      get_or-count_stairs code.k (m - 1) 1 r (add_count 0 1 info) enough
          ∙ total r below info len (of_row r edges) stairs (first ∙ omega (arith, zero_entry m r))
          ∙ ap length (sym (of_row-append r edges ((0, code.k + 0) ∷ stairs))),
    )
  where
    zero_entry : (m r : ℕ) → get_or {A = ℕ} (replicate m 0) r 0 ≡ 0
    zero_entry zero r = refl
    zero_entry (suc m) zero = refl
    zero_entry (suc m) (suc r) = zero_entry m r

    total :
        (r : ℕ)
        → r < code.n - code.k
        → (info : List ℕ) → length info ≡ code.n - code.k
        → (front : List ℕ) (stairs : List Edge) → get_or info r 0 ≡ length front
        → get_or (add_count 0 1 info) r 0 + length (of_row r stairs)
          ≡ length (front ++ of_row r ((0, code.k + 0) ∷ stairs))
    total zero below info len front stairs e = omega (
      arith,
      e,
      add_count_at 0 0 1 info refl (omega (arith, len, below)),
      length-append front (of_row 0 ((0, code.k + 0) ∷ stairs)),
      ap length (of_row_at 0 0 (code.k + 0) stairs refl),
    )
    total (suc r) below info len front stairs e = omega (
      arith,
      e,
      add_count-ne 0 (suc r) 1 info (omega arith),
      length-append front (of_row (suc r) ((0, code.k + 0) ∷ stairs)),
      ap length (of_row-ne (suc r) 0 (code.k + 0) stairs (omega arith)),
    )

-- Each row starts where the one before it ends.
pub row_ptrs-step :
    (start : ℕ) (count : List ℕ) (r : ℕ)
    → r < length count
    → get_or (row_ptrs start count) (suc r) 0 ≡ get_or (row_ptrs start count) r 0 + get_or count r 0
unfolding row_ptrs
row_ptrs-step start [] r h = absurd (omega arith)
row_ptrs-step start (c ∷ []) zero h = refl
row_ptrs-step start (c ∷ d ∷ count) zero h = refl
row_ptrs-step start (c ∷ count) (suc r) h = row_ptrs-step (start + c) count r (omega arith)

pub row_ptrs-le :
    (start : ℕ) (count : List ℕ) (r steps : ℕ)
    → r + steps ≤ length count
    → get_or (row_ptrs start count) r 0 ≤ get_or (row_ptrs start count) (r + steps) 0
row_ptrs-le start count r zero h = omega (
  arith,
  ap (λ (n : ℕ). get_or (row_ptrs start count) n 0) (let e : r ≡ r + 0 = omega arith in e),
)
row_ptrs-le start count r (suc steps) h = omega (
  arith,
  row_ptrs-le start count r steps (omega arith),
  row_ptrs-step start count (r + steps) (omega arith),
  ap (λ (n : ℕ). get_or (row_ptrs start count) n 0)
      (let e : suc (r + steps) ≡ r + suc steps = omega arith in e),
)
