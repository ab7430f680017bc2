-- ===== src/Ldpc/Csr/Columns.antt =====
-- The matrix that `build_csr` (src/ldpc_decode.c) builds, row by row.
use open_vlsnr.Prelude.{
  ℕ, zero, suc, ◌+◌, ◌-◌, ◌*◌, ◌%◌, ◌≡◌, refl, sym, ap, ◌∙◌, List, [], ◌∷◌, ◌++◌, take, replicate,
  ◌==◌, if◌then◌else◌,
}
use open_vlsnr.Types.{ldpc_parallel}
use open_vlsnr.Ldpc.{TableEntry, LdpcCode}
use open_vlsnr.Ldpc.Csr.{Fill, place, fill_addrs, fill_bits, fill_groups, fill_stairs, columns}
use open_vlsnr.Ldpc.Csr.Buckets.{Edge, of_row, place_all, place_all-append}

-- The edges of the information part, bit by bit.
unfoldable pub addr_edges : ℕ → ℕ → ℕ → ℕ → TableEntry → List Edge
addr_edges m q vn j [] = []
addr_edges m q vn j (a ∷ addrs) = ((a + j * q) % m, vn) ∷ addr_edges m q vn j addrs

unfoldable pub bit_edges : ℕ → ℕ → ℕ → ℕ → ℕ → TableEntry → List Edge
bit_edges m q group zero j entry = []
bit_edges m q group (suc left) j entry =
    addr_edges m q (group * ldpc_parallel + j) j entry ++ bit_edges m q group left (j + 1) entry

unfoldable pub info_edges : ℕ → ℕ → ℕ → List TableEntry → List Edge
info_edges m q group [] = []
info_edges m q group (entry ∷ table) =
    bit_edges m q group ldpc_parallel 0 entry ++ info_edges m q (group + 1) table

-- The edges of the staircase, from row i on.
unfoldable pub stair_edges : ℕ → ℕ → ℕ → List Edge
stair_edges k zero i = []
stair_edges k (suc left) i = (i, k + i - 1) ∷ (i, k + i) ∷ stair_edges k left (i + 1)

-- All edges, in the order of the second pass.
unfoldable pub all_edges : LdpcCode → List Edge
all_edges code =
    let m = code.n - code.k in
    info_edges m code.q 0 (take code.num_groups code.table)
    ++ (0, code.k + 0) ∷ stair_edges code.k (m - 1) 1

-- The columns of a row: the information bits whose addresses meet it, and the parity bits of the
-- staircase.
unfoldable pub row_columns : LdpcCode → ℕ → List ℕ
row_columns code r =
    of_row r (info_edges (code.n - code.k) code.q 0 (take code.num_groups code.table))
    ++ (if r == 0 then (code.k + 0) ∷ [] else (code.k + r - 1) ∷ (code.k + r) ∷ [])

module _ (row_ptr : List ℕ) (m q : ℕ) where
  fill_addrs-place_all :
      (vn j : ℕ) (addrs : TableEntry) (s : Fill)
      → fill_addrs row_ptr m q vn j addrs s ≡ place_all row_ptr (addr_edges m q vn j addrs) s
  unfolding fill_addrs place_all addr_edges
  fill_addrs-place_all vn j [] s = refl
  fill_addrs-place_all vn j (a ∷ addrs) s =
      fill_addrs-place_all vn j addrs (place row_ptr ((a + j * q) % m) vn s)

  fill_bits-place_all :
      (group left j : ℕ) (entry : TableEntry) (s : Fill)
      → fill_bits row_ptr m q group left j entry s
        ≡ place_all row_ptr (bit_edges m q group left j entry) s
  unfolding fill_bits bit_edges place_all
  fill_bits-place_all group zero j entry s = refl
  fill_bits-place_all group (suc left) j entry s =
      let vn : ℕ = group * ldpc_parallel + j in
      fill_bits-place_all group left (j + 1) entry (fill_addrs row_ptr m q vn j entry s)
      ∙ ap (place_all row_ptr (bit_edges m q group left (j + 1) entry))
          (fill_addrs-place_all vn j entry s)
      ∙ sym (
          place_all-append row_ptr (addr_edges m q vn j entry)
            (bit_edges m q group left (j + 1) entry) s)

  fill_groups-place_all :
      (group : ℕ) (table : List TableEntry) (s : Fill)
      → fill_groups row_ptr m q group table s ≡ place_all row_ptr (info_edges m q group table) s
  unfolding fill_groups info_edges place_all
  fill_groups-place_all group [] s = refl
  fill_groups-place_all group (entry ∷ table) s =
      fill_groups-place_all (group + 1) table (fill_bits row_ptr m q group ldpc_parallel 0 entry s)
      ∙ ap (place_all row_ptr (info_edges m q (group + 1) table))
          (fill_bits-place_all group ldpc_parallel 0 entry s)
      ∙ sym (
          place_all-append row_ptr (bit_edges m q group ldpc_parallel 0 entry)
            (info_edges m q (group + 1) table) s)

  fill_stairs-place_all :
      (k left i : ℕ) (s : Fill)
      → fill_stairs row_ptr k left i s ≡ place_all row_ptr (stair_edges k left i) s
  unfolding fill_stairs place_all stair_edges
  fill_stairs-place_all k zero i s = refl
  fill_stairs-place_all k (suc left) i s =
      fill_stairs-place_all k left (i + 1) (place row_ptr i (k + i) (place row_ptr i (k + i - 1) s))

-- The second pass goes through all edges.
pub columns-place_all :
    (code : LdpcCode) (row_ptr memory : List ℕ)
    → columns code row_ptr memory
      ≡ (place_all row_ptr
          (all_edges code)
          (record { count = replicate (code.n - code.k) 0; col_idx = memory })).col_idx
unfolding columns all_edges place_all
columns-place_all code row_ptr memory =
    let m : ℕ = code.n - code.k in
    let table : List TableEntry = take code.num_groups code.table in
    let start : Fill = record { count = replicate m 0; col_idx = memory } in
    let stairs : List Edge = (0, code.k + 0) ∷ stair_edges code.k (m - 1) 1 in
    ap (λ (s : Fill). s.col_idx)
      (fill_stairs-place_all row_ptr m code.q code.k (m - 1) 1
          (place row_ptr 0 (code.k + 0) (fill_groups row_ptr m code.q 0 table start))
        ∙ ap (place_all row_ptr stairs) (fill_groups-place_all row_ptr m code.q 0 table start)
        ∙ sym (place_all-append row_ptr (info_edges m code.q 0 table) stairs start))
