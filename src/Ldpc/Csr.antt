-- ===== src/Ldpc/Csr.antt =====
-- `build_csr` of src/ldpc_decode.c: the rows of the parity-check matrix for the decoder. Counters, sums
-- of addresses and shifts are natural numbers: for the codes of the tables all of them, the number of
-- edges too, are far below 2^32.
pub mod Buckets
pub mod Columns
pub mod Counts
pub mod Starts
pub mod Correct
mod Tests
use open_vlsnr.Prelude.{
  ℕ, zero, suc, ◌+◌, ◌-◌, ◌*◌, ◌%◌, List, [], ◌∷◌, get_or, set, replicate, take,
}
use open_vlsnr.Types.{ldpc_parallel}
use open_vlsnr.Ldpc.{TableEntry, LdpcCode}

-- `row_count[r] += n`
unfoldable pub add_count : ℕ → ℕ → List ℕ → List ℕ
add_count r n count = set count r (get_or count r 0 + n)

-- The first pass over the addresses of bit j of a group.
pub count_addrs : ℕ → ℕ → ℕ → TableEntry → List ℕ → List ℕ
count_addrs m q j [] count = count
count_addrs m q j (a ∷ addrs) count = count_addrs m q j addrs (add_count ((a + j * q) % m) 1 count)

-- Over the bits of a group, from bit j on.
pub count_bits : ℕ → ℕ → ℕ → ℕ → TableEntry → List ℕ → List ℕ
count_bits m q zero j entry count = count
count_bits m q (suc left) j entry count =
    count_bits m q left (j + 1) entry (count_addrs m q j entry count)

unfoldable pub count_groups : ℕ → ℕ → List TableEntry → List ℕ → List ℕ
count_groups m q [] count = count
count_groups m q (entry ∷ table) count =
    count_groups m q table (count_bits m q ldpc_parallel 0 entry count)

-- `for (i = 1; i < m; i++) row_count[i] += 2;` from i on.
unfoldable pub count_stairs : ℕ → ℕ → List ℕ → List ℕ
count_stairs zero i count = count
count_stairs (suc left) i count = count_stairs left (i + 1) (add_count i 2 count)

-- The whole first pass.
unfoldable pub row_counts : LdpcCode → List ℕ
row_counts code =
    let m = code.n - code.k in
    let info = count_groups m code.q (take code.num_groups code.table) (replicate m 0) in
    count_stairs (m - 1) 1 (add_count 0 1 info)

-- `row_ptr`, from an entry of this value on.
unfoldable pub row_ptrs : ℕ → List ℕ → List ℕ
row_ptrs start [] = start ∷ []
row_ptrs start (c ∷ count) = start ∷ row_ptrs (start + c) count

-- What the second pass changes.
pub record Fill : Type 0 where
  pub count : List ℕ
  pub col_idx : List ℕ

-- One column of a row is stored.
unfoldable pub place : List ℕ → ℕ → ℕ → Fill → Fill
place row_ptr r column s = record {
  count = add_count r 1 s.count;
  col_idx = set s.col_idx (get_or row_ptr r 0 + get_or s.count r 0) column;
}

pub fill_addrs : List ℕ → ℕ → ℕ → ℕ → ℕ → TableEntry → Fill → Fill
fill_addrs row_ptr m q vn j [] s = s
fill_addrs row_ptr m q vn j (a ∷ addrs) s =
    fill_addrs row_ptr m q vn j addrs (place row_ptr ((a + j * q) % m) vn s)

pub fill_bits : List ℕ → ℕ → ℕ → ℕ → ℕ → ℕ → TableEntry → Fill → Fill
fill_bits row_ptr m q group zero j entry s = s
fill_bits row_ptr m q group (suc left) j entry s =
    fill_bits row_ptr m q group left (j + 1) entry
      (fill_addrs row_ptr m q (group * ldpc_parallel + j) j entry s)

unfoldable pub fill_groups : List ℕ → ℕ → ℕ → ℕ → List TableEntry → Fill → Fill
fill_groups row_ptr m q group [] s = s
fill_groups row_ptr m q group (entry ∷ table) s =
    fill_groups row_ptr m q (group + 1) table (fill_bits row_ptr m q group ldpc_parallel 0 entry s)

-- Rows i, i + 1, ... of the staircase.
unfoldable pub fill_stairs : List ℕ → ℕ → ℕ → ℕ → Fill → Fill
fill_stairs row_ptr k zero i s = s
fill_stairs row_ptr k (suc left) i s =
    fill_stairs row_ptr k left (i + 1) (place row_ptr i (k + i) (place row_ptr i (k + i - 1) s))

-- `struct ldpc_csr`
pub record LdpcCsr : Type 0 where
  pub num_rows : ℕ
  pub num_cols : ℕ
  pub row_ptr : List ℕ
  pub col_idx : List ℕ
  pub num_edges : ℕ

-- The second pass, over the memory that `malloc` gives for the columns.
unfoldable pub columns : LdpcCode → List ℕ → List ℕ → List ℕ
columns code row_ptr memory =
    let m = code.n - code.k in
    let start : Fill = record { count = replicate m 0; col_idx = memory } in
    let info = fill_groups row_ptr m code.q 0 (take code.num_groups code.table) start in
    (fill_stairs row_ptr code.k (m - 1) 1 (place row_ptr 0 (code.k + 0) info)).col_idx

-- `build_csr` when each `malloc` succeeds; `memory` gives so many numbers.
unfoldable pub build_csr : LdpcCode → (ℕ → List ℕ) → LdpcCsr
build_csr code memory =
    let m = code.n - code.k in
    let row_ptr = row_ptrs 0 (row_counts code) in
    let num_edges = get_or row_ptr m 0 in
    record {
      num_rows = m;
      num_cols = code.n;
      row_ptr = row_ptr;
      col_idx = columns code row_ptr (memory num_edges);
      num_edges = num_edges;
    }
