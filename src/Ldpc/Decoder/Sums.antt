-- ===== src/Ldpc/Decoder/Sums.antt =====
-- The rows of the parity-check matrix of src/ldpc_decode.c as lists of columns.
use open_vlsnr.Prelude.{
  ℕ, zero, suc, ◌+◌, ◌-◌, ◌*◌, ◌≤◌, ◌<◌, bit_xor, ◌≡◌, inl, inr, List, [], ◌∷◌, arith, All,
  All-append, length, length-append, take, get_or, Bool-cases, ◌==◌,
}
use open_vlsnr.Types.{ldpc_parallel}
use open_vlsnr.Ldpc.{TableEntry, LdpcCode}
use open_vlsnr.Ldpc.Csr.Buckets.{Edge, of_row}
use open_vlsnr.Ldpc.Csr.Columns.{addr_edges, bit_edges, info_edges, row_columns}

-- The sum modulo 2 of the bits of a word at these columns.
unfoldable pub column_sum : List ℕ → List ℕ → ℕ
column_sum word [] = 0
column_sum word (c ∷ columns) = bit_xor (get_or word c 0) (column_sum word columns)

-- A word over which each row of the code's parity-check matrix sums to zero.
abbrev pub Satisfies : LdpcCode → List ℕ → Type 0
Satisfies code word = (r : ℕ) → r < code.n - code.k → column_sum word (row_columns code r) ≡ 0

All-of_row :
    (b r : ℕ) (edges : List Edge)
    → All (λ (e : Edge). e.1 < b) edges
    → All (λ (c : ℕ). c < b) (of_row r edges)
All-of_row b r [] h = _
All-of_row b r (e ∷ edges) h = elim (Bool-cases (e.0 == r)) [
  | inl here ↦ rw here (h.0, All-of_row b r edges h.1)
  | inr other ↦ rw other (All-of_row b r edges h.1)
]

addr_edges-All :
    (m q vn j b : ℕ) (addrs : TableEntry)
    → vn < b
    → All (λ (e : Edge). e.1 < b) (addr_edges m q vn j addrs)
unfolding addr_edges
addr_edges-All m q vn j b [] h = _
addr_edges-All m q vn j b (a ∷ addrs) h = (h, addr_edges-All m q vn j b addrs h)

bit_edges-All :
    (m q group left j b : ℕ) (entry : TableEntry)
    → group * ldpc_parallel + j + left ≤ b
    → All (λ (e : Edge). e.1 < b) (bit_edges m q group left j entry)
unfolding bit_edges
bit_edges-All m q group zero j b entry h = _
bit_edges-All m q group (suc left) j b entry h =
    All-append (λ (e : Edge). e.1 < b) (addr_edges m q (group * ldpc_parallel + j) j entry)
      (bit_edges m q group left (j + 1) entry)
      (addr_edges-All m q (group * ldpc_parallel + j) j b entry (omega arith))
      (bit_edges-All m q group left (j + 1) b entry (omega arith))

info_edges-All :
    (m q group b : ℕ) (table : List TableEntry)
    → (group + length table) * ldpc_parallel ≤ b
    → All (λ (e : Edge). e.1 < b) (info_edges m q group table)
unfolding info_edges
info_edges-All m q group b [] h = _
info_edges-All m q group b (entry ∷ table) h =
    All-append (λ (e : Edge). e.1 < b) (bit_edges m q group ldpc_parallel 0 entry)
      (info_edges m q (group + 1) table)
      (bit_edges-All m q group ldpc_parallel 0 b entry (omega arith))
      (info_edges-All m q (group + 1) b table (omega arith))

-- The groups of the code stay within its information bits.
abbrev pub Groups : LdpcCode → Type 0
Groups code = length (take code.num_groups code.table) * ldpc_parallel ≤ code.k

-- Every column of the matrix is a bit of the codeword.
pub row_columns-All :
    (code : LdpcCode) (r : ℕ)
    → Groups code
    → r < code.n - code.k
    → All (λ (c : ℕ). c < code.n) (row_columns code r)
unfolding row_columns
row_columns-All code r groups below =
    let m : ℕ = code.n - code.k in
    let table : List TableEntry = take code.num_groups code.table in
    let info : List Edge = info_edges m code.q 0 table in
    elim (Bool-cases (r == 0)) [
      | inl first ↦ rw first (
          All-append (λ (c : ℕ). c < code.n) (of_row r info) ((code.k + 0) ∷ [])
            (All-of_row code.n r info (info_edges-All m code.q 0 code.n table (omega arith)))
            (omega arith))
      | inr later ↦ rw later (
          All-append (λ (c : ℕ). c < code.n) (of_row r info) ((code.k + r - 1) ∷ (code.k + r) ∷ [])
            (All-of_row code.n r info (info_edges-All m code.q 0 code.n table (omega arith)))
            (omega arith))
    ]

pub row_columns_pos : (code : LdpcCode) (r : ℕ) → 0 < length (row_columns code r)
unfolding row_columns
row_columns_pos code r =
    let info : List ℕ =
      of_row r (info_edges (code.n - code.k) code.q 0 (take code.num_groups code.table)) in
    elim (Bool-cases (r == 0)) [
      | inl first ↦ rw first (omega (arith, length-append info ((code.k + 0) ∷ [])))
      | inr later ↦
          rw later (omega (arith, length-append info ((code.k + r - 1) ∷ (code.k + r) ∷ [])))
    ]
