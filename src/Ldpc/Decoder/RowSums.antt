-- ===== src/Ldpc/Decoder/RowSums.antt =====
-- The rows that build_csr of src/ldpc_decode.c builds, as sums over a word, against the sums that the
-- parity bits of src/ldpc_encode.c close.
use open_vlsnr.Prelude.{
  ℕ, zero, suc, ◌+◌, ◌-◌, ◌*◌, ◌%◌, ◌≤◌, ◌<◌, bit_xor, ◌≡◌, refl, sym, ap, ap₂, ◌∙◌, false, inl,
  inr, List, [], ◌∷◌, ◌++◌, arith, All, All-get_or, length, length-take, length-drop, take, drop,
  get_or, Bool-cases, ◌==◌, if◌then◌else◌,
}
use open_vlsnr.Types.{ldpc_parallel}
use open_vlsnr.Bits.Xor.{xor-zero, xor_assoc, xor_comm}
use open_vlsnr.Bits.{zero-bit_xor}
use open_vlsnr.Bits.Binary.{IsBinary}
use open_vlsnr.Ldpc.Decoder.Sums.{column_sum, Groups}
use open_vlsnr.Ldpc.{TableEntry, LdpcCode}
use open_vlsnr.Ldpc.Rows.{entry_weight, counted, group_sum, info_sum}
use open_vlsnr.Ldpc.ParityCheck.{before, row_sum}
use open_vlsnr.Ldpc.Csr.Buckets.{Edge, of_row, of_row-append}
use open_vlsnr.Ldpc.Csr.Columns.{addr_edges, bit_edges, info_edges, row_columns}

column_sum-append :
    (word xs ys : List ℕ)
    → column_sum word (xs ++ ys) ≡ bit_xor (column_sum word xs) (column_sum word ys)
unfolding column_sum
column_sum-append word [] ys = sym (zero-bit_xor (column_sum word ys))
column_sum-append word (c ∷ xs) ys =
    ap (bit_xor (get_or word c 0)) (column_sum-append word xs ys)
    ∙ sym (xor_assoc (get_or word c 0) (column_sum word xs) (column_sum word ys))

-- The columns of the edges in a row, summed.
abbrev edge_sum : List ℕ → ℕ → List Edge → ℕ
edge_sum word r edges = column_sum word (of_row r edges)

edge_sum-append :
    (word : List ℕ) (r : ℕ) (xs ys : List Edge)
    → edge_sum word r (xs ++ ys) ≡ bit_xor (edge_sum word r xs) (edge_sum word r ys)
edge_sum-append word r xs ys =
    ap (column_sum word) (of_row-append r xs ys)
    ∙ column_sum-append word (of_row r xs) (of_row r ys)

pub get_or-take : (n i : ℕ) (xs : List ℕ) → i < n → get_or (take n xs) i 0 ≡ get_or xs i 0
get_or-take zero i xs h = absurd (omega arith)
get_or-take (suc n) i [] h = refl
get_or-take (suc n) zero (x ∷ xs) h = refl
get_or-take (suc n) (suc i) (x ∷ xs) h = get_or-take n i xs (omega arith)

pub get_or-drop : (n i : ℕ) (xs : List ℕ) → get_or (drop n xs) i 0 ≡ get_or xs (n + i) 0
get_or-drop zero i xs = ap (λ (j : ℕ). get_or xs j 0) (let e : i ≡ 0 + i = omega arith in e)
get_or-drop (suc n) i [] = refl
get_or-drop (suc n) i (x ∷ xs) =
    get_or-drop n i xs
    ∙ ap (λ (j : ℕ). get_or (x ∷ xs) j 0) (let e : suc (n + i) ≡ suc n + i = omega arith in e)

module _ (word : List ℕ) (binary : All IsBinary word) (m q r : ℕ) where
  -- Bit vn of the word, put into rows by its addresses, counts as often as it stands in row r.
  edge_sum-addr_edges :
      (vn j b : ℕ) (addrs : TableEntry)
      → get_or word vn 0 ≡ b
      → IsBinary b
      → edge_sum word r (addr_edges m q vn j addrs) ≡ counted b (entry_weight m q r j addrs)
  unfolding addr_edges entry_weight column_sum
  edge_sum-addr_edges vn j zero [] e h = refl
  edge_sum-addr_edges vn j (suc b) [] e h = refl
  edge_sum-addr_edges vn j zero (a ∷ addrs) e h =
      let rest = edge_sum-addr_edges vn j zero addrs e h in
      elim (Bool-cases ((a + j * q) % m == r)) [
        | inl here ↦ rw here (ap₂ bit_xor e rest)
        | inr other ↦ rw other rest
      ]
  edge_sum-addr_edges vn j (suc b) (a ∷ addrs) e h =
      let rest = edge_sum-addr_edges vn j (suc b) addrs e h in
      let one : get_or word vn 0 ≡ 1 = omega (arith, e, h) in
      elim (Bool-cases ((a + j * q) % m == r)) [
        | inl here ↦ rw here (ap₂ bit_xor one rest)
        | inr other ↦ rw other (rest ∙ sym (zero-bit_xor (entry_weight m q r j addrs)))
      ]

  edge_sum-bit_edges :
      (group j : ℕ) (bits : List ℕ) (entry : TableEntry)
      → ((i : ℕ)
          → i < length bits
          → get_or bits i 0 ≡ get_or word (group * ldpc_parallel + j + i) 0)
      → edge_sum word r (bit_edges m q group (length bits) j entry) ≡ group_sum m q r j entry bits
  unfolding bit_edges group_sum column_sum
  edge_sum-bit_edges group j [] entry same = refl
  edge_sum-bit_edges group j (b ∷ bits) entry same =
      let vn = group * ldpc_parallel + j in
      let first : get_or word vn 0 ≡ b =
        ap (λ (i : ℕ). get_or word i 0) (let e : vn ≡ vn + 0 = omega arith in e)
        ∙ sym (same 0 (omega arith)) in
      let next : j + 1 ≡ suc j = omega arith in
      edge_sum-append word r (addr_edges m q vn j entry)
        (bit_edges m q group (length bits) (j + 1) entry)
      ∙ ap₂ bit_xor
          (edge_sum-addr_edges vn j b entry first
            (rw (← first) (All-get_or IsBinary word vn 0 binary (omega arith))))
          (ap (λ (t : ℕ). edge_sum word r (bit_edges m q group (length bits) t entry)) next
            ∙ edge_sum-bit_edges group (suc j) bits entry (λ i h.
              same (suc i) (omega arith)
              ∙ ap (λ (t : ℕ). get_or word t 0)
                  (let e : vn + suc i ≡ group * ldpc_parallel + suc j + i = omega arith in e)))

  edge_sum-info_edges :
      (group : ℕ) (info : List ℕ) (table : List TableEntry)
      → length table * ldpc_parallel ≤ length info
      → ((i : ℕ) → i < length info → get_or info i 0 ≡ get_or word (group * ldpc_parallel + i) 0)
      → edge_sum word r (info_edges m q group table) ≡ info_sum m q r table info
  unfolding info_edges info_sum column_sum
  edge_sum-info_edges group info [] room same = refl
  edge_sum-info_edges group info (entry ∷ table) room same =
      let bits = take ldpc_parallel info in
      let size : length bits ≡ ldpc_parallel = omega (arith, length-take ldpc_parallel info) in
      edge_sum-append word r (bit_edges m q group ldpc_parallel 0 entry)
        (info_edges m q (group + 1) table)
      ∙ ap₂ bit_xor
          (ap (λ (t : ℕ). edge_sum word r (bit_edges m q group t 0 entry)) (sym size)
            ∙ edge_sum-bit_edges group 0 bits entry (λ i h.
              get_or-take ldpc_parallel i info (omega (arith, size))
              ∙ same i (omega (arith, size))
              ∙ ap (λ (t : ℕ). get_or word t 0)
                  (let e : group * ldpc_parallel + i ≡ group * ldpc_parallel + 0 + i =
                      omega arith in
                    e)))
          (edge_sum-info_edges (group + 1) (drop ldpc_parallel info) table
            (omega (arith, length-drop ldpc_parallel info))
            (λ i h.
              get_or-drop ldpc_parallel i info
              ∙ same (ldpc_parallel + i) (omega (arith, length-drop ldpc_parallel info))
              ∙ ap (λ (t : ℕ). get_or word t 0)
                  (let e : group * ldpc_parallel + (ldpc_parallel + i)
                        ≡ (group + 1) * ldpc_parallel + i =
                      omega arith in
                    e)))

-- The parity bits of the staircase in a row.
stairs_sum :
    (word : List ℕ) (k r : ℕ)
    → column_sum word (if r == 0 then (k + 0) ∷ [] else (k + r - 1) ∷ (k + r) ∷ [])
      ≡ bit_xor (get_or (drop k word) r 0) (before (drop k word) r)
unfolding column_sum
stairs_sum word k zero = ap (λ (t : ℕ). bit_xor t 0) (sym (get_or-drop k 0 word))
stairs_sum word k (suc r) =
    let above : k + suc r - 1 ≡ k + r = omega arith in
    let later : (suc r == 0) ≡ false = ground arith in
    rw (above, later)
      (ap₂ bit_xor (sym (get_or-drop k r word))
          (xor-zero (get_or word (k + suc r) 0) ∙ sym (get_or-drop k (suc r) word))
        ∙ xor_comm (get_or (drop k word) r 0) (get_or (drop k word) (suc r) 0))

-- Over a word of bits, the columns of a row sum to the encoder's sum of that row.
pub column_sum-row_sum :
    (code : LdpcCode) (word : List ℕ) (r : ℕ)
    → All IsBinary word
    → Groups code
    → code.k ≤ length word
    → column_sum word (row_columns code r) ≡ row_sum code r word
unfolding row_columns row_sum
column_sum-row_sum code word r binary groups enough =
    let m : ℕ = code.n - code.k in
    let table : List TableEntry = take code.num_groups code.table in
    let info : List ℕ = take code.k word in
    let size : length info ≡ code.k = omega (arith, length-take code.k word) in
    column_sum-append word (of_row r (info_edges m code.q 0 table))
      (if r == 0 then (code.k + 0) ∷ [] else (code.k + r - 1) ∷ (code.k + r) ∷ [])
    ∙ ap₂ bit_xor
        (edge_sum-info_edges word binary m code.q r 0 info table (omega (arith, size, groups))
          (λ i h.
            get_or-take code.k i word (omega (arith, size))
            ∙ ap (λ (t : ℕ). get_or word t 0)
                (let e : i ≡ 0 * ldpc_parallel + i = omega arith in e)))
        (stairs_sum word code.k r)
