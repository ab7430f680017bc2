-- ===== src/Ldpc/Csr/Counts.antt =====
-- The first pass of `build_csr` (src/ldpc_decode.c) and the start of each row.
use native.Mathlib.Nat.{mod-lt}
use open_vlsnr.Prelude.{
  ℕ, zero, suc, ◌+◌, ◌-◌, ◌*◌, ◌%◌, ◌≤◌, ◌<◌, ◌≡◌, ◌≢◌, refl, sym, ap, ◌∙◌, List, [], ◌∷◌, ◌++◌,
  All, All-append, arith, length, get_or, eq_cases, inl, inr,
}
use open_vlsnr.Types.{ldpc_parallel}
use open_vlsnr.Ldpc.{TableEntry}
use open_vlsnr.Ldpc.Csr.{add_count, count_addrs, count_bits, count_groups, count_stairs}
use open_vlsnr.Ldpc.Csr.Buckets.{
  Edge, of_row, of_row_at, of_row-ne, length-add_count, add_count_at, add_count-ne,
}
use open_vlsnr.Ldpc.Csr.Columns.{addr_edges, bit_edges, info_edges, stair_edges}

pub tally : List Edge → List ℕ → List ℕ
tally [] count = count
tally (e ∷ edges) count = tally edges (add_count e.0 1 count)

tally-append :
    (xs ys : List Edge) (count : List ℕ) → tally (xs ++ ys) count ≡ tally ys (tally xs count)
unfolding tally
tally-append [] ys count = refl
tally-append (e ∷ xs) ys count = tally-append xs ys (add_count e.0 1 count)

pub length-tally : (edges : List Edge) (count : List ℕ) → length (tally edges count) ≡ length count
unfolding tally
length-tally [] count = refl
length-tally (e ∷ edges) count =
    length-tally edges (add_count e.0 1 count) ∙ length-add_count e.0 1 count

pub get_or-tally :
    (m r : ℕ) (edges : List Edge) (count : List ℕ)
    → length count ≡ m
    → All (λ e. e.0 < m) edges
    → get_or (tally edges count) r 0 ≡ get_or count r 0 + length (of_row r edges)
unfolding tally
get_or-tally m r [] count len known = omega arith
get_or-tally m r ((r', c) ∷ edges) count len known =
    let ih =
      get_or-tally m r edges (add_count r' 1 count) (length-add_count r' 1 count ∙ len) known.1 in
    elim (eq_cases r' r) [
      | inl e ↦ omega (
        arith,
        ih,
        ap length (of_row_at r r' c edges e),
        add_count_at r' r 1 count e (omega (arith, len, known.0)),
      )
      | inr ne ↦
          omega (arith, ih, ap length (of_row-ne r r' c edges ne), add_count-ne r' r 1 count ne)
    ]

module _ (m q : ℕ) where
  count_addrs-tally :
      (vn j : ℕ) (addrs : TableEntry) (count : List ℕ)
      → count_addrs m q j addrs count ≡ tally (addr_edges m q vn j addrs) count
  unfolding count_addrs tally addr_edges
  count_addrs-tally vn j [] count = refl
  count_addrs-tally vn j (a ∷ addrs) count =
      count_addrs-tally vn j addrs (add_count ((a + j * q) % m) 1 count)

  count_bits-tally :
      (group left j : ℕ) (entry : TableEntry) (count : List ℕ)
      → count_bits m q left j entry count ≡ tally (bit_edges m q group left j entry) count
  unfolding count_bits bit_edges tally
  count_bits-tally group zero j entry count = refl
  count_bits-tally group (suc left) j entry count =
      let vn : ℕ = group * ldpc_parallel + j in
      count_bits-tally group left (j + 1) entry (count_addrs m q j entry count)
      ∙ ap (tally (bit_edges m q group left (j + 1) entry)) (count_addrs-tally vn j entry count)
      ∙ sym
          (tally-append (addr_edges m q vn j entry) (bit_edges m q group left (j + 1) entry) count)

  pub count_groups-tally :
      (group : ℕ) (table : List TableEntry) (count : List ℕ)
      → count_groups m q table count ≡ tally (info_edges m q group table) count
  unfolding count_groups info_edges tally
  count_groups-tally group [] count = refl
  count_groups-tally group (entry ∷ table) count =
      count_groups-tally (group + 1) table (count_bits m q ldpc_parallel 0 entry count)
      ∙ ap (tally (info_edges m q (group + 1) table))
          (count_bits-tally group ldpc_parallel 0 entry count)
      ∙ sym (
          tally-append (bit_edges m q group ldpc_parallel 0 entry)
            (info_edges m q (group + 1) table) count)

  module _ (pos : 0 < m) where
    addr_edges-All :
        (vn j : ℕ) (addrs : TableEntry) → All (λ e. e.0 < m) (addr_edges m q vn j addrs)
    unfolding addr_edges
    addr_edges-All vn j [] = _
    addr_edges-All vn j (a ∷ addrs) = (mod-lt (a + j * q) pos, addr_edges-All vn j addrs)

    bit_edges-All :
        (group left j : ℕ) (entry : TableEntry)
        → All (λ e. e.0 < m) (bit_edges m q group left j entry)
    unfolding bit_edges
    bit_edges-All group zero j entry = _
    bit_edges-All group (suc left) j entry =
        All-append (λ (e : Edge). e.0 < m) (addr_edges m q (group * ldpc_parallel + j) j entry)
          (bit_edges m q group left (j + 1) entry)
          (addr_edges-All (group * ldpc_parallel + j) j entry)
          (bit_edges-All group left (j + 1) entry)

    pub info_edges-All :
        (group : ℕ) (table : List TableEntry) → All (λ e. e.0 < m) (info_edges m q group table)
    unfolding info_edges
    info_edges-All group [] = _
    info_edges-All group (entry ∷ table) =
        All-append (λ (e : Edge). e.0 < m) (bit_edges m q group ldpc_parallel 0 entry)
          (info_edges m q (group + 1) table) (bit_edges-All group ldpc_parallel 0 entry)
          (info_edges-All (group + 1) table)

pub stair_edges-All : (m k left i : ℕ) → left + i ≤ m → All (λ e. e.0 < m) (stair_edges k left i)
unfolding stair_edges
stair_edges-All m k zero i h = _
stair_edges-All m k (suc left) i h =
    (omega arith, (omega arith, stair_edges-All m k left (i + 1) (omega arith)))

-- A row of the staircase.
pub of_row-below : (k left i r : ℕ) → r < i → of_row r (stair_edges k left i) ≡ []
unfolding stair_edges
of_row-below k zero i r h = refl
of_row-below k (suc left) i r h =
    let ne : i ≢ r = omega arith in
    of_row-ne r i (k + i - 1) ((i, k + i) ∷ stair_edges k left (i + 1)) ne
    ∙ of_row-ne r i (k + i) (stair_edges k left (i + 1)) ne
    ∙ of_row-below k left (i + 1) r (omega arith)

pub of_row-stair_edges :
    (k left i r : ℕ)
    → i ≤ r
    → r < left + i
    → of_row r (stair_edges k left i) ≡ (k + r - 1) ∷ (k + r) ∷ []
unfolding stair_edges
of_row-stair_edges k zero i r low high = absurd (omega arith)
of_row-stair_edges k (suc left) i r low high = elim (eq_cases i r) [
  | inl e ↦
      of_row_at r i (k + i - 1) ((i, k + i) ∷ stair_edges k left (i + 1)) e
      ∙ ap (λ (t : List ℕ). (k + i - 1) ∷ t)
          (of_row_at r i (k + i) (stair_edges k left (i + 1)) e
            ∙ ap (λ (t : List ℕ). (k + i) ∷ t) (of_row-below k left (i + 1) r (omega arith)))
      ∙ ap (λ (n : ℕ). (k + n - 1) ∷ (k + n) ∷ []) e
  | inr ne ↦
      of_row-ne r i (k + i - 1) ((i, k + i) ∷ stair_edges k left (i + 1)) ne
      ∙ of_row-ne r i (k + i) (stair_edges k left (i + 1)) ne
      ∙ of_row-stair_edges k left (i + 1) r (omega arith) (omega arith)
]

pub length-count_stairs :
    (left i : ℕ) (count : List ℕ) → length (count_stairs left i count) ≡ length count
unfolding count_stairs
length-count_stairs zero i count = refl
length-count_stairs (suc left) i count =
    length-count_stairs left (i + 1) (add_count i 2 count) ∙ length-add_count i 2 count

pub get_or-count_stairs :
    (k left i r : ℕ) (count : List ℕ)
    → left + i ≤ length count
    → get_or (count_stairs left i count) r 0
      ≡ get_or count r 0 + length (of_row r (stair_edges k left i))
unfolding count_stairs stair_edges
get_or-count_stairs k zero i r count h = omega arith
get_or-count_stairs k (suc left) i r count h =
    let rest : List Edge = stair_edges k left (i + 1) in
    let ih =
      get_or-count_stairs k left (i + 1) r (add_count i 2 count)
        (omega (arith, length-add_count i 2 count)) in
    elim (eq_cases i r) [
      | inl e ↦ omega (
        arith,
        ih,
        add_count_at i r 2 count e (omega arith),
        ap length (of_row_at r i (k + i - 1) ((i, k + i) ∷ rest) e),
        ap length (of_row_at r i (k + i) rest e),
      )
      | inr ne ↦ omega (
        arith,
        ih,
        add_count-ne i r 2 count ne,
        ap length (of_row-ne r i (k + i - 1) ((i, k + i) ∷ rest) ne),
        ap length (of_row-ne r i (k + i) rest ne),
      )
    ]
