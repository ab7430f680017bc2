-- ===== src/Ldpc/Csr/Buckets.antt =====
-- Numbers put into consecutive buckets, as `build_csr` of src/ldpc_decode.c does with columns.
use open_vlsnr.Prelude.{
  ℕ, zero, suc, ◌+◌, ◌≤◌, ◌<◌, ◌≡◌, ◌≢◌, refl, sym, ap, ◌∙◌, List, [], ◌∷◌, ◌++◌, All, arith,
  length, length-set, get_or, get_or-set_self, get_or-set_ne, set, ◌==◌, if◌then◌else◌, eq_cases,
  lt_cases, inl, inr, Bool, true, false,
}
use open_vlsnr.Ldpc.Csr.{add_count, Fill, place}

-- An edge of the matrix: its row and its column.
abbrev pub Edge : Type 0
Edge = ℕ × ℕ

-- The columns of a row, in order.
abbrev pub of_row : ℕ → List Edge → List ℕ
of_row r [] = []
of_row r (e ∷ edges) = let rest = of_row r edges in if e.0 == r then e.1 ∷ rest else rest

pub of_row_at :
    (r r' c : ℕ) (edges : List Edge) → r' ≡ r → of_row r ((r', c) ∷ edges) ≡ c ∷ of_row r edges
of_row_at r r' c edges e =
    let same : (r' == r) ≡ true = ground (arith, e) in
    ap (λ (b : Bool). if b then c ∷ of_row r edges else of_row r edges) same

pub of_row-ne :
    (r r' c : ℕ) (edges : List Edge) → r' ≢ r → of_row r ((r', c) ∷ edges) ≡ of_row r edges
of_row-ne r r' c edges h =
    let other : (r' == r) ≡ false = ground (arith, h) in
    ap (λ (b : Bool). if b then c ∷ of_row r edges else of_row r edges) other

pub of_row-append : (r : ℕ) (xs ys : List Edge) → of_row r (xs ++ ys) ≡ of_row r xs ++ of_row r ys
of_row-append r [] ys = refl
of_row-append r ((r', c) ∷ xs) ys = elim (eq_cases r' r) [
  | inl e ↦
      let same : (r' == r) ≡ true = ground (arith, e) in
      rw same (ap (λ (t : List ℕ). c ∷ t) (of_row-append r xs ys))
  | inr h ↦ let other : (r' == r) ≡ false = ground (arith, h) in rw other (of_row-append r xs ys)
]

unfoldable pub place_all : List ℕ → List Edge → Fill → Fill
place_all row_ptr [] s = s
place_all row_ptr (e ∷ edges) s = place_all row_ptr edges (place row_ptr e.0 e.1 s)

pub place_all-append :
    (row_ptr : List ℕ) (xs ys : List Edge) (s : Fill)
    → place_all row_ptr (xs ++ ys) s ≡ place_all row_ptr ys (place_all row_ptr xs s)
unfolding place_all
place_all-append row_ptr [] ys s = refl
place_all-append row_ptr (e ∷ xs) ys s = place_all-append row_ptr xs ys (place row_ptr e.0 e.1 s)

pub length-add_count : (r n : ℕ) (count : List ℕ) → length (add_count r n count) ≡ length count
unfolding add_count
length-add_count r n count = length-set count r _

pub add_count_at :
    (r r' n : ℕ) (count : List ℕ)
    → r ≡ r'
    → r < length count
    → get_or (add_count r n count) r' 0 ≡ get_or count r' 0 + n
unfolding add_count
add_count_at r r' n count e h =
    ap (λ (k : ℕ). get_or (set count r (get_or count r 0 + n)) k 0) (sym e)
    ∙ get_or-set_self count r _ 0 h
    ∙ ap (λ (k : ℕ). get_or count k 0 + n) e

pub add_count-ne :
    (r r' n : ℕ) (count : List ℕ) → r ≢ r' → get_or (add_count r n count) r' 0 ≡ get_or count r' 0
unfolding add_count
add_count-ne r r' n count h = get_or-set_ne count _ 0 h

module _ (m : ℕ) (row_ptr : List ℕ)
    (ordered : (r r' : ℕ) → r < r' → r' < m → get_or row_ptr (suc r) 0 ≤ get_or row_ptr r' 0) where
  -- The buckets have room for what is still to come.
  pub record HasRoom (edges : List Edge) (s : Fill) : Type 0 where
    pub rows : length s.count ≡ m
    pub known : All (λ e. e.0 < m) edges
    pub room :
        (r : ℕ)
        → r < m
        → get_or row_ptr r 0 + get_or s.count r 0 + length (of_row r edges)
          ≤ get_or row_ptr (suc r) 0
    pub stored : (r : ℕ) → r < m → get_or row_ptr (suc r) 0 ≤ length s.col_idx

  HasRoom-place :
      (r c : ℕ) (edges : List Edge) (s : Fill)
      → HasRoom ((r, c) ∷ edges) s
      → HasRoom edges (place row_ptr r c s)
  unfolding place
  HasRoom-place r c edges s v = record {
    rows = counted ∙ v.rows;
    known = v.known.1;
    room = left;
    stored = λ r' h.
        omega
          (arith, v.stored r' h, length-set s.col_idx (get_or row_ptr r 0 + get_or s.count r 0) c);
  }
    where
      counted : length (add_count r 1 s.count) ≡ length s.count
      counted = length-add_count r 1 s.count

      left :
          (r' : ℕ)
          → r' < m
          → get_or row_ptr r' 0 + get_or (add_count r 1 s.count) r' 0 + length (of_row r' edges)
            ≤ get_or row_ptr (suc r') 0
      left r' h = elim (eq_cases r r') [
        | inl e ↦ omega (
          arith,
          v.room r' h,
          ap length (of_row_at r' r c edges e),
          add_count_at r r' 1 s.count e (omega (arith, v.rows, v.known.0)),
        )
        | inr ne ↦ omega (
          arith,
          v.room r' h,
          ap length (of_row-ne r' r c edges ne),
          add_count-ne r r' 1 s.count ne,
        )
      ]

  -- No later column is written over what a bucket holds.
  place_all-keeps :
      (edges : List Edge) (s : Fill) (r x : ℕ)
      → HasRoom edges s
      → r < m
      → get_or row_ptr r 0 ≤ x
      → x < get_or row_ptr r 0 + get_or s.count r 0
      → get_or (place_all row_ptr edges s).col_idx x 0 ≡ get_or s.col_idx x 0
  unfolding place_all place
  place_all-keeps [] s r x v below low high = refl
  place_all-keeps ((r', c) ∷ edges) s r x v below low high =
      place_all-keeps edges (place row_ptr r' c s) r x (HasRoom-place r' c edges s v) below low
        still
      ∙ get_or-set_ne s.col_idx c 0 apart
    where
      still : x < get_or row_ptr r 0 + get_or (add_count r' 1 s.count) r 0
      still = elim (eq_cases r' r) [
        | inl e ↦
            omega (arith, high, add_count_at r' r 1 s.count e (omega (arith, v.rows, v.known.0)))
        | inr ne ↦ omega (arith, high, add_count-ne r' r 1 s.count ne)
      ]

      apart : get_or row_ptr r' 0 + get_or s.count r' 0 ≢ x
      apart e = elim (eq_cases r' r) [
        | inl same ↦ omega (
          arith,
          high,
          e,
          ap (λ (k : ℕ). get_or row_ptr k 0) same,
          ap (λ (k : ℕ). get_or s.count k 0) same,
        )
        | inr ne ↦ elim (lt_cases r' r) [
          | inl less ↦ omega (
            arith,
            low,
            e,
            ordered r' r less below,
            v.room r' v.known.0,
            ap length (of_row_at r' r' c edges refl),
          )
          | inr more ↦
              omega
                (arith, high, e, ordered r r' (omega (arith, more, ne)) v.known.0, v.room r below)
        ]
      ]

  -- Each bucket gets its columns, in order.
  pub place_all_lem :
      (edges : List Edge) (s : Fill) (r k : ℕ)
      → HasRoom edges s
      → r < m
      → k < length (of_row r edges)
      → get_or (place_all row_ptr edges s).col_idx (get_or row_ptr r 0 + get_or s.count r 0 + k) 0
        ≡ get_or (of_row r edges) k 0
  unfolding place_all place
  place_all_lem [] s r k v below inside = absurd (omega arith)
  place_all_lem ((r', c) ∷ edges) s r k v below inside = elim (eq_cases r' r) [
    | inl e ↦
        mine k e inside (λ j h.
          place_all_lem edges (place row_ptr r' c s) r j (HasRoom-place r' c edges s v) below h)
        ∙ ap (λ (t : List ℕ). get_or t k 0) (sym (of_row_at r r' c edges e))
    | inr ne ↦
        let same : get_or (add_count r' 1 s.count) r 0 ≡ get_or s.count r 0 =
          add_count-ne r' r 1 s.count ne in
        let final = place_all row_ptr edges (place row_ptr r' c s) in
        ap (λ (n : ℕ). get_or final.col_idx (get_or row_ptr r 0 + n + k) 0) (sym same)
        ∙ place_all_lem edges (place row_ptr r' c s) r k (HasRoom-place r' c edges s v) below
            (omega (arith, inside, ap length (of_row-ne r r' c edges ne)))
        ∙ ap (λ (t : List ℕ). get_or t k 0) (sym (of_row-ne r r' c edges ne))
  ]
    where
      final : Fill
      final = place_all row_ptr edges (place row_ptr r' c s)

      more : r' ≡ r → get_or (add_count r' 1 s.count) r 0 ≡ get_or s.count r 0 + 1
      more e = add_count_at r' r 1 s.count e (omega (arith, v.rows, v.known.0))

      mine :
          (k : ℕ)
          → r' ≡ r
          → k < length (of_row r ((r', c) ∷ edges))
          → ((j : ℕ)
              → j < length (of_row r edges)
              → get_or
                  (final.col_idx)
                  (get_or row_ptr r 0 + get_or (add_count r' 1 s.count) r 0 + j)
                  0
                ≡ get_or (of_row r edges) j 0)
          → get_or (final.col_idx) (get_or row_ptr r 0 + get_or s.count r 0 + k) 0
            ≡ get_or (c ∷ of_row r edges) k 0
      mine zero e inside later =
          let x : ℕ = get_or row_ptr r 0 + get_or s.count r 0 + 0 in
          let here : get_or row_ptr r' 0 + get_or s.count r' 0 ≡ x =
            ap (λ (n : ℕ). get_or row_ptr n 0 + get_or s.count n 0) e ∙ omega arith in
          let size : get_or row_ptr r' 0 + get_or s.count r' 0 < length s.col_idx = omega (
            arith,
            v.stored r' v.known.0,
            v.room r' v.known.0,
            ap length (of_row_at r' r' c edges refl),
          ) in
          place_all-keeps edges (place row_ptr r' c s) r x (HasRoom-place r' c edges s v) below
            (omega arith) (omega (arith, more e))
          ∙ ap (λ (n : ℕ). get_or (set s.col_idx (get_or row_ptr r' 0 + get_or s.count r' 0) c) n 0)
              (sym here)
          ∙ get_or-set_self s.col_idx (get_or row_ptr r' 0 + get_or s.count r' 0) c 0 size
      mine (suc k) e inside later =
          let n : ℕ = get_or row_ptr r 0 in
          let shift : n + get_or s.count r 0 + suc k ≡ n + get_or (add_count r' 1 s.count) r 0 + k =
            omega (arith, more e) in
          ap (λ (x : ℕ). get_or (final.col_idx) x 0) shift
          ∙ later k (omega (arith, inside, ap length (of_row_at r r' c edges e)))
