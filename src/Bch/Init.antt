-- ===== src/Bch/Init.antt =====
-- src/bch_encode.c: the generator polynomial, as the least common multiple of minimal polynomials.
use open_vlsnr.Prelude.{
  ℕ, zero, suc, ◌+◌, ◌-◌, ◌*◌, ◌%◌, ◌^◌, bit_and, bit_or, bit_xor, Bool, true, false, ◌||◌, Option,
  none, some, List, [], ◌∷◌, get_or, set, replicate, sub_u32, ◌<<<◌, ◌>>>◌, ◌==◌, if◌then◌else◌,
}
use open_vlsnr.Types.{Modcod}
use open_vlsnr.Bch.{BchEncoder, field_degree, prim_poly, gf2_poly_mul}

-- The first loop that fills `exp_table`, from the power `reg` on.
unfoldable pub exp_loop : ℕ → ℕ → ℕ → ℕ → List ℕ
exp_loop zero m poly reg = []
exp_loop (suc left) m poly reg =
    let doubled = reg <<< 1 in
    let rest =
      exp_loop left m poly
        (if bit_and doubled (2 ^ m) == 0 then doubled else bit_xor doubled poly) in
    reg ∷ rest

-- `exp_table` without its second half, a copy of the first that is not read: the indices are
-- taken modulo the length of the first.
unfoldable pub exp_table : ℕ → ℕ → List ℕ
exp_table m poly = exp_loop (2 ^ m - 1) m poly 1

-- `matrix` and `pivot_col` of `compute_min_poly`.
pub record Echelon : Type 0 where
  pub matrix : List ℕ
  pub pivot_col : List ℕ

-- The loop that reduces `vec` by the pivots, from column i on: `vec` and `row_bits`.
unfoldable pub reduce_vec : Echelon → ℕ → ℕ → ℕ → ℕ → ℕ × ℕ
reduce_vec e zero i vec row_bits = (vec, row_bits)
reduce_vec e (suc left) i vec row_bits =
    let pivot = get_or e.pivot_col i 0 in
    elim (bit_and (vec >>> i) 1 == 0 || pivot == 0) [
      | true ↦ reduce_vec e left (i + 1) vec row_bits
      | false ↦
          reduce_vec e left (i + 1) (bit_xor vec (get_or e.matrix i 0)) (bit_xor row_bits pivot)
    ]

-- The loop that stores `vec` at its lowest set bit.
unfoldable pub add_pivot : Echelon → ℕ → ℕ → ℕ → ℕ → Echelon
add_pivot e zero i vec row_bits = e
add_pivot e (suc left) i vec row_bits = elim (bit_and (vec >>> i) 1 == 0) [
  | true ↦ add_pivot e left (i + 1) vec row_bits
  | false ↦ record { matrix = set e.matrix i vec; pivot_col = set e.pivot_col i row_bits }
]

-- The loop over the powers, from the d-th on: the polynomial and its degree.
unfoldable pub dependency : List ℕ → ℕ → ℕ → Echelon → ℕ → ℕ → ℕ × ℕ
dependency powers m k e zero d = (bit_or (2 ^ m) 1, m)
dependency powers m k e (suc left) d =
    let power = get_or powers ((k * d) % (2 ^ m - 1)) 0 in
    let (vec, row_bits) = reduce_vec e m 0 power (2 ^ d) in
    elim (vec == 0) [
      | true ↦ (row_bits, d)
      | false ↦ dependency powers m k (add_pivot e m 0 vec row_bits) left (d + 1)
    ]

-- `compute_min_poly`
unfoldable pub compute_min_poly : ℕ → ℕ → List ℕ → ℕ × ℕ
compute_min_poly m k powers =
    dependency powers m k (record { matrix = replicate 17 0; pivot_col = replicate 17 0 }) (m + 1) 0

-- Whether `visited_roots` is set at a root; the roots that are set are listed.
unfoldable pub is_visited : List ℕ → ℕ → Bool
is_visited [] root = false
is_visited (v ∷ visited) root = v == root || is_visited visited root

-- The loop that marks the conjugates; `none` is out of fuel.
unfoldable pub mark_conjugates : ℕ → ℕ → ℕ → List ℕ → Option (List ℕ)
mark_conjugates zero n conj visited = none
mark_conjugates (suc fuel) n conj visited = elim (is_visited visited conj) [
  | true ↦ some visited
  | false ↦ mark_conjugates fuel n ((conj * 2) % n) (conj ∷ visited)
]

-- `gen_poly` with its degree.
pub record Generator : Type 0 where
  pub coeffs : List ℕ
  pub degree : ℕ

-- The loop over the roots from k on. At most m conjugates are marked at a root.
unfoldable pub root_loop : ℕ → List ℕ → ℕ → ℕ → List ℕ → Generator → Option Generator
root_loop m powers zero k visited gen = some gen
root_loop m powers (suc left) k visited gen =
    let n = 2 ^ m - 1 in
    elim (is_visited visited (k % n)) [
      | true ↦ root_loop m powers left (k + 1) visited gen
      | false ↦
          (let (poly, degree) = compute_min_poly m k powers in
            let coeffs = gf2_poly_mul gen.coeffs gen.degree poly degree in
            elim (mark_conjugates (m + 1) n (k % n) visited) [
              | none ↦ none
              | some visited' ↦
                  root_loop m powers left (k + 1) visited'
                    (record { coeffs = coeffs; degree = gen.degree + degree })
            ])
    ]

-- `dvbs2x_bch_encoder_init`; `none` is the result -1, and `allocated` tells whether `malloc` gave
-- the memory of `exp_table`.
unfoldable pub bch_encoder_init : Bool → Modcod → Option BchEncoder
bch_encoder_init false mc = none
bch_encoder_init true mc =
    let m = field_degree mc.frame_type in
    let parity_len = sub_u32 mc.n_bch mc.k_bch in
    let powers = exp_table m (prim_poly mc.frame_type) in
    elim (root_loop m powers (2 * mc.bch_t) 1 [] (record { coeffs = 1 ∷ []; degree = 0 })) [
      | none ↦ none
      | some gen ↦
          if gen.degree == parity_len
          then some (record {
            t = mc.bch_t;
            n = mc.n_bch;
            k = mc.k_bch;
            parity_len = parity_len;
            gf_m = m;
            gen_poly = gen.coeffs;
          })
          else none
    ]
