-- ===== src/Ldpc/Csr/Tests.antt =====
-- `build_csr` (src/ldpc_decode.c) on a code of one group with three addresses.
use open_vlsnr.Prelude.{
  ℕ, ◌+◌, ◌≡◌, refl, ap, List, [], ◌∷◌, arith, length, length-replicate, get_or, replicate,
}
use open_vlsnr.Ldpc.{LdpcCode}
use open_vlsnr.Ldpc.Csr.{build_csr}
use open_vlsnr.Ldpc.Csr.Columns.{addr_edges, bit_edges, info_edges, row_columns}
use open_vlsnr.Ldpc.Csr.Correct.{build_csr-row_columns}

abbrev one_group : LdpcCode
one_group = record { n = 720; k = 360; q = 1; num_groups = 1; table = (0 ∷ 5 ∷ 359 ∷ []) ∷ [] }

abbrev zeros : ℕ → List ℕ
zeros n = replicate n 0

row_three : row_columns one_group 3 ≡ 3 ∷ 4 ∷ 358 ∷ 362 ∷ 363 ∷ []
unfolding addr_edges bit_edges info_edges row_columns
row_three = refl

build_csr-row_columns_example :
    let csr = build_csr one_group zeros in
    (get_or csr.row_ptr 0 0 ≡ 0)
    × (get_or csr.row_ptr 4 0 ≡ get_or csr.row_ptr 3 0 + length (row_columns one_group 3))
    × (get_or csr.col_idx (get_or csr.row_ptr 3 0 + 2) 0 ≡ get_or (row_columns one_group 3) 2 0)
build_csr-row_columns_example =
    build_csr-row_columns one_group zeros 3 2 (omega arith) (λ n. length-replicate {A = ℕ} n 0)
      (omega arith) (omega (arith, ap length row_three))
