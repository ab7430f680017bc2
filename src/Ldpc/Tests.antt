-- ===== src/Ldpc/Tests.antt =====
-- The encoder of src/ldpc_encode.c at an input.
use open_vlsnr.Prelude.{ℕ, ◌≡◌, [], ◌∷◌, arith, List, length, length-replicate, replicate, take}
use open_vlsnr.Ldpc.{LdpcCode, LdpcEncoder, ldpc_encode}
use open_vlsnr.Ldpc.ParityCheck.{IsCode, row_sum, ldpc_encode-closes}

-- A code of one group with three addresses.
abbrev small_code : LdpcCode
small_code = record { n = 720; k = 360; q = 1; num_groups = 1; table = (0 ∷ 5 ∷ 359 ∷ []) ∷ [] }

abbrev small_encoder : LdpcEncoder
small_encoder = record { code = small_code; xp = 0; p_period = 0; xs = 0 }

abbrev all_ones : List ℕ
all_ones = replicate 360 1

small_code-IsCode : IsCode small_code
small_code-IsCode = record {
  bounded = omega arith;
  info = omega arith;
  step = omega arith;
  shifts = omega arith;
  addresses = omega arith;
}

ldpc_encode-closes_example :
    let codeword = ldpc_encode small_encoder all_ones in
    (length codeword ≡ 720) × (take 360 codeword ≡ all_ones) × (row_sum small_code 3 codeword ≡ 0)
ldpc_encode-closes_example =
    ldpc_encode-closes small_encoder all_ones 3 small_code-IsCode (length-replicate {A = ℕ} 360 1)
      (omega arith)
