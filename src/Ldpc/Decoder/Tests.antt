-- ===== src/Ldpc/Decoder/Tests.antt =====
-- The LDPC decoder (src/ldpc_decode.c) on a small code, over whole numbers.
use open_vlsnr.Prelude.{
  ℕ, ◌+◌, ◌-◌, ◌*◌, ◌/◌, ◌≤◌, ◌≡◌, refl, ap, Bool, true, false, some, List, [], ◌∷◌, arith,
  length-replicate, replicate, take, ltb, leb, if◌then◌else◌, set, ◌↔◌, All-replicate,
}
use open_vlsnr.Ldpc.Decoder.Sums.{Satisfies}
use open_vlsnr.Ldpc.Boxplus.{
  SoftOps, boxplus, clamped, sign_of, lut_log1pexp, boxplus_lut, lut_entries,
}
use open_vlsnr.Ldpc.{LdpcEncoder, ldpc_encode}
use open_vlsnr.Ldpc.ParityCheck.{IsCode}
use open_vlsnr.Bits.Binary.{IsBinary}
use open_vlsnr.Ldpc.Decoder.Answer.{word_after, Answers, ldpc_decode-Answers}
use open_vlsnr.Ldpc.Decoder.Codeword.{Satisfies-iff, ldpc_decode-ldpc_encode}
use open_vlsnr.Ldpc.Decoder.{
  LdpcDecoder, Memory, decoder_of, ldpc_decode, DecodedLdpc, degree_of, max_degree, check_due,
  iterate, update_rows, update_row, gather_row, forward, forward_from, backward, new_msg, send,
  scatter, hard_bit, parity_of, checks, decisions, answer_of,
}
use open_vlsnr.Ldpc.Csr.{
  build_csr, row_counts, count_groups, count_stairs, add_count, row_ptrs, columns, fill_groups,
  fill_stairs, place,
}

-- The number n stands for n - 1000, and the logarithms are 0.
abbrev whole_times : ℕ → ℕ → ℕ
whole_times a b =
    if ltb a 1000
    then if ltb b 1000 then 1000 + (1000 - a) * (1000 - b) else 1000 - (1000 - a) * (b - 1000)
    else if ltb b 1000
    then 1000 - (a - 1000) * (1000 - b)
    else 1000 + (a - 1000) * (b - 1000)

abbrev whole : SoftOps ℕ
whole = record {
  of_nat = λ n. 1000 + n;
  to_nat = λ a. a - 1000;
  neg = λ a. 2000 - a;
  fabs = λ a. if ltb a 1000 then 2000 - a else a;
  plus = λ a b. a + b - 1000;
  minus = λ a b. a + 1000 - b;
  times = whole_times;
  over = λ a b. 1000 + (a - 1000) / (b - 1000);
  lt = ltb;
  le = leb;
  exp = λ a. 1000;
  log1p = λ a. 1000;
}

-- One information bit that no row meets, and the staircase.
abbrev staircase : LdpcEncoder
staircase = record {
  code = record { n = 361; k = 1; q = 1; num_groups = 0; table = [] };
  xp = 0;
  p_period = 0;
  xs = 0;
}

staircase-IsCode : IsCode staircase.code
staircase-IsCode = record {
  bounded = omega arith;
  info = omega arith;
  step = omega arith;
  shifts = omega arith;
  addresses = omega arith;
}

abbrev plain_memory : Memory
plain_memory = record { for_csr = true; for_work = true; content = λ n. replicate n 0 }

-- A negative information bit, and one parity bit received wrongly.
abbrev received : List ℕ
received = 995 ∷ set (replicate 360 1005) 7 998

abbrev decoder : LdpcDecoder
decoder = decoder_of staircase 9 plain_memory

abbrev never : ℕ → Bool
never iter = false

abbrev memory_before : List ℕ
memory_before = 7 ∷ 8 ∷ []

-- The wrong bit is outvoted in the first iteration.
one_iteration :
    ldpc_decode whole decoder never received memory_before
    ≡ record { ok = true; output = 1 ∷ 8 ∷ []; iter_used = some 1 }
unfolding ldpc_decode decoder_of build_csr row_counts count_groups count_stairs add_count row_ptrs
    columns fill_groups fill_stairs place degree_of max_degree check_due iterate update_rows
    update_row gather_row forward forward_from backward new_msg send scatter hard_bit parity_of
    checks decisions answer_of boxplus clamped sign_of lut_log1pexp boxplus_lut lut_entries
one_iteration = refl

ldpc_decode-Answers_example :
    Answers whole decoder received never memory_before
      (ldpc_decode whole decoder never received memory_before)
ldpc_decode-Answers_example =
    ldpc_decode-Answers whole staircase 9 plain_memory never received memory_before (omega arith)
      (omega arith) (λ n. length-replicate {A = ℕ} n 0) (omega arith)

ldpc_decode-ldpc_encode_example :
    (iter : ℕ) × ((ldpc_decode whole decoder never received memory_before).iter_used ≡ some iter)
    × (iter ≤ 9)
    × (word_after whole decoder received iter
        ≡ ldpc_encode staircase
            (take 1 (ldpc_decode whole decoder never received memory_before).output))
ldpc_decode-ldpc_encode_example =
    ldpc_decode-ldpc_encode whole staircase 9 plain_memory never received memory_before
      staircase-IsCode (omega arith) (λ n. length-replicate {A = ℕ} n 0) (omega arith)
      (ap (λ (d : DecodedLdpc). d.ok) one_iteration)

-- A code of one group with three addresses.
abbrev one_group : LdpcEncoder
one_group = record {
  code = record { n = 720; k = 360; q = 1; num_groups = 1; table = (0 ∷ 5 ∷ 359 ∷ []) ∷ [] };
  xp = 0;
  p_period = 0;
  xs = 0;
}

abbrev ones : List ℕ
ones = replicate 720 1

one_group-IsCode : IsCode one_group.code
one_group-IsCode = record {
  bounded = omega arith;
  info = omega arith;
  step = omega arith;
  shifts = omega arith;
  addresses = omega arith;
}

Satisfies-iff_example :
    Satisfies one_group.code ones ↔ (ones ≡ ldpc_encode one_group (take 360 ones))
Satisfies-iff_example =
    Satisfies-iff one_group ones one_group-IsCode (omega arith)
      (All-replicate IsBinary 720 1 (omega arith)) (length-replicate {A = ℕ} 720 1)
