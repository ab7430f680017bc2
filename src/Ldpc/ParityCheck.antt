-- ===== src/Ldpc/ParityCheck.antt =====
-- `dvbs2x_ldpc_encode` against the parity-check matrix of the decoder: row `r` holds the
-- information bits whose address falls on it, the parity bit `r`, and the one before.
use open_vlsnr.Prelude.{
  ℕ, zero, suc, ◌-◌, ◌*◌, ◌^◌, ◌≤◌, ◌<◌, bit_xor, ◌≡◌, refl, sym, ap, ◌∙◌, List, [], ◌∷◌, ◌++◌,
  arith, All, length, take, drop, get_or, replicate, length-replicate, take-length, take-append,
  drop-append, length-append, length-take, sub_u32,
}
use open_vlsnr.Bits.Xor.{xor-zero, xor_self, xor_cancel}
use open_vlsnr.Bits.{zero-bit_xor}
use open_vlsnr.Types.{ldpc_parallel}
use open_vlsnr.Ldpc.{
  LdpcCode, LdpcEncoder, add_groups, accumulate_from, accumulate, parity_part, ldpc_encode,
}
use open_vlsnr.Ldpc.Rows.{info_sum, length-add_groups, get_or-add_groups}

-- The parity bit before the one of a row; the first row has none.
abbrev pub before : List ℕ → ℕ → ℕ
before parity zero = 0
before parity (suc r) = get_or parity r 0

-- The sum of row `r` of the parity-check matrix over a codeword.
unfoldable pub row_sum : LdpcCode → ℕ → List ℕ → ℕ
row_sum code r codeword =
    let parity = drop code.k codeword in
    bit_xor
      (info_sum (code.n - code.k) code.q r (take code.num_groups code.table) (take code.k codeword))
      (bit_xor (get_or parity r 0) (before parity r))

-- The sizes of a code: each group's shifts stay within the parity part, and so do the addresses.
pub record IsCode (code : LdpcCode) : Type 0 where
  pub bounded : code.n < 2 ^ 32
  pub info : code.k < code.n
  pub step : 0 < code.q
  pub shifts : ldpc_parallel * code.q ≤ code.n - code.k
  pub addresses : All (All (λ a. a < code.n - code.k)) (take code.num_groups code.table)

length-accumulate_from : (prev : ℕ) (ps : List ℕ) → length (accumulate_from prev ps) ≡ length ps
unfolding accumulate_from
length-accumulate_from prev [] = refl
length-accumulate_from prev (p ∷ ps) = ap suc (length-accumulate_from (bit_xor p prev) ps)

accumulate_from-step :
    (prev : ℕ) (ps : List ℕ) (r : ℕ)
    → r < length ps
    → get_or (accumulate_from prev ps) r 0
      ≡ bit_xor (get_or ps r 0) (get_or (prev ∷ accumulate_from prev ps) r 0)
unfolding accumulate_from
accumulate_from-step prev [] r h = absurd (omega arith)
accumulate_from-step prev (p ∷ ps) zero h = refl
accumulate_from-step prev (p ∷ ps) (suc r) h =
    accumulate_from-step (bit_xor p prev) ps r (omega arith)

length-accumulate : (ps : List ℕ) → length (accumulate ps) ≡ length ps
unfolding accumulate
length-accumulate [] = refl
length-accumulate (p ∷ ps) = ap suc (length-accumulate_from p ps)

-- Each parity bit is the sum before the accumulation and the bit before it.
accumulate-step :
    (ps : List ℕ) (r : ℕ)
    → r < length ps
    → get_or (accumulate ps) r 0 ≡ bit_xor (get_or ps r 0) (before (accumulate ps) r)
unfolding accumulate
accumulate-step [] r h = absurd (omega arith)
accumulate-step (p ∷ ps) zero h = sym (xor-zero p)
accumulate-step (p ∷ ps) (suc r) h = accumulate_from-step p ps r (omega arith)

get_or-replicate : (n r : ℕ) → let z : ℕ = 0 in get_or (replicate n z) r z ≡ z
get_or-replicate zero r = refl
get_or-replicate (suc n) zero = refl
get_or-replicate (suc n) (suc r) = get_or-replicate n r

row_closes : (s out prev : ℕ) → out ≡ bit_xor s prev → bit_xor s (bit_xor out prev) ≡ 0
row_closes s out prev e =
    ap (λ (t : ℕ). bit_xor s (bit_xor t prev)) e ∙ ap (bit_xor s) (xor_cancel s prev) ∙ xor_self s

-- What the encoder leaves in the parity part.
parity_part-closes :
    (code : LdpcCode) (info : List ℕ) (r : ℕ)
    → IsCode code
    → r < code.n - code.k
    → let parity = parity_part code info in
      (length parity ≡ code.n - code.k)
      × (bit_xor
            (info_sum (code.n - code.k) code.q r (take code.num_groups code.table) info)
            (bit_xor (get_or parity r 0) (before parity r))
          ≡ 0)
unfolding parity_part
parity_part-closes code info r v below =
    let m = code.n - code.k in
    let table = take code.num_groups code.table in
    let z : ℕ = 0 in
    let size : sub_u32 code.n code.k ≡ m = omega (arith, v.bounded, v.info) in
    let sums = add_groups m code.q table info (replicate m z) in
    let len : length sums ≡ m =
      length-add_groups m code.q table info (replicate m z) ∙ length-replicate m z in
    let sum : get_or sums r 0 ≡ info_sum m code.q r table info =
      get_or-add_groups m code.q r table info (replicate m z) (length-replicate m z) v.step v.shifts
        v.addresses
      ∙ ap (λ (t : ℕ). bit_xor t (info_sum m code.q r table info)) (get_or-replicate m r)
      ∙ zero-bit_xor (info_sum m code.q r table info) in
    let closes : bit_xor (info_sum m code.q r table info)
          (bit_xor (get_or (accumulate sums) r 0) (before (accumulate sums) r))
        ≡ 0 =
      row_closes (info_sum m code.q r table info) (get_or (accumulate sums) r 0)
        (before (accumulate sums) r)
        (accumulate-step sums r (omega (arith, len, below))
          ∙ ap (λ (t : ℕ). bit_xor t (before (accumulate sums) r)) sum) in
    rw size (length-accumulate sums ∙ len, closes)

-- For a code whose shifts and addresses stay within the parity part, and as many information bits
-- as the code takes: the codeword has the code's length, begins with the information bits, and
-- each row of the parity-check matrix that the decoder builds sums to zero over it.
pub ldpc_encode-closes :
    (enc : LdpcEncoder) (info : List ℕ) (r : ℕ)
    → IsCode enc.code
    → length info ≡ enc.code.k
    → r < enc.code.n - enc.code.k
    → let codeword = ldpc_encode enc info in
      (length codeword ≡ enc.code.n)
      × (take enc.code.k codeword ≡ info)
      × (row_sum enc.code r codeword ≡ 0)
unfolding ldpc_encode row_sum
ldpc_encode-closes enc info r v size below =
    let code = enc.code in
    let all : take code.k info ≡ info = ap (λ (t : ℕ). take t info) (sym size) ∙ take-length info in
    let (len, closes) = parity_part-closes code info r v below in
    let front : take code.k (info ++ parity_part code info) ≡ info =
      take-append code.k info (parity_part code info) size in
    let back : drop code.k (info ++ parity_part code info) ≡ parity_part code info =
      drop-append code.k info (parity_part code info) size in
    rw all (
      omega (arith, length-append info (parity_part code info), len, v.info),
      front,
      rw (front, back) closes,
    )

-- The codeword's length, when the information word is long enough.
pub length-ldpc_encode :
    (enc : LdpcEncoder) (info : List ℕ)
    → enc.code.n < 2 ^ 32
    → enc.code.k < enc.code.n
    → enc.code.k ≤ length info
    → length (ldpc_encode enc info) ≡ enc.code.n
unfolding ldpc_encode parity_part
length-ldpc_encode enc info bounded below enough =
    let m = sub_u32 enc.code.n enc.code.k in
    let z : ℕ = 0 in
    let sums =
      add_groups m enc.code.q (take enc.code.num_groups enc.code.table) info (replicate m z) in
    omega (
      arith,
      length-append (take enc.code.k info) (accumulate sums),
      length-take enc.code.k info,
      length-accumulate sums,
      length-add_groups m enc.code.q (take enc.code.num_groups enc.code.table) info (replicate m z),
      length-replicate m z,
      bounded,
      below,
      enough,
    )
