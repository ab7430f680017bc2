-- ===== src/Ldpc/Decoder.antt =====
-- src/ldpc_decode.c: dvbs2x_ldpc_decoder_init, dvbs2x_ldpc_decoder_free and dvbs2x_ldpc_decode.
-- Positions, sizes and counts of iterations are natural numbers, far below 2^32 for the codes of the
-- tables.
pub mod Loop
pub mod Sums
pub mod Built
pub mod Checks
pub mod Answer
pub mod RowSums
pub mod Codeword
mod Tests
use open_vlsnr.Prelude.{
  ℕ, zero, suc, ◌+◌, ◌-◌, ◌%◌, bit_xor, Bool, true, false, not, ◌&&◌, ◌||◌, Option, none, some,
  List, [], ◌∷◌, ◌++◌, map, take, drop, set, get_or, replicate, ltb, leb, ◌==◌, if◌then◌else◌,
  sub_u32,
}
use open_vlsnr.Types.{Modcod}
use open_vlsnr.Ldpc.{Tables, LdpcCode, LdpcEncoder, encoder_init}
use open_vlsnr.Ldpc.Boxplus.{SoftOps, soft_zero, boxplus}
use open_vlsnr.Ldpc.Csr.{build_csr}

-- `CONV_CHECK_PERIOD` and `EARLY_CHECK_ITERS`.
abbrev pub conv_check_period : ℕ
conv_check_period = 5

abbrev pub early_check_iters : ℕ
early_check_iters = 10

-- `struct dvbs2x_ldpc_decoder`, less the cancel flag, which is an argument of the decoder. Whether
-- the memory is there, matrix and work arrays, is one field: both ends set the pointers together.
pub record LdpcDecoder : Type 0 where
  pub code : LdpcCode
  pub max_iter : ℕ
  pub xp : ℕ
  pub p_period : ℕ
  pub xs : ℕ
  pub csr_row_ptr : List ℕ
  pub csr_col_idx : List ℕ
  pub csr_num_edges : ℕ
  pub csr_max_deg : ℕ
  pub allocated : Bool

-- `row_ptr[i + 1] - row_ptr[i]`
pub degree_of : List ℕ → ℕ → ℕ
degree_of row_ptr i = sub_u32 (get_or row_ptr (i + 1) 0) (get_or row_ptr i 0)

-- The loop for the maximum check-node degree, from row i on.
pub max_degree : List ℕ → ℕ → ℕ → ℕ → ℕ
max_degree row_ptr zero i best = best
max_degree row_ptr (suc left) i best =
    let deg = degree_of row_ptr i in
    max_degree row_ptr left (i + 1) (if ltb best deg then deg else best)

-- What `malloc` gives: whether `build_csr` and then the work arrays have memory, and the old content
-- of the columns.
pub record Memory : Type 0 where
  pub for_csr : Bool
  pub for_work : Bool
  pub content : ℕ → List ℕ

-- The decoder for a code, with the matrix built.
unfoldable pub decoder_of : LdpcEncoder → ℕ → Memory → LdpcDecoder
decoder_of enc max_iter memory =
    let csr = build_csr enc.code memory.content in
    record {
      code = enc.code;
      max_iter = max_iter;
      xp = enc.xp;
      p_period = enc.p_period;
      xs = enc.xs;
      csr_row_ptr = csr.row_ptr;
      csr_col_idx = csr.col_idx;
      csr_num_edges = csr.num_edges;
      csr_max_deg = max_degree csr.row_ptr (enc.code.n - enc.code.k) 0 0;
      allocated = true;
    }

-- `dvbs2x_ldpc_decoder_init`; `none` is the -1. It finds the table and fills in the code as
-- `dvbs2x_ldpc_encoder_init` does.
pub decoder_init : Tables → Modcod → ℕ → Memory → Option LdpcDecoder
decoder_init tables mc max_iter memory = elim (encoder_init tables mc) [
  | none ↦ none
  | some enc ↦
      if memory.for_csr && memory.for_work then some (decoder_of enc max_iter memory) else none
]

-- `dvbs2x_ldpc_decoder_free`
pub decoder_free : LdpcDecoder → LdpcDecoder
decoder_free dec = record dec { csr_row_ptr = []; csr_col_idx = []; allocated = false }

-- The values of the bits and the messages on the edges.
pub record Soft {ℓ} (A : Type ℓ) : Type ℓ where
  pub vn_llr : List A
  pub edge_msg : List A

-- How the loop over the iterations ends: with a cancel request seen before iteration `iter`, with all
-- checks satisfied after `iter` iterations, or with no iteration left.
pub data Ending {ℓ} (A : Type ℓ) : Type ℓ where
  cancelled : ℕ → Ending A
  settled : ℕ → Soft A → Ending A
  exhausted : Soft A → Ending A

-- What `dvbs2x_ldpc_decode` gives: whether it returns 0, `output`, and `*iter_used` if it is stored.
pub record DecodedLdpc : Type 0 where
  pub ok : Bool
  pub output : List ℕ
  pub iter_used : Option ℕ

-- Whether iteration `iter` is not one whose check is skipped.
pub check_due : ℕ → ℕ → Bool
check_due max_iter iter = not (
    leb early_check_iters iter
    && (not ((iter + 1) % conv_check_period == 0) && ltb (iter + 1) max_iter))

module _ {ℓ} {A : Type ℓ} (ops : SoftOps A) where
  open ops use {of_nat, plus, minus, lt}

  -- `v2c`: the messages to a row from position `pos` of `col_idx` on.
  pub gather_row : List ℕ → Soft A → ℕ → ℕ → List A
  gather_row col_idx s zero pos = []
  gather_row col_idx s (suc left) pos =
      minus (get_or s.vn_llr (get_or col_idx pos 0) (soft_zero ops))
        (get_or s.edge_msg pos (soft_zero ops))
      ∷ gather_row col_idx s left (pos + 1)

  pub forward_from : A → List A → List A
  forward_from last [] = []
  forward_from last (x ∷ xs) = let next = boxplus ops last x in next ∷ forward_from next xs

  -- `fwd`
  pub forward : List A → List A
  forward [] = []
  forward (x ∷ xs) = x ∷ forward_from x xs

  -- `bwd`
  pub backward : List A → List A
  backward [] = []
  backward (x ∷ []) = x ∷ []
  backward (x ∷ y ∷ xs) =
      let rest = backward (y ∷ xs) in boxplus ops (get_or rest 0 (soft_zero ops)) x ∷ rest

  -- `new_msg` of edge d of a row.
  pub new_msg : List A → List A → ℕ → ℕ → A
  new_msg fwd bwd degree d =
      if degree == 1
      then (soft_zero ops)
      else if d == 0
      then get_or bwd 1 (soft_zero ops)
      else if d == degree - 1
      then get_or fwd (degree - 2) (soft_zero ops)
      else boxplus ops (get_or fwd (d - 1) (soft_zero ops)) (get_or bwd (d + 1) (soft_zero ops))

  -- The new message goes to the bit and to the edge.
  pub send : ℕ → ℕ → A → Soft A → Soft A
  send vn edge msg s = record {
    vn_llr = set s.vn_llr vn (
        plus (get_or s.vn_llr vn (soft_zero ops))
          (minus msg (get_or s.edge_msg edge (soft_zero ops))));
    edge_msg = set s.edge_msg edge msg;
  }

  -- The last loop of a row, from edge d on.
  pub scatter : List ℕ → List A → List A → ℕ → ℕ → ℕ → ℕ → Soft A → Soft A
  scatter col_idx fwd bwd row_start degree zero d s = s
  scatter col_idx fwd bwd row_start degree (suc left) d s =
      scatter col_idx fwd bwd row_start degree left (d + 1)
        (send (get_or col_idx (row_start + d) 0) (row_start + d) (new_msg fwd bwd degree d) s)

  -- The update of row i.
  pub update_row : LdpcDecoder → ℕ → Soft A → Soft A
  update_row dec i s =
      let row_start = get_or dec.csr_row_ptr i 0 in
      let degree = degree_of dec.csr_row_ptr i in
      let v2c = gather_row dec.csr_col_idx s degree row_start in
      if degree == 0
      then s
      else scatter dec.csr_col_idx (forward v2c) (backward v2c) row_start degree degree 0 s

  -- Over the rows, from row i on.
  pub update_rows : LdpcDecoder → ℕ → ℕ → Soft A → Soft A
  update_rows dec zero i s = s
  update_rows dec (suc left) i s = update_rows dec left (i + 1) (update_row dec i s)

  unfoldable pub hard_bit : A → ℕ
  hard_bit a = if lt a (soft_zero ops) then 1 else 0

  -- `parity` of a row, from position j of `col_idx` on.
  pub parity_of : List ℕ → List A → ℕ → ℕ → ℕ → ℕ
  parity_of col_idx vn_llr zero j parity = parity
  parity_of col_idx vn_llr (suc left) j parity = parity_of col_idx vn_llr left (j + 1) (
      if lt (get_or vn_llr (get_or col_idx j 0) (soft_zero ops)) (soft_zero ops)
      then bit_xor parity 1
      else parity)

  -- `converged`, from row i on.
  pub checks : LdpcDecoder → List A → ℕ → ℕ → Bool
  checks dec vn_llr zero i = true
  checks dec vn_llr (suc left) i =
      let row_start = get_or dec.csr_row_ptr i 0 in
      let row_end = get_or dec.csr_row_ptr (i + 1) 0 in
      (parity_of dec.csr_col_idx vn_llr (row_end - row_start) row_start 0 == 0)
      && checks dec vn_llr left (i + 1)

  -- The loop over the iterations, from `iter` on. `cancel` is what the flag shows then; without a
  -- flag it is always false.
  unfoldable pub iterate : LdpcDecoder → (ℕ → Bool) → ℕ → ℕ → Soft A → Ending A
  iterate dec cancel zero iter s = exhausted s
  iterate dec cancel (suc left) iter s =
      let m = dec.code.n - dec.code.k in
      let s' = update_rows dec m 0 s in
      let rest = iterate dec cancel left (iter + 1) s' in
      if cancel iter
      then cancelled iter
      else if check_due dec.max_iter iter && checks dec s'.vn_llr m 0
      then settled (iter + 1) s'
      else rest

  -- The hard decisions are written over the first k places of `output`.
  unfoldable pub decisions : ℕ → List A → List ℕ → List ℕ
  decisions k vn_llr output = map hard_bit (take k vn_llr) ++ drop k output

  -- The end of `dvbs2x_ldpc_decode`.
  unfoldable pub answer_of : LdpcDecoder → List ℕ → Ending A → DecodedLdpc
  answer_of dec output (cancelled iter) = record {
    ok = false;
    output = output;
    iter_used = some iter;
  }
  answer_of dec output (settled iter s) = record {
    ok = true;
    output = decisions dec.code.k s.vn_llr output;
    iter_used = some iter;
  }
  answer_of dec output (exhausted s) = record {
    ok = false;
    output = decisions dec.code.k s.vn_llr output;
    iter_used = some dec.max_iter;
  }

  -- The values of the channel, and no messages yet.
  abbrev pub initial : LdpcDecoder → List A → Soft A
  initial dec llr = record {
    vn_llr = take dec.code.n llr;
    edge_msg = replicate dec.csr_num_edges (soft_zero ops);
  }

  -- `dvbs2x_ldpc_decode`, its pointers not NULL, of n soft values.
  unfoldable pub ldpc_decode : LdpcDecoder → (ℕ → Bool) → List A → List ℕ → DecodedLdpc
  ldpc_decode dec cancel llr output =
      if not dec.allocated
      then record { ok = false; output = output; iter_used = none }
      else answer_of dec output (iterate dec cancel dec.max_iter 0 (initial dec llr))
