-- ===== src/Ldpc.antt =====
-- src/ldpc_tables.c and src/ldpc_encode.c: the choice of the address table and the encoder.
pub mod Rows
pub mod ParityCheck
pub mod Codes
pub mod Csr
pub mod Boxplus
pub mod Decoder
pub mod Binary
mod Tests
use open_vlsnr.Prelude.{
  ℕ, zero, suc, ◌+◌, ◌-◌, ◌/◌, bit_xor, Bool, true, false, Option, none, some, List, [], ◌∷◌, ◌++◌,
  take, drop, set, get_or, replicate, ltb, ◌==◌, if◌then◌else◌, sub_u32,
}
use open_vlsnr.Types.{Modcod, ldpc_normal, ldpc_medium, ldpc_short, ldpc_parallel}

-- `struct dvbs2x_ldpc_table_entry`: the addresses of one group of 360 information bits.
abbrev pub TableEntry : Type 0
TableEntry = List ℕ

-- The eight address tables, which src/ldpc_tables.c reads by one function each.
pub record Tables : Type 0 where
  pub n64800_r2_9 : List TableEntry
  pub n32400_r1_5 : List TableEntry
  pub n32400_r11_45 : List TableEntry
  pub n32400_r1_3 : List TableEntry
  pub n16200_r1_5 : List TableEntry
  pub n16200_r11_45 : List TableEntry
  pub n16200_r4_15 : List TableEntry
  pub n16200_r1_3 : List TableEntry

-- The inner switch for the codes of 32400 bits.
pub medium_table : Tables → ℕ → Option (List TableEntry)
medium_table tables den =
    if den == 5
    then some tables.n32400_r1_5
    else if den == 45
    then some tables.n32400_r11_45
    else if den == 3
    then some tables.n32400_r1_3
    else none

-- The inner switch for the codes of 16200 bits.
pub short_table : Tables → ℕ → Option (List TableEntry)
short_table tables den =
    if den == 5
    then some tables.n16200_r1_5
    else if den == 45
    then some tables.n16200_r11_45
    else if den == 15
    then some tables.n16200_r4_15
    else if den == 3
    then some tables.n16200_r1_3
    else none

-- `dvbs2x_ldpc_get_table`: the table, if there is one, and `*num_groups`.
pub get_table : Tables → Modcod → Option (List TableEntry) × ℕ
get_table tables mc =
    let table =
      if mc.fec_len == ldpc_normal
      then some tables.n64800_r2_9
      else if mc.fec_len == ldpc_medium
      then medium_table tables mc.code_rate_den
      else if mc.fec_len == ldpc_short
      then short_table tables mc.code_rate_den
      else none in
    (table, mc.k_ldpc / ldpc_parallel)

-- `struct dvbs2x_ldpc_code`
pub record LdpcCode : Type 0 where
  pub n : ℕ
  pub k : ℕ
  pub q : ℕ
  pub num_groups : ℕ
  pub table : List TableEntry

-- `struct dvbs2x_ldpc_encoder`
pub record LdpcEncoder : Type 0 where
  pub code : LdpcCode
  pub xp : ℕ
  pub p_period : ℕ
  pub xs : ℕ

-- `dvbs2x_ldpc_encoder_init`; `none` is the result -1.
pub encoder_init : Tables → Modcod → Option LdpcEncoder
encoder_init tables mc = elim (get_table tables mc).0 [
  | none ↦ none
  | some table ↦ some (record {
    code = record {
      n = mc.fec_len;
      k = mc.k_ldpc;
      q = mc.q_ldpc;
      num_groups = (get_table tables mc).1;
      table = table;
    };
    xp = mc.xp;
    p_period = mc.p_period;
    xs = mc.xs;
  })
]

-- `parity[addr] ^= 1`
pub flip : ℕ → List ℕ → List ℕ
flip addr parity = set parity addr (bit_xor (get_or parity addr 0) 1)

-- `addr = entry->addrs[a] + shift`, less `m` if it is not below it.
pub wrap_addr : ℕ → ℕ → ℕ
wrap_addr m addr = if ltb addr m then addr else addr - m

-- The loop over the addresses of an entry. The sum of address and shift is an `unsigned int`; for the
-- tables, whose addresses and shifts are below m, it does not wrap.
pub add_addrs : ℕ → ℕ → TableEntry → List ℕ → List ℕ
add_addrs m shift [] parity = parity
add_addrs m shift (a ∷ addrs) parity =
    add_addrs m shift addrs (flip (wrap_addr m (a + shift)) parity)

-- `if (info[bit_idx])`: a bit that is set adds its addresses.
abbrev pub add_bit : ℕ → ℕ → TableEntry → ℕ → List ℕ → List ℕ
add_bit m shift entry zero parity = parity
add_bit m shift entry (suc b) parity = add_addrs m shift entry parity

-- The loop over the information bits of a group.
pub add_bits : ℕ → ℕ → ℕ → TableEntry → List ℕ → List ℕ → List ℕ
add_bits m q shift entry [] parity = parity
add_bits m q shift entry (b ∷ bits) parity =
    add_bits m q (shift + q) entry bits (add_bit m shift entry b parity)

-- The loop over the groups, each of the next 360 information bits.
pub add_groups : ℕ → ℕ → List TableEntry → List ℕ → List ℕ → List ℕ
add_groups m q [] info parity = parity
add_groups m q (entry ∷ table) info parity =
    add_groups m q table (drop ldpc_parallel info)
      (add_bits m q 0 entry (take ldpc_parallel info) parity)

-- The final accumulation, from the parity bit before on.
pub accumulate_from : ℕ → List ℕ → List ℕ
accumulate_from prev [] = []
accumulate_from prev (p ∷ ps) = bit_xor p prev ∷ accumulate_from (bit_xor p prev) ps

pub accumulate : List ℕ → List ℕ
accumulate [] = []
accumulate (p ∷ ps) = p ∷ accumulate_from p ps

-- The parity part of the codeword.
pub parity_part : LdpcCode → List ℕ → List ℕ
parity_part code info =
    let m = sub_u32 code.n code.k in
    accumulate (add_groups m code.q (take code.num_groups code.table) info (replicate m 0))

-- `dvbs2x_ldpc_encode`: the codeword, information bits first.
pub ldpc_encode : LdpcEncoder → List ℕ → List ℕ
ldpc_encode enc info = take enc.code.k info ++ parity_part enc.code info
