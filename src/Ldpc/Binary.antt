-- ===== src/Ldpc/Binary.antt =====
-- src/ldpc_encode.c: the values in parity parts and codewords.
use open_vlsnr.Prelude.{
  ℕ, zero, suc, ◌+◌, bit_xor, List, [], ◌∷◌, take, drop, replicate, get_or, arith, All, All-append,
  All-take, All-replicate, All-set, All-get_or,
}
use open_vlsnr.Bits.Binary.{IsBinary, bit_xor-IsBinary}
use open_vlsnr.Ldpc.{
  TableEntry, LdpcEncoder, flip, wrap_addr, add_addrs, add_bits, add_groups, accumulate_from,
  accumulate, parity_part, ldpc_encode,
}

add_addrs-IsBinary :
    (m shift : ℕ) (addrs : TableEntry) (parity : List ℕ)
    → All IsBinary parity
    → All IsBinary (add_addrs m shift addrs parity)
unfolding add_addrs flip
add_addrs-IsBinary m shift [] parity h = h
add_addrs-IsBinary m shift (a ∷ addrs) parity h =
    let addr = wrap_addr m (a + shift) in
    let old = All-get_or IsBinary parity addr 0 h (omega arith) in
    add_addrs-IsBinary m shift addrs _ (
      All-set IsBinary parity addr (bit_xor (get_or parity addr 0) 1) h
        (bit_xor-IsBinary (get_or parity addr 0) 1 old (omega arith)))

add_bits-IsBinary :
    (m q shift : ℕ) (entry : TableEntry) (bits parity : List ℕ)
    → All IsBinary parity
    → All IsBinary (add_bits m q shift entry bits parity)
unfolding add_bits
add_bits-IsBinary m q shift entry [] parity h = h
add_bits-IsBinary m q shift entry (zero ∷ bits) parity h =
    add_bits-IsBinary m q (shift + q) entry bits parity h
add_bits-IsBinary m q shift entry (suc b ∷ bits) parity h =
    add_bits-IsBinary m q (shift + q) entry bits _ (add_addrs-IsBinary m shift entry parity h)

add_groups-IsBinary :
    (m q : ℕ) (table : List TableEntry) (info parity : List ℕ)
    → All IsBinary parity
    → All IsBinary (add_groups m q table info parity)
unfolding add_groups
add_groups-IsBinary m q [] info parity h = h
add_groups-IsBinary m q (entry ∷ table) info parity h =
    add_groups-IsBinary m q table (drop 360 info) _
      (add_bits-IsBinary m q 0 entry (take 360 info) parity h)

accumulate_from-IsBinary :
    (prev : ℕ) (ps : List ℕ)
    → IsBinary prev
    → All IsBinary ps
    → All IsBinary (accumulate_from prev ps)
unfolding accumulate_from
accumulate_from-IsBinary prev [] h v = _
accumulate_from-IsBinary prev (p ∷ ps) h v =
    let sum = bit_xor-IsBinary p prev v.0 h in
    (sum, accumulate_from-IsBinary (bit_xor p prev) ps sum v.1)

accumulate-IsBinary : (ps : List ℕ) → All IsBinary ps → All IsBinary (accumulate ps)
unfolding accumulate
accumulate-IsBinary [] v = _
accumulate-IsBinary (p ∷ ps) v = (v.0, accumulate_from-IsBinary p ps v.0 v.1)

pub ldpc_encode-IsBinary :
    (enc : LdpcEncoder) (info : List ℕ) → All IsBinary info → All IsBinary (ldpc_encode enc info)
unfolding ldpc_encode parity_part
ldpc_encode-IsBinary enc info h =
    let z : ℕ = 0 in
    All-append IsBinary (take enc.code.k info) _ (All-take IsBinary enc.code.k info h) (
      accumulate-IsBinary _ (
        add_groups-IsBinary _ enc.code.q _ info (replicate _ z)
          (All-replicate IsBinary _ z (omega arith))))
