-- ===== src/Bch/Binary.antt =====
-- src/bch_encode.c: the values in registers and codewords.
use open_vlsnr.Prelude.{
  ℕ, zero, suc, bit_xor, List, [], ◌∷◌, take, replicate, arith, All, All-append, All-take,
  All-replicate, All-reverse,
}
use open_vlsnr.Bits.Binary.{IsBinary, bit_xor-IsBinary}
use open_vlsnr.Bch.{
  BchEncoder, feed, shift_register, last_or, bch_round, bch_loop, bch_register, bch_encode,
}

feed-IsBinary : (g fb before : ℕ) → IsBinary fb → IsBinary before → IsBinary (feed g fb before)
feed-IsBinary zero fb before h k = k
feed-IsBinary (suc g) fb before h k = bit_xor-IsBinary before fb k h

shift_register-IsBinary :
    (fb before : ℕ) (gen lfsr : List ℕ)
    → IsBinary fb
    → IsBinary before
    → All IsBinary lfsr
    → All IsBinary (shift_register fb before gen lfsr)
unfolding shift_register
shift_register-IsBinary fb before [] lfsr h k v = _
shift_register-IsBinary fb before (g ∷ gen) [] h k v = _
shift_register-IsBinary fb before (g ∷ gen) (r ∷ lfsr) h k v =
    (feed-IsBinary g fb before h k, shift_register-IsBinary fb r gen lfsr h v.0 v.1)

last_or-IsBinary :
    (d : ℕ) (lfsr : List ℕ) → IsBinary d → All IsBinary lfsr → IsBinary (last_or d lfsr)
unfolding last_or
last_or-IsBinary d [] h v = h
last_or-IsBinary d (r ∷ lfsr) h v = last_or-IsBinary r lfsr v.0 v.1

bch_loop-IsBinary :
    (gen input lfsr : List ℕ)
    → All IsBinary input
    → All IsBinary lfsr
    → All IsBinary (bch_loop gen input lfsr)
unfolding bch_loop bch_round
bch_loop-IsBinary gen [] lfsr h v = v
bch_loop-IsBinary gen (bit ∷ input) lfsr h v = bch_loop-IsBinary gen input _ h.1 (
    shift_register-IsBinary (bit_xor bit (last_or 0 lfsr)) 0 gen lfsr
      (bit_xor-IsBinary bit (last_or 0 lfsr) h.0 (last_or-IsBinary 0 lfsr (omega arith) v))
      (omega arith) v)

pub bch_encode-IsBinary :
    (enc : BchEncoder) (input : List ℕ) → All IsBinary input → All IsBinary (bch_encode enc input)
unfolding bch_encode bch_register
bch_encode-IsBinary enc input h =
    let front = All-take IsBinary enc.k input h in
    let z : ℕ = 0 in
    let register =
      bch_loop-IsBinary (take enc.parity_len enc.gen_poly) (take enc.k input)
        (replicate enc.parity_len z) front
        (All-replicate IsBinary enc.parity_len z (omega arith)) in
    All-append IsBinary (take enc.k input) _ front (All-reverse IsBinary _ register)
