-- ===== src/Bch/Codeword.antt =====
-- `dvbs2x_bch_encode` (src/bch_encode.c) and multiples of the generator polynomial.
use open_vlsnr.Prelude.{
  ℕ, zero, suc, ◌+◌, ◌*◌, bit_xor, ◌≡◌, refl, sym, ap, ap₂, ◌∙◌, List, [], ◌∷◌, ◌++◌, arith, All,
  length, take, replicate, reverse, reverse-append, reverse-reverse, reverse-cons, append_assoc,
  length-append, length-replicate, length-reverse, take_all, take-append,
}
use open_vlsnr.Bits.{zero-bit_xor}
use open_vlsnr.Bits.Xor.{xor_comm, xor_cancel}
use open_vlsnr.Bch.{
  BchEncoder, feed, shift_register, last_or, bch_round, bch_loop, bch_register, bch_encode,
}
use open_vlsnr.Bch.Polynomial.{IsBit, add, scale, mul}

feed-scale : (fb before g : ℕ) → IsBit g → bit_xor (fb * g) before ≡ feed g fb before
feed-scale fb before zero bit = ap (λ (t : ℕ). bit_xor t before) (omega arith) ∙ zero-bit_xor before
feed-scale fb before (suc zero) bit =
    ap (λ (t : ℕ). bit_xor t before) (omega arith) ∙ xor_comm fb before
feed-scale fb before (suc (suc g)) bit = absurd (omega (arith, bit))

length-shift_register :
    (fb before : ℕ) (gen lfsr : List ℕ)
    → length gen ≡ length lfsr
    → length (shift_register fb before gen lfsr) ≡ length lfsr
unfolding shift_register
length-shift_register fb before [] [] e = refl
length-shift_register fb before [] (r ∷ lfsr) e = absurd (omega arith)
length-shift_register fb before (g ∷ gen) [] e = absurd (omega arith)
length-shift_register fb before (g ∷ gen) (r ∷ lfsr) e =
    ap suc (length-shift_register fb r gen lfsr (omega arith))

-- A shift of the register adds a multiple of the generator polynomial.
shift_register-add :
    (fb before : ℕ) (gen lfsr tail : List ℕ)
    → length gen ≡ length lfsr
    → All IsBit gen
    → add (scale fb (gen ++ (1 ∷ []))) (before ∷ (lfsr ++ tail))
      ≡ shift_register fb before gen lfsr ++ (bit_xor fb (last_or before lfsr) ∷ tail)
unfolding add shift_register last_or
shift_register-add fb before [] [] tail e bits =
    ap (λ (t : ℕ). bit_xor t before ∷ tail) (omega arith)
shift_register-add fb before [] (r ∷ lfsr) tail e bits = absurd (omega arith)
shift_register-add fb before (g ∷ gen) [] tail e bits = absurd (omega arith)
shift_register-add fb before (g ∷ gen) (r ∷ lfsr) tail e bits =
    ap₂ (λ (h : ℕ) (t : List ℕ). h ∷ t) (feed-scale fb before g bits.0)
      (shift_register-add fb r gen lfsr tail (omega arith) bits.1)

-- A multiple of the generator polynomial: register, then the bits that have gone through it.
abbrev IsMultiple : List ℕ → List ℕ → Type 0
IsMultiple gen word = (quotient : List ℕ) × (mul quotient (gen ++ (1 ∷ [])) ≡ word)

bch_round-IsMultiple :
    (gen lfsr done : List ℕ) (bit : ℕ)
    → length gen ≡ length lfsr
    → All IsBit gen
    → IsMultiple gen (lfsr ++ done)
    → IsMultiple gen (bch_round gen bit lfsr ++ (bit ∷ done))
unfolding bch_round mul last_or
bch_round-IsMultiple gen lfsr done bit e bits (q, multiple) =
    let fb = bit_xor bit (last_or 0 lfsr) in
    (
      fb ∷ q,
      ap (λ (t : List ℕ). add (scale fb (gen ++ (1 ∷ []))) (0 ∷ t)) multiple
          ∙ shift_register-add fb 0 gen lfsr done e bits
          ∙ ap (λ (t : ℕ). shift_register fb 0 gen lfsr ++ (t ∷ done))
              (xor_cancel bit (last_or 0 lfsr)),
    )

bch_loop-IsMultiple :
    (gen input lfsr done : List ℕ)
    → length gen ≡ length lfsr
    → All IsBit gen
    → IsMultiple gen (lfsr ++ done)
    → (length (bch_loop gen input lfsr) ≡ length lfsr)
      × IsMultiple gen (bch_loop gen input lfsr ++ (reverse input ++ done))
unfolding bch_loop bch_round
bch_loop-IsMultiple gen [] lfsr done e bits m = (refl, m)
bch_loop-IsMultiple gen (bit ∷ input) lfsr done e bits m =
    let next = bch_round gen bit lfsr in
    let same : length next ≡ length lfsr =
      length-shift_register (bit_xor bit (last_or 0 lfsr)) 0 gen lfsr e in
    let (len, multiple) =
      bch_loop-IsMultiple gen input next (bit ∷ done) (e ∙ sym same) bits
        (bch_round-IsMultiple gen lfsr done bit e bits m) in
    (len ∙ same, rw (reverse-cons bit input, append_assoc (reverse input) (bit ∷ []) done) multiple)

add-nil : (p : List ℕ) → add p [] ≡ p
unfolding add
add-nil [] = refl
add-nil (a ∷ p) = refl

scale-zero : (p : List ℕ) → scale 0 p ≡ replicate (length p) 0
scale-zero [] = refl
scale-zero (a ∷ p) = ap₂ (λ (h : ℕ) (t : List ℕ). h ∷ t) (omega arith) (scale-zero p)

replicate-append : (n : ℕ) → let z : ℕ = 0 in replicate n z ++ (z ∷ []) ≡ replicate (suc n) z
replicate-append zero = refl
replicate-append (suc n) = ap (λ t. 0 ∷ t) (replicate-append n)

-- An encoder's generator polynomial: of degree `parity_len`, with leading coefficient 1.
pub record IsBchEncoder (enc : BchEncoder) (low : List ℕ) : Type 0 where
  pub generator : enc.gen_poly ≡ low ++ (1 ∷ [])
  pub degree : length low ≡ enc.parity_len
  pub binary : All IsBit low
  pub lengths : enc.k + enc.parity_len ≡ enc.n

zero_word :
    (low : List ℕ) (p : ℕ)
    → length low ≡ p
    → let z : ℕ = 0 in IsMultiple low (replicate p z ++ (z ∷ []))
unfolding mul add
zero_word low p e =
    let longer : length (low ++ (1 ∷ [])) ≡ suc p = omega (arith, length-append low (1 ∷ []), e) in
    (
      0 ∷ [],
      ap (λ (t : List ℕ). add t (0 ∷ [])) (scale-zero (low ++ (1 ∷ [])))
          ∙ ap (λ (t : ℕ). add (replicate t 0) (0 ∷ [])) longer
          ∙ ap (λ (t : List ℕ). 0 ∷ t) (add-nil (replicate p 0))
          ∙ sym (replicate-append p),
    )

-- With a generator polynomial of degree `parity_len` and an input of `k` bits, the codeword has `n`
-- bits, begins with the input, and as a polynomial, its first bit being the highest coefficient,
-- it is a multiple of the generator polynomial (one leading zero coefficient is written out).
pub bch_encode-IsMultiple :
    (enc : BchEncoder) (low input : List ℕ)
    → IsBchEncoder enc low
    → length input ≡ enc.k
    → let codeword = bch_encode enc input in
      (length codeword ≡ enc.n)
      × (take enc.k codeword ≡ input)
      × ((quotient : List ℕ) × (mul quotient enc.gen_poly ≡ reverse codeword ++ (0 ∷ [])))
unfolding bch_encode bch_register
bch_encode-IsMultiple enc low input v size =
    let p = enc.parity_len in
    let zeros : List ℕ = replicate p 0 in
    let all : take enc.k input ≡ input = take_all enc.k input size in
    let taken : take p enc.gen_poly ≡ low =
      ap (take p) v.generator ∙ take-append p low (1 ∷ []) v.degree in
    let (len, (q, multiple)) =
      bch_loop-IsMultiple low input zeros (0 ∷ [])
        (omega (arith, length-replicate {A = ℕ} p 0, v.degree)) v.binary
        (zero_word low p v.degree) in
    let register = bch_loop low input zeros in
    let backwards : reverse (input ++ reverse register) ≡ register ++ reverse input =
      reverse-append input (reverse register)
      ∙ ap (λ (t : List ℕ). t ++ reverse input) (reverse-reverse register) in
    rw (all, taken)
      (
        omega (
          arith,
          length-append input (reverse register),
          length-reverse register,
          len,
          length-replicate {A = ℕ} p 0,
          v.lengths,
          size,
        ),
        take-append enc.k input (reverse register) size,
        (
          q,
          ap (mul q) v.generator
              ∙ multiple
              ∙ sym (
                  ap (λ (t : List ℕ). t ++ (0 ∷ [])) backwards
                  ∙ append_assoc register (reverse input) (0 ∷ [])),
        ),
      )
