-- ===== src/Bch/Decoder/Syndromes.antt =====
-- The syndromes of `dvbs2x_bch_decode` (src/bch_decode.c) and codewords of the encoder.
use native.Mathlib.Nat.{mod-lt, mod-eq_of_lt, mul-le-mul_left}
use open_vlsnr.Prelude.{
  ℕ, zero, suc, ◌+◌, ◌-◌, ◌*◌, ◌%◌, ◌^◌, ◌≤◌, ◌<◌, ◌≡◌, refl, sym, ap, ◌∙◌, bit_xor, true, List, [],
  ◌∷◌, ◌++◌, length, take, get_or, arith, All, reverse, reverse-cons, length-reverse, u32, take_all,
}
use open_vlsnr.Bits.{zero-bit_xor}
use open_vlsnr.Bits.Xor.{xor_assoc, xor_comm, xor-zero}
use open_vlsnr.Bits.Binary.{IsBinary}
use open_vlsnr.Types.{FrameType, normal, medium, short_frame}
use open_vlsnr.Bch.{field_degree, prim_poly}
use open_vlsnr.Bch.Init.{exp_loop}
use open_vlsnr.Bch.Polynomial.{mul}
use open_vlsnr.Bch.Decoder.{GfTables, gf_init, syndrome_loop, syndromes_from, all_zero}
use open_vlsnr.Bch.Decoder.Powers.{
  power, power_from, times_x, get_or-exp_loop, length-exp_loop, power-mod,
}
use open_vlsnr.Bch.Decoder.Evaluation.{value, value_snoc, value-multiple}

pub get_or-append :
    (xs ys : List ℕ) (k d : ℕ) → k < length xs → get_or (xs ++ ys) k d ≡ get_or xs k d
get_or-append [] ys k d h = absurd (omega arith)
get_or-append (x ∷ xs) ys zero d h = refl
get_or-append (x ∷ xs) ys (suc k) d h = get_or-append xs ys k d (omega arith)

module _ (m poly : ℕ) (repeats : power m poly (2 ^ m - 1) ≡ 1) (pos : 0 < 2 ^ m - 1) where
  -- What `dvbs2x_bch_decode` reads from `exp_table`.
  pub table_read :
      (e : ℕ)
      → e < 2 ^ 32
      → get_or (gf_init m poly).exp_table (u32 e % (gf_init m poly).n) 0 ≡ power m poly e
  unfolding gf_init
  table_read e fits =
      let n : ℕ = 2 ^ m - 1 in
      let below : u32 e % n < n = mod-lt (u32 e) pos in
      get_or-append (exp_loop n m poly 1) (exp_loop n m poly 1) (u32 e % n) 0
        (omega (arith, below, length-exp_loop m poly n 1))
      ∙ get_or-exp_loop m poly n 1 (u32 e % n) below
      ∙ power-mod m poly n (u32 e) repeats
      ∙ ap (power m poly) (mod-eq_of_lt fits)

  -- One more coefficient at the end.
  pub snoc_lem :
      (i : ℕ) (c : ℕ) (codeword : List ℕ)
      → value m poly i 0 (reverse (c ∷ codeword))
        ≡ bit_xor (value m poly i 0 (reverse codeword)) (c % 2 * power m poly (i * length codeword))
  snoc_lem i c codeword =
      ap (value m poly i 0) (reverse-cons c codeword)
      ∙ value_snoc m poly i 0 (reverse codeword) c
      ∙ ap (λ (k : ℕ). bit_xor (value m poly i 0 (reverse codeword)) (c % 2 * power m poly (i * k)))
          (omega (arith, length-reverse codeword))

  -- Syndrome i is the value of the codeword, its first bit the highest coefficient.
  pub syndrome-value :
      (size i n : ℕ) (codeword : List ℕ) (acc : ℕ)
      → All IsBinary codeword
      → n + length codeword ≡ size
      → i * size < 2 ^ 32
      → syndrome_loop (gf_init m poly) size i n codeword acc
        ≡ bit_xor acc (value m poly i 0 (reverse codeword))
  unfolding syndrome_loop
  syndrome-value size i n [] acc bits len fits = sym (xor-zero acc)
  syndrome-value size i n (zero ∷ codeword) acc bits len fits =
      let v : ℕ = value m poly i 0 (reverse codeword) in
      syndrome-value size i (n + 1) codeword acc bits.1 (omega (arith, len)) fits
      ∙ ap (bit_xor acc) (
          sym (
            snoc_lem i 0 codeword
            ∙ ap (bit_xor v)
                (let z : 0 % 2 * power m poly (i * length codeword) ≡ 0 = omega arith in z)
            ∙ xor-zero v))
  syndrome-value size i n (suc zero ∷ codeword) acc bits len fits =
      let v : ℕ = value m poly i 0 (reverse codeword) in
      let w : ℕ = power m poly (i * length codeword) in
      let at : size - 1 - n ≡ length codeword = omega (arith, len) in
      let below : i * length codeword ≤ i * size =
        mul-le-mul_left i (let le : length codeword ≤ size = omega (arith, len) in le) in
      let read =
        ap (λ (k : ℕ). get_or (gf_init m poly).exp_table (u32 (i * k) % (gf_init m poly).n) 0) at
        ∙ table_read (i * length codeword) (omega (arith, fits, below)) in
      ap (λ (k : ℕ). syndrome_loop (gf_init m poly) size i (n + 1) codeword (bit_xor acc k)) read
      ∙ syndrome-value size i (n + 1) codeword (bit_xor acc w) bits.1 (omega (arith, len)) fits
      ∙ xor_assoc acc w v
      ∙ ap (bit_xor acc) (
          xor_comm w v
          ∙ sym (snoc_lem i 1 codeword ∙ ap (bit_xor v) (let z : 1 % 2 * w ≡ w = omega arith in z)))
  syndrome-value size i n (suc (suc c) ∷ codeword) acc bits len fits =
      absurd (omega (arith, bits.0))

  -- Codewords are multiples of the generator polynomial, so its roots are theirs.
  pub multiple_value :
      (i : ℕ) (quotient gen codeword : List ℕ)
      → value m poly i 0 gen ≡ 0
      → mul quotient gen ≡ reverse codeword ++ (0 ∷ [])
      → value m poly i 0 (reverse codeword) ≡ 0
  multiple_value i quotient gen codeword root multiple =
      let v : ℕ = value m poly i 0 (reverse codeword) in
      sym (
        value_snoc m poly i 0 (reverse codeword) 0
        ∙ ap (bit_xor v) (
            let z : 0 % 2 * power m poly (i * (0 + length (reverse codeword))) ≡ 0 = omega arith in
            z)
        ∙ xor-zero v)
      ∙ ap (value m poly i 0) (sym multiple)
      ∙ value-multiple m poly i quotient gen root

  -- A syndrome, from the start of the codeword.
  pub whole_syndrome :
      (size i : ℕ) (codeword : List ℕ)
      → All IsBinary codeword
      → length codeword ≡ size
      → i * size < 2 ^ 32
      → syndrome_loop (gf_init m poly) size i 0 (take size codeword) 0
        ≡ value m poly i 0 (reverse codeword)
  whole_syndrome size i codeword bits len fits =
      ap (λ (t : List ℕ). syndrome_loop (gf_init m poly) size i 0 t 0) (take_all size codeword len)
      ∙ syndrome-value size i 0 codeword 0 bits (omega (arith, len)) fits
      ∙ zero-bit_xor (value m poly i 0 (reverse codeword))

pub all_zero-syndromes_from :
    (gf : GfTables) (size : ℕ) (codeword : List ℕ) (left i : ℕ)
    → ((j : ℕ) → i ≤ j → j < i + left → syndrome_loop gf size j 0 (take size codeword) 0 ≡ 0)
    → all_zero (syndromes_from gf size codeword left i) ≡ true
unfolding all_zero syndromes_from
all_zero-syndromes_from gf size codeword zero i h = refl
all_zero-syndromes_from gf size codeword (suc left) i h =
    ap (λ (s : ℕ). all_zero (s ∷ syndromes_from gf size codeword left (i + 1)))
      (h i (omega arith) (omega arith))
    ∙ all_zero-syndromes_from gf size codeword left (i + 1)
        (λ j low high. h j (omega (arith, low)) (omega (arith, high)))

-- The generator of each field comes back to 1.
pub field_repeats :
    (ft : FrameType) → power (field_degree ft) (prim_poly ft) (2 ^ field_degree ft - 1) ≡ 1
unfolding field_degree prim_poly power_from times_x
field_repeats normal = refl
field_repeats medium = refl
field_repeats short_frame = refl
