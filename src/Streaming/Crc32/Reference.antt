-- ===== src/Streaming/Crc32/Reference.antt =====
-- streaming/src/crc32.c: the bit-by-bit division by the reflected polynomial.
use open_vlsnr.Prelude.{
  ℕ, zero, suc, ◌+◌, ◌*◌, ◌/◌, ◌%◌, ◌^◌, ◌<◌, ◌≡◌, refl, sym, ap, ap₂, ◌∙◌, bit_and, bit_xor, List,
  [], ◌∷◌, arith, All, Bool, ◌&&◌, get_or, length, true, ◌==◌,
}
use open_vlsnr.Bits.{bit_and_mask, mul-two-pow-suc}
use open_vlsnr.Bits.Xor.{xor_comm, xor-zero, xor-div-two, xor-mod-two, xor-lt, xor_fields, xor_swap}
use open_vlsnr.Streaming.Crc32.{crc32_table, crc32_step, crc32_loop, crc32}

-- The polynomial 0x04C11DB7, reflected, if the bit shifted out is set.
poly_if : ℕ → ℕ
poly_if zero = 0
poly_if (suc b) = 0xEDB88320

-- One bit of the reflected division.
pub divide_bit : ℕ → ℕ
divide_bit c = bit_xor (c / 2) (poly_if (c % 2))

pub divide_bits : ℕ → ℕ → ℕ
divide_bits zero c = c
divide_bits (suc n) c = divide_bits n (divide_bit c)

-- A byte is added to the remainder, then divided out bit by bit.
pub divide_bytes : ℕ → List ℕ → ℕ
divide_bytes c [] = c
divide_bytes c (byte ∷ bytes) = divide_bytes (divide_bits 8 (bit_xor c byte)) bytes

poly_if-xor : (x y : ℕ) → x < 2 → y < 2 → poly_if ((x + y) % 2) ≡ bit_xor (poly_if x) (poly_if y)
unfolding poly_if
poly_if-xor zero zero p q = refl
poly_if-xor zero (suc zero) p q = refl
poly_if-xor (suc zero) zero p q = refl
poly_if-xor (suc zero) (suc zero) p q = refl
poly_if-xor x (suc (suc y)) p q = absurd (omega arith)
poly_if-xor (suc (suc x)) y p q = absurd (omega arith)

divide_bit-xor : (a b : ℕ) → divide_bit (bit_xor a b) ≡ bit_xor (divide_bit a) (divide_bit b)
unfolding divide_bit
divide_bit-xor a b =
    ap₂ bit_xor (xor-div-two a b) (
      ap poly_if
        (let e : bit_xor a b % 2 ≡ (a % 2 + b % 2) % 2 = omega (arith, xor-mod-two a b) in e)
      ∙ poly_if-xor (a % 2) (b % 2) (omega arith) (omega arith))
    ∙ xor_swap (a / 2) (b / 2) (poly_if (a % 2)) (poly_if (b % 2))

divide_bits-xor :
    (n a b : ℕ) → divide_bits n (bit_xor a b) ≡ bit_xor (divide_bits n a) (divide_bits n b)
unfolding divide_bits
divide_bits-xor zero a b = refl
divide_bits-xor (suc n) a b =
    ap (divide_bits n) (divide_bit-xor a b) ∙ divide_bits-xor n (divide_bit a) (divide_bit b)

divide_bit-even : (m : ℕ) → divide_bit (m * 2) ≡ m
unfolding divide_bit
divide_bit-even m =
    ap₂ bit_xor (let e : m * 2 / 2 ≡ m = omega arith in e)
      (ap poly_if (let e : m * 2 % 2 ≡ 0 = omega arith in e))
    ∙ unfold poly_if in xor-zero m

-- Clear bits are shifted out unchanged.
divide_bits_shift : (n h : ℕ) → divide_bits n (h * 2 ^ n) ≡ h
unfolding divide_bits
divide_bits_shift zero h = omega arith
divide_bits_shift (suc n) h =
    ap (λ (t : ℕ). divide_bits n (divide_bit t))
      (let e : h * 2 ^ suc n ≡ h * 2 ^ n * 2 = omega (arith, mul-two-pow-suc h n) in e)
    ∙ ap (divide_bits n) (divide_bit-even (h * 2 ^ n))
    ∙ divide_bits_shift n h

-- The words of a table from index n on are the divided indices.
table_check : ℕ → List ℕ → Bool
table_check n [] = true
table_check n (w ∷ ws) = w == divide_bits 8 n && table_check (n + 1) ws

table_check_sound :
    (n : ℕ) (ws : List ℕ) (i : ℕ)
    → table_check n ws ≡ true
    → i < length ws
    → get_or ws i 0 ≡ divide_bits 8 (n + i)
unfolding table_check
table_check_sound n [] i h lt = absurd (omega arith)
table_check_sound n (w ∷ ws) zero h lt = let e : n + 0 ≡ n = omega arith in rw e (ground arith)
table_check_sound n (w ∷ ws) (suc i) h lt =
    let e : n + suc i ≡ n + 1 + i = omega arith in
    rw e (table_check_sound (n + 1) ws i (ground arith) (omega arith))

table_checked : table_check 0 crc32_table ≡ true
unfolding table_check divide_bits divide_bit poly_if
table_checked = refl

table_entry : (i : ℕ) → i < 256 → get_or crc32_table i 0 ≡ divide_bits 8 i
table_entry i h =
    let from_start : 0 + i ≡ i = omega arith in
    table_check_sound 0 crc32_table i table_checked h ∙ ap (divide_bits 8) from_start

xor-div-256 : (a b : ℕ) → b < 256 → bit_xor a b / 256 ≡ a / 256
xor-div-256 a b h = omega (
  arith,
  xor-div-two a b,
  xor-div-two (a / 2) (b / 2),
  xor-div-two (a / 2 / 2) (b / 2 / 2),
  xor-div-two (a / 2 / 2 / 2) (b / 2 / 2 / 2),
  xor-div-two (a / 2 / 2 / 2 / 2) (b / 2 / 2 / 2 / 2),
  xor-div-two (a / 2 / 2 / 2 / 2 / 2) (b / 2 / 2 / 2 / 2 / 2),
  xor-div-two (a / 2 / 2 / 2 / 2 / 2 / 2) (b / 2 / 2 / 2 / 2 / 2 / 2),
  xor-div-two (a / 2 / 2 / 2 / 2 / 2 / 2 / 2) (b / 2 / 2 / 2 / 2 / 2 / 2 / 2),
  ap (bit_xor (a / 2 / 2 / 2 / 2 / 2 / 2 / 2 / 2)) clear,
  xor-zero (a / 2 / 2 / 2 / 2 / 2 / 2 / 2 / 2),
)
  where
    clear : b / 2 / 2 / 2 / 2 / 2 / 2 / 2 / 2 ≡ 0
    clear = omega arith

crc32_step-eq-divide :
    (crc byte : ℕ) → byte < 256 → crc32_step crc byte ≡ divide_bits 8 (bit_xor crc byte)
unfolding crc32_step
crc32_step-eq-divide crc byte h =
    let x = bit_xor crc byte in
    let low : bit_and x 0xFF ≡ x % 256 = bit_and_mask 8 x in
    let split : bit_xor (crc / 256 * 2 ^ 8) (x % 256) ≡ x =
      xor_fields 8 (crc / 256) (x % 256) (omega arith) ∙ omega (arith, xor-div-256 crc byte h) in
    ap₂ bit_xor (ap (λ (t : ℕ). get_or crc32_table t 0) low ∙ table_entry (x % 256) (omega arith))
      (sym (divide_bits_shift 8 (crc / 256)))
    ∙ xor_comm _ _
    ∙ sym (divide_bits-xor 8 (crc / 256 * 2 ^ 8) (x % 256))
    ∙ ap (divide_bits 8) split

crc32_loop-eq-divide :
    (crc : ℕ) (bytes : List ℕ)
    → All (λ b. b < 256) bytes
    → crc32_loop crc bytes ≡ divide_bytes crc bytes
unfolding crc32_loop divide_bytes
crc32_loop-eq-divide crc [] h = refl
crc32_loop-eq-divide crc (byte ∷ bytes) h =
    ap (λ (t : ℕ). crc32_loop t bytes) (crc32_step-eq-divide crc byte h.0)
    ∙ crc32_loop-eq-divide (divide_bits 8 (bit_xor crc byte)) bytes h.1

-- On bytes the table-driven checksum is the remainder of the bit-by-bit division by the reflected
-- polynomial, with the initial and final complement.
pub crc32-eq-divide :
    (bytes : List ℕ)
    → All (λ b. b < 256) bytes
    → crc32 bytes ≡ bit_xor (divide_bytes 0xFFFFFFFF bytes) 0xFFFFFFFF
unfolding crc32
crc32-eq-divide bytes h =
    ap (λ (t : ℕ). bit_xor t 0xFFFFFFFF) (crc32_loop-eq-divide 0xFFFFFFFF bytes h)

poly_if-lt : (b : ℕ) → poly_if b < 2 ^ 32
unfolding poly_if
poly_if-lt zero = omega arith
poly_if-lt (suc b) = omega arith

divide_bits-lt : (n c : ℕ) → c < 2 ^ 32 → divide_bits n c < 2 ^ 32
unfolding divide_bits divide_bit
divide_bits-lt zero c h = h
divide_bits-lt (suc n) c h =
    divide_bits-lt n _ (xor-lt 32 (c / 2) (poly_if (c % 2)) (omega arith) (poly_if-lt (c % 2)))

divide_bytes-lt :
    (c : ℕ) (bytes : List ℕ) → c < 2 ^ 32 → All (λ b. b < 256) bytes → divide_bytes c bytes < 2 ^ 32
unfolding divide_bytes
divide_bytes-lt c [] h bs = h
divide_bytes-lt c (byte ∷ bytes) h bs =
    divide_bytes-lt (divide_bits 8 (bit_xor c byte)) bytes
      (divide_bits-lt 8 (bit_xor c byte) (xor-lt 32 c byte h (omega (arith, bs.0)))) bs.1

-- The checksum of bytes fits 32 bits.
pub crc32-lt : (bytes : List ℕ) → All (λ b. b < 256) bytes → crc32 bytes < 2 ^ 32
crc32-lt bytes h = rw (crc32-eq-divide bytes h) (
    xor-lt 32 (divide_bytes 0xFFFFFFFF bytes) 0xFFFFFFFF
      (divide_bytes-lt 0xFFFFFFFF bytes (omega arith) h) (omega arith))
