-- ===== src/BbFrame/Crc8.antt =====
-- src/bb_frame.c: the checksum `dvbs2x_bb_crc8` of the BB header.
use open_vlsnr.Prelude.{
  ℕ, zero, suc, ◌+◌, ◌/◌, ◌%◌, ◌<◌, ◌≡◌, ◌≢◌, refl, sym, ap, ◌∙◌, List, [], ◌∷◌, ◌++◌, arith, All,
  bit_xor, ◌==◌, ==_iff, if◌then◌else◌, true,
}
use open_vlsnr.Bits.{all_below, all_below_sound}
use open_vlsnr.Bits.Xor.{xor_comm, xor_self, xor_cancel, xor-lt}
use open_vlsnr.BbFrame.{crc8_bit, crc8_bits, crc8_loop, bb_crc8, with_crc8}

abbrev pub IsByte : ℕ → Type 0
IsByte b = b < 256

-- The division step run backwards: the polynomial is odd, so the lowest bit tells whether it was
-- subtracted.
undo_bit : ℕ → ℕ
undo_bit c = if c % 2 == 0 then c / 2 else bit_xor c 0xD5 / 2 + 128

undo_table : all_below 256 (λ c. undo_bit (crc8_bit c) == c) ≡ true
unfolding all_below undo_bit crc8_bit
undo_table = refl

undo_bit-crc8_bit : (c : ℕ) → c < 256 → undo_bit (crc8_bit c) ≡ c
undo_bit-crc8_bit c h = (==_iff _ c).0 (all_below_sound 256 _ c undo_table h)

crc8_bit-lt : (c : ℕ) → crc8_bit c < 256
unfolding crc8_bit
crc8_bit-lt c = ground arith

crc8_bits-lt : (n c : ℕ) → c < 256 → crc8_bits n c < 256
unfolding crc8_bits
crc8_bits-lt zero c h = h
crc8_bits-lt (suc n) c h = crc8_bits-lt n (crc8_bit c) (crc8_bit-lt c)

crc8_bits-injective : (n a b : ℕ) → a < 256 → b < 256 → crc8_bits n a ≡ crc8_bits n b → a ≡ b
unfolding crc8_bits
crc8_bits-injective zero a b p q e = e
crc8_bits-injective (suc n) a b p q e =
    sym (undo_bit-crc8_bit a p)
    ∙ ap undo_bit
        (crc8_bits-injective n (crc8_bit a) (crc8_bit b) (crc8_bit-lt a) (crc8_bit-lt b) e)
    ∙ undo_bit-crc8_bit b q

pub crc8_loop-lt : (c : ℕ) (bytes : List ℕ) → c < 256 → All IsByte bytes → crc8_loop c bytes < 256
unfolding crc8_loop
crc8_loop-lt c [] h bs = h
crc8_loop-lt c (b ∷ bytes) h bs =
    crc8_loop-lt (crc8_bits 8 (bit_xor c b)) bytes
      (crc8_bits-lt 8 (bit_xor c b) (xor-lt 8 c b h bs.0)) bs.1

crc8_loop-append : (c : ℕ) (xs ys : List ℕ) → crc8_loop c (xs ++ ys) ≡ crc8_loop (crc8_loop c xs) ys
unfolding crc8_loop
crc8_loop-append c [] ys = refl
crc8_loop-append c (x ∷ xs) ys = crc8_loop-append (crc8_bits 8 (bit_xor c x)) xs ys

crc8_loop-injective :
    (a b : ℕ) (bytes : List ℕ)
    → a < 256
    → b < 256
    → All IsByte bytes
    → crc8_loop a bytes ≡ crc8_loop b bytes
    → a ≡ b
unfolding crc8_loop
crc8_loop-injective a b [] p q bs e = e
crc8_loop-injective a b (x ∷ bytes) p q bs e =
    let a' : bit_xor a x < 256 = xor-lt 8 a x p bs.0 in
    let b' : bit_xor b x < 256 = xor-lt 8 b x q bs.0 in
    let same : bit_xor a x ≡ bit_xor b x = crc8_bits-injective 8 (bit_xor a x) (bit_xor b x) a' b' (
      crc8_loop-injective (crc8_bits 8 (bit_xor a x)) (crc8_bits 8 (bit_xor b x)) bytes
        (crc8_bits-lt 8 (bit_xor a x) a') (crc8_bits-lt 8 (bit_xor b x) b') bs.1 e) in
    sym (xor_cancel a x) ∙ ap (λ (t : ℕ). bit_xor t x) same ∙ xor_cancel b x

-- A message with its checksum behind it has the checksum 0.
pub bb_crc8-with_crc8 : (bytes : List ℕ) → bb_crc8 (with_crc8 bytes) ≡ 0
unfolding bb_crc8 with_crc8 crc8_loop
bb_crc8-with_crc8 bytes =
    crc8_loop-append 0 bytes (crc8_loop 0 bytes ∷ [])
    ∙ ap (crc8_bits 8) (xor_self (crc8_loop 0 bytes))
    ∙ unfold crc8_bits crc8_bit in refl

-- Every error within one byte is detected: two messages that differ in one byte only have
-- different checksums.
pub bb_crc8_detects :
    (before after : List ℕ) (x y : ℕ)
    → All IsByte before
    → All IsByte after
    → x < 256
    → y < 256
    → x ≢ y
    → bb_crc8 (before ++ (x ∷ after)) ≢ bb_crc8 (before ++ (y ∷ after))
unfolding bb_crc8 crc8_loop
bb_crc8_detects before after x y hb ha hx hy differ e =
    let c = crc8_loop 0 before in
    let hc : c < 256 = crc8_loop-lt 0 before (omega arith) hb in
    let x' : bit_xor c x < 256 = xor-lt 8 c x hc hx in
    let y' : bit_xor c y < 256 = xor-lt 8 c y hc hy in
    let e' : crc8_loop (crc8_bits 8 (bit_xor c x)) after
        ≡ crc8_loop (crc8_bits 8 (bit_xor c y)) after =
      sym (crc8_loop-append 0 before (x ∷ after)) ∙ e ∙ crc8_loop-append 0 before (y ∷ after) in
    let same : bit_xor c x ≡ bit_xor c y = crc8_bits-injective 8 (bit_xor c x) (bit_xor c y) x' y' (
      crc8_loop-injective _ _ after (crc8_bits-lt 8 (bit_xor c x) x')
        (crc8_bits-lt 8 (bit_xor c y) y') ha e') in
    differ (
      sym (xor_cancel x c)
      ∙ ap (λ (t : ℕ). bit_xor t c) (xor_comm x c ∙ same ∙ xor_comm c y)
      ∙ xor_cancel y c)
