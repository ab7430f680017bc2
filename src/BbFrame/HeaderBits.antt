-- ===== src/BbFrame/HeaderBits.antt =====
-- src/bb_frame.c: header bytes and their bits, written and read.
use open_vlsnr.Prelude.{
  ℕ, ◌*◌, ◌<◌, ◌≡◌, refl, ap, ap₂, ◌∙◌, List, [], ◌∷◌, ◌++◌, arith, All, length, drop, append_assoc,
  ◌==◌, ==_iff, true,
}
use open_vlsnr.Bits.{all_below, all_below_sound}
use open_vlsnr.BbFrame.{byte_bits, header_bits, pack_byte, pack_bytes}
use open_vlsnr.BbFrame.Crc8.{IsByte}

byte_table : all_below 256 (λ h. pack_byte 0 8 (byte_bits h) == h) ≡ true
unfolding all_below pack_byte byte_bits
byte_table = refl

pack_byte-byte_bits : (h : ℕ) (rest : List ℕ) → h < 256 → pack_byte 0 8 (byte_bits h ++ rest) ≡ h
pack_byte-byte_bits h rest lt = alone ∙ (==_iff _ h).0 (all_below_sound 256 _ h byte_table lt)
  where
    alone : pack_byte 0 8 (byte_bits h ++ rest) ≡ pack_byte 0 8 (byte_bits h)
    alone = unfold pack_byte byte_bits in refl

drop_byte : (h : ℕ) (rest : List ℕ) → drop 8 (byte_bits h ++ rest) ≡ rest
unfolding byte_bits
drop_byte h rest = refl

-- Packing undoes the expansion into bits, whatever follows.
pub pack_bytes-header_bits :
    (hs rest : List ℕ) → All IsByte hs → pack_bytes (length hs) (header_bits hs ++ rest) ≡ hs
unfolding pack_bytes header_bits
pack_bytes-header_bits [] rest bs = refl
pack_bytes-header_bits (h ∷ hs) rest bs =
    ap₂ ◌∷◌
      (ap (pack_byte 0 8) (append_assoc (byte_bits h) (header_bits hs) rest)
        ∙ pack_byte-byte_bits h (header_bits hs ++ rest) bs.0)
      (ap (λ t. pack_bytes (length hs) (drop 8 t))
          (append_assoc (byte_bits h) (header_bits hs) rest)
        ∙ ap (pack_bytes (length hs)) (drop_byte h (header_bits hs ++ rest))
        ∙ pack_bytes-header_bits hs rest bs.1)

pub length-header_bits : (hs : List ℕ) → length (header_bits hs) ≡ 8 * length hs
unfolding header_bits byte_bits
length-header_bits [] = refl
length-header_bits (h ∷ hs) = omega (arith, length-header_bits hs)
