-- ===== src/Streaming/Crc32.antt =====
-- streaming/src/crc32.c: CRC-32 by a table of 256 words.
mod Table
pub mod Reference
mod Tests
use open_vlsnr.Prelude.{ℕ, bit_and, bit_xor, List, [], ◌∷◌, get_or, ◌>>>◌}
pub use Table.{crc32_table}

-- The body of the loop of `dvbs2x_crc32`. The index is below 256.
pub crc32_step : ℕ → ℕ → ℕ
crc32_step crc byte = bit_xor (get_or crc32_table (bit_and (bit_xor crc byte) 0xFF) 0) (crc >>> 8)

pub crc32_loop : ℕ → List ℕ → ℕ
crc32_loop crc [] = crc
crc32_loop crc (byte ∷ bytes) = crc32_loop (crc32_step crc byte) bytes

-- `dvbs2x_crc32`
pub crc32 : List ℕ → ℕ
crc32 bytes = bit_xor (crc32_loop 0xFFFFFFFF bytes) 0xFFFFFFFF
