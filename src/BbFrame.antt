-- ===== src/BbFrame.antt =====
-- src/bb_frame.c: baseband frames of a generic continuous bit stream.
pub mod Crc8
pub mod Prbs
pub mod HeaderBits
pub mod RoundTrip
pub mod Whole
mod Tests
use open_vlsnr.Prelude.{
  ℕ, zero, suc, ◌+◌, ◌-◌, ◌*◌, ◌/◌, ◌%◌, ◌^◌, bit_and, bit_or, bit_xor, Bool, true, false, not,
  ◌||◌, Option, none, some, List, [], ◌∷◌, ◌++◌, length, take, drop, replicate, write_at, slice,
  ltb, ◌==◌, if◌then◌else◌, u8, u16, sub_u32, ◌<<<◌, ◌>>>◌,
}
use open_vlsnr.Types.{Error, nomem, param, short, Modcod, ldpc_normal}

pub data StreamType : Type 0 where
  ts gs : StreamType

-- `struct dvbs2x_bb_frame_ctx`
pub record BbFrameCtx : Type 0 where
  pub k_bch : ℕ
  pub stream_type : StreamType
  pub upl : ℕ
  pub dfl : ℕ
  pub ro : ℕ

abbrev pub bb_header_bits : ℕ
bb_header_bits = 80

-- `dvbs2x_bb_frame_init`; `dfl` is a `uint16_t`.
unfoldable pub bb_frame_init : Modcod → StreamType → BbFrameCtx
bb_frame_init mc stream_type = record {
  k_bch = mc.k_bch;
  stream_type = stream_type;
  ro = 0;
  upl = 0;
  dfl = u16 (sub_u32 mc.k_bch bb_header_bits);
}

-- One round of the inner loop of `dvbs2x_bb_crc8`.
unfoldable pub crc8_bit : ℕ → ℕ
crc8_bit crc = if bit_and crc 0x80 == 0 then u8 (crc <<< 1) else u8 (bit_xor (crc <<< 1) 0xD5)

unfoldable pub crc8_bits : ℕ → ℕ → ℕ
crc8_bits zero crc = crc
crc8_bits (suc n) crc = crc8_bits n (crc8_bit crc)

unfoldable pub crc8_loop : ℕ → List ℕ → ℕ
crc8_loop crc [] = crc
crc8_loop crc (byte ∷ bytes) = crc8_loop (crc8_bits 8 (bit_xor crc byte)) bytes

-- `dvbs2x_bb_crc8`
unfoldable pub bb_crc8 : List ℕ → ℕ
bb_crc8 bytes = crc8_loop 0 bytes

-- BB_PRBS_INIT
abbrev pub bb_prbs_init : ℕ
bb_prbs_init = 0x4A80

-- The bit that the generator adds, and its next state.
unfoldable pub prbs_bit : ℕ → ℕ
prbs_bit sr = bit_and (bit_xor sr (sr >>> 1)) 1

unfoldable pub prbs_next : ℕ → ℕ
prbs_next sr = if prbs_bit sr == 0 then sr >>> 1 else bit_or (sr >>> 1) 0x4000

-- The loop of `bb_scramble` over a list.
unfoldable pub scramble_from : ℕ → List ℕ → List ℕ
scramble_from sr [] = []
scramble_from sr (x ∷ xs) = bit_xor x (prbs_bit sr) ∷ scramble_from (prbs_next sr) xs

-- `bb_scramble`: the first `len` entries of a frame.
unfoldable pub bb_scramble : List ℕ → ℕ → List ℕ
bb_scramble frame len = scramble_from bb_prbs_init (take len frame) ++ drop len frame

-- The eight bits of a header byte, the highest first.
unfoldable pub byte_bits : ℕ → List ℕ
byte_bits h =
    bit_and (h >>> 7) 1
    ∷ bit_and (h >>> 6) 1
    ∷ bit_and (h >>> 5) 1
    ∷ bit_and (h >>> 4) 1
    ∷ bit_and (h >>> 3) 1
    ∷ bit_and (h >>> 2) 1
    ∷ bit_and (h >>> 1) 1
    ∷ bit_and (h >>> 0) 1
    ∷ []

unfoldable pub header_bits : List ℕ → List ℕ
header_bits [] = []
header_bits (h ∷ hs) = byte_bits h ++ header_bits hs

-- The first nine header bytes of a generic stream, as `dvbs2x_bb_frame_build` sets them.
pub gs_header : BbFrameCtx → ℕ → List ℕ
gs_header ctx dfl =
    bit_or 0x70 (bit_and ctx.ro 0x03)
    ∷ 0
    ∷ bit_and (ctx.upl >>> 8) 0xFF
    ∷ bit_and ctx.upl 0xFF
    ∷ bit_and (dfl >>> 8) 0xFF
    ∷ bit_and dfl 0xFF
    ∷ 0
    ∷ 0
    ∷ 0
    ∷ []

-- A header with its checksum.
unfoldable pub with_crc8 : List ℕ → List ℕ
with_crc8 bytes = bytes ++ (bb_crc8 bytes ∷ [])

-- What the body of `dvbs2x_bb_frame_build` leaves in the memory of `bbframe`.
pub built_frame : BbFrameCtx → List ℕ → List ℕ → List ℕ
built_frame ctx user_data bbframe =
    let user_len = length user_data in
    let m1 = write_at bbframe 0 (header_bits (with_crc8 (gs_header ctx user_len))) in
    let m2 = write_at m1 bb_header_bits user_data in
    let m3 = write_at m2 (bb_header_bits + user_len) (replicate (ctx.dfl - user_len) 0) in
    bb_scramble m3 ctx.k_bch

abbrev pub is_gs : StreamType → Bool
is_gs gs = true
is_gs ts = false

-- `dvbs2x_bb_frame_build`, its pointers not NULL: an error, if there is one, and the memory of
-- `bbframe` afterwards.
pub bb_frame_build : BbFrameCtx → List ℕ → List ℕ → Option Error × List ℕ
bb_frame_build ctx user_data bbframe =
    if not (is_gs ctx.stream_type) || ltb ctx.dfl (length user_data)
    then (some param, bbframe)
    else (none, built_frame ctx user_data bbframe)

-- A byte put together from the eight bits at the head of a list.
unfoldable pub pack_byte : ℕ → ℕ → List ℕ → ℕ
pack_byte acc zero bits = acc
pack_byte acc (suc left) [] = acc
pack_byte acc (suc left) (b ∷ bits) = pack_byte (u8 (bit_or acc (b <<< left))) left bits

-- `n` bytes from the bits at the head of a list.
unfoldable pub pack_bytes : ℕ → List ℕ → List ℕ
pack_bytes zero bits = []
pack_bytes (suc n) bits = pack_byte 0 8 bits ∷ pack_bytes n (drop 8 bits)

unfoldable pub byte_at : ℕ → List ℕ → ℕ
byte_at i [] = 0
byte_at zero (b ∷ bs) = b
byte_at (suc i) (b ∷ bs) = byte_at i bs

-- What `dvbs2x_bb_frame_parse_ex` leaves behind: its error, the memory of `user_data` and
-- `*user_len`.
pub record Parsed : Type 0 where
  pub error : Option Error
  pub user_data : List ℕ
  pub user_len : ℕ

-- The header checks: the error, if one fails. A wrong checksum is answered by -1, which is
-- DVBS2X_ERR_NOMEM.
pub check_header : List ℕ → Option Error
check_header bytes =
    if not (bb_crc8 (take 9 bytes) == byte_at 9 bytes)
    then some nomem
    else if not (bit_and (byte_at 0 bytes) 0xC0 == 0x40)
        || (not (byte_at 2 bytes == 0) || not (byte_at 3 bytes == 0))
    then some param
    else none

-- The DFL field, cut to the frame's capacity.
pub read_dfl : BbFrameCtx → List ℕ → ℕ
read_dfl ctx bytes =
    let dfl = bit_or (byte_at 4 bytes <<< 8) (byte_at 5 bytes) in
    let room = sub_u32 ctx.k_bch bb_header_bits in if ltb room dfl then u16 room else dfl

-- `dvbs2x_bb_frame_parse_ex`, its pointers not NULL; the capacity is the length of `user_data`.
pub bb_frame_parse_ex : BbFrameCtx → List ℕ → List ℕ → Parsed
bb_frame_parse_ex ctx bbframe user_data =
    let descrambled = scramble_from bb_prbs_init (take ctx.k_bch bbframe) in
    let bytes = pack_bytes 10 descrambled in
    let dfl = read_dfl ctx bytes in
    if ltb ldpc_normal ctx.k_bch
    then record { error = some param; user_data = user_data; user_len = 0 }
    else elim (check_header bytes) [
      | some e ↦ record { error = some e; user_data = user_data; user_len = 0 }
      | none ↦
          if ltb (length user_data) dfl
          then record { error = some short; user_data = user_data; user_len = dfl }
          else record {
            error = none;
            user_data = write_at user_data 0 (slice bb_header_bits dfl descrambled);
            user_len = dfl;
          }
    ]
