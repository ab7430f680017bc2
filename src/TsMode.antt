-- ===== src/TsMode.antt =====
-- src/bb_frame.c: the mode adaptation of MPEG transport streams.
pub mod Push
pub mod Receiver
mod Tests
use open_vlsnr.Prelude.{
  ℕ, zero, suc, ◌+◌, ◌-◌, ◌*◌, ◌/◌, ◌%◌, ◌^◌, bit_and, bit_or, Bool, true, false, not, ◌||◌, Option,
  none, some, List, [], ◌∷◌, ◌++◌, length, take, drop, set, get_or, replicate, write_at, ltb, ◌==◌,
  if◌then◌else◌, u8, u16, ◌<<<◌, ◌>>>◌,
}
use open_vlsnr.Types.{Error, nomem, param, nosync, crc, short, Modcod, ldpc_normal}
use open_vlsnr.BbFrame.{
  ts, BbFrameCtx, bb_header_bits, bb_frame_init, bb_crc8, bb_scramble, header_bits, with_crc8,
  pack_bytes, byte_at,
}

abbrev pub packet_size : ℕ
packet_size = 188

abbrev pub packet_len : ℕ
packet_len = 1504

-- `struct dvbs2x_ts_tx`, its `data_bits` not NULL: the memory that `dvbs2x_ts_tx_init` allocated.
pub record TsTx : Type 0 where
  pub bb : BbFrameCtx
  pub data_bits : List ℕ
  pub data_len : ℕ
  pub syncd : ℕ
  pub previous_crc : ℕ

-- The context that both directions set up.
pub ts_context : Modcod → ℕ → BbFrameCtx
ts_context mc ro = record (bb_frame_init mc ts) { upl = packet_len; ro = ro }

-- `dvbs2x_ts_tx_init`; the memory that `malloc` gives is an argument, or there is none.
pub ts_tx_init : Modcod → ℕ → Option (List ℕ) → Option Error × Option TsTx
ts_tx_init mc ro memory = if ltb 2 ro then (some param, none) else elim memory [
  | none ↦ (some nomem, none)
  | some data_bits ↦ (
    none,
    some (record {
      bb = ts_context mc ro;
      data_bits = data_bits;
      data_len = 0;
      syncd = 0;
      previous_crc = 0;
    }),
  )
]

-- The nine header bytes that `bb_header_write` puts together.
pub ts_header : BbFrameCtx → ℕ → ℕ → ℕ → ℕ → ℕ → List ℕ
ts_header ctx dfl upl sync syncd matype1 =
    bit_or matype1 (bit_and ctx.ro 0x03)
    ∷ 0
    ∷ bit_and (upl >>> 8) 0xFF
    ∷ bit_and upl 0xFF
    ∷ bit_and (dfl >>> 8) 0xFF
    ∷ bit_and dfl 0xFF
    ∷ sync
    ∷ bit_and (syncd >>> 8) 0xFF
    ∷ bit_and syncd 0xFF
    ∷ []

-- `bb_header_write`
pub bb_header_write : BbFrameCtx → ℕ → ℕ → ℕ → ℕ → ℕ → List ℕ → List ℕ
bb_header_write ctx dfl upl sync syncd matype1 bbframe =
    write_at bbframe 0 (header_bits (with_crc8 (ts_header ctx dfl upl sync syncd matype1)))

-- What the loop of `dvbs2x_ts_tx_push` changes: the transmitter, the memory of `bbframe` and
-- `*frame_len`.
pub record TxRun : Type 0 where
  pub tx : TsTx
  pub bbframe : List ℕ
  pub frame_len : ℕ

-- The part of a round behind `continue`: the data field is full, and a frame goes out.
pub emit : ℕ → TsTx → List ℕ → TxRun
emit i tx bbframe =
    let bb = tx.bb in
    let m1 = bb_header_write bb bb.dfl packet_len 0x47 tx.syncd 0xF0 bbframe in
    let m2 = write_at m1 bb_header_bits (take bb.dfl tx.data_bits) in
    record {
      tx = record tx {
        data_len = 0;
        syncd = if i + 1 == packet_len then 0 else packet_len - i - 1;
      };
      bbframe = bb_scramble m2 bb.k_bch;
      frame_len = bb.k_bch;
    }

-- Bit `i` of a packet as it is sent: the sync byte gives way to the checksum of the packet before.
pub packet_bit : TsTx → List ℕ → ℕ → ℕ
packet_bit tx packet i =
    let byte = if ltb i 8 then tx.previous_crc else byte_at (i / 8) packet in
    bit_and (byte >>> (7 - i % 8)) 1

-- The transmitter with one more bit in its data field.
pub store_bit : List ℕ → ℕ → TsTx → TsTx
store_bit packet i tx = record tx {
  data_bits = set tx.data_bits tx.data_len (packet_bit tx packet i);
  data_len = tx.data_len + 1;
}

-- One round of the loop of `dvbs2x_ts_tx_push`.
pub push_bit : List ℕ → ℕ → TxRun → TxRun
push_bit packet i run =
    let tx = store_bit packet i run.tx in
    if tx.data_len == tx.bb.dfl then emit i tx run.bbframe else record run { tx = tx }

-- The loop, from round `i` on.
pub push_bits : List ℕ → ℕ → ℕ → TxRun → TxRun
push_bits packet zero i run = run
push_bits packet (suc left) i run = push_bits packet left (i + 1) (push_bit packet i run)

-- `dvbs2x_ts_tx_push`, its pointers not NULL; the capacity is the length of `bbframe`.
pub ts_tx_push : TsTx → List ℕ → List ℕ → Option Error × TxRun
ts_tx_push tx packet bbframe =
    if not (byte_at 0 packet == 0x47)
    then (some param, record { tx = tx; bbframe = bbframe; frame_len = 0 })
    else if ltb (length bbframe) tx.bb.k_bch
    then (some short, record { tx = tx; bbframe = bbframe; frame_len = tx.bb.k_bch })
    else (let run =
          push_bits packet packet_len 0 (record { tx = tx; bbframe = bbframe; frame_len = 0 }) in
        (none, record run { tx = record (run.tx) { previous_crc = bb_crc8 (drop 1 packet) } }))

-- `struct dvbs2x_bb_header`, less its checksum.
pub record BbHeader : Type 0 where
  pub matype1 : ℕ
  pub matype2 : ℕ
  pub upl : ℕ
  pub dfl : ℕ
  pub sync : ℕ
  pub syncd : ℕ

-- The fields of the header bytes.
pub header_fields : List ℕ → BbHeader
header_fields bytes = record {
  matype1 = byte_at 0 bytes;
  matype2 = byte_at 1 bytes;
  upl = bit_or (byte_at 2 bytes <<< 8) (byte_at 3 bytes);
  dfl = bit_or (byte_at 4 bytes <<< 8) (byte_at 5 bytes);
  sync = byte_at 6 bytes;
  syncd = bit_or (byte_at 7 bytes <<< 8) (byte_at 8 bytes);
}

-- What `bb_header_read` gives: an error, or the descrambled bits and the header.
pub data HeaderRead : Type 0 where
  refused : Error → HeaderRead
  header_read : List ℕ → BbHeader → HeaderRead

-- `bb_header_read`
pub bb_header_read : BbFrameCtx → List ℕ → HeaderRead
bb_header_read ctx bbframe =
    let descrambled = bb_scramble (take ctx.k_bch bbframe) ctx.k_bch in
    let bytes = pack_bytes 10 descrambled in
    if ltb ldpc_normal ctx.k_bch
    then refused param
    else if not (bb_crc8 (take 9 bytes) == byte_at 9 bytes)
    then refused crc
    else header_read descrambled (header_fields bytes)
