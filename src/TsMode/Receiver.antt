-- ===== src/TsMode/Receiver.antt =====
-- src/bb_frame.c: the receiving side of the mode adaptation, `dvbs2x_ts_rx_*`.
pub mod Counts
pub mod Bounds
mod Tests
use open_vlsnr.Prelude.{
  ℕ, zero, suc, ◌+◌, ◌-◌, ◌/◌, ◌%◌, ◌*◌, ◌^◌, bit_and, bit_or, Bool, true, false, not, ◌&&◌, ◌||◌,
  Option, none, some, List, [], ◌++◌, drop, take, set, replicate, write_at, ltb, ◌==◌,
  if◌then◌else◌, u8, sub_u32, ◌<<<◌,
}
use open_vlsnr.Types.{Error, param, nosync, crc, short, Modcod}
use open_vlsnr.BbFrame.{BbFrameCtx, bb_header_bits, bb_crc8, byte_at}
use open_vlsnr.TsMode.{
  packet_size, packet_len, ts_context, BbHeader, HeaderRead, refused, header_read, bb_header_read,
}

-- `struct dvbs2x_ts_rx`
pub record TsRx : Type 0 where
  pub bb : BbFrameCtx
  pub packet : List ℕ
  pub previous : List ℕ
  pub packet_bits : ℕ
  pub have_previous : Bool

-- `dvbs2x_ts_rx_init`
pub ts_rx_init : Modcod → TsRx
ts_rx_init mc = record {
  bb = ts_context mc 0;
  packet = replicate packet_size 0;
  previous = replicate packet_size 0;
  packet_bits = 0;
  have_previous = false;
}

-- `dvbs2x_ts_rx_reset`
pub ts_rx_reset : TsRx → TsRx
ts_rx_reset rx = record rx { packet_bits = 0; have_previous = false }

-- The local variables of the loop of `dvbs2x_ts_rx_push`: `output` holds the packets produced.
pub record RxRun : Type 0 where
  pub packet : List ℕ
  pub previous : List ℕ
  pub packet_bits : ℕ
  pub have_previous : Bool
  pub output : List ℕ
  pub produced : ℕ

-- The memory of the packet with one more bit.
pub gather : ℕ → RxRun → List ℕ
gather bit_value run =
    let byte = run.packet_bits / 8 in
    let bit = run.packet_bits % 8 in
    let cleared = if bit == 0 then set run.packet byte 0 else run.packet in
    set cleared byte (u8 (bit_or (byte_at byte cleared) (bit_value <<< (7 - bit))))

-- The block behind `continue`: a packet is complete. `none` is the return of DVBS2X_ERR_CRC.
pub complete_packet : List ℕ → RxRun → Option RxRun
complete_packet packet run =
    let restored = set packet 0 0x47 in
    let shifted = record run {
      packet = restored;
      previous = restored;
      packet_bits = 0;
      have_previous = true;
    } in
    if not run.have_previous
    then some shifted
    else if bb_crc8 (drop 1 run.previous) == byte_at 0 packet
    then some (record shifted { output = run.output ++ run.previous; produced = run.produced + 1 })
    else none

-- One round of the loop of `dvbs2x_ts_rx_push`.
pub receive_bit : ℕ → RxRun → Option RxRun
receive_bit bit_value run =
    let packet = gather bit_value run in
    if run.packet_bits + 1 == packet_len
    then complete_packet packet run
    else some (record run { packet = packet; packet_bits = run.packet_bits + 1 })

-- The loop over bits `i` to `i + left` of the data field.
pub receive_bits : List ℕ → ℕ → ℕ → RxRun → Option RxRun
receive_bits descrambled zero i run = some run
receive_bits descrambled (suc left) i run =
    elim (receive_bit (byte_at (bb_header_bits + i) descrambled) run) [
      | none ↦ none
      | some next ↦ receive_bits descrambled left (i + 1) next
    ]

-- The header of a transport stream's frame.
pub is_ts_header : TsRx → BbHeader → Bool
is_ts_header rx header =
    bit_and header.matype1 0xC0 == 0xC0
    && header.matype2 == 0
    && header.upl == packet_len
    && header.sync == 0x47
    && not (ltb rx.bb.dfl header.dfl)

-- Where the first bit to read stands, or none if SYNCD does not fit what the receiver holds.
pub start_bit : TsRx → BbHeader → Option ℕ
start_bit rx header =
    if rx.packet_bits == 0 && not rx.have_previous
    then (if ltb header.dfl header.syncd then none else some header.syncd)
    else if header.syncd == (if rx.packet_bits == 0 then 0 else packet_len - rx.packet_bits)
    then some 0
    else none

-- `needed`: the packets that the frame will produce.
pub needed_packets : TsRx → BbHeader → ℕ → ℕ
needed_packets rx header start =
    let complete = (rx.packet_bits + header.dfl - start) / packet_len in
    if rx.have_previous then complete else complete - 1

-- What `dvbs2x_ts_rx_push` leaves behind: its error, the receiver, the memory of `packets` and
-- `*packet_count`.
pub record Received : Type 0 where
  pub error : Option Error
  pub rx : TsRx
  pub packets : List ℕ
  pub packet_count : ℕ

abbrev pub failed : Error → TsRx → List ℕ → ℕ → Received
failed e rx packets count = record {
  error = some e;
  rx = rx;
  packets = packets;
  packet_count = count;
}

-- The state of the loop before its first round.
pub loop_start : TsRx → RxRun
loop_start rx = record {
  packet = rx.packet;
  previous = rx.previous;
  packet_bits = rx.packet_bits;
  have_previous = rx.have_previous;
  output = [];
  produced = 0;
}

-- The copies back at the end of `dvbs2x_ts_rx_push`.
pub commit : TsRx → List ℕ → RxRun → Received
commit rx packets run = record {
  error = none;
  rx = record rx {
    packet = run.packet;
    previous = run.previous;
    packet_bits = run.packet_bits;
    have_previous = run.have_previous;
  };
  packets = write_at packets 0 (take (run.produced * packet_size) run.output);
  packet_count = run.produced;
}

-- The end of `dvbs2x_ts_rx_push`, once the loop has ended or returned.
pub finish : TsRx → List ℕ → Option RxRun → Received
finish rx packets none = failed crc rx packets 0
finish rx packets (some run) = commit rx packets run

-- The capacity check and the loop, from the bit `start` on.
pub receive_from : TsRx → List ℕ → BbHeader → List ℕ → ℕ → Option ℕ → Received
receive_from rx descrambled header packets capacity none = failed nosync rx packets 0
receive_from rx descrambled header packets capacity (some start) =
    let needed = needed_packets rx header start in
    if ltb capacity needed
    then failed short rx packets needed
    else finish rx packets (receive_bits descrambled (header.dfl - start) start (loop_start rx))

-- What follows the call of `bb_header_read`.
pub receive_frame : TsRx → List ℕ → ℕ → HeaderRead → Received
receive_frame rx packets capacity (refused e) = failed e rx packets 0
receive_frame rx packets capacity (header_read descrambled header) =
    if not (is_ts_header rx header)
    then failed param rx packets 0
    else receive_from rx descrambled header packets capacity (start_bit rx header)

-- `dvbs2x_ts_rx_push`, its pointers not NULL.
pub ts_rx_push : TsRx → List ℕ → List ℕ → ℕ → Received
ts_rx_push rx bbframe packets capacity =
    receive_frame rx packets capacity (bb_header_read rx.bb bbframe)

-- `dvbs2x_ts_rx_finalize_unchecked`, its pointers not NULL.
pub ts_rx_finalize_unchecked : TsRx → List ℕ → ℕ → Received
ts_rx_finalize_unchecked rx packet capacity =
    if rx.have_previous && capacity == 0
    then failed short rx packet 1
    else if rx.have_previous
    then record {
      error = none;
      rx = ts_rx_reset rx;
      packets = write_at packet 0 (take packet_size rx.previous);
      packet_count = 1;
    }
    else record { error = none; rx = ts_rx_reset rx; packets = packet; packet_count = 0 }
