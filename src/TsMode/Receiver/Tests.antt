-- ===== src/TsMode/Receiver/Tests.antt =====
-- The receiver's theorems at inputs.
use open_vlsnr.Prelude.{ℕ, ◌≡◌, refl, true, none, List, ◌∷◌, arith, replicate}
use open_vlsnr.BbFrame.{
  BbFrameCtx, ts, crc8_bit, crc8_bits, crc8_loop, bb_crc8, prbs_bit, prbs_next, scramble_from,
  bb_scramble, byte_bits, header_bits, with_crc8, pack_byte, pack_bytes, byte_at,
}
use open_vlsnr.TsMode.{
  TsTx, ts_header, bb_header_write, bb_header_read, header_fields, emit, packet_bit, store_bit,
  push_bit, push_bits, ts_tx_push,
}
use open_vlsnr.TsMode.Receiver.{
  TsRx, ts_rx_push, receive_frame, is_ts_header, start_bit, receive_from, needed_packets,
  receive_bits, receive_bit, complete_packet, gather, loop_start, finish, commit,
}
use open_vlsnr.TsMode.Receiver.Bounds.{IsWithin, ts_rx_push-IsWithin}

-- A data field that holds one packet.
abbrev one_packet : BbFrameCtx
one_packet = record { k_bch = 1584; stream_type = ts; upl = 1504; dfl = 1504; ro = 0 }

abbrev zero_packet : List ℕ
zero_packet = 0x47 ∷ replicate 187 0

abbrev idle_tx : TsTx
idle_tx = record {
  bb = one_packet;
  data_bits = replicate 1504 0;
  data_len = 0;
  syncd = 0;
  previous_crc = 0;
}

-- A receiver that has kept a packet of zeros.
abbrev one_rx : TsRx
one_rx = record {
  bb = one_packet;
  packet = zero_packet;
  previous = zero_packet;
  packet_bits = 0;
  have_previous = true;
}

abbrev sent_frame : List ℕ
sent_frame = (ts_tx_push idle_tx zero_packet (replicate 1584 0)).1.bbframe

accepted : (ts_rx_push one_rx sent_frame (replicate 188 0) 1).error ≡ none
unfolding ts_rx_push receive_frame is_ts_header start_bit receive_from needed_packets receive_bits
    receive_bit complete_packet gather loop_start finish commit ts_header bb_header_write
    bb_header_read header_fields emit packet_bit store_bit push_bit push_bits ts_tx_push crc8_bit
    crc8_bits crc8_loop bb_crc8 prbs_bit prbs_next scramble_from bb_scramble byte_bits header_bits
    with_crc8 pack_byte pack_bytes byte_at
accepted = refl

ts_rx_push-IsWithin_example : IsWithin 1 (ts_rx_push one_rx sent_frame (replicate 188 0) 1)
ts_rx_push-IsWithin_example =
    ts_rx_push-IsWithin one_rx sent_frame (replicate 188 0) 1 (omega arith) accepted
