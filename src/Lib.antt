-- ===== src/Lib.antt =====
-- OpenVLSNR is a C library for the very-low-SNR modes of DVB-S2X: it turns user data into BB
-- frames, encodes and maps them, and lays them out with pilots into physical-layer frames, and it
-- undoes the same steps in a receiver. A second library, streaming/, carries BB frames between
-- programs: a ring buffer between two threads and a wire format with a checksum. This development
-- models the parts that work on integers, bits and bytes, and of the parts on symbols and soft
-- values those whose arithmetic is a sign, a sum or a product.
--
-- The parts, in the order in which a transmitter uses them:
-- - Types and Modcod: include/dvbs2x_types.h and src/modcod.c, the table of nine MODCODs with its
--   lookups by index and by name. Every other part takes a MODCOD's parameters from it.
-- - BbFrame: src/bb_frame.c for generic streams. `bb_frame_build` and `bb_frame_parse_ex` are
--   dvbs2x_bb_frame_build and dvbs2x_bb_frame_parse_ex; `bb_crc8` and `bb_scramble` are the
--   checksum and the energy dispersal.
-- - TsMode: src/bb_frame.c for MPEG transport streams. `ts_tx_push` is dvbs2x_ts_tx_push, and
--   TsMode.Receiver has the receiver, dvbs2x_ts_rx_*. It takes CRC-8, dispersal and the header's
--   bits from BbFrame.
-- - Bch: src/bch_encode.c, and in Bch.Decoder src/bch_decode.c. Bch.Init computes the generator
--   polynomial (dvbs2x_bch_encoder_init), `bch_encode` is dvbs2x_bch_encode, `bch_decode` is
--   dvbs2x_bch_decode. Bch.Polynomial has the product of binary polynomials that the codewords are
--   compared with.
-- - Ldpc: src/ldpc_tables.c and src/ldpc_encode.c. The address tables of tables/ are arguments.
--   Ldpc.Csr is build_csr of src/ldpc_decode.c, the decoder's matrix; Ldpc.Rows states its rows as
--   sums. Ldpc.Boxplus is the sum of two messages there, and Ldpc.Decoder the rest of that file:
--   `decoder_init` and `ldpc_decode` are dvbs2x_ldpc_decoder_init and dvbs2x_ldpc_decode,
--   Decoder.Loop has the rounds without the checks and the cancelling, and Decoder.Sums the columns
--   of a row summed over a word.
-- - Puncture: the bits that are left out of a codeword in src/modulator_top.c and put back in
--   src/demodulator_top.c.
-- - Mapping: src/modulate.c, src/demodulate.c and src/interleaver.c, bits to symbols and back.
-- - PlHeader and VlsnrHeader: src/plheader_gen.c and src/vlsnr_header_gen.c, the two headers.
-- - Layout: src/vlsnr_layout.c, which entries of the data field are pilots.
-- - Pilot: src/pilot_insert.c, which fills a field by that map.
-- - Scrambler: src/scrambler.c, the Gold code and the rotation of symbols.
-- - Modulator: src/modulator_top.c, which composes all of these. `modulate_bbframe_symbols_ex` and
--   `modulate_symbols_ex` are the functions of those names, `modulator_init` sets the state up.
-- - Demodulator: src/demodulator_top.c. `descramble_data` and `field_llr` are the stages from a
--   located data field to soft values; Demodulator.Decode goes from there to the BB frame, by the
--   LDPC and the BCH decoder, with the LDPC decoder that is kept between frames, and
--   Demodulator.User on to user data; Demodulator.Lock is dvbs2x_demod_lock_update, and
--   Demodulator.Stream is demodulate_stream_ex, to which the demodulator proper is an argument.
-- - RxQueue: tools/pluto_rx_queue.c, the queue of sample blocks between the thread that reads the
--   device and the main one. RxQueue.Threads has `produce`, one step of receive_loop, and
--   `consume`, one step of pluto_rx_queue_acquire or pluto_rx_queue_release; `Step` lets them take
--   turns in any order. The blocks lie in one storage, each where its pointer says, so that a write
--   to one changes every block that its samples lie in. What the device, the capture file and the
--   clock do is chosen anew in each step.
-- - Streaming.Crc32, Streaming.Protocol and Streaming.Ringbuf: streaming/src/crc32.c,
--   streaming/src/protocol.c with streaming/include/dvbs2x_protocol.h, and
--   streaming/include/dvbs2x_ringbuf.h.
--
-- How the code is read. Memory is a list; a function that writes through a pointer returns the
-- memory afterwards, and its length is the capacity where the code has no other. Pointers are not
-- NULL, except where a function tests them and the model says so by an Option. Numbers are natural
-- numbers with the wrap of their C type written out, and shifts are products and quotients by
-- powers of two. Samples are of any type. The doubles of the scrambler have only a negation that
-- is its own inverse; those of the mapping are any type with the operations of `Mapping.Doubles`,
-- of which `Mapping.RoundTrip.SignLaws` names the laws that are used: they speak of signs and hold
-- with rounding. Those of the LDPC decoder are any type with the operations of
-- `Ldpc.Boxplus.SoftOps`, of which nothing is assumed; its cancel flag is what the flag shows at
-- each iteration. An error is the constructor of its code. Where a function asks for memory more
-- than once, one Boolean tells whether it gets all of it; the calls for a frame in the
-- modulator and those of the receiver's last part are told apart. Threads are functions of one step
-- each over a shared state; a step makes one access to what both use, in sequentially consistent order,
-- which the release and acquire accesses of the code give for the blocks.
--
-- Fuel. The slot loop of build_set runs on as many rounds as there are slots, and each round raises
-- the number of the slot. The loop that doubles the stream buffer's capacity has 32 rounds,
-- one for each bit of a 32-bit length. The loop over the conjugates of a root has one round more
-- than the field has bits, and its run on all three fields shows that this is enough. The loop of
-- the LDPC decoder counts down its limit of iterations. Every other loop counts down a length or
-- goes through a list.
--
-- Not modelled: the parts on floating-point numbers that do more than this (filters, pulse
-- shaping, synchronisation, carrier recovery, the search for the VL-SNR header,
-- dvbs2x_ro_from_rolloff), sockets, the other programs under tools/ and those under test/. The
-- address tables under tables/ are data.
pub mod Prelude
pub mod Bits
pub mod Types
pub mod Modcod
pub mod Layout
pub mod Pilot
pub mod Scrambler
pub mod BbFrame
pub mod TsMode
pub mod Mapping
pub mod Puncture
pub mod PlHeader
pub mod VlsnrHeader
pub mod Ldpc
pub mod Bch
pub mod Modulator
pub mod Demodulator
pub mod Streaming
pub mod RxQueue
