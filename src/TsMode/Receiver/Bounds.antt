-- ===== src/TsMode/Receiver/Bounds.antt =====
-- What `dvbs2x_ts_rx_push` (src/bb_frame.c) leaves to its caller, errors included.
use open_vlsnr.Prelude.{
  ℕ, ◌-◌, ◌≤◌, ◌<◌, ◌≡◌, refl, Bool, true, false, not, Option, none, some, List, arith, ltb,
  if◌then◌else◌,
}
use open_vlsnr.Types.{Error, short, param}
use open_vlsnr.TsMode.{packet_len, BbHeader, HeaderRead, refused, header_read, bb_header_read}
use open_vlsnr.TsMode.Receiver.{
  TsRx, RxRun, Received, receive_bits, ts_rx_push, needed_packets, loop_start, receive_from,
  receive_frame, finish, commit, failed, start_bit, is_ts_header,
}
use open_vlsnr.TsMode.Receiver.Counts.{receive_bits-Counts, needed-eq-produced}

-- Whatever error is returned, the receiver and the memory of the packets are as they were.
pub ts_rx_push_failed :
    (rx : TsRx) (bbframe packets : List ℕ) (capacity : ℕ) {e : Error}
    → (ts_rx_push rx bbframe packets capacity).error ≡ some e
    → ((ts_rx_push rx bbframe packets capacity).rx ≡ rx)
      × ((ts_rx_push rx bbframe packets capacity).packets ≡ packets)
unfolding ts_rx_push receive_frame receive_from finish commit
ts_rx_push_failed rx bbframe packets capacity h = ground arith

-- What a receiver that holds less than a packet is left with.
abbrev pub IsWithin : ℕ → Received → Type 0
IsWithin capacity r = (r.packet_count ≤ capacity) × (r.rx.packet_bits < packet_len)

-- A guard that passed.
guarded-IsWithin :
    (capacity : ℕ) (guard : Bool) (e : Error) (rx : TsRx) (packets : List ℕ) (n : ℕ) (r : Received)
    → (guard ≡ false → r.error ≡ none → IsWithin capacity r)
    → (if guard then failed e rx packets n else r).error ≡ none
    → IsWithin capacity (if guard then failed e rx packets n else r)
guarded-IsWithin capacity true e rx packets n r within h = cc
guarded-IsWithin capacity false e rx packets n r within h = within refl h

finish-IsWithin :
    (rx : TsRx) (packets : List ℕ) (capacity : ℕ) (after : Option RxRun)
    → ((run : RxRun)
        → after ≡ some run
        → (run.produced ≤ capacity) × (run.packet_bits < packet_len))
    → (finish rx packets after).error ≡ none
    → IsWithin capacity (finish rx packets after)
unfolding finish commit
finish-IsWithin rx packets capacity none within h = cc
finish-IsWithin rx packets capacity (some run) within h = within run refl

receive_from-IsWithin :
    (rx : TsRx) (descrambled : List ℕ) (header : BbHeader) (packets : List ℕ) (capacity : ℕ)
    (start : Option ℕ)
    → rx.packet_bits < packet_len
    → ((s : ℕ) → start ≡ some s → s ≤ header.dfl)
    → (receive_from rx descrambled header packets capacity start).error ≡ none
    → IsWithin capacity (receive_from rx descrambled header packets capacity start)
unfolding receive_from loop_start
receive_from-IsWithin rx descrambled header packets capacity none room inside h = cc
receive_from-IsWithin rx descrambled header packets capacity (some start) room inside h =
    let needed = needed_packets rx header start in
    let after = receive_bits descrambled (header.dfl - start) start (loop_start rx) in
    guarded-IsWithin capacity (ltb capacity needed) short rx packets needed
      (finish rx packets after)
      (λ enough. finish-IsWithin rx packets capacity after (λ run e.
        let (k, c) =
          receive_bits-Counts descrambled (header.dfl - start) start (loop_start rx) room e in
        let made : run.produced ≡ needed =
          needed-eq-produced rx header start run k (inside start refl) c in
        let fits : needed ≤ capacity = ground (arith, enough) in
        (omega (arith, made, fits), c.room)))
      h

start_bit-inside :
    (rx : TsRx) (header : BbHeader) (s : ℕ) → start_bit rx header ≡ some s → s ≤ header.dfl
unfolding start_bit
start_bit-inside rx header s e = ground arith

receive_frame-IsWithin :
    (rx : TsRx) (packets : List ℕ) (capacity : ℕ) (r : HeaderRead)
    → rx.packet_bits < packet_len
    → (receive_frame rx packets capacity r).error ≡ none
    → IsWithin capacity (receive_frame rx packets capacity r)
unfolding receive_frame
receive_frame-IsWithin rx packets capacity (refused e) room h = cc
receive_frame-IsWithin rx packets capacity (header_read descrambled header) room h =
    guarded-IsWithin capacity (not (is_ts_header rx header)) param rx packets 0
      (receive_from rx descrambled header packets capacity (start_bit rx header))
      (λ is_ts.
        receive_from-IsWithin rx descrambled header packets capacity (start_bit rx header) room
          (start_bit-inside rx header))
      h

-- A frame that is accepted by a receiver that holds less than a packet produces no more packets
-- than the caller has room for, and leaves less than a packet in the receiver.
pub ts_rx_push-IsWithin :
    (rx : TsRx) (bbframe packets : List ℕ) (capacity : ℕ)
    → rx.packet_bits < packet_len
    → (ts_rx_push rx bbframe packets capacity).error ≡ none
    → IsWithin capacity (ts_rx_push rx bbframe packets capacity)
unfolding ts_rx_push
ts_rx_push-IsWithin rx bbframe packets capacity room h =
    receive_frame-IsWithin rx packets capacity (bb_header_read rx.bb bbframe) room h
