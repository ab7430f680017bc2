-- ===== src/TsMode/Receiver/Counts.antt =====
-- The loop of `dvbs2x_ts_rx_push` (src/bb_frame.c): bits read and packets completed.
use native.Mathlib.Nat.{add-mul}
use mathlib.Core.Option.{some-injective}
use mathlib.Core.Path.{subst}
use open_vlsnr.Prelude.{
  ℕ, zero, suc, ◌+◌, ◌-◌, ◌*◌, ◌/◌, ◌≤◌, ◌<◌, ◌≡◌, refl, ap, ◌∙◌, Bool, true, false, some, List,
  inl, inr, arith, ◌==◌, eq_cases, if_cases, Option-cases,
}
use open_vlsnr.BbFrame.{bb_header_bits, byte_at}
use open_vlsnr.TsMode.{packet_len, BbHeader}
use open_vlsnr.TsMode.Receiver.{
  TsRx, RxRun, receive_bit, receive_bits, complete_packet, gather, needed_packets, loop_start,
}

-- A receiver that kept a packet holds it back until its checksum is known.
pub held : Bool → ℕ
held true = 1
held false = 0

-- From `run` to `after`, `bits` bits were read and `packets` packets completed: each completed
-- packet is either produced or held back.
pub record Counts (run after : RxRun) (bits packets : ℕ) : Type 0 where
  pub room : after.packet_bits < packet_len
  pub read : after.packet_bits + packets * packet_len ≡ run.packet_bits + bits
  pub kept :
      after.produced + held after.have_previous ≡ run.produced + held run.have_previous + packets
  pub none_completed : packets ≡ 0 → after.have_previous ≡ run.have_previous
  pub some_completed : 0 < packets → after.have_previous ≡ true

complete_packet-cases :
    (packet : List ℕ) (run : RxRun) {after : RxRun}
    → complete_packet packet run ≡ some after
    → (after.packet_bits ≡ 0)
      × (after.have_previous ≡ true)
      × (after.produced ≡ run.produced + held run.have_previous)
unfolding complete_packet held
complete_packet-cases packet run e = grind arith

-- One round of the loop.
receive_bit-Counts :
    (b : ℕ) (run : RxRun) {next : RxRun}
    → run.packet_bits < packet_len
    → receive_bit b run ≡ some next
    → (packets : ℕ) × Counts run next 1 packets
unfolding receive_bit held
receive_bit-Counts b run {next} room e = elim (if_cases (run.packet_bits + 1 == packet_len) e) [
  | inl (last, e') ↦
      (let (bits, have, produced) = complete_packet-cases (gather b run) run e' in
        let full : run.packet_bits + 1 ≡ packet_len = ground (arith, last) in
        (
          1,
          record {
            room = omega (arith, bits);
            read = omega (arith, bits, full);
            kept = omega (arith, produced, ap held have);
            none_completed = λ e. absurd (omega arith);
            some_completed = λ p. have;
          },
        ))
  | inr (more, e') ↦
      (let short : run.packet_bits + 1 < packet_len = ground (arith, more, room) in
        (
          0,
          subst (λ n. Counts run n 1 0) (some-injective _ _ e')
              (record {
                room = short;
                read = omega arith;
                kept = omega arith;
                none_completed = λ e. refl;
                some_completed = λ p. absurd (omega arith);
              }),
        ))
]

Counts-trans :
    {r1 r2 r3 : RxRun} {n1 n2 k1 k2 : ℕ}
    → Counts r1 r2 n1 k1
    → Counts r2 r3 n2 k2
    → Counts r1 r3 (n1 + n2) (k1 + k2)
Counts-trans {k1 = k1} {k2 = k2} c d = record {
  room = d.room;
  read = omega (arith, c.read, d.read, add-mul k1 k2 packet_len);
  kept = omega (arith, c.kept, d.kept);
  none_completed = λ e. d.none_completed (omega arith) ∙ c.none_completed (omega arith);
  some_completed = λ p. elim (eq_cases k2 0) [
    | inl e ↦ d.none_completed e ∙ c.some_completed (omega arith)
    | inr ne ↦ d.some_completed (omega arith)
  ];
}

-- The whole loop.
pub receive_bits-Counts :
    (descrambled : List ℕ) (left i : ℕ) (run : RxRun) {after : RxRun}
    → run.packet_bits < packet_len
    → receive_bits descrambled left i run ≡ some after
    → (packets : ℕ) × Counts run after left packets
unfolding receive_bits
receive_bits-Counts descrambled zero i run room e = (
  0,
  subst (λ n. Counts run n 0 0) (some-injective _ _ e)
      (record {
        room = room;
        read = omega arith;
        kept = omega arith;
        none_completed = λ e. refl;
        some_completed = λ p. absurd (omega arith);
      }),
)
receive_bits-Counts descrambled (suc left) i run {after} room e =
    elim (Option-cases (receive_bit (byte_at (bb_header_bits + i) descrambled) run)) [
      | inl stop ↦ absurd (cc (e, stop))
      | inr (next, ok) ↦
          (let (k1, c) =
              receive_bit-Counts (byte_at (bb_header_bits + i) descrambled) run room ok in
            let (k2, d) = receive_bits-Counts descrambled left (i + 1) next c.room (cc (e, ok)) in
            (
              k1 + k2,
              subst (λ n. Counts run after n (k1 + k2))
                  (let one : 1 + left ≡ suc left = omega arith in one) (Counts-trans c d),
            ))
    ]

-- The packets of the loop, counted beforehand.
pub needed-eq-produced :
    (rx : TsRx) (header : BbHeader) (start : ℕ) (run : RxRun) (packets : ℕ)
    → start ≤ header.dfl
    → Counts (loop_start rx) run (header.dfl - start) packets
    → run.produced ≡ needed_packets rx header start
unfolding needed_packets loop_start held
needed-eq-produced rx header start run packets inside c =
    let complete : (rx.packet_bits + header.dfl - start) / packet_len ≡ packets =
      omega (arith, c.read, c.room, inside) in
    elim (eq_cases packets 0) [
      | inl e ↦ ground (arith, complete, e, c.kept, c.none_completed e)
      | inr ne ↦ ground (arith, complete, ne, c.kept, c.some_completed (omega arith))
    ]
