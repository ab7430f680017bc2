-- ===== src/TsMode/Push.antt =====
-- The loop of `dvbs2x_ts_tx_push` (src/bb_frame.c): bits held, frames sent and the SYNCD field.
use native.Mathlib.Nat.{suc-mul}
use open_vlsnr.Prelude.{
  ℕ, zero, suc, ◌+◌, ◌-◌, ◌*◌, ◌≤◌, ◌<◌, ◌≡◌, refl, sym, ap, ◌∙◌, true, false, none, List, ◌⊎◌, inl,
  inr, arith, length, length-set, ltb, ◌==◌, ==_iff, eq_cases, lt_cases, if◌then◌else◌,
}
use open_vlsnr.BbFrame.{BbFrameCtx, byte_at}
use open_vlsnr.TsMode.{
  packet_len, TsTx, TxRun, packet_bit, emit, store_bit, push_bit, push_bits, ts_tx_push,
}

module _ (packet : List ℕ) (i : ℕ) (run : TxRun) where
  stored : TxRun
  stored = record run { tx = store_bit packet i run.tx }

  push_bit_within : run.tx.data_len + 1 < run.tx.bb.dfl → push_bit packet i run ≡ stored
  unfolding push_bit store_bit stored
  push_bit_within room =
      let no : (run.tx.data_len + 1 == run.tx.bb.dfl) ≡ false = ground (arith, room) in rw no refl

  push_bit_full :
      run.tx.data_len + 1 ≡ run.tx.bb.dfl
      → push_bit packet i run ≡ emit i (store_bit packet i run.tx) run.bbframe
  unfolding push_bit store_bit
  push_bit_full full =
      let yes : (run.tx.data_len + 1 == run.tx.bb.dfl) ≡ true = ground (arith, full) in rw yes refl

-- Rounds that do not fill the data field only store bits.
push_bits_within :
    (packet : List ℕ) (left i : ℕ) (run : TxRun)
    → run.tx.data_len + left < run.tx.bb.dfl
    → let after = push_bits packet left i run in
      (after.tx.data_len ≡ run.tx.data_len + left)
      × (after.tx.syncd ≡ run.tx.syncd)
      × (after.tx.bb ≡ run.tx.bb)
      × (after.frame_len ≡ run.frame_len)
      × (length after.tx.data_bits ≡ length run.tx.data_bits)
unfolding push_bits store_bit stored
push_bits_within packet zero i run room = (omega arith, refl, refl, refl, refl)
push_bits_within packet (suc left) i run room =
    let (len, syncd, bb, frame, mem) =
      push_bits_within packet left (i + 1) (stored packet i run) (omega arith) in
    rw (push_bit_within packet i run (omega arith), push_bits)
      (
        omega (arith, len),
        syncd,
        bb,
        frame,
        mem ∙ length-set run.tx.data_bits run.tx.data_len (packet_bit run.tx packet i),
      )

syncd_after :
    (i left : ℕ)
    → i + 1 + left ≡ packet_len
    → (if i + 1 == packet_len then 0 else packet_len - i - 1) ≡ left
syncd_after i left count = ground arith

-- Rounds that fill the data field once: a frame goes out and the rest of the bits are held, and
-- SYNCD is the number of the packet's bits that come after the frame.
push_bits_full :
    (packet : List ℕ) (left i : ℕ) (run : TxRun)
    → i + left ≡ packet_len
    → run.tx.data_len < run.tx.bb.dfl
    → run.tx.bb.dfl ≤ run.tx.data_len + left
    → left ≤ run.tx.bb.dfl
    → let after = push_bits packet left i run in
      (after.tx.data_len ≡ run.tx.data_len + left - run.tx.bb.dfl)
      × (after.tx.syncd ≡ run.tx.data_len + left - run.tx.bb.dfl)
      × (after.tx.bb ≡ run.tx.bb)
      × (after.frame_len ≡ run.tx.bb.k_bch)
      × (length after.tx.data_bits ≡ length run.tx.data_bits)
unfolding push_bits store_bit stored emit
push_bits_full packet zero i run count below full few = absurd (omega arith)
push_bits_full packet (suc left) i run count below full few =
    elim (eq_cases (run.tx.data_len + 1) run.tx.bb.dfl) [
      | inl last ↦
          (let run1 = emit i (store_bit packet i run.tx) run.bbframe in
            let (len, syncd, bb, frame, mem) =
              push_bits_within packet left (i + 1) run1 (omega arith) in
            rw (push_bit_full packet i run last, push_bits)
              (
                omega (arith, len),
                syncd ∙ syncd_after i left (omega arith) ∙ omega arith,
                bb,
                frame,
                mem ∙ length-set run.tx.data_bits run.tx.data_len (packet_bit run.tx packet i),
              ))
      | inr more ↦
          (let (len, syncd, bb, frame, mem) =
              push_bits_full packet left (i + 1) (stored packet i run) (omega arith) (omega arith)
                (omega arith) (omega arith) in
            rw (push_bit_within packet i run (omega arith), push_bits)
              (
                omega (arith, len),
                omega (arith, syncd),
                bb,
                frame,
                mem ∙ length-set run.tx.data_bits run.tx.data_len (packet_bit run.tx packet i),
              ))
    ]

-- Between two packets: the data field has room, it holds at least a packet, and the packets in it
-- begin at SYNCD and every packet length from there.
pub record IsTsTx (tx : TsTx) : Type 0 where
  pub memory : length tx.data_bits ≡ tx.bb.dfl
  pub room : tx.data_len < tx.bb.dfl
  pub packet : packet_len ≤ tx.bb.dfl
  pub aligned : (sent : ℕ) × (tx.data_len ≡ tx.syncd + sent * packet_len)

-- A packet that fits the data field is held back.
abbrev pub Held : TsTx → TxRun → Type 0
Held tx run = (run.frame_len ≡ 0) × (run.tx.data_len ≡ tx.data_len + packet_len)

-- A packet that fills the data field sends one frame; the rest of the packet is held, and it is
-- what SYNCD of the next frame skips.
abbrev pub Sent : TsTx → TxRun → Type 0
Sent tx run =
    (run.frame_len ≡ tx.bb.k_bch)
    × (run.tx.data_len + tx.bb.dfl ≡ tx.data_len + packet_len)
    × (run.tx.syncd ≡ run.tx.data_len)

-- With a sync byte at its head and memory for a frame, a packet is accepted: it is either held
-- back whole or it sends exactly one frame, according to whether it fills the data field, and the
-- transmitter is left aligned, with room in its data field.
pub ts_tx_push-IsTsTx :
    (tx : TsTx) (packet bbframe : List ℕ)
    → IsTsTx tx
    → byte_at 0 packet ≡ 0x47
    → tx.bb.k_bch ≤ length bbframe
    → let (error, run) = ts_tx_push tx packet bbframe in
      (error ≡ none) × IsTsTx run.tx × (Held tx run ⊎ Sent tx run)
unfolding ts_tx_push
ts_tx_push-IsTsTx tx packet bbframe v head fits =
    let start : TxRun = record { tx = tx; bbframe = bbframe; frame_len = 0 } in
    let marked : (byte_at 0 packet == 0x47) ≡ true = (==_iff (byte_at 0 packet) 0x47).1 head in
    let enough : ltb (length bbframe) tx.bb.k_bch ≡ false = ground (arith, fits) in
    elim (lt_cases (tx.data_len + packet_len) tx.bb.dfl) [
      | inl room ↦
          (let (len, syncd, bb, frame, mem) = push_bits_within packet packet_len 0 start room in
            rw (marked, enough)
              (
                refl,
                record {
                  memory = mem ∙ v.memory ∙ sym (ap (λ (c : BbFrameCtx). c.dfl) bb);
                  room = omega (arith, len, room, ap (λ (c : BbFrameCtx). c.dfl) bb);
                  packet = omega (arith, v.packet, ap (λ (c : BbFrameCtx). c.dfl) bb);
                  aligned = (
                    suc v.aligned.0,
                    omega (arith, len, syncd, v.aligned.1, suc-mul v.aligned.0 packet_len),
                  );
                },
                inl (frame, len),
              ))
      | inr full ↦
          (let (len, syncd, bb, frame, mem) =
              push_bits_full packet packet_len 0 start refl v.room full v.packet in
            rw (marked, enough)
              (
                refl,
                record {
                  memory = mem ∙ v.memory ∙ sym (ap (λ (c : BbFrameCtx). c.dfl) bb);
                  room =
                      omega (arith, len, v.room, v.packet, full, ap (λ (c : BbFrameCtx). c.dfl) bb);
                  packet = omega (arith, v.packet, ap (λ (c : BbFrameCtx). c.dfl) bb);
                  aligned = (0, omega (arith, len, syncd));
                },
                inr (frame, omega (arith, len, full), omega (arith, len, syncd)),
              ))
    ]
