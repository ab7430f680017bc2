-- ===== src/RxQueue/Produced.antt =====
-- The steps of `receive_loop` (tools/pluto_rx_queue.c) and the invariant.
use native.Mathlib.Nat.{mod-lt}
use open_vlsnr.Prelude.{
  ℕ, suc, ◌+◌, ◌≡◌, ◌≢◌, refl, ap, ◌∙◌, true, false, List, arith, get_or, ◌==◌, if◌then◌else◌, u64,
}
use open_vlsnr.RxQueue.{Block, Queue, no_block, next_index, depth_of}
use open_vlsnr.RxQueue.Ring.{IsRing-room}
use open_vlsnr.RxQueue.Invariant.{total, is_finished, Unsettled, ProducerOk, IsInv, still_known}
use open_vlsnr.RxQueue.Threads.{
  Producer, looping, checking, testing, pressing, reading, failing, capturing, publishing, counting,
  measuring, loading, raising, setting_error, leaving, finished, Choice, System, produce,
}
use open_vlsnr.RxQueue.Moves.{if_rec, moved, branched, read_block-IsInv, raise-IsInv, publish-IsInv}

full_absurd : (a b : ℕ) → (a == b) ≡ false → a ≢ b
full_absurd a b h = ground arith

module _ {ℓ} {A : Type ℓ} (junk : Block A) where
  counted :
      (queue : Queue A) (published : List (Block A)) (w : ℕ)
      → Unsettled junk queue published w
      → u64 (queue.received_samples + (get_or queue.blocks w no_block).len) ≡ u64 (total published)
  counted queue published w (before, all, got) = omega arith

  pub produce-IsInv :
      (choice : Choice A) (s : System A) (p : Producer) {q : ℕ}
      → IsInv junk (record s { producer = p }) q
      → (q' : ℕ) × IsInv junk (produce junk choice s p) q'
  unfolding produce next_index depth_of
  produce-IsInv choice s (looping full) {q} v = (
    q,
    branched junk s (looping full) s.queue.stop leaving (checking full) refl refl refl v
        (λ _. v.producer_ok) (λ _. v.producer_ok),
  )
  produce-IsInv choice s (checking full) {q} v = (
    q,
    branched junk s (checking full) choice.expired leaving
        (testing full s.queue.write_pos (next_index s.queue s.queue.write_pos)) refl refl refl v
        (λ _. v.producer_ok) (λ _. (refl, refl, v.producer_ok)),
  )
  produce-IsInv choice s (testing full w next) {q} v =
      let (at, to, settled) = v.producer_ok in
      (
        q,
        branched junk s (testing full w next) (next == s.queue.read_pos)
            (if full then looping true else pressing) (reading w next) refl
            (if_rec (λ p. is_finished p ≡ false) full (λ _. refl) (λ _. refl)) refl v
            (λ _. if_rec (ProducerOk junk s.queue s.published q) full (λ _. settled) (λ _. settled))
            (λ e. (
              (
                at,
                to,
                IsRing-room junk v.ring (λ h.
                    full_absurd next s.queue.read_pos e (to ∙ ap (next_index s.queue) at ∙ h)),
              ),
              settled,
            )),
      )
  produce-IsInv choice s pressing {q} v = (
    q,
    record {
      ring = v.ring;
      placed = v.placed;
      producer_ok = v.producer_ok;
      consumer_ok = v.consumer_ok;
      done_at = v.done_at;
      high = v.high;
    },
  )
  produce-IsInv choice s (reading w next) {q} v =
      (q, read_block-IsInv junk s w next choice.answer v)
  produce-IsInv choice s failing {q} v = (
    q,
    branched junk s failing s.queue.stop leaving setting_error refl refl refl v (λ _. v.producer_ok)
        (λ _. v.producer_ok),
  )
  produce-IsInv choice s (capturing w next) {q} v = (
    q,
    branched junk s (capturing w next) choice.captured (publishing w next) setting_error refl refl
        refl v (λ _. v.producer_ok) (λ _. v.producer_ok.1),
  )
  produce-IsInv choice s (publishing w next) {q} v = (suc q, publish-IsInv junk choice s w next v)
  produce-IsInv choice s (counting w next) {q} v = (
    q,
    record {
      ring = v.ring;
      placed = v.placed;
      producer_ok = counted s.queue s.published w v.producer_ok;
      consumer_ok = v.consumer_ok;
      done_at = v.done_at;
      high = v.high;
    },
  )
  produce-IsInv choice s (measuring next) {q} v = (
    q,
    moved junk s (measuring next) (loading (depth_of s.queue next s.queue.read_pos)) refl refl v
        (mod-lt _ (omega (arith, v.ring.few)), v.producer_ok),
  )
  produce-IsInv choice s (loading depth) {q} v =
      (q, moved junk s (loading depth) (raising depth s.queue.high_water) refl refl v v.producer_ok)
  produce-IsInv choice s (raising depth expected) {q} v =
      (q, raise-IsInv junk s depth expected _ _ v)
  produce-IsInv choice s setting_error {q} v = (
    q,
    record {
      ring = v.ring;
      placed = v.placed;
      producer_ok = v.producer_ok;
      consumer_ok =
          still_known junk s.queue.read_pos s.queue.error true false s.consumer (omega arith)
            v.consumer_ok;
      done_at = v.done_at;
      high = v.high;
    },
  )
  produce-IsInv choice s leaving {q} v = (
    q,
    record {
      ring = v.ring;
      placed = v.placed;
      producer_ok = v.producer_ok;
      consumer_ok =
          still_known junk s.queue.read_pos s.queue.error s.queue.error true s.consumer
            (omega arith) v.consumer_ok;
      done_at = refl;
      high = v.high;
    },
  )
  produce-IsInv choice s finished {q} v = (q, v)
