-- ===== src/RxQueue/Preserve.antt =====
-- The steps of the threads of tools/pluto_rx_queue.c and the invariant.
use open_vlsnr.Prelude.{
  ℕ, ◌+◌, ◌-◌, ◌%◌, ◌≡◌, ◌≢◌, refl, sym, ◌∙◌, Bool, true, false, not, [], ◌∷◌, ◌++◌, arith, get_or,
  ◌==◌, if◌then◌else◌, u32,
}
use mathlib.Core.Path.{subst}
use open_vlsnr.RxQueue.{Block, next_index, contents}
use open_vlsnr.RxQueue.Ring.{IsRing, IsRing-held, IsRing-take}
use open_vlsnr.RxQueue.Invariant.{Fits, is_finished, ConsumerOk, IsInv, roomier}
use open_vlsnr.RxQueue.Threads.{
  Consumer, away, acquiring, comparing, holding, empty_seen, ending, over, System, consume,
  request_stop, Step, by_producer, by_consumer, by_stop,
}
use open_vlsnr.RxQueue.Moves.{if_rec}
use open_vlsnr.RxQueue.Produced.{produce-IsInv}

eq_absurd : (a b : ℕ) → not (a == b) ≡ true → a ≢ b
eq_absurd a b h = ground arith

module _ {ℓ} {A : Type ℓ} (junk : Block A) where
  -- Steps that change nothing but the place of the consumer.
  waited :
      (s : System A) (c c' : Consumer) {q : ℕ}
      → IsInv junk (record s { consumer = c }) q
      → ConsumerOk junk s.queue.read_pos q s.queue.error (is_finished s.producer) c'
      → IsInv junk (record s { consumer = c' }) q
  waited s c c' v known = record {
    ring = v.ring;
    placed = v.placed;
    producer_ok = v.producer_ok;
    consumer_ok = known;
    done_at = v.done_at;
    high = v.high;
  }

  chosen :
      (s : System A) (c : Consumer) (b : Bool) (x y : Consumer) {q : ℕ}
      → IsInv junk (record s { consumer = c }) q
      → (b ≡ true → ConsumerOk junk s.queue.read_pos q s.queue.error (is_finished s.producer) x)
      → (b ≡ false → ConsumerOk junk s.queue.read_pos q s.queue.error (is_finished s.producer) y)
      → IsInv junk (record s { consumer = if b then x else y }) q
  chosen s c b x y {q} v known_x known_y =
      if_rec (λ (c' : Consumer). IsInv junk (record s { consumer = c' }) q) b
        (λ e. waited s c x v (known_x e)) (λ e. waited s c y v (known_y e))

  release-IsInv :
      (s : System A) (r : ℕ) {q : ℕ}
      → IsInv junk (record s { consumer = holding r }) q
      → IsInv junk (consume junk s (holding r)) (q - 1)
  unfolding consume next_index
  release-IsInv s r {q} v = record {
    ring =
        subst
          (λ (i : ℕ).
            IsRing junk (Fits s.queue) (contents s.queue) s.queue.num_blocks
              (u32 (s.queue.read_pos + 1) % s.queue.num_blocks) s.queue.write_pos s.published
              (s.taken ++ (get_or (contents s.queue) i junk ∷ [])) (q - 1))
          (sym v.consumer_ok.0) (IsRing-take junk v.ring v.consumer_ok.1);
    placed = v.placed;
    producer_ok =
        roomier junk s.queue s.published (u32 (s.queue.read_pos + 1) % s.queue.num_blocks)
          s.queue.stop s.producer (omega arith) v.producer_ok;
    consumer_ok = _;
    done_at = v.done_at;
    high = v.high;
  }

  pub consume-IsInv :
      (s : System A) (c : Consumer) {q : ℕ}
      → IsInv junk (record s { consumer = c }) q
      → (q' : ℕ) × IsInv junk (consume junk s c) q'
  unfolding consume
  consume-IsInv s away {q} v = (q, waited s away acquiring v _)
  consume-IsInv s acquiring {q} v = (q, waited s acquiring (comparing s.queue.read_pos) v refl)
  consume-IsInv s (comparing r) {q} v = (
    q,
    chosen s (comparing r) (not (r == s.queue.write_pos)) (holding r) empty_seen v
        (λ e. (
          v.consumer_ok,
          IsRing-held junk v.ring (λ h. eq_absurd r s.queue.write_pos e (v.consumer_ok ∙ h)),
        ))
        (λ _. _),
  )
  consume-IsInv s (holding r) {q} v = (q - 1, release-IsInv s r v)
  consume-IsInv s empty_seen {q} v =
      (q, chosen s empty_seen s.queue.done ending acquiring v (λ e. sym v.done_at ∙ e) (λ _. _))
  consume-IsInv s ending {q} v = (q, waited s ending (over s.queue.error) v (v.consumer_ok, refl))
  consume-IsInv s (over failed) {q} v = (q, v)

  stop-IsInv : (s : System A) {q : ℕ} → IsInv junk s q → IsInv junk (request_stop junk s) q
  unfolding request_stop
  stop-IsInv s v = record {
    ring = v.ring;
    placed = v.placed;
    producer_ok =
        roomier junk s.queue s.published s.queue.read_pos true s.producer (omega arith)
          v.producer_ok;
    consumer_ok = v.consumer_ok;
    done_at = v.done_at;
    high = v.high;
  }

  pub Step-IsInv :
      {s t : System A} {q : ℕ} → Step junk s t → IsInv junk s q → (q' : ℕ) × IsInv junk t q'
  Step-IsInv {s} (by_producer choice) v = produce-IsInv junk choice s s.producer v
  Step-IsInv {s} by_consumer v = consume-IsInv s s.consumer v
  Step-IsInv {s} {q} by_stop v = (q, stop-IsInv s v)
