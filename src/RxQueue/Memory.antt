-- ===== src/RxQueue/Memory.antt =====
-- What a call of `pluto_rx_queue_start` (tools/pluto_rx_queue.c) sets up.
use native.Mathlib.Nat.{zero-mod}
use open_vlsnr.Prelude.{
  ℕ, ◌^◌, ◌≤◌, ◌<◌, ◌≡◌, refl, sym, ◌∙◌, false, arith, length-map, some, if-none-eq-some,
}
use mathlib.Core.Path.{subst}
use mathlib.Core.Option.{some-injective}
use open_vlsnr.RxQueue.{Block, Queue, Resources, start_refused, start_blocks, fresh, start, view}
use open_vlsnr.RxQueue.Storage.{length-start_blocks, start_blocks-IsPlaced}
use open_vlsnr.RxQueue.Invariant.{IsInv}
use open_vlsnr.RxQueue.Preserve.{Step-IsInv}
use open_vlsnr.RxQueue.Threads.{System, started, Reach, begin, later}

refused-false : (size_max bs n : ℕ) → start_refused size_max bs n ≡ false → (1 ≤ bs) × (2 ≤ n)
unfolding start_refused
refused-false size_max bs n h = ground arith

module _ {ℓ} {A : Type ℓ} (junk : Block A) where
  pub start-some :
      (size_max bs n : ℕ) (given : Resources A) (queue : Queue A)
      → start size_max given bs n ≡ some queue
      → (1 ≤ bs) × (2 ≤ n) × (fresh given.storage bs (start_blocks bs n 0) n ≡ queue)
  unfolding start
  start-some size_max bs n given queue e =
      let (guard, e1) = if-none-eq-some _ _ e in
      let (alloc, e2) = if-none-eq-some _ _ e1 in
      let (thread, e3) = if-none-eq-some _ _ e2 in
      let (some_samples, few) = refused-false size_max bs n guard in
      (some_samples, few, some-injective _ _ e3)

  started-IsInv :
      (storage : ℕ → A) (bs n : ℕ)
      → 1 ≤ bs
      → 2 ≤ n
      → n < 2 ^ 32
      → IsInv junk (started (fresh storage bs (start_blocks bs n 0) n)) 0
  unfolding started fresh
  started-IsInv storage bs n some_samples few word = record {
    ring = record {
      few = few;
      word = word;
      storage = length-map (start_blocks bs n 0) (view storage bs) ∙ length-start_blocks bs n 0;
      read_at = sym (zero-mod n);
      write_at = sym (zero-mod n);
      bounded = omega arith;
      count = omega arith;
      fifo = λ fit. refl;
    };
    placed = start_blocks-IsPlaced bs n some_samples;
    producer_ok = refl;
    consumer_ok = _;
    done_at = refl;
    high = omega arith;
  }

  pub Reach-IsInv :
      {size_max block_samples n : ℕ} {s : System A}
      → n < 2 ^ 32
      → Reach junk size_max block_samples n s
      → (q : ℕ) × IsInv junk s q
  Reach-IsInv {size_max} {block_samples} {n} word (begin given queue e) =
      let (some_samples, few, made) = start-some size_max block_samples n given queue e in
      (
        0,
        subst (λ (queue' : Queue A). IsInv junk (started queue') 0) made
            (started-IsInv given.storage block_samples n some_samples few word),
      )
  Reach-IsInv word (later r step) = Step-IsInv junk step (Reach-IsInv word r).1
