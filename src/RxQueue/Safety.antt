-- ===== src/RxQueue/Safety.antt =====
-- The hand-over of blocks between the threads of tools/pluto_rx_queue.c.
use native.Mathlib.Nat.{mod-mod}
use open_vlsnr.Prelude.{
  ℕ, ◌+◌, ◌-◌, ◌*◌, ◌%◌, ◌^◌, ◌≤◌, ◌<◌, ◌≡◌, ◌≢◌, refl, sym, ap, ◌∙◌, Bool, true, List, ◌∷◌, ◌++◌,
  arith, length, get_or, u64,
}
use mathlib.Core.Path.{subst}
use open_vlsnr.Streaming.Ringbuf.Index.{add-mod-ne}
use open_vlsnr.Streaming.Ringbuf.Window.{window, window_mod, window_of_ne_zero}
use open_vlsnr.RxQueue.{Block, Queue, no_block, contents, get_stats, depth_of}
use open_vlsnr.RxQueue.Ring.{IsRing-depth}
use open_vlsnr.RxQueue.Storage.{IsPlaced, contents-put_block_ne}
use open_vlsnr.RxQueue.Moves.{within, inside}
use open_vlsnr.RxQueue.Memory.{Reach-IsInv}
use open_vlsnr.RxQueue.Size.{Reach-size}
use open_vlsnr.RxQueue.Invariant.{Fits, total, is_finished, ProducerOk, ConsumerOk, IsInv}
use open_vlsnr.RxQueue.Threads.{
  Producer, looping, checking, testing, pressing, reading, failing, capturing, publishing, counting,
  measuring, loading, raising, setting_error, leaving, finished, Consumer, holding, over, partial,
  ready, again, broken, Answer, Choice, System, read_block, produce, consume, request_stop, Step,
  by_producer, by_consumer, by_stop, Reach,
}

-- What the producer has published and not counted yet.
abbrev pub uncounted {ℓ} : {A : Type ℓ} → Queue A → Producer → ℕ
uncounted queue (counting w next) = (get_or queue.blocks w no_block).len
uncounted queue _ = 0

module _ {ℓ} {A : Type ℓ} (junk : Block A) where
  settled-uncounted :
      (queue : Queue A) (published : List (Block A))
      → queue.received_samples ≡ u64 (total published)
      → (0 ≤ total published) × (queue.received_samples ≡ u64 (total published - 0))
  settled-uncounted queue published h = (omega arith, omega arith)

  received_lem :
      (queue : Queue A) (published : List (Block A)) (q : ℕ) (p : Producer)
      → ProducerOk junk queue published q p
      → (uncounted queue p ≤ total published)
        × (queue.received_samples ≡ u64 (total published - uncounted queue p))
  received_lem queue ps q (looping full) h = settled-uncounted queue ps h
  received_lem queue ps q (checking full) h = settled-uncounted queue ps h
  received_lem queue ps q (testing full w next) (at, to, h) = settled-uncounted queue ps h
  received_lem queue ps q pressing h = settled-uncounted queue ps h
  received_lem queue ps q (reading w next) h = settled-uncounted queue ps h.1
  received_lem queue ps q failing h = settled-uncounted queue ps h
  received_lem queue ps q (capturing w next) h = settled-uncounted queue ps h.1
  received_lem queue ps q (publishing w next) h = settled-uncounted queue ps h.1
  received_lem queue ps q (counting w next) (before, all, got) = (omega arith, omega arith)
  received_lem queue ps q (measuring next) h = settled-uncounted queue ps h
  received_lem queue ps q (loading depth) h = settled-uncounted queue ps h.1
  received_lem queue ps q (raising depth expected) h = settled-uncounted queue ps h.1
  received_lem queue ps q setting_error h = settled-uncounted queue ps h
  received_lem queue ps q leaving h = settled-uncounted queue ps h
  received_lem queue ps q finished h = settled-uncounted queue ps h

  Reach-Fits :
      {size_max block_samples n : ℕ} {s : System A}
      → n * block_samples ≤ 2 ^ 32
      → Reach junk size_max block_samples n s
      → Fits s.queue
  Reach-Fits fits r = let (number, size) = Reach-size junk r in rw (number, size) fits

  -- In every state that the threads reach from pluto_rx_queue_start with fewer than 2^32 blocks, and
  -- no more than 2^32 samples in all of them, however their steps interleave, the published blocks
  -- are, in order and with the samples they were published with, the blocks taken and then those that
  -- stand in the shared storage from read_pos on, of which there are fewer than num_blocks.
  pub Reach-fifo :
      {size_max block_samples n : ℕ} {s : System A}
      → n < 2 ^ 32
      → n * block_samples ≤ 2 ^ 32
      → Reach junk size_max block_samples n s
      → (queued : ℕ) × (queued < n)
        × (s.published ≡ s.taken ++ window junk (contents s.queue) n s.queue.read_pos queued)
  Reach-fifo {s} word fits r =
      let (q, v) = Reach-IsInv junk word r in
      (
        q,
        omega (arith, v.ring.bounded, (Reach-size junk r).0),
        v.ring.fifo (Reach-Fits fits r)
            ∙ ap (λ z. s.taken ++ z)
                (window_mod junk (contents s.queue) s.queue.num_blocks (length s.taken)
                  s.queue.read_pos q
                  (sym (mod-mod (length s.taken) s.queue.num_blocks)
                    ∙ ap (λ (k : ℕ). k % s.queue.num_blocks) (sym v.ring.read_at)))
            ∙ ap (λ (k : ℕ). s.taken ++ window junk (contents s.queue) k s.queue.read_pos q)
                ((Reach-size junk r).0),
      )

  read_block-ne :
      (w next r : ℕ) (s : System A) (a : Answer A)
      → IsPlaced s.queue.blocks s.queue.block_samples
      → length s.queue.blocks * s.queue.block_samples ≤ 2 ^ 32
      → w < length s.queue.blocks
      → w ≢ r
      → get_or (contents (read_block w next s a).queue) r junk ≡ get_or (contents s.queue) r junk
  unfolding read_block
  read_block-ne w next r s (partial b) v fit below h =
      contents-put_block_ne s.queue w b junk r v fit below h
  read_block-ne w next r s (ready b) v fit below h =
      contents-put_block_ne s.queue w b junk r v fit below h
  read_block-ne w next r s (again b) v fit below h =
      contents-put_block_ne s.queue w b junk r v fit below h
  read_block-ne w next r s (broken b) v fit below h =
      contents-put_block_ne s.queue w b junk r v fit below h

  produce-keeps :
      (choice : Choice A) (s : System A) (p : Producer) (r q : ℕ)
      → IsInv junk (record s { producer = p }) q
      → Fits s.queue
      → s.queue.write_pos ≢ r
      → get_or (contents (produce junk choice s p).queue) r junk ≡ get_or (contents s.queue) r junk
  unfolding produce
  produce-keeps choice s (looping full) r q v fit h = refl
  produce-keeps choice s (checking full) r q v fit h = refl
  produce-keeps choice s (testing full w next) r q v fit h = refl
  produce-keeps choice s pressing r q v fit h = refl
  produce-keeps choice s (reading w next) r q v fit h =
      let at = v.producer_ok.0.0 in
      read_block-ne w next r s choice.answer v.placed (within junk s.queue v.ring.storage fit)
        (inside junk s w v.ring at) (λ e. h (sym at ∙ e))
  produce-keeps choice s failing r q v fit h = refl
  produce-keeps choice s (capturing w next) r q v fit h = refl
  produce-keeps choice s (publishing w next) r q v fit h = refl
  produce-keeps choice s (counting w next) r q v fit h = refl
  produce-keeps choice s (measuring next) r q v fit h = refl
  produce-keeps choice s (loading depth) r q v fit h = refl
  produce-keeps choice s (raising depth expected) r q v fit h = refl
  produce-keeps choice s setting_error r q v fit h = refl
  produce-keeps choice s leaving r q v fit h = refl
  produce-keeps choice s finished r q v fit h = refl

  consume-keeps :
      (s : System A) (c : Consumer) (r : ℕ)
      → c ≡ holding r
      → get_or (contents (consume junk s c).queue) r junk ≡ get_or (contents s.queue) r junk
  unfolding consume
  consume-keeps s c r e = rw e refl

  held_lem :
      {s : System A} {q r : ℕ}
      → IsInv junk s q
      → s.consumer ≡ holding r
      → (r ≡ s.queue.read_pos) × (0 < q)
  held_lem {s} {q} {r} v e =
      subst (ConsumerOk junk s.queue.read_pos q s.queue.error (is_finished s.producer)) e
        v.consumer_ok

  Step-keeps :
      {s t : System A} {q r : ℕ}
      → IsInv junk s q
      → Fits s.queue
      → s.consumer ≡ holding r
      → Step junk s t
      → get_or (contents t.queue) r junk ≡ get_or (contents s.queue) r junk
  unfolding request_stop
  Step-keeps {s} {q} {r} v fit e (by_producer choice) =
      let (at, held) = held_lem v e in
      produce-keeps choice s s.producer r q v fit (λ h.
        add-mod-ne s.queue.num_blocks (length s.taken) q held v.ring.bounded
          (sym v.ring.write_at ∙ h ∙ at ∙ v.ring.read_at))
  Step-keeps {s} {r} v fit e by_consumer = consume-keeps s s.consumer r e
  Step-keeps v fit e by_stop = refl

  -- While the main thread holds block r, in a state reached from pluto_rx_queue_start with fewer than
  -- 2^32 blocks, and no more than 2^32 samples in all of them, no step of either thread changes what
  -- block r holds in the shared storage, and that is the oldest published block that was not taken
  -- before, with the samples it was published with.
  pub Reach-held :
      {size_max block_samples n r : ℕ} {s t : System A}
      → n < 2 ^ 32
      → n * block_samples ≤ 2 ^ 32
      → Reach junk size_max block_samples n s
      → s.consumer ≡ holding r
      → Step junk s t
      → (get_or (contents t.queue) r junk ≡ get_or (contents s.queue) r junk)
        × (rest : List (Block A)) × (s.published
            ≡ s.taken ++ (get_or (contents s.queue) r junk ∷ rest))
  Reach-held {r} {s} word fits reach e step =
      let (q, v) = Reach-IsInv junk word reach in
      let (at, held) = held_lem v e in
      let fit = Reach-Fits fits reach in
      (
        Step-keeps v fit e step,
        window junk (contents s.queue) s.queue.num_blocks (length s.taken + 1) (q - 1),
        v.ring.fifo fit
            ∙ ap (λ z. s.taken ++ z)
                (window_of_ne_zero junk (contents s.queue) s.queue.num_blocks (length s.taken) q
                    (omega arith)
                  ∙ ap
                      (λ (k : ℕ).
                        get_or (contents s.queue) k junk
                        ∷ window junk (contents s.queue) s.queue.num_blocks (length s.taken + 1)
                            (q - 1))
                      (sym (at ∙ v.ring.read_at))),
      )

  -- In every state reached from pluto_rx_queue_start with at most 2^31 blocks,
  -- pluto_rx_queue_get_stats reports as queued exactly the blocks published and not taken, fewer than
  -- num_blocks, a high-water mark below num_blocks, and as received the samples of all published
  -- blocks modulo 2^64, less those of a block that was published and is still to be counted.
  pub get_stats-Reach :
      {size_max block_samples n : ℕ} {s : System A}
      → n ≤ 2 ^ 31
      → Reach junk size_max block_samples n s
      → (length s.published ≡ length s.taken + (get_stats s.queue).queued_blocks)
        × ((get_stats s.queue).queued_blocks < n)
        × ((get_stats s.queue).high_water < n)
        × (uncounted s.queue s.producer ≤ total s.published)
        × ((get_stats s.queue).received_samples
            ≡ u64 (total s.published - uncounted s.queue s.producer))
  unfolding get_stats depth_of
  get_stats-Reach {s} few r =
      let (q, v) = Reach-IsInv junk (omega arith) r in
      let depth = IsRing-depth junk v.ring (omega (arith, (Reach-size junk r).0)) in
      let (known, received) = received_lem s.queue s.published q s.producer v.producer_ok in
      (
        v.ring.count ∙ ap (λ (k : ℕ). length s.taken + k) (sym depth),
        omega (arith, depth, v.ring.bounded, (Reach-size junk r).0),
        omega (arith, v.high, (Reach-size junk r).0),
        known,
        received,
      )

  -- When pluto_rx_queue_acquire has told the end, in a state reached from pluto_rx_queue_start with
  -- fewer than 2^32 blocks, the receiving thread has ended, and the answer was -1 exactly when that
  -- thread has reported an error.
  pub over_lem :
      {size_max block_samples n : ℕ} {failed : Bool} {s : System A}
      → n < 2 ^ 32
      → Reach junk size_max block_samples n s
      → s.consumer ≡ over failed
      → (is_finished s.producer ≡ true) × (s.queue.done ≡ true) × (failed ≡ s.queue.error)
  over_lem {failed} {s} word r e =
      let (q, v) = Reach-IsInv junk word r in
      let (ended, code) =
        subst (ConsumerOk junk s.queue.read_pos q s.queue.error (is_finished s.producer)) e
          v.consumer_ok in
      (ended, v.done_at ∙ ended, code)
