-- ===== src/RxQueue/Size.antt =====
-- The number and the size of the blocks of a queue of tools/pluto_rx_queue.c never change.
use open_vlsnr.Prelude.{ℕ, ◌≡◌, refl, sym, ap, ◌∙◌}
use open_vlsnr.RxQueue.{Block, Queue, fresh}
use open_vlsnr.RxQueue.Memory.{start-some}
use open_vlsnr.RxQueue.Threads.{
  Producer, looping, checking, testing, pressing, reading, failing, capturing, publishing, counting,
  measuring, loading, raising, setting_error, leaving, finished, Consumer, away, acquiring,
  comparing, holding, empty_seen, ending, over, partial, ready, again, broken, Answer, Choice,
  System, put_block, read_block, produce, consume, request_stop, Step, by_producer, by_consumer,
  by_stop, started, Reach, begin, later,
}

-- The number of blocks, and the samples in each.
abbrev sizes {ℓ} : {A : Type ℓ} → Queue A → ℕ × ℕ
sizes queue = (queue.num_blocks, queue.block_samples)

module _ {ℓ} {A : Type ℓ} (junk : Block A) where
  read_size :
      (w next : ℕ) (s : System A) (a : Answer A)
      → sizes (read_block w next s a).queue ≡ sizes s.queue
  unfolding read_block put_block
  read_size w next s (partial b) = refl
  read_size w next s (ready b) = refl
  read_size w next s (again b) = refl
  read_size w next s (broken b) = refl

  produce_size :
      (choice : Choice A) (s : System A) (p : Producer)
      → sizes (produce junk choice s p).queue ≡ sizes s.queue
  unfolding produce
  produce_size choice s (looping full) = refl
  produce_size choice s (checking full) = refl
  produce_size choice s (testing full w next) = refl
  produce_size choice s pressing = refl
  produce_size choice s (reading w next) = read_size w next s choice.answer
  produce_size choice s failing = refl
  produce_size choice s (capturing w next) = refl
  produce_size choice s (publishing w next) = refl
  produce_size choice s (counting w next) = refl
  produce_size choice s (measuring next) = refl
  produce_size choice s (loading depth) = refl
  produce_size choice s (raising depth expected) = refl
  produce_size choice s setting_error = refl
  produce_size choice s leaving = refl
  produce_size choice s finished = refl

  consume_size : (s : System A) (c : Consumer) → sizes (consume junk s c).queue ≡ sizes s.queue
  unfolding consume
  consume_size s away = refl
  consume_size s acquiring = refl
  consume_size s (comparing r) = refl
  consume_size s (holding r) = refl
  consume_size s empty_seen = refl
  consume_size s ending = refl
  consume_size s (over failed) = refl

  Step-size : {s t : System A} → Step junk s t → sizes t.queue ≡ sizes s.queue
  unfolding request_stop
  Step-size {s} (by_producer choice) = produce_size choice s s.producer
  Step-size {s} by_consumer = consume_size s s.consumer
  Step-size by_stop = refl

  Reach-sizes :
      {size_max block_samples n : ℕ} {s : System A}
      → Reach junk size_max block_samples n s
      → sizes s.queue ≡ (n, block_samples)
  unfolding started fresh
  Reach-sizes {size_max} {block_samples} {n} (begin given queue e) =
      ap sizes (sym (start-some junk size_max block_samples n given queue e).2)
  Reach-sizes (later r step) = Step-size step ∙ Reach-sizes r

  pub Reach-size :
      {size_max block_samples n : ℕ} {s : System A}
      → Reach junk size_max block_samples n s
      → (s.queue.num_blocks ≡ n) × (s.queue.block_samples ≡ block_samples)
  Reach-size r = (ap (λ (p : ℕ × ℕ). p.0) (Reach-sizes r), ap (λ (p : ℕ × ℕ). p.1) (Reach-sizes r))
