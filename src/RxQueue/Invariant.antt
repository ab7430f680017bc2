-- ===== src/RxQueue/Invariant.antt =====
-- What holds in every state that the threads of tools/pluto_rx_queue.c reach.
use open_vlsnr.Prelude.{
  ℕ, ◌+◌, ◌*◌, ◌^◌, ◌≤◌, ◌<◌, ◌≡◌, Bool, true, false, List, [], ◌∷◌, ◌++◌, arith, get_or, u64,
}
use open_vlsnr.RxQueue.{Block, Queue, no_block, next_index, contents}
use open_vlsnr.RxQueue.Storage.{IsPlaced}
use open_vlsnr.RxQueue.Ring.{IsRing}
use open_vlsnr.RxQueue.Threads.{
  Producer, looping, checking, testing, pressing, reading, failing, capturing, publishing, counting,
  measuring, loading, raising, setting_error, leaving, finished, Consumer, away, acquiring,
  comparing, holding, empty_seen, ending, over, System,
}

-- The samples in a list of blocks.
abbrev pub total {ℓ} : {A : Type ℓ} → List (Block A) → ℕ
total [] = 0
total (b ∷ bs) = b.len + total bs

pub total-snoc {ℓ} :
    {A : Type ℓ} (bs : List (Block A)) (b : Block A) → total (bs ++ (b ∷ [])) ≡ total bs + b.len
total-snoc [] b = omega arith
total-snoc (x ∷ bs) b = omega (arith, total-snoc bs b)

abbrev pub is_finished : Producer → Bool
is_finished finished = true
is_finished _ = false

-- All blocks together have no more samples than a 32-bit number can count.
abbrev pub Fits {ℓ} : {A : Type ℓ} → Queue A → Type 0
Fits queue = queue.num_blocks * queue.block_samples ≤ 2 ^ 32

module _ {ℓ} {A : Type ℓ} (junk : Block A) where
  -- The counter of samples has every published block in it.
  abbrev pub Settled : Queue A → List (Block A) → Type 0
  Settled queue published = queue.received_samples ≡ u64 (total published)

  -- The last block that was published is the one in front of the producer, and is not counted yet.
  abbrev pub Unsettled : Queue A → List (Block A) → ℕ → Type 0
  Unsettled queue published w =
      (before : ℕ) × (total published ≡ before + (get_or queue.blocks w no_block).len)
      × (queue.received_samples ≡ u64 before)

  -- The producer works on the block at `write_pos`, and it is not the last free one.
  abbrev pub Owns : Queue A → ℕ → ℕ → ℕ → Type 0
  Owns queue queued w next =
      (w ≡ queue.write_pos) × (next ≡ next_index queue w) × (queued + 1 < queue.num_blocks)

  -- What the variables of `receive_loop` mean.
  abbrev pub ProducerOk : Queue A → List (Block A) → ℕ → Producer → Type 0
  ProducerOk q ps n (testing full w next) =
      (w ≡ q.write_pos) × (next ≡ next_index q w) × Settled q ps
  ProducerOk q ps n (reading w next) = Owns q n w next × Settled q ps
  ProducerOk q ps n (capturing w next) = Owns q n w next × Settled q ps
  ProducerOk q ps n (publishing w next) = Owns q n w next × Settled q ps
  ProducerOk q ps n (counting w next) = Unsettled q ps w
  ProducerOk q ps n (raising depth expected) = (depth < q.num_blocks) × Settled q ps
  ProducerOk q ps n (loading depth) = (depth < q.num_blocks) × Settled q ps
  ProducerOk q ps n _ = Settled q ps

  -- What the consumer knows, by the read position, the number of blocks queued, `error` and whether
  -- the producer has ended.
  abbrev pub ConsumerOk : ℕ → ℕ → Bool → Bool → Consumer → Type 0
  ConsumerOk r n error ended (comparing p) = p ≡ r
  ConsumerOk r n error ended (holding p) = (p ≡ r) × (0 < n)
  ConsumerOk r n error ended ending = ended ≡ true
  ConsumerOk r n error ended (over failed) = (ended ≡ true) × (failed ≡ error)
  ConsumerOk r n error ended _ = Unit

  pub record IsInv (s : System A) (queued : ℕ) : Type ℓ where
    pub ring :
        IsRing junk
          (Fits s.queue)
          (contents s.queue)
          s.queue.num_blocks
          s.queue.read_pos
          s.queue.write_pos
          s.published
          s.taken
          queued
    pub placed : IsPlaced s.queue.blocks s.queue.block_samples
    pub producer_ok : ProducerOk s.queue s.published queued s.producer
    pub consumer_ok :
        ConsumerOk s.queue.read_pos queued s.queue.error (is_finished s.producer) s.consumer
    pub done_at : s.queue.done ≡ is_finished s.producer
    pub high : s.queue.high_water < s.queue.num_blocks

  -- Until the producer has ended, its steps keep what the consumer knows.
  pub still_known :
      (r : ℕ) {n n' : ℕ} (e e' f' : Bool) (c : Consumer)
      → n ≤ n'
      → ConsumerOk r n e false c
      → ConsumerOk r n' e' f' c
  still_known r e e' f' away le h = _
  still_known r e e' f' acquiring le h = _
  still_known r e e' f' (comparing p) le h = h
  still_known r e e' f' (holding p) le h = (h.0, omega (arith, h.1))
  still_known r e e' f' empty_seen le h = _
  still_known r e e' f' ending le h = absurd cc
  still_known r e e' f' (over failed) le h = let f : false ≡ true = h.0 in absurd cc

  -- Taking a block leaves the producer more room, and a request to stop changes nothing for it.
  pub roomier :
      (q : Queue A) (ps : List (Block A)) {n n' : ℕ} (r : ℕ) (st : Bool) (p : Producer)
      → n' ≤ n
      → ProducerOk q ps n p
      → ProducerOk (record q { read_pos = r; stop = st }) ps n' p
  unfolding next_index
  roomier q ps r st (looping full) le h = h
  roomier q ps r st (checking full) le h = h
  roomier q ps r st (testing full w next) le h = h
  roomier q ps r st pressing le h = h
  roomier q ps r st (reading w next) le ((a, b, c), d) = ((a, b, omega arith), d)
  roomier q ps r st failing le h = h
  roomier q ps r st (capturing w next) le ((a, b, c), d) = ((a, b, omega arith), d)
  roomier q ps r st (publishing w next) le ((a, b, c), d) = ((a, b, omega arith), d)
  roomier q ps r st (counting w next) le h = h
  roomier q ps r st (measuring next) le h = h
  roomier q ps r st (loading depth) le h = h
  roomier q ps r st (raising depth expected) le h = h
  roomier q ps r st setting_error le h = h
  roomier q ps r st leaving le h = h
  roomier q ps r st finished le h = h
