-- ===== src/RxQueue.antt =====
-- tools/pluto_rx_queue.c: the blocks of samples that the receiving thread hands to the main one.
pub mod Threads
pub mod Storage
pub mod Ring
pub mod Invariant
pub mod Moves
pub mod Produced
pub mod Preserve
pub mod Memory
pub mod Size
pub mod Safety
mod Tests
use open_vlsnr.Prelude.{
  ℕ, zero, suc, ◌+◌, ◌*◌, ◌/◌, ◌%◌, Bool, true, false, not, ◌||◌, Option, none, some, List, [], ◌∷◌,
  length, ltb, ◌==◌, if◌then◌else◌, sub_u32, u32, map,
}

-- `struct rx_block`: where its samples begin in the storage, and how many of them count.
pub record RxBlock : Type 0 where
  pub samples : ℕ
  pub len : ℕ

-- No block.
abbrev pub no_block : RxBlock
no_block = record { samples = 0; len = 0 }

-- What a block holds: the samples that its memory has, and how many of them count.
pub record Block {ℓ} (A : Type ℓ) : Type ℓ where
  pub samples : List A
  pub len : ℕ

-- `struct pluto_rx_queue`, less the handles of the stream, the capture file, the deadline and the
-- thread, which the steps of the threads take as the choices of their surroundings. All blocks are
-- in the one `storage`, a sample at each place of it.
pub record Queue {ℓ} (A : Type ℓ) : Type ℓ where
  pub storage : ℕ → A
  pub block_samples : ℕ
  pub blocks : List RxBlock
  pub num_blocks : ℕ
  pub read_pos : ℕ
  pub write_pos : ℕ
  pub stop : Bool
  pub done : Bool
  pub error : Bool
  pub received_samples : ℕ
  pub high_water : ℕ
  pub backpressure : ℕ

-- `sizeof(struct dvbs2x_complex)`, two doubles.
abbrev pub complex_size : ℕ
complex_size = 16

-- What the calls of `pluto_rx_queue_start` give: whether the allocations and the thread succeed, and
-- the memory that `malloc` gives for the samples.
pub record Resources {ℓ} (A : Type ℓ) : Type ℓ where
  pub allocated : Bool
  pub thread_created : Bool
  pub storage : ℕ → A

-- The first sample of block `i`: `i * block_samples` is a product of two `unsigned int`.
pub block_start : ℕ → ℕ → ℕ
block_start block_samples i = u32 (i * block_samples)

-- The guard of `pluto_rx_queue_start`, its pointers not NULL.
pub start_refused : ℕ → ℕ → ℕ → Bool
start_refused size_max block_samples num_blocks =
    (block_samples == 0)
    || (ltb num_blocks 2 || ltb (size_max / block_samples / complex_size) num_blocks)

-- The loop of `pluto_rx_queue_start` over the blocks, from block `i` on; `calloc` cleared them.
pub start_blocks : ℕ → ℕ → ℕ → List RxBlock
start_blocks block_samples zero i = []
start_blocks block_samples (suc left) i =
    record { samples = block_start block_samples i; len = 0 }
    ∷ start_blocks block_samples left (i + 1)

module _ {ℓ} {A : Type ℓ} where
  pub fresh : (ℕ → A) → ℕ → List RxBlock → ℕ → Queue A
  fresh storage block_samples blocks num_blocks = record {
    storage = storage;
    block_samples = block_samples;
    blocks = blocks;
    num_blocks = num_blocks;
    read_pos = 0;
    write_pos = 0;
    stop = false;
    done = false;
    error = false;
    received_samples = 0;
    high_water = 0;
    backpressure = 0;
  }

  -- `pluto_rx_queue_start`; `none` is the -1.
  pub start : ℕ → Resources A → ℕ → ℕ → Option (Queue A)
  start size_max given block_samples num_blocks =
      if start_refused size_max block_samples num_blocks
      then none
      else if not given.allocated
      then none
      else if not given.thread_created
      then none
      else some
          (fresh given.storage block_samples (start_blocks block_samples num_blocks 0) num_blocks)

  -- The samples in the storage from a place on.
  pub samples_at : (ℕ → A) → ℕ → ℕ → List A
  samples_at storage zero at = []
  samples_at storage (suc left) at = storage at ∷ samples_at storage left (at + 1)

  -- The storage when samples are written to it from a place on.
  pub write_samples : List A → ℕ → (ℕ → A) → ℕ → A
  write_samples [] start storage at = storage at
  write_samples (x ∷ xs) start storage at =
      let rest = write_samples xs (start + 1) storage at in if at == start then x else rest

  -- What a block holds, and what all of them do.
  abbrev pub view : (ℕ → A) → ℕ → RxBlock → Block A
  view storage block_samples block = record {
    samples = samples_at storage block_samples block.samples;
    len = block.len;
  }

  abbrev pub contents : Queue A → List (Block A)
  contents queue = map (view queue.storage queue.block_samples) queue.blocks

  -- The position behind `pos`.
  pub next_index : Queue A → ℕ → ℕ
  next_index queue pos = u32 (pos + 1) % queue.num_blocks

  -- The number of blocks between the two positions.
  pub depth_of : Queue A → ℕ → ℕ → ℕ
  depth_of queue write_pos read_pos =
      sub_u32 (u32 (write_pos + queue.num_blocks)) read_pos % queue.num_blocks

-- What `pluto_rx_queue_get_stats` stores.
pub record Stats : Type 0 where
  pub received_samples : ℕ
  pub queued_blocks : ℕ
  pub high_water : ℕ
  pub backpressure : ℕ

-- `pluto_rx_queue_get_stats`, called by the thread that takes the blocks, with all its pointers: no
-- other thread moves `read_pos`, and the other loads are taken from one state.
pub get_stats {ℓ} : {A : Type ℓ} → Queue A → Stats
get_stats queue = record {
  received_samples = queue.received_samples;
  queued_blocks = depth_of queue queue.write_pos queue.read_pos;
  high_water = queue.high_water;
  backpressure = queue.backpressure;
}
