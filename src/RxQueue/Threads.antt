-- ===== src/RxQueue/Threads.antt =====
-- The two threads of tools/pluto_rx_queue.c, step by step. A step makes one access to what the other
-- thread also uses; accesses to what only the own thread changes go with it. The atomic accesses are
-- taken in one order (release and acquire order the accesses to a block about the same way).
use open_vlsnr.Prelude.{
  ℕ, ◌+◌, ◌≡◌, Bool, true, false, not, ◌&&◌, some, List, [], ◌∷◌, ◌++◌, get_or, set, take, ltb,
  ◌==◌, if◌then◌else◌, u32, u64,
}
use open_vlsnr.RxQueue.{
  Block, Queue, Resources, no_block, write_samples, contents, next_index, depth_of, start,
}

-- Where `receive_loop` is, with the values of its variables.
pub data Producer : Type 0 where
  looping : Bool → Producer
  checking : Bool → Producer
  testing : Bool → ℕ → ℕ → Producer
  pressing : Producer
  reading : ℕ → ℕ → Producer
  failing : Producer
  capturing : ℕ → ℕ → Producer
  publishing : ℕ → ℕ → Producer
  counting : ℕ → ℕ → Producer
  measuring : ℕ → Producer
  loading : ℕ → Producer
  raising : ℕ → ℕ → Producer
  setting_error : Producer
  leaving : Producer
  finished : Producer

-- Where the main thread is in `pluto_rx_queue_acquire`, with a block in its hands, or at the end:
-- `over true` is the -1, `over false` the 1.
pub data Consumer : Type 0 where
  away : Consumer
  acquiring : Consumer
  comparing : ℕ → Consumer
  holding : ℕ → Consumer
  empty_seen : Consumer
  ending : Consumer
  over : Bool → Consumer

-- What `pluto_rx_read` has written to the memory of a block from its start on: still at it, 0, a positive value, or -1.
pub data Answer {ℓ} (A : Type ℓ) : Type ℓ where
  partial : Block A → Answer A
  ready : Block A → Answer A
  again : Block A → Answer A
  broken : Block A → Answer A

-- The choices of the surroundings in one step: the deadline, the stream, the capture file, and a
-- compare-exchange that fails with no reason.
pub record Choice {ℓ} (A : Type ℓ) : Type ℓ where
  pub expired : Bool
  pub answer : Answer A
  pub captured : Bool
  pub spurious : Bool

-- Both threads over one queue; `published` and `taken` record what went in and came out.
pub record System {ℓ} (A : Type ℓ) : Type ℓ where
  pub queue : Queue A
  pub producer : Producer
  pub consumer : Consumer
  pub published : List (Block A)
  pub taken : List (Block A)

module _ {ℓ} {A : Type ℓ} where
  -- `pluto_rx_read` writes to the memory of a block, no more than the `block_samples` samples that it
  -- is told, and stores how many of them count.
  unfoldable pub put_block : ℕ → Block A → Queue A → Queue A
  put_block pos block queue =
      let at = (get_or queue.blocks pos no_block).samples in
      record queue {
        storage = write_samples (take queue.block_samples block.samples) at queue.storage;
        blocks = set queue.blocks pos (record { samples = at; len = block.len });
      }

  -- The call of `pluto_rx_read` and what `receive_loop` does with its result.
  unfoldable pub read_block : ℕ → ℕ → System A → Answer A → System A
  read_block w next s (partial b) = record s {
    queue = put_block w b s.queue;
    producer = reading w next;
  }
  read_block w next s (ready b) = record s {
    queue = put_block w b s.queue;
    producer = capturing w next;
  }
  read_block w next s (again b) = record s {
    queue = put_block w b s.queue;
    producer = looping false;
  }
  read_block w next s (broken b) = record s { queue = put_block w b s.queue; producer = failing }

module _ {ℓ} {A : Type ℓ} (junk : Block A) where
  -- One step of `receive_loop`.
  unfoldable pub produce : Choice A → System A → Producer → System A
  produce choice s (looping full) = record s {
    producer = if s.queue.stop then leaving else checking full;
  }
  produce choice s (checking full) =
      let w = s.queue.write_pos in
      record s {
        producer = if choice.expired then leaving else testing full w (next_index s.queue w);
      }
  produce choice s (testing full w next) =
      let seen = if full then looping true else pressing in
      record s { producer = if next == s.queue.read_pos then seen else reading w next }
  produce choice s pressing = record s {
    queue = record (s.queue) { backpressure = u32 (s.queue.backpressure + 1) };
    producer = looping true;
  }
  produce choice s (reading w next) = read_block w next s choice.answer
  produce choice s failing = record s { producer = if s.queue.stop then leaving else setting_error }
  produce choice s (capturing w next) = record s {
    producer = if choice.captured then publishing w next else setting_error;
  }
  produce choice s (publishing w next) = record s {
    queue = record (s.queue) { write_pos = next };
    producer = counting w next;
    published = s.published ++ (get_or (contents s.queue) w junk ∷ []);
  }
  produce choice s (counting w next) =
      let block = get_or s.queue.blocks w no_block in
      record s {
        queue = record (s.queue) { received_samples = u64 (s.queue.received_samples + block.len) };
        producer = measuring next;
      }
  produce choice s (measuring next) = record s {
    producer = loading (depth_of s.queue next s.queue.read_pos);
  }
  produce choice s (loading depth) = record s { producer = raising depth s.queue.high_water }
  produce choice s (raising depth expected) =
      let found = s.queue.high_water in
      let swaps = ltb expected depth && ((found == expected) && not choice.spurious) in
      let retries = ltb expected depth && not ((found == expected) && not choice.spurious) in
      record s {
        queue = record (s.queue) { high_water = if swaps then depth else found };
        producer = if retries then raising depth found else looping false;
      }
  produce choice s setting_error = record s {
    queue = record (s.queue) { error = true };
    producer = leaving;
  }
  produce choice s leaving = record s {
    queue = record (s.queue) { done = true };
    producer = finished;
  }
  produce choice s finished = record s { producer = finished }

  -- One step of `pluto_rx_queue_acquire` or, with a block in hand, `pluto_rx_queue_release`.
  unfoldable pub consume : System A → Consumer → System A
  consume s away = record s { consumer = acquiring }
  consume s acquiring = record s { consumer = comparing s.queue.read_pos }
  consume s (comparing r) = record s {
    consumer = if not (r == s.queue.write_pos) then holding r else empty_seen;
  }
  consume s (holding r) = record s {
    queue = record (s.queue) { read_pos = next_index s.queue s.queue.read_pos };
    consumer = away;
    taken = s.taken ++ (get_or (contents s.queue) r junk ∷ []);
  }
  consume s empty_seen = record s { consumer = if s.queue.done then ending else acquiring }
  consume s ending = record s { consumer = over s.queue.error }
  consume s (over failed) = record s { consumer = over failed }

  -- The store of `pluto_rx_queue_stop`.
  unfoldable pub request_stop : System A → System A
  request_stop s = record s { queue = record (s.queue) { stop = true } }

  -- The threads in any order; the main thread may ask to stop at any point.
  pub data Step (s : System A) : System A → Type ℓ where
    by_producer : (choice : Choice A) → Step s (produce choice s s.producer)
    by_consumer : Step s (consume s s.consumer)
    by_stop : Step s (request_stop s)

-- Both threads at their starts.
unfoldable pub started {ℓ} : {A : Type ℓ} → Queue A → System A
started queue = record {
  queue = queue;
  producer = looping false;
  consumer = away;
  published = [];
  taken = [];
}

-- What a call of `pluto_rx_queue_start` leads to.
pub data Reach {ℓ} {A : Type ℓ} (junk : Block A) (size_max block_samples num_blocks : ℕ)
    : System A → Type ℓ where
  begin :
      (given : Resources A) (queue : Queue A)
      → start size_max given block_samples num_blocks ≡ some queue
      → Reach junk size_max block_samples num_blocks (started queue)
  later :
      {s t : System A}
      → Reach junk size_max block_samples num_blocks s
      → Step junk s t
      → Reach junk size_max block_samples num_blocks t
