-- ===== src/RxQueue/Tests.antt =====
-- Runs of the two threads of tools/pluto_rx_queue.c.
use open_vlsnr.Prelude.{
  ℕ, ◌+◌, ◌-◌, ◌^◌, ◌≤◌, ◌<◌, ◌≡◌, refl, true, false, List, [], ◌∷◌, ◌++◌, arith, length, get_or,
  u64, replicate,
}
use open_vlsnr.Streaming.Ringbuf.Window.{window}
use open_vlsnr.RxQueue.{
  next_index, depth_of, Block, Resources, start, fresh, start_blocks, start_refused, block_start,
  contents, samples_at, write_samples, get_stats,
}
use open_vlsnr.RxQueue.Invariant.{total, is_finished}
use open_vlsnr.RxQueue.Safety.{uncounted, Reach-fifo, Reach-held, get_stats-Reach, over_lem}
use open_vlsnr.RxQueue.Threads.{
  over, holding, ready, Choice, System, produce, consume, by_producer, by_consumer, started, Reach,
  begin, later, read_block, put_block,
}

abbrev junk : Block ℕ
junk = record { samples = []; len = 0 }

abbrev given : Resources ℕ
given = record { allocated = true; thread_created = true; storage = λ at. 0 }

abbrev full_block : Block ℕ
full_block = record { samples = 5 ∷ 6 ∷ []; len = 2 }

-- A block arrives.
abbrev arrival : Choice ℕ
arrival = record { expired = false; answer = ready full_block; captured = true; spurious = false }

-- The deadline has passed.
abbrev deadline : Choice ℕ
deadline = record { expired = true; answer = ready full_block; captured = true; spurious = false }

-- The next step is the producer's or the consumer's.
data Turn : Type 0 where
  producing : Choice ℕ → Turn
  consuming : Turn

record Run : Type 0 where
  last : System ℕ
  reach : Reach junk (2 ^ 64 - 1) 2 2 last

begun : Run
unfolding start start_refused
begun = record {
  last = started (fresh given.storage 2 (start_blocks 2 2 0) 2);
  reach = begin given _ refl;
}

turn : Turn → Run → Run
turn (producing choice) r = record {
  last = produce junk choice r.last r.last.producer;
  reach = later r.reach (by_producer choice);
}
turn consuming r = record {
  last = consume junk r.last r.last.consumer;
  reach = later r.reach by_consumer;
}

turns : List Turn → Run → Run
turns [] r = r
turns (t ∷ ts) r = turns ts (turn t r)

-- The main thread holds a block that the receiving thread has not counted yet.
abbrev held : Run
held = turns (replicate 6 (producing arrival) ++ replicate 3 consuming) begun

held_counts : (held.last.consumer ≡ holding 0) × (uncounted held.last.queue held.last.producer ≡ 2)
unfolding turns turn begun produce consume read_block put_block started fresh start_blocks
    block_start next_index samples_at write_samples
held_counts = (refl, refl)

Reach-fifo_example :
    (queued : ℕ) × (queued < 2)
    × (held.last.published
        ≡ held.last.taken
          ++ window junk (contents held.last.queue) 2 held.last.queue.read_pos queued)
Reach-fifo_example = Reach-fifo junk (omega arith) (omega arith) held.reach

Reach-held_example :
    (get_or (contents (consume junk held.last held.last.consumer).queue) 0 junk
      ≡ get_or (contents held.last.queue) 0 junk)
    × (rest : List (Block ℕ)) × (held.last.published
        ≡ held.last.taken ++ (get_or (contents held.last.queue) 0 junk ∷ rest))
Reach-held_example =
    Reach-held junk (omega arith) (omega arith) held.reach held_counts.0 by_consumer

get_stats-Reach_example :
    (length held.last.published
      ≡ length held.last.taken + (get_stats held.last.queue).queued_blocks)
    × ((get_stats held.last.queue).queued_blocks < 2)
    × ((get_stats held.last.queue).high_water < 2)
    × (uncounted held.last.queue held.last.producer ≤ total held.last.published)
    × ((get_stats held.last.queue).received_samples
        ≡ u64 (total held.last.published - uncounted held.last.queue held.last.producer))
get_stats-Reach_example = get_stats-Reach junk (omega arith) held.reach

-- The main thread finds the positions equal; then a block arrives and the deadline passes before the
-- main thread looks at `done`. It tells the end with a block still queued.
abbrev late : Run
late =
    turns
      (replicate 3 consuming
        ++ replicate 11 (producing arrival)
        ++ replicate 2 (producing deadline)
        ++ replicate 2 consuming)
      begun

late_block :
    (late.last.consumer ≡ over false)
    × (late.last.published ≡ full_block ∷ [])
    × (late.last.taken ≡ [])
unfolding turns turn begun produce consume read_block put_block started fresh start_blocks
    block_start next_index samples_at write_samples depth_of
late_block = (refl, refl, refl)

over_lem_example :
    (is_finished late.last.producer ≡ true)
    × (late.last.queue.done ≡ true)
    × (false ≡ late.last.queue.error)
over_lem_example = over_lem junk (omega arith) late.reach late_block.0

-- The guard lets numbers through with which the product wraps: block 65536 lies on block 0.
aliased :
    (start_refused (2 ^ 64 - 1) 0x1_0000 0x1_0001 ≡ false) × (block_start 0x1_0000 0x1_0000 ≡ 0)
unfolding start_refused block_start
aliased = (refl, refl)
