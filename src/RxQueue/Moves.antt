-- ===== src/RxQueue/Moves.antt =====
-- The pieces of `receive_loop` (tools/pluto_rx_queue.c) and the invariant.
use open_vlsnr.Prelude.{
  ℕ, suc, ◌+◌, ◌%◌, ◌<◌, ◌≡◌, refl, sym, ap, ◌∙◌, Bool, true, false, [], ◌∷◌, ◌++◌, arith, get_or,
  set, length, length-map, length-set, if◌then◌else◌, u32, ◌*◌, ◌^◌, ◌≤◌,
}
use mathlib.Core.Path.{subst}
use open_vlsnr.RxQueue.{Block, Queue, next_index, view, contents}
use open_vlsnr.RxQueue.Storage.{contents-len, written, put_block-IsPlaced, contents-put_block}
use native.Mathlib.Nat.{mod-lt}
use open_vlsnr.RxQueue.Ring.{IsRing, IsRing-set, IsRing-publish}
use open_vlsnr.RxQueue.Invariant.{
  total, total-snoc, is_finished, Fits, ProducerOk, ConsumerOk, IsInv, still_known,
}
use open_vlsnr.RxQueue.Threads.{
  Producer, looping, reading, failing, capturing, publishing, raising, Answer, partial, ready,
  again, broken, Choice, System, put_block, read_block, produce,
}

-- What both branches of a conditional have, it has.
pub if_rec {ℓ κ} :
    {A : Type ℓ} (P : A → Type κ) (b : Bool) {x y : A}
    → (b ≡ true → P x)
    → (b ≡ false → P y)
    → P (if b then x else y)
if_rec P true h k = h refl
if_rec P false h k = k refl

module _ {ℓ} {A : Type ℓ} (junk : Block A) where
  -- Steps that change nothing but the place in `receive_loop`.
  pub moved :
      (s : System A) (p p' : Producer) {q : ℕ}
      → is_finished p ≡ false
      → is_finished p' ≡ false
      → IsInv junk (record s { producer = p }) q
      → ProducerOk junk s.queue s.published q p'
      → IsInv junk (record s { producer = p' }) q
  moved s p p' {q} unfinished unfinished' v known = record {
    ring = v.ring;
    placed = v.placed;
    producer_ok = known;
    consumer_ok =
        still_known junk s.queue.read_pos s.queue.error s.queue.error (is_finished p') s.consumer
          (omega arith)
          (subst (λ (b : Bool). ConsumerOk junk s.queue.read_pos q s.queue.error b s.consumer)
            unfinished v.consumer_ok);
    done_at = v.done_at ∙ unfinished ∙ sym unfinished';
    high = v.high;
  }

  -- Such a step on a condition.
  pub branched :
      (s : System A) (p : Producer) (b : Bool) (x y : Producer) {q : ℕ}
      → is_finished p ≡ false
      → is_finished x ≡ false
      → is_finished y ≡ false
      → IsInv junk (record s { producer = p }) q
      → (b ≡ true → ProducerOk junk s.queue s.published q x)
      → (b ≡ false → ProducerOk junk s.queue s.published q y)
      → IsInv junk (record s { producer = if b then x else y }) q
  branched s p b x y {q} un un_x un_y v known_x known_y =
      if_rec (λ (p' : Producer). IsInv junk (record s { producer = p' }) q) b
        (λ e. moved s p x un un_x v (known_x e)) (λ e. moved s p y un un_y v (known_y e))

  -- The position of the producer, and the size of the memory, in terms of the list of blocks.
  pub within :
      (queue : Queue A)
      → length (contents queue) ≡ queue.num_blocks
      → Fits queue
      → length queue.blocks * queue.block_samples ≤ 2 ^ 32
  within queue size fit =
      let same : length queue.blocks ≡ queue.num_blocks =
        sym (length-map queue.blocks (view queue.storage queue.block_samples)) ∙ size in
      rw same fit

  pub inside :
      (s : System A) (w : ℕ) {q : ℕ}
      → IsRing junk
          (Fits s.queue)
          (contents s.queue)
          s.queue.num_blocks
          s.queue.read_pos
          s.queue.write_pos
          s.published
          s.taken
          q
      → w ≡ s.queue.write_pos
      → w < length s.queue.blocks
  inside s w {q} v at =
      let same : length s.queue.blocks ≡ s.queue.num_blocks =
        sym (length-map s.queue.blocks (view s.queue.storage s.queue.block_samples)) ∙ v.storage in
      let below : (length s.taken + q) % s.queue.num_blocks < s.queue.num_blocks =
        mod-lt _ (omega (arith, v.few)) in
      omega (arith, same, at, v.write_at, below)

  same_length :
      (queue : Queue A) (w : ℕ) (b : Block A)
      → length (contents (put_block w b queue)) ≡ length (contents queue)
  unfolding put_block
  same_length queue w b =
      length-map (put_block w b queue).blocks
        (view (put_block w b queue).storage queue.block_samples)
      ∙ length-set queue.blocks w _
      ∙ sym (length-map queue.blocks (view queue.storage queue.block_samples))

  -- A store into the block at `write_pos`.
  stored :
      (s : System A) (w next : ℕ) (b : Block A) (p' : Producer) {q : ℕ}
      → is_finished p' ≡ false
      → IsInv junk (record s { producer = reading w next }) q
      → ProducerOk junk (put_block w b s.queue) s.published q p'
      → IsInv junk (record s { queue = put_block w b s.queue; producer = p' }) q
  unfolding put_block
  stored s w next b p' {q} un v known =
      let ((at, to, room), settled) = v.producer_ok in
      record {
        ring =
            IsRing-set junk (contents (put_block w b s.queue)) (written s.queue w b)
              (same_length s.queue w b)
              (λ fit.
                contents-put_block s.queue w b v.placed (within s.queue v.ring.storage fit)
                  (inside s w v.ring at)
                ∙ ap (λ (i : ℕ). set (contents s.queue) i (written s.queue w b)) at)
              v.ring;
        placed = put_block-IsPlaced s.queue w b v.placed;
        producer_ok = known;
        consumer_ok =
            still_known junk s.queue.read_pos s.queue.error s.queue.error (is_finished p')
              s.consumer (omega arith) v.consumer_ok;
        done_at = v.done_at ∙ sym un;
        high = v.high;
      }

  pub read_block-IsInv :
      (s : System A) (w next : ℕ) (a : Answer A) {q : ℕ}
      → IsInv junk (record s { producer = reading w next }) q
      → IsInv junk (read_block w next s a) q
  unfolding read_block put_block next_index
  read_block-IsInv s w next (partial b) v = stored s w next b (reading w next) refl v v.producer_ok
  read_block-IsInv s w next (ready b) v = stored s w next b (capturing w next) refl v v.producer_ok
  read_block-IsInv s w next (again b) v = stored s w next b (looping false) refl v v.producer_ok.1
  read_block-IsInv s w next (broken b) v = stored s w next b failing refl v v.producer_ok.1

  raised :
      (s : System A) (depth expected : ℕ) (p : Producer) (h : ℕ) {q : ℕ}
      → is_finished p ≡ false
      → h < s.queue.num_blocks
      → IsInv junk (record s { producer = raising depth expected }) q
      → ProducerOk junk (record (s.queue) { high_water = h }) s.published q p
      → IsInv junk (record s { queue = record (s.queue) { high_water = h }; producer = p }) q
  raised s depth expected p h un below v known = record {
    ring = v.ring;
    placed = v.placed;
    producer_ok = known;
    consumer_ok =
        still_known junk s.queue.read_pos s.queue.error s.queue.error (is_finished p) s.consumer
          (omega arith) v.consumer_ok;
    done_at = v.done_at ∙ sym un;
    high = below;
  }

  -- The pass of the loop over `high_water`, whatever the tests say.
  pub raise-IsInv :
      (s : System A) (depth expected : ℕ) (swaps retries : Bool) {q : ℕ}
      → IsInv junk (record s { producer = raising depth expected }) q
      → IsInv junk
          (record s {
            queue = record (s.queue) { high_water = if swaps then depth else s.queue.high_water };
            producer = if retries then raising depth s.queue.high_water else looping false;
          })
          q
  raise-IsInv s depth expected swaps true v =
      raised s depth expected (raising depth s.queue.high_water) _ refl
        (if_rec (λ h. h < s.queue.num_blocks) swaps (λ _. v.producer_ok.0) (λ _. v.high)) v
        v.producer_ok
  raise-IsInv s depth expected swaps false v =
      raised s depth expected (looping false) _ refl
        (if_rec (λ h. h < s.queue.num_blocks) swaps (λ _. v.producer_ok.0) (λ _. v.high)) v
        v.producer_ok.1

  -- Publishing hands the block at `write_pos` over.
  pub publish-IsInv :
      (choice : Choice A) (s : System A) (w next : ℕ) {q : ℕ}
      → IsInv junk (record s { producer = publishing w next }) q
      → IsInv junk (produce junk choice s (publishing w next)) (suc q)
  unfolding produce next_index
  publish-IsInv choice s w next {q} v =
      let ((at, to, room), settled) = v.producer_ok in
      record {
        ring =
            subst
              (λ (i : ℕ).
                IsRing junk (Fits s.queue) (contents s.queue) s.queue.num_blocks s.queue.read_pos i
                  (s.published ++ (get_or (contents s.queue) w junk ∷ [])) s.taken (suc q))
              (ap (λ (i : ℕ). u32 (i + 1) % s.queue.num_blocks) (sym at) ∙ sym to)
              (subst
                (λ (i : ℕ).
                  IsRing junk (Fits s.queue) (contents s.queue) s.queue.num_blocks s.queue.read_pos
                    (u32 (s.queue.write_pos + 1) % s.queue.num_blocks)
                    (s.published ++ (get_or (contents s.queue) i junk ∷ [])) s.taken (suc q))
                (sym at) (IsRing-publish junk v.ring room));
        placed = v.placed;
        producer_ok = (
          total s.published,
          total-snoc s.published (get_or (contents s.queue) w junk)
              ∙ ap (λ (k : ℕ). total s.published + k)
                  (contents-len s.queue.storage s.queue.block_samples s.queue.blocks w junk
                    (inside s w v.ring at)),
          settled,
        );
        consumer_ok =
            still_known junk s.queue.read_pos s.queue.error s.queue.error false s.consumer
              (omega arith) v.consumer_ok;
        done_at = v.done_at;
        high = v.high;
      }
