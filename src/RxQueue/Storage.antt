-- ===== src/RxQueue/Storage.antt =====
-- The memory that the blocks of tools/pluto_rx_queue.c lie in.
use native.Mathlib.Nat.{mul-le-mul_right, suc-mul}
use open_vlsnr.Prelude.{
  ℕ, zero, suc, ◌+◌, ◌*◌, ◌^◌, ◌≤◌, ◌<◌, ◌≡◌, ◌≢◌, ◌⊎◌, inl, inr, refl, ap, ap₂, ◌∙◌, false, List,
  [], ◌∷◌, map, take, length, length-take, length-set, get_or, get_or-set_ne, set, lt_cases, ◌==◌,
  arith,
}
use open_vlsnr.RxQueue.{
  RxBlock, no_block, Block, Queue, block_start, start_blocks, samples_at, write_samples, view,
  contents,
}
use open_vlsnr.RxQueue.Threads.{put_block}

module _ {ℓ} {A : Type ℓ} where
  write_samples-apart :
      (xs : List A) (start : ℕ) (storage : ℕ → A) (at : ℕ)
      → (at < start) ⊎ (start + length xs ≤ at)
      → write_samples xs start storage at ≡ storage at
  unfolding write_samples
  write_samples-apart [] start storage at apart = refl
  write_samples-apart (x ∷ xs) start storage at apart =
      let other : (at == start) ≡ false = ground (arith, apart) in
      rw other (
        write_samples-apart xs (start + 1) storage at
          (elim apart [ inl h ↦ inl (omega (arith, h)) | inr h ↦ inr (omega (arith, h)) ]))

  samples_at-write_samples :
      (xs : List A) (start : ℕ) (storage : ℕ → A) (left at : ℕ)
      → (at + left ≤ start) ⊎ (start + length xs ≤ at)
      → samples_at (write_samples xs start storage) left at ≡ samples_at storage left at
  unfolding samples_at
  samples_at-write_samples xs start storage zero at apart = refl
  samples_at-write_samples xs start storage (suc left) at apart =
      ap₂ ◌∷◌
        (write_samples-apart xs start storage at
          (elim apart [ inl h ↦ inl (omega (arith, h)) | inr h ↦ inr h ]))
        (samples_at-write_samples xs start storage left (at + 1)
          (elim apart [ inl h ↦ inl (omega (arith, h)) | inr h ↦ inr (omega (arith, h)) ]))

-- When there are no more than 2^32 samples in all, a block ends where a later one begins or before.
block_start-apart :
    (bs n i j : ℕ)
    → 1 ≤ bs
    → n * bs ≤ 2 ^ 32
    → i < j
    → j < n
    → block_start bs i + bs ≤ block_start bs j
unfolding block_start
block_start-apart bs n i j some fits lt below =
    let step : suc i * bs ≤ j * bs = mul-le-mul_right bs lt in
    let end : suc j * bs ≤ n * bs = mul-le-mul_right bs below in
    omega (arith, some, suc-mul i bs, suc-mul j bs)

module _ {ℓ κ} {X : Type ℓ} {Y : Type κ} (f g : X → Y) (d : X) where
  map-agree :
      (xs : List X)
      → ((j : ℕ) → j < length xs → g (get_or xs j d) ≡ f (get_or xs j d))
      → map g xs ≡ map f xs
  map-agree [] h = refl
  map-agree (x ∷ xs) h =
      ap₂ ◌∷◌ (h 0 (omega arith)) (map-agree xs (λ j lt. h (suc j) (omega (arith, lt))))

  -- A change at one place, where the functions agree at the others.
  map-set :
      (xs : List X) (w : ℕ) (x : X)
      → ((j : ℕ) → j < length xs → j ≢ w → g (get_or xs j d) ≡ f (get_or xs j d))
      → map g (set xs w x) ≡ set (map f xs) w (g x)
  map-set [] w x h = refl
  map-set (y ∷ xs) zero x h =
      ap (λ ys. g x ∷ ys)
        (map-agree xs (λ j lt. h (suc j) (omega (arith, lt)) (λ e. omega (arith, e))))
  map-set (y ∷ xs) (suc w) x h = ap₂ ◌∷◌ (h 0 (omega arith) (λ e. omega (arith, e))) (
      map-set xs w x (λ j lt ne.
        h (suc j) (omega (arith, lt)) (λ e. ne (let p : j ≡ w = omega (arith, e) in p))))

-- What block w holds has its length.
pub contents-len {ℓ} :
    {A : Type ℓ} (storage : ℕ → A) (bs : ℕ) (blocks : List RxBlock) (w : ℕ) (junk : Block A)
    → w < length blocks
    → (get_or (map (view storage bs) blocks) w junk).len ≡ (get_or blocks w no_block).len
contents-len storage bs [] w junk lt = absurd (omega (arith, lt))
contents-len storage bs (b ∷ blocks) zero junk lt = refl
contents-len storage bs (b ∷ blocks) (suc w) junk lt =
    contents-len storage bs blocks w junk (omega (arith, lt))

-- The blocks lie in the storage where `pluto_rx_queue_start` has put them.
pub record IsPlaced (blocks : List RxBlock) (bs : ℕ) : Type 0 where
  pub some_samples : 1 ≤ bs
  pub at : (j : ℕ) → j < length blocks → (get_or blocks j no_block).samples ≡ block_start bs j

start_at :
    (bs left i j : ℕ)
    → j < left
    → (get_or (start_blocks bs left i) j no_block).samples ≡ block_start bs (i + j)
unfolding start_blocks
start_at bs zero i j lt = absurd (omega (arith, lt))
start_at bs (suc left) i zero lt = ap (block_start bs) (let e : i ≡ i + 0 = omega arith in e)
start_at bs (suc left) i (suc j) lt =
    start_at bs left (i + 1) j (omega (arith, lt))
    ∙ ap (block_start bs) (let e : i + 1 + j ≡ i + suc j = omega arith in e)

pub length-start_blocks : (bs left i : ℕ) → length (start_blocks bs left i) ≡ left
unfolding start_blocks
length-start_blocks bs zero i = refl
length-start_blocks bs (suc left) i = ap suc (length-start_blocks bs left (i + 1))

pub start_blocks-IsPlaced : (bs n : ℕ) → 1 ≤ bs → IsPlaced (start_blocks bs n 0) bs
start_blocks-IsPlaced bs n some = record {
  some_samples = some;
  at = λ j lt.
      start_at bs n 0 j (omega (arith, lt, length-start_blocks bs n 0))
      ∙ ap (block_start bs) (let e : 0 + j ≡ j = omega arith in e);
}

-- Storing the length of a block leaves all of them where they are.
samples-set :
    (blocks : List RxBlock) (w len j : ℕ)
    → (get_or
        (set blocks w (record { samples = (get_or blocks w no_block).samples; len = len }))
        j
        no_block).samples
      ≡ (get_or blocks j no_block).samples
samples-set [] w len j = refl
samples-set (b ∷ blocks) zero len zero = refl
samples-set (b ∷ blocks) zero len (suc j) = refl
samples-set (b ∷ blocks) (suc w) len zero = refl
samples-set (b ∷ blocks) (suc w) len (suc j) = samples-set blocks w len j

module _ {ℓ} {A : Type ℓ} (queue : Queue A) (w : ℕ) (block : Block A) where
  pub put_block-IsPlaced :
      IsPlaced queue.blocks queue.block_samples
      → IsPlaced (put_block w block queue).blocks queue.block_samples
  unfolding put_block
  put_block-IsPlaced v = record {
    some_samples = v.some_samples;
    at = λ j lt.
        samples-set queue.blocks w block.len j
        ∙ v.at j (
            omega (
              arith,
              lt,
              length-set queue.blocks w
                  (record { samples = (get_or queue.blocks w no_block).samples; len = block.len }),
            ));
  }

  -- What block w holds when it has been written.
  abbrev pub written : Block A
  written =
      view (put_block w block queue).storage queue.block_samples
        (record { samples = (get_or queue.blocks w no_block).samples; len = block.len })

  -- A write to the memory of a block changes what this block holds and nothing else.
  pub contents-put_block :
      IsPlaced queue.blocks queue.block_samples
      → length queue.blocks * queue.block_samples ≤ 2 ^ 32
      → w < length queue.blocks
      → contents (put_block w block queue) ≡ set (contents queue) w written
  unfolding put_block
  contents-put_block v fits inside =
      let bs = queue.block_samples in
      let start = (get_or queue.blocks w no_block).samples in
      let after = write_samples (take bs block.samples) start queue.storage in
      map-set (view queue.storage bs) (view after bs) no_block queue.blocks w
        (record { samples = start; len = block.len })
        (λ j lt ne.
          ap (λ (xs : List A). record { samples = xs; len = (get_or queue.blocks j no_block).len })
            (samples_at-write_samples (take bs block.samples) start queue.storage bs
              (get_or queue.blocks j no_block).samples (apart j lt ne)))
    where
      apart :
          (j : ℕ)
          → j < length queue.blocks
          → j ≢ w
          → let bs = queue.block_samples in
            let start = (get_or queue.blocks w no_block).samples in
            let at = (get_or queue.blocks j no_block).samples in
            (at + bs ≤ start) ⊎ (start + length (take bs block.samples) ≤ at)
      apart j lt ne =
          let bs = queue.block_samples in
          elim (lt_cases j w) [
            | inl below ↦ inl (
                omega (
                  arith,
                  v.at j lt,
                  v.at w inside,
                  block_start-apart bs (length queue.blocks) j w v.some_samples fits below inside,
                ))
            | inr above ↦ inr (
                omega (
                  arith,
                  v.at j lt,
                  v.at w inside,
                  length-take bs block.samples,
                  block_start-apart bs (length queue.blocks) w j v.some_samples fits
                      (let h : w < j = ground (arith, above, ne) in h) lt,
                ))
          ]

  pub contents-put_block_ne :
      (junk : Block A) (r : ℕ)
      → IsPlaced queue.blocks queue.block_samples
      → length queue.blocks * queue.block_samples ≤ 2 ^ 32
      → w < length queue.blocks
      → w ≢ r
      → get_or (contents (put_block w block queue)) r junk ≡ get_or (contents queue) r junk
  contents-put_block_ne junk r v fits inside ne =
      ap (λ (bs : List (Block A)). get_or bs r junk) (contents-put_block v fits inside)
      ∙ get_or-set_ne (contents queue) written junk ne
