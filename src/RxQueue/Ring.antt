-- ===== src/RxQueue/Ring.antt =====
-- The positions of the queue of tools/pluto_rx_queue.c and the blocks between them.
use native.Mathlib.Nat.{mod-lt, mod-eq_of_lt, mod-eq-sub-mod, mod-add-mod, add-mod_right, add-zero}
use open_vlsnr.Prelude.{
  ℕ, zero, suc, ◌+◌, ◌-◌, ◌%◌, ◌^◌, ◌≤◌, ◌<◌, ◌≡◌, ◌≢◌, ◌⊎◌, refl, sym, ap, ap₂, ◌∙◌, List, [], ◌∷◌,
  ◌++◌, arith, append_assoc, length, length-append, get_or, get_or-set_ne, set, lt_cases, inl, inr,
  sub_u32, u32,
}
use open_vlsnr.Streaming.Ringbuf.Index.{add-mod-ne}
use open_vlsnr.Streaming.Ringbuf.Window.{window, window_of_ne_zero}

-- Going on by `q` from a position comes back under `n` at most once.
pub mod-add_cases :
    (t q n : ℕ)
    → q < n
    → ((t % n + q < n) × ((t + q) % n ≡ t % n + q))
      ⊎ ((n ≤ t % n + q) × ((t + q) % n ≡ t % n + q - n))
mod-add_cases t q n below = elim (lt_cases (t % n + q) n) [
  | inl h ↦ inl (h, sym (mod-add-mod t n q) ∙ mod-eq_of_lt h)
  | inr h ↦ inr (
    h,
    sym (mod-add-mod t n q)
        ∙ mod-eq-sub-mod {n = t % n + q} {m = n} h
        ∙ mod-eq_of_lt {n = t % n + q - n} {m = n} (omega (arith, mod-lt t {m = n} (omega arith))),
  )
]

-- `(pos + 1) % num_blocks` in 32 bits.
pub next_at : {p : ℕ} (t n : ℕ) → 0 < n → n < 2 ^ 32 → p ≡ t % n → u32 (p + 1) % n ≡ (t + 1) % n
next_at {p} t n pos word e =
    ap (λ (k : ℕ). k % n) fits ∙ ap (λ (k : ℕ). (k + 1) % n) e ∙ mod-add-mod t n 1
  where
    fits : u32 (p + 1) ≡ p + 1
    fits = mod-eq_of_lt (omega (arith, mod-lt t pos))

-- `(write_pos + num_blocks - read_pos) % num_blocks` in 32 bits counts the steps between the two.
pub depth_at :
    {r w : ℕ} (t q n : ℕ)
    → q < n
    → n ≤ 2 ^ 31
    → r ≡ t % n
    → w ≡ (t + q) % n
    → sub_u32 (u32 (w + n)) r % n ≡ q
depth_at {r} {w} t q n below few at_r at_w = elim (mod-add_cases t q n below) [
  | inl h ↦
      let e : sub_u32 (u32 (w + n)) r ≡ q + n = omega (arith, h.0, h.1, mod-lt t pos) in
      ap (λ (k : ℕ). k % n) e ∙ add-mod_right q n ∙ mod-eq_of_lt below
  | inr h ↦
      let e : sub_u32 (u32 (w + n)) r ≡ q = omega (arith, h.0, h.1, mod-lt t pos) in
      ap (λ (k : ℕ). k % n) e ∙ mod-eq_of_lt below
]
  where
    pos : 0 < n
    pos = omega arith

module _ {ℓ} {A : Type ℓ} (junk : A) where
  -- A write behind the window does not show in it.
  window-set_behind :
      (buf : List A) (size t n m i : ℕ) (x : A)
      → n ≤ m
      → m < size
      → i ≡ (t + m) % size
      → window junk (set buf i x) size t n ≡ window junk buf size t n
  window-set_behind buf size t zero m i x le below e = refl
  window-set_behind buf size t (suc n) m i x le below e =
      ap₂ ◌∷◌ (get_or-set_ne buf x junk (λ h. add-mod-ne size t m (omega arith) below (sym e ∙ h)))
        (window-set_behind buf size (t + 1) n (m - 1) i x (omega arith) (omega arith)
          (e ∙ ap (λ (k : ℕ). k % size) (let s : t + m ≡ t + 1 + (m - 1) = omega arith in s)))

  window_snoc :
      (buf : List A) (size t n : ℕ)
      → window junk buf size t (suc n)
        ≡ window junk buf size t n ++ (get_or buf ((t + n) % size) junk ∷ [])
  window_snoc buf size t zero = ap (λ (k : ℕ). get_or buf (k % size) junk ∷ []) (sym (add-zero t))
  window_snoc buf size t (suc n) =
      ap (λ z. get_or buf (t % size) junk ∷ z)
        (window_snoc buf size (t + 1) n
          ∙ ap (λ (k : ℕ). window junk buf size (t + 1) n ++ (get_or buf (k % size) junk ∷ []))
              (let s : t + 1 + n ≡ t + suc n = omega arith in s))

  -- `queued` blocks lie between the positions, and what was published is what was taken and they:
  -- by its length in any case, and block by block when the memory fits.
  pub record IsRing (fits : Type 0) (blocks : List A) (n r w : ℕ) (published taken : List A)
      (queued : ℕ) : Type ℓ where
    pub few : 2 ≤ n
    pub word : n < 2 ^ 32
    pub storage : length blocks ≡ n
    pub read_at : r ≡ length taken % n
    pub write_at : w ≡ (length taken + queued) % n
    pub bounded : queued < n
    pub count : length published ≡ length taken + queued
    pub fifo : fits → published ≡ taken ++ window junk blocks n (length taken) queued

  module _ {fits : Type 0} {blocks : List A} {n r w : ℕ} {published taken : List A} {q : ℕ} where
    pub IsRing-room : IsRing fits blocks n r w published taken q → u32 (w + 1) % n ≢ r → q + 1 < n
    IsRing-room v h = elim (lt_cases (q + 1) n) [
      | inl p ↦ p
      | inr p ↦
          let e : length taken + q + 1 ≡ length taken + n = omega (arith, v.bounded) in
          absurd (
            h (
              next_at (length taken + q) n (omega (arith, v.few)) v.word v.write_at
              ∙ ap (λ (k : ℕ). k % n) e
              ∙ add-mod_right (length taken) n
              ∙ sym v.read_at))
    ]

    pub IsRing-held : IsRing fits blocks n r w published taken q → r ≢ w → 0 < q
    IsRing-held v h = elim (lt_cases 0 q) [
      | inl p ↦ p
      | inr p ↦
          let e : length taken ≡ length taken + q = omega arith in
          absurd (h (v.read_at ∙ ap (λ (k : ℕ). k % n) e ∙ sym v.write_at))
    ]

    pub IsRing-depth :
        IsRing fits blocks n r w published taken q → n ≤ 2 ^ 31 → sub_u32 (u32 (w + n)) r % n ≡ q
    IsRing-depth v le = depth_at (length taken) q n v.bounded le v.read_at v.write_at

    -- The producer writes the block at its position.
    pub IsRing-set :
        (blocks' : List A) (x : A)
        → length blocks' ≡ length blocks
        → (fits → blocks' ≡ set blocks w x)
        → IsRing fits blocks n r w published taken q
        → IsRing fits blocks' n r w published taken q
    IsRing-set blocks' x same change v = record {
      few = v.few;
      word = v.word;
      storage = same ∙ v.storage;
      read_at = v.read_at;
      write_at = v.write_at;
      bounded = v.bounded;
      count = v.count;
      fifo = λ fit.
          v.fifo fit
          ∙ ap (λ z. taken ++ z)
              (sym (
                window-set_behind blocks n (length taken) q q w x (omega arith) v.bounded
                  v.write_at))
          ∙ ap (λ bs. taken ++ window junk bs n (length taken) q) (sym (change fit));
    }

    -- The producer moves on.
    pub IsRing-publish :
        IsRing fits blocks n r w published taken q
        → q + 1 < n
        → IsRing fits blocks n r
            (u32 (w + 1) % n)
            (published ++ (get_or blocks w junk ∷ []))
            taken
            (suc q)
    IsRing-publish v room = record {
      few = v.few;
      word = v.word;
      storage = v.storage;
      read_at = v.read_at;
      write_at =
          next_at (length taken + q) n (omega arith) v.word v.write_at
          ∙ ap (λ (k : ℕ). k % n)
              (let s : length taken + q + 1 ≡ length taken + suc q = omega arith in s);
      bounded = omega arith;
      count =
          (let more = length-append published (get_or blocks w junk ∷ []) in
            omega (arith, more, v.count));
      fifo = λ fit.
          ap₂ (λ z (k : ℕ). z ++ (get_or blocks k junk ∷ [])) (v.fifo fit) v.write_at
          ∙ append_assoc taken (window junk blocks n (length taken) q)
              (get_or blocks ((length taken + q) % n) junk ∷ [])
          ∙ ap (λ z. taken ++ z) (sym (window_snoc blocks n (length taken) q));
    }

    -- The consumer moves on.
    pub IsRing-take :
        IsRing fits blocks n r w published taken q
        → 0 < q
        → IsRing fits blocks n
            (u32 (r + 1) % n)
            w
            published
            (taken ++ (get_or blocks r junk ∷ []))
            (q - 1)
    IsRing-take v held = record {
      few = v.few;
      word = v.word;
      storage = v.storage;
      read_at =
          next_at (length taken) n (omega (arith, v.few)) v.word v.read_at
          ∙ ap (λ (k : ℕ). k % n) (sym longer);
      write_at =
          v.write_at
          ∙ ap (λ (k : ℕ). k % n)
              (let s : length taken + q ≡ length (taken ++ (get_or blocks r junk ∷ [])) + (q - 1) =
                  omega (arith, longer) in
                s);
      bounded = omega (arith, v.bounded);
      count = omega (arith, longer, v.count);
      fifo = λ fit.
          v.fifo fit
          ∙ ap (λ z. taken ++ z) (window_of_ne_zero junk blocks n (length taken) q (omega arith))
          ∙ ap
              (λ (k : ℕ).
                taken ++ (get_or blocks k junk ∷ window junk blocks n (length taken + 1) (q - 1)))
              (sym v.read_at)
          ∙ sym (
              append_assoc taken (get_or blocks r junk ∷ [])
                (window junk blocks n (length taken + 1) (q - 1)))
          ∙ ap (λ (k : ℕ). (taken ++ (get_or blocks r junk ∷ [])) ++ window junk blocks n k (q - 1))
              (sym longer);
    }
      where
        longer : length (taken ++ (get_or blocks r junk ∷ [])) ≡ length taken + 1
        longer = length-append taken (get_or blocks r junk ∷ [])
