-- ===== src/Streaming/Ringbuf/Refine.antt =====
-- `dvbs2x_ringbuf_put` and `dvbs2x_ringbuf_get` against a bounded queue.
use open_vlsnr.Prelude.{
  ℕ, suc, ◌+◌, ◌-◌, ◌%◌, ◌^◌, ◌≤◌, ◌≡◌, ◌≢◌, refl, sym, ap, ap₂, ◌∙◌, Bool, true, false, Option,
  none, some, List, [], ◌∷◌, ◌++◌, arith, bit_and, length, set, get_or, sub_u32, u32, ◌==◌,
  if◌then◌else◌, Bool-cases, inl, inr,
}
use open_vlsnr.Streaming.Ringbuf.{Ringbuf, avail, free, put, get}
use open_vlsnr.Streaming.Ringbuf.Index.{size-le, wrap-mod, mask-mod}
use open_vlsnr.Streaming.Ringbuf.Inv.{IsValid, free-add-avail}
use open_vlsnr.Streaming.Ringbuf.Window.{
  window, length-window, window_mod, window-set, window_of_ne_zero,
}

-- The specification: a queue of at most `cap` elements, oldest first.
module _ {ℓ} {A : Type ℓ} where
  pub push : ℕ → List A → A → Bool × List A
  push cap q x = if length q == cap then (false, q) else (true, q ++ (x ∷ []))

  pub pop : List A → Option A × List A
  pop [] = (none, [])
  pop (x ∷ q) = (some x, q)

module _ {ℓ} {A : Type ℓ} (junk : A) where
  unfoldable pub contents : Ringbuf A → List A
  contents rb = window junk rb.buffer rb.size rb.tail (avail rb)

  pub length-contents : (rb : Ringbuf A) → length (contents rb) ≡ avail rb
  unfolding contents
  length-contents rb = length-window junk rb.buffer rb.size rb.tail (avail rb)

  stored :
      {rb : Ringbuf A} (x : A)
      → IsValid rb
      → free rb ≢ 0
      → window junk
          (set rb.buffer (bit_and rb.head rb.mask) x)
          rb.size
          rb.tail
          (sub_u32 (u32 (rb.head + 1)) rb.tail)
        ≡ contents rb ++ (x ∷ [])
  unfolding contents avail free
  stored {rb} x v room =
      let small : rb.size ≤ 2 ^ 31 = size-le v.is_size in
      let grown : sub_u32 (u32 (rb.head + 1)) rb.tail ≡ suc (sub_u32 rb.head rb.tail) =
        omega arith in
      let pos : bit_and rb.head rb.mask ≡ (rb.tail + sub_u32 rb.head rb.tail) % rb.size =
        ap (bit_and rb.head) v.mask_eq
        ∙ mask-mod rb.head v.is_size
        ∙ ap (λ (t : ℕ). t % rb.size) wrapped
        ∙ wrap-mod (rb.tail + sub_u32 rb.head rb.tail) v.is_size in
      ap (window junk (set rb.buffer (bit_and rb.head rb.mask) x) rb.size rb.tail) grown
      ∙ window-set junk rb.buffer rb.size rb.tail (sub_u32 rb.head rb.tail)
          (bit_and rb.head rb.mask) x (omega (arith, v.storage)) (omega arith) pos
    where
      wrapped : rb.head ≡ u32 (rb.tail + sub_u32 rb.head rb.tail)
      wrapped = omega (arith, v.head_fits, v.tail_fits)

  -- `dvbs2x_ringbuf_put` is `push`: it refuses exactly when the ring is full, and else leaves the
  -- ring holding its elements and the new one behind them.
  pub put_refines :
      {rb : Ringbuf A} (x : A)
      → IsValid rb
      → let (done, rb') = put rb x in (done, contents rb') ≡ push rb.size (contents rb) x
  unfolding put push contents avail
  put_refines {rb} x v = elim (Bool-cases (free rb == 0)) [
    | inl full ↦
        let at_cap : (length (contents rb) == rb.size) ≡ true =
          ground (arith, length-contents rb, free-add-avail v) in
        rw (full, put, at_cap) refl
    | inr room ↦
        let below_cap : (length (contents rb) == rb.size) ≡ false =
          ground (arith, length-contents rb, free-add-avail v) in
        rw (room, put, below_cap)
          (let pair : List A → Bool × List A = λ q. (true, q) in
            ap pair (stored x v (ground arith)))
  ]

  taken :
      {rb : Ringbuf A}
      → IsValid rb
      → avail rb ≢ 0
      → ◌≡◌ {A = Option A × List A}
          (
            some (get_or rb.buffer (bit_and rb.tail rb.mask) junk),
            window junk rb.buffer rb.size (u32 (rb.tail + 1)) (sub_u32 rb.head (u32 (rb.tail + 1))),
          )
          (pop (contents rb))
  unfolding contents avail pop
  taken {rb} v held =
      let pair : A → List A → Option A × List A = λ a q. (some a, q) in
      ap₂ pair (ap (λ (k : ℕ). get_or rb.buffer k junk) pos) (
        ap (window junk rb.buffer rb.size (u32 (rb.tail + 1))) fewer
        ∙ window_mod junk rb.buffer rb.size (u32 (rb.tail + 1)) (rb.tail + 1)
            (sub_u32 rb.head rb.tail - 1) (wrap-mod (rb.tail + 1) v.is_size))
      ∙ sym
          (ap pop (window_of_ne_zero junk rb.buffer rb.size rb.tail (sub_u32 rb.head rb.tail) held))
    where
      pos : bit_and rb.tail rb.mask ≡ rb.tail % rb.size
      pos = ap (bit_and rb.tail) v.mask_eq ∙ mask-mod rb.tail v.is_size

      fewer : sub_u32 rb.head (u32 (rb.tail + 1)) ≡ sub_u32 rb.head rb.tail - 1
      fewer = omega (arith, v.head_fits, v.tail_fits, held)

  -- `dvbs2x_ringbuf_get` is `pop`: it gives the oldest element, if there is one, and leaves the rest.
  pub get_refines :
      {rb : Ringbuf A}
      → IsValid rb
      → let (out, rb') = get junk rb in (out, contents rb') ≡ pop (contents rb)
  unfolding get contents avail pop
  get_refines {rb} v = elim (Bool-cases (avail rb == 0)) [
    | inl none_held ↦
        let nothing : sub_u32 rb.head rb.tail ≡ 0 = ground arith in rw (none_held, get, nothing)
    | inr held ↦ rw (held, get) (taken v (ground arith))
  ]
