-- ===== src/Streaming/Ringbuf/Inv.antt =====
-- The invariant of a ring buffer (streaming/include/dvbs2x_ringbuf.h) and its operations.
use native.Mathlib.Nat.{mod_self}
use open_vlsnr.Prelude.{
  ℕ, ◌+◌, ◌-◌, ◌^◌, ◌≤◌, ◌<◌, ◌≡◌, refl, ap, ◌∙◌, some, List, arith, bit_and, length, set,
  length-set, sub_u32, u32, ◌==◌, Bool-cases, inl, inr, ◌≢◌,
}
use open_vlsnr.Streaming.Ringbuf.{Ringbuf, fresh, init, avail, free, put, get, reset}
use open_vlsnr.Streaming.Ringbuf.Index.{IsSize, size-pos, size-le, mask-mod}

module _ {ℓ} {A : Type ℓ} where
  pub record IsValid (rb : Ringbuf A) : Type 0 where
    pub is_size : IsSize rb.size
    pub mask_eq : rb.mask ≡ rb.size - 1
    pub storage : length rb.buffer ≡ rb.size
    pub head_fits : rb.head < 2 ^ 32
    pub tail_fits : rb.tail < 2 ^ 32
    pub fill : sub_u32 rb.head rb.tail ≤ rb.size

  -- The free slots and the held elements make up the size: no counter difference wraps wrongly.
  pub free-add-avail : {rb : Ringbuf A} → IsValid rb → free rb + avail rb ≡ rb.size
  unfolding free avail
  free-add-avail v = omega (arith, size-le v.is_size)

  -- `dvbs2x_ringbuf_init` accepts a power of two and gives an empty ring.
  pub init-IsValid :
      (buffer : List A) {size : ℕ}
      → IsSize size
      → length buffer ≡ size
      → (rb : Ringbuf A) × (init buffer size ≡ some rb) × IsValid rb × (avail rb ≡ 0)
  unfolding init avail
  init-IsValid buffer {size} s len =
      let pos : 0 < size = size-pos s in
      let bound : size ≤ 2 ^ 31 = size-le s in
      let below : sub_u32 size 1 ≡ size - 1 = omega arith in
      let masked : bit_and size (sub_u32 size 1) ≡ 0 =
        ap (bit_and size) below ∙ mask-mod size s ∙ mod_self size in
      (
        fresh buffer size,
        rw masked,
        record {
          is_size = s;
          mask_eq = below;
          storage = len;
          head_fits = omega arith;
          tail_fits = omega arith;
          fill = omega arith;
        },
        refl,
      )

  put_room-IsValid :
      {rb : Ringbuf A} (i : ℕ) (x : A) (w : ℕ)
      → IsValid rb
      → free rb ≢ 0
      → IsValid
          (record rb { buffer = set rb.buffer i x; head = u32 (rb.head + 1); total_written = w })
  put_room-IsValid {rb} i x w v room = record {
    is_size = v.is_size;
    mask_eq = v.mask_eq;
    storage = length-set rb.buffer i x ∙ v.storage;
    head_fits = omega arith;
    tail_fits = v.tail_fits;
    fill = avail_grows;
  }
    where
      avail_grows : sub_u32 (u32 (rb.head + 1)) rb.tail ≤ rb.size
      avail_grows = unfold free in omega (arith, size-le v.is_size)

  -- The ring after `dvbs2x_ringbuf_put` of any element satisfies the invariant if it did before.
  pub put-IsValid : {rb : Ringbuf A} (x : A) → IsValid rb → IsValid (put rb x).1
  unfolding put
  put-IsValid {rb} x v = elim (Bool-cases (free rb == 0)) [
    | inl full ↦
        rw (full, put)
          (record {
            is_size = v.is_size;
            mask_eq = v.mask_eq;
            storage = v.storage;
            head_fits = v.head_fits;
            tail_fits = v.tail_fits;
            fill = v.fill;
          })
    | inr room ↦ rw (room, put) (put_room-IsValid (bit_and rb.head rb.mask) x _ v (ground arith))
  ]

  -- The ring after `dvbs2x_ringbuf_get` satisfies the invariant if it did before.
  pub get-IsValid : (junk : A) {rb : Ringbuf A} → IsValid rb → IsValid (get junk rb).1
  unfolding get
  get-IsValid junk {rb} v = elim (Bool-cases (avail rb == 0)) [
    | inl none_held ↦
        rw (none_held, get)
          (record {
            is_size = v.is_size;
            mask_eq = v.mask_eq;
            storage = v.storage;
            head_fits = v.head_fits;
            tail_fits = v.tail_fits;
            fill = v.fill;
          })
    | inr held ↦
        rw (held, get)
          (record {
            is_size = v.is_size;
            mask_eq = v.mask_eq;
            storage = v.storage;
            head_fits = v.head_fits;
            tail_fits = omega arith;
            fill = shrinks (ground arith);
          })
  ]
    where
      shrinks : avail rb ≢ 0 → sub_u32 rb.head (u32 (rb.tail + 1)) ≤ rb.size
      shrinks h = unfold avail in omega (arith, size-le v.is_size)

  -- `dvbs2x_ringbuf_reset` keeps the invariant and empties the ring.
  pub reset-IsValid : {rb : Ringbuf A} → IsValid rb → IsValid (reset rb) × (avail (reset rb) ≡ 0)
  unfolding reset avail
  reset-IsValid v = (
    record {
      is_size = v.is_size;
      mask_eq = v.mask_eq;
      storage = v.storage;
      head_fits = omega arith;
      tail_fits = omega arith;
      fill = omega arith;
    },
    refl,
  )
