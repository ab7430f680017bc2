-- ===== src/Streaming/Ringbuf.antt =====
-- streaming/include/dvbs2x_ringbuf.h: a ring of elements with free-running 32-bit indices.
pub mod Index
pub mod Window
pub mod Inv
pub mod Refine
pub mod Reach
mod Tests
use open_vlsnr.Prelude.{
  ℕ, ◌+◌, ◌-◌, ◌%◌, ◌^◌, Bool, true, false, not, Option, none, some, List, [], ◌∷◌, ◌++◌, bit_and,
  length, get_or, set, take, write_at, slice, ltb, leb, ◌==◌, if◌then◌else◌, sub_u32, u32, u64,
}

-- `struct dvbs2x_ringbuf` over elements of any type: the buffer is a list of elements, and a copy
-- of `elem_size` bytes at `pos * elem_size` is one element.
pub record Ringbuf {ℓ} (A : Type ℓ) : Type ℓ where
  pub head : ℕ
  pub tail : ℕ
  pub size : ℕ
  pub mask : ℕ
  pub buffer : List A
  pub overruns : ℕ
  pub underruns : ℕ
  pub total_written : ℕ
  pub total_read : ℕ

-- `struct dvbs2x_ringbuf_stats`
pub record Stats : Type 0 where
  pub overruns : ℕ
  pub underruns : ℕ
  pub total_written : ℕ
  pub total_read : ℕ
  pub current_usage : ℕ
  pub capacity : ℕ

module _ {ℓ} {A : Type ℓ} where
  -- The stores of `dvbs2x_ringbuf_init`.
  abbrev pub fresh : List A → ℕ → Ringbuf A
  fresh buffer size = record {
    head = 0;
    tail = 0;
    size = size;
    mask = sub_u32 size 1;
    buffer = buffer;
    overruns = 0;
    underruns = 0;
    total_written = 0;
    total_read = 0;
  }

  -- `dvbs2x_ringbuf_init`; `none` is the -1.
  pub init : List A → ℕ → Option (Ringbuf A)
  init buffer size =
      if not (bit_and size (sub_u32 size 1) == 0) then none else some (fresh buffer size)

  -- `dvbs2x_ringbuf_avail`
  pub avail : Ringbuf A → ℕ
  avail rb = sub_u32 rb.head rb.tail

  -- `dvbs2x_ringbuf_free`
  pub free : Ringbuf A → ℕ
  free rb = sub_u32 rb.size (sub_u32 rb.head rb.tail)

  -- `dvbs2x_ringbuf_is_empty`
  pub is_empty : Ringbuf A → Bool
  is_empty rb = avail rb == 0

  -- `dvbs2x_ringbuf_is_full`
  pub is_full : Ringbuf A → Bool
  is_full rb = free rb == 0

  -- `dvbs2x_ringbuf_put`
  pub put : Ringbuf A → A → Bool × Ringbuf A
  put rb x = if free rb == 0 then (false, record rb { overruns = u64 (rb.overruns + 1) }) else (
    true,
    record rb {
      buffer = set rb.buffer (bit_and rb.head rb.mask) x;
      head = u32 (rb.head + 1);
      total_written = u64 (rb.total_written + 1);
    },
  )

  -- `dvbs2x_ringbuf_put_batch`: the elements written, and the ring.
  pub put_batch : Ringbuf A → List A → ℕ → ℕ × Ringbuf A
  put_batch rb elems count =
      let room = free rb in
      let n = if ltb count room then count else room in
      let pos = bit_and rb.head rb.mask in
      let contig = sub_u32 rb.size pos in
      if n == 0 then (0, record rb { overruns = u64 (rb.overruns + 1) }) else (
        n,
        record rb {
          buffer =
              if leb n contig
              then write_at rb.buffer pos (take n elems)
              else write_at (write_at rb.buffer pos (take contig elems)) 0
                  (slice contig (n - contig) elems);
          head = u32 (rb.head + n);
          total_written = u64 (rb.total_written + n);
        },
      )

  -- `dvbs2x_ringbuf_reset`
  pub reset : Ringbuf A → Ringbuf A
  reset rb = record rb {
    head = 0;
    tail = 0;
    overruns = 0;
    underruns = 0;
    total_written = 0;
    total_read = 0;
  }

  -- `dvbs2x_ringbuf_get_stats`
  pub get_stats : Ringbuf A → Stats
  get_stats rb = record {
    overruns = rb.overruns;
    underruns = rb.underruns;
    total_written = rb.total_written;
    total_read = rb.total_read;
    current_usage = avail rb;
    capacity = rb.size;
  }

-- `junk` is what a read past the end of the buffer would give; no read of a valid ring does.
module _ {ℓ} {A : Type ℓ} (junk : A) where
  -- `dvbs2x_ringbuf_get`: the element if there is one, and the ring.
  pub get : Ringbuf A → Option A × Ringbuf A
  get rb = if avail rb == 0 then (none, record rb { underruns = u64 (rb.underruns + 1) }) else (
    some (get_or rb.buffer (bit_and rb.tail rb.mask) junk),
    record rb { tail = u32 (rb.tail + 1); total_read = u64 (rb.total_read + 1) },
  )

  -- `dvbs2x_ringbuf_peek`
  pub peek : Ringbuf A → ℕ → Option A
  peek rb offset =
      if leb (avail rb) offset
      then none
      else some (get_or rb.buffer (bit_and (u32 (rb.tail + offset)) rb.mask) junk)

-- `dvbs2x_ringbuf_get_batch`: the elements read, and the ring.
pub get_batch {ℓ} : {A : Type ℓ} → Ringbuf A → ℕ → List A × Ringbuf A
get_batch rb count =
    let held = avail rb in
    let n = if ltb count held then count else held in
    let pos = bit_and rb.tail rb.mask in
    let contig = sub_u32 rb.size pos in
    if n == 0 then ([], record rb { underruns = u64 (rb.underruns + 1) }) else (
      if leb n contig
          then slice pos n rb.buffer
          else slice pos contig rb.buffer ++ take (n - contig) rb.buffer,
      record rb { tail = u32 (rb.tail + n); total_read = u64 (rb.total_read + n) },
    )
