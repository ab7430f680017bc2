-- ===== src/Streaming/Ringbuf/Reach.antt =====
-- The rings that calls of streaming/include/dvbs2x_ringbuf.h lead to, in any order.
use mathlib.Core.Path.{subst}
use mathlib.Core.Option.{some-injective}
use open_vlsnr.Prelude.{ℕ, ◌+◌, ◌≡◌, sym, ◌∙◌, some, List, length}
use open_vlsnr.Streaming.Ringbuf.{Ringbuf, init, put, get, reset, free, avail}
use open_vlsnr.Streaming.Ringbuf.Index.{IsSize}
use open_vlsnr.Streaming.Ringbuf.Inv.{
  IsValid, init-IsValid, put-IsValid, get-IsValid, reset-IsValid, free-add-avail,
}

module _ {ℓ} {A : Type ℓ} (junk : A) (buffer : List A) (size : ℕ) where
  -- What can be reached from a call of `dvbs2x_ringbuf_init`.
  pub data Reaches : Ringbuf A → Type ℓ where
    initialized : (rb : Ringbuf A) → init buffer size ≡ some rb → Reaches rb
    after_put : (rb : Ringbuf A) (x : A) → Reaches rb → Reaches (put rb x).1
    after_get : (rb : Ringbuf A) → Reaches rb → Reaches (get junk rb).1
    after_reset : (rb : Ringbuf A) → Reaches rb → Reaches (reset rb)

  valid : (rb : Ringbuf A) → IsSize size → length buffer ≡ size → Reaches rb → IsValid rb
  valid ring s len (initialized rb e) =
      let (rb', made, v, empty) = init-IsValid buffer s len in
      subst IsValid (some-injective _ _ (sym made ∙ e)) v
  valid ring s len (after_put before x r) = put-IsValid x (valid before s len r)
  valid ring s len (after_get before r) = get-IsValid junk (valid before s len r)
  valid ring s len (after_reset before r) = (reset-IsValid (valid before s len r)).0

  -- Every ring that calls of put, get and reset lead to, in any order, from one that was set up with a
  -- size that is a power of two and a buffer of that size, satisfies the invariant, and its free and
  -- its held elements make up its size.
  pub Reaches-IsValid :
      (rb : Ringbuf A)
      → IsSize size
      → length buffer ≡ size
      → Reaches rb
      → IsValid rb × (free rb + avail rb ≡ rb.size)
  Reaches-IsValid rb s len r = let v = valid rb s len r in (v, free-add-avail v)
