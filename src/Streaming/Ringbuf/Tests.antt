-- ===== src/Streaming/Ringbuf/Tests.antt =====
-- A ring of four elements whose head has gone round, its counters about to wrap.
use open_vlsnr.Prelude.{ℕ, ◌≡◌, refl, some, [], ◌∷◌, arith}
use open_vlsnr.Streaming.Ringbuf.{Ringbuf, init, avail, put, get}
use open_vlsnr.Streaming.Ringbuf.Index.{IsSize}
use open_vlsnr.Streaming.Ringbuf.Inv.{IsValid}
use open_vlsnr.Streaming.Ringbuf.Refine.{contents, push, pop, put_refines, get_refines}

four-IsSize : IsSize 4
four-IsSize = record { bits = 2; power = refl; small = omega arith }

abbrev empty_ring : Ringbuf ℕ
empty_ring = record {
  head = 0;
  tail = 0;
  size = 4;
  mask = 3;
  buffer = 0 ∷ 0 ∷ 0 ∷ 0 ∷ [];
  overruns = 0;
  underruns = 0;
  total_written = 0;
  total_read = 0;
}

empty_ring_lem : init (0 ∷ 0 ∷ 0 ∷ 0 ∷ []) 4 ≡ some empty_ring
unfolding init
empty_ring_lem = refl

abbrev wrapped : Ringbuf ℕ
wrapped = record {
  head = 1;
  tail = 0xFFFF_FFFE;
  size = 4;
  mask = 3;
  buffer = 7 ∷ 0 ∷ 5 ∷ 6 ∷ [];
  overruns = 0;
  underruns = 0;
  total_written = 3;
  total_read = 0;
}

wrapped-IsValid : IsValid wrapped
wrapped-IsValid = record {
  is_size = four-IsSize;
  mask_eq = refl;
  storage = refl;
  head_fits = omega arith;
  tail_fits = omega arith;
  fill = omega arith;
}

contents-wrapped : contents 0 wrapped ≡ 5 ∷ 6 ∷ 7 ∷ []
unfolding contents avail
contents-wrapped = refl

put_refines_example :
    let (done, rb) = put wrapped 8 in (done, contents 0 rb) ≡ push 4 (contents 0 wrapped) 8
put_refines_example = put_refines 0 8 wrapped-IsValid

get_refines_example :
    let (out, rb) = get 0 wrapped in (out, contents 0 rb) ≡ pop (contents 0 wrapped)
get_refines_example = get_refines 0 wrapped-IsValid
