-- ===== src/Demodulator/Stream/Progress.antt =====
-- `demodulate_stream_ex` of src/demodulator_top.c: the samples that its calls remove.
use open_vlsnr.Prelude.{
  ℕ, zero, suc, ◌+◌, ◌-◌, ◌*◌, ◌^◌, ◌≤◌, ◌<◌, ◌≡◌, ◌⊎◌, inl, inr, refl, true, false, not, ◌&&◌,
  Bool-cases, Option, some, List, [], ◌++◌, length, length-drop, drop, arith, ltb, ◌==◌, u32,
  replicate,
}
use open_vlsnr.Types.{Error, short, frame_short}
use open_vlsnr.Demodulator.Stream.{
  Demod, Decoded, Streamed, is_short, identified, removed, finish_call, process, buffer_input,
  demodulate_stream_ex, uint_max,
}

is_short_lem : (r : Option Error) → is_short r ≡ true → r ≡ some short
is_short_lem r h = ground (arith, h)

-- At least one sample is removed, and no more than there are.
removed_lem :
    (sps stream_len frame_samples : ℕ)
    → 1 ≤ stream_len
    → (1 ≤ removed sps stream_len frame_samples)
      × (removed sps stream_len frame_samples ≤ stream_len)
unfolding removed
removed_lem sps stream_len frame_samples h = ground (arith, h)

-- What `dvbs2x_demodulator_init` sees to, and a buffer that the filter's tail fits behind.
pub record IsStream {ℓ} {A : Type ℓ} (d : Demod A) : Type 0 where
  pub slow : 1 ≤ d.sps
  pub fast : d.sps ≤ 7
  pub tail : length d.stream_buf + d.num_taps < 2 ^ 32

module _ {ℓ} {A : Type ℓ} (decode : Demod A → List A → Decoded) (silence : A) where
  -- A call without input, and a number of them.
  abbrev poll : Demod A → Streamed A
  poll d = demodulate_stream_ex decode silence true d []

  abbrev pub after_polls : ℕ → Demod A → Demod A
  after_polls zero d = d
  after_polls (suc n) d = after_polls n (poll d).demod

  abbrev Moves : Demod A → Streamed A → Type 0
  Moves d out = (length out.demod.stream_buf < length d.stream_buf) × IsStream out.demod

  -- Less is buffered than the shortest frame, or than the frame that is expected.
  abbrev Lacks : Demod A → Type 0
  Lacks d =
      (length d.stream_buf < u32 (frame_short * d.sps))
      ⊎ (length d.stream_buf < u32 (d.lock.expected_frame_len * d.sps))

  -- The demodulator itself answers SHORT to what is buffered, which then stays.
  abbrev Refuses : Demod A → Streamed A → Type ℓ
  Refuses d out =
      ((decode d (d.stream_buf ++ replicate d.num_taps silence)).ret ≡ some short)
      × (out.demod.stream_buf ≡ d.stream_buf)

  -- How a call answers SHORT.
  abbrev pub IsLast : Demod A → Type ℓ
  IsLast d = ((poll d).ret ≡ some short) × (Lacks d ⊎ Refuses d (poll d))

  finish_call-Moves :
      (d : Demod A) (r : Decoded) (consumed : ℕ)
      → IsStream d
      → 1 ≤ length d.stream_buf
      → let out = finish_call true d r consumed in
        ((out.ret ≡ some short) × (r.ret ≡ some short) × (out.demod.stream_buf ≡ d.stream_buf))
        ⊎ Moves d out
  unfolding finish_call
  finish_call-Moves d r consumed v some_left = elim (Bool-cases (is_short r.ret)) [
    | inl h ↦ inl (rw h (is_short_lem r.ret h, is_short_lem r.ret h, refl))
    | inr h ↦
        (let count = removed d.sps (length d.stream_buf) (identified true d r).1 in
          let (least, most) =
            removed_lem d.sps (length d.stream_buf) (identified true d r).1 some_left in
          let left : length (drop count d.stream_buf) < length d.stream_buf =
            omega (arith, length-drop count d.stream_buf, least, most) in
          inr (
            rw h
              (left, record { slow = v.slow; fast = v.fast; tail = omega (arith, left, v.tail) })))
  ]

  poll-Moves : (d : Demod A) → IsStream d → IsLast d ⊎ Moves d (poll d)
  unfolding demodulate_stream_ex process buffer_input
  poll-Moves d v = elim (Bool-cases (ltb (length d.stream_buf) (u32 (frame_short * d.sps)))) [
    | inl few ↦ inl (rw few (refl, inl (inl (ground (arith, few)))))
    | inr enough ↦
        elim (Bool-cases (
          not (d.lock.expected_frame_len == 0)
          && ltb (length d.stream_buf) (u32 (d.lock.expected_frame_len * d.sps)))) [
            | inl few ↦ inl (rw (enough, few) (refl, inl (inr (ground (arith, few)))))
            | inr all ↦
                (let fits : ltb (uint_max - d.num_taps) (length d.stream_buf) ≡ false =
                    (let t = v.tail in ground (arith, t)) in
                  let some_left : 1 ≤ length d.stream_buf =
                    (let e : u32 (frame_short * d.sps) ≤ length d.stream_buf =
                        ground (arith, enough) in
                      omega (arith, e, v.slow, v.fast)) in
                  let answer = decode d (d.stream_buf ++ replicate d.num_taps silence) in
                  rw (enough, all, fits)
                    (elim (finish_call-Moves d answer 0 v some_left) [
                      | inl (is_last, said, kept) ↦ inl (is_last, inr (said, kept))
                      | inr moves ↦ inr moves
                    ]))
          ]
  ]

  waits_within :
      (fuel : ℕ) (d : Demod A)
      → IsStream d
      → length d.stream_buf ≤ fuel
      → (n : ℕ) × (n ≤ length d.stream_buf) × IsLast (after_polls n d)
  waits_within zero d v h = elim (poll-Moves d v) [
    | inl waits ↦ (0, omega arith, waits)
    | inr moves ↦ absurd (omega (arith, h, moves.0))
  ]
  waits_within (suc fuel) d v h = elim (poll-Moves d v) [
    | inl waits ↦ (0, omega arith, waits)
    | inr moves ↦
        (let (n, few, waits) =
            waits_within fuel (poll d).demod moves.1 (omega (arith, h, moves.0)) in
          (suc n, omega (arith, few, moves.0), waits))
  ]

  -- With 1 to 7 samples a symbol, a buffer within the 32-bit range and memory, and whatever the
  -- demodulator answers: repeated calls without input come to one that answers SHORT, after at most
  -- as many calls as there are samples in the buffer. That call finds less buffered than the
  -- shortest frame or than the frame expected, or else the demodulator itself has answered SHORT to
  -- all that is buffered, and the call has removed none of it.
  pub polls_wait :
      (d : Demod A) → IsStream d → (n : ℕ) × (n ≤ length d.stream_buf) × IsLast (after_polls n d)
  polls_wait d v = waits_within (length d.stream_buf) d v (omega arith)
