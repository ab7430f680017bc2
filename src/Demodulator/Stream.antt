-- ===== src/Demodulator/Stream.antt =====
-- `demodulate_stream_ex` of src/demodulator_top.c: the buffer of the streaming receiver. The
-- demodulator proper, `dvbs2x_demodulate_ex`, is an argument.
pub mod Growth
pub mod Progress
mod Tests
use open_vlsnr.Prelude.{
  ℕ, zero, suc, ◌+◌, ◌-◌, ◌*◌, ◌/◌, ◌^◌, Bool, true, false, not, ◌&&◌, ◌||◌, Option, none, some,
  List, [], ◌∷◌, ◌++◌, length, drop, replicate, ltb, ◌==◌, if◌then◌else◌, u32,
}
use open_vlsnr.Types.{
  Error, nomem, param, nosync, fec, crc, short, cancelled, Modcod, frame_short, plheader_len,
  vlsnr_hdr_len,
}
use open_vlsnr.Layout.{build_layout}
use open_vlsnr.Demodulator.Lock.{LockState, lock_update}

-- UINT_MAX, ACQ_WINDOW and DVBS2X_VLSNR_WH_LEN
abbrev pub uint_max : ℕ
uint_max = 2 ^ 32 - 1

abbrev pub acq_window : ℕ
acq_window = 4096

abbrev pub wh_len : ℕ
wh_len = 896

-- The part of `struct dvbs2x_demodulator` that the streaming calls keep. `stream_buf` holds the first
-- `stream_len` samples of the buffer; `sps` and `num_taps` belong to the timing loop and the filter.
pub record Demod {ℓ} (A : Type ℓ) : Type ℓ where
  pub stream_buf : List A
  pub stream_cap : ℕ
  pub sps : ℕ
  pub num_taps : ℕ
  pub modcod : Option Modcod
  pub stats_modcod : ℕ
  pub lock : LockState

-- What `dvbs2x_demodulate_ex` returns and stores.
pub record Decoded : Type 0 where
  pub ret : Option Error
  pub output_len : ℕ
  pub modcod : Option Modcod
  pub stats_modcod : ℕ
  pub have_wh_prediction : Bool

pub record Streamed {ℓ} (A : Type ℓ) : Type ℓ where
  pub ret : Option Error
  pub consumed : ℕ
  pub output_len : ℕ
  pub demod : Demod A

-- The loop for the new capacity; 32 rounds are enough.
pub grow : ℕ → ℕ → ℕ → ℕ
grow zero new_cap need = new_cap
grow (suc fuel) new_cap need =
    let rest = grow fuel (new_cap * 2) need in
    if ltb new_cap need then (if ltb (uint_max / 2) new_cap then need else rest) else new_cap

abbrev pub first_cap : ℕ → ℕ
first_cap stream_cap = if stream_cap == 0 then 4096 else stream_cap

abbrev pub is_short : Option Error → Bool
is_short none = false
is_short (some short) = true
is_short (some nomem) = false
is_short (some param) = false
is_short (some nosync) = false
is_short (some fec) = false
is_short (some crc) = false
is_short (some cancelled) = false

abbrev pub is_ok : Option Error → Bool
is_ok none = true
is_ok (some e) = false

-- `frame_geometry`: the length of the data field.
pub frame_geometry : Bool → Option Modcod → Option ℕ
frame_geometry allocated none = none
frame_geometry allocated (some mc) = elim (build_layout mc allocated) [
  | none ↦ none
  | some lay ↦ some lay.field_len
]

-- The samples to remove.
pub removed : ℕ → ℕ → ℕ → ℕ
removed sps stream_len frame_samples =
    let searched = u32 ((acq_window - wh_len) * sps) in
    let capped = if ltb stream_len searched then stream_len else searched in
    if frame_samples == 0 || ltb stream_len frame_samples
    then (if capped == 0 then 1 else capped)
    else frame_samples

module _ {ℓ} {A : Type ℓ} where
  -- The block for new input: its error, if there is one, and the receiver afterwards.
  pub buffer_input : Bool → Demod A → List A → Option Error × Demod A
  buffer_input allocated d [] = (none, d)
  buffer_input allocated d (x ∷ xs) =
      let input = x ∷ xs in
      let need = length d.stream_buf + length input in
      if ltb (uint_max - length d.stream_buf) (length input)
      then (some param, d)
      else if not (ltb d.stream_cap need)
      then (none, record d { stream_buf = d.stream_buf ++ input })
      else if allocated
      then (
        none,
        record d {
          stream_buf = d.stream_buf ++ input;
          stream_cap = grow 32 (first_cap d.stream_cap) need;
        },
      )
      else (some nomem, d)

  -- `expected_frame_len` and `frame_samples` after the decoder.
  pub identified : Bool → Demod A → Decoded → ℕ × ℕ
  identified allocated d r =
      if r.stats_modcod == 0
      then (d.lock.expected_frame_len, 0)
      else elim (frame_geometry allocated r.modcod) [
        | none ↦ (d.lock.expected_frame_len, 0)
        | some field_len ↦ (
          plheader_len + vlsnr_hdr_len + field_len,
          u32 ((plheader_len + vlsnr_hdr_len + field_len) * d.sps),
        )
      ]

  -- The receiver after the decoder.
  abbrev pub decoded : Demod A → Decoded → ℕ → Demod A
  decoded d r expected = record d {
    modcod = r.modcod;
    stats_modcod = r.stats_modcod;
    lock = record d.lock {
      have_wh_prediction = r.have_wh_prediction;
      expected_frame_len = expected;
    };
  }

  -- The end of the call, from the decoder's results on.
  pub finish_call : Bool → Demod A → Decoded → ℕ → Streamed A
  finish_call allocated d r consumed =
      let (expected, frame_samples) = identified allocated d r in
      let d' = decoded d r expected in
      if is_short r.ret
      then record { ret = r.ret; consumed = consumed; output_len = r.output_len; demod = d' }
      else record {
        ret = r.ret;
        consumed = consumed;
        output_len = r.output_len;
        demod = record d' {
          lock = lock_update d'.lock (is_ok r.ret);
          stream_buf = drop (removed d.sps (length d.stream_buf) frame_samples) d.stream_buf;
        };
      }

  -- An error before the decoder.
  abbrev pub stopped : Error → Demod A → ℕ → Streamed A
  stopped e d consumed = record { ret = some e; consumed = consumed; output_len = 0; demod = d }

  -- The call behind the block for new input.
  pub process : (Demod A → List A → Decoded) → A → Bool → Demod A → ℕ → Streamed A
  process decode silence allocated d consumed =
      let len = length d.stream_buf in
      if ltb len (u32 (frame_short * d.sps))
        || (not (d.lock.expected_frame_len == 0)
            && ltb len (u32 (d.lock.expected_frame_len * d.sps)))
      then stopped short d consumed
      else if ltb (uint_max - d.num_taps) len
      then stopped param d consumed
      else if not allocated
      then stopped nomem d consumed
      else finish_call allocated d (decode d (d.stream_buf ++ replicate d.num_taps silence))
          consumed

  -- `demodulate_stream_ex`, its pointers not NULL.
  pub demodulate_stream_ex : (Demod A → List A → Decoded) → A → Bool → Demod A → List A → Streamed A
  demodulate_stream_ex decode silence allocated d input =
      let (error, d') = buffer_input allocated d input in
      elim error [
        | some e ↦ stopped e d' 0
        | none ↦ process decode silence allocated d' (length input)
      ]
