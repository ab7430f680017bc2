-- ===== src/Demodulator/Stream/Tests.antt =====
-- A stream of some samples, with a demodulator that finds no frame.
use open_vlsnr.Prelude.{
  ℕ, ◌≤◌, ◌≡◌, true, false, none, some, List, [], ◌∷◌, ◌++◌, arith, length, replicate,
  length-replicate,
}
use open_vlsnr.Types.{nosync}
use open_vlsnr.Demodulator.Lock.{initial_lock}
use open_vlsnr.Demodulator.Stream.{Demod, Decoded, buffer_input}
use open_vlsnr.Demodulator.Stream.Growth.{IsBuffer, buffer_input-IsBuffer}
use open_vlsnr.Demodulator.Stream.Progress.{after_polls, IsLast, polls_wait}

-- A buffer of 40000 samples at two samples a symbol.
abbrev receiver : Demod ℕ
receiver = record {
  stream_buf = replicate 40000 0;
  stream_cap = 65536;
  sps = 2;
  num_taps = 65;
  modcod = none;
  stats_modcod = 0;
  lock = initial_lock;
}

abbrev finds_nothing : Demod ℕ → List ℕ → Decoded
finds_nothing d samples = record {
  ret = some nosync;
  output_len = 0;
  modcod = none;
  stats_modcod = 0;
  have_wh_prediction = false;
}

receiver-size : length receiver.stream_buf ≡ 40000
receiver-size = length-replicate {A = ℕ} 40000 0

polls_wait_example :
    (n : ℕ) × (n ≤ length receiver.stream_buf)
    × IsLast finds_nothing 0 (after_polls finds_nothing 0 n receiver)
polls_wait_example =
    polls_wait finds_nothing 0 receiver
      (record { slow = omega arith; fast = omega arith; tail = omega (arith, receiver-size) })

buffer_input-IsBuffer_example :
    ((buffer_input true receiver (1 ∷ 2 ∷ [])).0 ≡ none)
    × ((buffer_input true receiver (1 ∷ 2 ∷ [])).1.stream_buf ≡ receiver.stream_buf ++ (1 ∷ 2 ∷ []))
    × IsBuffer (buffer_input true receiver (1 ∷ 2 ∷ [])).1
buffer_input-IsBuffer_example =
    buffer_input-IsBuffer receiver (1 ∷ 2 ∷ [])
      (record { held = omega (arith, receiver-size); capacity = omega arith })
      (omega (arith, receiver-size))
