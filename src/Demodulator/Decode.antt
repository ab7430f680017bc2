-- ===== src/Demodulator/Decode.antt =====
-- src/demodulator_top.c: the last part of dvbs2x_demodulate_bbframe_symbols_ex, from the soft values of
-- a codeword to the BB frame. What comes before it in that function, the checks of the arguments and
-- of the header included, is not here.
pub mod Reuse
pub mod Result
mod Tests
use open_vlsnr.Prelude.{
  ℕ, Bool, true, false, not, ◌&&◌, ◌||◌, Option, none, some, List, ◌++◌, take, drop, slice, ltb,
  ◌==◌, if◌then◌else◌,
}
use open_vlsnr.Types.{Modcod, Error, nomem, crc, short, cancelled}
use open_vlsnr.Ldpc.Boxplus.{SoftOps}
use open_vlsnr.Ldpc.{Tables}
use open_vlsnr.Ldpc.Decoder.{LdpcDecoder, Memory, DecodedLdpc, decoder_init, ldpc_decode}
use open_vlsnr.Bch.Decoder.{bch_decoder_init, bch_decode}

-- `DVBS2X_LDPC_MAX_ITER`
abbrev pub ldpc_max_iter : ℕ
ldpc_max_iter = 200

-- What the call leaves behind: its error, the memory of `bbframe`, `*frame_len`, the LDPC decoder that
-- is kept for the next frame (none without a matrix), and the iterations in the statistics.
pub record Decoding : Type 0 where
  pub error : Option Error
  pub bbframe : List ℕ
  pub frame_len : ℕ
  pub ldpc_dec : Option LdpcDecoder
  pub ldpc_iterations : ℕ

-- What the two calls of malloc give: the memory of `ldpc_out`, none for NULL, and whether there is
-- memory for `bch_cw`, which is written over at once.
pub record Buffers : Type 0 where
  pub ldpc_out : Option (List ℕ)
  pub for_bch_cw : Bool

-- A decoder with a matrix for other sizes is not used.
pub decoder_fits : Modcod → LdpcDecoder → Bool
decoder_fits mc dec = dec.allocated && ((dec.code.n == mc.fec_len) && (dec.code.k == mc.k_ldpc))

-- The decoder for the frame: the one at hand, or a new one.
pub decoder_for : Tables → Modcod → Memory → Option LdpcDecoder → Option LdpcDecoder
decoder_for tables mc memory none = decoder_init tables mc ldpc_max_iter memory
decoder_for tables mc memory (some dec) =
    if decoder_fits mc dec then some dec else decoder_init tables mc ldpc_max_iter memory

-- The number that the statistics get; it was 0.
abbrev pub iterations_of : Option ℕ → ℕ
iterations_of none = 0
iterations_of (some iter) = iter

-- The check of the room, and the copy of the frame.
pub deliver : Modcod → LdpcDecoder → ℕ → List ℕ → ℕ → List ℕ → Decoding
deliver mc dec iter bbframe capacity bch_cw =
    if ltb capacity mc.k_bch
    then record {
      error = some short;
      bbframe = bbframe;
      frame_len = mc.k_bch;
      ldpc_dec = some dec;
      ldpc_iterations = iter;
    }
    else record {
      error = none;
      bbframe = take mc.k_bch bch_cw ++ drop mc.k_bch bbframe;
      frame_len = mc.k_bch;
      ldpc_dec = some dec;
      ldpc_iterations = iter;
    }

-- The BCH decoder on the information word, past the shortening zeros.
pub decode_bch : Modcod → LdpcDecoder → ℕ → List ℕ → List ℕ → ℕ → Decoding
decode_bch mc dec iter ldpc_out bbframe capacity =
    let (errors, bch_cw) = bch_decode (bch_decoder_init mc) (slice mc.xs mc.n_bch ldpc_out) in
    elim errors [
      | none ↦ record {
        error = some crc;
        bbframe = bbframe;
        frame_len = 0;
        ldpc_dec = some dec;
        ldpc_iterations = iter;
      }
      | some count ↦ deliver mc dec iter bbframe capacity bch_cw
    ]

-- What is left behind when memory is missing.
pub without_memory : List ℕ → Option LdpcDecoder → ℕ → Decoding
without_memory bbframe dec iter = record {
  error = some nomem;
  bbframe = bbframe;
  frame_len = 0;
  ldpc_dec = dec;
  ldpc_iterations = iter;
}

module _ {ℓ} {A : Type ℓ} (ops : SoftOps A) where
  -- The call of the LDPC decoder, with the limit of the demodulator in place of its own.
  pub run_ldpc : LdpcDecoder → ℕ → (ℕ → Bool) → List A → List ℕ → DecodedLdpc
  run_ldpc dec limit cancel llr ldpc_out =
      ldpc_decode ops (record dec { max_iter = limit }) cancel llr ldpc_out

  -- From the LDPC decoder's call to the end, with the decoder and the memory for its output there.
  -- `cancel` is what the cancel flag shows to the LDPC decoder before each iteration, `late` what it
  -- shows after it; `ldpc_out` and `bbframe` are the memory as it is.
  pub decode_into :
      Modcod → LdpcDecoder → ℕ → (ℕ → Bool) → Bool → List A → List ℕ → Bool → List ℕ → ℕ → Decoding
  decode_into mc dec limit cancel late llr ldpc_out for_bch_cw bbframe capacity =
      let d = run_ldpc dec limit cancel llr ldpc_out in
      let iter = iterations_of d.iter_used in
      if not d.ok && late
      then record {
        error = some cancelled;
        bbframe = bbframe;
        frame_len = 0;
        ldpc_dec = some dec;
        ldpc_iterations = iter;
      }
      else if not for_bch_cw
      then without_memory bbframe (some dec) iter
      else decode_bch mc dec iter d.output bbframe capacity

  -- From `full_llr` to the end.
  pub decode_llr :
      Tables
      → Modcod
      → Memory
      → Option LdpcDecoder
      → ℕ
      → (ℕ → Bool)
      → Bool
      → List A
      → Buffers
      → List ℕ
      → ℕ
      → Decoding
  decode_llr tables mc memory kept limit cancel late llr buffers bbframe capacity =
      elim (decoder_for tables mc memory kept) [
        | none ↦ without_memory bbframe none 0
        | some dec ↦ elim buffers.ldpc_out [
          | none ↦ without_memory bbframe (some dec) 0
          | some ldpc_out ↦
              decode_into mc dec limit cancel late llr ldpc_out buffers.for_bch_cw bbframe capacity
        ]
      ]
