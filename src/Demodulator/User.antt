-- ===== src/Demodulator/User.antt =====
-- src/demodulator_top.c: dvbs2x_demodulate_symbols_ex, from what the BB frame's decoding leaves behind
-- to user data.
use open_vlsnr.Prelude.{
  ℕ, ◌≤◌, ◌≡◌, refl, sym, ap, ◌∙◌, Bool, true, false, not, ◌&&◌, Option, none, some, List, ◌++◌,
  drop, slice, length, arith, All, ◌==◌, ==_iff, if◌then◌else◌,
}
use open_vlsnr.Bits.Binary.{IsBinary}
use open_vlsnr.Types.{Modcod, Error, param, crc, short}
use open_vlsnr.Modcod.{get_modcod}
use open_vlsnr.BbFrame.{BbFrameCtx, Parsed, gs, bb_frame_init, bb_frame_build, bb_frame_parse_ex}
use open_vlsnr.BbFrame.RoundTrip.{bb_frame_parse_ex-bb_frame_build}
use open_vlsnr.BbFrame.Whole.{
  bb_frame_build-IsBinary, bb_frame_parse_ex-prefix, bb_frame_init-IsGsContext,
}
use open_vlsnr.Bch.{BchEncoder, bch_encode}
use open_vlsnr.Bch.Init.{bch_encoder_init}
use open_vlsnr.Ldpc.Boxplus.{SoftOps}
use open_vlsnr.Ldpc.{Tables}
use open_vlsnr.Ldpc.Decoder.{LdpcDecoder, Memory}
use open_vlsnr.Demodulator.Decode.{Decoding, decoder_for, iterations_of, run_ldpc, decode_llr}
use open_vlsnr.Demodulator.Decode.Result.{Nearly, all_buffers, delivered, decode_llr-bch_encode}

-- Any error of the reader but the one for room is told as a wrong checksum.
abbrev pub user_error : Option Error → Option Error
user_error none = none
user_error (some short) = some short
user_error (some e) = some crc

-- The end of `dvbs2x_demodulate_symbols_ex`, once the BB frame's decoding has come back.
pub read_user : Modcod → Decoding → List ℕ → Parsed
read_user mc r user_data = elim r.error [
  | some e ↦ record { error = some e; user_data = user_data; user_len = 0 }
  | none ↦
      let p = bb_frame_parse_ex (bb_frame_init mc gs) r.bbframe user_data in
      if not (r.frame_len == mc.k_bch)
      then record { error = some param; user_data = user_data; user_len = 0 }
      else record p { error = user_error p.error }
]

-- A context for a generic stream, with the roll-off of the sender.
abbrev pub sender : Modcod → ℕ → BbFrameCtx
sender mc ro = record (bb_frame_init mc gs) { ro = ro }

frame_bits :
    (i ro : ℕ) {mc : Modcod}
    → get_modcod i ≡ some mc
    → (user memory frame : List ℕ) → length user ≤ (sender mc ro).dfl
    → length memory ≡ mc.k_bch
    → All IsBinary user
    → bb_frame_build (sender mc ro) user memory ≡ (none, frame)
    → All IsBinary frame
unfolding bb_frame_init
frame_bits i ro {mc} e user memory frame few size bits made =
    bb_frame_build-IsBinary (sender mc ro) user memory frame (bb_frame_init-IsGsContext i ro e) few
      size bits made

module _ (i ro : ℕ) {mc : Modcod} (e : get_modcod i ≡ some mc) (user memory frame out : List ℕ)
    (few : length user ≤ (sender mc ro).dfl) (size : length memory ≡ mc.k_bch)
    (made : bb_frame_build (sender mc ro) user memory ≡ (none, frame)) where
  frame_size : length user ≤ length out → length frame ≡ mc.k_bch
  unfolding bb_frame_init
  frame_size space =
      let ok = bb_frame_init-IsGsContext i ro e in
      let (frame', made', len, parsed) =
        bb_frame_parse_ex-bb_frame_build (sender mc ro) user memory out ok few (omega (arith, size))
          space in
      let same : frame' ≡ frame = cc in ap length (sym same) ∙ len ∙ size

  parsed_user :
      (rest : List ℕ)
      → length user ≤ length out
      → bb_frame_parse_ex (bb_frame_init mc gs) (frame ++ rest) out ≡ record {
        error = none;
        user_data = user ++ drop (length user) out;
        user_len = length user;
      }
  unfolding bb_frame_init
  parsed_user rest space =
      let ok = bb_frame_init-IsGsContext i ro e in
      let (frame', made', len, parsed) =
        bb_frame_parse_ex-bb_frame_build (sender mc ro) user memory out ok few (omega (arith, size))
          space in
      let same : frame' ≡ frame = cc in
      bb_frame_parse_ex-prefix (bb_frame_init mc gs) ro frame rest out (frame_size space)
      ∙ rw (← same) parsed

  read_user-delivered :
      (bbframe : List ℕ) (dec : LdpcDecoder) (iter : ℕ)
      → length user ≤ length out
      → read_user mc (delivered frame bbframe dec iter) out ≡ record {
        error = none;
        user_data = user ++ drop (length user) out;
        user_len = length user;
      }
  unfolding read_user
  read_user-delivered bbframe dec iter space =
      let same : (length frame == mc.k_bch) ≡ true = (==_iff _ _).1 (frame_size space) in
      rw (same, parsed_user (drop (length frame) bbframe) space) refl

-- For a MODCOD of the table and the BCH encoder set up for it, user data of bits, at most dfl of
-- them, from which dvbs2x_bb_frame_build makes a BB frame of k_bch bits with any roll-off, and room
-- for the user data: when there is an LDPC decoder for the frame, the information word that it gives
-- has behind the shortening zeros the BCH codeword of that BB frame but for one wrong bit at most,
-- the decoder returned 0 or no cancel request shows, and the two calls of malloc from there on
-- succeed, dvbs2x_demodulate_symbols_ex gives the user
-- data and its length, and leaves the rest of the output alone.
pub read_user-bb_frame_build {ℓ} :
    {A : Type ℓ} (ops : SoftOps A) (tables : Tables) (i ro : ℕ) {mc : Modcod} (alloc : Memory)
    (kept : Option LdpcDecoder) (dec : LdpcDecoder) (limit : ℕ) (cancel : ℕ → Bool) (late : Bool)
    (llr : List A) (ldpc_out bbframe : List ℕ) (capacity : ℕ) (enc : BchEncoder)
    (user memory frame out : List ℕ)
    → get_modcod i ≡ some mc
    → bch_encoder_init true mc ≡ some enc
    → All IsBinary user
    → length user ≤ (sender mc ro).dfl
    → length user ≤ length out
    → length memory ≡ mc.k_bch
    → bb_frame_build (sender mc ro) user memory ≡ (none, frame)
    → mc.k_bch ≤ capacity
    → decoder_for tables mc alloc kept ≡ some dec
    → Nearly mc.n_bch
        (bch_encode enc frame)
        (slice mc.xs mc.n_bch (run_ldpc ops dec limit cancel llr ldpc_out).output)
    → (not (run_ldpc ops dec limit cancel llr ldpc_out).ok && late) ≡ false
    → read_user mc
        (decode_llr ops tables mc alloc kept limit cancel late llr
          (all_buffers ldpc_out)
          bbframe
          capacity)
        out
      ≡ record { error = none; user_data = user ++ drop (length user) out; user_len = length user }
read_user-bb_frame_build ops tables i ro {mc} alloc kept dec limit cancel late llr ldpc_out bbframe
      capacity enc user memory frame out e enc_made bits few space size made room ready near
      goes_on =
    let d = run_ldpc ops dec limit cancel llr ldpc_out in
    ap (λ (r : Decoding). read_user mc r out)
      (decode_llr-bch_encode ops tables i alloc kept dec limit cancel late llr ldpc_out bbframe
        capacity enc frame e enc_made (frame_size i ro e user memory frame out few size made space)
        (frame_bits i ro e user memory frame few size bits made) room ready near goes_on)
    ∙ read_user-delivered i ro e user memory frame out few size made bbframe dec
        (iterations_of d.iter_used) space
