-- ===== src/Demodulator/Decode/Result.antt =====
-- The BB frame that src/demodulator_top.c gives for soft values.
use open_vlsnr.Prelude.{
  ℕ, ◌≤◌, ◌<◌, ◌≡◌, refl, sym, ◌∙◌, ◌⊎◌, inl, inr, Bool, true, false, not, ◌&&◌, Option, none, some,
  List, ◌++◌, take, drop, slice, ltb, length, arith, All,
}
use open_vlsnr.Bits.Binary.{IsBinary}
use open_vlsnr.Types.{Modcod, Error, nomem, crc, short, cancelled}
use open_vlsnr.Modcod.{get_modcod}
use open_vlsnr.Bch.{BchEncoder, bch_encode}
use open_vlsnr.Bch.Init.{bch_encoder_init}
use open_vlsnr.Bch.Generator.{bch_encoder_init-IsBchEncoder}
use open_vlsnr.Bch.Codeword.{bch_encode-IsMultiple}
use open_vlsnr.Bch.Decoder.{bch_decoder_init, bch_decode}
use open_vlsnr.Bch.Decoder.RoundTrip.{bch_decode-bch_encode}
use open_vlsnr.Bch.Decoder.Single.{turned, bch_decode-turned}
use open_vlsnr.Ldpc.Boxplus.{SoftOps}
use open_vlsnr.Ldpc.{Tables}
use open_vlsnr.Ldpc.Decoder.{LdpcDecoder, Memory}
use open_vlsnr.Demodulator.Decode.{
  Decoding, decoder_for, iterations_of, deliver, decode_bch, run_ldpc, decode_llr, Buffers,
  decode_into,
}

-- A word that differs from the codeword in one place at most.
abbrev pub Nearly : ℕ → List ℕ → List ℕ → Type 0
Nearly n codeword word = (word ≡ codeword) ⊎ ((p : ℕ) × (p < n) × (word ≡ turned p codeword))

-- What a frame that went well leaves behind.
abbrev pub delivered : List ℕ → List ℕ → LdpcDecoder → ℕ → Decoding
delivered frame bbframe dec iter = record {
  error = none;
  bbframe = frame ++ drop (length frame) bbframe;
  frame_len = length frame;
  ldpc_dec = some dec;
  ldpc_iterations = iter;
}

-- Both calls of malloc succeed.
abbrev pub all_buffers : List ℕ → Buffers
all_buffers ldpc_out = record { ldpc_out = some ldpc_out; for_bch_cw = true }

module _ (i : ℕ) {mc : Modcod} (e : get_modcod i ≡ some mc) (enc : BchEncoder)
    (made : bch_encoder_init true mc ≡ some enc) (frame : List ℕ) (size : length frame ≡ mc.k_bch)
    (bits : All IsBinary frame) where
  corrected :
      (word : List ℕ)
      → Nearly mc.n_bch (bch_encode enc frame) word
      → (count : ℕ) × (bch_decode (bch_decoder_init mc) word ≡ (some count, bch_encode enc frame))
  corrected word (inl same) =
      let (enc', made', good) = bch_decode-bch_encode i frame e size bits in
      let equal : enc' ≡ enc = cc in (0, rw (same, ← equal) good)
  corrected word (inr (p, inside, wrong)) =
      let (enc', made', good) = bch_decode-turned i frame p e size bits inside in
      let equal : enc' ≡ enc = cc in (1, rw (wrong, ← equal) good)

  front : take mc.k_bch (bch_encode enc frame) ≡ frame
  front =
      let (enc', low, made', v, k, n, roots) = bch_encoder_init-IsBchEncoder i e in
      let equal : enc' ≡ enc = cc in
      rw (← equal, ← k) ((bch_encode-IsMultiple enc' low frame v (size ∙ sym k)).1)

  decode_bch_lem :
      (dec : LdpcDecoder) (iter : ℕ) (ldpc_out bbframe : List ℕ) (capacity : ℕ)
      → mc.k_bch ≤ capacity
      → Nearly mc.n_bch (bch_encode enc frame) (slice mc.xs mc.n_bch ldpc_out)
      → decode_bch mc dec iter ldpc_out bbframe capacity ≡ delivered frame bbframe dec iter
  unfolding decode_bch deliver
  decode_bch_lem dec iter ldpc_out bbframe capacity room near =
      let (count, good) = corrected (slice mc.xs mc.n_bch ldpc_out) near in
      let fits : ltb capacity mc.k_bch ≡ false = ground arith in
      rw (good, decode_bch) (rw (fits, deliver) (rw (good, front, size) refl))

-- The errors before the BB frame is there, with no length told.
abbrev pub Early : Error → ℕ → Type 0
Early error frame_len = (frame_len ≡ 0) × ((error ≡ nomem) ⊎ ((error ≡ cancelled) ⊎ (error ≡ crc)))

-- A whole frame that fits, or an error with the memory of the BB frame left alone.
abbrev pub Outcome : Modcod → List ℕ → ℕ → Decoding → Type 0
Outcome mc bbframe capacity r =
    ((r.error ≡ none) × (r.frame_len ≡ mc.k_bch) × (mc.k_bch ≤ capacity))
    ⊎ ((error : Error) × (r.error ≡ some error)
        × (r.bbframe ≡ bbframe)
        × (Early error r.frame_len
            ⊎ ((error ≡ short) × (r.frame_len ≡ mc.k_bch) × (capacity < mc.k_bch))))

-- For a MODCOD of the table, the BCH encoder set up for it, a BB frame of k_bch bits and room for
-- them: when there is an LDPC decoder for the frame, the information word that it gives has behind the
-- shortening zeros the BCH codeword of the BB frame but for one wrong bit at most, and the decoder
-- returned 0 or no cancel request shows, the part of dvbs2x_demodulate_bbframe_symbols_ex from the
-- soft values on, when its two calls of malloc succeed, gives the BB frame and its length, and it
-- keeps that decoder.
pub decode_llr-bch_encode {ℓ} :
    {A : Type ℓ} (ops : SoftOps A) (tables : Tables) (i : ℕ) {mc : Modcod} (memory : Memory)
    (kept : Option LdpcDecoder) (dec : LdpcDecoder) (limit : ℕ) (cancel : ℕ → Bool) (late : Bool)
    (llr : List A) (ldpc_out bbframe : List ℕ) (capacity : ℕ) (enc : BchEncoder) (frame : List ℕ)
    → get_modcod i ≡ some mc
    → bch_encoder_init true mc ≡ some enc
    → length frame ≡ mc.k_bch
    → All IsBinary frame
    → mc.k_bch ≤ capacity
    → decoder_for tables mc memory kept ≡ some dec
    → Nearly mc.n_bch
        (bch_encode enc frame)
        (slice mc.xs mc.n_bch (run_ldpc ops dec limit cancel llr ldpc_out).output)
    → (not (run_ldpc ops dec limit cancel llr ldpc_out).ok && late) ≡ false
    → decode_llr ops tables mc memory kept limit cancel late llr
        (all_buffers ldpc_out)
        bbframe
        capacity
      ≡ delivered frame bbframe dec
          (iterations_of (run_ldpc ops dec limit cancel llr ldpc_out).iter_used)
unfolding decode_llr decode_into
decode_llr-bch_encode ops tables i {mc} memory kept dec limit cancel late llr ldpc_out bbframe
      capacity enc frame e made size bits room ready near goes_on =
    let d = run_ldpc ops dec limit cancel llr ldpc_out in
    rw (ready, decode_llr)
      (rw (goes_on, decode_into)
        (decode_bch_lem i e enc made frame size bits dec (iterations_of d.iter_used) d.output
          bbframe capacity room near))
