-- ===== src/Modulator/User.antt =====
-- src/modulator_top.c: `dvbs2x_modulate_symbols_ex`, from user data to a frame.
use open_vlsnr.Prelude.{
  ℕ, ◌≤◌, ◌≡◌, refl, ap, ◌∙◌, true, false, none, some, List, ◌++◌, arith, length, drop, ltb,
}
use open_vlsnr.Types.{Modcod}
use open_vlsnr.Modcod.{get_modcod}
use open_vlsnr.Layout.Geometry.{frame_symbols}
use open_vlsnr.Scrambler.{Complex}
use open_vlsnr.BbFrame.{BbFrameCtx, gs, bb_frame_init, bb_frame_build, bb_frame_parse_ex}
use open_vlsnr.BbFrame.RoundTrip.{IsGsContext, bb_frame_parse_ex-bb_frame_build}
use open_vlsnr.BbFrame.Whole.{bb_frame_init-IsGsContext}
use open_vlsnr.Mapping.{Doubles}
use open_vlsnr.Modulator.{
  all_given, Modulator, Modulated, modulate_bbframe_symbols_ex, modulate_symbols_ex,
}
use open_vlsnr.Modulator.Frame.{IsModulator, modulate_bbframe_symbols_ex_lem}

-- The modulator when the roll-off's code stands in its BB frame context.
abbrev pub with_ro : Modulator → Modulator
with_ro tx = record tx { bb_ctx = record tx.bb_ctx { ro = tx.ro } }

context-IsGsContext :
    (i : ℕ) (tx : Modulator) {mc : Modcod}
    → get_modcod i ≡ some mc
    → tx.bb_ctx ≡ bb_frame_init mc gs
    → IsGsContext (with_ro tx).bb_ctx × (tx.bb_ctx.k_bch ≡ mc.k_bch)
unfolding bb_frame_init
context-IsGsContext i tx {mc} e at =
    let made : record tx.bb_ctx { ro = tx.ro } ≡ record (bb_frame_init mc gs) { ro = tx.ro } =
      ap (λ (c : BbFrameCtx). record c { ro = tx.ro }) at in
    (rw made (bb_frame_init-IsGsContext i tx.ro e), ap (λ (c : BbFrameCtx). c.k_bch) at)

module _ {ℓ} {A : Type ℓ} (ops : Doubles A) (pilot : Complex A) where
  modulate_symbols_ex-passes :
      (tx : Modulator) (mc : Modcod) (user memory frame : List ℕ) (symbols : List (Complex A))
      (capacity : ℕ)
      → tx.modcod ≡ some mc
      → ltb tx.bb_ctx.dfl (length user) ≡ false
      → bb_frame_build (with_ro tx).bb_ctx user memory ≡ (none, frame)
      → modulate_symbols_ex ops pilot true all_given tx user memory symbols capacity
        ≡ modulate_bbframe_symbols_ex ops pilot all_given (with_ro tx) frame symbols capacity
  unfolding modulate_symbols_ex
  modulate_symbols_ex-passes tx mc user memory frame symbols capacity e fits built =
      simp (e, fits, built, modulate_symbols_ex)

  -- For a modulator set up for a MODCOD of the table with a generic stream, user data of at most `dfl`
  -- bits, room for a frame and all memory asked for: `dvbs2x_modulate_symbols_ex` succeeds
  -- with the length of the set's frame, it sends a BB frame of k_bch bits, and `dvbs2x_bb_frame_parse_ex` of that BB frame gives
  -- the user data and its length.
  pub modulate_symbols_ex_lem :
      (i : ℕ) (tx : Modulator) (low user memory out : List ℕ) (symbols : List (Complex A))
      (capacity : ℕ) {mc : Modcod}
      → get_modcod i ≡ some mc
      → IsModulator tx mc low
      → tx.bb_ctx ≡ bb_frame_init mc gs
      → length user ≤ tx.bb_ctx.dfl
      → length memory ≡ mc.k_bch
      → length user ≤ length out
      → frame_symbols mc.vlsnr_set ≤ capacity
      → (frame : List ℕ) × (sent : Modulated A) × (modulate_symbols_ex ops pilot true all_given tx
            user memory symbols capacity
          ≡ some sent)
        × (modulate_bbframe_symbols_ex ops pilot all_given (with_ro tx) frame symbols capacity
            ≡ some sent)
        × (sent.error ≡ none)
        × (sent.sym_len ≡ frame_symbols mc.vlsnr_set)
        × (length frame ≡ mc.k_bch)
        × (bb_frame_parse_ex (with_ro tx).bb_ctx frame out ≡ record {
          error = none;
          user_data = user ++ drop (length user) out;
          user_len = length user;
        })
  modulate_symbols_ex_lem i tx low user memory out symbols capacity {mc} e v at few size space
        room =
      let (ok, bits) = context-IsGsContext i tx e at in
      let (frame, built, len, parsed) =
        bb_frame_parse_ex-bb_frame_build (with_ro tx).bb_ctx user memory out ok few
          (omega (arith, bits, size)) space in
      let v' : IsModulator (with_ro tx) mc low = record {
        modcod = v.modcod;
        bch = v.bch;
        bch_k = v.bch_k;
        bch_n = v.bch_n;
        ldpc = v.ldpc;
      } in
      let (lay, header, plain, laid, made, header_len, inserted, good, plain_len, extracted, run) =
        modulate_bbframe_symbols_ex_lem ops pilot i (with_ro tx) low frame symbols capacity e v'
          (len ∙ size) room in
      let fits : ltb tx.bb_ctx.dfl (length user) ≡ false = ground (arith, few) in
      (
        frame,
        _,
        modulate_symbols_ex-passes tx mc user memory frame symbols capacity v.modcod fits built
            ∙ run,
        run,
        refl,
        refl,
        len ∙ size,
        parsed,
      )
