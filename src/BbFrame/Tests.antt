-- ===== src/BbFrame/Tests.antt =====
-- A frame of eight data bits.
use open_vlsnr.Prelude.{ℕ, ◌≡◌, ◌≢◌, refl, none, List, [], ◌∷◌, ◌++◌, arith, length, replicate}
use open_vlsnr.BbFrame.{BbFrameCtx, gs, bb_frame_build, bb_frame_parse_ex, bb_crc8}
use open_vlsnr.BbFrame.Crc8.{bb_crc8_detects}
use open_vlsnr.BbFrame.RoundTrip.{IsGsContext, bb_frame_parse_ex-bb_frame_build}

abbrev small_ctx : BbFrameCtx
small_ctx = record { k_bch = 88; stream_type = gs; upl = 0; dfl = 8; ro = 2 }

small_ctx-IsGsContext : IsGsContext small_ctx
small_ctx-IsGsContext = record {
  generic = refl;
  no_packets = refl;
  capacity = refl;
  fits = omega arith;
}

abbrev user : List ℕ
user = 1 ∷ 0 ∷ 1 ∷ 1 ∷ []

bb_frame_parse_ex-bb_frame_build_example :
    (frame : List ℕ) × (bb_frame_build small_ctx user (replicate 90 0) ≡ (none, frame))
    × (length frame ≡ 90)
    × (bb_frame_parse_ex small_ctx frame (7 ∷ 7 ∷ 7 ∷ 7 ∷ 7 ∷ [])
        ≡ record { error = none; user_data = user ++ (7 ∷ []); user_len = 4 })
bb_frame_parse_ex-bb_frame_build_example =
    bb_frame_parse_ex-bb_frame_build small_ctx user (replicate 90 0) (7 ∷ 7 ∷ 7 ∷ 7 ∷ 7 ∷ [])
      small_ctx-IsGsContext (omega arith) (omega arith) (omega arith)

bb_crc8_detects_example : bb_crc8 (1 ∷ 2 ∷ 3 ∷ []) ≢ bb_crc8 (1 ∷ 9 ∷ 3 ∷ [])
bb_crc8_detects_example =
    bb_crc8_detects (1 ∷ []) (3 ∷ []) 2 9 (omega arith) (omega arith) (omega arith) (omega arith)
      (omega arith)
