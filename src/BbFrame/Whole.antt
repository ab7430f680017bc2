-- ===== src/BbFrame/Whole.antt =====
-- src/bb_frame.c: the bits of a frame that fills its memory, and what reading it depends on.
use open_vlsnr.Prelude.{
  ℕ, ◌-◌, ◌≤◌, ◌≡◌, refl, sym, ◌∙◌, List, [], ◌∷◌, ◌++◌, arith, All, All-append, All-replicate,
  AllFrom, AllFrom-get_elem?, length, take, drop, length-drop, take-append, take_all, some, none,
  Option, ltb, ap, false, Option-cases, inl, inr,
}
use open_vlsnr.Bits.{bit_and_one}
use open_vlsnr.Bits.Binary.{IsBinary, bit_xor-IsBinary}
use open_vlsnr.Types.{Modcod, Error}
use open_vlsnr.Modcod.{modcod_table, get_modcod}
use open_vlsnr.Modcod.Consistency.{get_modcod_table}
use open_vlsnr.BbFrame.{
  BbFrameCtx, gs, byte_bits, header_bits, prbs_bit, prbs_next, scramble_from, bb_prbs_init,
  bb_frame_init, bb_frame_build, bb_frame_parse_ex, built_frame, read_dfl, check_header, pack_bytes,
}
use open_vlsnr.BbFrame.RoundTrip.{IsGsContext, plain, behind, built_frame_lem}

scramble_from-IsBinary :
    (sr : ℕ) (bits : List ℕ) → All IsBinary bits → All IsBinary (scramble_from sr bits)
unfolding scramble_from prbs_bit
scramble_from-IsBinary sr [] h = _
scramble_from-IsBinary sr (b ∷ bits) h = (
  bit_xor-IsBinary b (prbs_bit sr) h.0 (omega (arith, bit_and_one)),
  scramble_from-IsBinary (prbs_next sr) bits h.1,
)

byte_bits-IsBinary : (h : ℕ) → All IsBinary (byte_bits h)
unfolding byte_bits
byte_bits-IsBinary h = omega (arith, bit_and_one)

header_bits-IsBinary : (hs : List ℕ) → All IsBinary (header_bits hs)
unfolding header_bits
header_bits-IsBinary [] = _
header_bits-IsBinary (h ∷ hs) =
    All-append IsBinary (byte_bits h) (header_bits hs) (byte_bits-IsBinary h)
      (header_bits-IsBinary hs)

-- A frame of bits that fills its memory.
built_frame-IsBinary :
    (ctx : BbFrameCtx) (user bbframe : List ℕ)
    → IsGsContext ctx
    → length user ≤ ctx.dfl
    → length bbframe ≡ ctx.k_bch
    → All IsBinary user
    → All IsBinary (built_frame ctx user bbframe)
built_frame-IsBinary ctx user bbframe ok room size bits =
    let word = plain ctx user in
    let zero_bit : IsBinary 0 = omega arith in
    let nothing : behind ctx user bbframe ≡ [] = none_left (behind ctx user bbframe) (
      omega (
        arith,
        ok.capacity,
        size,
        length-drop (ctx.dfl - length user) (drop (length user) (drop 80 bbframe)),
        length-drop (length user) (drop 80 bbframe),
        length-drop 80 bbframe,
      )) in
    rw (built_frame_lem ctx user bbframe ok room, nothing)
      (All-append IsBinary (scramble_from bb_prbs_init word) []
        (scramble_from-IsBinary bb_prbs_init word (
          All-append IsBinary _ _ (header_bits-IsBinary _) (
            All-append IsBinary user _ bits
              (All-replicate IsBinary (ctx.dfl - length user) 0 zero_bit))))
        _)
  where
    none_left : (l : List ℕ) → length l ≡ 0 → l ≡ []
    none_left [] e = refl
    none_left (x ∷ l) e = absurd (omega (arith, e))

pub bb_frame_build-IsBinary :
    (ctx : BbFrameCtx) (user bbframe frame : List ℕ)
    → IsGsContext ctx
    → length user ≤ ctx.dfl
    → length bbframe ≡ ctx.k_bch
    → All IsBinary user
    → bb_frame_build ctx user bbframe ≡ (none, frame)
    → All IsBinary frame
unfolding bb_frame_build
bb_frame_build-IsBinary ctx user bbframe frame ok room size bits made =
    let fits : ltb ctx.dfl (length user) ≡ false = ground arith in
    let whole : bb_frame_build ctx user bbframe ≡ (none, built_frame ctx user bbframe) =
      rw (ok.generic, fits) refl in
    rw (← ap (λ (r : Option Error × List ℕ). r.1) (sym whole ∙ made))
      (built_frame-IsBinary ctx user bbframe ok room size bits)

-- The reader takes the first k_bch bits, and does not look at the roll-off of its own context.
pub bb_frame_parse_ex-prefix :
    (ctx : BbFrameCtx) (ro : ℕ) (frame rest out : List ℕ)
    → length frame ≡ ctx.k_bch
    → bb_frame_parse_ex ctx (frame ++ rest) out
      ≡ bb_frame_parse_ex (record ctx { ro = ro }) frame out
unfolding bb_frame_parse_ex read_dfl
bb_frame_parse_ex-prefix ctx ro frame rest out size =
    let front : take ctx.k_bch (frame ++ rest) ≡ take ctx.k_bch frame =
      take-append ctx.k_bch frame rest size ∙ sym (take_all ctx.k_bch frame size) in
    let bytes = pack_bytes 10 (scramble_from bb_prbs_init (take ctx.k_bch frame)) in
    elim (Option-cases (check_header bytes)) [
      | inl accepted ↦ rw (front, bb_frame_parse_ex) (rw accepted (rw front refl))
      | inr (error, refused) ↦ rw (front, bb_frame_parse_ex) (rw refused refl)
    ]

table_frames : AllFrom (λ i mc. (80 ≤ mc.k_bch) × (mc.k_bch ≤ 64800)) 1 modcod_table
table_frames = omega arith

-- What dvbs2x_bb_frame_init sets up for a MODCOD of the table, with any roll-off.
pub bb_frame_init-IsGsContext :
    (i ro : ℕ) {mc : Modcod}
    → get_modcod i ≡ some mc
    → IsGsContext (record (bb_frame_init mc gs) { ro = ro })
unfolding bb_frame_init
bb_frame_init-IsGsContext i ro e =
    let (least, most) =
      AllFrom-get_elem? (λ i mc. (80 ≤ mc.k_bch) × (mc.k_bch ≤ 64800)) 1 modcod_table (i - 1)
        table_frames (get_modcod_table i e) in
    record { generic = refl; no_packets = refl; capacity = omega (arith, least, most); fits = most }
