-- ===== src/BbFrame/RoundTrip.antt =====
-- src/bb_frame.c: `dvbs2x_bb_frame_parse_ex` on what `dvbs2x_bb_frame_build` leaves in memory.
use open_vlsnr.Prelude.{
  ℕ, ◌+◌, ◌-◌, ◌*◌, ◌/◌, ◌^◌, ◌≤◌, ◌<◌, ◌≡◌, refl, sym, ap, ap₂, ◌∙◌, true, false, none, List, [],
  ◌∷◌, ◌++◌, arith, All, All-append, bit_or, bit_and, length, take, drop, replicate, append_assoc,
  take-append, drop-append, length-append, length-replicate, length-drop, write_at_behind, write_at,
  slice, ltb, ◌==◌, ==_iff, ◌&&◌,
}
use open_vlsnr.Bits.{all_below, all_below_sound, bit_or_fields, bit_and_mask}
use open_vlsnr.BbFrame.{
  BbFrameCtx, gs, gs_header, with_crc8, bb_crc8, header_bits, built_frame, bb_frame_build,
  bb_frame_parse_ex, bb_scramble, scramble_from, bb_prbs_init, check_header, read_dfl, byte_at,
  pack_bytes,
}
use open_vlsnr.BbFrame.Crc8.{IsByte, crc8_loop-lt}
use open_vlsnr.BbFrame.Prbs.{scramble_from_involutive, length-scramble_from}
use open_vlsnr.BbFrame.HeaderBits.{pack_bytes-header_bits, length-header_bits}

-- A context for a generic stream, as `dvbs2x_bb_frame_init` sets it up.
pub record IsGsContext (ctx : BbFrameCtx) : Type 0 where
  pub generic : ctx.stream_type ≡ gs
  pub no_packets : ctx.upl ≡ 0
  pub capacity : ctx.k_bch ≡ 80 + ctx.dfl
  pub fits : ctx.k_bch ≤ 64800

ro_table : all_below 4 (λ r. bit_and (bit_or 0x70 r) 0xC0 == 0x40 && ltb (bit_or 0x70 r) 256) ≡ true
unfolding all_below
ro_table = refl

ro_checked :
    (ro : ℕ)
    → ((bit_and (bit_or 0x70 (bit_and ro 0x03)) 0xC0 == 0x40) ≡ true)
      × (bit_or 0x70 (bit_and ro 0x03) < 256)
ro_checked ro =
    let low : bit_and ro 3 < 4 = omega (arith, bit_and_mask 2 ro) in
    let found = all_below_sound 4 _ (bit_and ro 3) ro_table low in
    (ground (arith, found), ground (arith, found))

-- The parser, once what it reads on its way is known.
parse_of :
    (ctx : BbFrameCtx) (bbframe out bits bytes user : List ℕ)
    → ctx.k_bch ≤ 64800
    → scramble_from bb_prbs_init (take ctx.k_bch bbframe) ≡ bits
    → pack_bytes 10 bits ≡ bytes
    → check_header bytes ≡ none
    → read_dfl ctx bytes ≡ length user
    → length user ≤ length out
    → slice 80 (length user) bits ≡ user
    → bb_frame_parse_ex ctx bbframe out
      ≡ record { error = none; user_data = user ++ drop (length user) out; user_len = length user }
unfolding bb_frame_parse_ex
parse_of ctx bbframe out bits bytes user fits b1 b2 accepted len room read =
    let in_range : ltb 64800 ctx.k_bch ≡ false = ground arith in
    let enough : ltb (length out) (length user) ≡ false = ground arith in
    let from_start : 0 + length user ≡ length user = omega arith in
    simp (in_range, b1, b2, accepted, len, enough, read, from_start)

module _ (ctx : BbFrameCtx) (n : ℕ) where
  abbrev header : List ℕ
  header = gs_header ctx n

  header-IsByte : All IsByte header
  unfolding gs_header
  header-IsByte = omega (
    arith,
    ro_checked ctx.ro,
    bit_and_mask 8 (ctx.upl / 256),
    bit_and_mask 8 ctx.upl,
    bit_and_mask 8 (n / 256),
    bit_and_mask 8 n,
  )

  full_header-IsByte : All IsByte (with_crc8 header)
  unfolding with_crc8
  full_header-IsByte =
      All-append IsByte header (bb_crc8 header ∷ []) header-IsByte
        (unfold bb_crc8 in crc8_loop-lt 0 header (omega arith) header-IsByte, tt)

  length-full_header : length (with_crc8 header) ≡ 10
  unfolding with_crc8 gs_header
  length-full_header = refl

  header_accepted : ctx.upl ≡ 0 → check_header (with_crc8 header) ≡ none
  unfolding check_header with_crc8 gs_header byte_at
  header_accepted e =
      let same : (bb_crc8 header == bb_crc8 header) ≡ true = (==_iff _ _).1 refl in
      let (matype, below) = ro_checked ctx.ro in rw (same, e, matype)

  header_length_field : n ≤ ctx.dfl → IsGsContext ctx → read_dfl ctx (with_crc8 header) ≡ n
  unfolding read_dfl with_crc8 gs_header byte_at
  header_length_field room ok =
      let word : bit_or (bit_and (n / 256) 0xFF * 2 ^ 8) (bit_and n 0xFF) ≡ n = omega (
        arith,
        ok.fits,
        ok.capacity,
        bit_and_mask 8 (n / 256),
        bit_and_mask 8 n,
        bit_or_fields 8 (bit_and (n / 256) 0xFF) (bit_and n 0xFF) (omega (arith, bit_and_mask 8 n)),
      ) in
      ground (arith, word, ok.fits, ok.capacity)

module _ (ctx : BbFrameCtx) (user : List ℕ) where
  -- The frame before scrambling: header, data and padding.
  abbrev pub plain : List ℕ
  plain =
      header_bits (with_crc8 (header ctx (length user)))
      ++ (user ++ replicate (ctx.dfl - length user) 0)

  pub length-plain : IsGsContext ctx → length user ≤ ctx.dfl → length plain ≡ ctx.k_bch
  length-plain ok room =
      let hb = header_bits (with_crc8 (header ctx (length user))) in
      omega (
        arith,
        ok.capacity,
        length-append hb (user ++ replicate (ctx.dfl - length user) 0),
        length-append user (replicate (ctx.dfl - length user) 0),
        length-replicate {A = ℕ} (ctx.dfl - length user) 0,
        length-header_bits (with_crc8 (header ctx (length user))),
        length-full_header ctx (length user),
      )

  user_read : slice 80 (length user) plain ≡ user
  user_read =
      let hb = header_bits (with_crc8 (header ctx (length user))) in
      let padding : List ℕ = replicate (ctx.dfl - length user) 0 in
      ap (take (length user)) (
        drop-append 80 hb (user ++ padding) (
          omega (
            arith,
            length-header_bits (with_crc8 (header ctx (length user))),
            length-full_header ctx (length user),
          )))
      ∙ take-append (length user) user padding refl

  header_read : pack_bytes 10 plain ≡ with_crc8 (header ctx (length user))
  header_read =
      let full = with_crc8 (header ctx (length user)) in
      ap (λ (k : ℕ). pack_bytes k plain) (sym (length-full_header ctx (length user)))
      ∙ pack_bytes-header_bits full (user ++ replicate (ctx.dfl - length user) 0)
          (full_header-IsByte ctx (length user))

  -- What the parser reads from the scrambled frame, whatever follows it in the memory.
  parse-scrambled :
      (rest out : List ℕ)
      → IsGsContext ctx
      → length user ≤ ctx.dfl
      → length user ≤ length out
      → bb_frame_parse_ex ctx (scramble_from bb_prbs_init plain ++ rest) out ≡ record {
        error = none;
        user_data = user ++ drop (length user) out;
        user_len = length user;
      }
  parse-scrambled rest out ok room room' =
      parse_of ctx (scramble_from bb_prbs_init plain ++ rest) out plain
        (with_crc8 (header ctx (length user))) user ok.fits
        (ap (scramble_from bb_prbs_init) (
            take-append ctx.k_bch (scramble_from bb_prbs_init plain) rest
              (length-scramble_from bb_prbs_init plain ∙ length-plain ok room))
          ∙ scramble_from_involutive bb_prbs_init plain)
        header_read (header_accepted ctx (length user) ok.no_packets)
        (header_length_field ctx (length user) room ok) room' user_read

  -- What follows the frame in the memory that it is built in.
  abbrev pub behind : List ℕ → List ℕ
  behind bbframe = drop (ctx.dfl - length user) (drop (length user) (drop 80 bbframe))

  written :
      (bbframe : List ℕ)
      → write_at
          (write_at
            (write_at bbframe 0 (header_bits (with_crc8 (header ctx (length user)))))
            80
            user)
          (80 + length user)
          (replicate (ctx.dfl - length user) 0)
        ≡ plain ++ behind bbframe
  written bbframe =
      let hb = header_bits (with_crc8 (header ctx (length user))) in
      let zeros : List ℕ = replicate (ctx.dfl - length user) 0 in
      let after = drop (length user) (drop 80 bbframe) in
      let eighty : length hb ≡ 80 = omega (
        arith,
        length-header_bits (with_crc8 (header ctx (length user))),
        length-full_header ctx (length user),
      ) in
      let start : 0 + length hb ≡ 80 = omega (arith, eighty) in
      let behind_user : length (hb ++ user) ≡ 80 + length user =
        omega (arith, eighty, length-append hb user) in
      ap (λ t. write_at (write_at (hb ++ t) 80 user) (80 + length user) zeros)
        (ap (λ (k : ℕ). drop k bbframe) start)
      ∙ ap (λ t. write_at t (80 + length user) zeros)
          (write_at_behind hb (drop 80 bbframe) user 80 eighty)
      ∙ write_at_behind (hb ++ user) after zeros (80 + length user) behind_user
      ∙ ap₂ (λ a b. a ++ b) (append_assoc hb user zeros)
          (ap (λ (k : ℕ). drop k after) (length-replicate {A = ℕ} (ctx.dfl - length user) 0))

  -- The built memory is the scrambled frame and what stood behind it.
  pub built_frame_lem :
      (bbframe : List ℕ)
      → IsGsContext ctx
      → length user ≤ ctx.dfl
      → built_frame ctx user bbframe ≡ scramble_from bb_prbs_init plain ++ behind bbframe
  unfolding built_frame bb_scramble
  built_frame_lem bbframe ok room =
      ap (λ t. scramble_from bb_prbs_init (take ctx.k_bch t) ++ drop ctx.k_bch t) (written bbframe)
      ∙ ap₂ (λ a b. scramble_from bb_prbs_init a ++ b)
          (take-append ctx.k_bch plain (behind bbframe) (length-plain ok room))
          (drop-append ctx.k_bch plain (behind bbframe) (length-plain ok room))

-- Data of at most `dfl` bits is accepted, the memory of the frame keeps its length, and parsing
-- the frame gives back the data and its length, and leaves the rest of the output alone.
pub bb_frame_parse_ex-bb_frame_build :
    (ctx : BbFrameCtx) (user bbframe out : List ℕ)
    → IsGsContext ctx
    → length user ≤ ctx.dfl
    → ctx.k_bch ≤ length bbframe
    → length user ≤ length out
    → (frame : List ℕ) × (bb_frame_build ctx user bbframe ≡ (none, frame))
      × (length frame ≡ length bbframe)
      × (bb_frame_parse_ex ctx frame out ≡ record {
        error = none;
        user_data = user ++ drop (length user) out;
        user_len = length user;
      })
unfolding bb_frame_build
bb_frame_parse_ex-bb_frame_build ctx user bbframe out ok room space room' =
    let built = built_frame_lem ctx user bbframe ok room in
    let fits : ltb ctx.dfl (length user) ≡ false = ground arith in
    (
      built_frame ctx user bbframe,
      rw (ok.generic, fits),
      omega (
        arith,
        ok.capacity,
        ap length built,
        length-append (scramble_from bb_prbs_init (plain ctx user)) (behind ctx user bbframe),
        length-scramble_from bb_prbs_init (plain ctx user),
        length-plain ctx user ok room,
        length-drop (ctx.dfl - length user) (drop (length user) (drop 80 bbframe)),
        length-drop (length user) (drop 80 bbframe),
        length-drop 80 bbframe,
      ),
      rw built (parse-scrambled ctx user (behind ctx user bbframe) out ok room room'),
    )
