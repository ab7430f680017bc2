-- ===== src/Modulator/Frame.antt =====
-- src/modulator_top.c for every MODCOD of the table: the set-up and the frame that is written.
use open_vlsnr.Prelude.{
  Bool-cases, inl, inr, ℕ, ◌+◌, ◌-◌, ◌≤◌, ◌≡◌, refl, sym, ap, ◌∙◌, true, false, Option, some, List,
  ◌++◌, arith, length, take, drop, replicate, get_or, length-append, take_all, length-take,
  length-replicate, AllFrom, AllFrom-get_elem?, All, All-append, All-take, All-replicate, ltb, ◌==◌,
}
use open_vlsnr.Bits.Binary.{IsBinary}
use open_vlsnr.Types.{Modcod, tx_coded_bits}
use open_vlsnr.Modcod.{modcod_table, get_modcod}
use open_vlsnr.Modcod.Consistency.{get_modcod_table, get_modcod-IsConsistent}
use open_vlsnr.Layout.{VlsnrLayout, build_layout, payload_symbols}
use open_vlsnr.Layout.Geometry.{frame_symbols, IsLayoutOf, build_layout-IsLayoutOf}
use open_vlsnr.Pilot.{pilot_insert, pilot_extract}
use open_vlsnr.Layout.Count.{count_data, count_pilots, count_data-add-count_pilots}
use open_vlsnr.Pilot.RoundTrip.{pilot_extract-pilot_insert}
use open_vlsnr.Scrambler.{Complex, reset, seek, scramble_field}
use open_vlsnr.Bch.{bch_encode}
use open_vlsnr.Bch.Codeword.{IsBchEncoder, bch_encode-IsMultiple}
use open_vlsnr.Bch.Binary.{bch_encode-IsBinary}
use open_vlsnr.Ldpc.{ldpc_encode}
use open_vlsnr.Ldpc.Codes.{IsEncoderOf}
use open_vlsnr.Ldpc.ParityCheck.{length-ldpc_encode}
use open_vlsnr.Ldpc.Binary.{ldpc_encode-IsBinary}
use open_vlsnr.Mapping.{Doubles, map_bits}
use open_vlsnr.Mapping.Lengths.{symbol_count, length-map_bits}
use open_vlsnr.Puncture.RoundTrip.{full_llr-sent_bits}
use open_vlsnr.Puncture.Values.{All-sent_bits}
use open_vlsnr.PlHeader.{plheader_generate}
use open_vlsnr.VlsnrHeader.{vlsnr_header_generate}
use open_vlsnr.VlsnrHeader.Symbols.{length-vlsnr_header_generate}
use open_vlsnr.Modulator.{
  all_given, symbol_memory, send_frame, Modulator, num_tx_sym, hdr_len, is_qpsk, ldpc_info, tx_bits,
  data_field, header_memory, write_frame, modulate_bbframe_symbols_ex,
}

-- A modulator that is set up for `mc`; `low` is its generator polynomial below the leading 1.
pub record IsModulator (tx : Modulator) (mc : Modcod) (low : List ℕ) : Type 0 where
  pub modcod : tx.modcod ≡ some mc
  pub bch : IsBchEncoder tx.bch_enc low
  pub bch_k : tx.bch_enc.k ≡ mc.k_bch
  pub bch_n : tx.bch_enc.n ≡ mc.n_bch
  pub ldpc : IsEncoderOf mc tx.ldpc_enc

abbrev pub Counts : ℕ → Modcod → Type 0
Counts i mc =
    (num_tx_sym mc ≡ payload_symbols mc)
    × (symbol_count mc.modulation mc.has_spread (tx_coded_bits mc) ≡ payload_symbols mc)

table-Counts : AllFrom Counts 1 modcod_table
table-Counts = omega arith

pub counts : (i : ℕ) {mc : Modcod} → get_modcod i ≡ some mc → Counts i mc
counts i {mc} e =
    AllFrom-get_elem? (λ n mc. Counts i mc) 1 modcod_table (i - 1) table-Counts
      (get_modcod_table i e)

pub length-ldpc_info :
    (tx : Modulator) (mc : Modcod) (low bbframe : List ℕ)
    → IsModulator tx mc low
    → length bbframe ≡ mc.k_bch
    → length (ldpc_info tx mc bbframe) ≡ mc.xs + mc.n_bch
unfolding ldpc_info
length-ldpc_info tx mc low bbframe v size =
    let z : ℕ = 0 in
    let word = bch_encode tx.bch_enc bbframe in
    let (len, front, multiple) =
      bch_encode-IsMultiple tx.bch_enc low bbframe v.bch (size ∙ sym v.bch_k) in
    omega (
      arith,
      length-append (replicate mc.xs z) (take mc.n_bch word),
      length-replicate mc.xs z,
      length-take mc.n_bch word,
      len,
      v.bch_n,
    )

-- The codeword that is sent has the length of the code, and consists of bits.
pub codeword_lem :
    (i : ℕ) (tx : Modulator) (low bbframe : List ℕ) {mc : Modcod}
    → get_modcod i ≡ some mc
    → IsModulator tx mc low
    → length bbframe ≡ mc.k_bch
    → length (ldpc_encode tx.ldpc_enc (ldpc_info tx mc bbframe)) ≡ mc.fec_len
codeword_lem i tx low bbframe {mc} e v size =
    let (at_least, at_most, at, c) = get_modcod-IsConsistent i e in
    let len = length-ldpc_info tx mc low bbframe v size in
    length-ldpc_encode tx.ldpc_enc (ldpc_info tx mc bbframe) v.ldpc.bounded v.ldpc.info
      (omega (arith, len, v.ldpc.bch_codeword, c.effective))
    ∙ v.ldpc.codeword

pub ldpc_info-IsBinary :
    (tx : Modulator) (mc : Modcod) (bbframe : List ℕ)
    → All IsBinary bbframe
    → All IsBinary (ldpc_info tx mc bbframe)
unfolding ldpc_info
ldpc_info-IsBinary tx mc bbframe h =
    let z : ℕ = 0 in
    All-append IsBinary (replicate mc.xs z) _ (All-replicate IsBinary mc.xs z (omega arith))
      (All-take IsBinary mc.n_bch _ (bch_encode-IsBinary tx.bch_enc bbframe h))

pub tx_bits-IsBinary :
    (tx : Modulator) (mc : Modcod) (bbframe : List ℕ)
    → All IsBinary bbframe
    → All IsBinary (tx_bits tx mc bbframe)
unfolding tx_bits
tx_bits-IsBinary tx mc bbframe h =
    All-sent_bits IsBinary mc _
      (ldpc_encode-IsBinary tx.ldpc_enc _ (ldpc_info-IsBinary tx mc bbframe h))

pub length-tx_bits :
    (i : ℕ) (tx : Modulator) (low bbframe : List ℕ) {mc : Modcod}
    → get_modcod i ≡ some mc
    → IsModulator tx mc low
    → length bbframe ≡ mc.k_bch
    → length (tx_bits tx mc bbframe) ≡ tx_coded_bits mc
unfolding tx_bits
length-tx_bits i tx low bbframe e v size =
    let z : ℕ = 0 in
    let (count, values) =
      full_llr-sent_bits z z (λ (b : ℕ). b) i _ e (codeword_lem i tx low bbframe e v size) in
    count

symbol_memory_all : (mc : Modcod) → symbol_memory mc all_given ≡ true
unfolding symbol_memory
symbol_memory_all mc = elim (Bool-cases (is_qpsk mc.modulation)) [
  | inl h ↦ rw h refl
  | inr h ↦ elim (Bool-cases mc.has_spread) [ inl s ↦ rw (h, s) refl | inr s ↦ rw (h, s) refl ]
]

module _ {ℓ} {A : Type ℓ} (ops : Doubles A) (pilot : Complex A) where
  -- The rounds of the checks, when they pass.
  pub modulate_passes :
      (tx : Modulator) (mc : Modcod) (lay : VlsnrLayout) (bbframe : List ℕ)
      (symbols : List (Complex A)) (capacity : ℕ)
      → tx.modcod ≡ some mc
      → build_layout mc true ≡ some lay
      → (num_tx_sym mc == lay.num_data) ≡ true
      → ltb capacity (hdr_len + lay.field_len) ≡ false
      → modulate_bbframe_symbols_ex ops pilot all_given tx bbframe symbols capacity
        ≡ write_frame ops pilot tx mc lay (map_bits ops mc (tx_bits tx mc bbframe)) symbols
  unfolding modulate_bbframe_symbols_ex send_frame
  modulate_passes tx mc lay bbframe symbols capacity e built same fits =
      let memory = symbol_memory_all mc in
      simp (e, built, memory, same, fits, modulate_bbframe_symbols_ex, send_frame)

  write_frame_lem :
      (tx : Modulator) (mc : Modcod) (lay : VlsnrLayout)
      (tx_sym symbols header plain : List (Complex A)) {frame : ℕ}
      → vlsnr_header_generate ops mc ≡ some header
      → pilot_insert pilot tx_sym lay.is_pilot ≡ some plain
      → hdr_len + lay.field_len ≡ frame
      → let (end, field) =
          scramble_field ops.neg
            (is_qpsk mc.modulation)
            (some (λ n. get_or lay.is_pilot n false))
            0
            (seek 900 (reset tx.scrambler))
            plain in
        write_frame ops pilot tx mc lay tx_sym symbols
        ≡ some (record {
          error = Option.none;
          sym_len = frame;
          symbols = plheader_generate ops mc.pls_code ++ (header ++ (field ++ drop frame symbols));
          modulator = record tx { scrambler = end };
        })
  unfolding write_frame data_field
  write_frame_lem tx mc lay tx_sym symbols header plain made inserted size =
      let memory : header_memory ops pilot mc symbols ≡ header = rw (made, header_memory) refl in
      simp (memory, inserted, size, write_frame, data_field)

  -- For a modulator set up for a MODCOD of the table, a BB frame of k_bch bits, room for a frame
  -- and all memory asked for: `dvbs2x_modulate_bbframe_symbols_ex` succeeds and reads nothing out of range. It writes the PL
  -- header of 90 symbols, the VL-SNR header of 900 and the scrambled data field, which is the
  -- mapped bits with the pilots put in between, and which gives them back on extraction, so many
  -- symbols as the set's frame has, and nothing behind them.
  pub modulate_bbframe_symbols_ex_lem :
      (i : ℕ) (tx : Modulator) (low bbframe : List ℕ) (symbols : List (Complex A)) (capacity : ℕ)
      {mc : Modcod}
      → get_modcod i ≡ some mc
      → IsModulator tx mc low
      → length bbframe ≡ mc.k_bch
      → frame_symbols mc.vlsnr_set ≤ capacity
      → (lay : VlsnrLayout) × (header : List (Complex A)) × (plain : List (Complex A))
        × (build_layout mc true ≡ some lay)
        × (vlsnr_header_generate ops mc ≡ some header)
        × (length header ≡ 900)
        × (pilot_insert pilot (map_bits ops mc (tx_bits tx mc bbframe)) lay.is_pilot ≡ some plain)
        × IsLayoutOf mc lay
        × (length plain ≡ lay.field_len)
        × (pilot_extract plain lay.is_pilot
            ≡ some (
              map_bits ops mc (tx_bits tx mc bbframe),
              replicate (count_pilots lay.is_pilot) pilot,
            ))
        × (let (end, field) =
              scramble_field ops.neg
                (is_qpsk mc.modulation)
                (some (λ n. get_or lay.is_pilot n false))
                0
                (seek 900 (reset tx.scrambler))
                plain in
            modulate_bbframe_symbols_ex ops pilot all_given tx bbframe symbols capacity
            ≡ some (record {
              error = Option.none;
              sym_len = frame_symbols mc.vlsnr_set;
              symbols =
                  plheader_generate ops mc.pls_code
                  ++ (header ++ (field ++ drop (frame_symbols mc.vlsnr_set) symbols));
              modulator = record tx { scrambler = end };
            }))
  modulate_bbframe_symbols_ex_lem i tx low bbframe symbols capacity {mc} e v size room =
      let (lay, built, good) = build_layout-IsLayoutOf i e in
      let (sent, mapped) = counts i e in
      let (header, made, header_len) = length-vlsnr_header_generate ops i e in
      let count : length (map_bits ops mc (tx_bits tx mc bbframe)) ≡ lay.num_data =
        length-map_bits ops mc (tx_bits tx mc bbframe)
        ∙ ap (symbol_count mc.modulation mc.has_spread) (length-tx_bits i tx low bbframe e v size)
        ∙ mapped
        ∙ sym good.payload in
      let (plain, inserted, len, extracted) =
        pilot_extract-pilot_insert pilot (map_bits ops mc (tx_bits tx mc bbframe)) lay.is_pilot
          (omega (arith, count, good.data_entries)) in
      let frame : hdr_len + lay.field_len ≡ frame_symbols mc.vlsnr_set = good.frame in
      let same : (num_tx_sym mc == lay.num_data) ≡ true = ground (arith, sent, good.payload) in
      let fits : ltb capacity (hdr_len + lay.field_len) ≡ false = ground (arith, frame, room) in
      (
        lay,
        header,
        plain,
        built,
        made,
        header_len,
        inserted,
        good,
        len
            ∙ omega (
              arith,
              count_data-add-count_pilots lay.is_pilot,
              good.entries,
              good.data_entries,
              good.pilot_entries,
            ),
        extracted
            ∙ ap (λ (t : List (Complex A)). some (t, replicate (count_pilots lay.is_pilot) pilot))
                (take_all (count_data lay.is_pilot) (map_bits ops mc (tx_bits tx mc bbframe))
                  (count ∙ sym good.data_entries)),
        modulate_passes tx mc lay bbframe symbols capacity v.modcod built same fits
            ∙ write_frame_lem tx mc lay (map_bits ops mc (tx_bits tx mc bbframe)) symbols header
                plain made inserted frame,
      )
