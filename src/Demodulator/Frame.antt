-- ===== src/Demodulator/Frame.antt =====
-- The receiver of src/demodulator_top.c on a frame of src/modulator_top.c.
use open_vlsnr.Prelude.{
  ℕ, ◌-◌, ◌≤◌, ◌≡◌, refl, sym, ap, ◌∙◌, Bool, true, false, none, some, List, ◌++◌, arith, length,
  take, drop, replicate, slice, map, get_or, length-append, length-map, take_all, take-append,
  drop-append, All, append_assoc,
}
use open_vlsnr.Bits.Binary.{IsBinary}
use open_vlsnr.Types.{Modcod, tx_coded_bits}
use open_vlsnr.Modcod.{get_modcod}
use open_vlsnr.Layout.{VlsnrLayout, build_layout}
use open_vlsnr.Layout.Geometry.{frame_symbols}
use open_vlsnr.Layout.Count.{count_pilots}
use open_vlsnr.Pilot.{pilot_extract}
use open_vlsnr.Scrambler.{Scrambler, Complex, init, reset, seek, scramble_field, descramble_field}
use open_vlsnr.Scrambler.RoundTrip.{descramble_field-scramble_field, length-scramble_field}
use open_vlsnr.Ldpc.{ldpc_encode}
use open_vlsnr.Mapping.{Doubles, map_bits, demap_symbols, deinterleave}
use open_vlsnr.Mapping.RoundTrip.{SignLaws, hard, demap_symbols-map_bits}
use open_vlsnr.Puncture.{full_llr}
use open_vlsnr.Puncture.RoundTrip.{marked, full_llr-sent_bits}
use open_vlsnr.Puncture.Values.{map-full_llr, map-identity}
use open_vlsnr.PlHeader.{plheader_generate}
use open_vlsnr.PlHeader.Distance.{length-plheader_generate}
use open_vlsnr.Modulator.{
  all_given, Modulator, Modulated, is_qpsk, ldpc_info, tx_bits, modulate_bbframe_symbols_ex,
}
use open_vlsnr.Modulator.Frame.{
  IsModulator, length-tx_bits, tx_bits-IsBinary, codeword_lem, modulate_bbframe_symbols_ex_lem,
}
use open_vlsnr.Demodulator.{descramble_data, field_llr}

-- The data field behind two headers.
field_place {ℓ} :
    {A : Type ℓ} (front header field rest : List A)
    → length front ≡ 90
    → length header ≡ 900
    → slice 990 (length field) (front ++ (header ++ (field ++ rest))) ≡ field
field_place {A = A} front header field rest h k =
    let size : length (front ++ header) ≡ 990 = omega (arith, length-append front header, h, k) in
    ap (λ (t : List A). take (length field) (drop 990 t))
      (sym (append_assoc front header (field ++ rest)))
    ∙ ap (λ (t : List A). take (length field) t)
        (drop-append 990 (front ++ header) (field ++ rest) size)
    ∙ take-append (length field) field rest refl

module _ {ℓ} {A : Type ℓ} (ops : Doubles A) (is_negative : A → Bool)
    (bpsk_scale qpsk_scale certain erased : A) (Positive : A → Type ℓ)
    (laws : SignLaws ops is_negative bpsk_scale qpsk_scale Positive) where
  -- The decisions on the soft values of a plain field that carries the bits of a frame.
  field_llr_lem :
      (i : ℕ) (tx : Modulator) (low bbframe : List ℕ) (lay : VlsnrLayout)
      (pilots field : List (Complex A)) {mc : Modcod}
      → get_modcod i ≡ some mc
      → IsModulator tx mc low
      → length bbframe ≡ mc.k_bch
      → All IsBinary bbframe
      → pilot_extract field lay.is_pilot ≡ some (map_bits ops mc (tx_bits tx mc bbframe), pilots)
      → (llr : List A) × (field_llr ops bpsk_scale qpsk_scale certain erased mc lay field
          ≡ some llr)
        × (let codeword = ldpc_encode tx.ldpc_enc (ldpc_info tx mc bbframe) in
            map (hard is_negative) llr
            ≡ replicate mc.xs (hard is_negative certain)
              ++ (take (mc.k_ldpc - mc.xs) (drop mc.xs codeword)
                  ++ marked
                      (hard is_negative erased)
                      (λ (b : ℕ). b)
                      mc.xp
                      mc.p_period
                      0
                      (drop mc.k_ldpc codeword)))
  unfolding field_llr deinterleave tx_bits
  field_llr_lem i tx low bbframe lay pilots field {mc} e v size bits extracted =
      let word = ldpc_encode tx.ldpc_enc (ldpc_info tx mc bbframe) in
      let sent = tx_bits tx mc bbframe in
      let soft = demap_symbols ops mc bpsk_scale qpsk_scale (map_bits ops mc sent) in
      let count = length-tx_bits i tx low bbframe e v size in
      let decided : map (hard is_negative) soft ≡ sent =
        demap_symbols-map_bits ops is_negative bpsk_scale qpsk_scale Positive laws i sent e count
          (tx_bits-IsBinary tx mc bbframe bits) in
      let soft_len : length soft ≡ tx_coded_bits mc =
        sym (length-map soft (hard is_negative)) ∙ ap (λ (t : List ℕ). length t) decided ∙ count in
      let whole : take (tx_coded_bits mc) soft ≡ soft = take_all (tx_coded_bits mc) soft soft_len in
      let (number, values) =
        full_llr-sent_bits (hard is_negative certain) (hard is_negative erased) (λ (b : ℕ). b) i
          word e (codeword_lem i tx low bbframe e v size) in
      (
        full_llr certain erased mc soft,
        simp (extracted, whole, field_llr, deinterleave),
        map-full_llr (hard is_negative) certain erased mc soft
            ∙ ap (full_llr (hard is_negative certain) (hard is_negative erased) mc)
                (decided ∙ sym (map-identity sent))
            ∙ values
            ∙ ap
                (λ (t : List ℕ).
                  replicate mc.xs (hard is_negative certain)
                  ++ (t
                      ++ marked (hard is_negative erased) (λ (b : ℕ). b) mc.xp mc.p_period 0
                          (drop mc.k_ldpc word)))
                (map-identity (take (mc.k_ldpc - mc.xs) (drop mc.xs word))),
      )

  -- For every MODCOD of the table: what `dvbs2x_modulate_bbframe_symbols_ex` writes for a BB frame, when
  -- no noise is added and the data field is found at its place, a receiver with the same Gold code
  -- descrambles and demaps with no read out of range, and the signs of its soft values are the
  -- bits of the LDPC codeword, but at the shortening zeros and at the punctured parity bits, where
  -- they are those of the two fixed values.
  pub field_llr-modulate_bbframe_symbols_ex :
      (neg-neg : (a : A) → ops.neg (ops.neg a) ≡ a) (pilot : Complex A) (i : ℕ) (tx : Modulator)
      (low bbframe : List ℕ) (symbols : List (Complex A)) (capacity : ℕ) (rx : Scrambler)
      {mc : Modcod}
      → get_modcod i ≡ some mc
      → IsModulator tx mc low
      → length bbframe ≡ mc.k_bch
      → All IsBinary bbframe
      → frame_symbols mc.vlsnr_set ≤ capacity
      → rx.gold_idx ≡ tx.scrambler.gold_idx
      → (out : Modulated A) × (lay : VlsnrLayout) × (llr : List A) × (modulate_bbframe_symbols_ex
            ops pilot all_given tx bbframe symbols capacity
          ≡ some out)
        × (out.error ≡ none)
        × (build_layout mc true ≡ some lay)
        × (field_llr ops bpsk_scale qpsk_scale certain erased mc lay
              (descramble_data ops mc lay rx (slice 990 lay.field_len out.symbols)).1
            ≡ some llr)
        × (let codeword = ldpc_encode tx.ldpc_enc (ldpc_info tx mc bbframe) in
            map (hard is_negative) llr
            ≡ replicate mc.xs (hard is_negative certain)
              ++ (take (mc.k_ldpc - mc.xs) (drop mc.xs codeword)
                  ++ marked
                      (hard is_negative erased)
                      (λ (b : ℕ). b)
                      mc.xp
                      mc.p_period
                      0
                      (drop mc.k_ldpc codeword)))
  unfolding descramble_data reset
  field_llr-modulate_bbframe_symbols_ex neg-neg pilot i tx low bbframe symbols capacity rx {mc} e v
        size bits room same =
      let (lay, header, plain, built, made, header_len, inserted, good, len, extracted, run) =
        modulate_bbframe_symbols_ex_lem ops pilot i tx low bbframe symbols capacity e v size room in
      let four : ℕ → Bool = λ n. get_or lay.is_pilot n false in
      let start = seek 900 (reset tx.scrambler) in
      let field = (scramble_field ops.neg (is_qpsk mc.modulation) (some four) 0 start plain).1 in
      let rest = drop (frame_symbols mc.vlsnr_set) symbols in
      let pl = plheader_generate ops mc.pls_code in
      let size_field : length field ≡ lay.field_len =
        length-scramble_field ops.neg neg-neg (is_qpsk mc.modulation) (some four) 0 start plain
        ∙ len in
      let place : slice 990 lay.field_len (pl ++ (header ++ (field ++ rest))) ≡ field =
        ap (λ (n : ℕ). slice 990 n (pl ++ (header ++ (field ++ rest)))) (sym size_field)
        ∙ field_place pl header field rest (length-plheader_generate ops mc.pls_code) header_len in
      let back : (descramble_data ops mc lay rx
            (slice 990 lay.field_len (pl ++ (header ++ (field ++ rest))))).1
          ≡ plain =
        ap (λ (t : List (Complex A)). (descramble_data ops mc lay rx t).1) place
        ∙ ap
            (λ (g : ℕ).
              (descramble_field ops.neg (is_qpsk mc.modulation) (some four) 0 (seek 900 (init g))
                field).1)
            same
        ∙ ap (λ t. t.1)
            (descramble_field-scramble_field ops.neg neg-neg (is_qpsk mc.modulation) (some four) 0
              start plain) in
      let (llr, found, decided) =
        field_llr_lem i tx low bbframe lay (replicate (count_pilots lay.is_pilot) pilot) plain e v
          size bits extracted in
      (
        _,
        lay,
        llr,
        run,
        refl,
        built,
        ap (λ (t : List (Complex A)). field_llr ops bpsk_scale qpsk_scale certain erased mc lay t)
              back
            ∙ found,
        decided,
      )
