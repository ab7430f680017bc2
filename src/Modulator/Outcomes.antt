-- ===== src/Modulator/Outcomes.antt =====
-- The outcomes of `dvbs2x_modulate_bbframe_symbols_ex` (src/modulator_top.c).
use open_vlsnr.Prelude.{
  ℕ, ◌+◌, ◌≤◌, ◌<◌, ◌≡◌, ◌⊎◌, inl, inr, refl, sym, ◌∙◌, Bool, true, false, not, ◌&&◌, ◌||◌,
  Bool-cases, Option, none, some, List, length, arith, ltb, ◌==◌, if◌then◌else◌,
}
use open_vlsnr.Types.{Modcod, Error, nomem, short}
use open_vlsnr.Modcod.{get_modcod}
use open_vlsnr.Layout.Geometry.{frame_symbols, build_layout-IsLayoutOf, build_layout_nomem}
use open_vlsnr.Scrambler.{Complex}
use open_vlsnr.Mapping.{Doubles}
use open_vlsnr.Modulator.{
  Modulator, Modulated, FrameMemory, all_given, symbol_memory, is_qpsk, num_tx_sym, hdr_len,
  send_frame, modulate_bbframe_symbols_ex,
}
use open_vlsnr.Modulator.Frame.{
  IsModulator, counts, modulate_passes, modulate_bbframe_symbols_ex_lem,
}

-- The memory that a frame of a MODCOD takes: that of the coding, the layout and the symbols, and
-- for spread BPSK that of the doubled bits.
pub record IsEnough (mc : Modcod) (given : FrameMemory) : Type 0 where
  pub bch_out : given.bch_out ≡ true
  pub ldpc_info : given.ldpc_info ≡ true
  pub ldpc_cw : given.ldpc_cw ≡ true
  pub tx_bits : given.tx_bits ≡ true
  pub is_pilot : given.is_pilot ≡ true
  pub tx_sym : given.tx_sym ≡ true
  pub spread_bits : is_qpsk mc.modulation ≡ false → mc.has_spread ≡ true → given.spread_bits ≡ true

true_cases : (b : Bool) → (b ≡ true) ⊎ ((b ≡ false) × ¬ (b ≡ true))
true_cases true = inl refl
true_cases false = inr (refl, λ h. absurd cc)

-- The four tests of the memory for the coding.
coding_cases :
    (a b c d : Bool)
    → let missing = not a || (not b || (not c || not d)) in
      ((missing ≡ false) × (a ≡ true) × (b ≡ true) × (c ≡ true) × (d ≡ true))
      ⊎ ((missing ≡ true) × (a ≡ true → b ≡ true → c ≡ true → d ≡ true → ⊥))
coding_cases false b c d = inr (refl, λ h _ _ _. absurd cc)
coding_cases true false c d = inr (refl, λ _ h _ _. absurd cc)
coding_cases true true false d = inr (refl, λ _ _ h _. absurd cc)
coding_cases true true true false = inr (refl, λ _ _ _ h. absurd cc)
coding_cases true true true true = inl (refl, refl, refl, refl, refl)

-- The tests of the memory for the symbols: `sym` for those, `bits` for the doubled bits.
symbols_cases :
    (qpsk spread bits sym : Bool)
    → let given = if qpsk then sym else if spread then bits && sym else sym in
      ((given ≡ true) × (sym ≡ true) × (qpsk ≡ false → spread ≡ true → bits ≡ true))
      ⊎ ((given ≡ false) × (sym ≡ true → (qpsk ≡ false → spread ≡ true → bits ≡ true) → ⊥))
symbols_cases true spread bits true = inl (refl, refl, λ h _. absurd cc)
symbols_cases true spread bits false = inr (refl, λ h _. absurd cc)
symbols_cases false true true true = inl (refl, refl, λ _ _. refl)
symbols_cases false true false true = inr (refl, λ _ h. let e = h refl refl in absurd cc)
symbols_cases false true true false = inr (refl, λ h _. absurd cc)
symbols_cases false true false false = inr (refl, λ h _. absurd cc)
symbols_cases false false bits true = inl (refl, refl, λ _ h. absurd cc)
symbols_cases false false bits false = inr (refl, λ h _. absurd cc)

module _ {ℓ} {A : Type ℓ} (ops : Doubles A) (pilot : Complex A) where
  -- The result of a call that failed with `*sym_len` set to `len`.
  abbrev pub failure : Modulator → List (Complex A) → Error → ℕ → Option (Modulated A)
  failure tx symbols e len =
      some (record { error = some e; sym_len = len; symbols = symbols; modulator = tx })

  -- With enough memory and room, the frame of a call that has all memory.
  abbrev pub IsSent :
      Modcod
      → FrameMemory
      → Modulator
      → List ℕ
      → List (Complex A)
      → ℕ
      → Option (Modulated A)
      → Type ℓ
  IsSent mc given tx bbframe symbols capacity out =
      IsEnough mc given
      × (frame_symbols mc.vlsnr_set ≤ capacity)
      × (sent : Modulated A) × (out ≡ some sent)
      × (modulate_bbframe_symbols_ex ops pilot all_given tx bbframe symbols capacity ≡ some sent)
      × (sent.error ≡ none)
      × (sent.sym_len ≡ frame_symbols mc.vlsnr_set)

  -- With enough memory and too little room, the error for that, with the length of the frame.
  abbrev pub IsTooLong :
      Modcod → FrameMemory → Modulator → List (Complex A) → ℕ → Option (Modulated A) → Type ℓ
  IsTooLong mc given tx symbols capacity out =
      IsEnough mc given
      × (capacity < frame_symbols mc.vlsnr_set)
      × (out ≡ failure tx symbols short (frame_symbols mc.vlsnr_set))

  -- Without enough memory, the error for that.
  abbrev pub IsOutOfMemory :
      Modcod → FrameMemory → Modulator → List (Complex A) → Option (Modulated A) → Type ℓ
  IsOutOfMemory mc given tx symbols out = (¬ IsEnough mc given) × (out ≡ failure tx symbols nomem 0)

  module _ (i : ℕ) (given : FrameMemory) (tx : Modulator) (low bbframe : List ℕ)
      (symbols : List (Complex A)) (capacity : ℕ) {mc : Modcod} (e : get_modcod i ≡ some mc)
      (v : IsModulator tx mc low) (size : length bbframe ≡ mc.k_bch) where
    -- With enough memory, the room decides.
    enough_cases :
        (enough : IsEnough mc given)
        → (not given.bch_out || (not given.ldpc_info || (not given.ldpc_cw || not given.tx_bits)))
          ≡ false
        → symbol_memory mc given ≡ true
        → let out = modulate_bbframe_symbols_ex ops pilot given tx bbframe symbols capacity in
          IsSent mc given tx bbframe symbols capacity out
          ⊎ IsTooLong mc given tx symbols capacity out
    unfolding modulate_bbframe_symbols_ex send_frame
    enough_cases enough coding memory =
        let (lay, built, good) = build_layout-IsLayoutOf i e in
        let (sent, mapped) = counts i e in
        let at = v.modcod in
        let map = enough.is_pilot in
        let frame : hdr_len + lay.field_len ≡ frame_symbols mc.vlsnr_set = good.frame in
        let same : (num_tx_sym mc == lay.num_data) ≡ true = ground (arith, sent, good.payload) in
        elim (Bool-cases (ltb capacity (frame_symbols mc.vlsnr_set))) [
          | inl full ↦ inr (
            enough,
            ground (arith, full),
            simp (
              at, coding, map, built, memory, same, frame, full, modulate_bbframe_symbols_ex,
              send_frame,
            ),
          )
          | inr room ↦
              let fits : frame_symbols mc.vlsnr_set ≤ capacity = ground (arith, room) in
              let fits' : ltb capacity (hdr_len + lay.field_len) ≡ false =
                ground (arith, frame, fits) in
              let (
                lay', header, plain, built', made, header_len, inserted, good', len, extracted, run,
              ) =
                modulate_bbframe_symbols_ex_lem ops pilot i tx low bbframe symbols capacity e v size
                  fits in
              let passes =
                modulate_passes ops pilot tx mc lay bbframe symbols capacity at built same fits' in
              inl (
                enough,
                fits,
                _,
                (simp (
                  at, coding, map, built, memory, same, fits', modulate_bbframe_symbols_ex,
                  send_frame,
                ))
                    ∙ sym passes
                    ∙ run,
                run,
                refl,
                refl,
              )
        ]

    without_layout :
        (not given.bch_out || (not given.ldpc_info || (not given.ldpc_cw || not given.tx_bits)))
          ≡ false
        → given.is_pilot ≡ false
        → modulate_bbframe_symbols_ex ops pilot given tx bbframe symbols capacity
          ≡ failure tx symbols nomem 0
    unfolding modulate_bbframe_symbols_ex
    without_layout coding map =
        let at = v.modcod in
        let missing = build_layout_nomem mc in
        simp (at, coding, map, missing, modulate_bbframe_symbols_ex)

    without_symbols :
        (not given.bch_out || (not given.ldpc_info || (not given.ldpc_cw || not given.tx_bits)))
          ≡ false
        → given.is_pilot ≡ true
        → symbol_memory mc given ≡ false
        → modulate_bbframe_symbols_ex ops pilot given tx bbframe symbols capacity
          ≡ failure tx symbols nomem 0
    unfolding modulate_bbframe_symbols_ex send_frame
    without_symbols coding map memory =
        let (lay, built, good) = build_layout-IsLayoutOf i e in
        let at = v.modcod in
        simp (at, coding, map, built, memory, modulate_bbframe_symbols_ex, send_frame)

    -- For a modulator set up for a MODCOD of the table and a BB frame of k_bch bits, whichever calls of
    -- malloc give their memory and whatever the room: dvbs2x_modulate_bbframe_symbols_ex sends the
    -- frame that it sends with all memory, with no error and the length of the set's frame, exactly
    -- when the memory that the MODCOD takes is there and the room is enough. With that memory and
    -- too little room it tells the error for room and the length of the frame, without that memory
    -- the error for memory and the length 0; then the output and the modulator are as before.
    pub modulate_bbframe_symbols_ex_cases :
        let out = modulate_bbframe_symbols_ex ops pilot given tx bbframe symbols capacity in
        IsSent mc given tx bbframe symbols capacity out
        ⊎ (IsTooLong mc given tx symbols capacity out ⊎ IsOutOfMemory mc given tx symbols out)
    unfolding modulate_bbframe_symbols_ex symbol_memory
    modulate_bbframe_symbols_ex_cases =
        elim (coding_cases given.bch_out given.ldpc_info given.ldpc_cw given.tx_bits) [
          | inr (missing, lacks) ↦
              let at = v.modcod in
              inr (
                inr (
                  λ v'. lacks v'.bch_out v'.ldpc_info v'.ldpc_cw v'.tx_bits,
                  simp (at, missing, modulate_bbframe_symbols_ex),
                ))
          | inl (coding, bch, info, cw, bits) ↦ elim (true_cases given.is_pilot) [
            | inr (missing, lacks) ↦
                inr (inr (λ v'. lacks v'.is_pilot, without_layout coding missing))
            | inl map ↦
                elim (symbols_cases (is_qpsk mc.modulation) mc.has_spread given.spread_bits
                  given.tx_sym) [
                    | inr (missing, lacks) ↦ inr (
                        inr (
                          λ v'. lacks v'.tx_sym v'.spread_bits,
                          without_symbols coding map missing,
                        ))
                    | inl (memory, syms, doubled) ↦
                        elim (enough_cases
                          (record {
                            bch_out = bch;
                            ldpc_info = info;
                            ldpc_cw = cw;
                            tx_bits = bits;
                            is_pilot = map;
                            tx_sym = syms;
                            spread_bits = doubled;
                          })
                          coding memory) [ inl sent ↦ inl sent | inr long ↦ inr (inl long) ]
                  ]
          ]
        ]
