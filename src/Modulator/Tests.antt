-- ===== src/Modulator/Tests.antt =====
-- The set-up of a modulator, a frame of it and the errors, with signs in place of doubles.
use open_vlsnr.Prelude.{
  ◌⊎◌, ℕ, ◌≡◌, refl, ap, ◌≤◌, ◌∷◌, true, false, none, some, List, [], ◌++◌, arith, drop, get_or,
  length, replicate,
}
use open_vlsnr.Modcod.{get_modcod, bpsk_1_5_short}
use open_vlsnr.Layout.{VlsnrLayout, build_layout}
use open_vlsnr.Layout.Geometry.{IsLayoutOf}
use open_vlsnr.Layout.Count.{count_pilots}
use open_vlsnr.Pilot.{pilot_insert, pilot_extract}
use open_vlsnr.Scrambler.{Complex, init, reset, seek, scramble_field}
use open_vlsnr.BbFrame.{BbFrameCtx, gs, bb_frame_init, bb_frame_parse_ex}
use open_vlsnr.Mapping.{map_bits}
use open_vlsnr.Mapping.Signs.{Sign, above, signs, opposite}
use open_vlsnr.PlHeader.{plheader_generate}
use open_vlsnr.VlsnrHeader.{vlsnr_header_generate}
use open_vlsnr.Modulator.{
  all_given, FrameMemory, Modulator, modulator_init, modulate_bbframe_symbols_ex,
  modulate_symbols_ex, Modulated, tx_bits,
}
use open_vlsnr.Modulator.Example.{no_addresses, set_up, ones, length-ones}
use open_vlsnr.Modulator.User.{with_ro, modulate_symbols_ex_lem}
use open_vlsnr.Modulator.Frame.{IsModulator, modulate_bbframe_symbols_ex_lem}
use open_vlsnr.Modulator.Outcomes.{
  IsSent, IsTooLong, IsOutOfMemory, modulate_bbframe_symbols_ex_cases,
}
use open_vlsnr.Modulator.Setup.{modulator_init-IsModulator}

abbrev pilot : Complex Sign
pilot = record { i = above; q = above }

modulator_init-IsModulator_example :
    (tx : Modulator) × (low : List ℕ) × (modulator_init no_addresses true 7 true 2 4 100 ≡ some tx)
    × IsModulator tx bpsk_1_5_short low
    × (tx.bb_ctx ≡ bb_frame_init bpsk_1_5_short gs)
    × (tx.scrambler ≡ init 100)
unfolding get_modcod
modulator_init-IsModulator_example =
    modulator_init-IsModulator no_addresses 7 2 4 100 refl (omega arith) (omega arith) (omega arith)

modulate_bbframe_symbols_ex_lem_example :
    (lay : VlsnrLayout) × (header : List (Complex Sign)) × (plain : List (Complex Sign))
    × (build_layout bpsk_1_5_short true ≡ some lay)
    × (vlsnr_header_generate signs bpsk_1_5_short ≡ some header)
    × (length header ≡ 900)
    × (pilot_insert pilot
          (map_bits signs bpsk_1_5_short (tx_bits set_up.0 bpsk_1_5_short ones))
          lay.is_pilot
        ≡ some plain)
    × IsLayoutOf bpsk_1_5_short lay
    × (length plain ≡ lay.field_len)
    × (pilot_extract plain lay.is_pilot
        ≡ some (
          map_bits signs bpsk_1_5_short (tx_bits set_up.0 bpsk_1_5_short ones),
          replicate (count_pilots lay.is_pilot) pilot,
        ))
    × (let (end, field) =
          scramble_field opposite false
            (some (λ n. get_or lay.is_pilot n false))
            0
            (seek 900 (reset set_up.0.scrambler))
            plain in
        modulate_bbframe_symbols_ex signs pilot all_given set_up.0 ones [] 16686
        ≡ some (record {
          error = none;
          sym_len = 16686;
          symbols = plheader_generate signs 131 ++ (header ++ (field ++ drop 16686 []));
          modulator = record set_up.0 { scrambler = end };
        }))
unfolding get_modcod
modulate_bbframe_symbols_ex_lem_example =
    modulate_bbframe_symbols_ex_lem signs pilot 7 set_up.0 set_up.1 ones [] 16686 refl set_up.3
      length-ones (omega arith)

-- There is no memory for the symbols.
abbrev no_symbols : FrameMemory
no_symbols = record all_given { tx_sym = false }

modulate_bbframe_symbols_ex_cases_example :
    let out = modulate_bbframe_symbols_ex signs pilot no_symbols set_up.0 ones [] 16686 in
    IsSent signs pilot bpsk_1_5_short no_symbols set_up.0 ones [] 16686 out
    ⊎ (IsTooLong signs pilot bpsk_1_5_short no_symbols set_up.0 [] 16686 out
        ⊎ IsOutOfMemory signs pilot bpsk_1_5_short no_symbols set_up.0 [] out)
unfolding get_modcod
modulate_bbframe_symbols_ex_cases_example =
    modulate_bbframe_symbols_ex_cases signs pilot 7 no_symbols set_up.0 set_up.1 ones [] 16686 refl
      set_up.3 length-ones

abbrev user : List ℕ
user = 1 ∷ 0 ∷ 1 ∷ []

abbrev zeros : List ℕ
zeros = 0 ∷ 0 ∷ 0 ∷ 0 ∷ []

room_for_user : length user ≤ set_up.0.bb_ctx.dfl
unfolding bb_frame_init
room_for_user =
    let dfl : set_up.0.bb_ctx.dfl ≡ 2992 = ap (λ (c : BbFrameCtx). c.dfl) set_up.4 in
    omega (arith, dfl)

modulate_symbols_ex_lem_example :
    (frame : List ℕ) × (sent : Modulated Sign) × (modulate_symbols_ex signs pilot true all_given
        set_up.0 user ones [] 16686
      ≡ some sent)
    × (modulate_bbframe_symbols_ex signs pilot all_given (with_ro set_up.0) frame [] 16686
        ≡ some sent)
    × (sent.error ≡ none)
    × (sent.sym_len ≡ 16686)
    × (length frame ≡ 3072)
    × (bb_frame_parse_ex (with_ro set_up.0).bb_ctx frame zeros ≡ record {
      error = none;
      user_data = user ++ drop (length user) zeros;
      user_len = length user;
    })
unfolding get_modcod
modulate_symbols_ex_lem_example =
    modulate_symbols_ex_lem signs pilot 7 set_up.0 set_up.1 user ones zeros [] 16686 refl set_up.3
      set_up.4 room_for_user length-ones (omega arith) (omega arith)
