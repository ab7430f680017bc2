-- ===== src/Layout/Geometry.antt =====
-- src/vlsnr_layout.c: the layout of each of the nine MODCODs, two in all, one for each VL-SNR set.
use open_vlsnr.Prelude.{
  ℕ, ◌+◌, ◌-◌, ◌≤◌, ◌≡◌, refl, sym, true, false, none, some, AllFrom, AllFrom-get_elem?, arith,
}
use open_vlsnr.Types.{
  Modcod, VlsnrSet, set1, set2, frame_long, frame_short, plheader_len, vlsnr_hdr_len,
}
use open_vlsnr.Modcod.{modcod_table, get_modcod}
use open_vlsnr.Modcod.Consistency.{get_modcod_table}
use open_vlsnr.Layout.{
  VlsnrLayout, build_set, build_layout, map_capacity, payload_symbols, slot_loop, slot_round,
  run_slot, group_pilots,
}
use open_vlsnr.Layout.Count.{count_data, count_pilots, build_set-count}

-- The symbols of a whole frame of a set, PL header and VL-SNR header included.
abbrev pub frame_symbols : VlsnrSet → ℕ
frame_symbols set1 = frame_long
frame_symbols set2 = frame_short

-- The data symbols of a frame of a set.
abbrev data_symbols : VlsnrSet → ℕ
data_symbols set1 = 30780
data_symbols set2 = 14976

-- The layout `lay` serves the frames of `mc`.
pub record IsLayoutOf (mc : Modcod) (lay : VlsnrLayout) : Type 0 where
  pub payload : lay.num_data ≡ payload_symbols mc
  pub data_entries : count_data lay.is_pilot ≡ lay.num_data
  pub pilot_entries : count_pilots lay.is_pilot ≡ lay.num_pilot
  pub entries : lay.num_data + lay.num_pilot ≡ lay.field_len
  pub frame : plheader_len + vlsnr_hdr_len + lay.field_len ≡ frame_symbols mc.vlsnr_set
  pub allocation : lay.field_len ≤ map_capacity lay.num_data

-- By running both layouts.
built :
    (set : VlsnrSet)
    → let (map, field_len, num_pilot) = build_set (data_symbols set) set in
      (count_data map ≡ data_symbols set)
      × (plheader_len + vlsnr_hdr_len + field_len ≡ frame_symbols set)
unfolding build_set slot_loop slot_round run_slot group_pilots
built set1 = (refl, refl)
built set2 = (refl, refl)

table_payload : AllFrom (λ i mc. payload_symbols mc ≡ data_symbols mc.vlsnr_set) 1 modcod_table
table_payload = omega arith

allocated :
    (set : VlsnrSet) (field_len : ℕ)
    → plheader_len + vlsnr_hdr_len + field_len ≡ frame_symbols set
    → field_len ≤ map_capacity (data_symbols set)
allocated set1 n h = omega arith
allocated set2 n h = omega arith

built_at :
    (set : VlsnrSet) (n : ℕ)
    → n ≡ data_symbols set
    → let (map, field_len, num_pilot) = build_set n set in
      (count_data map ≡ n)
      × (plheader_len + vlsnr_hdr_len + field_len ≡ frame_symbols set)
      × (field_len ≤ map_capacity n)
built_at set n e =
    let (data_count, frame) = built set in
    rw e (data_count, frame, allocated set (build_set (data_symbols set) set).1 frame)

-- For every MODCOD of the table, once the map's memory is there, the layout is built: its map has
-- as many data entries as the frame has payload symbols and no other entries but the counted
-- pilots, it fits the memory allocated for it, and with both headers it makes up the frame
-- length that the library declares for the set.
pub build_layout-IsLayoutOf :
    (i : ℕ) {mc : Modcod}
    → get_modcod i ≡ some mc
    → (lay : VlsnrLayout) × (build_layout mc true ≡ some lay) × IsLayoutOf mc lay
unfolding build_layout
build_layout-IsLayoutOf i {mc} e =
    let n : payload_symbols mc ≡ data_symbols mc.vlsnr_set =
      AllFrom-get_elem? (λ i mc. payload_symbols mc ≡ data_symbols mc.vlsnr_set) 1 modcod_table
        (i - 1) table_payload (get_modcod_table i e) in
    let (data_count, frame, fits) = built_at mc.vlsnr_set (payload_symbols mc) n in
    let (total, pilots) = build_set-count (payload_symbols mc) mc.vlsnr_set in
    (
      record {
        field_len = (build_set (payload_symbols mc) mc.vlsnr_set).1;
        num_data = payload_symbols mc;
        num_pilot = (build_set (payload_symbols mc) mc.vlsnr_set).2;
        is_pilot = (build_set (payload_symbols mc) mc.vlsnr_set).0;
      },
      refl,
      record {
        payload = refl;
        data_entries = data_count;
        pilot_entries = sym pilots;
        entries = omega (arith, data_count, total, pilots);
        frame = frame;
        allocation = fits;
      },
    )

-- Without memory there is no layout.
pub build_layout_nomem : (mc : Modcod) → build_layout mc false ≡ none
unfolding build_layout
build_layout_nomem mc = refl
