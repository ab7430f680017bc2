-- ===== src/Layout/Tests.antt =====
-- The layout theorems at inputs.
use open_vlsnr.Prelude.{◌≡◌, refl, true, some}
use open_vlsnr.Modcod.{get_modcod, bpsk_1_5_short}
use open_vlsnr.Layout.{VlsnrLayout, build_layout}
use open_vlsnr.Layout.Geometry.{IsLayoutOf, build_layout-IsLayoutOf}

build_layout-IsLayoutOf_example :
    (lay : VlsnrLayout) × (build_layout bpsk_1_5_short true ≡ some lay)
    × IsLayoutOf bpsk_1_5_short lay
unfolding get_modcod
build_layout-IsLayoutOf_example = build_layout-IsLayoutOf 7 refl
