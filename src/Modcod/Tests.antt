-- ===== src/Modcod/Tests.antt =====
-- The MODCOD lookups on inputs, and the theorems about them at such an input.
use open_vlsnr.Prelude.{◌≡◌, refl, none, some}
use open_vlsnr.Modcod.{get_modcod_by_name, find_canonical, find_legacy}

-- The ambiguous short names are not accepted.
ambiguous :
    (get_modcod_by_name (some "BPSK 1/5") ≡ none) × (get_modcod_by_name (some "BPSK 1/3") ≡ none)
unfolding get_modcod_by_name find_canonical find_legacy
ambiguous = (refl, refl)
