-- ===== src/Pilot/Tests.antt =====
-- src/pilot_insert.c on a short field with two pilots.
use open_vlsnr.Prelude.{ℕ, ◌≡◌, refl, Bool, true, false, some, none, List, [], ◌∷◌}
use open_vlsnr.Pilot.{pilot_insert, pilot_extract}

abbrev payload : List ℕ
payload = 5 ∷ 6 ∷ 7 ∷ []

abbrev field_map : List Bool
field_map = false ∷ true ∷ false ∷ true ∷ []

-- The pilot is 9.
field_filled :
    (pilot_insert {Sample = ℕ} 9 payload field_map ≡ some (5 ∷ 9 ∷ 6 ∷ 9 ∷ []))
    × (pilot_extract {Sample = ℕ} (5 ∷ 9 ∷ 6 ∷ 9 ∷ []) field_map ≡ some (5 ∷ 6 ∷ [], 9 ∷ 9 ∷ []))
    × (pilot_extract {Sample = ℕ} (5 ∷ 9 ∷ 6 ∷ []) field_map ≡ none)
unfolding pilot_insert pilot_extract
field_filled = (refl, refl, refl)
