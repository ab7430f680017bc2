-- ===== src/Pilot/RoundTrip.antt =====
-- src/pilot_insert.c: extraction against insertion.
use open_vlsnr.Prelude.{
  ◌≡◌, ◌≤◌, refl, Bool, true, false, some, List, [], ◌∷◌, arith, length, replicate, take,
}
use open_vlsnr.Layout.Count.{count_data, count_pilots}
use open_vlsnr.Pilot.{pilot_insert, pilot_extract}

module _ {ℓ} {Sample : Type ℓ} (pilot : Sample) where
  -- With enough data for the map, insertion reads nothing out of range, fills the field to the
  -- length of the map, and extraction gives back the data that was used and all of the pilots.
  pub pilot_extract-pilot_insert :
      (payload : List Sample) (map : List Bool)
      → count_data map ≤ length payload
      → (field : List Sample) × (pilot_insert pilot payload map ≡ some field)
        × (length field ≡ length map)
        × (pilot_extract field map
            ≡ some (take (count_data map) payload, replicate (count_pilots map) pilot))
  unfolding pilot_insert pilot_extract
  pilot_extract-pilot_insert payload [] h = ([], refl, refl, refl)
  pilot_extract-pilot_insert payload (true ∷ map) h =
      let (field, inserted, len, extracted) = pilot_extract-pilot_insert payload map h in
      (pilot ∷ field, rw inserted, omega (arith, len), rw extracted)
  pilot_extract-pilot_insert [] (false ∷ map) h = absurd (omega arith)
  pilot_extract-pilot_insert (x ∷ payload) (false ∷ map) h =
      let (field, inserted, len, extracted) =
        pilot_extract-pilot_insert payload map (omega arith) in
      (x ∷ field, rw inserted, omega (arith, len), rw extracted)
