-- ===== src/Pilot.antt =====
-- src/pilot_insert.c over any type of symbols; `pilot` stands for the unmodulated pilot value.
pub mod RoundTrip
mod Tests
use open_vlsnr.Prelude.{ℕ, zero, suc, Bool, true, false, Option, none, some, List, [], ◌∷◌}

-- The two loops walk the map and the field by one index; the remaining data is the list from
-- `data_idx` on. `none` is a read past the end of an array.
module _ {ℓ} {Sample : Type ℓ} where
  -- `dvbs2x_pilot_insert`
  pub pilot_insert : Sample → List Sample → List Bool → Option (List Sample)
  pilot_insert pilot payload [] = some []
  pilot_insert pilot payload (true ∷ map) = elim (pilot_insert pilot payload map) [
    | some out ↦ some (pilot ∷ out)
    | none ↦ none
  ]
  pilot_insert pilot [] (false ∷ map) = none
  pilot_insert pilot (x ∷ payload) (false ∷ map) = elim (pilot_insert pilot payload map) [
    | some out ↦ some (x ∷ out)
    | none ↦ none
  ]

  -- `dvbs2x_pilot_extract`: the data symbols and the pilots, in order.
  pub pilot_extract : List Sample → List Bool → Option (List Sample × List Sample)
  pilot_extract field [] = some ([], [])
  pilot_extract [] (b ∷ map) = none
  pilot_extract (x ∷ field) (true ∷ map) = elim (pilot_extract field map) [
    | some (payload, pilots) ↦ some (payload, x ∷ pilots)
    | none ↦ none
  ]
  pilot_extract (x ∷ field) (false ∷ map) = elim (pilot_extract field map) [
    | some (payload, pilots) ↦ some (x ∷ payload, pilots)
    | none ↦ none
  ]
