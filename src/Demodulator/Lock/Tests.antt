-- ===== src/Demodulator/Lock/Tests.antt =====
-- A lock that outlives two failures.
use open_vlsnr.Prelude.{◌≡◌, ◌↔◌, true, false, [], ◌∷◌}
use open_vlsnr.Demodulator.Lock.{track, initial_lock, lock_updates}
use open_vlsnr.Demodulator.Lock.Locked.{Locked, lock_updates-track}

lock_updates-track_example :
    ((lock_updates initial_lock (false ∷ false ∷ true ∷ true ∷ true ∷ [])).state ≡ track)
    ↔ Locked (false ∷ false ∷ true ∷ true ∷ true ∷ [])
lock_updates-track_example = lock_updates-track (false ∷ false ∷ true ∷ true ∷ true ∷ [])
