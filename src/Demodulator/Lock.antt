-- ===== src/Demodulator/Lock.antt =====
-- `dvbs2x_demod_lock_update` of src/demodulator_top.c, and the states it goes through.
pub mod Steps
pub mod Locked
mod Tests
use open_vlsnr.Prelude.{
  ℕ, zero, suc, ◌+◌, ◌≤◌, ◌<◌, ◌≡◌, ◌≢◌, refl, sym, ◌∙◌, Bool, true, false, ◌||◌, not, List, [],
  ◌∷◌, ◌++◌, arith, ltb, leb, if◌then◌else◌, replicate, All, u32,
}

-- LOCK_THRESH and LOSS_THRESH
abbrev pub lock_thresh : ℕ
lock_thresh = 3

abbrev pub loss_thresh : ℕ
loss_thresh = 3

-- `enum dvbs2x_demod_state`
pub data DemodState : Type 0 where
  search acquire track : DemodState

-- The fields of `struct dvbs2x_demodulator` that the update reads and writes. `afc_resets` counts the
-- calls of `dvbs2x_afc_init`.
pub record LockState : Type 0 where
  pub state : DemodState
  pub consecutive_successes : ℕ
  pub consecutive_failures : ℕ
  pub expected_frame_len : ℕ
  pub have_wh_prediction : Bool
  pub afc_resets : ℕ

-- `if (state == SEARCH) state = ACQUIRE;`
abbrev pub leave_search : DemodState → DemodState
leave_search search = acquire
leave_search acquire = acquire
leave_search track = track

-- `if (state == ACQUIRE && successes >= LOCK_THRESH) state = TRACK;`
abbrev pub promote : ℕ → DemodState → DemodState
promote successes search = search
promote successes acquire = if leb lock_thresh successes then track else acquire
promote successes track = track

abbrev pub is_track : DemodState → Bool
is_track search = false
is_track acquire = false
is_track track = true

-- `dvbs2x_demod_lock_update`
pub lock_update : LockState → Bool → LockState
lock_update s true =
    let successes = u32 (s.consecutive_successes + 1) in
    record s {
      state = promote successes (leave_search s.state);
      consecutive_successes = successes;
      consecutive_failures = 0;
    }
lock_update s false =
    let failures = u32 (s.consecutive_failures + 1) in
    if not (is_track s.state) || ltb failures loss_thresh
    then record s { consecutive_successes = 0; consecutive_failures = failures }
    else record s {
      state = search;
      consecutive_successes = 0;
      consecutive_failures = 0;
      expected_frame_len = 0;
      have_wh_prediction = false;
      afc_resets = s.afc_resets + 1;
    }

-- A sequence of updates, the latest at the head.
pub lock_updates : LockState → List Bool → LockState
lock_updates s [] = s
lock_updates s (success ∷ history) = lock_update (lock_updates s history) success

-- `dvbs2x_demodulator_init` zeroes the record.
abbrev pub initial_lock : LockState
initial_lock = record {
  state = search;
  consecutive_successes = 0;
  consecutive_failures = 0;
  expected_frame_len = 0;
  have_wh_prediction = false;
  afc_resets = 0;
}
