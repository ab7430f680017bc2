-- ===== src/Demodulator/Lock/Steps.antt =====
-- `dvbs2x_demod_lock_update` of src/demodulator_top.c, one call at a time.
use mathlib.Core.Path.{subst}
use open_vlsnr.Prelude.{
  ℕ, ◌+◌, ◌^◌, ◌≤◌, ◌<◌, ◌≡◌, ◌≢◌, ◌⊎◌, inl, inr, refl, sym, ap, ◌∙◌, Bool, true, false, arith, ltb,
  u32, not, ◌||◌, Bool-cases,
}
use open_vlsnr.Demodulator.Lock.{
  DemodState, search, acquire, track, promote, leave_search, is_track, LockState, lock_update,
  loss_thresh,
}

-- What the counters keep to in each state.
pub record IsSane (s : LockState) : Type 0 where
  pub fits : s.consecutive_successes < 2 ^ 32
  pub acquiring : s.state ≡ acquire → s.consecutive_successes < 3
  pub searching : s.state ≡ search → s.consecutive_successes ≡ 0
  pub tracking : s.state ≡ track → s.consecutive_failures < 3

State-cases : (d : DemodState) → (d ≡ search) ⊎ ((d ≡ acquire) ⊎ (d ≡ track))
State-cases search = inl refl
State-cases acquire = inr (inl refl)
State-cases track = inr (inr refl)

-- The state after a success.
promoted : ℕ → DemodState → DemodState
promoted c d = promote c (leave_search d)

promoted-acquire : (c : ℕ) (d : DemodState) → promoted c d ≡ acquire → c < 3
unfolding promoted
promoted-acquire c search h = ground (arith, h)
promoted-acquire c acquire h = ground (arith, h)
promoted-acquire c track h = cc

promoted-search : (c : ℕ) (d : DemodState) → promoted c d ≢ search
unfolding promoted
promoted-search c search h = ground (arith, h)
promoted-search c acquire h = ground (arith, h)
promoted-search c track h = cc

-- A receiver that is not locked gets locked by a third success only.
promoted-track : (c : ℕ) (d : DemodState) → promoted c d ≡ track → (d ≡ track) ⊎ (3 ≤ c)
unfolding promoted
promoted-track c search h = ground (arith, h)
promoted-track c acquire h = ground (arith, h)
promoted-track c track h = inl refl

-- The test of a failure, and the two results.
pub keeps : LockState → Bool
keeps s = not (is_track s.state) || ltb (u32 (s.consecutive_failures + 1)) loss_thresh

abbrev pub kept : LockState → LockState
kept s = record s {
  consecutive_successes = 0;
  consecutive_failures = u32 (s.consecutive_failures + 1);
}

abbrev pub lost : LockState → LockState
lost s = record s {
  state = search;
  consecutive_successes = 0;
  consecutive_failures = 0;
  expected_frame_len = 0;
  have_wh_prediction = false;
  afc_resets = s.afc_resets + 1;
}

pub lock_update-kept : (s : LockState) → keeps s ≡ true → lock_update s false ≡ kept s
unfolding lock_update keeps
lock_update-kept s h = rw h refl

pub lock_update-lost : (s : LockState) → keeps s ≡ false → lock_update s false ≡ lost s
unfolding lock_update keeps
lock_update-lost s h = rw h refl

keeps-track :
    (s : LockState) → keeps s ≡ true → s.state ≡ track → u32 (s.consecutive_failures + 1) < 3
unfolding keeps
keeps-track s h e = ground (arith, h, e)

pub lock_update-IsSane :
    (s : LockState) (success : Bool) → IsSane s → IsSane (lock_update s success)
unfolding lock_update promoted
lock_update-IsSane s true v = record {
  fits = omega arith;
  acquiring = promoted-acquire (u32 (s.consecutive_successes + 1)) s.state;
  searching = λ h. absurd (promoted-search (u32 (s.consecutive_successes + 1)) s.state h);
  tracking = λ h. omega arith;
}
lock_update-IsSane s false v = elim (Bool-cases (keeps s)) [
  | inl h ↦ subst IsSane (sym (lock_update-kept s h)) (record {
    fits = omega arith;
    acquiring = λ e. omega arith;
    searching = λ e. refl;
    tracking = keeps-track s h;
  })
  | inr h ↦ subst IsSane (sym (lock_update-lost s h)) (record {
    fits = omega arith;
    acquiring = λ e. omega arith;
    searching = λ e. refl;
    tracking = λ e. omega arith;
  })
]

-- A success leaves a locked receiver locked, and no failures counted.
pub track-success :
    (s : LockState)
    → s.state ≡ track
    → ((lock_update s true).state ≡ track) × ((lock_update s true).consecutive_failures ≡ 0)
unfolding lock_update
track-success s e = (rw e refl, refl)

-- A failure that is not the third leaves it locked.
pub track-failure :
    (s : LockState)
    → s.state ≡ track
    → s.consecutive_failures < 2
    → ((lock_update s false).state ≡ track)
      × ((lock_update s false).consecutive_failures ≡ s.consecutive_failures + 1)
unfolding keeps
track-failure s e few =
    let small : u32 (s.consecutive_failures + 1) ≡ s.consecutive_failures + 1 =
      omega (arith, few) in
    let h : keeps s ≡ true = ground (arith, few) in
    (
      ap (λ t. t.state) (lock_update-kept s h) ∙ e,
      ap (λ t. t.consecutive_failures) (lock_update-kept s h) ∙ small,
    )

promoted_three : (c : ℕ) (d : DemodState) → 3 ≤ c → promoted c d ≡ track
unfolding promoted
promoted_three c search h = ground (arith, h)
promoted_three c acquire h = ground (arith, h)
promoted_three c track h = refl

-- Three successes lock.
pub track-three :
    (s : LockState)
    → IsSane s
    → (lock_update (lock_update (lock_update s true) true) true).state ≡ track
unfolding lock_update promoted
track-three s v = elim (State-cases s.state) [
  | inl e ↦
      promoted_three (u32 ((lock_update (lock_update s true) true).consecutive_successes + 1))
        ((lock_update (lock_update s true) true).state) (omega (arith, v.searching e))
  | inr (inl e) ↦
      promoted_three (u32 ((lock_update (lock_update s true) true).consecutive_successes + 1))
        ((lock_update (lock_update s true) true).state) (omega (arith, v.acquiring e))
  | inr (inr e) ↦ rw e refl
]

pub failures_zero : (s : LockState) → (lock_update s true).consecutive_failures ≡ 0
unfolding lock_update
failures_zero s = refl

-- What a locked receiver after a failure says of the time before it.
pub kept_before :
    (s : LockState)
    → (lock_update s false).state ≡ track
    → (s.state ≡ track)
      × (u32 (s.consecutive_failures + 1) < 3)
      × ((lock_update s false).consecutive_failures ≡ u32 (s.consecutive_failures + 1))
kept_before s e = elim (Bool-cases (keeps s)) [
  | inl k ↦
      (let same : s.state ≡ track = ap (λ t. t.state) (sym (lock_update-kept s k)) ∙ e in
        (same, keeps-track s k same, ap (λ t. t.consecutive_failures) (lock_update-kept s k)))
  | inr k ↦
      absurd (let apart : search ≡ track = ap (λ t. t.state) (sym (lock_update-lost s k)) ∙ e in cc)
]

pub success_before :
    (s : LockState)
    → (lock_update s true).state ≡ track
    → (s.state ≡ track) ⊎ (3 ≤ u32 (s.consecutive_successes + 1))
unfolding lock_update promoted
success_before s e = promoted-track (u32 (s.consecutive_successes + 1)) s.state e
