-- ===== src/Demodulator/Lock/Locked.antt =====
-- When the receiver of src/demodulator_top.c is locked, told from the outcomes alone.
use mathlib.Core.Path.{subst}
use open_vlsnr.Prelude.{
  ℕ, suc, ◌≤◌, ◌≡◌, ◌↔◌, inl, inr, refl, sym, ap, ◌∙◌, Bool, true, false, List, [], ◌∷◌, arith,
  Bool-cases,
}
use open_vlsnr.Demodulator.Lock.{track, lock_update, lock_updates, initial_lock}
use open_vlsnr.Demodulator.Lock.Steps.{
  IsSane, lock_update-IsSane, track-success, track-failure, track-three, failures_zero, kept_before,
  success_before, keeps, lock_update-kept, lock_update-lost,
}

-- The outcomes so far, the latest first, end in three successes, and no three failures in a row
-- have come since.
pub data Locked : List Bool → Type 0 where
  three : {history : List Bool} → Locked (true ∷ true ∷ true ∷ history)
  one_more : {history : List Bool} → Locked history → Locked (true ∷ history)
  first_failure : {history : List Bool} → Locked (true ∷ history) → Locked (false ∷ true ∷ history)
  second_failure :
      {history : List Bool} → Locked (true ∷ history) → Locked (false ∷ false ∷ true ∷ history)

lock_updates-IsSane : (history : List Bool) → IsSane (lock_updates initial_lock history)
unfolding lock_updates
lock_updates-IsSane [] = record {
  fits = omega arith;
  acquiring = λ e. omega arith;
  searching = λ e. refl;
  tracking = λ e. omega arith;
}
lock_updates-IsSane (success ∷ history) =
    lock_update-IsSane (lock_updates initial_lock history) success (lock_updates-IsSane history)

-- Locked histories lead to a locked receiver.
Locked-track :
    (history : List Bool) → Locked history → (lock_updates initial_lock history).state ≡ track
unfolding lock_updates
Locked-track history (three {history = h}) = track-three _ (lock_updates-IsSane h)
Locked-track history (one_more w) = (track-success _ (Locked-track _ w)).0
Locked-track history (first_failure {history = h} w) =
    (track-failure _ (Locked-track _ w)
      (omega (arith, failures_zero (lock_updates initial_lock h)))).0
Locked-track history (second_failure {history = h} w) =
    let (still, count) =
      track-failure _ (Locked-track _ w)
        (omega (arith, failures_zero (lock_updates initial_lock h))) in
    (track-failure _ still (omega (arith, count, failures_zero (lock_updates initial_lock h)))).0

-- The counter of successes, read backwards.
successes_before :
    (history : List Bool) (n : ℕ)
    → suc n ≤ (lock_updates initial_lock history).consecutive_successes
    → (before : List Bool) × (history ≡ true ∷ before)
      × (n ≤ (lock_updates initial_lock before).consecutive_successes)
unfolding lock_updates lock_update
successes_before [] n h = absurd (omega (arith, h))
successes_before (true ∷ history) n h = (history, refl, omega (arith, h))
successes_before (false ∷ history) n h =
    elim (Bool-cases (keeps (lock_updates initial_lock history))) [
      | inl k ↦ absurd (omega (arith, h, ap (λ t. t.consecutive_successes) (lock_update-kept _ k)))
      | inr k ↦ absurd (omega (arith, h, ap (λ t. t.consecutive_successes) (lock_update-lost _ k)))
    ]

three_successes :
    (history : List Bool)
    → 2 ≤ (lock_updates initial_lock history).consecutive_successes
    → Locked (true ∷ history)
three_successes history h =
    let (before, e, h') = successes_before history 1 h in
    let (start, e', h'') = successes_before before 0 h' in
    subst (λ t. Locked (true ∷ t)) (sym (e ∙ ap (λ (t : List Bool). true ∷ t) e')) three

track-Locked :
    (history : List Bool) → (lock_updates initial_lock history).state ≡ track → Locked history
unfolding lock_updates
track-Locked [] e = cc
track-Locked (true ∷ history) e = elim (success_before (lock_updates initial_lock history) e) [
  | inl before ↦ one_more (track-Locked history before)
  | inr enough ↦ three_successes history (omega (arith, enough, (lock_updates-IsSane history).fits))
]
track-Locked (false ∷ []) e = absurd (let (before, few, count) = kept_before _ e in cc)
track-Locked (false ∷ true ∷ history) e =
    let (before, few, count) = kept_before _ e in
    first_failure (track-Locked (true ∷ history) before)
track-Locked (false ∷ false ∷ []) e = absurd (
    let (before, few, count) = kept_before _ e in
    let (before', few', count') = kept_before _ before in cc)
track-Locked (false ∷ false ∷ true ∷ history) e =
    let (before, few, count) = kept_before _ e in
    let (before', few', count') = kept_before _ before in
    second_failure (track-Locked (true ∷ history) before')
track-Locked (false ∷ false ∷ false ∷ history) e = absurd (
    let (before, few, count) = kept_before _ e in
    let (before', few', count') = kept_before _ before in
    let (before'', few'', count'') = kept_before _ before' in
    omega
      (arith, few, few', few'', count', count'', (lock_updates-IsSane history).tracking before''))

-- From the start, after any outcomes, the receiver is in the state TRACK exactly when three successes
-- in a row have come and no three failures in a row since.
pub lock_updates-track :
    (history : List Bool) → ((lock_updates initial_lock history).state ≡ track) ↔ Locked history
lock_updates-track history = (track-Locked history, Locked-track history)
