-- ===== src/Layout/Count.antt =====
-- src/vlsnr_layout.c: the counters and the fuel of `build_set`.
use open_vlsnr.Prelude.{
  ℕ, zero, suc, ◌+◌, ◌/◌, ◌≤◌, ◌<◌, ◌≡◌, refl, sym, ◌∙◌, Bool, true, false, List, [], ◌∷◌, ◌++◌,
  arith, ltb, length, replicate, Bool-cases, Option-cases, inl, inr,
}
use open_vlsnr.Types.{VlsnrSet}
use open_vlsnr.Layout.{
  SlotState, group_pilots, run_slot, slot_round, slot_loop, build_set, refill, start, extra_pilots,
}

abbrev pub count_pilots : List Bool → ℕ
count_pilots [] = 0
count_pilots (true ∷ m) = suc (count_pilots m)
count_pilots (false ∷ m) = count_pilots m

abbrev pub count_data : List Bool → ℕ
count_data [] = 0
count_data (true ∷ m) = count_data m
count_data (false ∷ m) = suc (count_data m)

pub count_data-add-count_pilots : (m : List Bool) → count_data m + count_pilots m ≡ length m
count_data-add-count_pilots [] = refl
count_data-add-count_pilots (true ∷ m) = omega (arith, count_data-add-count_pilots m)
count_data-add-count_pilots (false ∷ m) = omega (arith, count_data-add-count_pilots m)

count_data-append : (m n : List Bool) → count_data (m ++ n) ≡ count_data m + count_data n
count_data-append [] n = omega arith
count_data-append (true ∷ m) n = count_data-append m n
count_data-append (false ∷ m) n = omega (arith, count_data-append m n)

count_data-replicate-false : (n : ℕ) → count_data (replicate n false) ≡ n
count_data-replicate-false zero = refl
count_data-replicate-false (suc n) = omega (arith, count_data-replicate-false n)

count_data-replicate-true : (n : ℕ) → count_data (replicate n true) ≡ 0
count_data-replicate-true zero = refl
count_data-replicate-true (suc n) = count_data-replicate-true n

-- One pass of the inner loop raises `dcount` by the data symbols that it writes.
run_slot-count :
    (set : VlsnrSet) (group left k dcount symbols : ℕ)
    → let r = run_slot set group left k dcount symbols in r.dcount ≡ dcount + count_data r.written
unfolding run_slot
run_slot-count set group zero k dcount symbols = omega arith
run_slot-count set group (suc left) k dcount symbols =
    elim (Option-cases (group_pilots set group (symbols + 1))) [
      | inl quiet ↦
          rw (quiet, run_slot)
            (omega (arith, run_slot-count set group left (k + 1) (dcount + 1) (symbols + 1)))
      | inr (plen, fires) ↦
          rw (fires, run_slot)
            (omega (
              arith,
              count_data-append (replicate plen true) (replicate (refill k plen) false),
              count_data-replicate-true plen,
              count_data-replicate-false (refill k plen),
            ))
    ]

slot_round-count :
    (set : VlsnrSet) (slots : ℕ) (s : SlotState)
    → let (written, s') = slot_round set slots s in
      (s'.dcount ≡ s.dcount + count_data written) × (s.j < s'.j)
unfolding slot_round
slot_round-count set slots s = ground (
  arith,
  run_slot-count set s.group 90 0 s.dcount s.symbols,
  count_data-append (run_slot set s.group 90 0 s.dcount s.symbols).written (replicate 36 true),
)

pub slot_loop-count :
    (fuel : ℕ) (set : VlsnrSet) (slots : ℕ) (s : SlotState)
    → let (map, dcount) = slot_loop fuel set slots s in dcount ≡ s.dcount + count_data map
unfolding slot_loop
slot_loop-count zero set slots s = omega arith
slot_loop-count (suc fuel) set slots s = elim (Bool-cases (ltb s.j slots)) [
  | inl go ↦
      let (written, s') = slot_round set slots s in
      rw (go, slot_loop)
        (omega (
          arith,
          slot_round-count set slots s,
          slot_loop-count fuel set slots s',
          count_data-append written (slot_loop fuel set slots s').0,
        ))
  | inr stop ↦ rw (stop, slot_loop) (omega arith)
]

slot_loop_done :
    (fuel : ℕ) (set : VlsnrSet) (slots : ℕ) (s : SlotState)
    → slots ≤ s.j
    → slot_loop fuel set slots s ≡ ([], s.dcount)
unfolding slot_loop
slot_loop_done zero set slots s h = refl
slot_loop_done (suc fuel) set slots s h =
    let stop : ltb s.j slots ≡ false = ground arith in rw (stop, slot_loop)

slot_loop_enough :
    (fuel more : ℕ) (set : VlsnrSet) (slots : ℕ) (s : SlotState)
    → slots ≤ s.j + fuel
    → slot_loop (fuel + more) set slots s ≡ slot_loop fuel set slots s
unfolding slot_loop
slot_loop_enough zero more set slots s h =
    slot_loop_done (0 + more) set slots s (omega arith)
    ∙ sym (slot_loop_done 0 set slots s (omega arith))
slot_loop_enough (suc fuel) more set slots s h =
    let shift : suc fuel + more ≡ suc (fuel + more) = omega arith in
    rw shift (elim (Bool-cases (ltb s.j slots)) [
      | inl go ↦
          rw (go, slot_loop)
            (rw (
              slot_loop_enough fuel more set slots (slot_round set slots s).1
                (omega (arith, slot_round-count set slots s))))
      | inr stop ↦ rw (stop, slot_loop)
    ])

-- The slot loop ends by its own test: fuel beyond the number of slots changes nothing.
slot_loop_terminates :
    (more : ℕ) (set : VlsnrSet) (slots : ℕ)
    → slot_loop (slots + more) set slots start ≡ slot_loop slots set slots start
slot_loop_terminates more set slots = slot_loop_enough slots more set slots start (omega arith)

-- For any number of data symbols, the length that `build_set` returns is that of the data and
-- pilot entries of the map together, and the pilot count is that of its pilot entries alone.
pub build_set-count :
    (ndata : ℕ) (set : VlsnrSet)
    → let (map, out_len, out_pilot) = build_set ndata set in
      (out_len ≡ count_data map + count_pilots map) × (out_pilot ≡ count_pilots map)
unfolding build_set
build_set-count ndata set =
    let slots = (ndata + extra_pilots set) / 90 in
    omega (
      arith,
      slot_loop-count slots set slots start,
      count_data-add-count_pilots (slot_loop slots set slots start).0,
    )
