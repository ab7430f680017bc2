-- ===== src/Layout.antt =====
-- src/vlsnr_layout.c: which symbols of a VL-SNR data field carry payload and which are pilots.
pub mod Count
pub mod Geometry
mod Tests
use open_vlsnr.Prelude.{
  ℕ, zero, suc, ◌+◌, ◌-◌, ◌*◌, ◌/◌, ◌%◌, Bool, true, false, ◌&&◌, Option, none, some, List, [], ◌∷◌,
  ◌++◌, ltb, leb, ◌==◌, if◌then◌else◌, length, replicate,
}
use open_vlsnr.Types.{Modcod, Modulation, bpsk, qpsk, VlsnrSet, set1, set2, tx_coded_bits}

-- `struct dvbs2x_vlsnr_layout`; an entry of the map is true at a pilot.
pub record VlsnrLayout : Type 0 where
  pub field_len : ℕ
  pub num_data : ℕ
  pub num_pilot : ℕ
  pub is_pilot : List Bool

-- The length of the group pilot block that fires after a data symbol, `none` if none does.
pub group_pilots : VlsnrSet → ℕ → ℕ → Option ℕ
group_pilots set1 group symbols =
    if leb group 18 && symbols == 703
    then some 34
    else if leb 19 group && leb group 21 && symbols == 702
    then some 36
    else none
group_pilots set2 group symbols =
    if leb group 9 && symbols == 704
    then some 32
    else if group == 10 && symbols == 702
    then some 36
    else none

-- What one pass of the slot loop's inner loop writes and leaves behind.
pub record SlotRun : Type 0 where
  pub written : List Bool
  pub dcount : ℕ
  pub symbols : ℕ
  pub fired : Bool

-- The symbols that complete a fired slot and the next one: x runs from (k + 1 + plen) - 90,
-- which may be negative, up to 90.
abbrev pub refill : ℕ → ℕ → ℕ
refill k plen = 180 - (k + 1 + plen)

-- The inner loop at index k with `left = 90 - k` rounds to go.
pub run_slot : VlsnrSet → ℕ → ℕ → ℕ → ℕ → ℕ → SlotRun
run_slot set group zero k dcount symbols = record {
  written = [];
  dcount = dcount;
  symbols = symbols;
  fired = false;
}
run_slot set group (suc left) k dcount symbols =
    let rest = run_slot set group left (k + 1) (dcount + 1) (symbols + 1) in
    elim (group_pilots set group (symbols + 1)) [
      | some plen ↦ record {
        written = false ∷ (replicate plen true ++ replicate (refill k plen) false);
        dcount = dcount + 1 + refill k plen;
        symbols = symbols + 1 + refill k plen;
        fired = true;
      }
      | none ↦ record {
        written = false ∷ rest.written;
        dcount = rest.dcount;
        symbols = rest.symbols;
        fired = rest.fired;
      }
    ]

-- The variables of the slot loop, but for the map, which is written in order.
pub record SlotState : Type 0 where
  pub j : ℕ
  pub slot_count : ℕ
  pub group : ℕ
  pub symbols : ℕ
  pub dcount : ℕ

-- One round of the slot loop: the entries written, and the state for the next round.
pub slot_round : VlsnrSet → ℕ → SlotState → List Bool × SlotState
slot_round set slots s =
    let run = run_slot set s.group 90 0 s.dcount s.symbols in
    let j = if run.fired then s.j + 1 else s.j in
    let slot_count = ((if run.fired then (s.slot_count + 1) % 16 else s.slot_count) + 1) % 16 in
    if slot_count == 0 && ltb (j + 1) slots
    then (
      run.written ++ replicate 36 true,
      record {
        j = j + 1;
        slot_count = slot_count;
        group = s.group + 1;
        symbols = 0;
        dcount = run.dcount;
      },
    )
    else (
      run.written,
      record {
        j = j + 1;
        slot_count = slot_count;
        group = s.group;
        symbols = run.symbols;
        dcount = run.dcount;
      },
    )

-- The slot loop. Each round raises j, so `slots` rounds of fuel are enough; the result is the
-- map from here on and the final `dcount`.
pub slot_loop : ℕ → VlsnrSet → ℕ → SlotState → List Bool × ℕ
slot_loop zero set slots s = ([], s.dcount)
slot_loop (suc fuel) set slots s = elim (ltb s.j slots) [
  | true ↦
      let (written, s') = slot_round set slots s in
      let (map, dcount) = slot_loop fuel set slots s' in (written ++ map, dcount)
  | false ↦ ([], s.dcount)
]

-- The pilot symbols that replace data positions.
abbrev pub extra_pilots : VlsnrSet → ℕ
extra_pilots set1 = 18 * 34 + 3 * 36
extra_pilots set2 = 9 * 32 + 36

abbrev pub start : SlotState
start = record { j = 0; slot_count = 10; group = 0; symbols = 0; dcount = 0 }

-- `build_set`: the map, `*out_len` and `*out_pilot`.
pub build_set : ℕ → VlsnrSet → List Bool × ℕ × ℕ
build_set ndata set =
    let slots = (ndata + extra_pilots set) / 90 in
    let (map, dcount) = slot_loop slots set slots start in (map, length map, length map - dcount)

-- Two QPSK bits share a symbol.
abbrev pub halve : Modulation → ℕ → ℕ
halve qpsk n = n / 2
halve bpsk n = n

abbrev pub spread : Bool → ℕ → ℕ
spread true n = n * 2
spread false n = n

-- The payload symbols of a frame.
abbrev pub payload_symbols : Modcod → ℕ
payload_symbols mc = spread mc.has_spread (halve mc.modulation (tx_coded_bits mc))

-- `dvbs2x_vlsnr_build_layout`; `allocated` tells whether `malloc` gave the map's memory.
pub build_layout : Modcod → Bool → Option VlsnrLayout
build_layout mc false = none
build_layout mc true =
    let ndata = payload_symbols mc in
    let (map, field_len, num_pilot) = build_set ndata mc.vlsnr_set in
    some (record { field_len = field_len; num_data = ndata; num_pilot = num_pilot; is_pilot = map })

-- The bytes that the layout's map is allocated with.
abbrev pub map_capacity : ℕ → ℕ
map_capacity ndata = ndata + (ndata / 90 + 4) * 36 + 64
