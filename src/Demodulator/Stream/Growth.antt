-- ===== src/Demodulator/Stream/Growth.antt =====
-- `demodulate_stream_ex` of src/demodulator_top.c: the capacity of the buffer.
use native.Mathlib.Nat.{mul_right_comm}
use open_vlsnr.Bits.{mul-two-pow-suc}
use open_vlsnr.Prelude.{
  ℕ, zero, suc, ◌+◌, ◌-◌, ◌*◌, ◌^◌, ◌≤◌, ◌<◌, ◌≡◌, refl, sym, true, false, Bool-cases, inl, inr,
  lt_cases, none, List, [], ◌∷◌, ◌++◌, length, length-append, append-nil, arith, ltb,
}
use open_vlsnr.Demodulator.Stream.{Demod, grow, first_cap, uint_max, buffer_input}

-- The loop ends with room, when the fuel doubles the capacity past the 32-bit range.
grow_enough :
    (fuel size need : ℕ)
    → need < 2 ^ 32
    → size < 2 ^ 32
    → 2 ^ 32 ≤ size * 2 ^ fuel
    → (need ≤ grow fuel size need) × (grow fuel size need < 2 ^ 32)
unfolding grow
grow_enough zero size need small fits far = omega (arith, small, fits, far)
grow_enough (suc fuel) size need small fits far = elim (lt_cases 2147483647 size) [
  | inl big ↦ ground (arith, big, small, fits)
  | inr room ↦
      (let double : (size * 2) * 2 ^ fuel ≡ size * 2 ^ suc fuel =
          omega (arith, mul-two-pow-suc size fuel, mul_right_comm size 2 (2 ^ fuel)) in
        let (enough, bound) =
          grow_enough fuel (size * 2) need small (omega (arith, room))
            (omega (arith, far, double)) in
        ground (arith, enough, bound, fits, room))
]

first_cap_lem :
    (stream_cap : ℕ)
    → stream_cap < 2 ^ 32
    → (first_cap stream_cap < 2 ^ 32) × (1 ≤ first_cap stream_cap)
first_cap_lem stream_cap h = ground (arith, h)

-- The samples fit the buffer, whose capacity is a 32-bit number.
pub record IsBuffer {ℓ} {A : Type ℓ} (d : Demod A) : Type 0 where
  pub held : length d.stream_buf ≤ d.stream_cap
  pub capacity : d.stream_cap < 2 ^ 32

module _ {ℓ} {A : Type ℓ} where
  -- When realloc succeeds, new input that does not pass the 32-bit range is stored behind what is
  -- there, and the buffer's capacity holds both. The capacity's loop ends in 32 rounds.
  pub buffer_input-IsBuffer :
      (d : Demod A) (input : List A)
      → IsBuffer d
      → length d.stream_buf + length input < 2 ^ 32
      → ((buffer_input true d input).0 ≡ none)
        × ((buffer_input true d input).1.stream_buf ≡ d.stream_buf ++ input)
        × IsBuffer (buffer_input true d input).1
  unfolding buffer_input
  buffer_input-IsBuffer d [] v small = (refl, sym (append-nil d.stream_buf), v)
  buffer_input-IsBuffer d (x ∷ xs) v small =
      let need = length d.stream_buf + length (x ∷ xs) in
      let inside : ltb (uint_max - length d.stream_buf) (length (x ∷ xs)) ≡ false =
        ground (arith, small) in
      let joined : length (d.stream_buf ++ (x ∷ xs)) ≡ need = length-append d.stream_buf (x ∷ xs) in
      elim (Bool-cases (ltb d.stream_cap need)) [
        | inl full ↦
            (let (enough, bound) =
                grow_enough 32 (first_cap d.stream_cap) need small
                  (first_cap_lem d.stream_cap v.capacity).0
                  (omega (arith, (first_cap_lem d.stream_cap v.capacity).1)) in
              rw (inside, full)
                (refl, refl, record { held = omega (arith, joined, enough); capacity = bound }))
        | inr room ↦
            rw (inside, room)
              (
                refl,
                refl,
                record {
                  held =
                      (let h : need ≤ d.stream_cap = ground (arith, room) in
                        omega (arith, joined, h));
                  capacity = v.capacity;
                },
              )
      ]
