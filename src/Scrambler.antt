-- ===== src/Scrambler.antt =====
-- src/scrambler.c: the Gold code of two 18-bit registers and the rotations that it drives.
pub mod Parity
pub mod Registers
pub mod RoundTrip
mod Tests
use open_vlsnr.Prelude.{
  ℕ, zero, suc, ◌+◌, ◌*◌, ◌/◌, ◌%◌, ◌^◌, bit_and, bit_or, bit_xor, Bool, true, false, ◌||◌, Option,
  none, some, List, [], ◌∷◌, ◌==◌, if◌then◌else◌, u32, ◌<<<◌, ◌>>>◌,
}

-- SCRAMBLER_FEEDBACK
abbrev pub feedback : ℕ
feedback = 0x20000

-- `struct dvbs2x_scrambler`
pub record Scrambler : Type 0 where
  pub x_reg : ℕ
  pub y_reg : ℕ
  pub gold_idx : ℕ

-- One folding step, `a ^= a >> k`.
abbrev pub fold_bits : ℕ → ℕ → ℕ
fold_bits k a = bit_xor a (a >>> k)

-- `parity_chk`
pub parity_chk : ℕ → ℕ → ℕ
parity_chk a b =
    bit_and (fold_bits 1 (fold_bits 2 (fold_bits 4 (fold_bits 8 (fold_bits 16 (bit_and a b)))))) 1

-- `reg >>= 1; if (bit) reg |= SCRAMBLER_FEEDBACK;`
pub shift_in : ℕ → ℕ → ℕ
shift_in reg bit = if bit == 0 then reg >>> 1 else bit_or (reg >>> 1) feedback

-- `dvbs2x_scrambler_next_rn`: the two-bit value, and the registers after the call.
pub next_rn : Scrambler → ℕ × Scrambler
next_rn scr =
    let xa = parity_chk scr.x_reg 0x8050 in
    let xb = parity_chk scr.x_reg 0x0081 in
    let xc = bit_and scr.x_reg 1 in
    let ya = parity_chk scr.y_reg 0x04A1 in
    let yb = parity_chk scr.y_reg 0xFF60 in
    let yc = bit_and scr.y_reg 1 in
    (
      (bit_xor xa yb <<< 1) + bit_xor xc yc,
      record scr { x_reg = shift_in scr.x_reg xb; y_reg = shift_in scr.y_reg ya },
    )

-- The body of the loop of `dvbs2x_scrambler_init`; the shift by 17 is cut to 32 bits.
pub advance_x : ℕ → ℕ
advance_x x = bit_or (u32 (bit_and (bit_xor x (x >>> 7)) 1 <<< 17)) (x >>> 1)

pub advance_x_by : ℕ → ℕ → ℕ
advance_x_by zero x = x
advance_x_by (suc g) x = advance_x_by g (advance_x x)

-- `dvbs2x_scrambler_init`
pub init : ℕ → Scrambler
init gold_idx = record { x_reg = advance_x_by gold_idx 1; y_reg = 0x3FFFF; gold_idx = gold_idx }

-- `dvbs2x_scrambler_reset`
unfoldable pub reset : Scrambler → Scrambler
reset scr = init scr.gold_idx

-- `dvbs2x_scrambler_seek`
pub seek : ℕ → Scrambler → Scrambler
seek zero scr = scr
seek (suc n) scr = seek n (next_rn scr).1

-- `struct dvbs2x_complex`
pub record Complex {ℓ} (A : Type ℓ) : Type ℓ where
  pub i : A
  pub q : A

-- `is_qpsk || (is_pilot && is_pilot[n])`; the map is `none` for a NULL pointer.
pub four_phase : Bool → Option (ℕ → Bool) → ℕ → Bool
four_phase is_qpsk none n = is_qpsk
four_phase is_qpsk (some is_pilot) n = is_qpsk || is_pilot n

-- Doubles enter as a type with a negation.
module _ {ℓ} {A : Type ℓ} (neg : A → A) where
  -- `rot_fwd`
  pub rot_fwd : Complex A → ℕ → Complex A
  rot_fwd s rn =
      if rn == 1
      then record { i = neg s.q; q = s.i }
      else if rn == 2
      then record { i = neg s.i; q = neg s.q }
      else if rn == 3
      then record { i = s.q; q = neg s.i }
      else s

  -- `rot_inv`
  pub rot_inv : Complex A → ℕ → Complex A
  rot_inv s rn =
      if rn == 1
      then record { i = s.q; q = neg s.i }
      else if rn == 2
      then record { i = neg s.i; q = neg s.q }
      else if rn == 3
      then record { i = neg s.q; q = s.i }
      else s

  -- One symbol of `dvbs2x_scramble_field`.
  pub scramble_symbol : Bool → Complex A → ℕ → Complex A
  scramble_symbol four s rn =
      if four
      then rot_fwd s rn
      else if bit_and rn 1 == 0
      then s
      else record { i = neg s.i; q = neg s.q }

  -- One symbol of `dvbs2x_descramble_field`.
  pub descramble_symbol : Bool → Complex A → ℕ → Complex A
  descramble_symbol four s rn =
      if four
      then rot_inv s rn
      else if bit_and rn 1 == 0
      then s
      else record { i = neg s.i; q = neg s.q }

  -- `dvbs2x_scramble_field` from index n on.
  pub scramble_field :
      Bool → Option (ℕ → Bool) → ℕ → Scrambler → List (Complex A) → Scrambler × List (Complex A)
  scramble_field is_qpsk is_pilot n scr [] = (scr, [])
  scramble_field is_qpsk is_pilot n scr (s ∷ symbols) =
      let (rn, scr') = next_rn scr in
      let (end, out) = scramble_field is_qpsk is_pilot (n + 1) scr' symbols in
      (end, scramble_symbol (four_phase is_qpsk is_pilot n) s rn ∷ out)

  -- `dvbs2x_descramble_field` from index n on.
  pub descramble_field :
      Bool → Option (ℕ → Bool) → ℕ → Scrambler → List (Complex A) → Scrambler × List (Complex A)
  descramble_field is_qpsk is_pilot n scr [] = (scr, [])
  descramble_field is_qpsk is_pilot n scr (s ∷ symbols) =
      let (rn, scr') = next_rn scr in
      let (end, out) = descramble_field is_qpsk is_pilot (n + 1) scr' symbols in
      (end, descramble_symbol (four_phase is_qpsk is_pilot n) s rn ∷ out)

  -- `dvbs2x_scramble`
  pub scramble : Scrambler → List (Complex A) → Scrambler × List (Complex A)
  scramble scr [] = (scr, [])
  scramble scr (s ∷ symbols) =
      let (rn, scr') = next_rn scr in
      let (end, out) = scramble scr' symbols in (end, rot_fwd s rn ∷ out)

  -- `dvbs2x_descramble`
  pub descramble : Scrambler → List (Complex A) → Scrambler × List (Complex A)
  descramble scr [] = (scr, [])
  descramble scr (s ∷ symbols) =
      let (rn, scr') = next_rn scr in
      let (end, out) = descramble scr' symbols in (end, rot_inv s rn ∷ out)
