-- ===== src/BbFrame/Prbs.antt =====
-- src/bb_frame.c: the energy dispersal `bb_scramble`.
use open_vlsnr.Prelude.{
  ℕ, suc, ◌/◌, ◌^◌, ◌≤◌, ◌<◌, ◌≡◌, refl, ap, ap₂, ◌∙◌, List, [], ◌∷◌, ◌++◌, arith, length, take,
  drop, ◌==◌, take-append, drop-append, length-append, length-take, length-drop, take-append-drop,
  Bool-cases, inl, inr,
}
use open_vlsnr.Bits.{bit_or_fields, bit_or_comm}
use open_vlsnr.Bits.Xor.{xor_cancel}
use open_vlsnr.BbFrame.{scramble_from, prbs_bit, prbs_next, bb_scramble, bb_prbs_init}

pub scramble_from_involutive : (sr : ℕ) (xs : List ℕ) → scramble_from sr (scramble_from sr xs) ≡ xs
unfolding scramble_from
scramble_from_involutive sr [] = refl
scramble_from_involutive sr (x ∷ xs) =
    ap₂ ◌∷◌ (xor_cancel x (prbs_bit sr)) (scramble_from_involutive (prbs_next sr) xs)

pub length-scramble_from : (sr : ℕ) (xs : List ℕ) → length (scramble_from sr xs) ≡ length xs
unfolding scramble_from
length-scramble_from sr [] = refl
length-scramble_from sr (x ∷ xs) = ap suc (length-scramble_from (prbs_next sr) xs)

-- A frame that holds at least `len` entries keeps its length, and scrambling it twice gives it
-- back.
pub bb_scramble_involutive :
    (frame : List ℕ) (len : ℕ)
    → len ≤ length frame
    → (bb_scramble (bb_scramble frame len) len ≡ frame)
      × (length (bb_scramble frame len) ≡ length frame)
unfolding bb_scramble
bb_scramble_involutive frame len h = (
  ap₂ (λ a b. scramble_from bb_prbs_init a ++ b) (take-append len front back front_length)
        (drop-append len front back front_length)
      ∙ ap (λ t. t ++ back) (scramble_from_involutive bb_prbs_init (take len frame))
      ∙ take-append-drop len frame,
  omega (arith, length-append front back, front_length, length-drop len frame),
)
  where
    front : List ℕ
    front = scramble_from bb_prbs_init (take len frame)

    back : List ℕ
    back = drop len frame

    front_length : length front ≡ len
    front_length =
        omega (arith, length-scramble_from bb_prbs_init (take len frame), length-take len frame)

-- The generator keeps to its 15 bits.
pub prbs_next-lt : (sr : ℕ) → sr < 2 ^ 15 → prbs_next sr < 2 ^ 15
unfolding prbs_next
prbs_next-lt sr h = elim (Bool-cases (prbs_bit sr == 0)) [
  | inl even ↦ rw even (omega arith)
  | inr odd ↦
      rw odd (omega (arith, bit_or_comm (sr / 2) 0x4000, bit_or_fields 14 1 (sr / 2) (omega arith)))
]
