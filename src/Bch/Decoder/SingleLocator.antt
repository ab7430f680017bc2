-- ===== src/Bch/Decoder/SingleLocator.antt =====
-- The Berlekamp-Massey loop of src/bch_decode.c on the syndromes of one error.
use native.Mathlib.Nat.{suc-mul}
use open_vlsnr.Prelude.{
  ℕ, zero, suc, ◌+◌, ◌-◌, ◌*◌, ◌≤◌, ◌≡◌, refl, ap, ap₂, ◌∙◌, bit_xor, Bool, true, false, List, ◌∷◌,
  get_or, replicate, arith, ◌==◌, if◌then◌else◌, map, take, drop, ◌++◌,
}
use open_vlsnr.Bits.{zero-bit_xor}
use open_vlsnr.Bits.Xor.{xor_self}
use open_vlsnr.Bch.Decoder.{
  GfTables, gf_init, gf_mul, gf_inv, Locator, discrepancy, shift_b, add_product, locator_round,
  locator_loop, first_locator,
}
use open_vlsnr.Bch.Decoder.Powers.{power, power_from}
use open_vlsnr.Bch.Decoder.Tables.{IsPrimitive, gf_mul-power, power-ne-zero}

-- The polynomial `1 + c x`.
abbrev pub linear : ℕ → List ℕ
linear c = 1 ∷ c ∷ replicate 23 0

add_product-first :
    (gf : GfTables) (d v : ℕ)
    → gf_mul gf d 1 ≡ v
    → add_product gf d (1 ∷ replicate 24 0) 24 0 (1 ∷ replicate 24 0) ≡ linear v
unfolding add_product
add_product-first gf d v e = ap (λ (c : ℕ). linear c) (ap (bit_xor 0) e ∙ zero-bit_xor v)

abbrev pub locator : List ℕ → List ℕ → Locator
locator sigma b = record { sigma = sigma; b = b; l = 1 }

pub if_false {ℓ} : {A : Type ℓ} (b : Bool) (x y : A) → b ≡ false → (if b then x else y) ≡ y
if_false true x y h = let f : true ≡ false = h in absurd cc
if_false false x y h = refl

pub if_true {ℓ} : {A : Type ℓ} (b : Bool) (x y : A) → b ≡ true → (if b then x else y) ≡ x
if_true true x y h = refl
if_true false x y h = let f : false ≡ true = h in absurd cc

module _ (m poly : ℕ) (field : IsPrimitive m poly) (e : ℕ) (syndromes : List ℕ)
    (powers : (j : ℕ) → 1 ≤ j → j ≤ 24 → get_or syndromes j 0 ≡ power m poly (j * e)) where
  times_one : gf_mul (gf_init m poly) (power m poly e) 1 ≡ power m poly e
  unfolding power_from
  times_one =
      gf_mul-power m poly field e 0 ∙ ap (power m poly) (let s : e + 0 ≡ e = omega arith in s)

  -- The first round finds the locator.
  first_round :
      (b : List ℕ) × (locator_round (gf_init m poly) 12 syndromes 1 first_locator
        ≡ locator (linear (power m poly e)) b)
  unfolding locator_round discrepancy
  first_round =
      let gf = gf_init m poly in
      let at : get_or syndromes 1 0 ≡ power m poly e =
        powers 1 (omega arith) (omega arith) ∙ ap (power m poly) (omega arith) in
      let unequal : (get_or syndromes 1 0 == 0) ≡ false =
        ground (arith, at, power-ne-zero m poly field e) in
      let product : gf_mul gf (get_or syndromes 1 0) 1 ≡ power m poly e =
        ap (λ (d : ℕ). gf_mul gf d 1) at ∙ times_one in
      let scaled : List ℕ =
        map (λ (c : ℕ). gf_mul gf c (gf_inv gf (get_or syndromes 1 0)))
          (take 25 (first_locator.sigma))
        ++ drop 25 (first_locator.b) in
      (
        scaled,
        if_false _ _ _ unequal
            ∙ ap (λ (sigma : List ℕ). locator sigma scaled)
                (add_product-first gf (get_or syndromes 1 0) (power m poly e) product),
      )

  -- The others leave it alone.
  later_round :
      (n : ℕ) (b : List ℕ)
      → 2 ≤ n
      → n ≤ 24
      → locator_round (gf_init m poly) 12 syndromes n (locator (linear (power m poly e)) b)
        ≡ locator (linear (power m poly e)) (shift_b 12 b)
  unfolding locator_round discrepancy
  later_round n b low high =
      let gf = gf_init m poly in
      let now : get_or syndromes n 0 ≡ power m poly (n * e) = powers n (omega (arith, low)) high in
      let before : get_or syndromes (n - 1) 0 ≡ power m poly ((n - 1) * e) =
        powers (n - 1) (omega (arith, low)) (omega (arith, high)) in
      let sum : e + (n - 1) * e ≡ n * e = omega (
        arith,
        suc-mul (n - 1) e,
        ap (λ (k : ℕ). k * e) (let s : suc (n - 1) ≡ n = omega (arith, low) in s),
      ) in
      let product : gf_mul gf (power m poly e) (get_or syndromes (n - 1) 0) ≡ power m poly (n * e) =
        ap (gf_mul gf (power m poly e)) before
        ∙ gf_mul-power m poly field e ((n - 1) * e)
        ∙ ap (power m poly) sum in
      let zero_d : bit_xor (get_or syndromes n 0)
            (gf_mul gf (power m poly e) (get_or syndromes (n - 1) 0))
          ≡ 0 =
        ap₂ bit_xor now product ∙ xor_self (power m poly (n * e)) in
      if_true _ _ _ (ap (λ (d : ℕ). d == 0) zero_d)

  later_rounds :
      (left n : ℕ) (b : List ℕ)
      → 2 ≤ n
      → left + n ≤ 25
      → (b' : List ℕ) × (locator_loop
            (gf_init m poly)
            12
            syndromes
            left
            n
            (locator (linear (power m poly e)) b)
          ≡ locator (linear (power m poly e)) b')
  unfolding locator_loop
  later_rounds zero n b low fits = (b, refl)
  later_rounds (suc left) n b low fits =
      let (b', rest) = later_rounds left (n + 1) (shift_b 12 b) (omega arith) (omega arith) in
      (
        b',
        ap (locator_loop (gf_init m poly) 12 syndromes left (n + 1))
              (later_round n b low (omega arith))
            ∙ rest,
      )

  -- The loop ends with the locator of the one error.
  pub locator_loop-single :
      (b : List ℕ) × (locator_loop (gf_init m poly) 12 syndromes 24 1 first_locator
        ≡ locator (linear (power m poly e)) b)
  unfolding locator_loop
  locator_loop-single =
      let (b, first) = first_round in
      let (b', rest) = later_rounds 23 2 b (omega arith) (omega arith) in
      (b', ap (locator_loop (gf_init m poly) 12 syndromes 23 2) first ∙ rest)
