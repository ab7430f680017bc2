-- ===== src/Bch/Decoder/SingleSearch.antt =====
-- The Chien search of src/bch_decode.c for one error.
use native.Mathlib.Nat.{mod-lt, mod-eq_of_lt, mod_self}
use open_vlsnr.Prelude.{
  ℕ, zero, suc, ◌+◌, ◌-◌, ◌*◌, ◌%◌, ◌^◌, ◌≤◌, ◌<◌, ◌≡◌, ◌≢◌, ◌⊎◌, refl, sym, ap, ap₂, ◌∙◌, bit_xor,
  Bool, true, false, ◌&&◌, [], ◌∷◌, get_or, arith, ◌==◌, ltb, u32, eq_cases, inl, inr,
}
use open_vlsnr.Bits.{zero-bit_xor}
use open_vlsnr.Bits.Xor.{xor_self, xor_cancel}
use open_vlsnr.Bch.Decoder.{gf_init, eval_loop, chien_loop}
use open_vlsnr.Bch.Decoder.Powers.{power, power_from, power-mod}
use open_vlsnr.Bch.Decoder.Syndromes.{table_read}
use open_vlsnr.Bch.Decoder.Tables.{IsPrimitive, log-power, power-ne-zero, power-one}
use open_vlsnr.Bch.Decoder.SingleLocator.{linear, if_false}

xor-eq-zero : (a b : ℕ) → bit_xor a b ≡ 0 → b ≡ a
xor-eq-zero a b h = sym (sym (xor_cancel a b) ∙ ap (λ (t : ℕ). bit_xor t b) h ∙ zero-bit_xor b)

found {ℓ} : {A : Type ℓ} (b : Bool) (x z : A) → b ≡ true → (elim b [ true ↦ x | false ↦ z ]) ≡ x
found true x z h = refl
found false x z h = let f : false ≡ true = h in absurd cc

not_found {ℓ} :
    {A : Type ℓ} (b : Bool) (x z : A) → b ≡ false → (elim b [ true ↦ x | false ↦ z ]) ≡ z
not_found true x z h = let f : true ≡ false = h in absurd cc
not_found false x z h = refl

ne_zero : (k : ℕ) → k ≢ 0 → (k == 0) ≡ false
ne_zero k h = ground arith

module _ (m poly : ℕ) (field : IsPrimitive m poly) (fits : 2 ^ m ≤ 2 ^ 16) (e : ℕ)
    (inside : e < 2 ^ m - 1) where
  positive : 0 < 2 ^ m - 1
  positive = omega (arith, field.large)

  -- The locator at the i-th power.
  eval-linear :
      (i : ℕ)
      → i < 2 ^ m - 1
      → eval_loop (gf_init m poly) (linear (power m poly e)) i 1 1 1
        ≡ bit_xor 1 (power m poly (e + i))
  unfolding eval_loop
  eval-linear i below =
      let gf = gf_init m poly in
      let c = power m poly e in
      let unequal : (c == 0) ≡ false = ground (arith, power-ne-zero m poly field e) in
      let exponent : get_or gf.log_table c 0 + 1 * i ≡ e + i =
        omega (arith, log-power m poly field e, mod-eq_of_lt inside) in
      if_false _ _ _ unequal
      ∙ ap (λ (k : ℕ). bit_xor 1 (get_or gf.exp_table (u32 k % gf.n) 0)) exponent
      ∙ ap (bit_xor 1) (table_read m poly field.repeats positive (e + i) (omega arith))

  -- It is zero at the inverse of the place.
  root_at :
      (i : ℕ) → i < 2 ^ m - 1 → bit_xor 1 (power m poly (e + i)) ≡ 0 → (e + i) % (2 ^ m - 1) ≡ 0
  root_at i below h = power-one m poly field (e + i) (xor-eq-zero 1 (power m poly (e + i)) h)

  is_root : (i : ℕ) → (e + i) % (2 ^ m - 1) ≡ 0 → bit_xor 1 (power m poly (e + i)) ≡ 0
  unfolding power_from
  is_root i h =
      ap (bit_xor 1)
        (sym (power-mod m poly (2 ^ m - 1) (e + i) field.repeats) ∙ ap (power m poly) h)
      ∙ xor_self 1

  -- The power at which the search stops.
  abbrev stop_at : ℕ
  stop_at = (2 ^ m - 1 - e) % (2 ^ m - 1)

  stop_cases : ((e ≡ 0) × (stop_at ≡ 0)) ⊎ ((0 < e) × (stop_at ≡ 2 ^ m - 1 - e))
  stop_cases = elim (eq_cases e 0) [
    | inl z ↦ inl (z, ap (λ (k : ℕ). k % (2 ^ m - 1)) (omega arith) ∙ mod_self (2 ^ m - 1))
    | inr pos ↦ inr (omega arith, mod-eq_of_lt (omega arith))
  ]

  at_stop :
      (i : ℕ) → i ≡ stop_at → ((e + i) % (2 ^ m - 1) ≡ 0) × ((2 ^ m - 1 - i) % (2 ^ m - 1) ≡ e)
  at_stop i at = elim stop_cases [
    | inl h ↦
        let (none, start) = h in
        (
          mod-eq_of_lt (omega arith) ∙ omega arith,
          ap (λ (k : ℕ). k % (2 ^ m - 1))
                (let s : 2 ^ m - 1 - i ≡ 2 ^ m - 1 = omega (arith, start, at) in s)
              ∙ mod_self (2 ^ m - 1)
              ∙ sym none,
        )
    | inr h ↦
        let (pos, stop) = h in
        (
          ap (λ (k : ℕ). k % (2 ^ m - 1)) (let s : e + i ≡ 2 ^ m - 1 = omega (arith, stop, at) in s)
              ∙ mod_self (2 ^ m - 1),
          ap (λ (k : ℕ). k % (2 ^ m - 1)) (let s : 2 ^ m - 1 - i ≡ e = omega (arith, stop, at) in s)
              ∙ mod-eq_of_lt inside,
        )
  ]

  before_stop : (i : ℕ) → i < stop_at → (e + i) % (2 ^ m - 1) ≢ 0
  before_stop i lt h = elim stop_cases [
    | inl k ↦ let (none, start) = k in omega (arith, start, lt)
    | inr k ↦
        let (pos, stop) = k in
        let small : e + i < 2 ^ m - 1 = omega (arith, stop, lt) in
        omega (arith, mod-eq_of_lt small, h, pos)
  ]

  -- The search finds the one place, and stops.
  pub chien_loop-single :
      (size left i : ℕ)
      → e < size
      → left + i ≡ 2 ^ m - 1
      → i ≤ stop_at
      → chien_loop (gf_init m poly) size (linear (power m poly e)) 1 left i 0 ≡ (size - 1 - e) ∷ []
  unfolding chien_loop gf_init
  chien_loop-single size zero i within all before =
      absurd (omega (arith, mod-lt (2 ^ m - 1 - e) positive))
  chien_loop-single size (suc left) i within all before = elim (eq_cases i stop_at) [
    | inl at ↦
        let (zero_here, place) = at_stop i at in
        let vanishes : (eval_loop (gf_init m poly) (linear (power m poly e)) i 1 1 1 == 0) ≡ true =
          ap (λ (k : ℕ). k == 0) (eval-linear i (omega arith) ∙ is_root i zero_here) in
        let within_here : ltb ((2 ^ m - 1 - i) % (2 ^ m - 1)) size ≡ true =
          ground (arith, place, within) in
        found _ _ _ (ap₂ ◌&&◌ vanishes within_here) ∙ ap (λ (k : ℕ). (size - 1 - k) ∷ []) place
    | inr other ↦
        let less : i < stop_at = omega arith in
        let stays : (eval_loop (gf_init m poly) (linear (power m poly e)) i 1 1 1 == 0) ≡ false =
          ne_zero _ (λ z.
            before_stop i less (root_at i (omega arith) (sym (eval-linear i (omega arith)) ∙ z))) in
        not_found _ _ _ (ap (λ (b : Bool). b && ltb ((2 ^ m - 1 - i) % (2 ^ m - 1)) size) stays)
        ∙ chien_loop-single size left (i + 1) within (omega arith) (omega arith)
  ]
