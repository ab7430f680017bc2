-- ===== src/Bch/Decoder/Evaluation.antt =====
-- Binary polynomials at the powers of the generator of the field of src/bch_decode.c.
use native.Mathlib.Nat.{mul-suc, add-mul, mul_assoc, mul_comm, mul-le-mul_left}
use open_vlsnr.Prelude.{
  ℕ, zero, suc, ◌+◌, ◌*◌, ◌/◌, ◌%◌, ◌≤◌, ◌<◌, ◌≡◌, refl, sym, ap, ap₂, ◌∙◌, bit_xor, List, [], ◌∷◌,
  ◌++◌, length, drop, get_or, arith, All, eq_cases, inl, inr,
}
use open_vlsnr.Bits.{zero-bit_xor}
use open_vlsnr.Bits.Xor.{xor_assoc, xor_self, xor-zero, xor_swap, xor-mod-two}
use open_vlsnr.Bch.Polynomial.{IsBit, add, scale, mul}
use open_vlsnr.Bch.Generator.{value_at}
use open_vlsnr.Bch.Init.{exp_loop}
use open_vlsnr.Bch.Decoder.Powers.{
  power, power_from, power_from-xor, power_from-zero, power_from-add, get_or-exp_loop,
  bit_times-xor,
}

module _ (m poly i : ℕ) where
  -- The value at the i-th power of the generator, when the first coefficient is that of x^e.
  abbrev pub value : ℕ → List ℕ → ℕ
  value e [] = 0
  value e (c ∷ p) = bit_xor (c % 2 * power m poly (i * e)) (value (suc e) p)

  value-add : (e : ℕ) (p q : List ℕ) → value e (add p q) ≡ bit_xor (value e p) (value e q)
  unfolding add
  value-add e [] q = sym (zero-bit_xor (value e q))
  value-add e (a ∷ p) [] = sym (xor-zero (value e (a ∷ p)))
  value-add e (a ∷ p) (b ∷ q) =
      let w = power m poly (i * e) in
      ap₂ bit_xor (ap (λ (k : ℕ). k * w) (xor-mod-two a b) ∙ bit_times-xor a b w)
        (value-add (suc e) p q)
      ∙ xor_swap (a % 2 * w) (b % 2 * w) (value (suc e) p) (value (suc e) q)

  split_product : (c a : ℕ) → c * a ≡ c / 2 * a * 2 + c % 2 * a
  split_product c a =
      ap (λ (k : ℕ). k * a) (let e : c ≡ c / 2 * 2 + c % 2 = omega arith in e)
      ∙ add-mul (c / 2 * 2) (c % 2) a
      ∙ ap (λ (k : ℕ). k + c % 2 * a)
          (mul_assoc (c / 2) 2 a
            ∙ ap (λ (k : ℕ). c / 2 * k) (mul_comm 2 a)
            ∙ sym (mul_assoc (c / 2) a 2))

  value-scale_even : (e c : ℕ) (p : List ℕ) → c % 2 ≡ 0 → value e (scale c p) ≡ 0
  value-scale_even e c [] z = refl
  value-scale_even e c (a ∷ p) z =
      let even : c * a % 2 ≡ 0 = omega (arith, split_product c a, ap (λ (k : ℕ). k * a) z) in
      ap₂ (λ (k r : ℕ). bit_xor (k * power m poly (i * e)) r) even (value-scale_even (suc e) c p z)
      ∙ ap (λ (k : ℕ). bit_xor k 0) (let n : 0 * power m poly (i * e) ≡ 0 = omega arith in n)
      ∙ xor_self 0

  value-scale_odd : (e c : ℕ) (p : List ℕ) → c % 2 ≡ 1 → value e (scale c p) ≡ value e p
  value-scale_odd e c [] o = refl
  value-scale_odd e c (a ∷ p) o =
      let odd : c * a % 2 ≡ a % 2 = omega (arith, split_product c a, ap (λ (k : ℕ). k * a) o) in
      ap₂ (λ (k r : ℕ). bit_xor (k * power m poly (i * e)) r) odd (value-scale_odd (suc e) c p o)

  value-scale : (e c : ℕ) (p : List ℕ) → value e p ≡ 0 → value e (scale c p) ≡ 0
  value-scale e c p h = elim (eq_cases (c % 2) 0) [
    | inl z ↦ value-scale_even e c p z
    | inr o ↦ value-scale_odd e c p (omega arith) ∙ h
  ]

  value-mul : (q g : List ℕ) → ((e : ℕ) → value e g ≡ 0) → (e : ℕ) → value e (mul q g) ≡ 0
  unfolding mul
  value-mul [] g h e = refl
  value-mul (c ∷ q) g h e =
      value-add e (scale c g) (0 ∷ mul q g)
      ∙ ap₂ bit_xor (value-scale e c g (h e)) (
          ap (λ (k : ℕ). bit_xor k (value (suc e) (mul q g)))
            (let z : 0 * power m poly (i * e) ≡ 0 = omega arith in z)
          ∙ zero-bit_xor (value (suc e) (mul q g))
          ∙ value-mul q g h (suc e))
      ∙ xor_self 0

  power_bit : (c k r : ℕ) → power_from m poly k (c % 2 * r) ≡ c % 2 * power_from m poly k r
  power_bit c k r = elim (eq_cases (c % 2) 0) [
    | inl z ↦
        ap (λ (d : ℕ). power_from m poly k (d * r)) z
        ∙ ap (power_from m poly k) (let e : 0 * r ≡ 0 = omega arith in e)
        ∙ power_from-zero m poly k
        ∙ sym (ap (λ (d : ℕ). d * power_from m poly k r) z ∙ omega arith)
    | inr o ↦
        let one : c % 2 ≡ 1 = omega arith in
        ap (λ (d : ℕ). power_from m poly k (d * r)) one
        ∙ ap (power_from m poly k) (let e : 1 * r ≡ r = omega arith in e)
        ∙ sym (ap (λ (d : ℕ). d * power_from m poly k r) one ∙ omega arith)
  ]

  -- One place higher is a product with the i-th power.
  value-suc : (e : ℕ) (p : List ℕ) → value (suc e) p ≡ power_from m poly i (value e p)
  value-suc e [] = sym (power_from-zero m poly i)
  value-suc e (c ∷ p) =
      ap₂ bit_xor
        (ap (λ (k : ℕ). c % 2 * k)
            (ap (power m poly) (let s : i * suc e ≡ i * e + i = omega (arith, mul-suc i e) in s)
              ∙ power_from-add m poly (i * e) i 1)
          ∙ sym (power_bit c i (power m poly (i * e))))
        (value-suc (suc e) p)
      ∙ sym (power_from-xor m poly i (c % 2 * power m poly (i * e)) (value (suc e) p))

  -- A root stays one at every place.
  value_root : (p : List ℕ) → value 0 p ≡ 0 → (e : ℕ) → value e p ≡ 0
  value_root p h zero = h
  value_root p h (suc e) =
      value-suc e p ∙ ap (power_from m poly i) (value_root p h e) ∙ power_from-zero m poly i

  -- Multiples of a polynomial have its roots.
  pub value-multiple : (q g : List ℕ) → value 0 g ≡ 0 → value 0 (mul q g) ≡ 0
  value-multiple q g h = value-mul q g (value_root g h) 0

  pub value_snoc :
      (e : ℕ) (p : List ℕ) (c : ℕ)
      → value e (p ++ (c ∷ [])) ≡ bit_xor (value e p) (c % 2 * power m poly (i * (e + length p)))
  value_snoc e [] c =
      xor-zero (c % 2 * power m poly (i * e))
      ∙ ap (λ (k : ℕ). c % 2 * power m poly (i * k)) (let s : e ≡ e + 0 = omega arith in s)
      ∙ sym (zero-bit_xor (c % 2 * power m poly (i * (e + 0))))
  value_snoc e (a ∷ p) c =
      ap (bit_xor (a % 2 * power m poly (i * e))) (
        value_snoc (suc e) p c
        ∙ ap (λ (k : ℕ). bit_xor (value (suc e) p) (c % 2 * power m poly (i * k)))
            (let s : suc e + length p ≡ e + suc (length p) = omega arith in s))
      ∙ sym (
          xor_assoc (a % 2 * power m poly (i * e)) (value (suc e) p)
            (c % 2 * power m poly (i * (e + suc (length p)))))

  drop_nil : (j : ℕ) → drop {A = ℕ} j [] ≡ []
  drop_nil zero = refl
  drop_nil (suc j) = refl

  drop-drop : (j k : ℕ) (xs : List ℕ) → drop j (drop k xs) ≡ drop (k + j) xs
  drop-drop j zero xs = ap (λ (n : ℕ). drop n xs) (omega arith)
  drop-drop j (suc k) [] = drop_nil j ∙ sym (drop_nil (suc k + j))
  drop-drop j (suc k) (x ∷ xs) =
      drop-drop j k xs
      ∙ ap (λ (n : ℕ). drop n (x ∷ xs)) (let s : suc (k + j) ≡ suc k + j = omega arith in s)

  get_or-drop : (k : ℕ) (xs : List ℕ) → get_or (drop k xs) 0 0 ≡ get_or xs k 0
  get_or-drop zero xs = refl
  get_or-drop (suc k) [] = refl
  get_or-drop (suc k) (x ∷ xs) = get_or-drop k xs

  stride : (e : ℕ) (xs : List ℕ) → drop i (drop (i * e) xs) ≡ drop (i * suc e) xs
  stride e xs =
      drop-drop i (i * e) xs
      ∙ ap (λ (k : ℕ). drop k xs) (let s : i * e + i ≡ i * suc e = omega (arith, mul-suc i e) in s)

  later : (size e n : ℕ) → i * (e + suc n) < size → i * (suc e + n) < size
  later size e n fits =
      omega (arith, fits, ap (λ (k : ℕ). i * k) (let s : suc e + n ≡ e + suc n = omega arith in s))

  -- Reading a table of `size` powers at steps of i.
  pub value_at-value :
      (size e : ℕ) (p : List ℕ)
      → All IsBit p
      → i * (e + length p) < size
      → value_at i p (drop (i * e) (exp_loop size m poly 1)) ≡ value e p
  unfolding value_at
  value_at-value size e [] bits fits = refl
  value_at-value size e (zero ∷ p) bits fits =
      ap (value_at i p) (stride e (exp_loop size m poly 1))
      ∙ value_at-value size (suc e) p bits.1 (later size e (length p) fits)
      ∙ sym (
          ap (λ (k : ℕ). bit_xor k (value (suc e) p))
            (let n : 0 * power m poly (i * e) ≡ 0 = omega arith in n)
          ∙ zero-bit_xor (value (suc e) p))
  value_at-value size e (suc zero ∷ p) bits fits =
      ap₂ bit_xor
        (get_or-drop (i * e) (exp_loop size m poly 1)
          ∙ get_or-exp_loop m poly size 1 (i * e) (
              omega (
                arith,
                fits,
                mul-le-mul_left i (let le : e ≤ e + suc (length p) = omega arith in le),
              ))
          ∙ (let n : power m poly (i * e) ≡ 1 * power m poly (i * e) = omega arith in n))
        (ap (value_at i p) (stride e (exp_loop size m poly 1))
          ∙ value_at-value size (suc e) p bits.1 (later size e (length p) fits))
  value_at-value size e (suc (suc c) ∷ p) bits fits = absurd (omega (arith, bits.0))
