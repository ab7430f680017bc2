-- ===== src/Mapping/RoundTrip.antt =====
-- src/demodulate.c on the symbols of src/modulate.c, with no noise between them.
use open_vlsnr.Prelude.{
  ℕ, zero, suc, ◌%◌, ◌≤◌, ◌≡◌, refl, ap, ap₂, ◌∙◌, Bool, true, false, some, ◌-◌, List, [], ◌∷◌,
  arith, All, length, map, AllFrom, AllFrom-get_elem?, bit_and, if◌then◌else◌,
}
use open_vlsnr.Bits.{bit_and_one}
use open_vlsnr.Types.{Modcod, tx_coded_bits}
use open_vlsnr.Modcod.{modcod_table, get_modcod}
use open_vlsnr.Modcod.Consistency.{get_modcod_table}
use open_vlsnr.Mapping.{
  Doubles, signed, opposed, even_symbol, odd_symbol, mod_pi2bpsk, mod_qpsk, map_bits,
  mod_spread_bits, demod_pi2bpsk, demod_qpsk, despread_llr, demap_symbols,
}

-- What is used of the arithmetic on doubles. Rounding to nearest is symmetric in the sign, so the
-- first four hold exactly. The scales are such that a noiseless metric does not vanish.
pub record SignLaws {ℓ} {A : Type ℓ} (ops : Doubles A) (is_negative : A → Bool)
    (bpsk_scale qpsk_scale : A) (Positive : A → Type ℓ) : Type ℓ where
  pub plus-neg : (x y : A) → ops.plus (ops.neg x) (ops.neg y) ≡ ops.neg (ops.plus x y)
  pub minus-neg_right : (x y : A) → ops.minus x (ops.neg y) ≡ ops.plus x y
  pub minus-neg_left : (x y : A) → ops.minus (ops.neg x) y ≡ ops.neg (ops.plus x y)
  pub times-neg : (s x : A) → ops.times s (ops.neg x) ≡ ops.neg (ops.times s x)
  pub positive_kept : (x : A) → Positive x → is_negative x ≡ false
  pub positive_flipped : (x : A) → Positive x → is_negative (ops.neg x) ≡ true
  pub plus-Positive : (x y : A) → Positive x → Positive y → Positive (ops.plus x y)
  pub bpsk_metric : Positive (ops.times bpsk_scale (ops.plus ops.root_half ops.root_half))
  pub qpsk_metric : Positive (ops.times qpsk_scale ops.root_half)

bit_kept : (b : ℕ) → b ≤ 1 → bit_and b 1 ≡ b
bit_kept b small = omega (arith, bit_and_one b, small)

-- The decoder takes a negative soft value for the bit 1.
pub hard {ℓ} : {A : Type ℓ} → (A → Bool) → A → ℕ
hard is_negative x = if is_negative x then 1 else 0

module _ {ℓ} {A : Type ℓ} (ops : Doubles A) (is_negative : A → Bool) (bpsk_scale qpsk_scale : A)
    (Positive : A → Type ℓ) (laws : SignLaws ops is_negative bpsk_scale qpsk_scale Positive) where
  -- A value with the sign of a bit.
  carries : A → ℕ → A
  carries x zero = x
  carries x (suc b) = ops.neg x

  hard-carries : (x : A) (b : ℕ) → Positive x → b ≤ 1 → hard is_negative (carries x b) ≡ b
  unfolding hard carries
  hard-carries x zero p small = rw (laws.positive_kept x p) refl
  hard-carries x (suc zero) p small = rw (laws.positive_flipped x p) refl
  hard-carries x (suc (suc b)) p small = absurd (omega (arith, small))

  metric : A
  metric = ops.times bpsk_scale (ops.plus ops.root_half ops.root_half)

  even_metric :
      (b : ℕ) → ops.times bpsk_scale (ops.plus (signed ops b) (signed ops b)) ≡ carries metric b
  unfolding carries metric
  even_metric zero = refl
  even_metric (suc b) =
      ap (ops.times bpsk_scale) (laws.plus-neg ops.root_half ops.root_half)
      ∙ laws.times-neg bpsk_scale _

  odd_metric :
      (b : ℕ) → ops.times bpsk_scale (ops.minus (signed ops b) (opposed ops b)) ≡ carries metric b
  unfolding carries metric
  odd_metric zero = ap (ops.times bpsk_scale) (laws.minus-neg_right ops.root_half ops.root_half)
  odd_metric (suc b) =
      ap (ops.times bpsk_scale) (laws.minus-neg_left ops.root_half ops.root_half)
      ∙ laws.times-neg bpsk_scale _

  qpsk_metric :
      (b : ℕ) → ops.times qpsk_scale (signed ops b) ≡ carries (ops.times qpsk_scale ops.root_half) b
  unfolding carries
  qpsk_metric zero = refl
  qpsk_metric (suc b) = laws.times-neg qpsk_scale ops.root_half

  -- The soft values of pi/2-BPSK carry the bits.
  demod_pi2bpsk-mod :
      (bits : List ℕ)
      → All (λ (b : ℕ). b ≤ 1) bits
      → demod_pi2bpsk ops bpsk_scale (mod_pi2bpsk ops bits) ≡ map (carries metric) bits
  unfolding demod_pi2bpsk mod_pi2bpsk even_symbol odd_symbol
  demod_pi2bpsk-mod [] h = refl
  demod_pi2bpsk-mod (b ∷ []) h =
      ap (λ (t : A). t ∷ []) (even_metric (bit_and b 1) ∙ ap (carries metric) (bit_kept b h.0))
  demod_pi2bpsk-mod (b ∷ c ∷ bits) h =
      ap₂ (λ (s : A) (t : List A). s ∷ t)
        (even_metric (bit_and b 1) ∙ ap (carries metric) (bit_kept b h.0))
        (ap₂ (λ (s : A) (t : List A). s ∷ t)
          (odd_metric (bit_and c 1) ∙ ap (carries metric) (bit_kept c h.1.0))
          (demod_pi2bpsk-mod bits h.1.1))

  -- A spread bit is sent twice, and the sum of its two soft values carries it.
  despread-spread :
      (bits : List ℕ)
      → All (λ (b : ℕ). b ≤ 1) bits
      → despread_llr ops (map (carries metric) (mod_spread_bits bits))
        ≡ map (carries (ops.plus metric metric)) bits
  unfolding despread_llr mod_spread_bits carries
  despread-spread [] h = refl
  despread-spread (zero ∷ bits) h =
      ap (λ (t : List A). ops.plus metric metric ∷ t) (despread-spread bits h.1)
  despread-spread (suc b ∷ bits) h =
      ap₂ (λ (s : A) (t : List A). s ∷ t) (laws.plus-neg metric metric) (despread-spread bits h.1)

  -- The soft values of QPSK carry the bits, which come in pairs.
  demod_qpsk-mod :
      (bits : List ℕ)
      → length bits % 2 ≡ 0
      → demod_qpsk ops qpsk_scale (mod_qpsk ops bits)
        ≡ map (carries (ops.times qpsk_scale ops.root_half)) bits
  unfolding demod_qpsk mod_qpsk
  demod_qpsk-mod [] even = refl
  demod_qpsk-mod (b ∷ []) even = absurd (omega arith)
  demod_qpsk-mod (b ∷ c ∷ bits) even =
      ap₂ (λ (s : A) (t : List A). s ∷ t) (qpsk_metric b)
        (ap₂ (λ (s : A) (t : List A). s ∷ t) (qpsk_metric c)
          (demod_qpsk-mod bits (omega (arith, even))))

  hard-All :
      (x : A) (bits : List ℕ)
      → Positive x
      → All (λ (b : ℕ). b ≤ 1) bits
      → map (hard is_negative) (map (carries x) bits) ≡ bits
  hard-All x [] p h = refl
  hard-All x (b ∷ bits) p h =
      ap₂ (λ (s : ℕ) (t : List ℕ). s ∷ t) (hard-carries x b p h.0) (hard-All x bits p h.1)

  All-spread :
      (bits : List ℕ) → All (λ (b : ℕ). b ≤ 1) bits → All (λ (b : ℕ). b ≤ 1) (mod_spread_bits bits)
  unfolding mod_spread_bits
  All-spread [] h = tt
  All-spread (b ∷ bits) h = (h.0, (h.0, All-spread bits h.1))

  bpsk_plain :
      (bits : List ℕ)
      → All (λ (b : ℕ). b ≤ 1) bits
      → map (hard is_negative) (demod_pi2bpsk ops bpsk_scale (mod_pi2bpsk ops bits)) ≡ bits
  unfolding metric
  bpsk_plain bits h =
      ap (map (hard is_negative)) (demod_pi2bpsk-mod bits h)
      ∙ hard-All metric bits laws.bpsk_metric h

  bpsk_spread :
      (bits : List ℕ)
      → All (λ (b : ℕ). b ≤ 1) bits
      → map
          (hard is_negative)
          (despread_llr ops (demod_pi2bpsk ops bpsk_scale (mod_pi2bpsk ops (mod_spread_bits bits))))
        ≡ bits
  unfolding metric
  bpsk_spread bits h =
      ap (λ (t : List A). map (hard is_negative) (despread_llr ops t))
        (demod_pi2bpsk-mod (mod_spread_bits bits) (All-spread bits h))
      ∙ ap (map (hard is_negative)) (despread-spread bits h)
      ∙ hard-All (ops.plus metric metric) bits
          (laws.plus-Positive metric metric laws.bpsk_metric laws.bpsk_metric) h

  qpsk_plain :
      (bits : List ℕ)
      → length bits % 2 ≡ 0
      → All (λ (b : ℕ). b ≤ 1) bits
      → map (hard is_negative) (demod_qpsk ops qpsk_scale (mod_qpsk ops bits)) ≡ bits
  qpsk_plain bits even h =
      ap (map (hard is_negative)) (demod_qpsk-mod bits even)
      ∙ hard-All (ops.times qpsk_scale ops.root_half) bits laws.qpsk_metric h

  abbrev Maps : ℕ → Modcod → Type 0
  Maps i mc =
      (bits : List ℕ)
      → length bits ≡ tx_coded_bits mc
      → All (λ (b : ℕ). b ≤ 1) bits
      → map (hard is_negative) (demap_symbols ops mc bpsk_scale qpsk_scale (map_bits ops mc bits))
        ≡ bits

  table-Maps : AllFrom Maps 1 modcod_table
  unfolding demap_symbols map_bits
  table-Maps =
      let plain = λ (bits : List ℕ) (h : All (λ (b : ℕ). b ≤ 1) bits). bpsk_plain bits h in
      let spread = λ (bits : List ℕ) (h : All (λ (b : ℕ). b ≤ 1) bits). bpsk_spread bits h in
      (
        λ bits size h. qpsk_plain bits (omega (arith, size)) h,
        (
          λ bits _. plain bits,
          (
            λ bits _. plain bits,
            (
              λ bits _. plain bits,
              (
                λ bits _. spread bits,
                (
                  λ bits _. spread bits,
                  (λ bits _. plain bits, (λ bits _. plain bits, (λ bits _. plain bits, _))),
                ),
              ),
            ),
          ),
        ),
      )

  -- With no noise, the signs of the soft values are the coded bits, for each MODCOD of the table.
  pub demap_symbols-map_bits :
      (i : ℕ) (bits : List ℕ) {mc : Modcod}
      → get_modcod i ≡ some mc
      → length bits ≡ tx_coded_bits mc
      → All (λ (b : ℕ). b ≤ 1) bits
      → map (hard is_negative) (demap_symbols ops mc bpsk_scale qpsk_scale (map_bits ops mc bits))
        ≡ bits
  demap_symbols-map_bits i bits {mc} e size h =
      AllFrom-get_elem? Maps 1 modcod_table (i - 1) table-Maps (get_modcod_table i e) bits size h
