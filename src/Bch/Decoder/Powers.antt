-- ===== src/Bch/Decoder/Powers.antt =====
-- The powers of the generator of the field in the tables of src/bch_decode.c.
use native.Mathlib.Nat.{
  pow-suc, div-div-eq-div-mul, div-one, one-le-pow, mul-suc, div-add-mod, mod-mod,
}
use open_vlsnr.Prelude.{
  ℕ, zero, suc, ◌+◌, ◌*◌, ◌/◌, ◌%◌, ◌^◌, ◌<◌, ◌≡◌, refl, sym, ap, ap₂, ◌∙◌, bit_and, bit_xor, Bool,
  true, false, length, get_or, arith, ◌==◌, if◌then◌else◌, ◌<<<◌, eq_cases, inl, inr,
}
use open_vlsnr.Bits.{bit_and_step, zero-bit_xor, bit_xor_step, mul-two-pow-suc, bit_and_one}
use open_vlsnr.Bits.Xor.{xor_self, xor-zero, xor_swap, xor-div-two, xor-mod-two}
use open_vlsnr.Bch.Init.{exp_loop}

-- Bit m of d.
bit_at : (m d : ℕ) → bit_and d (2 ^ m) ≡ d / 2 ^ m % 2 * 2 ^ m
bit_at zero d = omega (arith, bit_and_one d)
bit_at (suc m) d =
    let half : 2 ^ suc m / 2 ≡ 2 ^ m = omega (arith, pow-suc 2 m) in
    let even : 2 ^ suc m % 2 ≡ 0 = omega (arith, pow-suc 2 m) in
    let smaller : bit_and d (2 ^ suc m) ≡ bit_and (d / 2) (2 ^ m) * 2 =
      omega (arith, bit_and_step d (2 ^ suc m), even, ap (bit_and (d / 2)) half) in
    let at : d / 2 / 2 ^ m ≡ d / 2 ^ suc m =
      div-div-eq-div-mul d 2 (2 ^ m)
      ∙ ap (λ (k : ℕ). d / k) (let e : 2 * 2 ^ m ≡ 2 ^ suc m = omega (arith, pow-suc 2 m) in e) in
    omega (
      arith,
      smaller,
      bit_at m (d / 2),
      at,
      ap (λ (k : ℕ). k % 2 * 2 ^ m) at,
      mul-two-pow-suc (d / 2 ^ suc m % 2) m,
    )

-- One step of the loop of `gf_init`: the product with the generator.
unfoldable pub times_x : ℕ → ℕ → ℕ → ℕ
times_x m poly r =
    let doubled = r <<< 1 in if bit_and doubled (2 ^ m) == 0 then doubled else bit_xor doubled poly

-- The bit of a number that its double has at place m.
abbrev top : ℕ → ℕ → ℕ
top m r = r * 2 / 2 ^ m % 2

times_x_lem : (m poly r : ℕ) → times_x m poly r ≡ bit_xor (r * 2) (top m r * poly)
unfolding times_x
times_x_lem m poly r = elim (eq_cases (top m r) 0) [
  | inl z ↦
      let clear : (bit_and (r * 2) (2 ^ m) == 0) ≡ true =
        ground (arith, bit_at m (r * 2), ap (λ (k : ℕ). k * 2 ^ m) z) in
      let none_added : top m r * poly ≡ 0 = ap (λ (k : ℕ). k * poly) z ∙ omega arith in
      ap (λ (c : Bool). if c then r * 2 else bit_xor (r * 2) poly) clear
      ∙ sym (ap (bit_xor (r * 2)) none_added ∙ xor-zero (r * 2))
  | inr set ↦
      let one : top m r ≡ 1 = omega arith in
      let raised : (bit_and (r * 2) (2 ^ m) == 0) ≡ false =
        ground
          (arith, bit_at m (r * 2), ap (λ (k : ℕ). k * 2 ^ m) one, one-le-pow m 2 (omega arith)) in
      let added : top m r * poly ≡ poly = ap (λ (k : ℕ). k * poly) one ∙ omega arith in
      ap (λ (c : Bool). if c then r * 2 else bit_xor (r * 2) poly) raised
      ∙ sym (ap (bit_xor (r * 2)) added)
]

xor-div-pow : (m a b : ℕ) → bit_xor a b / 2 ^ m ≡ bit_xor (a / 2 ^ m) (b / 2 ^ m)
xor-div-pow zero a b = omega (arith, ap₂ bit_xor (div-one a) (div-one b))
xor-div-pow (suc m) a b =
    sym (halves (bit_xor a b))
    ∙ ap (λ (k : ℕ). k / 2 ^ m) (xor-div-two a b)
    ∙ xor-div-pow m (a / 2) (b / 2)
    ∙ ap₂ bit_xor (halves a) (halves b)
  where
    halves : (c : ℕ) → c / 2 / 2 ^ m ≡ c / 2 ^ suc m
    halves c =
        div-div-eq-div-mul c 2 (2 ^ m)
        ∙ ap (λ (k : ℕ). c / k) (let e : 2 * 2 ^ m ≡ 2 ^ suc m = omega (arith, pow-suc 2 m) in e)

xor-double : (a b : ℕ) → bit_xor a b * 2 ≡ bit_xor (a * 2) (b * 2)
xor-double a b = omega (arith, bit_xor_step (a * 2) (b * 2), ap₂ bit_xor (halved a) (halved b))
  where
    halved : (c : ℕ) → c * 2 / 2 ≡ c
    halved c = omega arith

top-xor : (m a b : ℕ) → top m (bit_xor a b) ≡ (top m a + top m b) % 2
top-xor m a b = omega (
  arith,
  ap (λ (k : ℕ). k / 2 ^ m % 2) (xor-double a b),
  ap (λ (k : ℕ). k % 2) (xor-div-pow m (a * 2) (b * 2)),
  xor-mod-two (a * 2 / 2 ^ m) (b * 2 / 2 ^ m),
)

-- A sum of two bits, times a number.
pub bit_times-xor : (a b w : ℕ) → (a + b) % 2 * w ≡ bit_xor (a % 2 * w) (b % 2 * w)
bit_times-xor a b w = elim (eq_cases (a % 2) 0) [
  | inl p ↦
      let e : (a + b) % 2 ≡ b % 2 = omega arith in
      ap (λ (k : ℕ). k * w) e ∙ sym (ap (λ (k : ℕ). bit_xor (k * w) (b % 2 * w)) p ∙ no_first)
  | inr p ↦ elim (eq_cases (b % 2) 0) [
    | inl q ↦
        let e : (a + b) % 2 ≡ a % 2 = omega arith in
        ap (λ (k : ℕ). k * w) e ∙ sym (ap (λ (k : ℕ). bit_xor (a % 2 * w) (k * w)) q ∙ no_second)
    | inr q ↦
        let e : (a + b) % 2 ≡ 0 = omega arith in
        let same : a % 2 ≡ b % 2 = omega arith in
        ap (λ (k : ℕ). k * w) e
        ∙ sym
            (ap (λ (k : ℕ). bit_xor (k * w) (b % 2 * w)) same ∙ xor_self (b % 2 * w) ∙ omega arith)
  ]
]
  where
    no_first : bit_xor (0 * w) (b % 2 * w) ≡ b % 2 * w
    no_first = ap (λ (k : ℕ). bit_xor k (b % 2 * w)) (omega arith) ∙ zero-bit_xor (b % 2 * w)

    no_second : bit_xor (a % 2 * w) (0 * w) ≡ a % 2 * w
    no_second = ap (bit_xor (a % 2 * w)) (omega arith) ∙ xor-zero (a % 2 * w)

times_x-xor :
    (m poly a b : ℕ) → times_x m poly (bit_xor a b) ≡ bit_xor (times_x m poly a) (times_x m poly b)
times_x-xor m poly a b =
    times_x_lem m poly (bit_xor a b)
    ∙ ap₂ bit_xor (xor-double a b) (
        ap (λ (k : ℕ). k * poly) (top-xor m a b)
        ∙ bit_times-xor (top m a) (top m b) poly
        ∙ ap₂ (λ (j k : ℕ). bit_xor (j * poly) (k * poly)) (mod-mod (a * 2 / 2 ^ m) 2)
            (mod-mod (b * 2 / 2 ^ m) 2))
    ∙ xor_swap (a * 2) (b * 2) (top m a * poly) (top m b * poly)
    ∙ sym (ap₂ bit_xor (times_x_lem m poly a) (times_x_lem m poly b))

-- `k` steps.
unfoldable pub power_from : ℕ → ℕ → ℕ → ℕ → ℕ
power_from m poly zero r = r
power_from m poly (suc k) r = power_from m poly k (times_x m poly r)

-- The k-th power of the generator.
abbrev pub power : ℕ → ℕ → ℕ → ℕ
power m poly k = power_from m poly k 1

module _ (m poly : ℕ) where
  pub power_from-xor :
      (k a b : ℕ)
      → power_from m poly k (bit_xor a b) ≡ bit_xor (power_from m poly k a) (power_from m poly k b)
  unfolding power_from
  power_from-xor zero a b = refl
  power_from-xor (suc k) a b =
      ap (power_from m poly k) (times_x-xor m poly a b)
      ∙ power_from-xor k (times_x m poly a) (times_x m poly b)

  pub power_from-zero : (k : ℕ) → power_from m poly k 0 ≡ 0
  power_from-zero k =
      ap (power_from m poly k) (sym (xor_self 0))
      ∙ power_from-xor k 0 0
      ∙ xor_self (power_from m poly k 0)

  pub power_from-add :
      (j k r : ℕ) → power_from m poly (j + k) r ≡ power_from m poly k (power_from m poly j r)
  unfolding power_from
  power_from-add zero k r =
      ap (λ (i : ℕ). power_from m poly i r) (let e : 0 + k ≡ k = omega arith in e)
  power_from-add (suc j) k r =
      ap (λ (i : ℕ). power_from m poly i r) (let e : suc j + k ≡ suc (j + k) = omega arith in e)
      ∙ power_from-add j k (times_x m poly r)

  -- The table holds the powers.
  pub get_or-exp_loop :
      (left reg k : ℕ) → k < left → get_or (exp_loop left m poly reg) k 0 ≡ power_from m poly k reg
  unfolding exp_loop power_from times_x
  get_or-exp_loop zero reg k h = absurd (omega arith)
  get_or-exp_loop (suc left) reg zero h = refl
  get_or-exp_loop (suc left) reg (suc k) h =
      get_or-exp_loop left (times_x m poly reg) k (omega arith)

  pub length-exp_loop : (left reg : ℕ) → length (exp_loop left m poly reg) ≡ left
  unfolding exp_loop
  length-exp_loop zero reg = refl
  length-exp_loop (suc left) reg = ap suc (length-exp_loop left _)

  -- The powers repeat.
  rounds : (n q r : ℕ) → power m poly n ≡ 1 → power m poly (n * q + r) ≡ power m poly r
  rounds n zero r e = ap (power m poly) (omega (arith))
  rounds n (suc q) r e =
      ap (power m poly) (let s : n * suc q + r ≡ n + (n * q + r) = omega (arith, mul-suc n q) in s)
      ∙ power_from-add n (n * q + r) 1
      ∙ ap (power_from m poly (n * q + r)) e
      ∙ rounds n q r e

  pub power-mod : (n k : ℕ) → power m poly n ≡ 1 → power m poly (k % n) ≡ power m poly k
  power-mod n k e = sym (rounds n (k / n) (k % n) e) ∙ ap (power m poly) (div-add-mod k n)
