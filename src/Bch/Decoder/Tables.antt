-- ===== src/Bch/Decoder/Tables.antt =====
-- The tables of `gf_init` (src/bch_decode.c) belong together: the logarithm of a power is its exponent.
use native.Mathlib.Nat.{mod-lt, add-mod}
use open_vlsnr.Prelude.{
  ℕ, zero, suc, ◌+◌, ◌-◌, ◌*◌, ◌%◌, ◌^◌, ◌≤◌, ◌<◌, ◌≡◌, ◌≢◌, refl, sym, ap, ap₂, ◌∙◌, Bool, true,
  false, ◌&&◌, List, [], ◌∷◌, ◌++◌, length, length-set, length-replicate, get_or, get_or-set_self,
  get_or-set_ne, set, replicate, arith, ltb, lt_cases, inl, inr,
}
use open_vlsnr.Types.{FrameType, normal, medium, short_frame}
use open_vlsnr.Bch.{field_degree, prim_poly}
use open_vlsnr.Bch.Init.{exp_loop}
use open_vlsnr.Bch.Decoder.{GfTables, gf_init, log_loop, gf_mul}
use open_vlsnr.Bch.Decoder.Syndromes.{get_or-append}
use open_vlsnr.Bch.Decoder.Powers.{
  power, power_from, times_x, power_from-add, get_or-exp_loop, length-exp_loop, power-mod,
}

-- `left` powers, from `r` on, are numbers of the field other than 0 and 1.
unfoldable pub proper : ℕ → ℕ → ℕ → ℕ → Bool
proper m poly zero r = true
proper m poly (suc left) r = elim (ltb 1 r && ltb r (2 ^ m)) [
  | true ↦ proper m poly left (times_x m poly r)
  | false ↦ false
]

-- What makes the polynomial primitive: the powers come back to 1 after `2 ^ m - 1`, and not before.
pub record IsPrimitive (m poly : ℕ) : Type 0 where
  pub repeats : power m poly (2 ^ m - 1) ≡ 1
  pub between : proper m poly (2 ^ m - 2) (times_x m poly 1) ≡ true
  pub large : 4 ≤ 2 ^ m

pub field-IsPrimitive : (ft : FrameType) → IsPrimitive (field_degree ft) (prim_poly ft)
unfolding field_degree prim_poly power_from times_x proper
field-IsPrimitive normal = record { repeats = refl; between = refl; large = omega arith }
field-IsPrimitive medium = record { repeats = refl; between = refl; large = omega arith }
field-IsPrimitive short_frame = record { repeats = refl; between = refl; large = omega arith }

both_true : (b x : Bool) → (elim b [ true ↦ x | false ↦ false ]) ≡ true → (b ≡ true) × (x ≡ true)
both_true true x h = (refl, h)
both_true false x h = let f : false ≡ true = h in absurd cc

between_lem : (a b c : ℕ) → (ltb a b && ltb b c) ≡ true → (a < b) × (b < c)
between_lem a b c h = ground arith

proper_at :
    (m poly left r k : ℕ)
    → proper m poly left r ≡ true
    → k < left
    → (1 < power_from m poly k r) × (power_from m poly k r < 2 ^ m)
unfolding proper power_from
proper_at m poly zero r k h below = absurd (omega arith)
proper_at m poly (suc left) r zero h below =
    between_lem 1 r (2 ^ m) (both_true (ltb 1 r && ltb r (2 ^ m)) _ h).0
proper_at m poly (suc left) r (suc k) h below =
    proper_at m poly left (times_x m poly r) k
      (both_true (ltb 1 r && ltb r (2 ^ m)) (proper m poly left (times_x m poly r)) h).1
      (omega arith)

module _ (m poly : ℕ) (field : IsPrimitive m poly) where
  -- The powers between.
  power_between : (k : ℕ) → 0 < k → k < 2 ^ m - 1 → (1 < power m poly k) × (power m poly k < 2 ^ m)
  unfolding power_from
  power_between zero pos below = absurd (omega arith)
  power_between (suc k) pos below =
      proper_at m poly (2 ^ m - 2) (times_x m poly 1) k field.between (omega arith)

  power_small : (k : ℕ) → k < 2 ^ m - 1 → (1 ≤ power m poly k) × (power m poly k < 2 ^ m)
  unfolding power_from
  power_small zero below = (omega arith, omega (arith, field.large))
  power_small (suc k) below =
      let (low, high) = power_between (suc k) (omega arith) below in (omega arith, high)

  pub power-one : (k : ℕ) → power m poly k ≡ 1 → k % (2 ^ m - 1) ≡ 0
  power-one k e = elim (lt_cases 0 (k % (2 ^ m - 1))) [
    | inl pos ↦
        let (big, small) =
          power_between (k % (2 ^ m - 1)) pos (mod-lt k (omega (arith, field.large))) in
        absurd (omega (arith, big, power-mod m poly (2 ^ m - 1) k field.repeats, e))
    | inr none ↦ omega arith
  ]

  pub power-ne-zero : (k : ℕ) → power m poly k ≢ 0
  power-ne-zero k e =
      let n : ℕ = 2 ^ m - 1 in
      let (low, high) = power_small (k % n) (mod-lt k (omega (arith, field.large))) in
      omega (arith, low, power-mod m poly n k field.repeats, e)

  -- No power comes twice.
  power-ne : (j k : ℕ) → j < k → k < 2 ^ m - 1 → power m poly j ≢ power m poly k
  power-ne j k lt below e =
      let n : ℕ = 2 ^ m - 1 in
      let home : power m poly n ≡ power_from m poly (n - j) (power m poly j) =
        ap (power m poly) (let s : n ≡ j + (n - j) = omega arith in s)
        ∙ power_from-add m poly j (n - j) 1 in
      let further : power_from m poly (n - j) (power m poly k) ≡ power m poly (k - j) =
        sym (power_from-add m poly k (n - j) 1)
        ∙ ap (power m poly) (let s : k + (n - j) ≡ n + (k - j) = omega arith in s)
        ∙ power_from-add m poly n (k - j) 1
        ∙ ap (power_from m poly (k - j)) field.repeats in
      let one : power m poly (k - j) ≡ 1 =
        sym further ∙ ap (power_from m poly (n - j)) (sym e) ∙ sym home ∙ field.repeats in
      let (big, small) = power_between (k - j) (omega arith) (omega arith) in
      omega (arith, big, one)

  power_next : (i : ℕ) → times_x m poly (power m poly i) ≡ power m poly (i + 1)
  unfolding power_from
  power_next i = sym (power_from-add m poly i 1 1)

  log_loop-power :
      (left i reg k : ℕ) (log : List ℕ)
      → reg ≡ power m poly i
      → left + i ≤ 2 ^ m - 1
      → length log ≡ 2 ^ m
      → (k < i → get_or log (power m poly k) 0 ≡ k)
      → k < i + left
      → get_or (log_loop left m poly i reg log) (power m poly k) 0 ≡ k
  unfolding log_loop times_x
  log_loop-power zero i reg k log at fits len known below = known (omega arith)
  log_loop-power (suc left) i reg k log at fits len known below =
      log_loop-power left (i + 1) (times_x m poly reg) k (set log reg i)
        (ap (times_x m poly) at ∙ power_next i) (omega arith) (length-set log reg i ∙ len) kept
        (omega arith)
    where
      kept : k < i + 1 → get_or (set log reg i) (power m poly k) 0 ≡ k
      kept lt = elim (lt_cases k i) [
        | inl less ↦
            get_or-set_ne log i 0 (λ e. power-ne k i less (omega arith) (sym e ∙ at)) ∙ known less
        | inr same ↦
            let e : k ≡ i = omega arith in
            let inside : reg < length log =
              omega (arith, at, (power_small i (omega arith)).1, len) in
            ap (λ (n : ℕ). get_or (set log reg i) n 0) (ap (power m poly) e ∙ sym at)
            ∙ get_or-set_self log reg i 0 inside
            ∙ sym e
      ]

  -- `log_table` and `exp_table` undo each other.
  pub log-power : (k : ℕ) → get_or (gf_init m poly).log_table (power m poly k) 0 ≡ k % (2 ^ m - 1)
  unfolding gf_init power_from
  log-power k =
      let n : ℕ = 2 ^ m - 1 in
      let zeros : List ℕ = replicate (2 ^ m) 0 in
      let below : k % n < n = mod-lt k (omega (arith, field.large)) in
      ap (λ (e : ℕ). get_or (log_loop n m poly 0 1 zeros) e 0)
        (sym (power-mod m poly n k field.repeats))
      ∙ log_loop-power n 0 1 (k % n) zeros refl (omega arith) (length-replicate {A = ℕ} (2 ^ m) 0)
          (λ h. absurd (omega arith)) (omega arith)

  get_or-twice : (xs ys : List ℕ) (k : ℕ) → get_or (xs ++ ys) (length xs + k) 0 ≡ get_or ys k 0
  get_or-twice [] ys k = ap (λ (i : ℕ). get_or ys i 0) (omega arith)
  get_or-twice (x ∷ xs) ys k =
      ap (λ (i : ℕ). get_or (x ∷ (xs ++ ys)) i 0)
        (let s : suc (length xs) + k ≡ suc (length xs + k) = omega arith in s)
      ∙ get_or-twice xs ys k

  -- Both halves of `exp_table` hold the powers.
  pub exp-power :
      (k : ℕ) → k < 2 * (2 ^ m - 1) → get_or (gf_init m poly).exp_table k 0 ≡ power m poly k
  unfolding gf_init
  exp-power k below = elim (lt_cases k n) [
    | inl low ↦
        get_or-append table table k 0 (omega (arith, len)) ∙ get_or-exp_loop m poly n 1 k low
    | inr high ↦
        let at : k ≡ length table + (k - n) = omega (arith, len) in
        ap (λ (i : ℕ). get_or (table ++ table) i 0) at
        ∙ get_or-twice table table (k - n)
        ∙ get_or-exp_loop m poly n 1 (k - n) (omega arith)
        ∙ sym (
            ap (power m poly) (let s : k ≡ n + (k - n) = omega arith in s)
            ∙ power_from-add m poly n (k - n) 1
            ∙ ap (power_from m poly (k - n)) field.repeats)
  ]
    where
      n : ℕ
      n = 2 ^ m - 1

      table : List ℕ
      table = exp_loop n m poly 1

      len : length table ≡ n
      len = length-exp_loop m poly n 1

  gf_mul_ne :
      (gf : GfTables) (a b : ℕ)
      → a ≢ 0
      → b ≢ 0
      → gf_mul gf a b ≡ get_or gf.exp_table (get_or gf.log_table a 0 + get_or gf.log_table b 0) 0
  unfolding gf_mul
  gf_mul_ne gf zero b h k = absurd (h refl)
  gf_mul_ne gf (suc a) zero h k = absurd (k refl)
  gf_mul_ne gf (suc a) (suc b) h k = refl

  -- `gf_mul` adds exponents.
  pub gf_mul-power :
      (a b : ℕ) → gf_mul (gf_init m poly) (power m poly a) (power m poly b) ≡ power m poly (a + b)
  gf_mul-power a b =
      let gf = gf_init m poly in
      let n : ℕ = 2 ^ m - 1 in
      let pos : 0 < n = omega (arith, field.large) in
      gf_mul_ne gf (power m poly a) (power m poly b) (power-ne-zero a) (power-ne-zero b)
      ∙ ap₂ (λ (i j : ℕ). get_or gf.exp_table (i + j) 0) (log-power a) (log-power b)
      ∙ exp-power (a % n + b % n) (omega (arith, mod-lt a pos, mod-lt b pos))
      ∙ sym (power-mod m poly n (a % n + b % n) field.repeats)
      ∙ ap (power m poly) (sym (add-mod a b n))
      ∙ power-mod m poly n (a + b) field.repeats
