-- ===== src/Streaming/Ringbuf/Index.antt =====
-- Indices of a ring whose size is a power of two: the mask is the remainder, and the wrap of the
-- free-running counters at 2^32 does not disturb it.
use native.Mathlib.Nat.{
  mod-mod_of_dvd, dvd-mul_right_of_dvd, dvd_refl, pow-suc, mod-add-mod, mod-eq_of_lt,
  mod-eq-sub-mod, one-le-pow, pow-le-pow_right, le_trans, le_of_eq,
}
use native.Mathlib.Decide.{dec_lt}
use open_vlsnr.Prelude.{ℕ, zero, suc, ◌+◌, ◌-◌, ◌%◌, ◌^◌, ◌≤◌, ◌<◌, ◌≡◌, ◌≢◌, arith, bit_and, u32}
use Prim.Native.Nat.{◌∣◌}
use mathlib.Core.Path.{subst}
use open_vlsnr.Bits.{bit_and_mask}

two_pow-dvd : (k m : ℕ) → 2 ^ k ∣ 2 ^ (m + k)
two_pow-dvd k zero = let e : 0 + k ≡ k = omega arith in rw e (dvd_refl (2 ^ k))
two_pow-dvd k (suc m) =
    let e : suc m + k ≡ suc (m + k) = omega arith in
    rw (e, pow-suc 2 (m + k)) (dvd-mul_right_of_dvd (2 ^ k) (two_pow-dvd k m) 2)

-- `size` is a power of two that a `uint32_t` holds.
pub record IsSize (size : ℕ) : Type 0 where
  pub bits : ℕ
  pub power : size ≡ 2 ^ bits
  pub small : bits ≤ 31

pub size-pos : {size : ℕ} → IsSize size → 0 < size
size-pos v = omega (arith, v.power, one-le-pow v.bits 2 (omega arith))

pub size-le : {size : ℕ} → IsSize size → size ≤ 2 ^ 31
size-le v = le_trans (le_of_eq v.power) (pow-le-pow_right (omega arith) v.small)

pub wrap-mod : {size : ℕ} (a : ℕ) → IsSize size → u32 a % size ≡ a % size
wrap-mod {size} a v =
    let e : 32 - v.bits + v.bits ≡ 32 = omega (arith, v.small) in
    mod-mod_of_dvd size a
      (rw v.power (subst (λ n. 2 ^ v.bits ∣ 2 ^ n) e (two_pow-dvd v.bits (32 - v.bits))))

pub mask-mod : {size : ℕ} (a : ℕ) → IsSize size → bit_and a (size - 1) ≡ a % size
mask-mod a v = rw v.power (bit_and_mask v.bits a)

-- Fewer than `s` steps round the ring do not come back to the start.
pub add-mod-ne : (s t k : ℕ) → 0 < k → k < s → (t + k) % s ≢ t % s
add-mod-ne s t k pos below = elim (dec_lt (t % s + k) s) [
  | yes p ↦ omega (arith, mod-add-mod t s k, mod-eq_of_lt p)
  | no p ↦ omega (
    arith,
    mod-add-mod t s k,
    mod-eq-sub-mod {n = t % s + k} {m = s} (omega arith),
    mod-eq_of_lt {n = t % s + k - s} {m = s} (omega arith),
  )
]
