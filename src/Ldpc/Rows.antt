-- ===== src/Ldpc/Rows.antt =====
-- The rows of the parity-check matrix that `build_csr` of src/ldpc_decode.c builds, and
-- the encoder's loops over the address table.
use native.Mathlib.Nat.{suc-mul, mul-le-mul_right, mod-lt, mod-eq_of_lt, mod-eq-sub-mod}
use native.Mathlib.Decide.{dec_lt}
use open_vlsnr.Prelude.{
  ℕ, zero, suc, ◌+◌, ◌-◌, ◌*◌, ◌%◌, ◌≤◌, ◌<◌, bit_xor, ◌≡◌, refl, sym, ap, ◌∙◌, true, false, List,
  [], ◌∷◌, arith, All, length, take, drop, set, get_or, get_or-set_self, get_or-set_ne, length-set,
  length-take, ◌==◌, ==_iff, eq_cases, inl, inr, if◌then◌else◌,
}
use open_vlsnr.Bits.Xor.{xor-zero, xor_assoc}
use open_vlsnr.Types.{ldpc_parallel}
use open_vlsnr.Ldpc.{TableEntry, flip, wrap_addr, add_addrs, add_bit, add_bits, add_groups}

-- How often, modulo 2, bit `j` of a group with this entry stands in row `r`.
unfoldable pub entry_weight : ℕ → ℕ → ℕ → ℕ → TableEntry → ℕ
entry_weight m q r j [] = 0
entry_weight m q r j (a ∷ addrs) =
    bit_xor (if (a + j * q) % m == r then 1 else 0) (entry_weight m q r j addrs)

-- A bit that is set counts.
abbrev pub counted : ℕ → ℕ → ℕ
counted zero weight = 0
counted (suc b) weight = weight

-- The sum over row `r` of the bits of a group, from bit `j` on.
unfoldable pub group_sum : ℕ → ℕ → ℕ → ℕ → TableEntry → List ℕ → ℕ
group_sum m q r j entry [] = 0
group_sum m q r j entry (b ∷ bits) =
    bit_xor (counted b (entry_weight m q r j entry)) (group_sum m q r (suc j) entry bits)

-- The sum over row `r` of the information bits.
unfoldable pub info_sum : ℕ → ℕ → ℕ → List TableEntry → List ℕ → ℕ
info_sum m q r [] info = 0
info_sum m q r (entry ∷ table) info =
    bit_xor (group_sum m q r 0 entry (take ldpc_parallel info))
      (info_sum m q r table (drop ldpc_parallel info))

length-flip : (addr : ℕ) (parity : List ℕ) → length (flip addr parity) ≡ length parity
unfolding flip
length-flip addr parity = length-set parity addr (bit_xor (get_or parity addr 0) 1)

get_or-flip :
    (addr r : ℕ) (parity : List ℕ)
    → addr < length parity
    → get_or (flip addr parity) r 0 ≡ bit_xor (get_or parity r 0) (if addr == r then 1 else 0)
unfolding flip
get_or-flip addr r parity h = elim (eq_cases addr r) [
  | inl e ↦
      (let here : (addr == r) ≡ true = (==_iff addr r).1 e in
        rw here (
          ap (λ (t : ℕ). get_or (set parity addr (bit_xor (get_or parity addr 0) 1)) t 0) (sym e)
          ∙ get_or-set_self parity addr (bit_xor (get_or parity addr 0) 1) 0 h
          ∙ ap (λ (t : ℕ). bit_xor (get_or parity t 0) 1) e))
  | inr ne ↦
      (let other : (addr == r) ≡ false = ground (arith, ne) in
        rw other (
          get_or-set_ne parity (bit_xor (get_or parity addr 0) 1) 0 ne
          ∙ sym (xor-zero (get_or parity r 0))))
]

wrap_addr-mod : (m addr : ℕ) → addr < m + m → wrap_addr m addr ≡ addr % m
unfolding wrap_addr
wrap_addr-mod m addr h = elim (dec_lt addr m) [
  | yes p ↦ ground (arith, mod-eq_of_lt p)
  | no p ↦ ground (
    arith,
    mod-eq-sub-mod {n = addr} {m = m} (omega arith),
    mod-eq_of_lt {n = addr - m} {m = m} (omega arith),
  )
]

pub length-add_addrs :
    (m shift : ℕ) (addrs : TableEntry) (parity : List ℕ)
    → length (add_addrs m shift addrs parity) ≡ length parity
unfolding add_addrs
length-add_addrs m shift [] parity = refl
length-add_addrs m shift (a ∷ addrs) parity =
    length-add_addrs m shift addrs (flip (wrap_addr m (a + shift)) parity)
    ∙ length-flip (wrap_addr m (a + shift)) parity

pub get_or-add_addrs :
    (m q r j : ℕ) (addrs : TableEntry) (parity : List ℕ)
    → length parity ≡ m
    → j * q < m
    → All (λ a. a < m) addrs
    → get_or (add_addrs m (j * q) addrs parity) r 0
      ≡ bit_xor (get_or parity r 0) (entry_weight m q r j addrs)
unfolding add_addrs entry_weight
get_or-add_addrs m q r j [] parity len small fit = sym (xor-zero (get_or parity r 0))
get_or-add_addrs m q r j (a ∷ addrs) parity len small fit =
    let addr = wrap_addr m (a + j * q) in
    let e : addr ≡ (a + j * q) % m = wrap_addr-mod m (a + j * q) (omega (arith, fit.0)) in
    let below : addr < length parity =
      omega (arith, mod-lt (a + j * q) {m = m} (omega (arith, fit.0))) in
    get_or-add_addrs m q r j addrs (flip addr parity) (length-flip addr parity ∙ len) small fit.1
    ∙ ap (λ (t : ℕ). bit_xor t (entry_weight m q r j addrs)) (get_or-flip addr r parity below)
    ∙ xor_assoc (get_or parity r 0) (if addr == r then 1 else 0) (entry_weight m q r j addrs)
    ∙ ap
        (λ (t : ℕ).
          bit_xor (get_or parity r 0)
            (bit_xor (if t == r then 1 else 0) (entry_weight m q r j addrs)))
        e

module _ (m q r j : ℕ) (entry : TableEntry) (parity : List ℕ) where
  length-add_bit : (b shift : ℕ) → length (add_bit m shift entry b parity) ≡ length parity
  length-add_bit zero shift = refl
  length-add_bit (suc b) shift = length-add_addrs m shift entry parity

  get_or-add_bit :
      (b : ℕ)
      → length parity ≡ m
      → j * q < m
      → All (λ a. a < m) entry
      → get_or (add_bit m (j * q) entry b parity) r 0
        ≡ bit_xor (get_or parity r 0) (counted b (entry_weight m q r j entry))
  get_or-add_bit zero len small fit = sym (xor-zero (get_or parity r 0))
  get_or-add_bit (suc b) len small fit = get_or-add_addrs m q r j entry parity len small fit

length-add_bits :
    (m q shift : ℕ) (entry : TableEntry) (bits parity : List ℕ)
    → length (add_bits m q shift entry bits parity) ≡ length parity
unfolding add_bits
length-add_bits m q shift entry [] parity = refl
length-add_bits m q shift entry (b ∷ bits) parity =
    length-add_bits m q (shift + q) entry bits (add_bit m shift entry b parity)
    ∙ length-add_bit m q 0 0 entry parity b shift

-- The loop of a group adds the group's share of the row.
get_or-add_bits :
    (m q r j : ℕ) (entry : TableEntry) (bits parity : List ℕ)
    → length parity ≡ m
    → 0 < q
    → j * q + length bits * q ≤ m
    → All (λ a. a < m) entry
    → get_or (add_bits m q (j * q) entry bits parity) r 0
      ≡ bit_xor (get_or parity r 0) (group_sum m q r j entry bits)
unfolding add_bits group_sum
get_or-add_bits m q r j entry [] parity len pos room fit = sym (xor-zero (get_or parity r 0))
get_or-add_bits m q r j entry (b ∷ bits) parity len pos room fit =
    let next = add_bit m (j * q) entry b parity in
    let weight = counted b (entry_weight m q r j entry) in
    ap (λ (t : ℕ). get_or (add_bits m q t entry bits next) r 0) (sym (suc-mul j q))
    ∙ get_or-add_bits m q r (suc j) entry bits next
        (length-add_bit m q r j entry parity b (j * q) ∙ len) pos
        (omega (arith, suc-mul j q, suc-mul (length bits) q)) fit
    ∙ ap (λ (t : ℕ). bit_xor t (group_sum m q r (suc j) entry bits))
        (get_or-add_bit m q r j entry parity b len (omega (arith, suc-mul (length bits) q)) fit)
    ∙ xor_assoc (get_or parity r 0) weight (group_sum m q r (suc j) entry bits)

pub length-add_groups :
    (m q : ℕ) (table : List TableEntry) (info parity : List ℕ)
    → length (add_groups m q table info parity) ≡ length parity
unfolding add_groups
length-add_groups m q [] info parity = refl
length-add_groups m q (entry ∷ table) info parity =
    length-add_groups m q table (drop ldpc_parallel info)
      (add_bits m q 0 entry (take ldpc_parallel info) parity)
    ∙ length-add_bits m q 0 entry (take ldpc_parallel info) parity

-- The whole first step of the encoder adds the row's sum to each parity bit.
pub get_or-add_groups :
    (m q r : ℕ) (table : List TableEntry) (info parity : List ℕ)
    → length parity ≡ m
    → 0 < q
    → ldpc_parallel * q ≤ m
    → All (All (λ a. a < m)) table
    → get_or (add_groups m q table info parity) r 0
      ≡ bit_xor (get_or parity r 0) (info_sum m q r table info)
unfolding add_groups info_sum
get_or-add_groups m q r [] info parity len pos room fit = sym (xor-zero (get_or parity r 0))
get_or-add_groups m q r (entry ∷ table) info parity len pos room fit =
    let bits = take ldpc_parallel info in
    let next = add_bits m q 0 entry bits parity in
    let few : 0 * q + length bits * q ≤ m = omega (
      arith,
      length-take ldpc_parallel info,
      mul-le-mul_right {m = length bits} {n = ldpc_parallel} q
          (omega (arith, length-take ldpc_parallel info)),
    ) in
    get_or-add_groups m q r table (drop ldpc_parallel info) next
      (length-add_bits m q 0 entry bits parity ∙ len) pos room fit.1
    ∙ ap (λ (t : ℕ). bit_xor t (info_sum m q r table (drop ldpc_parallel info)))
        (ap (λ (t : ℕ). get_or (add_bits m q t entry bits parity) r 0) (omega arith)
          ∙ get_or-add_bits m q r 0 entry bits parity len pos few fit.0)
    ∙ xor_assoc (get_or parity r 0) (group_sum m q r 0 entry bits)
        (info_sum m q r table (drop ldpc_parallel info))
