-- ===== src/Puncture/RoundTrip.antt =====
-- Puncturing and depuncturing (src/modulator_top.c, src/demodulator_top.c) against the positions
-- 0, p_period, ..., (xp - 1) p_period of the parity bits.
use open_vlsnr.Prelude.{
  ℕ, suc, ◌+◌, ◌-◌, ◌<◌, ◌≡◌, refl, sym, ap, ap₂, ◌∙◌, true, false, some, List, [], ◌∷◌, ◌++◌,
  arith, length, take, drop, map, replicate, if◌then◌else◌, Bool-cases, inl, inr, length-append,
  length-take, length-drop, length-map, map-append, take_all, take-append, drop-append, AllFrom,
  AllFrom-get_elem?,
}
use open_vlsnr.Types.{Modcod, tx_coded_bits}
use open_vlsnr.Modcod.{modcod_table, get_modcod}
use open_vlsnr.Modcod.Consistency.{get_modcod_table, get_modcod-IsConsistent}
use open_vlsnr.Puncture.{is_punctured, puncture, sent_bits, depuncture, full_llr}
use open_vlsnr.Puncture.Places.{
  hits, Places, is_punctured-eq-hits, Places-hit, Places-miss, length-puncture,
}

-- The values of the parity bits, with the punctured ones marked.
pub marked {ℓ κ} : {A : Type ℓ} → {B : Type κ} → B → (A → B) → ℕ → ℕ → ℕ → List A → List B
marked erased f xp p_period i [] = []
marked erased f xp p_period i (b ∷ parity) =
    (if hits xp p_period i then erased else f b) ∷ marked erased f xp p_period (i + 1) parity

module _ {ℓ κ} {A : Type ℓ} {B : Type κ} (erased : B) (f : A → B) (xp p_period : ℕ)
    (pos : 0 < p_period) where
  -- One round of each loop, by its test.
  puncture_hit :
      (p_idx i : ℕ) (b : A) (parity : List A)
      → is_punctured xp p_period p_idx i ≡ true
      → puncture xp p_period p_idx i (b ∷ parity) ≡ puncture xp p_period (p_idx + 1) (i + 1) parity
  unfolding puncture
  puncture_hit p_idx i b parity h = rw (h, puncture) refl

  puncture_miss :
      (p_idx i : ℕ) (b : A) (parity : List A)
      → is_punctured xp p_period p_idx i ≡ false
      → puncture xp p_period p_idx i (b ∷ parity) ≡ b ∷ puncture xp p_period p_idx (i + 1) parity
  unfolding puncture
  puncture_miss p_idx i b parity h = rw (h, puncture) refl

  depuncture_hit :
      (left p_idx i : ℕ) (received : List B)
      → is_punctured xp p_period p_idx i ≡ true
      → depuncture erased xp p_period (suc left) p_idx i received
        ≡ erased ∷ depuncture erased xp p_period left (p_idx + 1) (i + 1) received
  unfolding depuncture
  depuncture_hit left p_idx i received h = rw (h, depuncture) refl

  depuncture_miss :
      (left p_idx i : ℕ) (a : B) (received : List B)
      → is_punctured xp p_period p_idx i ≡ false
      → depuncture erased xp p_period (suc left) p_idx i (a ∷ received)
        ≡ a ∷ depuncture erased xp p_period left p_idx (i + 1) received
  unfolding depuncture
  depuncture_miss left p_idx i a received h = rw (h, depuncture) refl

  depuncture-puncture :
      (p_idx i : ℕ) (parity : List A)
      → Places xp p_period pos p_idx i
      → depuncture erased xp p_period
          (length parity)
          p_idx
          i
          (map f (puncture xp p_period p_idx i parity))
        ≡ marked erased f xp p_period i parity
  unfolding marked depuncture puncture
  depuncture-puncture p_idx i [] v = refl
  depuncture-puncture p_idx i (b ∷ parity) v =
      let same = is_punctured-eq-hits xp p_period pos p_idx i v in
      elim (Bool-cases (is_punctured xp p_period p_idx i)) [
        | inl hit ↦
            (let w = Places-hit xp p_period pos p_idx i v hit in
              ap
                (λ (t : List A).
                  depuncture erased xp p_period (suc (length parity)) p_idx i (map f t))
                (puncture_hit p_idx i b parity hit)
              ∙ depuncture_hit (length parity) p_idx i
                  (map f (puncture xp p_period (p_idx + 1) (i + 1) parity)) hit
              ∙ rw (sym same ∙ hit) (
                  ap (λ (t : List B). erased ∷ t)
                    (depuncture-puncture (p_idx + 1) (i + 1) parity w)))
        | inr miss ↦
            (let w = Places-miss xp p_period pos p_idx i v miss in
              ap
                (λ (t : List A).
                  depuncture erased xp p_period (suc (length parity)) p_idx i (map f t))
                (puncture_miss p_idx i b parity miss)
              ∙ depuncture_miss (length parity) p_idx i (f b)
                  (map f (puncture xp p_period p_idx (i + 1) parity)) miss
              ∙ rw (sym same ∙ miss)
                  (ap (λ (t : List B). f b ∷ t) (depuncture-puncture p_idx (i + 1) parity w)))
      ]

-- The puncturing periods of the table are positive.
table_period : AllFrom (λ i mc. 0 < mc.p_period) 1 modcod_table
table_period = omega arith

-- For every MODCOD of the table and a codeword of its length: as many bits are sent as the frame has
-- coded bits, and the receiver's soft values for the codeword are the certain value at the
-- shortening zeros, the value of the bit at every other information bit and at every parity bit,
-- and no more than the erasure at the parity bits 0, p_period, ..., (xp - 1) p_period.
pub full_llr-sent_bits {ℓ κ} :
    {A : Type ℓ} {B : Type κ} (certain erased : B) (f : A → B) (i : ℕ) (codeword : List A)
    {mc : Modcod}
    → get_modcod i ≡ some mc
    → length codeword ≡ mc.fec_len
    → (length (sent_bits mc codeword) ≡ tx_coded_bits mc)
      × (full_llr certain erased mc (map f (sent_bits mc codeword))
          ≡ replicate mc.xs certain
            ++ (map f (take (mc.k_ldpc - mc.xs) (drop mc.xs codeword))
                ++ marked erased f mc.xp mc.p_period 0 (drop mc.k_ldpc codeword)))
unfolding sent_bits full_llr
full_llr-sent_bits {B} certain erased f i codeword {mc} e size =
    let (low, high, at, v) = get_modcod-IsConsistent i e in
    let pos : 0 < mc.p_period =
      AllFrom-get_elem? (λ i mc. 0 < mc.p_period) 1 modcod_table (i - 1) table_period
        (get_modcod_table i e) in
    let start : Places mc.xp mc.p_period pos 0 0 = record {
      few = omega arith;
      near = omega (arith, pos);
      ahead = λ _. omega arith;
    } in
    let info = take (mc.k_ldpc - mc.xs) (drop mc.xs codeword) in
    let parity = drop mc.k_ldpc codeword in
    let info_len : length info ≡ mc.k_ldpc - mc.xs = omega (
      arith,
      length-take (mc.k_ldpc - mc.xs) (drop mc.xs codeword),
      length-drop mc.xs codeword,
      size,
      v.circulant,
    ) in
    let parity_len : length parity ≡ mc.fec_len - mc.k_ldpc =
      omega (arith, length-drop mc.k_ldpc codeword, size) in
    let whole : take (mc.fec_len - mc.k_ldpc) parity ≡ parity =
      take_all (mc.fec_len - mc.k_ldpc) parity parity_len in
    let kept = puncture mc.xp mc.p_period 0 0 parity in
    let count : length kept + mc.xp ≡ length parity = omega (
      arith,
      length-puncture mc.xp mc.p_period pos 0 0 parity start
          (omega (arith, v.punctures_fit, parity_len)),
    ) in
    let split : map f (info ++ kept) ≡ map f info ++ map f kept = map-append info kept f in
    let front : take (mc.k_ldpc - mc.xs) (map f (info ++ kept)) ≡ map f info =
      ap (take (mc.k_ldpc - mc.xs)) split
      ∙ take-append (mc.k_ldpc - mc.xs) (map f info) (map f kept) (length-map info f ∙ info_len) in
    let back : drop (mc.k_ldpc - mc.xs) (map f (info ++ kept)) ≡ map f kept =
      ap (drop (mc.k_ldpc - mc.xs)) split
      ∙ drop-append (mc.k_ldpc - mc.xs) (map f info) (map f kept) (length-map info f ∙ info_len) in
    rw whole (
      omega (
        arith,
        length-append info kept,
        info_len,
        parity_len,
        count,
        v.coded,
        v.shortening,
        v.circulant,
      ),
      ap₂ (λ (s t : List B). replicate mc.xs certain ++ (s ++ t)) front
          (ap₂ (λ (n : ℕ) (t : List B). depuncture erased mc.xp mc.p_period n 0 0 t)
              (sym parity_len) back
            ∙ depuncture-puncture erased f mc.xp mc.p_period pos 0 0 parity start),
    )
