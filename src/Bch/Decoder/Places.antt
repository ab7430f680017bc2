-- ===== src/Bch/Decoder/Places.antt =====
-- The places that the Chien search of src/bch_decode.c finds.
use native.Mathlib.Nat.{mod-eq_of_lt, mod_self}
use mathlib.Core.Path.{subst}
use open_vlsnr.Prelude.{
  ℕ, zero, suc, ◌+◌, ◌-◌, ◌%◌, ◌≤◌, ◌<◌, ◌≡◌, ◌≢◌, refl, ap, ◌∙◌, Bool, true, false, ◌&&◌, List, [],
  ◌∷◌, All, arith, ltb, ltb→lt, leb, sym, ◌==◌, get_or,
}
use open_vlsnr.Bch.Decoder.{GfTables, chien_loop, eval_loop}

-- No element of the list is that of another place.
abbrev pub Distinct : List ℕ → Type 0
Distinct [] = Unit
Distinct (p ∷ places) = All (λ q. p ≢ q) places × Distinct places

found_cases {κ} :
    (Q : List ℕ → Type κ) (b c : Bool) {p : ℕ} {found none : List ℕ}
    → (b ≡ true → Q (p ∷ []))
    → (b ≡ true → Q (p ∷ found))
    → Q none
    → Q (elim b [ true ↦ p ∷ elim c [ true ↦ [] | false ↦ found ] | false ↦ none ])
found_cases Q true true h k l = h refl
found_cases Q true false h k l = k refl
found_cases Q false c h k l = l

second_true : (a : Bool) (x y : ℕ) → (a && ltb x y) ≡ true → x < y
second_true true x y h = ltb→lt x y h
second_true false x y h = let f : false ≡ true = h in absurd cc

module _ (gf : GfTables) (size : ℕ) (sigma : List ℕ) (num_errors : ℕ) where
  -- What holds of the places of a round, whether it finds one or not.
  chien_step {κ} :
      (Q : List ℕ → Type κ) (left i j : ℕ)
      → ((gf.n - i) % gf.n < size → Q ((size - 1 - (gf.n - i) % gf.n) ∷ []))
      → ((gf.n - i) % gf.n < size
          → Q (
              (size - 1 - (gf.n - i) % gf.n)
              ∷ chien_loop gf size sigma num_errors left (i + 1) (j + 1)))
      → Q (chien_loop gf size sigma num_errors left (i + 1) j)
      → Q (chien_loop gf size sigma num_errors (suc left) i j)
  unfolding chien_loop
  chien_step Q left i j last more none =
      let at =
        second_true (eval_loop gf sigma i num_errors 1 (get_or sigma 0 0) == 0) ((gf.n - i) % gf.n)
          size in
      found_cases Q
        (eval_loop gf sigma i num_errors 1 (get_or sigma 0 0) == 0 && ltb ((gf.n - i) % gf.n) size)
        (leb num_errors (j + 1)) (λ h. last (at h)) (λ h. more (at h)) none

  -- From power i on, the places of later powers lie higher, and below the last place.
  abbrev Above : ℕ → ℕ → Type 0
  Above i p = (size ≤ p + 1 + (gf.n - i)) × (p + 1 < size)

  Above-mono : (i : ℕ) (places : List ℕ) → All (Above (i + 1)) places → All (Above i) places
  Above-mono i [] h = _
  Above-mono i (p ∷ places) h =
      let (low, high) = h.0 in ((omega arith, high), Above-mono i places h.1)

  Above-ne :
      (i : ℕ) (places : List ℕ)
      → i < gf.n
      → gf.n - i < size
      → All (Above (i + 1)) places
      → All (λ q. size - 1 - (gf.n - i) ≢ q) places
  Above-ne i [] lt in_range h = _
  Above-ne i (p ∷ places) lt in_range h =
      let (low, high) = h.0 in (λ e. omega arith, Above-ne i places lt in_range h.1)

  later_places :
      (left i j : ℕ)
      → 1 ≤ i
      → left + i ≡ gf.n
      → let places = chien_loop gf size sigma num_errors left i j in
        All (Above i) places × Distinct places
  unfolding chien_loop
  later_places zero i j pos e = (_, _)
  later_places (suc left) i j pos e =
      let at : (gf.n - i) % gf.n ≡ gf.n - i = mod-eq_of_lt (omega arith) in
      let here : (gf.n - i) % gf.n < size → Above i (size - 1 - (gf.n - i) % gf.n) =
        λ h. (omega arith, omega arith) in
      let (above, apart) = later_places left (i + 1) (j + 1) (omega arith) (omega arith) in
      let (above', apart') = later_places left (i + 1) j (omega arith) (omega arith) in
      chien_step (λ places. All (Above i) places × Distinct places) left i j
        (λ h. ((here h, _), (_, _)))
        (λ h. (
          (here h, Above-mono i _ above),
          (
            subst
                (λ (k : ℕ).
                  All (λ q. size - 1 - k ≢ q)
                    (chien_loop gf size sigma num_errors left (i + 1) (j + 1)))
                (sym at) (Above-ne i _ (omega arith) (omega (arith, at, h)) above),
            apart,
          ),
        ))
        (Above-mono i _ above', apart')

  Above-inside : (i : ℕ) (places : List ℕ) → All (Above i) places → All (λ p. p < size) places
  Above-inside i [] h = _
  Above-inside i (p ∷ places) h = let (low, high) = h.0 in (omega arith, Above-inside i places h.1)

  Above-last : (i : ℕ) (places : List ℕ) → All (Above i) places → All (λ q. size - 1 - 0 ≢ q) places
  Above-last i [] h = _
  Above-last i (p ∷ places) h = let (low, high) = h.0 in (λ e. omega arith, Above-last i places h.1)

  -- The places lie within the codeword, and no two are the same.
  pub chien_loop-Distinct :
      (left : ℕ)
      → left ≡ gf.n
      → let places = chien_loop gf size sigma num_errors left 0 0 in
        All (λ p. p < size) places × Distinct places
  unfolding chien_loop
  chien_loop-Distinct zero e = (_, _)
  chien_loop-Distinct (suc left) e =
      let at : (gf.n - 0) % gf.n ≡ 0 = ap (λ (k : ℕ). k % gf.n) (omega arith) ∙ mod_self gf.n in
      let (above, apart) = later_places left 1 1 (omega arith) (omega arith) in
      let (above', apart') = later_places left 1 0 (omega arith) (omega arith) in
      chien_step (λ places. All (λ p. p < size) places × Distinct places) left 0 0
        (λ h. ((omega arith, _), (_, _)))
        (λ h. (
          (omega arith, Above-inside 1 _ above),
          (
            subst
                (λ (k : ℕ).
                  All (λ q. size - 1 - k ≢ q) (chien_loop gf size sigma num_errors left 1 1))
                (sym at) (Above-last 1 _ above),
            apart,
          ),
        ))
        (Above-inside 1 _ above', apart')
