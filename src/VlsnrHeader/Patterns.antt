-- ===== src/VlsnrHeader/Patterns.antt =====
-- The patterns of src/vlsnr_header_gen.c against one another.
use native.Mathlib.Nat.{mul-add, mul-suc, suc-mul, add-mul}
use open_vlsnr.Prelude.{
  ℕ, zero, suc, ◌+◌, ◌*◌, ◌<◌, ◌≡◌, ◌≢◌, refl, sym, ap, ap₂, ◌∙◌, Bool, true, ◌||◌, List, [], ◌∷◌,
  ◌++◌, ◌==◌, length, length-append, arith, get_or, All,
}
use open_vlsnr.Bits.{all_below, all_below_sound}
use open_vlsnr.VlsnrHeader.{
  Chip, plus_one, minus_one, chip_product, chip, byte_chips, row_chips, pattern_rows,
  vlsnr_generate_pattern, vlsnr_base_matrix, vlsnr_wh_signs,
}

-- The places where two sequences of chips have the same value. Of n places with agreement a, the
-- correlation is a - (n - a).
pub agree : List Chip → List Chip → ℕ
agree [] ys = 0
agree (x ∷ xs) [] = 0
agree (plus_one ∷ xs) (plus_one ∷ ys) = suc (agree xs ys)
agree (plus_one ∷ xs) (minus_one ∷ ys) = agree xs ys
agree (minus_one ∷ xs) (plus_one ∷ ys) = agree xs ys
agree (minus_one ∷ xs) (minus_one ∷ ys) = suc (agree xs ys)

agree-append :
    (xs ys : List Chip) (us vs : List Chip)
    → length xs ≡ length ys
    → agree (xs ++ us) (ys ++ vs) ≡ agree xs ys + agree us vs
unfolding agree
agree-append [] [] us vs e = omega arith
agree-append [] (y ∷ ys) us vs e = absurd (omega arith)
agree-append (x ∷ xs) [] us vs e = absurd (omega arith)
agree-append (plus_one ∷ xs) (plus_one ∷ ys) us vs e =
    omega (arith, agree-append xs ys us vs (omega (arith, e)))
agree-append (plus_one ∷ xs) (minus_one ∷ ys) us vs e = agree-append xs ys us vs (omega (arith, e))
agree-append (minus_one ∷ xs) (plus_one ∷ ys) us vs e = agree-append xs ys us vs (omega (arith, e))
agree-append (minus_one ∷ xs) (minus_one ∷ ys) us vs e =
    omega (arith, agree-append xs ys us vs (omega (arith, e)))

-- The agreement of two signs.
pub same : Chip → Chip → ℕ
same plus_one plus_one = 1
same plus_one minus_one = 0
same minus_one plus_one = 0
same minus_one minus_one = 1

length-byte_chips : (sign : Chip) (n byte : ℕ) → length (byte_chips sign n byte) ≡ n
unfolding byte_chips
length-byte_chips sign zero byte = refl
length-byte_chips sign (suc n) byte = ap suc (length-byte_chips sign n byte)

agree-chip :
    (s t c : Chip) (xs ys : List Chip)
    → agree (chip_product c s ∷ xs) (chip_product c t ∷ ys) ≡ same s t + agree xs ys
unfolding agree same chip_product
agree-chip s t c xs ys = ground arith

agree-byte_chips :
    (s t : Chip) (n byte : ℕ) → agree (byte_chips s n byte) (byte_chips t n byte) ≡ same s t * n
unfolding byte_chips agree
agree-byte_chips s t zero byte = omega arith
agree-byte_chips s t (suc n) byte = omega (
  arith,
  agree-chip s t (chip _) (byte_chips s n byte) (byte_chips t n byte),
  agree-byte_chips s t n byte,
  mul-suc (same s t) n,
)

length-row_chips : (sign : Chip) (bytes : List ℕ) → length (row_chips sign bytes) ≡ 8 * length bytes
unfolding row_chips
length-row_chips sign [] = refl
length-row_chips sign (byte ∷ bytes) = omega (
  arith,
  length-append (byte_chips sign 8 byte) (row_chips sign bytes),
  length-byte_chips sign 8 byte,
  length-row_chips sign bytes,
)

agree-row_chips :
    (s t : Chip) (bytes : List ℕ)
    → agree (row_chips s bytes) (row_chips t bytes) ≡ same s t * (8 * length bytes)
unfolding row_chips agree
agree-row_chips s t [] = omega arith
agree-row_chips s t (byte ∷ bytes) =
    let split : same s t * (8 * suc (length bytes)) ≡ same s t * 8 + same s t * (8 * length bytes) =
      ap (λ (k : ℕ). same s t * k)
        (let e : 8 * suc (length bytes) ≡ 8 + 8 * length bytes = omega arith in e)
      ∙ mul-add (same s t) 8 (8 * length bytes) in
    agree-append (byte_chips s 8 byte) (byte_chips t 8 byte) (row_chips s bytes) (row_chips t bytes)
      (length-byte_chips s 8 byte ∙ sym (length-byte_chips t 8 byte))
    ∙ omega (arith, agree-byte_chips s t 8 byte, agree-row_chips s t bytes, split)

-- Two rows of signs, on rows of w bytes each.
agree_signs : List Chip → List Chip → ℕ
agree_signs [] ts = 0
agree_signs (s ∷ ss) [] = 0
agree_signs (s ∷ ss) (t ∷ ts) = same s t + agree_signs ss ts

length-pattern_rows :
    (w : ℕ) (rows : List (List ℕ)) (ss : List Chip)
    → All (λ (row : List ℕ). length row ≡ w) rows
    → length ss ≡ length rows
    → length (pattern_rows rows ss) ≡ length rows * (8 * w)
unfolding pattern_rows
length-pattern_rows w [] ss h e = omega arith
length-pattern_rows w (row ∷ rows) [] h e = absurd (omega arith)
length-pattern_rows w (row ∷ rows) (s ∷ ss) h e = omega (
  arith,
  length-append (row_chips s row) (pattern_rows rows ss),
  length-row_chips s row,
  h.0,
  length-pattern_rows w rows ss h.1 (omega (arith, e)),
  suc-mul (length rows) (8 * w),
)

agree-pattern_rows :
    (w : ℕ) (rows : List (List ℕ)) (ss ts : List Chip)
    → All (λ (row : List ℕ). length row ≡ w) rows
    → length ss ≡ length rows
    → length ts ≡ length rows
    → agree (pattern_rows rows ss) (pattern_rows rows ts) ≡ agree_signs ss ts * (8 * w)
unfolding pattern_rows agree agree_signs
agree-pattern_rows w [] [] ts h e f = omega arith
agree-pattern_rows w [] (s ∷ ss) ts h e f = absurd (omega arith)
agree-pattern_rows w (row ∷ rows) [] ts h e f = absurd (omega arith)
agree-pattern_rows w (row ∷ rows) (s ∷ ss) [] h e f = absurd (omega arith)
agree-pattern_rows w (row ∷ rows) (s ∷ ss) (t ∷ ts) h e f =
    let row_agree : agree (row_chips s row) (row_chips t row) ≡ same s t * (8 * w) =
      agree-row_chips s t row ∙ ap (λ (k : ℕ). same s t * (8 * k)) h.0 in
    agree-append (row_chips s row) (row_chips t row) (pattern_rows rows ss) (pattern_rows rows ts)
      (length-row_chips s row ∙ sym (length-row_chips t row))
    ∙ omega (
      arith,
      row_agree,
      agree-pattern_rows w rows ss ts h.1 (omega (arith, e)) (omega (arith, f)),
      add-mul (same s t) (agree_signs ss ts) (8 * w),
    )

abbrev row_of : ℕ → List Chip
row_of i = get_or vlsnr_wh_signs i []

abbrev apart : ℕ → Bool
apart i = all_below 16 (λ j. i == j || agree_signs (row_of i) (row_of j) == 8)

abbrev row_full : ℕ → Bool
row_full i = length (row_of i) == 16

signs_apart : all_below 16 apart ≡ true
unfolding all_below agree_signs same
signs_apart = refl

rows_full : all_below 16 row_full ≡ true
unfolding all_below
rows_full = refl

length-row_of : (i : ℕ) → i < 16 → length (row_of i) ≡ 16
length-row_of i small = let h = all_below_sound 16 row_full i rows_full small in ground (arith, h)

base_width : All (λ (row : List ℕ). length row ≡ 7) vlsnr_base_matrix
base_width = omega arith

generate-pattern_rows :
    (i : ℕ) → i < 16 → vlsnr_generate_pattern i ≡ pattern_rows vlsnr_base_matrix (row_of i)
unfolding vlsnr_generate_pattern
generate-pattern_rows i small = ground (arith, small)

-- Each of the 16 patterns has 896 chips.
pub length-vlsnr_generate_pattern : (i : ℕ) → i < 16 → length (vlsnr_generate_pattern i) ≡ 896
length-vlsnr_generate_pattern i small =
    ap (λ (t : List Chip). length t) (generate-pattern_rows i small)
    ∙ length-pattern_rows 7 vlsnr_base_matrix (row_of i) base_width (length-row_of i small)

-- Any two different patterns have the same chip at 448 of their 896 places: their correlation is 0.
pub vlsnr_generate_pattern-orthogonal :
    (i j : ℕ)
    → i < 16
    → j < 16
    → i ≢ j
    → (length (vlsnr_generate_pattern i) ≡ 896)
      × (agree (vlsnr_generate_pattern i) (vlsnr_generate_pattern j) ≡ 448)
vlsnr_generate_pattern-orthogonal i j small_i small_j ne =
    let h = all_below_sound 16 apart i signs_apart small_i in
    let k =
      all_below_sound 16 (λ j. i == j || agree_signs (row_of i) (row_of j) == 8) j h small_j in
    let eight : agree_signs (row_of i) (row_of j) ≡ 8 = ground (arith, k, ne) in
    (
      length-vlsnr_generate_pattern i small_i,
      ap₂ agree (generate-pattern_rows i small_i) (generate-pattern_rows j small_j)
          ∙ agree-pattern_rows 7 vlsnr_base_matrix (row_of i) (row_of j) base_width
              (length-row_of i small_i) (length-row_of j small_j)
          ∙ ap (λ (n : ℕ). n * 56) eight,
    )
