-- ===== src/Bch/Decoder/Single.antt =====
-- `dvbs2x_bch_decode` (src/bch_decode.c) on a codeword with one wrong bit.
use native.Mathlib.Nat.{mul-le-mul}
use open_vlsnr.Prelude.{
  ℕ, zero, suc, ◌+◌, ◌-◌, ◌*◌, ◌%◌, ◌^◌, ◌≤◌, ◌<◌, ◌≡◌, ◌≢◌, refl, sym, ap, ap₂, ◌∙◌, bit_xor, true,
  false, Option, none, some, List, [], ◌∷◌, All, All-set, All-get_or, length, length-set, get_or,
  set, arith, ◌==◌, ltb, reverse, take, if◌then◌else◌,
}
use open_vlsnr.Bits.Xor.{xor_assoc, xor_comm, xor_cancel, xor-mod-two}
use open_vlsnr.Bits.{zero-bit_xor}
use open_vlsnr.Bits.Binary.{IsBinary, bit_xor-IsBinary}
use open_vlsnr.Types.{Modcod, FrameType, normal, medium, short_frame}
use open_vlsnr.Modcod.{get_modcod}
use open_vlsnr.Bch.{BchEncoder, bch_encode, field_degree, prim_poly}
use open_vlsnr.Bch.Init.{bch_encoder_init}
use open_vlsnr.Bch.Decoder.{
  GfTables, BchDecoder, Locator, gf_init, syndrome_loop, syndromes_from, all_zero, locator_loop,
  first_locator, chien_loop, flip_all, correct, decode_with, bch_decode, bch_decoder_init,
}
use open_vlsnr.Bch.Decoder.Powers.{power, bit_times-xor}
use open_vlsnr.Bch.Decoder.Evaluation.{value}
use open_vlsnr.Bch.Decoder.Syndromes.{snoc_lem, whole_syndrome}
use open_vlsnr.Bch.Decoder.Tables.{IsPrimitive, field-IsPrimitive, power-ne-zero}
use open_vlsnr.Bch.Decoder.SingleLocator.{linear, locator, if_false, locator_loop-single}
use open_vlsnr.Bch.Decoder.SingleSearch.{chien_loop-single}
use open_vlsnr.Bch.Decoder.RoundTrip.{same_poly, bch_encode-IsBchWord}

-- A word with bit p turned over.
abbrev pub turned : ℕ → List ℕ → List ℕ
turned p word = set word p (bit_xor (get_or word p 0) 1)

turned_twice : (p : ℕ) (word : List ℕ) → turned p (turned p word) ≡ word
turned_twice p [] = refl
turned_twice zero (c ∷ word) = ap (λ (b : ℕ). b ∷ word) (xor_cancel c 1)
turned_twice (suc p) (c ∷ word) = ap (λ (t : List ℕ). c ∷ t) (turned_twice p word)

module _ (m poly : ℕ) (field : IsPrimitive m poly) where
  positive : 0 < 2 ^ m - 1
  positive = omega (arith, field.large)

  -- The value changes by the power of the place.
  value-turned :
      (i p : ℕ) (word : List ℕ)
      → p < length word
      → value m poly i 0 (reverse (turned p word))
        ≡ bit_xor (value m poly i 0 (reverse word)) (power m poly (i * (length word - 1 - p)))
  value-turned i p [] inside = absurd (omega arith)
  value-turned i zero (c ∷ word) inside =
      let w : ℕ = power m poly (i * length word) in
      let v : ℕ = value m poly i 0 (reverse word) in
      snoc_lem m poly field.repeats positive i (bit_xor c 1) word
      ∙ ap (bit_xor v) (
          ap (λ (k : ℕ). k * w) (xor-mod-two c 1)
          ∙ bit_times-xor c 1 w
          ∙ ap (bit_xor (c % 2 * w)) (let one : 1 % 2 * w ≡ w = omega arith in one))
      ∙ sym (xor_assoc v (c % 2 * w) w)
      ∙ ap₂ bit_xor (sym (snoc_lem m poly field.repeats positive i c word))
          (ap (λ (k : ℕ). power m poly (i * k)) (omega arith))
  value-turned i (suc p) (c ∷ word) inside =
      let v : ℕ = value m poly i 0 (reverse word) in
      let w : ℕ = c % 2 * power m poly (i * length word) in
      let x : ℕ = power m poly (i * (length word - 1 - p)) in
      snoc_lem m poly field.repeats positive i c (turned p word)
      ∙ ap₂ (λ (a n : ℕ). bit_xor a (c % 2 * power m poly (i * n)))
          (value-turned i p word (omega arith)) (length-set word p _)
      ∙ xor_assoc v x w
      ∙ ap (bit_xor v) (xor_comm x w)
      ∙ sym (xor_assoc v w x)
      ∙ ap₂ bit_xor (sym (snoc_lem m poly field.repeats positive i c word)) (
          ap (λ (k : ℕ). power m poly (i * k))
            (let s : length word - 1 - p ≡ suc (length word) - 1 - suc p = omega arith in s))

get_or-syndromes_from :
    (gf : GfTables) (size : ℕ) (codeword : List ℕ) (left i k : ℕ)
    → k < left
    → get_or (syndromes_from gf size codeword left i) k 0
      ≡ syndrome_loop gf size (i + k) 0 (take size codeword) 0
unfolding syndromes_from
get_or-syndromes_from gf size codeword zero i k h = absurd (omega arith)
get_or-syndromes_from gf size codeword (suc left) i zero h =
    ap (λ (j : ℕ). syndrome_loop gf size j 0 (take size codeword) 0) (omega arith)
get_or-syndromes_from gf size codeword (suc left) i (suc k) h =
    get_or-syndromes_from gf size codeword left (i + 1) k (omega arith)
    ∙ ap (λ (j : ℕ). syndrome_loop gf size j 0 (take size codeword) 0)
        (let s : i + 1 + k ≡ i + suc k = omega arith in s)

all_zero-ne : (s : ℕ) (rest : List ℕ) → s ≢ 0 → all_zero (s ∷ rest) ≡ false
unfolding all_zero
all_zero-ne zero rest h = absurd (h refl)
all_zero-ne (suc s) rest h = refl

abbrev counted : List ℕ → List ℕ → Option ℕ × List ℕ
counted codeword places =
    if length places == 1 then (some 1, flip_all places codeword) else (none, codeword)

-- One place found for one error.
correct-single :
    (gf : GfTables) (dec : BchDecoder) (sigma b codeword : List ℕ) (p : ℕ)
    → dec.t ≡ 12
    → chien_loop gf dec.n sigma 1 gf.n 0 0 ≡ p ∷ []
    → correct gf dec (locator sigma b) codeword ≡ (some 1, turned p codeword)
unfolding correct flip_all
correct-single gf dec sigma b codeword p power places =
    if_false _ _ _ (ap (λ (t : ℕ). ltb t 1) power) ∙ ap (counted codeword) places

module _ (m poly : ℕ) (field : IsPrimitive m poly) (fits : 2 ^ m ≤ 2 ^ 16) (dec : BchDecoder)
    (word : List ℕ) (p : ℕ) (twelve : dec.t ≡ 12) (small : dec.n ≤ 64800) (room : dec.n ≤ 2 ^ m - 1)
    (size : length word ≡ dec.n) (binary : All IsBinary word)
    (roots : (j : ℕ) → 1 ≤ j → j ≤ 24 → value m poly j 0 (reverse word) ≡ 0)
    (inside : p < dec.n) where
  -- The exponent of the wrong bit.
  abbrev exponent : ℕ
  exponent = dec.n - 1 - p

  turned-IsBinary : All IsBinary (turned p word)
  turned-IsBinary = All-set IsBinary word p _ binary (
      bit_xor-IsBinary (get_or word p 0) 1 (All-get_or IsBinary word p 0 binary (omega arith))
        (omega arith))

  syndrome-turned :
      (j : ℕ)
      → 1 ≤ j
      → j ≤ 24
      → syndrome_loop (gf_init m poly) dec.n j 0 (take dec.n (turned p word)) 0
        ≡ power m poly (j * exponent)
  syndrome-turned j low high =
      whole_syndrome m poly field.repeats (omega (arith, field.large)) dec.n j (turned p word)
        turned-IsBinary (length-set word p _ ∙ size) (omega (arith, mul-le-mul high small))
      ∙ value-turned m poly field j p word (omega arith)
      ∙ ap₂ (λ (v n : ℕ). bit_xor v (power m poly (j * (n - 1 - p)))) (roots j low high) size
      ∙ zero-bit_xor (power m poly (j * exponent))

  abbrev found_syndromes : List ℕ
  found_syndromes = syndromes_from (gf_init m poly) dec.n (turned p word) 24 1

  found_powers :
      (j : ℕ) → 1 ≤ j → j ≤ 24 → get_or (0 ∷ found_syndromes) j 0 ≡ power m poly (j * exponent)
  found_powers zero low high = absurd (omega arith)
  found_powers (suc k) low high =
      get_or-syndromes_from (gf_init m poly) dec.n (turned p word) 24 1 k (omega arith)
      ∙ ap (λ (i : ℕ). syndrome_loop (gf_init m poly) dec.n i 0 (take dec.n (turned p word)) 0)
          (let s : 1 + k ≡ suc k = omega arith in s)
      ∙ syndrome-turned (suc k) low high

  some_syndrome : all_zero found_syndromes ≡ false
  unfolding syndromes_from
  some_syndrome = all_zero-ne _ _ (λ z.
      power-ne-zero m poly field (1 * exponent)
        (sym (syndrome-turned 1 (omega arith) (omega arith)) ∙ z))

  places_found :
      chien_loop (gf_init m poly) dec.n (linear (power m poly exponent)) 1 (gf_init m poly).n 0 0
      ≡ p ∷ []
  unfolding gf_init
  places_found =
      chien_loop-single m poly field fits exponent (omega arith) dec.n (2 ^ m - 1) 0 (omega arith)
        (omega arith) (omega arith)
      ∙ ap (λ (k : ℕ). k ∷ []) (omega arith)

  -- Everything behind the syndromes, for a number of errors to correct.
  abbrev decided : ℕ → Option ℕ × List ℕ
  decided t =
      let gf = gf_init m poly in
      let syndromes = syndromes_from gf dec.n (turned p word) (2 * t) 1 in
      if all_zero syndromes
      then (some 0, turned p word)
      else correct gf dec (locator_loop gf t (0 ∷ syndromes) (2 * t) 1 first_locator)
          (turned p word)

  pub decode_with-turned : decode_with (gf_init m poly) dec (turned p word) ≡ (some 1, word)
  unfolding decode_with
  decode_with-turned =
      let gf = gf_init m poly in
      let (b, located) =
        locator_loop-single m poly field exponent (0 ∷ found_syndromes) found_powers in
      ap decided twelve
      ∙ if_false _ _ _ some_syndrome
      ∙ ap (λ (s : Locator). correct gf dec s (turned p word)) located
      ∙ correct-single gf dec (linear (power m poly exponent)) b (turned p word) p twelve
          places_found
      ∙ ap (λ (w : List ℕ). (some 1, w)) (turned_twice p word)

field_fits : (ft : FrameType) → 2 ^ field_degree ft ≤ 2 ^ 16
unfolding field_degree
field_fits normal = omega arith
field_fits medium = omega arith
field_fits short_frame = omega arith

-- For every MODCOD of the table, with the encoder that dvbs2x_bch_encoder_init sets up, when any one
-- bit of a codeword that dvbs2x_bch_encode makes of k bits is wrong, dvbs2x_bch_decode tells one
-- error and gives the codeword back.
pub bch_decode-turned :
    (i : ℕ) {mc : Modcod} (input : List ℕ) (p : ℕ)
    → get_modcod i ≡ some mc
    → length input ≡ mc.k_bch
    → All IsBinary input
    → p < mc.n_bch
    → (enc : BchEncoder) × (bch_encoder_init true mc ≡ some enc)
      × (bch_decode (bch_decoder_init mc) (turned p (bch_encode enc input))
          ≡ (some 1, bch_encode enc input))
unfolding bch_decode bch_decoder_init
bch_decode-turned i {mc} input p e size bits inside =
    let (enc, made, v) = bch_encode-IsBchWord i input e size bits in
    let codeword = bch_encode enc input in
    let ft = mc.frame_type in
    (
      enc,
      made,
      ap
            (λ (poly : ℕ).
              decode_with (gf_init (field_degree ft) poly) (bch_decoder_init mc)
                (turned p codeword))
            (same_poly ft)
          ∙ decode_with-turned (field_degree ft) (prim_poly ft) (field-IsPrimitive ft)
              (field_fits ft) (bch_decoder_init mc) codeword p v.power v.small v.inside v.size
              v.binary v.roots inside,
    )
