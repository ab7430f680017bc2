-- ===== src/Bch/Decoder/Flips.antt =====
-- What `dvbs2x_bch_decode` (src/bch_decode.c) changes in a codeword.
use mathlib.Core.Path.{subst}
use open_vlsnr.Prelude.{
  ℕ, zero, suc, ◌+◌, ◌*◌, ◌≤◌, ◌<◌, ◌≡◌, ◌≢◌, ◌⊎◌, refl, sym, ap, ◌∙◌, bit_xor, Bool, true, false,
  Option, none, some, List, [], ◌∷◌, All, arith, length, length-set, get_or, set, get_or-set_ne,
  ltb, ◌==◌, if◌then◌else◌, inl, inr, Bool-cases,
}
use open_vlsnr.Bits.Xor.{xor-mod-two}
use open_vlsnr.Types.{Modcod}
use open_vlsnr.Bch.Decoder.{
  GfTables, BchDecoder, Locator, chien_loop, flip_all, correct, decode_with, bch_decode,
  bch_decoder_init, gf_init, gf_prim_poly, syndromes_from, all_zero, locator_loop, first_locator,
}
use open_vlsnr.Bch.Decoder.Places.{Distinct, chien_loop-Distinct}

-- The number of places at which two words differ.
abbrev pub distance : List ℕ → List ℕ → ℕ
distance [] ys = 0
distance (x ∷ xs) [] = 0
distance (x ∷ xs) (y ∷ ys) = let rest = distance xs ys in if x == y then rest else suc rest

distance_self : (xs : List ℕ) → distance xs xs ≡ 0
distance_self [] = refl
distance_self (x ∷ xs) =
    let same : (x == x) ≡ true = ground arith in
    ap (λ (b : Bool). if b then distance xs xs else suc (distance xs xs)) same ∙ distance_self xs

-- A change at a place where they agreed.
distance-set :
    (xs ys : List ℕ) (p v : ℕ)
    → length xs ≡ length ys
    → p < length ys
    → get_or xs p 0 ≡ get_or ys p 0
    → v ≢ get_or ys p 0
    → distance xs (set ys p v) ≡ suc (distance xs ys)
distance-set [] ys p v len inside agree new = absurd (omega arith)
distance-set (x ∷ xs) [] p v len inside agree new = absurd (omega arith)
distance-set (x ∷ xs) (y ∷ ys) zero v len inside agree new =
    let same : (x == y) ≡ true = ground (arith, agree) in
    let other : (x == v) ≡ false = ground (arith, agree, new) in rw (same, other) refl
distance-set (x ∷ xs) (y ∷ ys) (suc p) v len inside agree new =
    let ih = distance-set xs ys p v (omega arith) (omega arith) agree new in
    elim (Bool-cases (x == y)) [ inl e ↦ rw (e, ih) refl | inr e ↦ rw (e, ih) refl ]

flip-ne : (c : ℕ) → bit_xor c 1 ≢ c
flip-ne c e = omega (arith, xor-mod-two c 1)

-- Where two words agree.
Agree : List ℕ → List ℕ → List ℕ → Type 0
Agree xs ys places = All (λ p. get_or xs p 0 ≡ get_or ys p 0) places

Agree-set :
    (xs ys : List ℕ) (p v : ℕ) (places : List ℕ)
    → All (λ q. p ≢ q) places
    → Agree xs ys places
    → Agree xs (set ys p v) places
unfolding Agree
Agree-set xs ys p v [] apart agree = _
Agree-set xs ys p v (q ∷ places) apart agree =
    (agree.0 ∙ sym (get_or-set_ne ys v 0 apart.0), Agree-set xs ys p v places apart.1 agree.1)

Agree-refl : (xs places : List ℕ) → Agree xs xs places
unfolding Agree
Agree-refl xs [] = _
Agree-refl xs (p ∷ places) = (refl, Agree-refl xs places)

distance-flip_all :
    (places xs ys : List ℕ)
    → length xs ≡ length ys
    → All (λ p. p < length ys) places
    → Distinct places
    → Agree xs ys places
    → (length (flip_all places ys) ≡ length ys)
      × (distance xs (flip_all places ys) ≡ length places + distance xs ys)
unfolding flip_all Agree
distance-flip_all [] xs ys len inside apart agree = (refl, omega arith)
distance-flip_all (p ∷ places) xs ys len inside apart agree =
    let v = bit_xor (get_or ys p 0) 1 in
    let same : length (set ys p v) ≡ length ys = length-set ys p v in
    let (kept, more) =
      distance-flip_all places xs (set ys p v) (len ∙ sym same)
        (subst (λ (n : ℕ). All (λ q. q < n) places) (sym same) inside.1) apart.1
        (Agree-set xs ys p v places apart.0 agree.1) in
    (
      kept ∙ same,
      omega (arith, more, distance-set xs ys p v len inside.0 agree.0 (flip-ne (get_or ys p 0))),
    )

-- What a call may answer: -1 and the codeword as it was, or the number of places, no more than t,
-- at which it is changed.
abbrev pub Answered : BchDecoder → List ℕ → Option ℕ → List ℕ → Type 0
Answered dec codeword ret after =
    (length after ≡ length codeword)
    × (((ret ≡ none) × (after ≡ codeword))
        ⊎ ((count : ℕ) × (ret ≡ some count) × (count ≤ dec.t) × (distance codeword after ≡ count)))

correct-Answered :
    (gf : GfTables) (dec : BchDecoder) (s : Locator) (codeword : List ℕ)
    → length codeword ≡ dec.n
    → let (ret, after) = correct gf dec s codeword in Answered dec codeword ret after
unfolding correct
correct-Answered gf dec s codeword len =
    let places = chien_loop gf dec.n s.sigma s.l gf.n 0 0 in
    let (inside, apart) = chien_loop-Distinct gf dec.n s.sigma s.l gf.n refl in
    let (kept, changed) =
      distance-flip_all places codeword codeword refl
        (subst (λ (n : ℕ). All (λ p. p < n) places) (sym len) inside) apart
        (Agree-refl codeword places) in
    elim (Bool-cases (ltb dec.t s.l)) [
      | inl over ↦ rw (over, correct) (refl, inl (refl, refl))
      | inr fits ↦ elim (Bool-cases (length places == s.l)) [
        | inl all ↦
            rw (fits, all, correct)
              (
                kept,
                inr (
                  s.l,
                  refl,
                  ground (arith, fits),
                  omega (arith, changed, distance_self codeword, found all),
                ),
              )
        | inr few ↦ rw (fits, few, correct) (refl, inl (refl, refl))
      ]
    ]
  where
    found :
        let places = chien_loop gf dec.n s.sigma s.l gf.n 0 0 in
        (length places == s.l) ≡ true → length places ≡ s.l
    found h = ground (arith, h)

either_Answered :
    (dec : BchDecoder) (codeword : List ℕ) (b : Bool) (x y : Option ℕ × List ℕ)
    → Answered dec codeword x.0 x.1
    → Answered dec codeword y.0 y.1
    → let (ret, after) = if b then x else y in Answered dec codeword ret after
either_Answered dec codeword true x y h k = h
either_Answered dec codeword false x y h k = k

-- For a set of parameters with t at most 12, which the arrays of dvbs2x_bch_decode are made for, and
-- any codeword of its n_bch bits, dvbs2x_bch_decode keeps the length and
-- either tells -1 and leaves the codeword as it is, or tells a count of at most t and has changed
-- the codeword at exactly that many places.
pub bch_decode-Answered :
    (mc : Modcod) (codeword : List ℕ)
    → mc.bch_t ≤ 12
    → length codeword ≡ mc.n_bch
    → let (ret, after) = bch_decode (bch_decoder_init mc) codeword in
      Answered (bch_decoder_init mc) codeword ret after
unfolding bch_decode decode_with bch_decoder_init
bch_decode-Answered mc codeword room len =
    let dec = bch_decoder_init mc in
    let gf = gf_init dec.gf_m (gf_prim_poly dec.gf_m) in
    let syndromes = syndromes_from gf dec.n codeword (2 * dec.t) 1 in
    let s = locator_loop gf dec.t (0 ∷ syndromes) (2 * dec.t) 1 first_locator in
    let zero_changed : ℕ = 0 in
    either_Answered dec codeword (all_zero syndromes) (some 0, codeword) (correct gf dec s codeword)
      (refl, inr (zero_changed, refl, omega arith, distance_self codeword))
      (correct-Answered gf dec s codeword len)
