-- ===== src/Puncture/Values.antt =====
-- src/modulator_top.c and src/demodulator_top.c: puncturing and depuncturing under a change of the
-- values.
use open_vlsnr.Prelude.{
  ℕ, zero, suc, ◌+◌, ◌-◌, ◌≡◌, refl, ap, ap₂, ◌∙◌, Bool-cases, inl, inr, List, [], ◌∷◌, ◌++◌, take,
  drop, replicate, map, map-append, All, All-append, All-take, All-drop,
}
use open_vlsnr.Types.{Modcod}
use open_vlsnr.Puncture.{is_punctured, puncture, sent_bits, depuncture, full_llr}

module _ {ℓ κ} {A : Type ℓ} (P : A → Type κ) where
  All-puncture :
      (xp p_period p_idx i : ℕ) (parity : List A)
      → All P parity
      → All P (puncture xp p_period p_idx i parity)
  unfolding puncture
  All-puncture xp p_period p_idx i [] h = _
  All-puncture xp p_period p_idx i (b ∷ parity) h =
      elim (Bool-cases (is_punctured xp p_period p_idx i)) [
        | inl hit ↦ rw (hit, puncture) (All-puncture xp p_period (p_idx + 1) (i + 1) parity h.1)
        | inr miss ↦ rw (miss, puncture) ((h.0, All-puncture xp p_period p_idx (i + 1) parity h.1))
      ]

  pub All-sent_bits :
      (mc : Modcod) (codeword : List A) → All P codeword → All P (sent_bits mc codeword)
  unfolding sent_bits
  All-sent_bits mc codeword h =
      All-append P _ _ (All-take P _ _ (All-drop P mc.xs codeword h))
        (All-puncture mc.xp mc.p_period 0 0 _ (All-take P _ _ (All-drop P mc.k_ldpc codeword h)))

module _ {ℓ κ} {A : Type ℓ} {B : Type κ} (f : A → B) where
  map-take : (n : ℕ) (xs : List A) → map f (take n xs) ≡ take n (map f xs)
  map-take zero xs = refl
  map-take (suc n) [] = refl
  map-take (suc n) (x ∷ xs) = ap (λ (t : List B). f x ∷ t) (map-take n xs)

  map-drop : (n : ℕ) (xs : List A) → map f (drop n xs) ≡ drop n (map f xs)
  map-drop zero xs = refl
  map-drop (suc n) [] = refl
  map-drop (suc n) (x ∷ xs) = map-drop n xs

  map-replicate : (n : ℕ) (a : A) → map f (replicate n a) ≡ replicate n (f a)
  map-replicate zero a = refl
  map-replicate (suc n) a = ap (λ (t : List B). f a ∷ t) (map-replicate n a)

  map-depuncture :
      (erased : A) (xp p_period left p_idx i : ℕ) (received : List A)
      → map f (depuncture erased xp p_period left p_idx i received)
        ≡ depuncture (f erased) xp p_period left p_idx i (map f received)
  unfolding depuncture
  map-depuncture erased xp p_period zero p_idx i received = refl
  map-depuncture erased xp p_period (suc left) p_idx i [] =
      elim (Bool-cases (is_punctured xp p_period p_idx i)) [
        | inl hit ↦
            rw (hit, depuncture)
              (ap (λ (t : List B). f erased ∷ t)
                (map-depuncture erased xp p_period left (p_idx + 1) (i + 1) []))
        | inr miss ↦
            rw (miss, depuncture)
              (ap (λ (t : List B). f erased ∷ t)
                (map-depuncture erased xp p_period left p_idx (i + 1) []))
      ]
  map-depuncture erased xp p_period (suc left) p_idx i (a ∷ received) =
      elim (Bool-cases (is_punctured xp p_period p_idx i)) [
        | inl hit ↦
            rw (hit, depuncture)
              (ap (λ (t : List B). f erased ∷ t)
                (map-depuncture erased xp p_period left (p_idx + 1) (i + 1) (a ∷ received)))
        | inr miss ↦
            rw (miss, depuncture)
              (ap (λ (t : List B). f a ∷ t)
                (map-depuncture erased xp p_period left p_idx (i + 1) received))
      ]

  pub map-full_llr :
      (certain erased : A) (mc : Modcod) (deint : List A)
      → map f (full_llr certain erased mc deint) ≡ full_llr (f certain) (f erased) mc (map f deint)
  unfolding full_llr
  map-full_llr certain erased mc deint =
      let info = take (mc.k_ldpc - mc.xs) deint in
      let rest = drop (mc.k_ldpc - mc.xs) deint in
      let parity = depuncture erased mc.xp mc.p_period (mc.fec_len - mc.k_ldpc) 0 0 rest in
      map-append (replicate mc.xs certain) (info ++ parity) f
      ∙ ap₂ (λ (s t : List B). s ++ t) (map-replicate mc.xs certain)
          (map-append info parity f
            ∙ ap₂ (λ (s t : List B). s ++ t) (map-take (mc.k_ldpc - mc.xs) deint)
                (map-depuncture erased mc.xp mc.p_period (mc.fec_len - mc.k_ldpc) 0 0 rest
                  ∙ ap (depuncture (f erased) mc.xp mc.p_period (mc.fec_len - mc.k_ldpc) 0 0)
                      (map-drop (mc.k_ldpc - mc.xs) deint)))

pub map-identity {ℓ} : {A : Type ℓ} (xs : List A) → map (λ (x : A). x) xs ≡ xs
map-identity [] = refl
map-identity {A = A} (x ∷ xs) = ap (λ (t : List A). x ∷ t) (map-identity xs)
