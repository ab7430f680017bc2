-- ===== src/Ldpc/Decoder/Answer.antt =====
-- What dvbs2x_ldpc_decode (src/ldpc_decode.c) answers.
use open_vlsnr.Prelude.{
  ℕ, zero, suc, ◌≤◌, ◌<◌, ◌≡◌, ◌↔◌, refl, ap, ◌∙◌, ◌⊎◌, inl, inr, Bool, true, false, some, List, [],
  ◌∷◌, ◌++◌, map, take, drop, length, length-take, length-map, arith,
}
use open_vlsnr.Ldpc.Boxplus.{SoftOps}
use open_vlsnr.Ldpc.Decoder.Sums.{Satisfies, Groups}
use open_vlsnr.Ldpc.Decoder.Built.{decoder_of-IsBuilt}
use open_vlsnr.Ldpc.{LdpcEncoder}
use open_vlsnr.Ldpc.Decoder.{
  LdpcDecoder, Ending, Memory, DecodedLdpc, decoder_of, hard_bit, decisions, answer_of, iterate,
  initial, ldpc_decode,
}
use open_vlsnr.Ldpc.Decoder.Loop.{Due, after, length-after, holds, Silent, Ends, iterate-Ends}
use open_vlsnr.Ldpc.Decoder.Checks.{checks-Satisfies}

map-take {ℓ κ} :
    {A : Type ℓ} {B : Type κ} (f : A → B) (n : ℕ) (xs : List A)
    → map f (take n xs) ≡ take n (map f xs)
map-take f zero xs = refl
map-take f (suc n) [] = refl
map-take f (suc n) (x ∷ xs) = ap (λ t. f x ∷ t) (map-take f n xs)

module _ {ℓ} {A : Type ℓ} (ops : SoftOps A) (dec : LdpcDecoder) (llr : List A) where
  -- The hard decisions after so many iterations.
  abbrev pub word_after : ℕ → List ℕ
  word_after t = map (hard_bit ops) (after ops dec t (initial ops dec llr)).vn_llr

  pub length-word_after : (t : ℕ) → dec.code.n ≤ length llr → length (word_after t) ≡ dec.code.n
  length-word_after t enough = omega (
    arith,
    length-map (after ops dec t (initial ops dec llr)).vn_llr (hard_bit ops),
    length-after ops dec t (initial ops dec llr),
    length-take dec.code.n llr,
  )

  -- Before iteration `iter` no cancel request was seen, and no check that was due was satisfied.
  abbrev pub Unanswered : (ℕ → Bool) → ℕ → Type 0
  Unanswered cancel iter =
      (u : ℕ)
      → u < iter
      → (cancel u ≡ false) × (Due dec.max_iter u → ¬ Satisfies dec.code (word_after (suc u)))

  -- The three answers: cancelled, with the output left alone; the first word that satisfies a check
  -- that is due; or the last word.
  abbrev pub Answers : (ℕ → Bool) → List ℕ → DecodedLdpc → Type 0
  Answers cancel output d =
      ((iter : ℕ) × (d ≡ record { ok = false; output = output; iter_used = some iter })
        × (iter < dec.max_iter)
        × (cancel iter ≡ true)
        × Unanswered cancel iter)
      ⊎ (((u : ℕ) × (d ≡ record {
        ok = true;
        output = take dec.code.k (word_after (suc u)) ++ drop dec.code.k output;
        iter_used = some (suc u);
      })
            × (u < dec.max_iter)
            × Satisfies dec.code (word_after (suc u))
            × Unanswered cancel u)
          ⊎ ((d ≡ record {
            ok = false;
            output = take dec.code.k (word_after dec.max_iter) ++ drop dec.code.k output;
            iter_used = some dec.max_iter;
          })
              × Unanswered cancel dec.max_iter))

  module _ (cancel : ℕ → Bool) (output : List ℕ)
      (checked : (u : ℕ)
        → (holds ops dec cancel (initial ops dec llr) u ≡ true)
          ↔ Satisfies dec.code (word_after (suc u))) where
    Silent-Unanswered :
        (iter : ℕ) → Silent ops dec cancel (initial ops dec llr) iter → Unanswered cancel iter
    Silent-Unanswered iter silent u h =
        ((silent u h).0, λ due fits. cc ((silent u h).1 due, (checked u).1 fits))

    written :
        (t : ℕ)
        → decisions ops dec.code.k (after ops dec t (initial ops dec llr)).vn_llr output
          ≡ take dec.code.k (word_after t) ++ drop dec.code.k output
    unfolding decisions
    written t =
        ap (λ (w : List ℕ). w ++ drop dec.code.k output)
          (map-take (hard_bit ops) dec.code.k (after ops dec t (initial ops dec llr)).vn_llr)

    pub answer_of-Answers :
        (e : Ending A)
        → Ends ops dec cancel (initial ops dec llr) e
        → Answers cancel output (answer_of ops dec output e)
    unfolding answer_of
    answer_of-Answers e (inl (iter, here, few, stop, silent)) =
        inl (iter, ap (answer_of ops dec output) here, few, stop, Silent-Unanswered iter silent)
    answer_of-Answers e (inr (inl (u, here, few, fits, silent))) = inr (
        inl (
          u,
          ap (answer_of ops dec output) here
              ∙ ap (λ (o : List ℕ). record { ok = true; output = o; iter_used = some (suc u) })
                  (written (suc u)),
          few,
          (checked u).0 fits,
          Silent-Unanswered u silent,
        ))
    answer_of-Answers e (inr (inr (here, silent))) = inr (
        inr (
          ap (answer_of ops dec output) here
              ∙ ap
                  (λ (o : List ℕ). record { ok = false; output = o; iter_used = some dec.max_iter })
                  (written dec.max_iter),
          Silent-Unanswered dec.max_iter silent,
        ))

-- For a decoder whose code has fewer information bits than bits, with the groups of the table within
-- the information bits, and memory of the sizes asked for, n soft values at least and any times at
-- which cancelling is requested: dvbs2x_ldpc_decode gives one of three answers. Either -1 with the
-- number of an iteration before which it saw a request, and the output left alone. Or 0 with the
-- number of iterations after which the hard decisions satisfy every row of the code, and the first k
-- decisions at the front of the output. Or -1 with max_iter and the first k of the last decisions. In
-- each case no request was seen before, and the decisions after any earlier iteration among the first
-- ten, the multiples of five and the last did not satisfy all rows.
pub ldpc_decode-Answers {ℓ} :
    {A : Type ℓ} (ops : SoftOps A) (enc : LdpcEncoder) (max_iter : ℕ) (memory : Memory)
    (cancel : ℕ → Bool) (llr : List A) (output : List ℕ)
    → enc.code.k < enc.code.n
    → Groups enc.code
    → ((n : ℕ) → length (memory.content n) ≡ n)
    → enc.code.n ≤ length llr
    → let dec = decoder_of enc max_iter memory in
      Answers ops dec llr cancel output (ldpc_decode ops dec cancel llr output)
unfolding ldpc_decode decoder_of after
ldpc_decode-Answers ops enc max_iter memory cancel llr output proper groups given enough =
    let dec = decoder_of enc max_iter memory in
    let built = decoder_of-IsBuilt enc max_iter memory proper given in
    let start = initial ops dec llr in
    answer_of-Answers ops dec llr cancel output
      (λ u.
        checks-Satisfies ops enc.code dec built groups (after ops dec (suc u) start).vn_llr
          (length-after ops dec (suc u) start ∙ omega (arith, length-take enc.code.n llr)))
      (iterate ops dec cancel max_iter 0 start)
      (iterate-Ends ops dec cancel start max_iter 0 start (omega arith) refl
        (λ u h. absurd (omega arith)))
