-- ===== src/Ldpc/Decoder/Codeword.antt =====
-- When dvbs2x_ldpc_decode (src/ldpc_decode.c) returns 0 its decisions are a codeword of
-- dvbs2x_ldpc_encode (src/ldpc_encode.c).
use open_vlsnr.Prelude.{
  ℕ, zero, suc, ◌-◌, ◌≤◌, ◌<◌, bit_xor, ◌≡◌, ◌↔◌, refl, sym, ap, ap₂, ◌∙◌, Bool, true, false, inl,
  inr, some, List, [], ◌∷◌, ◌++◌, arith, All, length, length-take, length-drop, take, drop, get_or,
  map, take-append, take-append-drop, All-take, if◌then◌else◌,
}
use open_vlsnr.Bits.Xor.{xor-zero, xor_assoc, xor_self}
use open_vlsnr.Bits.{zero-bit_xor}
use open_vlsnr.Bits.Binary.{IsBinary}
use open_vlsnr.Ldpc.Boxplus.{SoftOps}
use open_vlsnr.Ldpc.Decoder.Sums.{column_sum, Satisfies, Groups}
use open_vlsnr.Ldpc.{LdpcCode, LdpcEncoder, ldpc_encode}
use open_vlsnr.Ldpc.Rows.{info_sum}
use open_vlsnr.Ldpc.ParityCheck.{before, row_sum, IsCode, ldpc_encode-closes}
use open_vlsnr.Ldpc.Csr.Columns.{row_columns}
use open_vlsnr.Ldpc.Binary.{ldpc_encode-IsBinary}
use open_vlsnr.Ldpc.Decoder.{
  LdpcDecoder, Memory, DecodedLdpc, decoder_of, hard_bit, initial, ldpc_decode,
}
use open_vlsnr.Ldpc.Decoder.Loop.{after}
use open_vlsnr.Ldpc.Decoder.RowSums.{column_sum-row_sum}
use open_vlsnr.Ldpc.Decoder.Answer.{word_after, length-word_after, Answers, ldpc_decode-Answers}

-- A parity bit is what the rest of its row makes it.
closed_bit : (s p b : ℕ) → bit_xor s (bit_xor p b) ≡ 0 → p ≡ bit_xor s b
closed_bit s p b h =
    let whole = bit_xor p b in
    let same : s ≡ whole =
      sym (xor-zero s)
      ∙ ap (bit_xor s) (sym (xor_self whole))
      ∙ sym (xor_assoc s whole whole)
      ∙ ap (λ (t : ℕ). bit_xor t whole) h
      ∙ zero-bit_xor whole in
    sym (xor-zero p)
    ∙ ap (bit_xor p) (sym (xor_self b))
    ∙ sym (xor_assoc p b b)
    ∙ ap (λ (t : ℕ). bit_xor t b) (sym same)

module _ (code : LdpcCode) (v w : List ℕ) (front : take code.k v ≡ take code.k w)
    (closed_v : (r : ℕ) → r < code.n - code.k → row_sum code r v ≡ 0)
    (closed_w : (r : ℕ) → r < code.n - code.k → row_sum code r w ≡ 0) where
  parity_step :
      (r : ℕ)
      → r < code.n - code.k
      → before (drop code.k v) r ≡ before (drop code.k w) r
      → get_or (drop code.k v) r 0 ≡ get_or (drop code.k w) r 0
  unfolding row_sum
  parity_step r below earlier =
      let table = take code.num_groups code.table in
      let sum = λ (t : List ℕ). info_sum (code.n - code.k) code.q r table t in
      closed_bit (sum (take code.k v)) _ _ (closed_v r below)
      ∙ ap₂ bit_xor (ap sum front) earlier
      ∙ sym (closed_bit (sum (take code.k w)) _ _ (closed_w r below))

  -- The parity bits follow from the information bits, row by row.
  same_parity :
      (r : ℕ) → r < code.n - code.k → get_or (drop code.k v) r 0 ≡ get_or (drop code.k w) r 0
  same_parity zero below = parity_step zero below refl
  same_parity (suc r) below = parity_step (suc r) below (same_parity r (omega arith))

list_ext :
    (v w : List ℕ)
    → length v ≡ length w
    → ((i : ℕ) → i < length v → get_or v i 0 ≡ get_or w i 0)
    → v ≡ w
list_ext [] [] len same = refl
list_ext [] (y ∷ w) len same = absurd (omega (arith, len))
list_ext (x ∷ v) [] len same = absurd (omega (arith, len))
list_ext (x ∷ v) (y ∷ w) len same =
    ap₂ (λ (z : ℕ) (t : List ℕ). z ∷ t) (same 0 (omega arith))
      (list_ext v w (omega (arith, len)) (λ i h. same (suc i) (omega arith)))

module _ (enc : LdpcEncoder) (v : IsCode enc.code) (groups : Groups enc.code) where
  abbrev info_len : ℕ
  info_len = enc.code.k

  ldpc_encode-Satisfies :
      (info : List ℕ)
      → All IsBinary info
      → length info ≡ info_len
      → Satisfies enc.code (ldpc_encode enc info)
  ldpc_encode-Satisfies info binary size r below =
      let (len, front, closes) = ldpc_encode-closes enc info r v size below in
      column_sum-row_sum enc.code (ldpc_encode enc info) r (ldpc_encode-IsBinary enc info binary)
        groups (omega (arith, len, v.info))
      ∙ closes

  Satisfies-eq-ldpc_encode :
      (word : List ℕ)
      → All IsBinary word
      → length word ≡ enc.code.n
      → Satisfies enc.code word
      → word ≡ ldpc_encode enc (take info_len word)
  Satisfies-eq-ldpc_encode word binary size fits =
      let info = take info_len word in
      let few : length info ≡ info_len = omega (arith, length-take info_len word, v.info) in
      let codeword = ldpc_encode enc info in
      let (len, front, _) = ldpc_encode-closes enc info 0 v few (omega (arith, v.info)) in
      let parity : drop info_len word ≡ drop info_len codeword =
        list_ext (drop info_len word) (drop info_len codeword)
          (omega (arith, length-drop info_len word, length-drop info_len codeword, len))
          (λ r h.
            same_parity enc.code word codeword (sym front)
              (λ r below.
                sym (column_sum-row_sum enc.code word r binary groups (omega (arith, v.info)))
                ∙ fits r below)
              (λ r below. (ldpc_encode-closes enc info r v few below).2) r
              (omega (arith, length-drop info_len word))) in
      sym (take-append-drop info_len word)
      ∙ ap₂ (λ (s t : List ℕ). s ++ t) (sym front) parity
      ∙ take-append-drop info_len codeword

-- For a code whose shifts and addresses stay within the parity part and whose groups stay within the
-- information bits, and a word of bits of the code's length: each row of columns, the information
-- bits whose addresses meet the row and the parity bits of the staircase, sums to zero over the word
-- exactly when the word is the codeword that dvbs2x_ldpc_encode makes of its first k bits.
pub Satisfies-iff :
    (enc : LdpcEncoder) (word : List ℕ)
    → IsCode enc.code
    → Groups enc.code
    → All IsBinary word
    → length word ≡ enc.code.n
    → Satisfies enc.code word ↔ (word ≡ ldpc_encode enc (take enc.code.k word))
Satisfies-iff enc word v groups binary size = (
  Satisfies-eq-ldpc_encode enc v groups word binary size,
  λ e r below.
      ap (λ (w : List ℕ). column_sum w (row_columns enc.code r)) e
      ∙ ldpc_encode-Satisfies enc v groups (take enc.code.k word)
          (All-take IsBinary enc.code.k word binary)
          (omega (arith, length-take enc.code.k word, v.info)) r below,
)

hard_bit-All {ℓ} :
    {A : Type ℓ} (ops : SoftOps A) (values : List A) → All IsBinary (map (hard_bit ops) values)
unfolding hard_bit
hard_bit-All ops [] = _
hard_bit-All ops (x ∷ xs) = (bit (ops.lt x (ops.of_nat 0)), hard_bit-All ops xs)
  where
    bit : (b : Bool) → IsBinary (if b then 1 else 0)
    bit true = omega arith
    bit false = omega arith

module _ {ℓ} {A : Type ℓ} (ops : SoftOps A) (enc : LdpcEncoder) (max_iter : ℕ) (memory : Memory)
    (llr : List A) (v : IsCode enc.code) (groups : Groups enc.code)
    (enough : enc.code.n ≤ length llr) where
  abbrev dec : LdpcDecoder
  dec = decoder_of enc max_iter memory

  answered_word :
      (cancel : ℕ → Bool) (output : List ℕ) (d : DecodedLdpc)
      → Answers ops dec llr cancel output d
      → d.ok ≡ true
      → (iter : ℕ) × (d.iter_used ≡ some iter)
        × (iter ≤ max_iter)
        × (word_after ops dec llr iter ≡ ldpc_encode enc (take enc.code.k d.output))
  unfolding decoder_of
  answered_word cancel output d (inl (iter, here, few, stop, earlier)) success =
      absurd (cc (ap (λ (a : DecodedLdpc). a.ok) here))
  answered_word cancel output d (inr (inl (u, here, few, fits, earlier))) success =
      let word = word_after ops dec llr (suc u) in
      let size : length word ≡ enc.code.n = length-word_after ops dec llr (suc u) enough in
      let front : take enc.code.k d.output ≡ take enc.code.k word =
        ap (λ (a : DecodedLdpc). take enc.code.k a.output) here
        ∙ take-append enc.code.k (take enc.code.k word) (drop enc.code.k output)
            (omega (arith, length-take enc.code.k word, size, v.info)) in
      (
        suc u,
        ap (λ (a : DecodedLdpc). a.iter_used) here,
        few,
        (Satisfies-iff enc word v groups
                (hard_bit-All ops (after ops dec (suc u) (initial ops dec llr)).vn_llr) size).0
              fits
            ∙ ap (ldpc_encode enc) (sym front),
      )
  answered_word cancel output d (inr (inr (here, earlier))) success =
      absurd (cc (ap (λ (a : DecodedLdpc). a.ok) here))

-- For such a code, memory of the sizes asked for and n soft values at least: when dvbs2x_ldpc_decode
-- returns 0 the hard decisions after the number of iterations that it tells, at most max_iter, are
-- the codeword that dvbs2x_ldpc_encode makes of the k bits at the front of the output.
pub ldpc_decode-ldpc_encode {ℓ} :
    {A : Type ℓ} (ops : SoftOps A) (enc : LdpcEncoder) (max_iter : ℕ) (memory : Memory)
    (cancel : ℕ → Bool) (llr : List A) (output : List ℕ)
    → IsCode enc.code
    → Groups enc.code
    → ((n : ℕ) → length (memory.content n) ≡ n)
    → enc.code.n ≤ length llr
    → (ldpc_decode ops (decoder_of enc max_iter memory) cancel llr output).ok ≡ true
    → let dec = decoder_of enc max_iter memory in
      let d = ldpc_decode ops dec cancel llr output in
      (iter : ℕ) × (d.iter_used ≡ some iter)
      × (iter ≤ max_iter)
      × (word_after ops dec llr iter ≡ ldpc_encode enc (take enc.code.k d.output))
ldpc_decode-ldpc_encode ops enc max_iter memory cancel llr output v groups given enough success =
    answered_word ops enc max_iter memory llr v groups enough cancel output _
      (ldpc_decode-Answers ops enc max_iter memory cancel llr output v.info groups given enough)
      success
