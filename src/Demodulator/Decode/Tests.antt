-- ===== src/Demodulator/Decode/Tests.antt =====
-- The end of the receiver (src/demodulator_top.c) at a BB frame for BPSK 1/5 of the short frame,
-- whose soft values reach the BCH decoder as they are: the LDPC decoder has no iteration.
use open_vlsnr.Prelude.{
  ℕ, zero, suc, ◌+◌, ◌≤◌, ◌≡◌, refl, sym, ap, ◌∙◌, inr, Bool, true, false, not, ◌&&◌, none, some,
  List, [], ◌∷◌, ◌++◌, map, take, drop, slice, replicate, length, length-append, length-map,
  length-replicate, length-set, take_all, take-append, arith, All, All-set, All-get_or, get_or, ltb,
  if◌then◌else◌,
}
use open_vlsnr.Bits.Binary.{IsBinary, bit_xor-IsBinary}
use open_vlsnr.Modcod.{get_modcod, bpsk_s_1_5_short, bpsk_1_5_short}
use open_vlsnr.BbFrame.{bb_frame_init, bb_frame_build, bb_frame_parse_ex}
use open_vlsnr.BbFrame.RoundTrip.{IsGsContext, bb_frame_parse_ex-bb_frame_build}
use open_vlsnr.BbFrame.Whole.{bb_frame_init-IsGsContext, bb_frame_build-IsBinary}
use open_vlsnr.Bch.{BchEncoder, bch_encode}
use open_vlsnr.Bch.Init.{bch_encoder_init}
use open_vlsnr.Bch.Binary.{bch_encode-IsBinary}
use open_vlsnr.Bch.Generator.{IsRoot, bch_encoder_init-IsBchEncoder}
use open_vlsnr.Bch.Codeword.{IsBchEncoder, bch_encode-IsMultiple}
use open_vlsnr.Bch.Decoder.Single.{turned}
use open_vlsnr.Ldpc.Boxplus.{SoftOps}
use open_vlsnr.Ldpc.Decoder.Built.{decoder_of-IsBuilt}
use open_vlsnr.Ldpc.{LdpcEncoder, encoder_init}
use open_vlsnr.Ldpc.Codes.{IsEncoderOf, encoder_init-IsEncoderOf}
use open_vlsnr.Ldpc.Decoder.{
  Memory, LdpcDecoder, decoder_of, hard_bit, decisions, answer_of, iterate, ldpc_decode,
}
use open_vlsnr.Modulator.Example.{no_addresses, ones, length-ones}
use open_vlsnr.Demodulator.Decode.{Buffers, decoder_fits, decoder_for, run_ldpc, decode_llr}
use open_vlsnr.Demodulator.Decode.Reuse.{IsDecoderOf, decoder_for-IsDecoderOf}
use open_vlsnr.Demodulator.Decode.Result.{all_buffers}
use open_vlsnr.Demodulator.User.{sender, read_user, read_user-bb_frame_build}

abbrev plain_memory : Memory
plain_memory = record { for_csr = true; for_work = true; content = λ n. replicate n 0 }

given : (n : ℕ) → length (plain_memory.content n) ≡ n
given n = length-replicate {A = ℕ} n 0

-- The decoder of another MODCOD with the same sizes.
spread_encoder :
    (enc : LdpcEncoder) × (encoder_init no_addresses bpsk_s_1_5_short ≡ some enc)
    × IsEncoderOf bpsk_s_1_5_short enc
unfolding get_modcod
spread_encoder = encoder_init-IsEncoderOf no_addresses 5 refl

abbrev kept : LdpcDecoder
kept = decoder_of spread_encoder.0 200 plain_memory

kept_is_used : decoder_for no_addresses bpsk_1_5_short plain_memory (some kept) ≡ some kept
unfolding decoder_for decoder_fits decoder_of
kept_is_used = ground (arith, spread_encoder.2.codeword, spread_encoder.2.bch_codeword)

decoder_for-IsDecoderOf_example : IsDecoderOf no_addresses bpsk_1_5_short kept
unfolding get_modcod
decoder_for-IsDecoderOf_example =
    let (enc, made, v) = spread_encoder in
    decoder_for-IsDecoderOf no_addresses 7 plain_memory (some kept) kept refl given
      (
        5,
        bpsk_s_1_5_short,
        refl,
        (enc, made, v, decoder_of-IsBuilt enc 200 plain_memory v.info given),
      )
      kept_is_used

-- Signs for doubles: true is a negative number.
abbrev sign_ops : SoftOps Bool
sign_ops = record {
  of_nat = λ n. false;
  to_nat = λ a. 0;
  neg = not;
  fabs = λ a. false;
  plus = λ a b. a;
  minus = λ a b. a;
  times = λ a b. if a then not b else b;
  over = λ a b. a;
  lt = λ a b. a;
  le = λ a b. false;
  exp = λ a. false;
  log1p = λ a. false;
}

abbrev soft : ℕ → Bool
soft b = ltb 0 b

hard_bit-soft : (bits : List ℕ) → All IsBinary bits → map (hard_bit sign_ops) (map soft bits) ≡ bits
unfolding hard_bit
hard_bit-soft [] h = refl
hard_bit-soft (zero ∷ bits) h = ap (λ (t : List ℕ). 0 ∷ t) (hard_bit-soft bits h.1)
hard_bit-soft (suc zero ∷ bits) h = ap (λ (t : List ℕ). 1 ∷ t) (hard_bit-soft bits h.1)
hard_bit-soft (suc (suc b) ∷ bits) h = absurd (omega (arith, h.0))

decisions-soft :
    (k n : ℕ) (bits : List ℕ) (rest : List Bool)
    → All IsBinary bits
    → length bits ≡ k
    → n ≡ k + length rest
    → take k (decisions sign_ops k (take n (map soft bits ++ rest)) []) ≡ bits
unfolding decisions
decisions-soft k n bits rest binary size total =
    let values = map soft bits in
    let len : length values ≡ k = length-map bits soft ∙ size in
    let all : take n (values ++ rest) ≡ values ++ rest =
      take_all n (values ++ rest) (omega (arith, length-append values rest, len, total)) in
    let front : take k (take n (values ++ rest)) ≡ values =
      ap (take k) all ∙ take-append k values rest len in
    rw (front, hard_bit-soft bits binary) (take-append k bits (drop k []) size)

bch_encoder :
    (enc : BchEncoder) × (low : List ℕ) × (bch_encoder_init true bpsk_1_5_short ≡ some enc)
    × IsBchEncoder enc low
    × (enc.k ≡ 3072)
    × (enc.n ≡ 3240)
    × ((k : ℕ) → 1 ≤ k → k ≤ 24 → IsRoot bpsk_1_5_short.frame_type enc.gen_poly k)
unfolding get_modcod
bch_encoder = bch_encoder_init-IsBchEncoder 7 refl

abbrev user : List ℕ
user = 1 ∷ 0 ∷ 1 ∷ []

abbrev user_memory : List ℕ
user_memory = 9 ∷ 9 ∷ 9 ∷ 9 ∷ []

room_for_user : length user ≤ (sender bpsk_1_5_short 2).dfl
unfolding bb_frame_init
room_for_user = omega arith

context : IsGsContext (sender bpsk_1_5_short 2)
unfolding get_modcod
context = bb_frame_init-IsGsContext 7 2 refl

-- A BB frame for three bits, built in a memory of ones.
built :
    (frame : List ℕ) × (bb_frame_build (sender bpsk_1_5_short 2) user ones ≡ (none, frame))
    × (length frame ≡ length ones)
    × (bb_frame_parse_ex (sender bpsk_1_5_short 2) frame user_memory ≡ record {
      error = none;
      user_data = user ++ drop (length user) user_memory;
      user_len = length user;
    })
unfolding bb_frame_init
built =
    bb_frame_parse_ex-bb_frame_build (sender bpsk_1_5_short 2) user ones user_memory context
      room_for_user (omega (arith, length-ones)) (omega arith)

abbrev frame : List ℕ
frame = built.0

length-frame : length frame ≡ 3072
length-frame = built.2 ∙ length-ones

user-IsBinary : All IsBinary user
user-IsBinary = omega arith

frame-IsBinary : All IsBinary frame
unfolding bb_frame_init
frame-IsBinary =
    bb_frame_build-IsBinary (sender bpsk_1_5_short 2) user ones frame context room_for_user
      length-ones user-IsBinary built.1

-- The codeword of the frame, and the word received: bit 5 is wrong.
abbrev codeword : List ℕ
codeword = bch_encode bch_encoder.0 frame

abbrev received : List ℕ
received = turned 5 codeword

codeword-length : length codeword ≡ 3240
codeword-length =
    let (enc, low, made, v, k, n, roots) = bch_encoder in
    (bch_encode-IsMultiple enc low frame v (length-frame ∙ sym k)).0 ∙ n

received-length : length received ≡ 3240
received-length = length-set codeword 5 _ ∙ codeword-length

received-IsBinary : All IsBinary received
received-IsBinary =
    let word = bch_encode-IsBinary bch_encoder.0 frame frame-IsBinary in
    All-set IsBinary codeword 5 _ word (
      bit_xor-IsBinary (get_or codeword 5 0) 1 (All-get_or IsBinary codeword 5 0 word (omega arith))
        (omega arith))

abbrev llr : List Bool
llr = map soft received ++ replicate 12960 false

abbrev never : ℕ → Bool
never iter = false

not_late : (not (run_ldpc sign_ops kept 0 never llr []).ok && false) ≡ false
not_late = ground arith

decided : slice 0 3240 (run_ldpc sign_ops kept 0 never llr []).output ≡ received
unfolding run_ldpc ldpc_decode iterate answer_of decisions decoder_of
decided =
    let v = spread_encoder.2 in
    let k : kept.code.k ≡ 3240 = v.bch_codeword in
    ap (λ (t : ℕ). take t (decisions sign_ops kept.code.k (take kept.code.n llr) [])) (sym k)
    ∙ decisions-soft kept.code.k kept.code.n received (replicate 12960 false) received-IsBinary
        (received-length ∙ sym k) (omega (arith, v.codeword, k, length-replicate 12960 false))

abbrev frame_memory : List ℕ
frame_memory = 3 ∷ 4 ∷ []

read_user-bb_frame_build_example :
    read_user bpsk_1_5_short
      (decode_llr sign_ops no_addresses bpsk_1_5_short plain_memory
        (some kept)
        0
        never
        false
        llr
        (all_buffers [])
        frame_memory
        3072)
      user_memory
    ≡ record {
      error = none;
      user_data = user ++ drop (length user) user_memory;
      user_len = length user;
    }
unfolding get_modcod
read_user-bb_frame_build_example =
    read_user-bb_frame_build sign_ops no_addresses 7 2 plain_memory (some kept) kept 0 never false
      llr [] frame_memory 3072 bch_encoder.0 user ones frame user_memory refl bch_encoder.2
      user-IsBinary room_for_user (omega arith) length-ones built.1 (omega arith) kept_is_used
      (inr (5, omega arith, decided)) not_late

-- Memory for the LDPC decoder's output, and none for the BCH codeword.
abbrev one_buffer : Buffers
one_buffer = record { ldpc_out = some []; for_bch_cw = false }
