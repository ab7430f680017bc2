-- ===== src/Ldpc/Decoder/Built.antt =====
-- The matrix that dvbs2x_ldpc_decoder_init (src/ldpc_decode.c) leaves in a decoder.
use open_vlsnr.Prelude.{ℕ, suc, ◌+◌, ◌-◌, ◌<◌, ◌≡◌, refl, ap, ◌∙◌, arith, length, get_or, some}
use open_vlsnr.Types.{Modcod}
use open_vlsnr.Ldpc.{Tables, LdpcCode, LdpcEncoder, encoder_init}
use open_vlsnr.Ldpc.Csr.Columns.{row_columns}
use open_vlsnr.Ldpc.Csr.Correct.{build_csr-row_columns}
use open_vlsnr.Ldpc.Decoder.{LdpcDecoder, Memory, decoder_of, decoder_init}
use open_vlsnr.Ldpc.Decoder.Sums.{row_columns_pos}

-- The matrix of a decoder holds the rows of the code.
pub record IsBuilt (code : LdpcCode) (dec : LdpcDecoder) : Type 0 where
  pub same : dec.code ≡ code
  pub degree :
      (r : ℕ)
      → r < code.n - code.k
      → get_or dec.csr_row_ptr (r + 1) 0 ≡ get_or dec.csr_row_ptr r 0 + length (row_columns code r)
  pub column :
      (r i : ℕ)
      → r < code.n - code.k
      → i < length (row_columns code r)
      → get_or dec.csr_col_idx (get_or dec.csr_row_ptr r 0 + i) 0 ≡ get_or (row_columns code r) i 0

pub decoder_of-IsBuilt :
    (enc : LdpcEncoder) (max_iter : ℕ) (memory : Memory)
    → enc.code.k < enc.code.n
    → ((n : ℕ) → length (memory.content n) ≡ n)
    → IsBuilt enc.code (decoder_of enc max_iter memory)
unfolding decoder_of
decoder_of-IsBuilt enc max_iter memory proper given =
    let row =
      λ (r i : ℕ) (below : r < enc.code.n - enc.code.k)
          (inside : i < length (row_columns enc.code r)).
        build_csr-row_columns enc.code memory.content r i proper given below inside in
    record {
      same = refl;
      degree = λ r below.
          ap (λ (i : ℕ). get_or (decoder_of enc max_iter memory).csr_row_ptr i 0)
            (let e : r + 1 ≡ suc r = omega arith in e)
          ∙ (row r 0 below (row_columns_pos enc.code r)).1;
      column = λ r i below inside. (row r i below inside).2;
    }

-- `dvbs2x_ldpc_decoder_init` builds the decoder for the code of the encoder.
pub decoder_init_built :
    (tables : Tables) (mc : Modcod) (max_iter : ℕ) (memory : Memory) (dec : LdpcDecoder)
    {enc : LdpcEncoder}
    → encoder_init tables mc ≡ some enc
    → decoder_init tables mc max_iter memory ≡ some dec
    → decoder_of enc max_iter memory ≡ dec
unfolding decoder_init
decoder_init_built tables mc max_iter memory dec ready made = ground arith
