-- ===== src/Streaming/Protocol/Wire.antt =====
-- What `dvbs2x_frame_encode` leaves in memory, part by part.
use open_vlsnr.Prelude.{
  ℕ, ◌+◌, ◌-◌, ◌^◌, ◌≤◌, ◌<◌, ◌≡◌, refl, sym, ap, ◌∙◌, List, ◌++◌, arith, length, take, drop, All,
  append_assoc, take-append, length-append, write_at, slice, length-write_at,
}
use open_vlsnr.Streaming.Crc32.{crc32}
use open_vlsnr.Streaming.Protocol.{
  be32, be16, ntohl, ntohs, header_bytes, body_written, encoded, header_size,
}

abbrev pub IsByte : ℕ → Type 0
IsByte b = b < 256

pub ntohl-be32 : (x : ℕ) (rest : List ℕ) → x < 2 ^ 32 → ntohl (be32 x ++ rest) ≡ x
unfolding ntohl be32
ntohl-be32 x rest h = omega arith

pub ntohs-be16 : (x : ℕ) (rest : List ℕ) → x < 2 ^ 16 → ntohs (be16 x ++ rest) ≡ x
unfolding ntohs be16
ntohs-be16 x rest h = omega arith

module _ (sequence payload_len frame_type stream_id : ℕ) where
  pub length-header_bytes : length (header_bytes sequence payload_len frame_type stream_id) ≡ 16
  unfolding header_bytes be32 be16
  length-header_bytes = refl

  pub header_bytes-IsByte :
      All IsByte (drop 4 (header_bytes sequence payload_len frame_type stream_id))
  unfolding header_bytes be32 be16
  header_bytes-IsByte = omega arith

  pub length-drop_four :
      length (drop 4 (header_bytes sequence payload_len frame_type stream_id)) ≡ 12
  unfolding header_bytes be32 be16
  length-drop_four = refl

  pub drop_four-append :
      (rest : List ℕ)
      → drop 4 (header_bytes sequence payload_len frame_type stream_id ++ rest)
        ≡ drop 4 (header_bytes sequence payload_len frame_type stream_id) ++ rest
  unfolding header_bytes be32 be16
  drop_four-append rest = refl

-- The bytes that the checksum covers.
abbrev pub covered : List ℕ → ℕ → ℕ → ℕ → List ℕ
covered payload frame_type sequence stream_id =
    drop 4 (header_bytes sequence (length payload) frame_type stream_id) ++ payload

-- A frame, as it stands at the start of the buffer.
abbrev pub wire_frame : List ℕ → ℕ → ℕ → ℕ → List ℕ
wire_frame payload frame_type sequence stream_id =
    header_bytes sequence (length payload) frame_type stream_id
    ++ (payload ++ be32 (crc32 (covered payload frame_type sequence stream_id)))

module _ (payload : List ℕ) (frame_type sequence stream_id : ℕ) where
  -- The slice that encoder and decoder hash, in any memory that begins with header and payload.
  pub slice-covered :
      (n : ℕ) (rest : List ℕ)
      → n ≡ length payload
      → slice 4
          (header_size - 4 + n)
          (header_bytes sequence (length payload) frame_type stream_id ++ (payload ++ rest))
        ≡ covered payload frame_type sequence stream_id
  slice-covered n rest e =
      let h = header_bytes sequence (length payload) frame_type stream_id in
      ap (take (12 + n)) (
        drop_four-append sequence (length payload) frame_type stream_id (payload ++ rest)
        ∙ sym (append_assoc (drop 4 h) payload rest))
      ∙ take-append (12 + n) (drop 4 h ++ payload) rest (
          omega (
            arith,
            length-append (drop 4 h) payload,
            length-drop_four sequence (length payload) frame_type stream_id,
          ))

  body_written_lem :
      (buf : List ℕ)
      → (rest : List ℕ) × (body_written buf payload frame_type sequence stream_id
          ≡ header_bytes sequence (length payload) frame_type stream_id ++ (payload ++ rest))
  unfolding body_written
  body_written_lem buf =
      let header = header_bytes sequence (length payload) frame_type stream_id in
      let b1 = write_at buf 0 header in
      (
        drop (16 + length payload) b1,
        ap (λ t. t ++ (payload ++ drop (16 + length payload) b1))
            (take-append 16 header (drop (0 + length header) buf)
              (length-header_bytes sequence (length payload) frame_type stream_id)),
      )

  encoded_at :
      (b rest : List ℕ) (n crc : ℕ)
      → b ≡ header_bytes sequence (length payload) frame_type stream_id ++ (payload ++ rest)
      → n ≡ 16 + length payload
      → (after : List ℕ) × (write_at b n (be32 crc)
          ≡ (header_bytes sequence (length payload) frame_type stream_id ++ (payload ++ be32 crc))
            ++ after)
  encoded_at b rest n crc e en =
      let header = header_bytes sequence (length payload) frame_type stream_id in
      let after = drop (n + length (be32 crc)) b in
      (
        after,
        ap (λ t. t ++ (be32 crc ++ after))
              (ap (take n) (e ∙ sym (append_assoc header payload rest))
                ∙ take-append n (header ++ payload) rest (
                    omega (
                      arith,
                      length-append header payload,
                      length-header_bytes sequence (length payload) frame_type stream_id,
                    )))
            ∙ simp append_assoc,
      )

  -- The memory begins with the frame.
  pub encoded_lem :
      (buf : List ℕ)
      → (rest : List ℕ) × (encoded buf payload frame_type sequence stream_id
          ≡ wire_frame payload frame_type sequence stream_id ++ rest)
  unfolding encoded
  encoded_lem buf =
      let b = body_written buf payload frame_type sequence stream_id in
      let (rest, begins) = body_written_lem buf in
      let crc = crc32 (slice 4 (header_size - 4 + length payload) b) in
      let hashed : crc ≡ crc32 (covered payload frame_type sequence stream_id) =
        ap (λ t. crc32 (slice 4 (header_size - 4 + length payload) t)) begins
        ∙ ap crc32 (slice-covered (length payload) rest refl) in
      let (after, written) = encoded_at b rest (16 + length payload) crc begins refl in
      (
        after,
        written
            ∙ ap
                (λ (c : ℕ).
                  (header_bytes sequence (length payload) frame_type stream_id
                    ++ (payload ++ be32 c))
                  ++ after)
                hashed,
      )

  pub length-encoded :
      (buf : List ℕ)
      → 20 + length payload ≤ length buf
      → length (encoded buf payload frame_type sequence stream_id) ≡ length buf
  unfolding encoded body_written
  length-encoded buf room =
      let header = header_bytes sequence (length payload) frame_type stream_id in
      let b1 = write_at buf 0 header in
      let b2 = write_at b1 16 payload in
      let crc = crc32 (slice 4 (header_size - 4 + length payload) b2) in
      let four : length (be32 crc) ≡ 4 = unfold be32 in refl in
      let sixteen : length header ≡ 16 =
        length-header_bytes sequence (length payload) frame_type stream_id in
      let l1 : length b1 ≡ length buf = length-write_at buf 0 header (omega arith) in
      let l2 : length b2 ≡ length b1 = length-write_at b1 16 payload (omega arith) in
      length-write_at b2 (16 + length payload) (be32 crc) (omega arith) ∙ l2 ∙ l1
