-- ===== src/Streaming/Protocol/RoundTrip.antt =====
-- streaming/src/protocol.c: the decoder on what the encoder leaves in memory.
use open_vlsnr.Prelude.{
  ℕ, ◌+◌, ◌-◌, ◌^◌, ◌≤◌, ◌<◌, ◌≡◌, refl, sym, ap, ◌∙◌, false, none, some, List, ◌++◌, arith, length,
  take, drop, All, All-append, append_assoc, take-append, drop-append, length-append, slice, ltb,
}
use open_vlsnr.Streaming.Crc32.{crc32}
use open_vlsnr.Streaming.Crc32.Reference.{crc32-lt}
use open_vlsnr.Streaming.Protocol.{
  done, be32, be16, ntohl, ntohs, byte_at, header_bytes, encoded, header_size, frame_encode,
  frame_decode, check_frame, extract, frame_magic,
}
use open_vlsnr.Streaming.Protocol.Wire.{
  IsByte, ntohl-be32, length-header_bytes, header_bytes-IsByte, covered, wire_frame, slice-covered,
  encoded_lem, length-encoded,
}

-- What the encoder's caller has to keep to.
pub record IsSendable (payload : List ℕ) (frame_type sequence stream_id : ℕ) : Type 0 where
  pub bytes : All IsByte payload
  pub short_enough : length payload ≤ 65520
  pub known_type : frame_type ≤ 2
  pub word : sequence < 2 ^ 32
  pub half_word : stream_id < 2 ^ 16

-- The checks of the decoder, passed one by one.
check_frame_passes :
    (b : List ℕ) (plen : ℕ)
    → ntohs (drop 8 b) ≡ plen
    → 20 + plen ≤ length b
    → plen ≤ 65520
    → ntohl b ≡ frame_magic
    → crc32 (slice 4 (header_size - 4 + plen) b) ≡ ntohl (drop (header_size + plen) b)
    → check_frame b ≡ none
unfolding check_frame
check_frame_passes b plen e room short magic crc =
    let crc' : crc32 (slice 4 (header_size - 4 + ntohs (drop 8 b)) b)
        ≡ ntohl (drop (header_size + ntohs (drop 8 b)) b) =
      rw e crc in
    ground arith

extract_lem :
    (b out payload : List ℕ)
    → ntohs (drop 8 b) ≡ length payload
    → slice header_size (length payload) b ≡ payload
    → length payload ≤ length out
    → extract b (some out) ≡ record {
      reply = done (length payload);
      payload = some (payload ++ drop (length payload) out);
      metadata = some (record {
        frame_type = byte_at (drop 10 b);
        sequence = ntohl (drop 4 b);
        stream_id = ntohs (drop 14 b);
      });
    }
unfolding extract
extract_lem b out payload e s room =
    let fits : ltb (length out) (length payload) ≡ false = ground arith in
    let from_start : 0 + length payload ≡ length payload = omega arith in
    simp (e, s, fits, from_start)

module _ (payload : List ℕ) (frame_type sequence stream_id : ℕ)
    (ok : IsSendable payload frame_type sequence stream_id) (rest : List ℕ) where
  abbrev memory : List ℕ
  memory = wire_frame payload frame_type sequence stream_id ++ rest

  memory_parts :
      memory
      ≡ header_bytes sequence (length payload) frame_type stream_id
        ++ (payload ++ (be32 (crc32 (covered payload frame_type sequence stream_id)) ++ rest))
  memory_parts = simp append_assoc

  length-memory : length memory ≡ 20 + length payload + length rest
  length-memory =
      let crc_bytes = be32 (crc32 (covered payload frame_type sequence stream_id)) in
      let four : length crc_bytes ≡ 4 = unfold be32 in refl in
      omega (
        arith,
        ap length memory_parts,
        length-append (header_bytes sequence (length payload) frame_type stream_id)
            (payload ++ (crc_bytes ++ rest)),
        length-append payload (crc_bytes ++ rest),
        length-append crc_bytes rest,
        length-header_bytes sequence (length payload) frame_type stream_id,
      )

  plen_read : ntohs (drop 8 memory) ≡ length payload
  unfolding header_bytes be32 be16 ntohs
  plen_read = omega (arith, ok.short_enough)

  magic_read : ntohl memory ≡ frame_magic
  unfolding header_bytes be32 be16 ntohl
  magic_read = refl

  sequence_read : ntohl (drop 4 memory) ≡ sequence
  unfolding header_bytes be32 be16 ntohl
  sequence_read = omega (arith, ok.word)

  stream_id_read : ntohs (drop 14 memory) ≡ stream_id
  unfolding header_bytes be32 be16 ntohs
  stream_id_read = omega (arith, ok.half_word)

  frame_type_read : byte_at (drop 10 memory) ≡ frame_type
  unfolding header_bytes be32 be16 byte_at
  frame_type_read = omega (arith, ok.known_type)

  crc_read :
      ntohl (drop (header_size + length payload) memory)
      ≡ crc32 (covered payload frame_type sequence stream_id)
  crc_read =
      let header = header_bytes sequence (length payload) frame_type stream_id in
      let crc = crc32 (covered payload frame_type sequence stream_id) in
      ap (λ t. ntohl (drop (16 + length payload) t))
        (memory_parts ∙ sym (append_assoc header payload (be32 crc ++ rest)))
      ∙ ap ntohl (
          drop-append (16 + length payload) (header ++ payload) (be32 crc ++ rest) (
            omega (
              arith,
              length-append header payload,
              length-header_bytes sequence (length payload) frame_type stream_id,
            )))
      ∙ ntohl-be32 crc rest (
          crc32-lt (covered payload frame_type sequence stream_id) (
            All-append IsByte (drop 4 header) payload
              (header_bytes-IsByte sequence (length payload) frame_type stream_id) ok.bytes))

  payload_read : slice header_size (length payload) memory ≡ payload
  payload_read =
      let header = header_bytes sequence (length payload) frame_type stream_id in
      let tail = be32 (crc32 (covered payload frame_type sequence stream_id)) ++ rest in
      ap (slice 16 (length payload)) memory_parts
      ∙ ap (take (length payload)) (
          drop-append 16 header (payload ++ tail)
            (length-header_bytes sequence (length payload) frame_type stream_id))
      ∙ take-append (length payload) payload tail refl

  crc_hashed :
      crc32 (slice 4 (header_size - 4 + length payload) memory)
      ≡ crc32 (covered payload frame_type sequence stream_id)
  crc_hashed =
      ap (λ t. crc32 (slice 4 (12 + length payload) t)) memory_parts
      ∙ ap crc32 (
          slice-covered payload frame_type sequence stream_id (length payload)
            (be32 (crc32 (covered payload frame_type sequence stream_id)) ++ rest) refl)

  check_frame-memory : check_frame memory ≡ none
  check_frame-memory =
      check_frame_passes memory (length payload) plen_read (omega (arith, length-memory))
        ok.short_enough magic_read (crc_hashed ∙ sym crc_read)

  -- The frame decodes, whatever stands behind it in the memory.
  frame_decode-memory :
      (out : List ℕ)
      → length payload ≤ length out
      → frame_decode (some memory) (some out) ≡ record {
        reply = done (length payload);
        payload = some (payload ++ drop (length payload) out);
        metadata =
            some (record { frame_type = frame_type; sequence = sequence; stream_id = stream_id });
      }
  unfolding frame_decode
  frame_decode-memory out room =
      rw (check_frame-memory, frame_decode)
        (extract_lem memory out payload plen_read payload_read room
          ∙ rw (frame_type_read, sequence_read, stream_id_read))

module _ (payload : List ℕ) (frame_type sequence stream_id : ℕ) where
  -- A payload that the encoder's caller may send, with room for the frame, is encoded; the
  -- buffer keeps its length, and decoding it gives back the payload, its length, the frame type,
  -- the sequence number and the stream identifier, and leaves the rest of the output alone.
  pub frame_decode-frame_encode :
      (buf out : List ℕ)
      → IsSendable payload frame_type sequence stream_id
      → 20 + length payload ≤ length buf
      → length payload ≤ length out
      → (wire : List ℕ) × (frame_encode (some buf) (some payload) frame_type sequence stream_id
          ≡ (done (16 + length payload + 4), some wire))
        × (length wire ≡ length buf)
        × (frame_decode (some wire) (some out) ≡ record {
          reply = done (length payload);
          payload = some (payload ++ drop (length payload) out);
          metadata =
              some (record { frame_type = frame_type; sequence = sequence; stream_id = stream_id });
        })
  unfolding frame_encode
  frame_decode-frame_encode buf out ok room room' =
      let (rest, begins) = encoded_lem payload frame_type sequence stream_id buf in
      (
        encoded buf payload frame_type sequence stream_id,
        ground (arith, ok.short_enough, ok.known_type),
        length-encoded payload frame_type sequence stream_id buf room,
        rw begins (frame_decode-memory payload frame_type sequence stream_id ok rest out room'),
      )
