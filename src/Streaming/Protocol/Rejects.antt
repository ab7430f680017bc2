-- ===== src/Streaming/Protocol/Rejects.antt =====
-- streaming/src/protocol.c: the checks of encoder and decoder.
use open_vlsnr.Prelude.{
  ℕ, ◌+◌, ◌-◌, ◌≤◌, ◌≡◌, ◌↔◌, inl, inr, refl, sym, ◌∙◌, Option, none, some, List, arith, length,
  drop, slice, Option-cases,
}
use open_vlsnr.Streaming.Crc32.{crc32}
use open_vlsnr.Streaming.Protocol.{
  Errno, done, fail, ntohl, ntohs, header_size, frame_encode, frame_decode, check_frame, extract,
  frame_magic,
}

-- A valid frame at the start of the memory, with a payload of `n` bytes.
pub record IsFrame (b : List ℕ) (n : ℕ) : Type 0 where
  pub magic : ntohl b ≡ frame_magic
  pub length_field : ntohs (drop 8 b) ≡ n
  pub short_enough : n ≤ 65520
  pub whole : 20 + n ≤ length b
  pub checksum : crc32 (slice 4 (header_size - 4 + n) b) ≡ ntohl (drop (header_size + n) b)

check_frame-IsFrame : (b : List ℕ) → check_frame b ≡ none → IsFrame b (ntohs (drop 8 b))
unfolding check_frame
check_frame-IsFrame b e = ground arith

IsFrame-check_frame : (b : List ℕ) {n : ℕ} → IsFrame b n → check_frame b ≡ none
unfolding check_frame
IsFrame-check_frame b {n} v =
    let sum : crc32 (slice 4 (header_size - 4 + ntohs (drop 8 b)) b)
        ≡ ntohl (drop (header_size + ntohs (drop 8 b)) b) =
      rw v.length_field v.checksum in
    ground (arith, v.magic, v.length_field, v.short_enough, v.whole)

-- The output buffer, if there is one, has room for `n` bytes.
abbrev pub HasRoom : ℕ → Option (List ℕ) → Type 0
HasRoom n none = Unit
HasRoom n (some out) = n ≤ length out

extract_iff :
    (b : List ℕ) (payload : Option (List ℕ)) (n : ℕ)
    → ((extract b payload).reply ≡ done n) ↔ ((ntohs (drop 8 b) ≡ n) × HasRoom n payload)
unfolding extract
extract_iff b none n = ground arith
extract_iff b (some out) n = ground arith

-- The decoder answers a length exactly when the memory begins with a valid frame with a payload of
-- that length (magic, length limit, no truncation, matching checksum) and the output buffer, if
-- one is given, has room for it.
pub frame_decode_iff :
    (b : List ℕ) (payload : Option (List ℕ)) (n : ℕ)
    → ((frame_decode (some b) payload).reply ≡ done n) ↔ (IsFrame b n × HasRoom n payload)
unfolding frame_decode
frame_decode_iff b payload n = elim (Option-cases (check_frame b)) [
  | inl passed ↦ (
    λ e.
        let (len, room) = (extract_iff b payload n).0 (rw (passed, frame_decode) at e) in
        (rw len at (check_frame-IsFrame b passed), room),
    λ h. rw (passed, frame_decode) ((extract_iff b payload n).1 (h.0.length_field, h.1)),
  )
  | inr (e, failed) ↦ (
    λ h. absurd (fail≢done (rw (failed, frame_decode) at h)),
    λ h. absurd (none≢some (sym (IsFrame-check_frame b h.0) ∙ failed)),
  )
]
  where
    fail≢done : {e : Errno} → fail e ≡ done n → ⊥
    fail≢done h = cc

    none≢some : {e : Errno} → none ≡ some e → ⊥
    none≢some h = cc

-- Whatever the decoder answers an error to, the output buffer is as it was and no metadata is
-- stored.
pub frame_decode_failed :
    (b payload : Option (List ℕ)) {e : Errno}
    → (frame_decode b payload).reply ≡ fail e
    → ((frame_decode b payload).payload ≡ payload) × ((frame_decode b payload).metadata ≡ none)
unfolding frame_decode extract
frame_decode_failed none payload h = (refl, refl)
frame_decode_failed (some b) payload h = ground arith

-- The encoder answers a length exactly when the payload and the frame type are within their limits
-- and the buffer holds the whole frame; the length is that of header, payload and checksum, and
-- when it answers an error the buffer is as it was.
pub frame_encode_iff :
    (buf payload : List ℕ) (frame_type sequence stream_id : ℕ)
    → let (reply, after) = frame_encode (some buf) (some payload) frame_type sequence stream_id in
      ((reply ≡ done (20 + length payload))
        ↔ ((length payload ≤ 65520) × (frame_type ≤ 2) × (20 + length payload ≤ length buf)))
      × ((e : Errno) → reply ≡ fail e → after ≡ some buf)
unfolding frame_encode
frame_encode_iff buf payload frame_type sequence stream_id = ground arith
