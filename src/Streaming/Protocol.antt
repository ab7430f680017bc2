-- ===== src/Streaming/Protocol.antt =====
-- streaming/src/protocol.c: frames on the wire, big-endian with a CRC-32 behind the payload.
pub mod Wire
pub mod RoundTrip
pub mod Rejects
pub mod Sequence
mod Tests
use open_vlsnr.Prelude.{
  ℕ, ◌+◌, ◌-◌, ◌*◌, ◌/◌, ◌%◌, ◌^◌, Bool, true, false, not, Option, none, some, List, [], ◌∷◌, ◌++◌,
  length, drop, write_at, slice, ltb, ◌==◌, if◌then◌else◌,
}
use open_vlsnr.Streaming.Crc32.{crc32}

-- The negated `errno` values.
pub data Errno : Type 0 where
  einval enospc ebadmsg : Errno

-- What a call returns: a length, or a negative error.
pub data Reply : Type 0 where
  done : ℕ → Reply
  fail : Errno → Reply

abbrev pub frame_magic : ℕ
frame_magic = 0x53325856

abbrev pub header_size : ℕ
header_size = 16

abbrev pub crc_size : ℕ
crc_size = 4

abbrev pub max_payload : ℕ
max_payload = 65520

-- DVBS2X_FRAME_BBFRAME, the last frame type.
abbrev pub frame_bbframe : ℕ
frame_bbframe = 2

-- The bytes of `htonl(x)` and `htons(x)` in memory, and the words read back by `ntohl`, `ntohs`.
pub be32 : ℕ → List ℕ
be32 x = x / 2 ^ 24 % 256 ∷ x / 2 ^ 16 % 256 ∷ x / 2 ^ 8 % 256 ∷ x % 256 ∷ []

pub be16 : ℕ → List ℕ
be16 x = x / 2 ^ 8 % 256 ∷ x % 256 ∷ []

-- Reads happen within the length that was checked; past the end nothing is promised.
pub ntohl : List ℕ → ℕ
ntohl (a ∷ b ∷ c ∷ d ∷ rest) = a * 2 ^ 24 + b * 2 ^ 16 + c * 2 ^ 8 + d
ntohl _ = 0

pub ntohs : List ℕ → ℕ
ntohs (a ∷ b ∷ rest) = a * 2 ^ 8 + b
ntohs _ = 0

pub byte_at : List ℕ → ℕ
byte_at (a ∷ rest) = a
byte_at [] = 0

-- `struct dvbs2x_frame_header` as `dvbs2x_frame_encode` fills it: flags and fragment offset are 0.
pub header_bytes : ℕ → ℕ → ℕ → ℕ → List ℕ
header_bytes sequence payload_len frame_type stream_id =
    be32 frame_magic
    ++ (be32 sequence
        ++ (be16 (payload_len % 2 ^ 16) ++ (frame_type % 2 ^ 8 ∷ 0 ∷ 0 ∷ 0 ∷ be16 stream_id)))

-- The memory of `buf` once header and payload are written.
pub body_written : List ℕ → List ℕ → ℕ → ℕ → ℕ → List ℕ
body_written buf payload frame_type sequence stream_id =
    let header = header_bytes sequence (length payload) frame_type stream_id in
    write_at (write_at buf 0 header) header_size payload

-- The memory of `buf` after a successful encode: the checksum is taken over the memory.
pub encoded : List ℕ → List ℕ → ℕ → ℕ → ℕ → List ℕ
encoded buf payload frame_type sequence stream_id =
    let b = body_written buf payload frame_type sequence stream_id in
    let crc = crc32 (slice 4 (header_size - 4 + length payload) b) in
    write_at b (header_size + length payload) (be32 crc)

-- `dvbs2x_frame_encode`: the return value and the memory of `buf` afterwards. A pointer is `none`
-- if it is NULL; `buf_size` and `payload_len` are the lengths of the lists.
pub frame_encode : Option (List ℕ) → Option (List ℕ) → ℕ → ℕ → ℕ → Reply × Option (List ℕ)
frame_encode none payload frame_type sequence stream_id = (fail einval, none)
frame_encode (some buf) none frame_type sequence stream_id = (fail einval, some buf)
frame_encode (some buf) (some payload) frame_type sequence stream_id =
    let total_size = header_size + length payload + crc_size in
    if ltb max_payload (length payload)
    then (fail einval, some buf)
    else if ltb frame_bbframe frame_type
    then (fail einval, some buf)
    else if ltb (length buf) total_size
    then (fail enospc, some buf)
    else (done total_size, some (encoded buf payload frame_type sequence stream_id))

-- The values that `dvbs2x_frame_decode` stores through its last three pointers.
pub record Metadata : Type 0 where
  pub frame_type : ℕ
  pub sequence : ℕ
  pub stream_id : ℕ

-- The memory of `payload` and the metadata: as they are after the call.
pub record Decoded : Type 0 where
  pub reply : Reply
  pub payload : Option (List ℕ)
  pub metadata : Option Metadata

-- The tail of `dvbs2x_frame_decode`, past every check of the frame.
pub extract : List ℕ → Option (List ℕ) → Decoded
extract b payload =
    let plen = ntohs (drop 8 b) in
    let metadata : Metadata = record {
      frame_type = byte_at (drop 10 b);
      sequence = ntohl (drop 4 b);
      stream_id = ntohs (drop 14 b);
    } in
    elim payload [
      | none ↦ record { reply = done plen; payload = none; metadata = some metadata }
      | some out ↦
          if ltb (length out) plen
          then record { reply = fail enospc; payload = some out; metadata = none }
          else record {
            reply = done plen;
            payload = some (write_at out 0 (slice header_size plen b));
            metadata = some metadata;
          }
    ]

-- The checks of `dvbs2x_frame_decode` in order: the first that fails, if one does.
pub check_frame : List ℕ → Option Errno
check_frame b =
    let plen = ntohs (drop 8 b) in
    if ltb (length b) (header_size + crc_size)
    then some einval
    else if not (ntohl b == frame_magic)
    then some einval
    else if ltb max_payload plen
    then some einval
    else if ltb (length b) (header_size + plen + crc_size)
    then some einval
    else if not (crc32 (slice 4 (header_size - 4 + plen) b) == ntohl (drop (header_size + plen) b))
    then some ebadmsg
    else none

-- `dvbs2x_frame_decode`; the three metadata pointers are not NULL.
pub frame_decode : Option (List ℕ) → Option (List ℕ) → Decoded
frame_decode none payload = record { reply = fail einval; payload = payload; metadata = none }
frame_decode (some b) payload = elim (check_frame b) [
  | some e ↦ record { reply = fail e; payload = payload; metadata = none }
  | none ↦ extract b payload
]

-- `dvbs2x_seq_compare`: the difference mod 2^32, read as an `int32_t`; here its sign.
pub data Sign : Type 0 where
  negative zero_sign positive : Sign

pub seq_compare : ℕ → ℕ → Sign
seq_compare a b =
    let d = (a + 2 ^ 32 - b) % 2 ^ 32 in
    if d == 0 then zero_sign else if ltb d (2 ^ 31) then positive else negative

-- `dvbs2x_seq_after` and `dvbs2x_seq_before`
pub seq_after : ℕ → ℕ → Bool
seq_after a b = elim (seq_compare a b) [ positive ↦ true | _ ↦ false ]

pub seq_before : ℕ → ℕ → Bool
seq_before a b = elim (seq_compare a b) [ negative ↦ true | _ ↦ false ]
