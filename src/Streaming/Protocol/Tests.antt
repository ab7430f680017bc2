-- ===== src/Streaming/Protocol/Tests.antt =====
-- A frame with two bytes of payload.
use open_vlsnr.Prelude.{ℕ, ◌≡◌, ◌↔◌, none, some, List, [], ◌∷◌, ◌++◌, arith, length, replicate}
use open_vlsnr.Streaming.Protocol.{done, frame_encode, frame_decode}
use open_vlsnr.Streaming.Protocol.RoundTrip.{IsSendable, frame_decode-frame_encode}
use open_vlsnr.Streaming.Protocol.Rejects.{IsFrame, HasRoom, frame_decode_iff}

abbrev payload : List ℕ
payload = 0xAB ∷ 0xCD ∷ []

payload-IsSendable : IsSendable payload 1 70000 515
payload-IsSendable = omega arith

frame_decode-frame_encode_example :
    (wire : List ℕ) × (frame_encode (some (replicate 24 0)) (some payload) 1 70000 515
      ≡ (done 22, some wire))
    × (length wire ≡ 24)
    × (frame_decode (some wire) (some (1 ∷ 2 ∷ 3 ∷ [])) ≡ record {
      reply = done 2;
      payload = some (payload ++ (3 ∷ []));
      metadata = some (record { frame_type = 1; sequence = 70000; stream_id = 515 });
    })
frame_decode-frame_encode_example =
    frame_decode-frame_encode payload 1 70000 515 (replicate 24 0) (1 ∷ 2 ∷ 3 ∷ [])
      payload-IsSendable (omega arith) (omega arith)

frame_decode_iff_example :
    ((frame_decode (some (replicate 30 0)) none).reply ≡ done 4)
    ↔ (IsFrame (replicate 30 0) 4 × HasRoom 4 none)
frame_decode_iff_example = frame_decode_iff (replicate 30 0) none 4
