-- ===== src/TsMode/Tests.antt =====
-- The theorems of the mode adaptation at inputs.
use open_vlsnr.Prelude.{ℕ, ◌≡◌, ◌⊎◌, refl, none, List, ◌∷◌, arith, length-replicate, replicate}
use open_vlsnr.BbFrame.{BbFrameCtx, ts, byte_at}
use open_vlsnr.TsMode.{TsTx, ts_tx_push}
use open_vlsnr.TsMode.Push.{IsTsTx, Held, Sent, ts_tx_push-IsTsTx}

-- A data field that holds one packet.
abbrev one_packet : BbFrameCtx
one_packet = record { k_bch = 1584; stream_type = ts; upl = 1504; dfl = 1504; ro = 0 }

abbrev idle_tx : TsTx
idle_tx = record {
  bb = one_packet;
  data_bits = replicate 1504 0;
  data_len = 0;
  syncd = 0;
  previous_crc = 0;
}

abbrev zero_packet : List ℕ
zero_packet = 0x47 ∷ replicate 187 0

abbrev memory : List ℕ
memory = replicate 1584 0

idle_tx-IsTsTx : IsTsTx idle_tx
idle_tx-IsTsTx = record {
  memory = length-replicate {A = ℕ} 1504 0;
  room = omega arith;
  packet = omega arith;
  aligned = (0, refl);
}

ts_tx_push-IsTsTx_example :
    let (error, run) = ts_tx_push idle_tx zero_packet memory in
    (error ≡ none) × IsTsTx run.tx × (Held idle_tx run ⊎ Sent idle_tx run)
unfolding byte_at
ts_tx_push-IsTsTx_example =
    ts_tx_push-IsTsTx idle_tx zero_packet memory idle_tx-IsTsTx refl
      (omega (arith, length-replicate {A = ℕ} 1584 0))
