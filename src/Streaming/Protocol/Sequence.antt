-- ===== src/Streaming/Protocol/Sequence.antt =====
-- streaming/include/dvbs2x_protocol.h: the comparison of sequence numbers.
use open_vlsnr.Prelude.{ℕ, ◌+◌, ◌%◌, ◌^◌, ◌≤◌, ◌<◌, ◌≡◌, ◌↔◌, ◌≢◌, arith, true}
use open_vlsnr.Streaming.Protocol.{seq_compare, seq_after, seq_before}

-- A number that is d steps ahead, the wrap included, is after the other exactly when d is from 1 to
-- 2^31 - 1, and before it exactly when d is from 2^31 on.
pub seq_after_ahead :
    (a d : ℕ)
    → a < 2 ^ 32
    → d < 2 ^ 32
    → ((seq_after ((a + d) % 2 ^ 32) a ≡ true) ↔ ((1 ≤ d) × (d < 2 ^ 31)))
      × ((seq_before ((a + d) % 2 ^ 32) a ≡ true) ↔ (2 ^ 31 ≤ d))
unfolding seq_after seq_before seq_compare
seq_after_ahead a d ha hd = ground arith

-- Of two numbers that are neither equal nor 2^31 apart, the one is after the other exactly when
-- the other is before it.
pub seq_after-seq_before :
    (a b : ℕ)
    → a < 2 ^ 32
    → b < 2 ^ 32
    → a + 2 ^ 31 ≢ b
    → b + 2 ^ 31 ≢ a
    → (seq_after a b ≡ true) ↔ (seq_before b a ≡ true)
unfolding seq_after seq_before seq_compare
seq_after-seq_before a b ha hb p q = ground arith
