-- ===== src/Rtp.antt =====
-- pkg/rtp: what the code reads of a packet of the RTP library (pion/rtp), which is not modelled.
-- Rtp/H264 is h264_depacketize.go.
pub mod H264
mod Tests
use liveforge.Base.{ℕ, Bool, List}

-- `pionrtp.Packet`: the header is read before, and its numbers are below their bounds.
pub record Packet : Type 0 where
  pub sequence_number : ℕ
  pub timestamp : ℕ
  pub ssrc : ℕ
  pub payload_type : ℕ
  pub marker : Bool
  pub payload : List ℕ
