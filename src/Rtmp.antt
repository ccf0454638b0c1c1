-- ===== src/Rtmp.antt =====
-- module/rtmp: the messages of the protocol (message.go). Rtmp/Chunk is chunk.go, which carries them
-- in chunks, and Rtmp/Amf0 is amf0.go, the values of the commands.
pub mod Chunk
pub mod Handler
pub mod Amf0
pub mod Traffic
mod Tests
use liveforge.Base.{ℕ, List}

-- `Message`
pub record Message : Type 0 where
  pub type_id : ℕ
  pub length : ℕ
  pub timestamp : ℕ
  pub stream_id : ℕ
  pub payload : List ℕ
