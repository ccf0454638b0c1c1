-- ===== src/Rtmp/Handler.antt =====
-- module/rtmp/handler.go: the loop of `Handle` over the messages of a connection. What the handlers of
-- commands and media do is not modelled: whether they fail is an argument, `refuses`, of the messages
-- before and of the message.
use liveforge.Base.{ℕ, zero, suc, Bool, List, [], ◌∷◌, ◌++◌, ltb, ◌==◌, if◌then◌else◌, length}
use liveforge.Bytes.{be32}
use liveforge.Rtmp.{Message}
use liveforge.Rtmp.Chunk.{Error, ChunkReader, set_chunk_size}
use liveforge.Rtmp.Chunk.Read.{Outcome, received, failed, out_of_fuel, read_message}

-- `MsgSetChunkSize`
abbrev pub msg_set_chunk_size : ℕ
msg_set_chunk_size = 1

-- How the loop ends. `cut` is no end of the code: the loop of the model was cut.
pub data Ending : Type 0 where
  read_failed : Error → Ending
  invalid_set_chunk_size handler_failed cut : Ending

-- the chunk size after a message
abbrev pub next_size : Message → ℕ → ℕ
next_size msg n = if msg.type_id == msg_set_chunk_size then be32 msg.payload 0 else n

abbrev pub resized : Message → ChunkReader → ChunkReader
resized msg r = set_chunk_size (next_size msg r.chunk_size) r

-- what `handleMessage` returns
pub data Verdict : Type 0 where
  accepted invalid_size rejected : Verdict

module _ (refuses : List Message → Message → Bool) where
  -- `handleMessage`
  unfoldable pub handle_message : List Message → Message → Verdict
  handle_message before msg =
      if msg.type_id == msg_set_chunk_size
      then if ltb (length msg.payload) 4 then invalid_size else accepted
      else if refuses before msg
      then rejected
      else accepted

  abbrev pub after_message :
      (List Message → ChunkReader → List Message × Ending)
      → List Message
      → Message
      → ChunkReader
      → Verdict
      → List Message × Ending
  after_message again before msg r invalid_size = (before ++ (msg ∷ []), invalid_set_chunk_size)
  after_message again before msg r rejected = (before ++ (msg ∷ []), handler_failed)
  after_message again before msg r accepted = again (before ++ (msg ∷ [])) (resized msg r)

  abbrev pub on_outcome :
      (List Message → ChunkReader → List Message × Ending)
      → List Message
      → Outcome
      → List Message × Ending
  on_outcome again before (failed e) = (before, read_failed e)
  on_outcome again before out_of_fuel = (before, cut)
  on_outcome again before (received msg r) =
      after_message again before msg r (handle_message before msg)

  unfoldable pub handle_loop : ℕ → List Message → ChunkReader → List Message × Ending
  handle_loop zero before r = (before, cut)
  handle_loop (suc fuel) before r = on_outcome (handle_loop fuel) before (read_message r)

  -- `Handle`: the messages that it handles, and how it ends. A message takes a byte at least.
  unfoldable pub handle : ChunkReader → List Message × Ending
  handle r = handle_loop (suc (length r.source)) [] r
