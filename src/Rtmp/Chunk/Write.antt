-- ===== src/Rtmp/Chunk/Write.antt =====
-- module/rtmp/chunk.go: `WriteMessage` with `appendBasicHeader`. The loop is over what is left of the
-- payload (`payload[offset:]`), and its fuel is the length of the payload: each round takes a byte at
-- least when the chunk size is not 0. The estimate of the size only allocates the buffer.
use liveforge.Base.{
  ℕ, zero, suc, ◌+◌, ◌-◌, ◌*◌, ◌/◌, ◌%◌, ◌^◌, ◌&&◌, List, [], ◌∷◌, ◌++◌, leb, if◌then◌else◌, length,
  take, drop,
}
use liveforge.Bytes.{put24, put32, put32_le}
use liveforge.Rtmp.{Message}

-- `appendBasicHeader`
unfoldable pub basic_header : ℕ → ℕ → List ℕ
basic_header format csid =
    if leb 2 csid && leb csid 63
    then (format * 64 + csid) ∷ []
    else if leb 64 csid && leb csid 319
    then format * 64 ∷ (csid - 64) ∷ []
    else let id : ℕ = (csid + 2 ^ 32 - 64) % 2 ^ 32 in
      (format * 64 + 1) ∷ id % 256 ∷ id / 256 % 256 ∷ []

-- the extended timestamp, which stands in every chunk of a message that has one
unfoldable pub extension : ℕ → List ℕ
extension ts = if leb 0xffffff ts then put32 ts else []

unfoldable pub timestamp_field : ℕ → List ℕ
timestamp_field ts = if leb 0xffffff ts then 0xff ∷ 0xff ∷ 0xff ∷ [] else put24 ts

-- the header of the first chunk
unfoldable pub full_header : Message → List ℕ
full_header msg =
    timestamp_field msg.timestamp
    ++ (put24 msg.length ++ (msg.type_id ∷ (put32_le msg.stream_id ++ extension msg.timestamp)))

-- the loop over the chunks that follow the first
unfoldable pub continuation_chunks : ℕ → ℕ → ℕ → ℕ → List ℕ → List ℕ
continuation_chunks zero csid ts chunk_size left = []
continuation_chunks (suc fuel) csid ts chunk_size [] = []
continuation_chunks (suc fuel) csid ts chunk_size (b ∷ left) =
    basic_header 3 csid
    ++ (extension ts
        ++ (take chunk_size (b ∷ left)
            ++ continuation_chunks fuel csid ts chunk_size (drop chunk_size (b ∷ left))))

-- `ChunkWriter.WriteMessage`: the bytes that it writes
unfoldable pub write_message : ℕ → ℕ → Message → List ℕ
write_message chunk_size csid msg =
    basic_header 0 csid
    ++ (full_header msg
        ++ (take chunk_size msg.payload
            ++ continuation_chunks (length msg.payload) csid msg.timestamp chunk_size
                (drop chunk_size msg.payload)))
