-- ===== src/Rtmp/Chunk/Turns.antt =====
-- module/rtmp/chunk.go: one round of `ReadMessage` on a chunk that the writer made, whatever the
-- other chunk streams of the reader hold.
use liveforge.Base.{
  ℕ, ◌-◌, ◌≤◌, ◌≡◌, refl, ap, ◌∙◌, subst, true, false, Option, none, some, List, [], ◌++◌, arith,
  min, length, le→ltb_false,
}
use liveforge.Base.Assoc.{number_key, lookup}
use liveforge.Bytes.{ok, ◌>>=◌, read_full, read_full-append}
use liveforge.Rtmp.{Message}
use liveforge.Rtmp.Chunk.{ChunkHeader, ChunkReader, end_of_input, empty_header, read_basic_header}
use liveforge.Rtmp.Chunk.Read.{
  buffer, known_header, after_chunk, read_payload, after_header, read_body, with_header, on_stream,
  read_chunk,
}
use liveforge.Rtmp.Chunk.Write.{basic_header, extension, full_header}
use liveforge.Rtmp.Chunk.Headers.{
  IsChunkStream, IsMessage, opened, read_basic_header-basic_header, read_full_header,
  read_continuation,
}

-- No message of the chunk stream is incomplete.
pub record IsIdle (csid : ℕ) (r : ChunkReader) : Type 0 where
  pub inactive : (h : ChunkHeader) → lookup csid r.headers ≡ some h → h.message_active ≡ false
  pub empty : buffer csid r ≡ []

-- The first bytes `got` of the payload of `msg` have come on the chunk stream.
pub record IsReceiving (csid : ℕ) (msg : Message) (got : List ℕ) (r : ChunkReader) : Type 0 where
  pub header : lookup csid r.headers ≡ some (opened msg)
  pub holds : buffer csid r ≡ got

pub read_full_exact :
    (n : ℕ) (bs rest : List ℕ)
    → length bs ≡ n
    → read_full end_of_input n (bs ++ rest) ≡ ok (bs, rest)
read_full_exact n bs rest e =
    subst (λ k. read_full end_of_input k (bs ++ rest) ≡ ok (bs, rest)) e
      (read_full-append end_of_input bs rest)

payload_lem :
    (csid : ℕ) (h : ChunkHeader) (got piece rest : List ℕ) (r : ChunkReader)
    → buffer csid r ≡ got
    → length got ≤ h.length
    → length piece ≡ min (h.length - length got) r.chunk_size
    → read_payload csid r h (piece ++ rest) ≡ ok (after_chunk csid h (got ++ piece) rest r)
unfolding read_payload
payload_lem csid h got piece rest r holds le size =
    rw (holds, le→ltb_false h.length (length got) le, read_full_exact _ piece rest size) refl

first_body :
    (csid : ℕ) (msg : Message) (h : ChunkHeader) (piece rest : List ℕ) (r : ChunkReader)
    → IsMessage msg
    → h.message_active ≡ false
    → buffer csid r ≡ []
    → length piece ≡ min msg.length r.chunk_size
    → read_body csid r 0 h h.message_active (full_header msg ++ (piece ++ rest))
      ≡ ok (after_chunk csid (opened msg) piece rest r)
first_body csid msg h piece rest r w idle empty size =
    ap (λ c. read_body csid r 0 h c (full_header msg ++ (piece ++ rest))) idle
    ∙ ap (λ x. x >>= after_header csid r false) (read_full_header h false msg (piece ++ rest) w)
    ∙ payload_lem csid (opened msg) [] piece rest r empty (omega arith) (omega (arith, size))

next_body :
    (csid : ℕ) (msg : Message) (got piece rest : List ℕ) (r : ChunkReader)
    → IsMessage msg
    → length got ≤ msg.length
    → buffer csid r ≡ got
    → length piece ≡ min (msg.length - length got) r.chunk_size
    → read_body csid r 3 (opened msg) true (extension msg.timestamp ++ (piece ++ rest))
      ≡ ok (after_chunk csid (opened msg) (got ++ piece) rest r)
next_body csid msg got piece rest r w le holds size =
    ap (λ x. x >>= after_header csid r true) (read_continuation msg (piece ++ rest) w)
    ∙ payload_lem csid (opened msg) got piece rest r holds le size

first_on_stream :
    (csid : ℕ) (msg : Message) (piece rest : List ℕ) (r : ChunkReader) (o : Option ChunkHeader)
    → lookup csid r.headers ≡ o
    → IsMessage msg
    → IsIdle csid r
    → length piece ≡ min msg.length r.chunk_size
    → (known_header 0 o >>= with_header csid r 0 (full_header msg ++ (piece ++ rest)))
      ≡ ok (after_chunk csid (opened msg) piece rest r)
first_on_stream csid msg piece rest r none e w idle size =
    first_body csid msg empty_header piece rest r w refl idle.empty size
first_on_stream csid msg piece rest r (some h) e w idle size =
    first_body csid msg h piece rest r w (idle.inactive h e) idle.empty size

-- The first chunk of a message on an idle chunk stream.
pub first_turn :
    (csid : ℕ) (msg : Message) (piece rest : List ℕ) (r : ChunkReader)
    → IsChunkStream csid
    → IsMessage msg
    → IsIdle csid r
    → length piece ≡ min msg.length r.chunk_size
    → r.source ≡ basic_header 0 csid ++ (full_header msg ++ (piece ++ rest))
    → read_chunk r ≡ ok (after_chunk csid (opened msg) piece rest r)
unfolding read_chunk
first_turn csid msg piece rest r c w idle size source =
    ap (λ s. read_basic_header s >>= on_stream r) source
    ∙ ap (λ x. x >>= on_stream r) (read_basic_header-basic_header 0 csid _ (omega arith) c)
    ∙ first_on_stream csid msg piece rest r _ refl w idle size

-- A later chunk of the message that the chunk stream is receiving.
pub next_turn :
    (csid : ℕ) (msg : Message) (got piece rest : List ℕ) (r : ChunkReader)
    → IsChunkStream csid
    → IsMessage msg
    → IsReceiving csid msg got r
    → length got ≤ msg.length
    → length piece ≡ min (msg.length - length got) r.chunk_size
    → r.source ≡ basic_header 3 csid ++ (extension msg.timestamp ++ (piece ++ rest))
    → read_chunk r ≡ ok (after_chunk csid (opened msg) (got ++ piece) rest r)
unfolding read_chunk
next_turn csid msg got piece rest r c w receiving le size source =
    ap (λ s. read_basic_header s >>= on_stream r) source
    ∙ ap (λ x. x >>= on_stream r) (read_basic_header-basic_header 3 csid _ (omega arith) c)
    ∙ ap
        (λ o.
          known_header 3 o >>= with_header csid r 3 (extension msg.timestamp ++ (piece ++ rest)))
        receiving.header
    ∙ next_body csid msg got piece rest r w le receiving.holds size
