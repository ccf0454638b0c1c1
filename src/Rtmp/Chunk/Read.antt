-- ===== src/Rtmp/Chunk/Read.antt =====
-- module/rtmp/chunk.go: `ReadMessage`, one chunk at a time.
use liveforge.Base.{
  ℕ, zero, suc, ◌-◌, min, Bool, true, false, not, ◌&&◌, Option, none, some, List, [], ◌++◌, ltb,
  leb, ◌==◌, if◌then◌else◌, length, take,
}
use liveforge.Base.Assoc.{number_key, lookup, insert}
use liveforge.Bytes.{Result, ok, err, ◌>>=◌, refuse}
use liveforge.Rtmp.{Message}
use liveforge.Rtmp.Chunk.{
  Error, compressed_without_previous, message_incomplete, exceeds_length, ChunkHeader, empty_header,
  ChunkReader, bytes, read_basic_header, read_message_header,
}

-- `cr.buffers[csid]`
abbrev pub buffered : Option (List ℕ) → List ℕ
buffered none = []
buffered (some b) = b

unfoldable pub buffer : ℕ → ChunkReader → List ℕ
buffer csid r = buffered (lookup csid r.buffers)

-- the header of the chunk stream, which only a chunk of format 0 may create
abbrev pub known_header : ℕ → Option ChunkHeader → Result Error ChunkHeader
known_header format none = if format == 0 then ok empty_header else err compressed_without_previous
known_header format (some h) = ok h

abbrev pub activate : Bool → ChunkHeader → ChunkHeader
activate true h = h
activate false h = record h { message_active = true }

-- `io.ReadFull` into what is left of the message or one chunk of it, whichever is less
abbrev pub to_read : ChunkHeader → List ℕ → ℕ → ℕ
to_read h got chunk_size = min (h.length - length got) chunk_size

abbrev pub message_of : ChunkHeader → List ℕ → Message
message_of h got = record {
  type_id = h.type_id;
  length = h.length;
  timestamp = h.timestamp;
  stream_id = h.stream_id;
  payload = take h.length got;
}

-- the reader after a chunk, with the message that the chunk completes
abbrev pub after_chunk :
    ℕ → ChunkHeader → List ℕ → List ℕ → ChunkReader → Option Message × ChunkReader
after_chunk csid h got rest r =
    if leb h.length (length got)
    then (
      some (message_of h got),
      record r {
        source = rest;
        headers = insert csid (record h { message_active = false }) r.headers;
        buffers = insert csid [] r.buffers;
      },
    )
    else (
      none,
      record r {
        source = rest;
        headers = insert csid h r.headers;
        buffers = insert csid got r.buffers;
      },
    )

-- `ReadMessage` from the data of a chunk on
unfoldable pub read_payload :
    ℕ → ChunkReader → ChunkHeader → List ℕ → Result Error (Option Message × ChunkReader)
read_payload csid r h source = do
  let got : List ℕ = buffer csid r
  _ ← refuse (ltb h.length (length got)) exceeds_length
  (piece, rest) ← bytes (to_read h got r.chunk_size) source
  ok (after_chunk csid h (got ++ piece) rest r)

abbrev pub after_header :
    ℕ → ChunkReader → Bool → ChunkHeader × List ℕ → Result Error (Option Message × ChunkReader)
after_header csid r continuation (h, source) = read_payload csid r (activate continuation h) source

-- `ReadMessage` from the message header on
abbrev pub read_body :
    ℕ → ChunkReader → ℕ → ChunkHeader → Bool → List ℕ → Result Error (Option Message × ChunkReader)
read_body csid r format h continuation source = do
  _ ← refuse (continuation && not (format == 3)) message_incomplete
  read_message_header format h continuation source >>= after_header csid r continuation

abbrev pub with_header :
    ℕ → ChunkReader → ℕ → List ℕ → ChunkHeader → Result Error (Option Message × ChunkReader)
with_header csid r format source h = read_body csid r format h h.message_active source

abbrev pub on_stream : ChunkReader → (ℕ × ℕ) × List ℕ → Result Error (Option Message × ChunkReader)
on_stream r ((csid, format), source) =
    known_header format (lookup csid r.headers) >>= with_header csid r format source

-- one round of the loop of `ReadMessage`
unfoldable pub read_chunk : ChunkReader → Result Error (Option Message × ChunkReader)
read_chunk r = read_basic_header r.source >>= on_stream r

-- What `ReadMessage` does. `out_of_fuel` is no outcome of the code: the loop of the model was cut.
pub data Outcome : Type 0 where
  received : Message → ChunkReader → Outcome
  failed : Error → Outcome
  out_of_fuel : Outcome

abbrev pub or_again :
    (ChunkReader → Outcome) → Result Error (Option Message × ChunkReader) → Outcome
or_again again (err e) = failed e
or_again again (ok (some m, r)) = received m r
or_again again (ok (none, r)) = again r

unfoldable pub read_message_loop : ℕ → ChunkReader → Outcome
read_message_loop zero r = out_of_fuel
read_message_loop (suc fuel) r = or_again (read_message_loop fuel) (read_chunk r)

-- `ChunkReader.ReadMessage`. A round takes a byte at least, or fails.
unfoldable pub read_message : ChunkReader → Outcome
read_message r = read_message_loop (suc (length r.source)) r
