-- ===== src/Rtmp/Chunk.antt =====
-- module/rtmp/chunk.go: the reader and the writer of chunks. The bytes that the connection still gives
-- are the reader's `source`; the end of the connection, and every failure to read, is `end_of_input`.
-- The handler ends the connection when a read fails, so a reader is not used after an error and an
-- error does not carry one.
pub mod Read
pub mod Headers
pub mod Turns
pub mod Effects
pub mod RoundTrip
pub mod Valid
pub mod Safety
pub mod Write
use liveforge.Base.{
  ℕ, zero, suc, ◌+◌, ◌-◌, ◌*◌, ◌/◌, ◌%◌, ◌^◌, min, Bool, true, false, not, ◌&&◌, Option, none, some,
  List, [], ◌∷◌, ◌++◌, ltb, leb, ◌==◌, if◌then◌else◌, length, take, drop, get_or,
}
use liveforge.Base.Assoc.{number_key, lookup, insert}
use liveforge.Bytes.{
  Result, ok, err, ◌>>=◌, refuse, read_full, be24, be32, le32, put24, put32, put32_le,
}
use liveforge.Rtmp.{Message}

pub data Error : Type 0 where
  end_of_input compressed_without_previous message_incomplete exceeds_length not_initialized : Error

-- `chunkHeader`
pub record ChunkHeader : Type 0 where
  pub timestamp : ℕ
  pub timestamp_delta : ℕ
  pub length : ℕ
  pub type_id : ℕ
  pub stream_id : ℕ
  pub has_extended_timestamp : Bool
  pub timestamp_delta_is_relative : Bool
  pub initialized : Bool
  pub message_active : Bool

abbrev pub empty_header : ChunkHeader
empty_header = record {
  timestamp = 0;
  timestamp_delta = 0;
  length = 0;
  type_id = 0;
  stream_id = 0;
  has_extended_timestamp = false;
  timestamp_delta_is_relative = false;
  initialized = false;
  message_active = false;
}

-- `ChunkReader`. A buffer that is missing is nil.
pub record ChunkReader : Type 0 where
  pub source : List ℕ
  pub chunk_size : ℕ
  pub headers : List (ℕ × ChunkHeader)
  pub buffers : List (ℕ × List ℕ)

-- `NewChunkReader`
abbrev pub new_chunk_reader : List ℕ → ℕ → ChunkReader
new_chunk_reader source chunk_size = record {
  source = source;
  chunk_size = chunk_size;
  headers = [];
  buffers = [];
}

-- `ChunkReader.SetChunkSize`
abbrev pub set_chunk_size : ℕ → ChunkReader → ChunkReader
set_chunk_size size r = record r { chunk_size = size }

abbrev pub Reads : Type 0 → Type 0
Reads A = Result Error (A × List ℕ)

abbrev pub bytes : ℕ → List ℕ → Reads (List ℕ)
bytes n source = read_full end_of_input n source

-- `readBasicHeader`, after its first byte
abbrev pub wide_id : ℕ → List ℕ → Reads ℕ
wide_id zero source = bytes 1 source >>= (λ (b, rest). ok (get_or b 0 0 + 64, rest))
wide_id (suc zero) source =
    bytes 2 source >>= (λ (b, rest). ok (get_or b 1 0 * 256 + get_or b 0 0 + 64, rest))
wide_id (suc (suc n)) source = ok (suc (suc n), source)

-- `readBasicHeader`: the chunk stream and the format
unfoldable pub read_basic_header : List ℕ → Reads (ℕ × ℕ)
read_basic_header source = do
  (b, s1) ← bytes 1 source
  (csid, s2) ← wide_id (get_or b 0 0 % 64) s1
  ok ((csid, get_or b 0 0 / 64 % 4), s2)

-- the extended timestamp, which is read when there is one
abbrev pub extended : Bool → ℕ → List ℕ → Reads ℕ
extended false value source = ok (value, source)
extended true value source = bytes 4 source >>= (λ (b, rest). ok (be32 b 0, rest))

-- formats 1 and 2 after their fields
abbrev pub with_delta : ChunkHeader → ℕ → List ℕ → Reads ChunkHeader
with_delta h field source = do
  (delta, rest) ← extended (field == 0xffffff) field source
  ok (
    record h {
      has_extended_timestamp = field == 0xffffff;
      timestamp_delta = delta;
      timestamp_delta_is_relative = true;
      timestamp = (h.timestamp + delta) % 2 ^ 32;
      initialized = true;
    },
    rest,
  )

-- the delta that a chunk of format 3 uses
abbrev pub continued_delta : Bool → ChunkHeader → ℕ → ℕ
continued_delta continuation h value =
    if not continuation && h.timestamp_delta_is_relative then value else h.timestamp_delta

abbrev pub header_0 : ChunkHeader → List ℕ → Reads ChunkHeader
header_0 h source = do
  (b, s1) ← bytes 11 source
  (timestamp, s2) ← extended (be24 b 0 == 0xffffff) (be24 b 0) s1
  ok (
    record h {
      length = be24 b 3;
      type_id = get_or b 6 0;
      stream_id = le32 b 7;
      has_extended_timestamp = be24 b 0 == 0xffffff;
      timestamp = timestamp;
      timestamp_delta = 0;
      timestamp_delta_is_relative = false;
      initialized = true;
    },
    s2,
  )

abbrev pub header_1 : ChunkHeader → List ℕ → Reads ChunkHeader
header_1 h source = do
  (b, s1) ← bytes 7 source
  with_delta (record h { length = be24 b 3; type_id = get_or b 6 0 }) (be24 b 0) s1

abbrev pub header_2 : ChunkHeader → List ℕ → Reads ChunkHeader
header_2 h source = bytes 3 source >>= (λ (b, s1). with_delta h (be24 b 0) s1)

abbrev pub header_3 : ChunkHeader → Bool → List ℕ → Reads ChunkHeader
header_3 h continuation source = do
  _ ← refuse (not h.initialized) not_initialized
  (value, rest) ← extended h.has_extended_timestamp 0 source
  let delta : ℕ =
      if h.has_extended_timestamp then continued_delta continuation h value else h.timestamp_delta
  ok (if continuation then h else record h { timestamp = (h.timestamp + delta) % 2 ^ 32 }, rest)

-- `readMessageHeader`. The format is below 4.
unfoldable pub read_message_header : ℕ → ChunkHeader → Bool → List ℕ → Reads ChunkHeader
read_message_header zero h continuation source = header_0 h source
read_message_header (suc zero) h continuation source = header_1 h source
read_message_header (suc (suc zero)) h continuation source = header_2 h source
read_message_header (suc (suc (suc n))) h continuation source = header_3 h continuation source
