-- ===== src/Rtmp/Chunk/Headers.antt =====
-- module/rtmp/chunk.go: the readers of chunk.go take back the headers that the writer appends.
use liveforge.Base.{
  ℕ, zero, suc, ◌+◌, ◌-◌, ◌*◌, ◌/◌, ◌%◌, ◌^◌, ◌≤◌, ◌<◌, ◌≡◌, refl, Bool, true, false, List, [], ◌∷◌,
  ◌++◌, arith, leb, ◌==◌, length, Bool-cases, inl, inr, leb_false→lt, dec_le,
}
use liveforge.Bytes.{ok, be24, put24, put32, be24-put24, be32-put32, le32-put32_le}
use liveforge.Rtmp.{Message}
use liveforge.Rtmp.Chunk.{ChunkHeader, wide_id, read_basic_header, read_message_header}
use liveforge.Rtmp.Chunk.Write.{basic_header, extension, timestamp_field, full_header}

-- the chunk streams that a basic header can name
abbrev pub IsChunkStream : ℕ → Type 0
IsChunkStream csid = (2 ≤ csid) × (csid < 65600)

-- a message whose fields are in the ranges of their Go types and of the header
pub record IsMessage (msg : Message) : Type 0 where
  pub length_lt : msg.length < 2 ^ 24
  pub timestamp_lt : msg.timestamp < 2 ^ 32
  pub stream_id_lt : msg.stream_id < 2 ^ 32
  pub whole : length msg.payload ≡ msg.length

wide_id_ge : (n : ℕ) (source : List ℕ) → 2 ≤ n → wide_id n source ≡ ok (n, source)
wide_id_ge zero source h = elim h [ ]
wide_id_ge (suc zero) source h = absurd (omega arith)
wide_id_ge (suc (suc n)) source h = refl

narrow :
    (format csid : ℕ) → 2 ≤ csid → csid ≤ 63 → basic_header format csid ≡ (format * 64 + csid) ∷ []
unfolding basic_header
narrow format csid lo hi = ground arith

middle :
    (format csid : ℕ)
    → 64 ≤ csid
    → csid ≤ 319
    → basic_header format csid ≡ format * 64 ∷ (csid - 64) ∷ []
unfolding basic_header
middle format csid lo hi = ground arith

wide :
    (format csid : ℕ)
    → 320 ≤ csid
    → csid < 65600
    → basic_header format csid ≡ (format * 64 + 1) ∷ (csid - 64) % 256 ∷ (csid - 64) / 256 ∷ []
unfolding basic_header
wide format csid lo hi =
    let id : (csid + 2 ^ 32 - 64) % 2 ^ 32 ≡ csid - 64 = omega arith in
    let high : (csid - 64) / 256 % 256 ≡ (csid - 64) / 256 = omega arith in ground (arith, id, high)

read_narrow :
    (format csid : ℕ) (rest : List ℕ)
    → format < 4
    → 2 ≤ csid
    → csid ≤ 63
    → read_basic_header ((format * 64 + csid) ∷ rest) ≡ ok ((csid, format), rest)
unfolding read_basic_header
read_narrow format csid rest hf lo hi =
    let low : (format * 64 + csid) % 64 ≡ csid = omega arith in
    let high : (format * 64 + csid) / 64 % 4 ≡ format = omega arith in
    rw (low, high, wide_id_ge csid rest lo) refl

read_middle :
    (format csid : ℕ) (rest : List ℕ)
    → format < 4
    → 64 ≤ csid
    → read_basic_header (format * 64 ∷ (csid - 64) ∷ rest) ≡ ok ((csid, format), rest)
unfolding read_basic_header
read_middle format csid rest hf lo =
    let low : format * 64 % 64 ≡ 0 = omega arith in
    let high : format * 64 / 64 % 4 ≡ format = omega arith in
    let back : csid - 64 + 64 ≡ csid = omega arith in rw (low, high, back) refl

read_wide :
    (format csid : ℕ) (rest : List ℕ)
    → format < 4
    → 64 ≤ csid
    → read_basic_header ((format * 64 + 1) ∷ (csid - 64) % 256 ∷ (csid - 64) / 256 ∷ rest)
      ≡ ok ((csid, format), rest)
unfolding read_basic_header
read_wide format csid rest hf lo =
    let low : (format * 64 + 1) % 64 ≡ 1 = omega arith in
    let high : (format * 64 + 1) / 64 % 4 ≡ format = omega arith in
    let back : (csid - 64) / 256 * 256 + (csid - 64) % 256 + 64 ≡ csid = omega arith in
    rw (low, high, back) refl

-- The reader takes back the chunk stream and the format of a basic header of any of its three forms.
pub read_basic_header-basic_header :
    (format csid : ℕ) (rest : List ℕ)
    → format < 4
    → IsChunkStream csid
    → read_basic_header (basic_header format csid ++ rest) ≡ ok ((csid, format), rest)
read_basic_header-basic_header format csid rest hf (lo, hi) = elim (dec_le csid 63) [
  | yes a ↦ rw (narrow format csid lo a) (read_narrow format csid rest hf lo a)
  | no a ↦ elim (dec_le csid 319) [
    | yes b ↦
        rw (middle format csid (omega arith) b) (read_middle format csid rest hf (omega arith))
    | no b ↦ rw (wide format csid (omega arith) hi) (read_wide format csid rest hf (omega arith))
  ]
]

-- the header that the reader has of a chunk stream while a message of it is incomplete
abbrev pub opened : Message → ChunkHeader
opened msg = record {
  timestamp = msg.timestamp;
  timestamp_delta = 0;
  length = msg.length;
  type_id = msg.type_id;
  stream_id = msg.stream_id;
  has_extended_timestamp = leb 0xffffff msg.timestamp;
  timestamp_delta_is_relative = false;
  initialized = true;
  message_active = true;
}

abbrev pub read_of : Message → Bool → ChunkHeader
read_of msg active = record (opened msg) { message_active = active }

small : (ts : ℕ) → leb 0xffffff ts ≡ false → (timestamp_field ts ≡ put24 ts) × (extension ts ≡ [])
unfolding timestamp_field extension
small ts e = rw e (refl, refl)

large :
    (ts : ℕ)
    → leb 0xffffff ts ≡ true
    → (timestamp_field ts ≡ 0xff ∷ 0xff ∷ 0xff ∷ []) × (extension ts ≡ put32 ts)
unfolding timestamp_field extension
large ts e = rw e (refl, refl)

timestamp_field_lem :
    (ts : ℕ) → leb 0xffffff ts ≡ false → (be24 (put24 ts) 0 ≡ ts) × ((ts == 0xffffff) ≡ false)
timestamp_field_lem ts e =
    let lt : ts < 0xffffff = leb_false→lt 0xffffff ts e in
    (be24-put24 ts (omega arith), ground arith)

pub read_full_header :
    (h : ChunkHeader) (active : Bool) (msg : Message) (rest : List ℕ)
    → IsMessage msg
    → read_message_header 0 h active (full_header msg ++ rest)
      ≡ ok (read_of msg h.message_active, rest)
unfolding read_message_header full_header
read_full_header h active msg rest w = elim (Bool-cases (leb 0xffffff msg.timestamp)) [
  | inl e ↦
      let (field, ext) = large msg.timestamp e in
      rw
        (
          field,
          ext,
          e,
          be24-put24 msg.length w.length_lt,
          be32-put32 msg.timestamp w.timestamp_lt,
          le32-put32_le msg.stream_id w.stream_id_lt,
        )
        refl
  | inr e ↦
      let (field, ext) = small msg.timestamp e in
      let (value, other) = timestamp_field_lem msg.timestamp e in
      rw
        (
          field,
          ext,
          e,
          value,
          other,
          be24-put24 msg.length w.length_lt,
          le32-put32_le msg.stream_id w.stream_id_lt,
        )
        refl
]

pub read_continuation :
    (msg : Message) (rest : List ℕ)
    → IsMessage msg
    → read_message_header 3 (opened msg) true (extension msg.timestamp ++ rest)
      ≡ ok (opened msg, rest)
unfolding read_message_header
read_continuation msg rest w = elim (Bool-cases (leb 0xffffff msg.timestamp)) [
  | inl e ↦ rw ((large msg.timestamp e).1, e) refl
  | inr e ↦ rw ((small msg.timestamp e).1, e) refl
]
