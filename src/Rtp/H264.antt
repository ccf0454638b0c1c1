-- ===== src/Rtp/H264.antt =====
-- pkg/rtp/h264_depacketize.go: from the payload of an RTP packet to NAL units with their lengths. Bits
-- of a byte are read by division. The capacity of the buffer is not modelled.
pub mod Fragments
pub mod Reassembly
pub mod Aggregates
pub mod Frames
use liveforge.Base.{
  ℕ, zero, suc, ◌+◌, ◌-◌, ◌*◌, ◌/◌, ◌%◌, ◌^◌, Bool, true, false, not, ◌&&◌, ◌||◌, Option, none,
  some, List, [], ◌∷◌, ◌++◌, ltb, leb, ◌==◌, if◌then◌else◌, length, take, drop, get_or,
}
use liveforge.Bytes.{Result, ok, err, ◌>>=◌, refuse, is_shorter, be16, put32}
use liveforge.Rtp.{Packet}

-- `out_of_fuel` is no error of the code: a loop of the model was cut.
pub data Error : Type 0 where
  empty_payload forbidden_bit truncated invalid_header marked_without_end too_long : Error
  no_start discontinuous too_many_fragments invalid_length unsupported out_of_fuel : Error

abbrev pub max_nal_bytes : ℕ
max_nal_bytes = 16 * 1048576

abbrev pub max_fu_fragments : ℕ
max_fu_fragments = 16384

abbrev pub max_payload_bytes : ℕ
max_payload_bytes = max_nal_bytes + 4

abbrev pub max_parameter_bytes : ℕ
max_parameter_bytes = 65535

-- `H264Depacketizer`, where `none` is a nil slice
pub record H264Depacketizer : Type 0 where
  pub buf : Option (List ℕ)
  pub fu_sequence : ℕ
  pub fu_timestamp : ℕ
  pub fu_ssrc : ℕ
  pub fu_payload_type : ℕ
  pub fu_fragments : ℕ
  pub sps : List ℕ
  pub pps : List ℕ
  pub config_sent : Bool

-- `resetFU`
abbrev pub reset_fu : H264Depacketizer → H264Depacketizer
reset_fu d = record d {
  buf = none;
  fu_sequence = 0;
  fu_timestamp = 0;
  fu_ssrc = 0;
  fu_payload_type = 0;
  fu_fragments = 0;
}

-- `validateH264NAL`
unfoldable pub validate_nal : List ℕ → Result Error Unit
validate_nal nal = do
  let kind : ℕ = get_or nal 0 0 % 32
  _ ←
      refuse (is_shorter 1 nal || (leb 128 (get_or nal 0 0) || ((kind == 0) || leb 24 kind)))
        invalid_header
  _ ← refuse (ltb max_nal_bytes (length nal)) too_long
  refuse (((kind == 7) || (kind == 8)) && ltb max_parameter_bytes (length nal)) too_long

-- `h264NALToAVCC`
unfoldable pub nal_to_avcc : List ℕ → List ℕ
nal_to_avcc nal = put32 (length nal) ++ nal

-- the start of a fragmented NAL unit
abbrev pub start_fragment : H264Depacketizer → Packet → ℕ → List ℕ → Result Error H264Depacketizer
start_fragment d p nal_header fragment = do
  _ ← refuse (ltb (max_nal_bytes - 1) (length fragment)) too_long
  ok (record (reset_fu d) {
    buf = some (nal_header ∷ []);
    fu_timestamp = p.timestamp;
    fu_ssrc = p.ssrc;
    fu_payload_type = p.payload_type;
  })

-- The packet does not go on where the last one ended.
abbrev pub is_other : H264Depacketizer → Packet → ℕ → List ℕ → Bool
is_other d p nal_header buf =
    not (p.sequence_number == (d.fu_sequence + 1) % 65536)
    || (not (p.timestamp == d.fu_timestamp)
        || (not (p.ssrc == d.fu_ssrc)
            || (not (p.payload_type == d.fu_payload_type) || not (nal_header == get_or buf 0 0))))

-- the tests of a fragment that is not the first
abbrev pub continue_fragment :
    H264Depacketizer → Option (List ℕ) → Packet → ℕ → List ℕ → Result Error H264Depacketizer
continue_fragment d none p nal_header fragment = err no_start
continue_fragment d (some buf) p nal_header fragment = do
  _ ← refuse (is_other d p nal_header buf) discontinuous
  _ ← refuse (leb max_fu_fragments d.fu_fragments) too_many_fragments
  _ ← refuse (ltb max_nal_bytes (length buf + length fragment)) too_long
  ok d

abbrev pub bytes_of : Option (List ℕ) → List ℕ
bytes_of none = []
bytes_of (some buf) = buf

-- the state with the fragment appended
abbrev pub append_fragment : H264Depacketizer → Packet → List ℕ → H264Depacketizer
append_fragment d p fragment = record d {
  buf = some (bytes_of d.buf ++ fragment);
  fu_sequence = p.sequence_number;
  fu_fragments = d.fu_fragments + 1;
}

-- the NAL unit of the last fragment
abbrev pub complete_nal : H264Depacketizer → Result Error (Option (List ℕ) × H264Depacketizer)
complete_nal d = do
  _ ← validate_nal (bytes_of d.buf)
  ok (some (nal_to_avcc (bytes_of d.buf)), reset_fu d)

abbrev pub after_fragment :
    Bool → H264Depacketizer → Result Error (Option (List ℕ) × H264Depacketizer)
after_fragment true d = complete_nal d
after_fragment false d = ok (none, d)

abbrev pub add_fragment :
    Bool → H264Depacketizer → Packet → ℕ → List ℕ → Result Error H264Depacketizer
add_fragment true d p nal_header fragment = start_fragment d p nal_header fragment
add_fragment false d p nal_header fragment = continue_fragment d d.buf p nal_header fragment

-- `depacketizePayload` on a fragment (FU-A)
unfoldable pub depacketize_fu :
    H264Depacketizer → Packet → Result Error (Option (List ℕ) × H264Depacketizer)
depacketize_fu d p = do
  _ ← refuse (is_shorter 2 p.payload) truncated
  let fu : ℕ = get_or p.payload 1 0
  let is_start : Bool = leb 128 fu
  let is_end : Bool = leb 1 (fu / 64 % 2)
  let kind : ℕ = fu % 32
  _ ← refuse ((is_start && is_end) || ((kind == 0) || leb 24 kind)) invalid_header
  _ ← refuse (p.marker && not is_end) marked_without_end
  let nal_header : ℕ = get_or p.payload 0 0 / 32 % 4 * 32 + kind
  let fragment : List ℕ = drop 2 p.payload
  d1 ← add_fragment is_start d p nal_header fragment
  after_fragment is_end (append_fragment d1 p fragment)

-- The first loop of `parseH264STAPA`, on what is left of the payload: the size of the output.
unfoldable pub measure_stap : ℕ → List ℕ → ℕ → Result Error ℕ
measure_stap fuel [] size = ok size
measure_stap zero (b ∷ left) size = err out_of_fuel
measure_stap (suc fuel) (b ∷ left) size = do
  _ ← refuse (is_shorter 2 (b ∷ left)) truncated
  let nal_len : ℕ = be16 (b ∷ left) 0
  let rest : List ℕ = drop 2 (b ∷ left)
  _ ← refuse ((nal_len == 0) || ltb (length rest) nal_len) invalid_length
  _ ← validate_nal (take nal_len rest)
  _ ← refuse (ltb max_payload_bytes (size + (nal_len + 4))) too_long
  measure_stap fuel (drop nal_len rest) (size + (4 + nal_len))

-- its second loop: the output
unfoldable pub copy_stap : ℕ → List ℕ → List ℕ
copy_stap fuel [] = []
copy_stap zero (b ∷ left) = []
copy_stap (suc fuel) (b ∷ left) =
    let nal_len : ℕ = be16 (b ∷ left) 0 in
    let rest : List ℕ = drop 2 (b ∷ left) in
    put32 nal_len ++ (take nal_len rest ++ copy_stap fuel (drop nal_len rest))

-- `parseH264STAPA`. A round takes two bytes at least.
unfoldable pub parse_stap : List ℕ → Result Error (List ℕ)
parse_stap payload = do
  _ ← refuse (is_shorter 4 payload) truncated
  _ ← measure_stap (length payload) (drop 1 payload) 0
  ok (copy_stap (length payload) (drop 1 payload))

-- `depacketizePayload`, but for the reset after an error
unfoldable pub depacketize_checked :
    H264Depacketizer → Packet → Result Error (Option (List ℕ) × H264Depacketizer)
depacketize_checked d p = do
  _ ← refuse (is_shorter 1 p.payload) empty_payload
  _ ← refuse (leb 128 (get_or p.payload 0 0)) forbidden_bit
  let kind : ℕ = get_or p.payload 0 0 % 32
  if ltb 0 kind && ltb kind 24
      then validate_nal p.payload >>= (λ _. ok (some (nal_to_avcc p.payload), reset_fu d))
      else if kind == 24
      then parse_stap p.payload >>= (λ nals. ok (some nals, reset_fu d))
      else if kind == 28
      then depacketize_fu d p
      else err unsupported

abbrev pub or_reset :
    H264Depacketizer
    → Result Error (Option (List ℕ) × H264Depacketizer)
    → Result Error (Option (List ℕ)) × H264Depacketizer
or_reset d (ok (output, d1)) = (ok output, d1)
or_reset d (err e) = (err e, reset_fu d)

-- `depacketizePayload` on a packet that is not nil. Any error forgets the fragments.
unfoldable pub depacketize_payload :
    H264Depacketizer → Packet → Result Error (Option (List ℕ)) × H264Depacketizer
depacketize_payload d p = or_reset d (depacketize_checked d p)
