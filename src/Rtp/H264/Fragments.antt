-- ===== src/Rtp/H264/Fragments.antt =====
-- pkg/rtp/h264_depacketize.go: a NAL unit that a sender has split into fragments (RFC 6184, FU-A) and
-- sent in consecutive packets is put together again.
use liveforge.Base.{
  ℕ, suc, ◌+◌, ◌-◌, ◌*◌, ◌/◌, ◌%◌, ◌≤◌, ◌<◌, ◌≡◌, refl, Bool, true, false, ◌&&◌, none, some, List,
  ◌∷◌, ◌++◌, arith, ltb, leb, ◌==◌, if◌then◌else◌, length, get_or, le→ltb_false, lt→leb_false,
}
use liveforge.Bytes.{ok}
use liveforge.Rtp.{Packet}
use liveforge.Rtp.H264.{
  max_nal_bytes, max_fu_fragments, H264Depacketizer, reset_fu, validate_nal, nal_to_avcc,
  continue_fragment, depacketize_fu, depacketize_checked,
}

-- the header byte of a NAL unit that may be fragmented
abbrev pub IsNalHeader : ℕ → Type 0
IsNalHeader h = (h < 128) × (0 < h % 32) × (h % 32 < 24)

-- the identity of the stream of packets
pub record Track : Type 0 where
  pub timestamp : ℕ
  pub ssrc : ℕ
  pub payload_type : ℕ

-- a fragment, with its number in the sequence and the bits for the first and the last
abbrev pub fu_packet : Track → ℕ → ℕ → Bool → Bool → Bool → List ℕ → Packet
fu_packet t seq h first last marker piece = record {
  sequence_number = seq % 65536;
  timestamp = t.timestamp;
  ssrc = t.ssrc;
  payload_type = t.payload_type;
  marker = marker;
  payload =
      (h / 32 * 32 + 28)
      ∷ (((if first then 128 else 0) + (if last then 64 else 0) + h % 32) ∷ piece);
}

-- the state while the fragments up to number `seq` have come, `n` in all
abbrev pub receiving : H264Depacketizer → Track → ℕ → ℕ → List ℕ → H264Depacketizer
receiving d t seq n buf = record d {
  buf = some buf;
  fu_sequence = seq % 65536;
  fu_timestamp = t.timestamp;
  fu_ssrc = t.ssrc;
  fu_payload_type = t.payload_type;
  fu_fragments = n;
}

pub fu_checked :
    (d : H264Depacketizer) (p : Packet) (h fu : ℕ) (piece : List ℕ)
    → IsNalHeader h
    → p.payload ≡ (h / 32 * 32 + 28) ∷ (fu ∷ piece)
    → depacketize_checked d p ≡ depacketize_fu d p
unfolding depacketize_checked
fu_checked d p h fu piece (lt, _, _) e =
    let high : leb 128 (h / 32 * 32 + 28) ≡ false = ground (arith, lt) in
    let kind : (h / 32 * 32 + 28) % 32 ≡ 28 = omega arith in rw (e, high, kind) refl

marker_ends : (marker : Bool) → (marker && false) ≡ false
marker_ends true = refl
marker_ends false = refl

module _ (d : H264Depacketizer) (t : Track) (h : ℕ) (valid : IsNalHeader h) where
  header_back : (h / 32 * 32 + 28) / 32 % 4 * 32 + h % 32 ≡ h
  header_back = omega (arith, valid)

  pub first_step :
      (seq : ℕ) (piece : List ℕ)
      → length piece < max_nal_bytes
      → depacketize_fu d (fu_packet t seq h true false false piece)
        ≡ ok (none, receiving d t seq 1 (h ∷ piece))
  unfolding depacketize_fu
  first_step seq piece small =
      let starts : leb 128 (128 + 0 + h % 32) ≡ true = ground arith in
      let ends : leb 1 ((128 + 0 + h % 32) / 64 % 2) ≡ false = ground arith in
      let kind : (128 + 0 + h % 32) % 32 ≡ h % 32 = omega arith in
      let k0 : (h % 32 == 0) ≡ false = ground (arith, valid) in
      let k24 : leb 24 (h % 32) ≡ false = lt→leb_false 24 (h % 32) valid.2 in
      let fits : ltb (max_nal_bytes - 1) (length piece) ≡ false =
        le→ltb_false _ _ (omega (arith, small)) in
      rw (starts, ends, kind, k0, k24, header_back, fits) refl

  -- the tests on a fragment that goes on
  goes_on :
      (seq n : ℕ) (buf piece : List ℕ) (last marker : Bool)
      → get_or buf 0 0 ≡ h
      → n < max_fu_fragments
      → length buf + length piece ≤ max_nal_bytes
      → continue_fragment
          (receiving d t seq n buf)
          (some buf)
          (fu_packet t (suc seq) h false last marker piece)
          h
          piece
        ≡ ok (receiving d t seq n buf)
  goes_on seq n buf piece last marker head few fits =
      let next : (suc seq % 65536 == (seq % 65536 + 1) % 65536) ≡ true = ground arith in
      let ts : (t.timestamp == t.timestamp) ≡ true = ground arith in
      let ss : (t.ssrc == t.ssrc) ≡ true = ground arith in
      let pt : (t.payload_type == t.payload_type) ≡ true = ground arith in
      let hh : (h == h) ≡ true = ground arith in
      rw (next, ts, ss, pt, head, hh, lt→leb_false max_fu_fragments n few, le→ltb_false _ _ fits)
        refl

  pub middle_step :
      (seq n : ℕ) (buf piece : List ℕ)
      → get_or buf 0 0 ≡ h
      → n < max_fu_fragments
      → length buf + length piece ≤ max_nal_bytes
      → depacketize_fu (receiving d t seq n buf) (fu_packet t (suc seq) h false false false piece)
        ≡ ok (none, receiving d t (suc seq) (n + 1) (buf ++ piece))
  unfolding depacketize_fu
  middle_step seq n buf piece head few fits =
      let starts : leb 128 (0 + 0 + h % 32) ≡ false = ground arith in
      let ends : leb 1 ((0 + 0 + h % 32) / 64 % 2) ≡ false = ground arith in
      let kind : (0 + 0 + h % 32) % 32 ≡ h % 32 = omega arith in
      let k0 : (h % 32 == 0) ≡ false = ground (arith, valid) in
      let k24 : leb 24 (h % 32) ≡ false = lt→leb_false 24 (h % 32) valid.2 in
      rw
        (
          starts,
          ends,
          kind,
          k0,
          k24,
          header_back,
          goes_on seq n buf piece false false head few fits,
        )
        refl

  pub last_step :
      (seq n : ℕ) (buf piece : List ℕ) (marker : Bool)
      → get_or buf 0 0 ≡ h
      → n < max_fu_fragments
      → length buf + length piece ≤ max_nal_bytes
      → validate_nal (buf ++ piece) ≡ ok tt
      → depacketize_fu (receiving d t seq n buf) (fu_packet t (suc seq) h false true marker piece)
        ≡ ok (some (nal_to_avcc (buf ++ piece)), reset_fu d)
  unfolding depacketize_fu
  last_step seq n buf piece marker head few fits good =
      let starts : leb 128 (0 + 64 + h % 32) ≡ false = ground arith in
      let ends : leb 1 ((0 + 64 + h % 32) / 64 % 2) ≡ true = ground arith in
      let kind : (0 + 64 + h % 32) % 32 ≡ h % 32 = omega arith in
      let k0 : (h % 32 == 0) ≡ false = ground (arith, valid) in
      let k24 : leb 24 (h % 32) ≡ false = lt→leb_false 24 (h % 32) valid.2 in
      let mark : (marker && false) ≡ false = marker_ends marker in
      rw
        (
          starts,
          ends,
          kind,
          k0,
          k24,
          mark,
          header_back,
          goes_on seq n buf piece true marker head few fits,
          good,
        )
        refl
