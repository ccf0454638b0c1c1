-- ===== src/Flv/Bodies.antt =====
-- pkg/muxer/flv: the parsers of payload.go take back the tag bodies that muxer.go makes.
use liveforge.Base.{
  ℕ, ◌+◌, ◌*◌, ◌/◌, ◌%◌, ◌^◌, ◌≤◌, ◌<◌, ◌≡◌, refl, sym, ap, ap₂, ◌∙◌, ℤ, ◌+ℤ◌, ◌-ℤ◌, wrap_int64,
  InInt64, Bool, true, false, some, List, ◌∷◌, ◌++◌, arith, leb, ◌==◌, ==_iff, if◌then◌else◌,
  Bool-cases, inl, inr,
}
use liveforge.AvFrame.{
  Frame, new_frame, media_type_video, frame_type_keyframe, frame_type_interframe,
  frame_type_sequence_header,
}
use liveforge.AvFrame.Codec.{h264}
use liveforge.Bytes.{ok, err, Result-cases, ok_unique, put24, put32, be24-put24, be32-put32}
use liveforge.Flv.{
  Error, unsupported, encode_si24, decode_si24, av_frame_type_to_flv, video_codec_to_flv,
  flv_video_codec_to_av_frame, video_four_cc_to_codec,
}
use liveforge.Flv.Payload.{
  frame_type_from_flv, video_frame, enhanced_video_packet, parse_classic_video_payload,
  parse_enhanced_video_payload, parse_video_payload,
}
use liveforge.Flv.Mux.{is_sequence_header, classic_video_body}
use liveforge.Flv.Codes.{signed, encode_si24_lem, wrap_back}

-- FLV tells key frames and sequence headers of video from all other frames, and of audio only the
-- sequence headers.
abbrev pub video_type : ℕ → ℕ
video_type t =
    if t == frame_type_sequence_header
    then frame_type_sequence_header
    else if t == frame_type_keyframe
    then frame_type_keyframe
    else frame_type_interframe

abbrev pub carried_video : Frame → ℤ → Frame
carried_video frame pts =
    new_frame media_type_video frame.codec (video_type frame.frame_type) frame.dts pts frame.payload

pub flv_type_lem :
    (t : ℕ)
    → (1 ≤ av_frame_type_to_flv t)
      × (av_frame_type_to_flv t ≤ 2)
      × ((if t == frame_type_sequence_header
            then frame_type_sequence_header
            else frame_type_from_flv (av_frame_type_to_flv t))
          ≡ video_type t)
unfolding av_frame_type_to_flv frame_type_from_flv
flv_type_lem t = ground arith

parse_classic :
    (header : Bool) (t n : ℕ) (payload : List ℕ) (dts : ℤ)
    → 1 ≤ t
    → t ≤ 2
    → n < 2 ^ 24
    → parse_video_payload ((t * 16 + 7) ∷ ((if header then 0 else 1) ∷ (put24 n ++ payload))) dts
      ≡ ok (
          video_frame h264
            (if header then frame_type_sequence_header else frame_type_from_flv t)
            dts
            (signed n)
            0
            payload)
unfolding parse_video_payload parse_classic_video_payload flv_video_codec_to_av_frame decode_si24
parse_classic true t n payload dts lo hi h =
    let first : leb 128 (t * 16 + 7) ≡ false = ground arith in
    let codec : (t * 16 + 7) % 16 ≡ 7 = omega arith in rw (first, codec, be24-put24 n h) refl
parse_classic false t n payload dts lo hi h =
    let first : leb 128 (t * 16 + 7) ≡ false = ground arith in
    let codec : (t * 16 + 7) % 16 ≡ 7 = omega arith in
    let type : (t * 16 + 7) / 16 ≡ t = omega arith in rw (first, codec, type, be24-put24 n h) refl

pub parse_enhanced :
    (header : Bool) (t f : ℕ) (dts : ℤ) (payload : List ℕ)
    → 1 ≤ t
    → t ≤ 2
    → f < 2 ^ 32
    → (video_four_cc_to_codec f == 0) ≡ false
    → parse_video_payload ((128 + t * 16 + (if header then 0 else 1)) ∷ (put32 f ++ payload)) dts
      ≡ enhanced_video_packet
          (video_four_cc_to_codec f)
          (if header then 0 else 1)
          ((128 + t * 16 + (if header then 0 else 1)) ∷ (put32 f ++ payload))
          dts
unfolding parse_video_payload parse_enhanced_video_payload
parse_enhanced true t f dts payload lo hi lt known =
    let first : leb 128 (128 + t * 16 + 0) ≡ true = ground arith in
    let packet : (128 + t * 16 + 0) % 16 ≡ 0 = omega arith in
    rw (first, packet, be32-put32 f lt, known) refl
parse_enhanced false t f dts payload lo hi lt known =
    let first : leb 128 (128 + t * 16 + 1) ≡ true = ground arith in
    let packet : (128 + t * 16 + 1) % 16 ≡ 1 = omega arith in
    rw (first, packet, be32-put32 f lt, known) refl

-- the composition offset that is written, and what comes back of it
pub offset_back :
    (frame : Frame) (n : ℕ)
    → InInt64 frame.pts
    → signed n ≡ wrap_int64 (frame.pts -ℤ frame.dts)
    → wrap_int64 (frame.dts +ℤ signed n) ≡ frame.pts
offset_back frame n h e = ap (λ c. wrap_int64 (frame.dts +ℤ c)) e ∙ wrap_back frame.dts frame.pts h

classic_written :
    (frame : Frame) (cts : List ℕ)
    → frame.codec ≡ h264
    → encode_si24 (wrap_int64 (frame.pts -ℤ frame.dts)) ≡ ok cts
    → classic_video_body frame
      ≡ ok (
          (av_frame_type_to_flv frame.frame_type * 16 + 7)
          ∷ ((if is_sequence_header frame then 0 else 1) ∷ (cts ++ frame.payload)))
unfolding classic_video_body video_codec_to_flv
classic_written frame cts c e = rw (c, e) refl

classic_overflow :
    (frame : Frame) (x : Error)
    → frame.codec ≡ h264
    → encode_si24 (wrap_int64 (frame.pts -ℤ frame.dts)) ≡ err x
    → classic_video_body frame ≡ err x
unfolding classic_video_body video_codec_to_flv
classic_overflow frame x c e = rw (c, e) refl

classic_unknown :
    (frame : Frame) → (frame.codec == h264) ≡ false → classic_video_body frame ≡ err unsupported
unfolding classic_video_body
classic_unknown frame h = rw h refl

-- the classic body of a frame with a codec that it carries
known_video_lem :
    (frame : Frame) (body cts : List ℕ)
    → InInt64 frame.pts
    → frame.codec ≡ h264
    → encode_si24 (wrap_int64 (frame.pts -ℤ frame.dts)) ≡ ok cts
    → classic_video_body frame ≡ ok body
    → parse_video_payload body frame.dts ≡ ok (some (carried_video frame frame.pts))
known_video_lem frame body cts h c encoded e =
    let (n, lt, bytes, value) = encode_si24_lem _ cts encoded in
    let (lo, hi, type) = flv_type_lem frame.frame_type in
    let made = ok_unique _ e (classic_written frame cts c encoded) in
    ap (λ b. parse_video_payload b frame.dts)
      (made
        ∙ ap
            (λ x.
              (av_frame_type_to_flv frame.frame_type * 16 + 7)
              ∷ ((if is_sequence_header frame then 0 else 1) ∷ (x ++ frame.payload)))
            bytes)
    ∙ parse_classic (is_sequence_header frame) (av_frame_type_to_flv frame.frame_type) n
        frame.payload frame.dts lo hi lt
    ∙ ap₂ (λ t p. ok (some (new_frame media_type_video h264 t frame.dts p frame.payload))) type
        (offset_back frame n h value)
    ∙ ap
        (λ k. ok (
          some (
            new_frame media_type_video k (video_type frame.frame_type) frame.dts frame.pts
              frame.payload)))
        (sym c)

-- A classic video body comes back with its composition offset.
pub classic_video_lem :
    (frame : Frame) (body : List ℕ)
    → InInt64 frame.pts
    → classic_video_body frame ≡ ok body
    → parse_video_payload body frame.dts ≡ ok (some (carried_video frame frame.pts))
classic_video_lem frame body h e = elim (Bool-cases (frame.codec == h264)) [
  | inl known ↦
      let c : frame.codec ≡ h264 = (==_iff frame.codec h264).0 known in
      elim (Result-cases (encode_si24 (wrap_int64 (frame.pts -ℤ frame.dts)))) [
        | inl (cts, encoded) ↦ known_video_lem frame body cts h c encoded e
        | inr (x, failed) ↦ let refused = classic_overflow frame x c failed in cc
      ]
  | inr unknown ↦ let refused = classic_unknown frame unknown in cc
]
