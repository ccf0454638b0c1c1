-- ===== src/Flv/Enhanced.antt =====
-- pkg/muxer/flv: the parser of enhanced video bodies takes back what the muxer makes.
use liveforge.Base.{
  ℕ, ◌+◌, ◌*◌, ◌/◌, ◌%◌, ◌^◌, ◌≤◌, ◌<◌, ◌≡◌, refl, sym, ap, ap₂, ◌∙◌, ℤ, pos, ◌+ℤ◌, ◌-ℤ◌,
  wrap_int64, InInt64, wrap_int64_of_in, eq_of_parts, +ℤ_parts, ltb_ℤ, Bool, true, false, ◌||◌,
  some, List, [], ◌∷◌, ◌++◌, arith, ◌==◌, if◌then◌else◌, Bool-cases, inl, inr,
}
use liveforge.AvFrame.{
  Frame, new_frame, media_type_video, frame_type_keyframe, frame_type_interframe,
  frame_type_sequence_header,
}
use liveforge.AvFrame.Codec.{h264, h265}
use liveforge.Bytes.{ok, err, Result-cases, ok_unique, put24, put32, be24-put24}
use liveforge.Flv.{
  Error, unsupported, video_codec_to_four_cc, encode_si24, decode_si24, av_frame_type_to_flv,
}
use liveforge.Flv.Payload.{
  frame_type_from_flv, video_frame, enhanced_video_packet, parse_video_payload,
}
use liveforge.Flv.Mux.{is_sequence_header, enhanced_offset, enhanced_video_body}
use liveforge.Flv.Bodies.{carried_video, flv_type_lem, parse_enhanced, offset_back}
use liveforge.Flv.Codes.{video_four_cc_lem, signed, encode_si24_lem}

-- What the muxer writes for the composition offset, in its three ways.
data Offset (frame : Frame) (bytes : List ℕ) : Type 0 where
  of_header : is_sequence_header frame ≡ true → bytes ≡ [] → Offset frame bytes
  of_difference :
      is_sequence_header frame ≡ false
      → ((frame.codec == h264) || (frame.codec == h265)) ≡ true
      → encode_si24 (wrap_int64 (frame.pts -ℤ frame.dts)) ≡ ok bytes
      → Offset frame bytes
  of_same :
      is_sequence_header frame ≡ false
      → ((frame.codec == h264) || (frame.codec == h265)) ≡ false
      → bytes ≡ []
      → frame.pts ≡ frame.dts
      → Offset frame bytes

not_less : (a b : ℤ) → (ltb_ℤ a b || ltb_ℤ b a) ≡ false → a ≡ b
not_less a b h = eq_of_parts a b (ground arith)

offset_lem :
    (frame : Frame) (bytes : List ℕ) (header has_offset differ : Bool)
    → is_sequence_header frame ≡ header
    → ((frame.codec == h264) || (frame.codec == h265)) ≡ has_offset
    → (ltb_ℤ frame.pts frame.dts || ltb_ℤ frame.dts frame.pts) ≡ differ
    → enhanced_offset frame ≡ ok bytes
    → Offset frame bytes
unfolding enhanced_offset
offset_lem frame bytes true has_offset differ eh eo ed e =
    let same : enhanced_offset frame ≡ ok [] = rw eh refl in of_header eh (ok_unique _ e same)
offset_lem frame bytes false true differ eh eo ed e =
    let same : enhanced_offset frame ≡ encode_si24 (wrap_int64 (frame.pts -ℤ frame.dts)) =
      rw (eh, eo) refl in
    of_difference eh eo (sym same ∙ e)
offset_lem frame bytes false false true eh eo ed e =
    let same : enhanced_offset frame ≡ err unsupported = rw (eh, eo, ed) refl in cc
offset_lem frame bytes false false false eh eo ed e =
    let same : enhanced_offset frame ≡ ok [] = rw (eh, eo, ed) refl in
    of_same eh eo (ok_unique _ e same) (not_less frame.pts frame.dts ed)

-- the time that comes back: a sequence header has no composition offset
abbrev pub enhanced_pts : Frame → ℤ
enhanced_pts frame = if is_sequence_header frame then frame.dts else frame.pts

abbrev first_byte : Frame → ℕ
first_byte frame =
    128 + av_frame_type_to_flv frame.frame_type * 16 + (if is_sequence_header frame then 0 else 1)

enhanced_written :
    (frame : Frame) (offset : List ℕ)
    → (video_codec_to_four_cc frame.codec == 0) ≡ false
    → enhanced_offset frame ≡ ok offset
    → enhanced_video_body frame
      ≡ ok (
          first_byte frame
          ∷ (put32 (video_codec_to_four_cc frame.codec) ++ (offset ++ frame.payload)))
unfolding enhanced_video_body
enhanced_written frame offset k e = rw (k, e) refl

enhanced_unknown :
    (frame : Frame)
    → (video_codec_to_four_cc frame.codec == 0) ≡ true
    → enhanced_video_body frame ≡ err unsupported
unfolding enhanced_video_body
enhanced_unknown frame k = rw k refl

enhanced_failed :
    (frame : Frame) (x : Error)
    → (video_codec_to_four_cc frame.codec == 0) ≡ false
    → enhanced_offset frame ≡ err x
    → enhanced_video_body frame ≡ err x
unfolding enhanced_video_body
enhanced_failed frame x k e = rw (k, e) refl

difference_read :
    (t n f c : ℕ) (payload : List ℕ) (dts : ℤ)
    → 1 ≤ t
    → t ≤ 2
    → n < 2 ^ 24
    → ((c == h264) || (c == h265)) ≡ true
    → enhanced_video_packet c 1 ((128 + t * 16 + 1) ∷ (put32 f ++ (put24 n ++ payload))) dts
      ≡ ok (video_frame c (frame_type_from_flv t) dts (signed n) 0 payload)
unfolding decode_si24
difference_read t n f c payload dts lo hi lt has =
    let type : (128 + t * 16 + 1) / 16 % 8 ≡ t = omega arith in rw (has, type, be24-put24 n lt) refl

same_read :
    (t f c : ℕ) (payload : List ℕ) (dts : ℤ)
    → 1 ≤ t
    → t ≤ 2
    → ((c == h264) || (c == h265)) ≡ false
    → enhanced_video_packet c 1 ((128 + t * 16 + 1) ∷ (put32 f ++ payload)) dts
      ≡ ok (video_frame c (frame_type_from_flv t) dts (pos 0) 0 payload)
same_read t f c payload dts lo hi has =
    let type : (128 + t * 16 + 1) / 16 % 8 ≡ t = omega arith in rw (has, type) refl

pub wrap_zero : (d : ℤ) → InInt64 d → wrap_int64 (d +ℤ pos 0) ≡ d
wrap_zero d h =
    let same : d +ℤ pos 0 ≡ d = eq_of_parts (d +ℤ pos 0) d (omega (arith, +ℤ_parts d (pos 0))) in
    ap wrap_int64 same ∙ wrap_int64_of_in d h

plain_type :
    (t : ℕ)
    → (t == frame_type_sequence_header) ≡ false
    → frame_type_from_flv (av_frame_type_to_flv t)
      ≡ (if t == frame_type_keyframe then frame_type_keyframe else frame_type_interframe)
unfolding av_frame_type_to_flv frame_type_from_flv
plain_type t h = ground arith

packet_lem :
    (frame : Frame) (f : ℕ) (offset : List ℕ)
    → InInt64 frame.dts
    → InInt64 frame.pts
    → Offset frame offset
    → enhanced_video_packet frame.codec
        (if is_sequence_header frame then 0 else 1)
        (first_byte frame ∷ (put32 f ++ (offset ++ frame.payload)))
        frame.dts
      ≡ ok (some (carried_video frame (enhanced_pts frame)))
packet_lem frame f offset hd hp (of_header eh eb) = rw (eh, eb, wrap_zero frame.dts hd) refl
packet_lem frame f offset hd hp (of_difference eh has encoded) =
    let (n, lt, bytes, value) = encode_si24_lem _ offset encoded in
    let (lo, hi, _) = flv_type_lem frame.frame_type in
    rw (eh, bytes)
      (difference_read (av_frame_type_to_flv frame.frame_type) n f frame.codec frame.payload
          frame.dts lo hi lt has
        ∙ ap₂
            (λ t p. ok (some (new_frame media_type_video frame.codec t frame.dts p frame.payload)))
            (plain_type frame.frame_type eh) (offset_back frame n hp value))
packet_lem frame f offset hd hp (of_same eh has eb same) =
    let (lo, hi, _) = flv_type_lem frame.frame_type in
    rw (eh, eb)
      (same_read (av_frame_type_to_flv frame.frame_type) f frame.codec frame.payload frame.dts lo hi
          has
        ∙ ap₂
            (λ t p. ok (some (new_frame media_type_video frame.codec t frame.dts p frame.payload)))
            (plain_type frame.frame_type eh) (wrap_zero frame.dts hd ∙ sym same))

known_enhanced_lem :
    (frame : Frame) (body offset : List ℕ)
    → InInt64 frame.dts
    → InInt64 frame.pts
    → (video_codec_to_four_cc frame.codec == 0) ≡ false
    → enhanced_offset frame ≡ ok offset
    → enhanced_video_body frame ≡ ok body
    → parse_video_payload body frame.dts ≡ ok (some (carried_video frame (enhanced_pts frame)))
known_enhanced_lem frame body offset hd hp k eo e =
    let f : ℕ = video_codec_to_four_cc frame.codec in
    let (back, lt, known) = video_four_cc_lem frame.codec k in
    let (lo, hi, _) = flv_type_lem frame.frame_type in
    let written = ok_unique _ e (enhanced_written frame offset k eo) in
    ap (λ b. parse_video_payload b frame.dts) written
    ∙ parse_enhanced (is_sequence_header frame) (av_frame_type_to_flv frame.frame_type) f frame.dts
        (offset ++ frame.payload) lo hi lt (ap (λ c. c == 0) back ∙ known)
    ∙ ap
        (λ c.
          enhanced_video_packet c (if is_sequence_header frame then 0 else 1)
            (first_byte frame ∷ (put32 f ++ (offset ++ frame.payload))) frame.dts)
        back
    ∙ packet_lem frame f offset hd hp (offset_lem frame offset _ _ _ refl refl refl eo)

-- An enhanced video body comes back, with the composition offset where it is written.
pub enhanced_video_lem :
    (frame : Frame) (body : List ℕ)
    → InInt64 frame.dts
    → InInt64 frame.pts
    → enhanced_video_body frame ≡ ok body
    → parse_video_payload body frame.dts ≡ ok (some (carried_video frame (enhanced_pts frame)))
enhanced_video_lem frame body hd hp e =
    elim (Bool-cases (video_codec_to_four_cc frame.codec == 0)) [
      | inl unknown ↦ let refused = enhanced_unknown frame unknown in cc
      | inr k ↦ elim (Result-cases (enhanced_offset frame)) [
        | inl (offset, eo) ↦ known_enhanced_lem frame body offset hd hp k eo e
        | inr (x, failed) ↦ let refused = enhanced_failed frame x k failed in cc
      ]
    ]
