-- ===== src/Flv/Audio.antt =====
-- pkg/muxer/flv: the parser of audio bodies takes back what the muxer makes.
use liveforge.Base.{
  ℕ, ◌+◌, ◌*◌, ◌^◌, ◌<◌, ◌≡◌, ◌≢◌, refl, ap, ◌∙◌, ℤ, Bool, true, false, some, List, ◌∷◌, ◌++◌,
  arith, ◌==◌, if◌then◌else◌, ℕ_discrete, Bool-cases, inl, inr,
}
use liveforge.AvFrame.{
  Frame, new_frame, media_type_audio, frame_type_interframe, frame_type_sequence_header,
}
use liveforge.AvFrame.Codec.{aac, mp3}
use liveforge.Bytes.{ok, err, ok_unique, put32, be32-put32}
use liveforge.Flv.{
  unsupported, audio_codec_to_four_cc, audio_codec_to_flv, flv_audio_codec_to_av_frame,
  audio_four_cc_to_codec,
}
use liveforge.Flv.Payload.{
  parse_classic_audio_payload, parse_enhanced_audio_payload, parse_audio_payload,
}
use liveforge.Flv.Mux.{is_sequence_header, classic_audio_body, enhanced_audio_body}
use liveforge.Flv.Codes.{audio_four_cc_lem}

abbrev pub audio_type : ℕ → ℕ
audio_type t =
    if t == frame_type_sequence_header then frame_type_sequence_header else frame_type_interframe

-- FLV has one time for audio.
abbrev pub carried_audio : Frame → ℕ → Frame
carried_audio frame t = new_frame media_type_audio frame.codec t frame.dts frame.dts frame.payload

-- a raw MP3 frame has no packet type, so that nothing is a sequence header
abbrev pub classic_audio_type : Frame → ℕ
classic_audio_type frame =
    if frame.codec == aac then audio_type frame.frame_type else frame_type_interframe

audio_written :
    (frame : Frame)
    → (audio_codec_to_four_cc frame.codec == 0) ≡ false
    → enhanced_audio_body frame
      ≡ ok (
          (9 * 16 + (if is_sequence_header frame then 0 else 1))
          ∷ (put32 (audio_codec_to_four_cc frame.codec) ++ frame.payload))
unfolding enhanced_audio_body
audio_written frame k = rw k refl

audio_unknown :
    (frame : Frame)
    → (audio_codec_to_four_cc frame.codec == 0) ≡ true
    → enhanced_audio_body frame ≡ err unsupported
unfolding enhanced_audio_body
audio_unknown frame k = rw k refl

parse_enhanced_audio :
    (header : Bool) (f : ℕ) (dts : ℤ) (payload : List ℕ)
    → f < 2 ^ 32
    → (audio_four_cc_to_codec f == 0) ≡ false
    → parse_audio_payload ((9 * 16 + (if header then 0 else 1)) ∷ (put32 f ++ payload)) dts
      ≡ ok (
          some (
            new_frame media_type_audio
              (audio_four_cc_to_codec f)
              (if header then frame_type_sequence_header else frame_type_interframe)
              dts
              dts
              payload))
unfolding parse_audio_payload parse_enhanced_audio_payload
parse_enhanced_audio true f dts payload lt known = rw (be32-put32 f lt, known) refl
parse_enhanced_audio false f dts payload lt known = rw (be32-put32 f lt, known) refl

aac_written :
    (frame : Frame)
    → frame.codec ≡ aac
    → classic_audio_body frame
      ≡ ok (175 ∷ ((if is_sequence_header frame then 0 else 1) ∷ frame.payload))
unfolding classic_audio_body audio_codec_to_flv
aac_written frame a = rw a refl

mp3_written :
    (frame : Frame) → frame.codec ≡ mp3 → classic_audio_body frame ≡ ok (47 ∷ frame.payload)
unfolding classic_audio_body audio_codec_to_flv
mp3_written frame m = rw m refl

classic_audio_unknown :
    (frame : Frame)
    → frame.codec ≢ aac
    → frame.codec ≢ mp3
    → classic_audio_body frame ≡ err unsupported
unfolding classic_audio_body
classic_audio_unknown frame na nm =
    let a : (frame.codec == aac) ≡ false = ground arith in
    let m : (frame.codec == mp3) ≡ false = ground arith in rw (a, m) refl

parse_aac :
    (header : Bool) (dts : ℤ) (payload : List ℕ)
    → parse_audio_payload (175 ∷ ((if header then 0 else 1) ∷ payload)) dts
      ≡ ok (
          some (
            new_frame media_type_audio aac
              (if header then frame_type_sequence_header else frame_type_interframe)
              dts
              dts
              payload))
unfolding parse_audio_payload parse_classic_audio_payload flv_audio_codec_to_av_frame
parse_aac true dts payload = refl
parse_aac false dts payload = refl

parse_mp3 :
    (dts : ℤ) (payload : List ℕ)
    → parse_audio_payload (47 ∷ payload) dts
      ≡ ok (some (new_frame media_type_audio mp3 frame_type_interframe dts dts payload))
unfolding parse_audio_payload parse_classic_audio_payload flv_audio_codec_to_av_frame
parse_mp3 dts payload = refl

pub enhanced_audio_lem :
    (frame : Frame) (body : List ℕ)
    → enhanced_audio_body frame ≡ ok body
    → parse_audio_payload body frame.dts
      ≡ ok (some (carried_audio frame (audio_type frame.frame_type)))
enhanced_audio_lem frame body e = elim (Bool-cases (audio_codec_to_four_cc frame.codec == 0)) [
  | inl unknown ↦ let refused = audio_unknown frame unknown in cc
  | inr k ↦
      let (back, lt, known) = audio_four_cc_lem frame.codec k in
      ap (λ b. parse_audio_payload b frame.dts) (ok_unique _ e (audio_written frame k))
      ∙ parse_enhanced_audio (is_sequence_header frame) (audio_codec_to_four_cc frame.codec)
          frame.dts frame.payload lt (ap (λ c. c == 0) back ∙ known)
      ∙ ap
          (λ c. ok (
            some (
              new_frame media_type_audio c (audio_type frame.frame_type) frame.dts frame.dts
                frame.payload)))
          back
]

pub classic_audio_lem :
    (frame : Frame) (body : List ℕ)
    → classic_audio_body frame ≡ ok body
    → parse_audio_payload body frame.dts
      ≡ ok (some (carried_audio frame (classic_audio_type frame)))
classic_audio_lem frame body e = elim (ℕ_discrete frame.codec aac) [
  | yes a ↦
      ap (λ b. parse_audio_payload b frame.dts) (ok_unique _ e (aac_written frame a))
      ∙ parse_aac (is_sequence_header frame) frame.dts frame.payload
      ∙ rw a refl
  | no na ↦ elim (ℕ_discrete frame.codec mp3) [
    | yes m ↦
        ap (λ b. parse_audio_payload b frame.dts) (ok_unique _ e (mp3_written frame m))
        ∙ parse_mp3 frame.dts frame.payload
        ∙ rw m refl
    | no nm ↦ let refused = classic_audio_unknown frame na nm in cc
  ]
]
