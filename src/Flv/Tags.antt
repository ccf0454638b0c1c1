-- ===== src/Flv/Tags.antt =====
-- pkg/muxer/flv: one tag, from its body to the frame that the demuxer returns.
use liveforge.Base.{
  ℕ, ◌+◌, ◌*◌, ◌/◌, ◌%◌, ◌^◌, ◌<◌, ◌≡◌, refl, sym, ap, ◌∙◌, subst, ℤ, pos, InInt64, ◌||◌, some,
  List, ◌++◌, arith, ◌==◌, if◌then◌else◌, length, length-append, append_assoc, Bool-cases, inl, inr,
}
use liveforge.AvFrame.{Frame, is_video}
use liveforge.AvFrame.Codec.{h264, aac, mp3}
use liveforge.Bytes.{ok, ◌>>=◌, read_full, read_full-append, put32, be24-put24}
use liveforge.Flv.{
  end_of_input, EncodingMode, auto, classic, enhanced, tag_type_video, tag_type_audio,
}
use liveforge.Flv.Payload.{parse_video_payload, parse_audio_payload}
use liveforge.Flv.Mux.{
  Muxer, to_uint32, write_tag, classic_video_body, enhanced_video_body, video_body,
  classic_audio_body, enhanced_audio_body, audio_body,
}
use liveforge.Flv.Demux.{parse_tag, read_one_tag}
use liveforge.Flv.Bodies.{carried_video, classic_video_lem}
use liveforge.Flv.Enhanced.{enhanced_pts, enhanced_video_lem}
use liveforge.Flv.Audio.{
  audio_type, carried_audio, classic_audio_type, enhanced_audio_lem, classic_audio_lem,
}

read_exact :
    (n : ℕ) (bs rest : List ℕ)
    → n ≡ length bs
    → read_full end_of_input n (bs ++ rest) ≡ ok (bs, rest)
read_exact n bs rest e =
    ap (λ k. read_full end_of_input k (bs ++ rest)) e ∙ read_full-append end_of_input bs rest

-- A tag comes back with its type, its body and its timestamp.
tag_lem :
    (tag_type ms : ℕ) (body rest : List ℕ)
    → ms < 2 ^ 32
    → length body < 2 ^ 24
    → read_one_tag (write_tag tag_type (pos ms) body ++ rest)
      ≡ (parse_tag tag_type body ms >>= (λ frame. ok (frame, rest)))
unfolding read_one_tag write_tag to_uint32
tag_lem tag_type ms body rest lt size =
    let ts : ms % 2 ^ 32 ≡ ms = omega arith in
    let time : ms / 16777216 * 16777216
          + ((ms / 65536 % 256 * 256 + ms / 256 % 256) * 256 + ms % 256)
        ≡ ms =
      omega arith in
    rw
      (
        ts,
        be24-put24 (length body) size,
        append_assoc body (put32 (11 + length body)) rest,
        read_exact (length body) body (put32 (11 + length body) ++ rest) refl,
        time,
      )
      refl

-- The times of a frame are those of an FLV tag: the DTS is at least 0 and below 2 ^ 32.
pub record IsTimed (frame : Frame) : Type 0 where
  pub ms : ℕ
  pub dts_eq : frame.dts ≡ pos ms
  pub ms_lt : ms < 2 ^ 32
  pub pts_in : InInt64 frame.pts

abbrev pub video_pts : EncodingMode → Frame → ℤ
video_pts classic frame = frame.pts
video_pts enhanced frame = enhanced_pts frame
video_pts auto frame = if frame.codec == h264 then frame.pts else enhanced_pts frame

abbrev pub audio_type_in : EncodingMode → Frame → ℕ
audio_type_in classic frame = classic_audio_type frame
audio_type_in enhanced frame = audio_type frame.frame_type
audio_type_in auto frame =
    if (frame.codec == aac) || (frame.codec == mp3)
    then classic_audio_type frame
    else audio_type frame.frame_type

-- What FLV keeps of a frame.
abbrev pub carried : Muxer → Frame → Frame
carried m frame =
    if is_video frame.media_type
    then carried_video frame (video_pts m.video_mode frame)
    else carried_audio frame (audio_type_in m.audio_mode frame)

dts_in : (frame : Frame) → IsTimed frame → InInt64 frame.dts
dts_in frame t = subst InInt64 (sym t.dts_eq) (omega (arith, t.ms_lt), omega arith)

video_body_lem :
    (mode : EncodingMode) (frame : Frame) (body : List ℕ)
    → IsTimed frame
    → video_body mode frame ≡ ok body
    → parse_video_payload body frame.dts ≡ ok (some (carried_video frame (video_pts mode frame)))
video_body_lem classic frame body t e = classic_video_lem frame body t.pts_in e
video_body_lem enhanced frame body t e = enhanced_video_lem frame body (dts_in frame t) t.pts_in e
video_body_lem auto frame body t e = elim (Bool-cases (frame.codec == h264)) [
  | inl h ↦
      let e1 : classic_video_body frame ≡ ok body =
        ap (λ b. if b then classic_video_body frame else enhanced_video_body frame) (sym h) ∙ e in
      rw h (classic_video_lem frame body t.pts_in e1)
  | inr h ↦
      let e1 : enhanced_video_body frame ≡ ok body =
        ap (λ b. if b then classic_video_body frame else enhanced_video_body frame) (sym h) ∙ e in
      rw h (enhanced_video_lem frame body (dts_in frame t) t.pts_in e1)
]

audio_body_lem :
    (mode : EncodingMode) (frame : Frame) (body : List ℕ)
    → audio_body mode frame ≡ ok body
    → parse_audio_payload body frame.dts
      ≡ ok (some (carried_audio frame (audio_type_in mode frame)))
audio_body_lem classic frame body e = classic_audio_lem frame body e
audio_body_lem enhanced frame body e = enhanced_audio_lem frame body e
audio_body_lem auto frame body e =
    elim (Bool-cases ((frame.codec == aac) || (frame.codec == mp3))) [
      | inl h ↦
          let e1 : classic_audio_body frame ≡ ok body =
            ap (λ b. if b then classic_audio_body frame else enhanced_audio_body frame) (sym h)
            ∙ e in
          rw h (classic_audio_lem frame body e1)
      | inr h ↦
          let e1 : enhanced_audio_body frame ≡ ok body =
            ap (λ b. if b then classic_audio_body frame else enhanced_audio_body frame) (sym h)
            ∙ e in
          rw h (enhanced_audio_lem frame body e1)
    ]

-- A tag whose body the parser of its type takes back is read as that frame.
read_back :
    (tag_type : ℕ) (frame got : Frame) (body rest : List ℕ)
    → IsTimed frame
    → length body < 2 ^ 24
    → ((ms : ℕ) → frame.dts ≡ pos ms → parse_tag tag_type body ms ≡ ok (some got))
    → read_one_tag (write_tag tag_type frame.dts body ++ rest) ≡ ok (some got, rest)
read_back tag_type frame got body rest t size parsed =
    ap (λ d. read_one_tag (write_tag tag_type d body ++ rest)) t.dts_eq
    ∙ tag_lem tag_type t.ms body rest t.ms_lt size
    ∙ ap (λ x. x >>= (λ f. ok (f, rest))) (parsed t.ms t.dts_eq)

pub length-write_tag :
    (tag_type : ℕ) (dts : ℤ) (body : List ℕ)
    → length (write_tag tag_type dts body) ≡ 15 + length body
unfolding write_tag
length-write_tag tag_type dts body = omega (arith, length-append body (put32 (11 + length body)))

pub video_back :
    (mode : EncodingMode) (frame : Frame) (body rest : List ℕ)
    → IsTimed frame
    → length body < 2 ^ 24
    → video_body mode frame ≡ ok body
    → read_one_tag (write_tag tag_type_video frame.dts body ++ rest)
      ≡ ok (some (carried_video frame (video_pts mode frame)), rest)
video_back mode frame body rest t size e =
    read_back tag_type_video frame _ body rest t size
      (λ ms d. ap (parse_video_payload body) (sym d) ∙ video_body_lem mode frame body t e)

pub audio_back :
    (mode : EncodingMode) (frame : Frame) (body rest : List ℕ)
    → IsTimed frame
    → length body < 2 ^ 24
    → audio_body mode frame ≡ ok body
    → read_one_tag (write_tag tag_type_audio frame.dts body ++ rest)
      ≡ ok (some (carried_audio frame (audio_type_in mode frame)), rest)
audio_back mode frame body rest t size e =
    read_back tag_type_audio frame _ body rest t size
      (λ ms d. ap (parse_audio_payload body) (sym d) ∙ audio_body_lem mode frame body e)
