-- ===== src/Flv/RoundTrip.antt =====
-- pkg/muxer/flv: the demuxer reads back the frames that the muxer has written, and always ends.
use liveforge.Base.{
  ℕ, ◌^◌, ◌<◌, ◌≡◌, refl, ap, ◌∙◌, Bool, true, false, some, List, ◌++◌, arith, if◌then◌else◌,
  length, Bool-cases, inl, inr,
}
use liveforge.AvFrame.{Frame, is_video, is_audio}
use liveforge.Bytes.{ok, err, ◌>>=◌, Result-cases, ok_unique}
use liveforge.Flv.{unsupported, tag_type_video, tag_type_audio}
use liveforge.Flv.Mux.{Muxer, write_tag, video_body, audio_body, video_tag, audio_tag, write_frame}
use liveforge.Flv.Demux.{read_one_tag}
use liveforge.Flv.Bodies.{carried_video}
use liveforge.Flv.Audio.{carried_audio}
use liveforge.Flv.Tags.{
  IsTimed, video_pts, audio_type_in, carried, video_back, audio_back, length-write_tag,
}

video_frame_lem :
    (m : Muxer) (frame : Frame) (tag rest : List ℕ)
    → IsTimed frame
    → video_tag m.video_mode frame ≡ ok tag
    → length tag < 2 ^ 24
    → read_one_tag (tag ++ rest)
      ≡ ok (some (carried_video frame (video_pts m.video_mode frame)), rest)
video_frame_lem m frame tag rest t e size = elim (Result-cases (video_body m.video_mode frame)) [
  | inl (body, made) ↦
      let same : tag ≡ write_tag tag_type_video frame.dts body =
        ok_unique _ e (ap (λ x. x >>= (λ b. ok (write_tag tag_type_video frame.dts b))) made) in
      ap (λ b. read_one_tag (b ++ rest)) same
      ∙ video_back m.video_mode frame body rest t
          (omega (arith, size, ap length same, length-write_tag tag_type_video frame.dts body)) made
  | inr (x, no_body) ↦
      let no_tag : video_tag m.video_mode frame ≡ err x =
        ap (λ y. y >>= (λ b. ok (write_tag tag_type_video frame.dts b))) no_body in
      cc
]

audio_frame_lem :
    (m : Muxer) (frame : Frame) (tag rest : List ℕ)
    → IsTimed frame
    → audio_tag m.audio_mode frame ≡ ok tag
    → length tag < 2 ^ 24
    → read_one_tag (tag ++ rest)
      ≡ ok (some (carried_audio frame (audio_type_in m.audio_mode frame)), rest)
audio_frame_lem m frame tag rest t e size = elim (Result-cases (audio_body m.audio_mode frame)) [
  | inl (body, made) ↦
      let same : tag ≡ write_tag tag_type_audio frame.dts body =
        ok_unique _ e (ap (λ x. x >>= (λ b. ok (write_tag tag_type_audio frame.dts b))) made) in
      ap (λ b. read_one_tag (b ++ rest)) same
      ∙ audio_back m.audio_mode frame body rest t
          (omega (arith, size, ap length same, length-write_tag tag_type_audio frame.dts body)) made
  | inr (x, no_body) ↦
      let no_tag : audio_tag m.audio_mode frame ≡ err x =
        ap (λ y. y >>= (λ b. ok (write_tag tag_type_audio frame.dts b))) no_body in
      cc
]

written_as :
    (m : Muxer) (frame : Frame) (video audio : Bool) (tag : List ℕ)
    → is_video frame.media_type ≡ video
    → is_audio frame.media_type ≡ audio
    → write_frame m frame ≡ ok tag
    → (if video
        then video_tag m.video_mode frame
        else if audio
        then audio_tag m.audio_mode frame
        else err unsupported)
      ≡ ok tag
unfolding write_frame
written_as m frame video audio tag v a e = rw⁻¹ (v, a) e

-- For a frame whose DTS is at least 0 and below 2 ^ 32 and a tag below 2 ^ 24 bytes, in every encoding
-- mode: what WriteFrame wrote, with any bytes behind it, is read by readOneTag as the frame with the
-- times, the frame type and the payload that FLV keeps, and those bytes are left.
pub read_one_tag-write_frame :
    (m : Muxer) (frame : Frame) (tag rest : List ℕ)
    → IsTimed frame
    → write_frame m frame ≡ ok tag
    → length tag < 2 ^ 24
    → read_one_tag (tag ++ rest) ≡ ok (some (carried m frame), rest)
read_one_tag-write_frame m frame tag rest t e size = elim (Bool-cases (is_video frame.media_type)) [
  | inl v ↦ rw v (video_frame_lem m frame tag rest t (written_as m frame true _ tag v refl e) size)
  | inr nv ↦ elim (Bool-cases (is_audio frame.media_type)) [
    | inl a ↦
        rw nv (audio_frame_lem m frame tag rest t (written_as m frame false true tag nv a e) size)
    | inr na ↦
        let refused : err unsupported ≡ ok tag = written_as m frame false false tag nv na e in cc
  ]
]
